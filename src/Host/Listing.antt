-- ===== src/Host/Listing.antt =====
-- execution-engine/src/wasi/common.rs, `WasiWrapper`: the calls that list directories.
use veracruz.Base.{
  ◌>>=◌, ◌>>◌, ℕ, ◌+◌, ◌%◌, ◌^◌, List, [], ◌∷◌, ◌++◌, pure, fail_if, if◌then◌else◌, ltb, length,
  FilePath, root_dir, component_text,
}
use veracruz.Wasi.{Wasi, name_too_long}
use veracruz.Vfs.Impl.{Bytes}
use veracruz.Vfs.File
use veracruz.Vfs.File.{DirEnt}
use veracruz.Host.Memory
use veracruz.Host.Memory.{MemoryExec}
use veracruz.Host.Wrapper.{Host, HostExec, on_memory, on_filesystem}

module _ ⦃k : Host⦄ where
  -- `as_bytes` of the text of a path.
  unfoldable pub path_bytes : FilePath → Bytes
  path_bytes [] = []
  path_bytes (c ∷ []) = k.as_bytes (component_text c)
  path_bytes (root_dir ∷ p) = 47 ∷ path_bytes p
  path_bytes (c ∷ p) = k.as_bytes (component_text c) ++ (47 ∷ path_bytes p)

  unfoldable pub fd_prestat_get : ℕ → ℕ → HostExec Unit
  fd_prestat_get fd address = do
    name_len ← on_filesystem (File.fd_prestat_get fd)
    on_memory (Memory.write_buffer address (k.prestat_bytes name_len))

  unfoldable pub fd_prestat_dir_name : ℕ → ℕ → ℕ → HostExec Unit
  unfolding path_bytes
  fd_prestat_dir_name fd address size = do
    result ← on_filesystem (File.fd_prestat_dir_name fd)
    fail_if (ltb size (length (path_bytes result))) name_too_long
    on_memory (Memory.write_buffer address (path_bytes result))

  -- The entries that fit, and how many bytes are written. Sums of `u32` wrap around.
  unfoldable pub write_entries : List (DirEnt × FilePath) → ℕ → ℕ → ℕ → MemoryExec ℕ
  unfolding path_bytes
  write_entries [] buf_ptr buf_len written = pure written
  write_entries ((dir, path) ∷ dir_entries) buf_ptr buf_len written =
      let with_dir = (written + k.dir_ent_size) % 2 ^ 32 in
      if ltb buf_len with_dir then pure buf_len else do
        Memory.write_buffer buf_ptr (k.dir_ent_bytes dir)
        let name_ptr = (buf_ptr + k.dir_ent_size) % 2 ^ 32
        let name_len = length (path_bytes path) % 2 ^ 32
        let with_path = (with_dir + name_len) % 2 ^ 32
        if ltb buf_len with_path then pure buf_len else do
          Memory.write_buffer name_ptr (path_bytes path)
          write_entries dir_entries ((name_ptr + name_len) % 2 ^ 32) buf_len with_path

  unfoldable pub fd_readdir : ⦃w : Wasi⦄ → ℕ → ℕ → ℕ → ℕ → ℕ → HostExec Unit
  unfolding write_entries
  fd_readdir fd buf_ptr buf_len cookie result_ptr = do
    dir_entries ← on_filesystem (File.fd_readdir fd cookie)
    written ← on_memory (write_entries dir_entries buf_ptr buf_len 0)
    on_memory (Memory.write_u32 result_ptr written)
