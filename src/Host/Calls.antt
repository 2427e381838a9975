-- ===== src/Host/Calls.antt =====
-- execution-engine/src/wasi/common.rs: `WasiWrapper`. The trace of calls is output and left out; an
-- argument that is not used is left out too.
use veracruz.Base.{
  ◌>>=◌, ◌>>◌, ℕ, not, some, List, [], ◌∷◌, ◌++◌, fail, gets, modify, ok_or, attempt, map, min,
  resize, length, path_from, ℤ, as_i64, fail_if, suc, ◌+◌, lift, ◌%◌, ◌^◌, ok, err,
}
use veracruz.Wasi.{Wasi, Whence, access, inval, no_sys}
use veracruz.Vfs.Impl.{Bytes}
use veracruz.Vfs.File
use veracruz.Vfs.File.{Services}
use veracruz.Vfs.Directory
use veracruz.Host.Memory
use veracruz.Host.Memory.{MemoryExec, IoVec}
use veracruz.Host.Wrapper.{
  Host, HostExec, PlatformResult, success, unavailable, unknown, on_memory, on_filesystem, decode,
  read_cstring, filestat_time,
}

unfoldable pub args_get : ℕ → ℕ → HostExec Unit
args_get address_for_string_ptrs buf_address = do
  arguments ← gets (λ h. h.program_arguments)
  on_memory (
      Memory.write_string_list (map (λ arg. arg ++ (0 ∷ [])) arguments) buf_address
        address_for_string_ptrs)

unfoldable pub environ_get : ℕ → ℕ → HostExec Unit
environ_get address_for_string_ptrs buf_address = do
  variables ← gets (λ h. h.environment_variables)
  let buffer = map (λ v. (v.0 ++ (61 ∷ [])) ++ (v.1 ++ (0 ∷ []))) variables in
      on_memory (Memory.write_string_list buffer buf_address address_for_string_ptrs)

-- The bytes of a text and of the zero that ends it, summed up.
unfoldable pub sizes : List Bytes → ℕ
sizes [] = 0
sizes (text ∷ texts) = suc (length text) + sizes texts

unfoldable pub args_sizes_get : ℕ → ℕ → HostExec Unit
unfolding sizes
args_sizes_get address_for_counts address_for_buffer_size = do
  arguments ← gets (λ h. h.program_arguments)
  on_memory (Memory.write_u32 address_for_counts (length arguments))
  on_memory (Memory.write_u32 address_for_buffer_size (sizes arguments))

unfoldable pub environ_sizes_get : ℕ → ℕ → HostExec Unit
unfolding sizes
environ_sizes_get address_for_counts address_for_buffer_size = do
  variables ← gets (λ h. h.environment_variables)
  on_memory (Memory.write_u32 address_for_counts (length variables))
  let texts = map (λ v. v.0 ++ (61 ∷ v.1)) variables in
      on_memory (Memory.write_u32 address_for_buffer_size (sizes texts))

unfoldable pub fd_close : ℕ → HostExec Unit
fd_close fd = on_filesystem (File.fd_close fd)

unfoldable pub fd_allocate : ⦃w : Wasi⦄ → ℕ → ℕ → ℕ → HostExec Unit
fd_allocate fd offset len = on_filesystem (File.fd_allocate fd offset len)

unfoldable pub fd_renumber : ℕ → ℕ → HostExec Unit
fd_renumber old_fd new_fd = on_filesystem (File.fd_renumber old_fd new_fd)

unfoldable pub proc_exit : ℕ → HostExec Unit
proc_exit exit_code = modify (λ h. record h { exit_code = some exit_code })

unfoldable pub sched_yield : HostExec Unit
sched_yield = fail no_sys

module _ ⦃w : Wasi⦄ ⦃k : Host⦄ where
  -- What a clock says, behind the permission to ask it.
  unfoldable pub clock : (ℕ → PlatformResult) → ℕ → HostExec ℕ
  clock ask clock_id = do
    enabled ← gets (λ h. h.enable_clock)
    fail_if (not enabled) access
    lift (elim (ask (clock_id % 2 ^ 8)) [
      | success nanos ↦ ok nanos
      | unavailable ↦ err no_sys
      | unknown ↦ err inval
    ])

  unfoldable pub clock_res_get : ℕ → ℕ → HostExec Unit
  unfolding clock
  clock_res_get clock_id address = do
    resolution ← clock k.getclockres clock_id
    on_memory (Memory.write_u64 address resolution)

  unfoldable pub clock_time_get : ℕ → ℕ → HostExec Unit
  unfolding clock
  clock_time_get clock_id address = do
    timespec ← clock k.getclocktime clock_id
    on_memory (Memory.write_u64 address timespec)

  unfoldable pub fd_advise : ℕ → ℕ → ℕ → ℕ → HostExec Unit
  fd_advise fd offset len advice = do
    decoded ← decode (k.advice advice)
    on_filesystem (File.fd_advise fd offset len decoded)

  unfoldable pub fd_fdstat_get : ℕ → ℕ → HostExec Unit
  fd_fdstat_get fd address = do
    stat ← on_filesystem (File.fd_fdstat_get fd)
    on_memory (Memory.write_buffer address (k.fd_stat_bytes stat))

  unfoldable pub fd_fdstat_set_flags : ℕ → ℕ → HostExec Unit
  fd_fdstat_set_flags fd flags = do
    decoded ← decode (k.fd_flags flags)
    on_filesystem (File.fd_fdstat_set_flags fd decoded)

  unfoldable pub fd_fdstat_set_rights : ℕ → ℕ → ℕ → HostExec Unit
  fd_fdstat_set_rights fd rights_base rights_inheriting = do
    base ← decode (k.rights rights_base)
    inheriting ← decode (k.rights rights_inheriting)
    on_filesystem (File.fd_fdstat_set_rights fd base inheriting)

  -- The result of the file system, not the status in it, is what is written.
  unfoldable pub fd_filestat_get : ℕ → ℕ → HostExec Unit
  fd_filestat_get fd address = do
    stat ← attempt (on_filesystem (File.fd_filestat_get fd))
    on_memory (Memory.write_buffer address (k.file_stat_result_bytes stat))

  unfoldable pub fd_filestat_set_size : ℕ → ℕ → HostExec Unit
  fd_filestat_set_size fd size = on_filesystem (File.fd_filestat_set_size fd size)

  unfoldable pub fd_filestat_set_times : ℕ → ℕ → ℕ → ℕ → HostExec Unit
  fd_filestat_set_times fd atime mtime fst_flag = do
    decoded ← decode (k.set_time_flags fst_flag)
    current_time ← gets filestat_time
    on_filesystem (File.fd_filestat_set_times fd atime mtime decoded current_time)

  -- A read of several vectors that fails does so at the first of them, before any is filled.
  unfoldable pub fd_pread : ℕ → ℕ → ℕ → ℕ → ℕ → HostExec Unit
  fd_pread fd iovec_base iovec_count offset address = do
    places ← on_memory (Memory.unpack_places iovec_base 0 iovec_count)
    iovecs ← gets (λ h. Memory.contents_of places h.memory)
    (filled, size_read) ← on_filesystem (File.fd_pread fd iovecs offset)
    on_memory (Memory.put_all places filled)
    on_memory (Memory.write_u32 address size_read)

  -- The vectors are slices of linear memory, which `fd_read` of the file system fills before it moves
  -- the offset: they stay filled where the move is refused.
  unfoldable pub fd_read : ℕ → ℕ → ℕ → ℕ → HostExec Unit
  fd_read fd iovec_base iovec_count address = do
    places ← on_memory (Memory.unpack_places iovec_base 0 iovec_count)
    iovecs ← gets (λ h. Memory.contents_of places h.memory)
    (filled, size_read) ← on_filesystem (File.read_at_offset fd iovecs)
    on_memory (Memory.put_all places filled)
    on_filesystem (File.fd_seek fd (as_i64 size_read) Whence.current)
    on_memory (Memory.write_u32 address size_read)

  unfoldable pub fd_seek : ℕ → ℤ → ℕ → ℕ → HostExec Unit
  fd_seek fd offset whence address = do
    decoded ← decode (k.whence whence)
    new_offset ← on_filesystem (File.fd_seek fd offset decoded)
    on_memory (Memory.write_u64 address new_offset)

  unfoldable pub path_create_directory : ℕ → ℕ → ℕ → HostExec Unit
  path_create_directory fd path_address path_length = do
    path ← read_cstring path_address path_length
    on_filesystem (Directory.path_create_directory fd (path_from path))

  unfoldable pub path_filestat_set_times : ℕ → ℕ → ℕ → ℕ → ℕ → ℕ → ℕ → HostExec Unit
  path_filestat_set_times fd flags path_address path_length atime mtime fst_flag = do
    path ← read_cstring path_address path_length
    lookup ← decode (k.lookup_flags flags)
    decoded ← decode (k.set_time_flags fst_flag)
    current_time ← gets filestat_time
    on_filesystem
        (Directory.path_filestat_set_times fd (path_from path) atime mtime decoded current_time)

  unfoldable pub path_open : ℕ → ℕ → ℕ → ℕ → ℕ → ℕ → ℕ → ℕ → ℕ → HostExec Unit
  path_open fd dir_flags path_address path_length oflags rights_base rights_inheriting fd_flags
        address =
      do
        path ← read_cstring path_address path_length
        lookup ← decode (k.lookup_flags dir_flags)
        opening ← decode (k.open_flags oflags)
        base ← decode (k.rights rights_base)
        inheriting ← decode (k.rights rights_inheriting)
        flags ← decode (k.fd_flags fd_flags)
        new_fd ←
            on_filesystem (Directory.path_open fd (path_from path) opening base inheriting flags)
        on_memory (Memory.write_u32 address new_fd)

  unfoldable pub fd_datasync : ℕ → HostExec Unit
  fd_datasync fd = on_filesystem (File.fd_datasync fd)

  unfoldable pub fd_sync : ℕ → HostExec Unit
  fd_sync fd = on_filesystem (File.fd_sync fd)

  unfoldable pub fd_tell : ℕ → ℕ → HostExec Unit
  fd_tell fd address = do
    offset ← on_filesystem (File.fd_tell fd)
    on_memory (Memory.write_u64 address offset)

  unfoldable pub path_filestat_get : ℕ → ℕ → ℕ → ℕ → ℕ → HostExec Unit
  path_filestat_get fd flags path_address path_length address = do
    path ← read_cstring path_address path_length
    lookup ← decode (k.lookup_flags flags)
    stat ← on_filesystem (Directory.path_filestat_get fd (path_from path))
    on_memory (Memory.write_buffer address (k.file_stat_bytes stat))

  unfoldable pub path_link : ℕ → ℕ → ℕ → ℕ → ℕ → ℕ → ℕ → HostExec Unit
  path_link old_fd old_flags old_address old_path_len new_fd new_address new_path_len = do
    lookup ← decode (k.lookup_flags old_flags)
    old_path ← read_cstring old_address old_path_len
    new_path ← read_cstring new_address new_path_len
    on_filesystem (Directory.path_link old_fd (path_from old_path) new_fd (path_from new_path))

  unfoldable pub path_readlink : ℕ → ℕ → ℕ → ℕ → ℕ → ℕ → HostExec Unit
  path_readlink fd path_address path_length buf buf_len address = do
    path ← read_cstring path_address path_length
    rst ← on_filesystem (Directory.path_readlink {A = Bytes} fd (path_from path))
    let to_write = min buf_len (length rst) in
        do
          on_memory (Memory.write_buffer buf (resize to_write 0 rst))
          on_memory (Memory.write_u32 address to_write)

  unfoldable pub fd_create : ℕ → HostExec Unit
  fd_create address = do
    new_fd ← on_filesystem Directory.fd_create
    on_memory (Memory.write_u32 address new_fd)

  unfoldable pub path_remove_directory : ℕ → ℕ → ℕ → HostExec Unit
  path_remove_directory fd path_address path_length = do
    path ← read_cstring path_address path_length
    on_filesystem (Directory.path_remove_directory fd (path_from path))

  unfoldable pub path_rename : ℕ → ℕ → ℕ → ℕ → ℕ → ℕ → HostExec Unit
  path_rename old_fd old_address old_path_len new_fd new_address new_path_len = do
    old_path ← read_cstring old_address old_path_len
    new_path ← read_cstring new_address new_path_len
    on_filesystem (Directory.path_rename old_fd (path_from old_path) new_fd (path_from new_path))

  unfoldable pub path_symlink : ℕ → ℕ → ℕ → ℕ → ℕ → HostExec Unit
  path_symlink old_address old_path_len fd new_address new_path_len = do
    old_path ← read_cstring old_address old_path_len
    new_path ← read_cstring new_address new_path_len
    on_filesystem (Directory.path_symlink (path_from old_path) fd (path_from new_path))

  unfoldable pub path_unlink_file : ℕ → ℕ → ℕ → HostExec Unit
  path_unlink_file fd path_address path_len = do
    path ← read_cstring path_address path_len
    on_filesystem (Directory.path_unlink_file fd (path_from path))

  unfoldable pub sock_shutdown : ℕ → ℕ → HostExec Unit
  sock_shutdown socket sd_flag = do
    decoded ← decode (k.sd_flags sd_flag)
    on_filesystem (Directory.sock_shutdown socket)

  unfoldable pub proc_raise : ℕ → HostExec Unit
  proc_raise signal = do decoded ← decode (k.signal signal); fail no_sys

  unfoldable pub random_get : ℕ → ℕ → HostExec Unit
  random_get buf_ptr len = do
    bytes ← ok_or no_sys (k.random_bytes len)
    on_memory (Memory.write_buffer buf_ptr bytes)

module _ ⦃w : Wasi⦄ ⦃s : Services⦄ where
  unfoldable pub fd_pwrite : ℕ → ℕ → ℕ → ℕ → ℕ → HostExec Unit
  fd_pwrite fd iovec_base iovec_count offset address = do
    iovecs ← on_memory (Memory.unpack_iovec iovec_base iovec_count)
    size_written ← on_filesystem (File.fd_pwrite fd iovecs offset)
    on_memory (Memory.write_u32 address size_written)

  unfoldable pub fd_write : ℕ → ℕ → ℕ → ℕ → HostExec Unit
  fd_write fd iovec_base iovec_count address = do
    iovecs ← on_memory (Memory.unpack_iovec iovec_base iovec_count)
    size_written ← on_filesystem (File.fd_write fd iovecs)
    on_memory (Memory.write_u32 address size_written)
