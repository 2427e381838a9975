-- ===== src/Host/Safety.antt =====
-- execution-engine/src/wasi/common.rs, `WasiWrapper`: sequences of the calls of a program.
use veracruz.Base.{◌>>=◌, ℕ, ◌≡◌, refl, err}
use veracruz.Wasi.{Wasi, ErrNo}
use veracruz.Vfs.File
use veracruz.Vfs.File.{Services}
use veracruz.Vfs.Soundness.Files
use veracruz.Vfs.Soundness.Services
use veracruz.Vfs.Soundness.Directories
use veracruz.Host.Memory
use veracruz.Host.Queries
use veracruz.Host.Inquiries
use veracruz.Host.Memory.{MemoryExec}
use veracruz.Host.Calls
use veracruz.Host.Wrapper.{Host, WasiWrapper, on_memory, on_filesystem}

-- `fd_filestat_get` drops the error of the file system: where the file system refuses, the answer
-- of the call is that of writing some bytes to the memory, and with room for these it is a success.
pub fd_filestat_get-refused :
    ⦃k : Host⦄ ⦃w : Wasi⦄ (fd address : ℕ) (e : ErrNo) (h : WasiWrapper)
    → (File.fd_filestat_get fd h.filesystem).0 ≡ err e
    → let bytes = k.file_stat_result_bytes (err e) in
      (Calls.fd_filestat_get fd address h).0 ≡ (Memory.write_buffer address bytes h.memory).0
unfolding Calls.fd_filestat_get on_filesystem on_memory ◌>>=◌
fd_filestat_get-refused fd address e h refused = rw refused refl
