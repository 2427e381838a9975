-- ===== src/Vfs/Soundness/Calls.antt =====
-- Programs, as sequences of calls of the interface that `FileSystem` offers to an execution engine.
use veracruz.Base.{ℕ, ◌>>◌, pure, List, [], ◌∷◌, FilePath, ℤ}
use veracruz.Wasi.{Wasi, Whence}
use veracruz.Vfs.Impl.{Bytes}
use veracruz.Vfs.Handle.{FileSystem, FsExec}
use veracruz.Vfs.File
use veracruz.Vfs.File.{Services}
use veracruz.Vfs.Directory

-- The calls that change a handle or the inode table, and the reads that move an offset.
pub data Call : Type 0 where
  advise : ℕ → ℕ → ℕ → ℕ → Call
  close : ℕ → Call
  set_flags : ℕ → ℕ → Call
  set_size : ℕ → ℕ → Call
  set_times : ℕ → ℕ → ℕ → ℕ → ℕ → Call
  pwrite : ℕ → List Bytes → ℕ → Call
  read : ℕ → List Bytes → Call
  renumber : ℕ → ℕ → Call
  seek : ℕ → ℤ → Whence → Call
  write : ℕ → List Bytes → Call
  create : Call
  create_directory : ℕ → FilePath → Call
  set_path_times : ℕ → FilePath → ℕ → ℕ → ℕ → ℕ → Call
  open_path : ℕ → FilePath → ℕ → ℕ → ℕ → ℕ → Call

module _ ⦃w : Wasi⦄ ⦃s : Services⦄ where
  unfoldable pub perform : Call → FsExec Unit
  perform (advise fd offset len adv) = File.fd_advise fd offset len adv
  perform (close fd) = File.fd_close fd
  perform (set_flags fd flags) = File.fd_fdstat_set_flags fd flags
  perform (set_size fd size) = File.fd_filestat_set_size fd size
  perform (set_times fd atime mtime flags now) = File.fd_filestat_set_times fd atime mtime flags now
  perform (pwrite fd bufs offset) = do File.fd_pwrite fd bufs offset; pure tt
  perform (read fd bufs) = do File.fd_read fd bufs; pure tt
  perform (renumber old_fd new_fd) = File.fd_renumber old_fd new_fd
  perform (seek fd delta whence) = do File.fd_seek fd delta whence; pure tt
  perform (write fd bufs) = do File.fd_write fd bufs; pure tt
  perform create = do Directory.fd_create; pure tt
  perform (create_directory fd path) = Directory.path_create_directory fd path
  perform (set_path_times fd path atime mtime flags now) =
      Directory.path_filestat_set_times fd path atime mtime flags now
  perform (open_path fd path oflags base inheriting flags) = do
    Directory.path_open fd path oflags base inheriting flags
    pure tt

  -- A program goes on after an error, from the state that the failed call left.
  unfoldable pub perform_all : List Call → FileSystem → FileSystem
  perform_all [] f = f
  perform_all (c ∷ cs) f = perform_all cs (perform c f).1
