-- ===== src/Host/Traces.antt =====
-- execution-engine/src/wasi/common.rs, `WasiWrapper`: programs as sequences of its calls.
use veracruz.Base.{ℕ, ℤ, List, [], ◌∷◌}
use veracruz.Wasi.{Wasi}
use veracruz.Vfs.File.{Services}
use veracruz.Host.Calls
use veracruz.Host.Listing
use veracruz.Host.Sockets
use veracruz.Host.Wrapper.{Host, WasiWrapper, HostExec}

pub data Call : Type 0 where
  args_get : ℕ → ℕ → Call
  args_sizes_get : ℕ → ℕ → Call
  clock_res_get : ℕ → ℕ → Call
  clock_time_get : ℕ → ℕ → Call
  environ_get : ℕ → ℕ → Call
  environ_sizes_get : ℕ → ℕ → Call
  fd_advise : ℕ → ℕ → ℕ → ℕ → Call
  fd_allocate : ℕ → ℕ → ℕ → Call
  fd_close : ℕ → Call
  fd_create : ℕ → Call
  fd_datasync : ℕ → Call
  fd_fdstat_get : ℕ → ℕ → Call
  fd_fdstat_set_flags : ℕ → ℕ → Call
  fd_fdstat_set_rights : ℕ → ℕ → ℕ → Call
  fd_filestat_get : ℕ → ℕ → Call
  fd_filestat_set_size : ℕ → ℕ → Call
  fd_filestat_set_times : ℕ → ℕ → ℕ → ℕ → Call
  fd_pread : ℕ → ℕ → ℕ → ℕ → ℕ → Call
  fd_pwrite : ℕ → ℕ → ℕ → ℕ → ℕ → Call
  fd_read : ℕ → ℕ → ℕ → ℕ → Call
  fd_renumber : ℕ → ℕ → Call
  fd_seek : ℕ → ℤ → ℕ → ℕ → Call
  fd_sync : ℕ → Call
  fd_tell : ℕ → ℕ → Call
  fd_write : ℕ → ℕ → ℕ → ℕ → Call
  path_create_directory : ℕ → ℕ → ℕ → Call
  path_filestat_set_times : ℕ → ℕ → ℕ → ℕ → ℕ → ℕ → ℕ → Call
  path_open : ℕ → ℕ → ℕ → ℕ → ℕ → ℕ → ℕ → ℕ → ℕ → Call
  path_filestat_get : ℕ → ℕ → ℕ → ℕ → ℕ → Call
  path_link : ℕ → ℕ → ℕ → ℕ → ℕ → ℕ → ℕ → Call
  path_readlink : ℕ → ℕ → ℕ → ℕ → ℕ → ℕ → Call
  path_remove_directory : ℕ → ℕ → ℕ → Call
  path_rename : ℕ → ℕ → ℕ → ℕ → ℕ → ℕ → Call
  path_symlink : ℕ → ℕ → ℕ → ℕ → ℕ → Call
  path_unlink_file : ℕ → ℕ → ℕ → Call
  proc_exit : ℕ → Call
  proc_raise : ℕ → Call
  sched_yield : Call
  sock_shutdown : ℕ → ℕ → Call
  random_get : ℕ → ℕ → Call
  fd_prestat_dir_name : ℕ → ℕ → ℕ → Call
  fd_prestat_get : ℕ → ℕ → Call
  fd_readdir : ℕ → ℕ → ℕ → ℕ → ℕ → Call
  poll_oneoff : ℕ → ℕ → ℕ → ℕ → Call
  sock_recv : ℕ → ℕ → ℕ → ℕ → ℕ → ℕ → Call
  sock_send : ℕ → ℕ → ℕ → ℕ → ℕ → Call

module _ ⦃w : Wasi⦄ ⦃s : Services⦄ ⦃k : Host⦄ where
  unfoldable pub run : Call → HostExec Unit
  run (args_get a b) = Calls.args_get a b
  run (args_sizes_get a b) = Calls.args_sizes_get a b
  run (clock_res_get a b) = Calls.clock_res_get a b
  run (clock_time_get a b) = Calls.clock_time_get a b
  run (environ_get a b) = Calls.environ_get a b
  run (environ_sizes_get a b) = Calls.environ_sizes_get a b
  run (fd_create a) = Calls.fd_create a
  run (path_readlink a b c d e f) = Calls.path_readlink a b c d e f
  run (sock_shutdown a b) = Calls.sock_shutdown a b
  run (fd_advise a b c d) = Calls.fd_advise a b c d
  run (fd_allocate a b c) = Calls.fd_allocate a b c
  run (fd_fdstat_set_rights a b c) = Calls.fd_fdstat_set_rights a b c
  run (fd_close a) = Calls.fd_close a
  run (fd_fdstat_set_flags a b) = Calls.fd_fdstat_set_flags a b
  run (fd_filestat_set_size a b) = Calls.fd_filestat_set_size a b
  run (fd_filestat_set_times a b c d) = Calls.fd_filestat_set_times a b c d
  run (fd_pread a b c d e) = Calls.fd_pread a b c d e
  run (fd_pwrite a b c d e) = Calls.fd_pwrite a b c d e
  run (fd_read a b c d) = Calls.fd_read a b c d
  run (fd_renumber a b) = Calls.fd_renumber a b
  run (fd_seek a b c d) = Calls.fd_seek a b c d
  run (fd_write a b c d) = Calls.fd_write a b c d
  run (path_create_directory a b c) = Calls.path_create_directory a b c
  run (path_filestat_set_times a b c d e f g) = Calls.path_filestat_set_times a b c d e f g
  run (path_open a b c d e f g h i) = Calls.path_open a b c d e f g h i
  run (fd_datasync a) = Calls.fd_datasync a
  run (fd_fdstat_get a b) = Calls.fd_fdstat_get a b
  run (fd_filestat_get a b) = Calls.fd_filestat_get a b
  run (fd_sync a) = Calls.fd_sync a
  run (fd_tell a b) = Calls.fd_tell a b
  run (path_filestat_get a b c d e) = Calls.path_filestat_get a b c d e
  run (path_link a b c d e f g) = Calls.path_link a b c d e f g
  run (path_remove_directory a b c) = Calls.path_remove_directory a b c
  run (path_rename a b c d e f) = Calls.path_rename a b c d e f
  run (path_symlink a b c d e) = Calls.path_symlink a b c d e
  run (path_unlink_file a b c) = Calls.path_unlink_file a b c
  run (proc_exit a) = Calls.proc_exit a
  run (proc_raise a) = Calls.proc_raise a
  run sched_yield = Calls.sched_yield
  run (random_get a b) = Calls.random_get a b
  run (fd_prestat_dir_name a b c) = Listing.fd_prestat_dir_name a b c
  run (fd_prestat_get a b) = Listing.fd_prestat_get a b
  run (fd_readdir a b c d e) = Listing.fd_readdir a b c d e
  run (poll_oneoff a b c d) = Sockets.poll_oneoff a b c d
  run (sock_recv a b c d e f) = Sockets.sock_recv a b c d e f
  run (sock_send a b c d e) = Sockets.sock_send a b c d e

  unfoldable pub run_all : List Call → WasiWrapper → WasiWrapper
  unfolding run
  run_all [] h = h
  run_all (call ∷ calls) h = run_all calls (run call h).1
