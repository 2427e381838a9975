-- ===== src/Programs.antt =====
-- The theorems on the calls of programs at concrete inputs.
use veracruz.Base.{
  ◌≡◌, refl, false, none, some, [], ◌∷◌, ok, arith, ◌>>=◌, lookup, take, length, List, ◌%◌,
}
use veracruz.Wasi.{bad_f, inval}
use veracruz.Vfs.Handle.{get_inode_by_fd, get_fd}
use veracruz.Vfs.File
use veracruz.Host.Memory
use veracruz.Host.Bounds.{write_buffer-read_buffer}
use veracruz.Host.Calls
use veracruz.Host.Wrapper.{Host, success, unavailable, WasiWrapper}
use veracruz.Host.Traces.{Call}
use veracruz.Host.Safety.{fd_filestat_get-refused}
use veracruz.Examples.{level_wasi, handle}
use veracruz.Witnesses.{libraries}

write_buffer-read_buffer_example :
    (Memory.read_buffer 2 2 (Memory.write_buffer 2 (7 ∷ 8 ∷ []) (1 ∷ 2 ∷ 3 ∷ 4 ∷ 5 ∷ [])).1).0
      ≡ ok (7 ∷ 8 ∷ [])
    × (take 2 (Memory.write_buffer 2 (7 ∷ 8 ∷ []) (1 ∷ 2 ∷ 3 ∷ 4 ∷ 5 ∷ [])).1 ≡ 1 ∷ 2 ∷ [])
    × (length (Memory.write_buffer 2 (7 ∷ 8 ∷ []) (1 ∷ 2 ∷ 3 ∷ 4 ∷ 5 ∷ [])).1 ≡ 5)
write_buffer-read_buffer_example =
    write_buffer-read_buffer 2 (7 ∷ 8 ∷ []) (1 ∷ 2 ∷ 3 ∷ 4 ∷ 5 ∷ []) (omega arith) (omega arith)

instance abbrev simple_host : Host
simple_host = record {
  advice = λ n. some n;
  fd_flags = λ n. some n;
  set_time_flags = λ n. some n;
  lookup_flags = λ n. some n;
  open_flags = λ n. some n;
  rights = λ n. some n;
  whence = λ n. none;
  signal = λ n. none;
  sd_flags = λ n. none;
  ri_flags = λ n. some n;
  si_flags = λ n. some n;
  clock_id = λ n. none;
  err_no = λ n. none;
  event_type = λ n. none;
  event_rw_flags = λ n. none;
  from_utf8 = λ b. some "a";
  fd_stat_bytes = λ s. [];
  file_stat_bytes = λ s. [];
  file_stat_result_bytes = λ r. 1 ∷ [];
  dir_ent_bytes = λ d. 2 ∷ [];
  prestat_bytes = λ n. n % 256 ∷ [];
  dir_ent_size = 1;
  subscription_size = 48;
  event_size = 40;
  as_bytes = λ s. [];
  end_of_input = inval;
  getclockres = λ n. unavailable;
  getclocktime = λ n. success 5;
  real_time = 0;
  random_bytes = λ n. none;
}

abbrev wrapper : WasiWrapper
wrapper = record {
  filesystem = handle;
  environment_variables = [];
  program_arguments = [];
  exit_code = none;
  enable_clock = false;
  enable_strace = false;
  memory = 8 ∷ 0 ∷ 0 ∷ 0 ∷ 1 ∷ 0 ∷ 0 ∷ 0 ∷ 65 ∷ 0 ∷ 0 ∷ 0 ∷ 0 ∷ [];
}

abbrev calls : List Call
calls =
    Call.path_open 3 0 8 1 0 2 2 0 9
    ∷ Call.fd_write 4 0 1 9
    ∷ Call.fd_read 4 0 1 200
    ∷ Call.fd_prestat_get 3 9
    ∷ Call.fd_readdir 3 9 4 0 9
    ∷ Call.proc_exit 0
    ∷ []

fd_filestat_get-refused_example :
    (Calls.fd_filestat_get 99 0 wrapper).0 ≡ (Memory.write_buffer 0 (1 ∷ []) wrapper.memory).0
unfolding File.fd_filestat_get ◌>>=◌ get_inode_by_fd get_fd lookup
fd_filestat_get-refused_example = fd_filestat_get-refused 99 0 bad_f wrapper refl
