-- ===== src/Host/Wrapper.antt =====
-- execution-engine/src/wasi/common.rs: the state of `WasiWrapper`, and what all its calls use.
use veracruz.Base.{◌>>=◌, ℕ, Bool, not, Option, String, List, Exec, ok_or, if◌then◌else◌}
use veracruz.Wasi.{ErrNo, FileSystemResult, FileStat, FdStat, Whence, inval, il_seq}
use veracruz.Vfs.Impl.{Bytes}
use veracruz.Vfs.Handle.{FileSystem, FsExec}
use veracruz.Vfs.File.{DirEnt}
use veracruz.Host.Memory
use veracruz.Host.Memory.{MemoryExec, IoVec}

-- platform-services/src/result.rs
pub data PlatformResult : Type 0 where
  success : ℕ → PlatformResult
  unavailable : PlatformResult
  unknown : PlatformResult

-- `EventType` of `wasi_types`
pub data EventType : Type 0 where
  clock : EventType
  fd_read : EventType
  fd_write : EventType

-- What the calls take from `wasi_types`, the platform and the standard library.
pub record Host : Type 0 where
  -- `TryFrom` of the flags and enumerations
  pub advice : ℕ → Option ℕ
  pub fd_flags : ℕ → Option ℕ
  pub set_time_flags : ℕ → Option ℕ
  pub lookup_flags : ℕ → Option ℕ
  pub open_flags : ℕ → Option ℕ
  pub rights : ℕ → Option ℕ
  pub whence : ℕ → Option Whence
  pub signal : ℕ → Option ℕ
  pub sd_flags : ℕ → Option ℕ
  pub ri_flags : ℕ → Option ℕ
  pub si_flags : ℕ → Option ℕ
  pub clock_id : ℕ → Option ℕ
  pub err_no : ℕ → Option ℕ
  pub event_type : ℕ → Option EventType
  pub event_rw_flags : ℕ → Option ℕ
  pub from_utf8 : Bytes → Option String
  -- the bytes of a value in memory: the status of a descriptor, that of a file, and a `Result` of
  -- it
  pub fd_stat_bytes : FdStat → Bytes
  pub file_stat_bytes : FileStat → Bytes
  pub file_stat_result_bytes : FileSystemResult FileStat → Bytes
  -- those of an entry of a directory and of the status of a pre-opened directory, by its name's
  -- length
  pub dir_ent_bytes : DirEnt → Bytes
  pub prestat_bytes : ℕ → Bytes
  -- `size_of` of `DirEnt`, `Subscription` and `Event`
  pub dir_ent_size : ℕ
  pub subscription_size : ℕ
  pub event_size : ℕ
  -- `str::as_bytes`, and the error number of an input that ends too early
  pub as_bytes : String → Bytes
  pub end_of_input : ErrNo
  -- `getclockres`, `getclocktime` and the number of the clock `RealTime`
  pub getclockres : ℕ → PlatformResult
  pub getclocktime : ℕ → PlatformResult
  pub real_time : ℕ
  -- `getrandom` of so many bytes
  pub random_bytes : ℕ → Option Bytes

-- `WasiWrapper`, with the linear memory that each call is given. Text is its bytes.
pub record WasiWrapper : Type 0 where
  pub filesystem : FileSystem
  pub environment_variables : List (Bytes × Bytes)
  pub program_arguments : List Bytes
  pub exit_code : Option ℕ
  pub enable_clock : Bool
  pub enable_strace : Bool
  pub memory : Bytes

abbrev pub HostExec : Type 0 → Type 0
HostExec A = Exec ErrNo WasiWrapper A

unfoldable pub on_memory : {A : Type 0} → MemoryExec A → HostExec A
on_memory m h = let (r, memory') = m h.memory in (r, record h { memory = memory' })

unfoldable pub on_filesystem : {A : Type 0} → FsExec A → HostExec A
on_filesystem m h = let (r, fs) = m h.filesystem in (r, record h { filesystem = fs })

-- `Self::decode_wasi_arg(arg)?`
unfoldable pub decode : {A : Type 0} → Option A → HostExec A
decode o = ok_or inval o

module _ ⦃k : Host⦄ where
  unfoldable pub read_cstring : ℕ → ℕ → HostExec String
  read_cstring address len = do
    bytes ← on_memory (Memory.read_buffer address len)
    ok_or il_seq (k.from_utf8 bytes)

  unfoldable pub filestat_time : WasiWrapper → ℕ
  filestat_time h =
      if not h.enable_clock
      then 0
      else elim (k.getclocktime k.real_time) [ success timespec ↦ timespec | _ ↦ 0 ]
