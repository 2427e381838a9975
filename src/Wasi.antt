-- ===== src/Wasi.antt =====
-- The vocabulary that the source takes from the crate `wasi_types`, which is not part of the
-- repository: the error codes and enumerations that it names, and its bit-flag types. Flags are the
-- words that the source converts them to and from; the flags' operations and constants are the
-- interface `Wasi`, with the documented laws that the development needs.
use veracruz.Base.{ℕ, ◌≡◌, Bool, true, ◌&&◌, Option, some, Result}

-- The codes that the modelled code returns or compares.
pub data ErrNo : Type 0 where
  access bad_f busy canceled exist il_seq inval is_dir n_file name_too_long no_ent no_sys not_dir
        s_pipe :
      ErrNo

pub data FileType : Type 0 where
  unknown directory regular_file : FileType

pub data Whence : Type 0 where
  current end start : Whence

-- `FileSystemResult<T>`
abbrev pub FileSystemResult : Type 0 → Type 0
FileSystemResult A = Result ErrNo A

pub record FileStat : Type 0 where
  pub device : ℕ
  pub inode : ℕ
  pub file_type : FileType
  pub num_links : ℕ
  pub file_size : ℕ
  pub atime : ℕ
  pub mtime : ℕ
  pub ctime : ℕ

pub record FdStat : Type 0 where
  pub file_type : FileType
  pub flags : ℕ
  pub rights_base : ℕ
  pub rights_inheriting : ℕ

-- `empty()` of a flags type: no bit is set.
abbrev pub no_flags : ℕ
no_flags = 0

pub record Wasi : Type 0 where
  -- `contains`, `&`, `|` of a flags type
  pub contains : ℕ → ℕ → Bool
  pub intersect : ℕ → ℕ → ℕ
  pub union : ℕ → ℕ → ℕ
  pub contains-intersect : (a b c : ℕ) → contains (intersect a b) c ≡ (contains a c && contains b c)
  pub contains-union : (a b c : ℕ) → contains a (union b c) ≡ (contains a b && contains a c)
  -- `Rights::all`, `Rights::from_bits`, `Rights::from_bits_truncate`
  pub all_rights : ℕ
  pub from_bits : ℕ → Option ℕ
  pub from_bits_truncate : ℕ → ℕ
  pub from_bits-truncate : (b : ℕ) → from_bits (from_bits_truncate b) ≡ some (from_bits_truncate b)
  pub all_rights-contains : (b r : ℕ) → from_bits b ≡ some r → contains all_rights r ≡ true
  -- `Rights::FD_DATASYNC` and so on
  pub fd_datasync : ℕ
  pub fd_read : ℕ
  pub fd_seek : ℕ
  pub fd_fdstat_set_flags : ℕ
  pub fd_sync : ℕ
  pub fd_tell : ℕ
  pub fd_write : ℕ
  pub fd_advise : ℕ
  pub fd_readdir : ℕ
  pub fd_filestat_set_size : ℕ
  pub fd_filestat_set_times : ℕ
  pub fd_execute : ℕ
  pub path_create_directory : ℕ
  pub path_create_file : ℕ
  pub path_link_source : ℕ
  pub path_link_target : ℕ
  pub path_open : ℕ
  pub path_readlink : ℕ
  pub path_rename_source : ℕ
  pub path_rename_target : ℕ
  pub path_filestat_get : ℕ
  pub path_filestat_set_size : ℕ
  pub path_filestat_set_times : ℕ
  pub path_symlink : ℕ
  pub path_remove_directory : ℕ
  pub path_unlink_file : ℕ
  pub sock_shutdown : ℕ
  -- `SetTimeFlags::ATIME` and so on
  pub set_atime : ℕ
  pub set_atime_now : ℕ
  pub set_mtime : ℕ
  pub set_mtime_now : ℕ
  -- `OpenFlags::CREATE` and so on
  pub o_create : ℕ
  pub o_directory : ℕ
  pub o_excl : ℕ
  pub o_trunc : ℕ
  -- `Advice::Normal`
  pub advice_normal : ℕ
