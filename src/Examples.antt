-- ===== src/Examples.antt =====
-- The theorems at concrete inputs: a handle with a directory and a file, a policy and a state.
use veracruz.Base.{
  resize, ℕ, ◌≡◌, refl, true, none, some, List, [], ◌∷◌, lookup, nat_eq, ok, err, abort, arith, min,
  leb, if◌then◌else◌, normal, pos, ◌&&◌, Option, contains_key, ◌↔◌, ◌+◌, ◌<◌, ◌≤◌, ◌>>=◌,
}
use veracruz.Wasi.{FileSystemResult, Wasi, FileStat, FileType, regular_file, access, Whence}
use veracruz.Vfs.Impl
use veracruz.Vfs.Impl.{Bytes, InodeImpl}
use veracruz.Vfs.Entry
use veracruz.Vfs.Entry.{InodeEntry}
use veracruz.Vfs.Table
use veracruz.Vfs.Table.{InodeTable}
use veracruz.Vfs.Handle
use veracruz.Vfs.Handle.{FileSystem, FdEntry}
use veracruz.Vfs.File
use veracruz.Vfs.File.{Services}
use veracruz.Vfs.Directory
use veracruz.Vfs.Integrity.{IsWellFormed}
use veracruz.Vfs.Soundness.{IsSound}
use veracruz.Vfs.Soundness.Calls.{Call, perform}
use veracruz.Vfs.Mediation.{perform-denied, may, answer}
use veracruz.Vfs.Roundtrip.{write_file-read_file, write_file-overwritten}
use veracruz.Vfs.Limits.{fd_fdstat_set_rights_same, read_file-abort}
use veracruz.Vfs.Opening.{path_open-IsAttenuated, IsAttenuated}

pub max_level : (a b c : ℕ) → leb (if leb b c then c else b) a ≡ (leb b a && leb c a)
max_level a b c = ground arith

pub min_level : (a b c : ℕ) → leb c (min a b) ≡ (leb c a && leb c b)
min_level a b c = ground arith

abbrev pub level : ℕ → Option ℕ
level b = if leb b 63 then some b else none

pub truncate_level : (b : ℕ) → level (min b 63) ≡ some (min b 63)
truncate_level b = ground arith

pub all_levels : (b r : ℕ) → level b ≡ some r → leb r 63 ≡ true
all_levels b r h = ground arith

-- Levels of rights in place of sets of bits: a level contains all below it.
instance abbrev pub level_wasi : Wasi
level_wasi = record {
  contains = λ a b. leb b a;
  intersect = min;
  union = λ a b. if leb a b then b else a;
  contains-intersect = min_level;
  contains-union = max_level;
  all_rights = 63;
  from_bits = level;
  from_bits_truncate = λ b. min b 63;
  from_bits-truncate = truncate_level;
  all_rights-contains = all_levels;
  fd_datasync = 1;
  fd_read = 2;
  fd_seek = 2;
  fd_fdstat_set_flags = 3;
  fd_sync = 3;
  fd_tell = 3;
  fd_write = 4;
  fd_advise = 4;
  fd_readdir = 5;
  fd_filestat_set_size = 5;
  fd_filestat_set_times = 5;
  fd_execute = 6;
  path_create_directory = 7;
  path_create_file = 7;
  path_link_source = 7;
  path_link_target = 7;
  path_open = 8;
  path_readlink = 8;
  path_rename_source = 8;
  path_rename_target = 8;
  path_filestat_get = 8;
  path_filestat_set_size = 9;
  path_filestat_set_times = 9;
  path_symlink = 9;
  path_remove_directory = 9;
  path_unlink_file = 9;
  sock_shutdown = 9;
  set_atime = 1;
  set_atime_now = 2;
  set_mtime = 3;
  set_mtime_now = 4;
  o_create = 1;
  o_directory = 2;
  o_excl = 3;
  o_trunc = 4;
  advice_normal = 0;
}

-- A service that takes every input and leaves all as it is.
instance abbrev pub idle : Services
idle = record { try_parse = λ s b. (ok true, s); serve = λ s b f. (ok tt, s, f) }

abbrev stat : FileType → ℕ → FileStat
stat kind size = record {
  device = 0;
  inode = 0;
  file_type = kind;
  num_links = 0;
  file_size = size;
  atime = 0;
  mtime = 0;
  ctime = 0;
}

abbrev file_entry : InodeEntry
file_entry = record { file_stat = stat regular_file 3; impl = Impl.file (7 ∷ 8 ∷ 9 ∷ []) }

abbrev dir_entry : InodeEntry
dir_entry = record {
  file_stat = stat FileType.directory 1;
  impl = Impl.directory ((normal "a" ∷ [], 3) ∷ []);
}

abbrev table : InodeTable
table = record {
  table = (2, dir_entry) ∷ (3, file_entry) ∷ [];
  rights_table = [];
  stdin = 0;
  stdout = 0;
  stderr = 0;
  next_inode_candidate = 4;
}

abbrev fd_of : ℕ → ℕ → ℕ → FdEntry
fd_of inode rights offset = record (Handle.new_fd_entry regular_file inode rights rights) {
  offset = offset;
}

-- The descriptor 3 is the directory, 4 the file, 5 the file with the right to read alone.
abbrev pub handle : FileSystem
handle = record {
  fd_table = (3, fd_of 2 40 0) ∷ (4, fd_of 3 40 1) ∷ (5, fd_of 3 2 0) ∷ [];
  next_fd_candidate = 6;
  inode_table = table;
  prestat_table = [];
}

table-IsWellFormed : IsWellFormed table
unfolding lookup Impl.contents contains_key
table-IsWellFormed = record {
  below = λ i e at. ground arith;
  sizes = λ i e at b is. ground arith;
  links = λ i e at d is p j found. ground arith;
}

pub handle-IsSound : IsSound handle
unfolding lookup contains_key Handle.new_fd_entry
handle-IsSound = record { table = table-IsWellFormed; descriptors = λ fd e at. ground arith }

write_file-read_file_example :
    let after = Entry.write_file (1 ∷ 2 ∷ []) 4 file_entry in
    (after.0 ≡ ok 2)
    × (Entry.read_file (0 ∷ 0 ∷ []) 4 after.1 ≡ ok (1 ∷ 2 ∷ [], 2))
    × (after.1.file_stat.file_size ≡ Entry.len after.1)
    × (4 + 2 ≤ Entry.len after.1)
write_file-read_file_example =
    write_file-read_file (1 ∷ 2 ∷ []) (0 ∷ 0 ∷ []) 4 file_entry (7 ∷ 8 ∷ 9 ∷ []) refl (omega arith)
      refl

abbrev calls : List Call
calls =
    Call.write 4 ((1 ∷ 2 ∷ []) ∷ [])
    ∷ Call.seek 4 (pos 9) Whence.start
    ∷ Call.open_path 3 (normal "b" ∷ []) 1 20 20 0
    ∷ Call.write 5 ((1 ∷ []) ∷ [])
    ∷ Call.close 4
    ∷ []

perform-denied_example : perform (Call.write 5 ((1 ∷ []) ∷ [])) handle ≡ (err access, handle)
unfolding may answer lookup Handle.new_fd_entry
perform-denied_example = perform-denied (Call.write 5 ((1 ∷ []) ∷ [])) handle refl

fd_fdstat_set_rights_same_example : File.fd_fdstat_set_rights 4 1 1 handle ≡ (ok tt, handle)
unfolding contains_key
fd_fdstat_set_rights_same_example = fd_fdstat_set_rights_same 4 1 1 handle

read_file-abort_example : (Entry.read_file (0 ∷ []) 4 file_entry ≡ abort) ↔ (3 < 4)
read_file-abort_example = read_file-abort (0 ∷ []) (7 ∷ 8 ∷ 9 ∷ []) 4 file_entry refl

abbrev opened : FileSystemResult ℕ × FileSystem
opened = Directory.path_open 3 (normal "a" ∷ []) 0 50 20 0 handle

path_open-IsAttenuated_example : IsAttenuated (fd_of 2 40 0) 50 20 6 opened.1
unfolding lookup Handle.new_fd_entry Directory.path_open Handle.check_right Handle.get_fd
    Handle.get_inode_by_fd Handle.get_inode_by_fd_path Handle.lock_inode_table
    Table.get_inode_by_inode_path Table.walk Table.get Table.is_dir Directory.found_or_created
    Directory.truncate_if Directory.open_inode Handle.new_fd Handle.put_fd Entry.get_inode_by_path
    Entry.is_dir ◌>>=◌ contains_key
path_open-IsAttenuated_example =
    path_open-IsAttenuated (fd_of 2 40 0) 3 (normal "a" ∷ []) 0 50 20 0 handle opened.1 6 refl refl

write_file-overwritten_example :
    (Entry.write_file (1 ∷ 2 ∷ []) 4 file_entry).1.impl ≡ Impl.file (7 ∷ 8 ∷ 9 ∷ 0 ∷ 1 ∷ 2 ∷ [])
unfolding resize
write_file-overwritten_example =
    write_file-overwritten (1 ∷ 2 ∷ []) 4 file_entry (7 ∷ 8 ∷ 9 ∷ []) refl (omega arith)
