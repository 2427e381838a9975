-- ===== src/Vfs/Limits.antt =====
-- Where the file system does less than its interface says.
use veracruz.Base.{
  ℕ, ◌≡◌, ◌<◌, ◌↔◌, contains_key, nat_eq, ok, err, abort, arith, length, if◌then◌else◌, ◌>>=◌,
}
use veracruz.Wasi.{bad_f}
use veracruz.Vfs.Impl
use veracruz.Vfs.Impl.{Bytes}
use veracruz.Vfs.Entry
use veracruz.Vfs.Entry.{InodeEntry}
use veracruz.Vfs.Handle
use veracruz.Vfs.Handle.{FileSystem}
use veracruz.Vfs.File

-- `fd_fdstat_set_rights` changes no rights: it succeeds on every open descriptor, and fails with
-- `bad_f` on every other, and leaves the handle and the inode table as they are.
pub fd_fdstat_set_rights_same :
    (fd rights_base rights_inheriting : ℕ) (f : FileSystem)
    → File.fd_fdstat_set_rights fd rights_base rights_inheriting f
      ≡ (if contains_key fd f.fd_table then ok tt else err bad_f, f)
unfolding File.fd_fdstat_set_rights Handle.get_fd ◌>>=◌ contains_key
fd_fdstat_set_rights_same fd rights_base rights_inheriting f = ground arith

-- A read from a file panics exactly where the offset lies past the end of the file.
pub read_file-abort :
    (buf bytes : Bytes) (offset : ℕ) (e : InodeEntry)
    → e.impl ≡ Impl.file bytes
    → (Entry.read_file buf offset e ≡ abort) ↔ (length bytes < offset)
unfolding Entry.read_file Impl.read_file Impl.contents Impl.read_bytes_from_offset
read_file-abort buf bytes offset e is_file = ground arith
