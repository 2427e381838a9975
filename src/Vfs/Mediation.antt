-- ===== src/Vfs/Mediation.antt =====
-- The rights that the calls of a program check before anything else.
use veracruz.Base.{
  ℕ, ◌≡◌, refl, Bool, true, false, none, some, lookup, contains_key, nat_eq, err, ◌>>=◌, arith,
}
use veracruz.Wasi.{Wasi, ErrNo, bad_f, access}
use veracruz.Vfs.Handle
use veracruz.Vfs.Handle.{FileSystem, FsExec, FdEntry}
use veracruz.Vfs.File
use veracruz.Vfs.Directory
use veracruz.Vfs.File.{Services}
use veracruz.Vfs.Soundness.Calls.{Call, perform}

module _ ⦃w : Wasi⦄ where
  -- The descriptor is open and has the right.
  abbrev pub has_right : ℕ → ℕ → FileSystem → Bool
  has_right fd right f = elim (lookup fd f.fd_table) [
    | none ↦ false
    | some e ↦ w.contains e.fd_stat.rights_base right
  ]

  -- The answer where a right is missing.
  abbrev pub refusal : ℕ → FileSystem → ErrNo
  refusal fd f = elim (lookup fd f.fd_table) [ none ↦ bad_f | some e ↦ access ]

  pub denied :
      {A : Type 0} (fd right : ℕ) (k : Unit {0} → FsExec A) (f : FileSystem)
      → has_right fd right f ≡ false
      → (Handle.check_right fd right >>= k) f ≡ (err (refusal fd f), f)
  unfolding Handle.check_right Handle.get_fd ◌>>=◌
  denied fd right k f h = ground arith

  pub unopened :
      {A : Type 0} (fd : ℕ) (k : FdEntry → FsExec A) (f : FileSystem)
      → contains_key fd f.fd_table ≡ false
      → (Handle.get_fd fd >>= k) f ≡ (err bad_f, f)
  unfolding Handle.get_fd ◌>>=◌ contains_key
  unopened fd k f h = ground arith

  -- The first thing that a call checks of its descriptor: that it is open, and that it has the right
  -- of the call's name. A right that a call checks later, on its way, is not meant.
  unfoldable pub may : Call → FileSystem → Bool
  may (Call.advise fd offset len adv) f = has_right fd w.fd_advise f
  may (Call.set_flags fd flags) f = has_right fd w.fd_fdstat_set_flags f
  may (Call.set_size fd size) f = has_right fd w.fd_filestat_set_size f
  may (Call.set_times fd atime mtime flags now) f = has_right fd w.fd_filestat_set_times f
  may (Call.close fd) f = contains_key fd f.fd_table
  may (Call.renumber old_fd new_fd) f = contains_key old_fd f.fd_table
  may (Call.pwrite fd bufs offset) f = has_right fd w.fd_write f
  may (Call.read fd bufs) f = has_right fd w.fd_read f
  may (Call.seek fd delta whence) f = has_right fd w.fd_seek f
  may (Call.write fd bufs) f = has_right fd w.fd_write f
  may (Call.create_directory fd path) f = has_right fd w.path_create_directory f
  may (Call.set_path_times fd path atime mtime flags now) f =
      has_right fd w.path_filestat_set_times f
  may (Call.open_path fd path oflags base inheriting flags) f = has_right fd w.path_open f
  may _ f = true

  unfoldable pub answer : Call → FileSystem → ErrNo
  answer (Call.advise fd offset len adv) f = refusal fd f
  answer (Call.set_flags fd flags) f = refusal fd f
  answer (Call.set_size fd size) f = refusal fd f
  answer (Call.set_times fd atime mtime flags now) f = refusal fd f
  answer (Call.close fd) f = bad_f
  answer (Call.renumber old_fd new_fd) f = bad_f
  answer (Call.pwrite fd bufs offset) f = refusal fd f
  answer (Call.read fd bufs) f = refusal fd f
  answer (Call.seek fd delta whence) f = refusal fd f
  answer (Call.write fd bufs) f = refusal fd f
  answer (Call.create_directory fd path) f = refusal fd f
  answer (Call.set_path_times fd path atime mtime flags now) f = refusal fd f
  answer (Call.open_path fd path oflags base inheriting flags) f = refusal fd f
  answer _ f = access

failed_then :
    {A B : Type 0} (m : FsExec A) (k : A → FsExec B) (f : FileSystem) (e : ErrNo)
    → m f ≡ (err e, f)
    → (m >>= k) f ≡ (err e, f)
unfolding ◌>>=◌
failed_then m k f e h = rw h refl

-- A call of the file system is refused where its descriptor is not open, with `bad_f`, and where the
-- descriptor is open without the right that the call checks first, with `access`; the handle and the
-- inode table are left as they are. The right that comes first is `fd_write` for `fd_write` and
-- `fd_pwrite`, `fd_read` for `fd_read`, `path_open` for `path_open`, and the right of the call's own
-- name for the other calls; `fd_close` and `fd_renumber` check no right, and `fd_create` works on no
-- descriptor. Nothing is said of the rights that a call checks later (`fd_seek` after the bytes are
-- read or written, `path_filestat_set_size` after a file is created): what is done by then stays.
pub perform-denied :
    ⦃w : Wasi⦄ ⦃s : Services⦄ (c : Call) (f : FileSystem)
    → may c f ≡ false
    → perform c f ≡ (err (answer c f), f)
unfolding may answer perform File.fd_close File.fd_renumber Handle.get_inode_by_fd File.fd_advise
    File.fd_fdstat_set_flags File.fd_filestat_set_size File.fd_filestat_set_times File.fd_pwrite
    File.fd_read File.read_at_offset File.fd_seek File.fd_write Directory.path_create_directory
    Directory.path_filestat_set_times Directory.path_open
perform-denied (Call.advise fd offset len adv) f h = denied fd _ _ f h
perform-denied (Call.set_flags fd flags) f h = denied fd _ _ f h
perform-denied (Call.set_size fd size) f h = denied fd _ _ f h
perform-denied (Call.set_times fd atime mtime flags now) f h = denied fd _ _ f h
perform-denied (Call.close fd) f h = failed_then _ _ f _ (unopened fd _ f h)
perform-denied (Call.renumber old_fd new_fd) f h = unopened old_fd _ f h
perform-denied (Call.pwrite fd bufs offset) f h = failed_then _ _ f _ (denied fd _ _ f h)
perform-denied (Call.read fd bufs) f h =
    failed_then _ _ f _ (failed_then _ _ f _ (denied fd _ _ f h))
perform-denied (Call.seek fd delta whence) f h = failed_then _ _ f _ (denied fd _ _ f h)
perform-denied (Call.write fd bufs) f h = failed_then _ _ f _ (denied fd _ _ f h)
perform-denied (Call.create_directory fd path) f h = denied fd _ _ f h
perform-denied (Call.set_path_times fd path atime mtime flags now) f h = denied fd _ _ f h
perform-denied (Call.open_path fd path oflags base inheriting flags) f h =
    failed_then _ _ f _ (denied fd _ _ f h)
perform-denied c f h = ground arith
