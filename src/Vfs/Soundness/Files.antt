-- ===== src/Vfs/Soundness/Files.antt =====
-- The operations on file descriptors keep a handle sound.
use veracruz.Base.{
  ℕ, Bool, contains_key, nat_eq, Exec, ◌>>=◌, pure, fail, modify, fail_if, List, [], ◌∷◌, ◌++◌, ℤ,
  pos, negsuc, abs_u64, as_i64, ltb,
}
use veracruz.Wasi.{ErrNo, Wasi, Whence, bad_f, inval, s_pipe}
use veracruz.Hoare.{
  Always, weaken, Triple-pure, Triple-fail, Triple-lift, Triple-bind, Triple-gets, Triple-ok_or,
  Triple-fail_if, Triple-if,
}
use veracruz.Vfs.Impl.{Bytes}
use veracruz.Vfs.Entry
use veracruz.Vfs.Table
use veracruz.Vfs.Table.{InodeTable}
use veracruz.Vfs.Handle
use veracruz.Vfs.Handle.{FdEntry, FileSystem, FsExec, lock_inode_table, check_right, get_fd}
use veracruz.Vfs.File
use veracruz.Vfs.Integrity.{Grows-refl}
use veracruz.Vfs.Integrity.Contents.{
  Anything, IsContentStep, resize_file-IsContentStep, set_times-IsContentStep,
  truncate_service-IsContentStep,
}
use veracruz.Vfs.Integrity.Inodes.{at_inode-Triple, get-Triple}
use veracruz.Vfs.Soundness.{
  FsTriple, FsKeeps, HasInode, fs_frame, forget, lock-Triple, get_fd-Triple, put_fd-Triple,
  check_right-Triple, get_inode_by_fd-Triple, drop_fd-IsSound,
}

-- A block that goes on whatever came out.
pub and_then :
    {A B : Type 0} {m : FsExec A} {f : A → FsExec B}
    → FsKeeps m
    → ((a : A) → FsKeeps (f a))
    → FsKeeps (m >>= f)
and_then h k = Triple-bind fs_frame Anything h (λ a. forget (k a))

pub pure-Keeps : {A : Type 0} (a : A) → FsKeeps (pure a)
pure-Keeps a = forget (Triple-pure fs_frame Always a)

pub fail-Keeps : {A : Type 0} (e : ErrNo) → FsKeeps {A = A} (fail e)
fail-Keeps e = Triple-fail fs_frame Always e Anything

pub fail_if-Keeps : (b : Bool) (e : ErrNo) → FsKeeps (fail_if b e)
fail_if-Keeps b e = forget (Triple-fail_if fs_frame Always b e)

-- The descriptor is read, and goes on to a block.
pub with_fd :
    {A : Type 0} (fd : ℕ) {f : FdEntry → FsExec A}
    → ((e : FdEntry) → FsTriple (HasInode e) (f e) Anything)
    → FsKeeps (Handle.get_fd fd >>= f)
with_fd fd k = Triple-bind fs_frame HasInode (get_fd-Triple fd) k

pub at_inode-Keeps :
    {A : Type 0} (i : ℕ) (m : Exec ErrNo Entry.InodeEntry A)
    → IsContentStep m
    → FsKeeps (lock_inode_table (Table.at_inode i m))
at_inode-Keeps i m h = forget (lock-Triple (Table.at_inode i m) (at_inode-Triple i m h))

pub get-Keeps : (i : ℕ) → FsKeeps (lock_inode_table (Table.get i))
get-Keeps i = forget (lock-Triple (Table.get i) (get-Triple i))

module _ ⦃w : Wasi⦄ where
  pub fd_advise-Keeps : (fd offset len adv : ℕ) → FsKeeps (File.fd_advise fd offset len adv)
  unfolding File.fd_advise
  fd_advise-Keeps fd offset len adv = and_then (check_right-Triple fd w.fd_advise) (λ u.
      with_fd fd
        (λ e. put_fd-Triple fd (record e { advice = e.advice ++ (offset, len, adv) ∷ [] })))

  pub fd_fdstat_set_flags-Keeps : (fd flags : ℕ) → FsKeeps (File.fd_fdstat_set_flags fd flags)
  unfolding File.fd_fdstat_set_flags
  fd_fdstat_set_flags-Keeps fd flags = and_then (check_right-Triple fd w.fd_fdstat_set_flags) (λ u.
      with_fd fd
        (λ e. put_fd-Triple fd (record e { fd_stat = record e.fd_stat { flags = flags } })))

  pub fd_filestat_set_size-Keeps : (fd size : ℕ) → FsKeeps (File.fd_filestat_set_size fd size)
  unfolding File.fd_filestat_set_size
  fd_filestat_set_size-Keeps fd size = and_then (check_right-Triple fd w.fd_filestat_set_size) (λ u.
      and_then (forget (get_inode_by_fd-Triple fd))
        (λ i. at_inode-Keeps i (Entry.resize_file size 0) (resize_file-IsContentStep size 0)))

  pub fd_filestat_set_times-Keeps :
      (fd atime mtime fst_flags current_time : ℕ)
      → FsKeeps (File.fd_filestat_set_times fd atime mtime fst_flags current_time)
  unfolding File.fd_filestat_set_times
  fd_filestat_set_times-Keeps fd atime mtime fst_flags current_time =
      and_then (check_right-Triple fd w.fd_filestat_set_times) (λ u.
        and_then (forget (get_inode_by_fd-Triple fd)) (λ i.
          at_inode-Keeps i (File.set_times atime mtime fst_flags current_time)
            (set_times-IsContentStep atime mtime fst_flags current_time)))

  pub fd_pread-Keeps :
      (fd : ℕ) (bufs : List Bytes) (offset : ℕ) → FsKeeps (File.fd_pread fd bufs offset)
  unfolding File.fd_pread
  fd_pread-Keeps fd bufs offset = and_then (check_right-Triple fd w.fd_read) (λ u.
      and_then (forget (get_inode_by_fd-Triple fd)) (λ i.
        and_then (get-Keeps i)
          (λ e. forget (Triple-lift fs_frame Always (File.pread_bufs e bufs offset)))))

  seek_target-Keeps :
      (fd file_size base : ℕ) (delta : ℤ) → FsKeeps (File.seek_target fd file_size base delta)
  unfolding File.seek_target
  seek_target-Keeps fd file_size base (pos n) =
      and_then (Triple-if fs_frame _ (fd_filestat_set_size-Keeps fd _) (pure-Keeps tt))
        (λ u. pure-Keeps _)
  seek_target-Keeps fd file_size base (negsuc n) =
      and_then (forget (Triple-ok_or fs_frame Always inval (abs_u64 (negsuc n))))
        (λ distance. and_then (fail_if-Keeps (ltb base distance) s_pipe) (λ u. pure-Keeps _))

  pub fd_seek-Keeps :
      (fd : ℕ) (delta : ℤ) (whence : Whence) → FsKeeps (File.fd_seek fd delta whence)
  unfolding File.fd_seek
  fd_seek-Keeps fd delta whence = and_then (check_right-Triple fd w.fd_seek) (λ u. with_fd fd (λ e.
      forget (
        and_then (get-Keeps e.inode) (λ i. and_then (seek_target-Keeps fd _ _ delta) (λ new_offset.
          with_fd fd (λ e'.
            Triple-bind fs_frame Anything (put_fd-Triple fd (record e' { offset = new_offset }))
              (λ v. forget (pure-Keeps new_offset))))))))

  pub read_at_offset-Keeps : (fd : ℕ) (bufs : List Bytes) → FsKeeps (File.read_at_offset fd bufs)
  unfolding File.read_at_offset
  read_at_offset-Keeps fd bufs =
      and_then (check_right-Triple fd w.fd_read)
        (λ u. with_fd fd (λ e. forget (fd_pread-Keeps fd bufs e.offset)))

  pub fd_read-Keeps : (fd : ℕ) (bufs : List Bytes) → FsKeeps (File.fd_read fd bufs)
  unfolding File.fd_read
  fd_read-Keeps fd bufs =
      and_then (read_at_offset-Keeps fd bufs)
        (λ r. and_then (fd_seek-Keeps fd (as_i64 r.1) Whence.current) (λ o. pure-Keeps _))

pub fd_close-Keeps : (fd : ℕ) → FsKeeps (File.fd_close fd)
unfolding File.fd_close modify
fd_close-Keeps fd = and_then (forget (get_inode_by_fd-Triple fd)) (λ i.
    and_then (at_inode-Keeps i File.truncate_service truncate_service-IsContentStep) (λ u.
      with_fd fd
        (λ e. record { run = λ f g p. (drop_fd-IsSound fd f g, Grows-refl f.inode_table, tt) })))

pub fd_renumber-Keeps : (old_fd new_fd : ℕ) → FsKeeps (File.fd_renumber old_fd new_fd)
unfolding File.fd_renumber modify
fd_renumber-Keeps old_fd new_fd = with_fd old_fd (λ e.
    Triple-bind fs_frame (λ used f. HasInode e f)
      (weaken fs_frame (HasInode e) (λ used f. HasInode e f) (λ f p. p) (λ a f g q. q.1)
        (Triple-gets fs_frame (HasInode e) (λ f. contains_key new_fd f.fd_table)))
      (λ used.
        Triple-bind fs_frame (λ u f. HasInode e f)
          (weaken fs_frame (HasInode e) (λ u f. HasInode e f) (λ f p. p) (λ a f g q. q.1)
            (Triple-fail_if fs_frame (HasInode e) used bad_f))
          (λ u. Triple-bind fs_frame Anything (put_fd-Triple new_fd e) (λ v. record {
            run = λ f g p. (drop_fd-IsSound old_fd f g, Grows-refl f.inode_table, tt);
          }))))
