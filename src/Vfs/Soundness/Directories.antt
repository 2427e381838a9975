-- ===== src/Vfs/Soundness/Directories.antt =====
-- The operations on paths keep a handle sound.
use veracruz.Base.{
  ℕ, ◌&&◌, not, nat_eq, ok, err, abort, ◌>>=◌, pure, gets, attempt, [], ◌∷◌, FilePath, normal, sym,
  subst, arith,
}
use veracruz.Wasi.{FileSystemResult, Wasi, inval, exist, not_dir}
use veracruz.Hoare.{
  Always, OnOk, weaken, with_stable, Triple-pure, Triple-fail, Triple-panic, Triple-bind,
  Triple-gets, Triple-attempt, Triple-if,
}
use veracruz.Vfs.Entry
use veracruz.Vfs.Table
use veracruz.Vfs.Table.{InodeTable}
use veracruz.Vfs.Handle.{FileSystem, FsExec, get_inode_by_fd_path, new_fd_entry}
use veracruz.Vfs.File
use veracruz.Vfs.Directory
use veracruz.Vfs.Integrity.{Present, Grows, table_frame}
use veracruz.Vfs.Integrity.Contents.{Anything, set_times-IsContentStep, truncate_file-IsContentStep}
use veracruz.Vfs.Integrity.Inodes.{IsThere, IsFresh, new_inode-Triple}
use veracruz.Vfs.Integrity.Additions.{add_dir-Triple}
use veracruz.Vfs.Integrity.Paths as Paths
use veracruz.Vfs.Integrity.Paths.{
  LeadsTo, get_inode_by_inode_path-Triple, insert_file-Triple, add_file-Triple,
}
use veracruz.Vfs.Soundness.{
  FsTriple, FsKeeps, FsPresent, IsInode, fs_frame, forget, lock-Triple, put_fd-Triple,
  check_right-Triple, get_inode_by_fd-Triple, new_fd-Triple,
}
use veracruz.Vfs.Soundness.Files.{
  and_then, pure-Keeps, fail_if-Keeps, with_fd, at_inode-Keeps, get-Keeps,
}

create_dirs-Keeps : (last : ℕ) (path : FilePath) → Paths.Keeps (Directory.create_dirs last path)
unfolding Directory.create_dirs
create_dirs-Keeps last [] = Paths.forget (Triple-pure table_frame Always last)
create_dirs-Keeps last (normal p ∷ path) = Triple-bind table_frame IsFresh new_inode-Triple (λ n.
    Triple-bind table_frame (IsThere n) (add_dir-Triple last (normal p ∷ []) n)
      (λ u. Paths.forget (create_dirs-Keeps n path)))
create_dirs-Keeps last (_ ∷ path) = Paths.forget (Triple-fail table_frame Always inval Anything)

gets-Keeps : {A : Type 0} (h : FileSystem → A) → FsKeeps (gets h)
gets-Keeps h = forget (Triple-gets fs_frame Always h)

-- What a path from a descriptor leads to is an inode of the table.
pub by_path-Triple :
    (fd : ℕ) (path : FilePath) → FsTriple Always (get_inode_by_fd_path fd path) IsInode
unfolding get_inode_by_fd_path
by_path-Triple fd path = Triple-bind fs_frame IsInode (get_inode_by_fd-Triple fd) (λ i.
    weaken fs_frame (IsInode i) IsInode (λ f p. tt) (λ j f g q. q)
      (lock-Triple (Table.get_inode_by_inode_path i path) (get_inode_by_inode_path-Triple i path)))

abbrev IsInodeResult : FileSystemResult ℕ → FileSystem → Type 0
IsInodeResult r f = OnOk r (λ i. IsInode i f)

attempt-path :
    (fd : ℕ) (path : FilePath)
    → FsTriple Always (attempt (get_inode_by_fd_path fd path)) IsInodeResult
attempt-path fd path =
    Triple-attempt fs_frame Always (get_inode_by_fd_path fd path) IsInode (by_path-Triple fd path)

Grows-IsInode :
    (i : ℕ) (f g : FileSystem) → Grows f.inode_table g.inode_table → IsInode i f → IsInode i g
Grows-IsInode i f g grows h = grows.present i h

-- A step that an inode of the table outlives.
outlived : {A : Type 0} {m : FsExec A} (i : ℕ) → FsKeeps m → FsTriple (IsInode i) m (FsPresent i)
outlived i h =
    weaken fs_frame (IsInode i) (FsPresent i) (λ f p. (tt, p)) (λ a f g q. q.1)
      (with_stable fs_frame (IsInode i) (Grows-IsInode i) h)

pure-IsInode : (j : ℕ) → FsTriple (IsInode j) (pure j) IsInode
pure-IsInode j =
    weaken fs_frame (IsInode j) IsInode (λ f p. p)
      (λ k f g q. subst (λ x. Present x f.inode_table) (sym q.0) q.1)
      (Triple-pure fs_frame (IsInode j) j)

-- A step before a block that asks for nothing.
before :
    {A B : Type 0} {post : B → FileSystem → Type 0} {m : FsExec A} {f : A → FsExec B}
    → FsKeeps m
    → ((a : A) → FsTriple Always (f a) post)
    → FsTriple Always (m >>= f) post
before h k = Triple-bind fs_frame Anything h k

module _ ⦃w : Wasi⦄ where
  pub path_create_directory-Keeps :
      (fd : ℕ) (path : FilePath) → FsKeeps (Directory.path_create_directory fd path)
  unfolding Directory.path_create_directory
  path_create_directory-Keeps fd path =
      and_then (check_right-Triple fd w.path_create_directory) (λ u.
        and_then (forget (get_inode_by_fd-Triple fd)) (λ i. and_then (gets-Keeps _) (λ d.
          and_then (fail_if-Keeps (not d) not_dir) (λ v.
            and_then (forget (attempt-path fd path)) (λ r.
              and_then (fail_if-Keeps (Directory.is_ok r) exist) (λ x.
                and_then (lock-Triple (Directory.create_dirs i path) (create_dirs-Keeps i path))
                  (λ n. pure-Keeps tt)))))))

  pub path_filestat_set_times-Keeps :
      (fd : ℕ) (path : FilePath) (atime mtime fst_flags current_time : ℕ)
      → FsKeeps (Directory.path_filestat_set_times fd path atime mtime fst_flags current_time)
  unfolding Directory.path_filestat_set_times
  path_filestat_set_times-Keeps fd path atime mtime fst_flags current_time =
      and_then (check_right-Triple fd w.path_filestat_set_times) (λ u.
        and_then (forget (by_path-Triple fd path)) (λ i.
          at_inode-Keeps i (File.set_times atime mtime fst_flags current_time)
            (set_times-IsContentStep atime mtime fst_flags current_time)))

  truncate_if-Keeps : (fd oflags inode : ℕ) → FsKeeps (Directory.truncate_if fd oflags inode)
  unfolding Directory.truncate_if
  truncate_if-Keeps fd oflags inode =
      Triple-if fs_frame (w.contains oflags w.o_trunc)
        (and_then (check_right-Triple fd w.path_filestat_set_size)
          (λ u. at_inode-Keeps inode Entry.truncate_file truncate_file-IsContentStep))
        (pure-Keeps tt)

  create-Triple :
      (fd i : ℕ) (path : FilePath) (oflags : ℕ) (r : FileSystemResult ℕ)
      → FsTriple (IsInodeResult r) (Directory.found_or_created fd i path oflags r) IsInode
  unfolding Directory.found_or_created
  create-Triple fd i path oflags (ok inode) =
      Triple-bind fs_frame (FsPresent inode)
        (outlived inode (fail_if-Keeps (w.contains oflags w.o_excl) exist))
        (λ u.
          Triple-bind fs_frame (FsPresent inode)
            (outlived inode (gets-Keeps (λ f. Table.is_dir inode f.inode_table)))
            (λ d.
              Triple-bind fs_frame (FsPresent inode)
                (outlived inode (fail_if-Keeps (w.contains oflags w.o_directory && not d) not_dir))
                (λ v. pure-IsInode inode)))
  create-Triple fd i path oflags (err e) =
      before (fail_if-Keeps (not (w.contains oflags w.o_create)) e) (λ u.
        before (check_right-Triple fd w.path_create_file) (λ v.
          Triple-bind fs_frame (λ n f. IsFresh n f.inode_table)
            (lock-Triple Table.new_inode new_inode-Triple)
            (λ n.
              Triple-bind fs_frame (FsPresent n)
                (lock-Triple (Table.add_file i path n [])
                  (add_file-Triple i path n [] (omega arith)))
                (λ x. pure-IsInode n))))
  create-Triple fd i path oflags abort = Triple-panic fs_frame Always IsInode

  open_inode-Triple :
      (inode rights_base rights_inheriting flags : ℕ)
      → FsTriple
          (IsInode inode)
          (Directory.open_inode inode rights_base rights_inheriting flags)
          Anything
  unfolding Directory.open_inode
  open_inode-Triple inode rights_base rights_inheriting flags =
      Triple-bind fs_frame (FsPresent inode) (new_fd-Triple inode) (λ fd.
        Triple-bind fs_frame (FsPresent inode) (outlived inode (get-Keeps inode))
          (λ e. Triple-bind fs_frame Anything (put_fd-Triple fd _) (λ u. forget (pure-Keeps fd))))

  pub path_open-Keeps :
      (fd : ℕ) (path : FilePath) (oflags rights_base rights_inheriting flags : ℕ)
      → FsKeeps (Directory.path_open fd path oflags rights_base rights_inheriting flags)
  unfolding Directory.path_open
  path_open-Keeps fd path oflags rights_base rights_inheriting flags =
      and_then (check_right-Triple fd w.path_open) (λ u.
        and_then (forget (get_inode_by_fd-Triple fd)) (λ i. and_then (gets-Keeps _) (λ d.
          and_then (fail_if-Keeps (not d) not_dir) (λ v. with_fd fd (λ e. forget (
            Triple-bind fs_frame IsInodeResult (attempt-path fd path) (λ r.
              Triple-bind fs_frame IsInode (create-Triple fd i path oflags r) (λ j.
                Triple-bind fs_frame (FsPresent j) (outlived j (truncate_if-Keeps fd oflags j))
                  (λ x. open_inode-Triple j _ _ flags)))))))))

  pub fd_create-Keeps : FsKeeps Directory.fd_create
  unfolding Directory.fd_create new_fd_entry
  fd_create-Keeps =
      Triple-bind fs_frame (λ n f. IsFresh n f.inode_table)
        (lock-Triple Table.new_inode new_inode-Triple)
        (λ n.
          Triple-bind fs_frame (FsPresent n)
            (lock-Triple (Table.insert_entry n (Table.new_file_entry n []))
              (insert_file-Triple n [] (omega arith)))
            (λ u. Triple-bind fs_frame (FsPresent n) (new_fd-Triple n) (λ fd.
              Triple-bind fs_frame Anything (put_fd-Triple fd _) (λ v. forget (pure-Keeps fd)))))
