-- ===== src/Host/Queries.antt =====
-- execution-engine/src/fs.rs: the calls that read the status of an inode, and those that are refused
-- behind the check of a right.
use veracruz.Base.{ap, subst, sym, ◌>>◌, ℕ, FilePath, fail}
use veracruz.Wasi.{Wasi, no_sys}
use veracruz.Vfs.Handle
use veracruz.Vfs.File
use veracruz.Vfs.Directory
use veracruz.Hoare.{OnOk_trivial}
use veracruz.Vfs.Limits.{fd_fdstat_set_rights_same}
use veracruz.Vfs.Soundness.{
  IsSound, FsGrows, fs_frame, FsKeeps, forget, check_right-Triple, get_fd-Triple,
  get_inode_by_fd-Triple,
}
use veracruz.Vfs.Soundness.Files.{and_then, pure-Keeps, fail-Keeps, get-Keeps}
use veracruz.Vfs.Soundness.Directories.{by_path-Triple}

module _ ⦃w : Wasi⦄ where
  -- A check of a right, and a refusal in any case.
  refused-Keeps :
      {A : Type 0} (fd right : ℕ) → FsKeeps {A = A} (do Handle.check_right fd right; fail no_sys)
  refused-Keeps fd right = and_then (check_right-Triple fd right) (λ u. fail-Keeps no_sys)

  pub fd_datasync-Keeps : (fd : ℕ) → FsKeeps (File.fd_datasync fd)
  unfolding File.fd_datasync
  fd_datasync-Keeps fd = refused-Keeps fd w.fd_datasync

  pub fd_sync-Keeps : (fd : ℕ) → FsKeeps (File.fd_sync fd)
  unfolding File.fd_sync
  fd_sync-Keeps fd = and_then (check_right-Triple fd w.fd_sync) (λ u. pure-Keeps tt)

  pub fd_tell-Keeps : (fd : ℕ) → FsKeeps (File.fd_tell fd)
  unfolding File.fd_tell
  fd_tell-Keeps fd =
      and_then (check_right-Triple fd w.fd_tell)
        (λ u. and_then (forget (get_fd-Triple fd)) (λ e. pure-Keeps e.offset))

  pub path_remove_directory-Keeps :
      {A : Type 0} (fd : ℕ) (path : FilePath)
      → FsKeeps {A = A} (Directory.path_remove_directory fd path)
  unfolding Directory.path_remove_directory
  path_remove_directory-Keeps fd path = refused-Keeps fd w.path_remove_directory

  pub path_readlink-Keeps :
      {A : Type 0} (fd : ℕ) (path : FilePath) → FsKeeps {A = A} (Directory.path_readlink fd path)
  unfolding Directory.path_readlink
  path_readlink-Keeps fd path = refused-Keeps fd w.path_readlink

  pub sock_shutdown-Keeps :
      {A : Type 0} (socket : ℕ) → FsKeeps {A = A} (Directory.sock_shutdown socket)
  unfolding Directory.sock_shutdown
  sock_shutdown-Keeps socket = refused-Keeps socket w.sock_shutdown

  pub path_unlink_file-Keeps :
      {A : Type 0} (fd : ℕ) (path : FilePath) → FsKeeps {A = A} (Directory.path_unlink_file fd path)
  unfolding Directory.path_unlink_file
  path_unlink_file-Keeps fd path = refused-Keeps fd w.path_unlink_file

  pub path_symlink-Keeps :
      {A : Type 0} (old : FilePath) (fd : ℕ) (path : FilePath)
      → FsKeeps {A = A} (Directory.path_symlink old fd path)
  unfolding Directory.path_symlink
  path_symlink-Keeps old fd path = refused-Keeps fd w.path_symlink

  pub path_rename-Keeps :
      {A : Type 0} (fd : ℕ) (path : FilePath) (to : ℕ) (new : FilePath)
      → FsKeeps {A = A} (Directory.path_rename fd path to new)
  unfolding Directory.path_rename
  path_rename-Keeps fd path to new =
      and_then (check_right-Triple fd w.path_rename_source)
        (λ u. refused-Keeps to w.path_rename_target)

  pub path_link-Keeps :
      {A : Type 0} (fd : ℕ) (path : FilePath) (to : ℕ) (new : FilePath)
      → FsKeeps {A = A} (Directory.path_link fd path to new)
  unfolding Directory.path_link
  path_link-Keeps fd path to new =
      and_then (check_right-Triple fd w.path_link_source) (λ u. refused-Keeps to w.path_link_target)

  pub path_filestat_get-Keeps :
      (fd : ℕ) (path : FilePath) → FsKeeps (Directory.path_filestat_get fd path)
  unfolding Directory.path_filestat_get
  path_filestat_get-Keeps fd path = and_then (check_right-Triple fd w.path_filestat_get) (λ u.
      and_then (forget (by_path-Triple fd path)) (λ i. and_then (get-Keeps i) (λ e. pure-Keeps _)))

pub fd_fdstat_set_rights-Keeps :
    (fd rights_base rights_inheriting : ℕ)
    → FsKeeps (File.fd_fdstat_set_rights fd rights_base rights_inheriting)
fd_fdstat_set_rights-Keeps fd rights_base rights_inheriting = record {
  run = λ f g p.
      let same =
        ap (λ y. y.1) (sym (fd_fdstat_set_rights_same fd rights_base rights_inheriting f)) in
      (subst IsSound same g, subst (FsGrows f) same (fs_frame.reflexive f), OnOk_trivial _);
}

pub fd_allocate-Keeps : (fd offset len : ℕ) → ⦃w : Wasi⦄ → FsKeeps (File.fd_allocate fd offset len)
unfolding File.fd_allocate
fd_allocate-Keeps fd offset len = fail-Keeps no_sys

pub fd_fdstat_get-Keeps : (fd : ℕ) → FsKeeps (File.fd_fdstat_get fd)
unfolding File.fd_fdstat_get
fd_fdstat_get-Keeps fd = and_then (forget (get_fd-Triple fd)) (λ e. pure-Keeps _)

pub fd_filestat_get-Keeps : (fd : ℕ) → FsKeeps (File.fd_filestat_get fd)
unfolding File.fd_filestat_get
fd_filestat_get-Keeps fd =
    and_then (forget (get_inode_by_fd-Triple fd)) (λ i. and_then (get-Keeps i) (λ e. pure-Keeps _))
