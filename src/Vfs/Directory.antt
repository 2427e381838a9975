-- ===== src/Vfs/Directory.antt =====
-- execution-engine/src/fs.rs: the operations of `FileSystem` on paths, `fd_create`, and the calls
-- that are not supported.
use veracruz.Base.{
  List, ℕ, Bool, true, false, ◌&&◌, not, [], ◌∷◌, if◌then◌else◌, FilePath, normal, ok, err, abort,
  ◌>>=◌, ◌>>◌, pure, fail, panic, gets, attempt, fail_if,
}
use veracruz.Wasi.{FileSystemResult, FileStat, Wasi, exist, inval, not_dir, no_sys, regular_file}
use veracruz.Vfs.Entry
use veracruz.Vfs.Table
use veracruz.Vfs.Table.{TableExec, new_file_entry}
use veracruz.Vfs.Handle.{
  FdEntry, FsExec, lock_inode_table, get_fd, put_fd, get_inode_by_fd, get_inode_by_fd_path,
  check_right, new_fd, new_fd_entry,
}
use veracruz.Vfs.File.{set_times}

-- The fold of `path_create_directory`: a new directory for each component, below the last one.
unfoldable pub create_dirs : ℕ → FilePath → TableExec ℕ
create_dirs last [] = pure last
create_dirs last (normal p ∷ path) = do
  new_inode ← Table.new_inode
  Table.add_dir last (normal p ∷ []) new_inode
  create_dirs new_inode path
create_dirs last (component ∷ path) = fail inval

unfoldable pub is_ok : {A : Type 0} → FileSystemResult A → Bool
is_ok (ok a) = true
is_ok r = false

module _ ⦃w : Wasi⦄ where
  unfoldable pub path_create_directory : ℕ → FilePath → FsExec Unit
  path_create_directory fd path = do
    check_right fd w.path_create_directory
    parent_inode ← get_inode_by_fd fd
    is_parent_dir ← gets (λ f. Table.is_dir parent_inode f.inode_table)
    fail_if (not is_parent_dir) not_dir
    found ← attempt (get_inode_by_fd_path fd path)
    fail_if (is_ok found) exist
    lock_inode_table (create_dirs parent_inode path)
    pure tt

  unfoldable pub path_filestat_get : ℕ → FilePath → FsExec FileStat
  path_filestat_get fd path = do
    check_right fd w.path_filestat_get
    inode ← get_inode_by_fd_path fd path
    entry ← lock_inode_table (Table.get inode)
    pure entry.file_stat

  unfoldable pub path_filestat_set_times : ℕ → FilePath → ℕ → ℕ → ℕ → ℕ → FsExec Unit
  path_filestat_set_times fd path atime mtime fst_flags current_time = do
    check_right fd w.path_filestat_set_times
    inode ← get_inode_by_fd_path fd path
    lock_inode_table (Table.at_inode inode (set_times atime mtime fst_flags current_time))

  -- The inode to open: what the path leads to, or a new file where the flags ask for one.
  unfoldable pub found_or_created : ℕ → ℕ → FilePath → ℕ → FileSystemResult ℕ → FsExec ℕ
  found_or_created fd parent_inode path oflags (ok inode) = do
    fail_if (w.contains oflags w.o_excl) exist
    is_directory ← gets (λ f. Table.is_dir inode f.inode_table)
    fail_if (w.contains oflags w.o_directory && not is_directory) not_dir
    pure inode
  found_or_created fd parent_inode path oflags (err e) = do
    fail_if (not (w.contains oflags w.o_create)) e
    check_right fd w.path_create_file
    new_inode ← lock_inode_table Table.new_inode
    lock_inode_table (Table.add_file parent_inode path new_inode [])
    pure new_inode
  found_or_created fd parent_inode path oflags abort = panic

  unfoldable pub truncate_if : ℕ → ℕ → ℕ → FsExec Unit
  truncate_if fd oflags inode =
      if w.contains oflags w.o_trunc
      then (do
        check_right fd w.path_filestat_set_size
        lock_inode_table (Table.at_inode inode Entry.truncate_file))
      else pure tt

  -- The last part of `path_open`: a new descriptor for the inode.
  unfoldable pub open_inode : ℕ → ℕ → ℕ → ℕ → FsExec ℕ
  open_inode inode rights_base rights_inheriting flags = do
    fd ← new_fd
    entry ← lock_inode_table (Table.get inode)
    let stat = entry.file_stat
    let opened : FdEntry = record {
      inode = inode;
      fd_stat = record {
        file_type = stat.file_type;
        flags = flags;
        rights_base = rights_base;
        rights_inheriting = rights_inheriting;
      };
      offset = 0;
      advice = (0, stat.file_size, w.advice_normal) ∷ [];
    }
    put_fd fd opened
    pure fd

  unfoldable pub path_open : ℕ → FilePath → ℕ → ℕ → ℕ → ℕ → FsExec ℕ
  path_open fd path oflags rights_base rights_inheriting flags = do
    check_right fd w.path_open
    parent_inode ← get_inode_by_fd fd
    is_parent_dir ← gets (λ f. Table.is_dir parent_inode f.inode_table)
    fail_if (not is_parent_dir) not_dir
    entry ← get_fd fd
    let fd_inheriting = entry.fd_stat.rights_inheriting
    found ← attempt (get_inode_by_fd_path fd path)
    inode ← found_or_created fd parent_inode path oflags found
    truncate_if fd oflags inode
    open_inode inode (w.intersect rights_base fd_inheriting)
        (w.intersect rights_inheriting fd_inheriting) flags

  -- An anonymous file, with all rights.
  unfoldable pub fd_create : FsExec ℕ
  fd_create = do
    inode ← lock_inode_table Table.new_inode
    lock_inode_table (Table.insert_entry inode (new_file_entry inode []))
    fd ← new_fd
    let bare_entry = new_fd_entry regular_file inode w.all_rights w.all_rights
    put_fd fd (record bare_entry { advice = (0, 0, w.advice_normal) ∷ [] })
    pure fd

  -- The calls that check a right, or two, and are not supported.
  module _ {A : Type 0} where
    unfoldable pub path_readlink : ℕ → FilePath → FsExec A
    path_readlink fd path = do check_right fd w.path_readlink; fail no_sys

    unfoldable pub path_remove_directory : ℕ → FilePath → FsExec A
    path_remove_directory fd path = do check_right fd w.path_remove_directory; fail no_sys

    unfoldable pub path_rename : ℕ → FilePath → ℕ → FilePath → FsExec A
    path_rename old_fd old_path new_fd new_path = do
      check_right old_fd w.path_rename_source
      check_right new_fd w.path_rename_target
      fail no_sys

    unfoldable pub path_link : ℕ → FilePath → ℕ → FilePath → FsExec A
    path_link old_fd old_path new_fd new_path = do
      check_right old_fd w.path_link_source
      check_right new_fd w.path_link_target
      fail no_sys

    unfoldable pub path_symlink : FilePath → ℕ → FilePath → FsExec A
    path_symlink old_path fd new_path = do check_right fd w.path_symlink; fail no_sys

    unfoldable pub path_unlink_file : ℕ → FilePath → FsExec A
    path_unlink_file fd path = do check_right fd w.path_unlink_file; fail no_sys

    unfoldable pub sock_recv : ℕ → FsExec A
    sock_recv socket = do check_right socket w.fd_read; fail no_sys

    unfoldable pub sock_send : ℕ → FsExec A
    sock_send socket = do check_right socket w.fd_write; fail no_sys

    unfoldable pub sock_shutdown : ℕ → FsExec A
    sock_shutdown socket = do check_right socket w.sock_shutdown; fail no_sys

    unfoldable pub poll_oneoff : {S E : Type 0} → List S → List E → FsExec A
    poll_oneoff subscriptions events = fail no_sys
