-- ===== src/Vfs/File.antt =====
-- execution-engine/src/fs.rs: the operations of `FileSystem` on file descriptors. The release build
-- is modelled, in which arithmetic wraps.
use veracruz.Base.{
  ℕ, ◌+◌, ◌-◌, ◌%◌, ◌^◌, Bool, true, false, List, [], ◌∷◌, ◌++◌, Map, lookup, remove, contains_key,
  length, drop, ltb, leb, if◌then◌else◌, nat_eq, FilePath, root_dir, component_text, ok, err, abort,
  Exec, ◌>>=◌, ◌>>◌, pure, fail, panic, lift, ok_or, modify, gets, fail_if, ℤ, pos, negsuc, as_i64,
  abs_u64,
}
use veracruz.Wasi.{
  ErrNo, FileSystemResult, FileStat, FileType, FdStat, Whence, Wasi, bad_f, inval, no_sys, not_dir,
  s_pipe,
}
use veracruz.Vfs.Impl
use veracruz.Vfs.Impl.{Bytes, InodeImpl, Service, SharedService, native_module, directory}
use veracruz.Vfs.Entry
use veracruz.Vfs.Entry.{InodeEntry}
use veracruz.Vfs.Table
use veracruz.Vfs.Table.{InodeTable, TableExec}
use veracruz.Vfs.Handle.{
  FileSystem, FsExec, lock_inode_table, get_fd, put_fd, get_inode_by_fd, check_right,
}
use Prim.Native.String.{len as byte_len}

-- The methods of `dyn Service` that change state: each gives the service as it is left.
pub record Services : Type 0 where
  pub try_parse : Service → Bytes → FileSystemResult Bool × Service
  pub serve : Service → Bytes → FileSystem → FileSystemResult Unit × Service × FileSystem

-- Several buffers are read one behind the other, from one inode.
unfoldable pub pread_bufs : InodeEntry → List Bytes → ℕ → FileSystemResult (List Bytes × ℕ)
pread_bufs f [] offset = ok ([], 0)
pread_bufs f (buf ∷ bufs) offset = elim (Entry.read_file buf offset f) [
  | err e ↦ err e
  | abort ↦ abort
  | ok (filled, delta) ↦ elim (pread_bufs f bufs (offset + delta)) [
    | err e ↦ err e
    | abort ↦ abort
    | ok (others, len) ↦ ok (filled ∷ others, delta + len)
  ]
]

unfoldable pub pwrite_bufs : List Bytes → ℕ → ℕ → Exec ErrNo InodeEntry ℕ
pwrite_bufs [] offset len = pure len
pwrite_bufs (buf ∷ bufs) offset len = do
  delta ← Entry.write_file buf offset
  pwrite_bufs bufs (offset + delta) (len + delta)

module _ ⦃s : Services⦄ where
  -- The service of an inode, and its input. The caller holds the lock of the service from here on,
  -- and a lock that is held already is never given.
  unfoldable pub acquire : ℕ → TableExec (Service × Bytes)
  acquire inode = do
    entry ← Table.get inode
    (shared, input) ← lift (Impl.service_handler entry.impl)
    if shared.locked then panic else do
      let held = record shared { locked = true }
      Table.insert_entry inode (record entry { impl = native_module held input })
      pure (shared.state, input)

  -- The guard is dropped, and the service keeps the state that it was left in.
  unfoldable pub release : ℕ → Service → TableExec Unit
  release inode state = do
    entry ← Table.get inode
    (shared, input) ← lift (Impl.service_handler entry.impl)
    let free = record shared { state = state; locked = false }
    Table.insert_entry inode (record entry { impl = native_module free input })

  unfoldable pub service_valid_input : ℕ → TableExec Bool
  service_valid_input inode = do
    (service, input) ← acquire inode
    let (valid, service') = s.try_parse service input
    release inode service'
    lift valid

  -- The service works on a copy of the handle; the inode table is shared.
  unfoldable pub serve_on_copy : Service → Bytes → FsExec (FileSystemResult Unit × Service)
  serve_on_copy service input f =
      let (result, service', f') = s.serve service input f in
      (ok (result, service'), record f { inode_table = f'.inode_table })

  unfoldable pub run_service : ℕ → FsExec Unit
  run_service inode = do
    (service, input) ← lock_inode_table (acquire inode)
    (result, service') ← serve_on_copy service input
    lock_inode_table (release inode service')
    lift result

module _ ⦃w : Wasi⦄ where
  unfoldable pub fd_advise : ℕ → ℕ → ℕ → ℕ → FsExec Unit
  fd_advise fd offset len adv = do
    check_right fd w.fd_advise
    entry ← get_fd fd
    put_fd fd (record entry { advice = entry.advice ++ (offset, len, adv) ∷ [] })

  unfoldable pub fd_allocate : ℕ → ℕ → ℕ → FsExec Unit
  fd_allocate fd offset len = fail no_sys

  unfoldable pub fd_datasync : ℕ → FsExec Unit
  fd_datasync fd = do check_right fd w.fd_datasync; fail no_sys

  unfoldable pub fd_sync : ℕ → FsExec Unit
  fd_sync fd = do check_right fd w.fd_sync; pure tt

  unfoldable pub fd_tell : ℕ → FsExec ℕ
  fd_tell fd = do check_right fd w.fd_tell; entry ← get_fd fd; pure entry.offset

-- What `fd_close` does to the inode: the input of a service is erased.
unfoldable pub truncate_service : Exec ErrNo InodeEntry Unit
truncate_service e = if Entry.is_service e then Entry.truncate_file e else (ok tt, e)

unfoldable pub fd_close : ℕ → FsExec Unit
fd_close fd = do
  inode ← get_inode_by_fd fd
  lock_inode_table (Table.at_inode inode truncate_service)
  removed ← get_fd fd
  modify (λ f. record f { fd_table = remove fd f.fd_table })

unfoldable pub fd_fdstat_get : ℕ → FsExec FdStat
fd_fdstat_get fd = do entry ← get_fd fd; pure entry.fd_stat

-- `FdStat` is `Copy`: the source changes a copy of the status, and the table stays as it is.
unfoldable pub fd_fdstat_set_rights : ℕ → ℕ → ℕ → FsExec Unit
fd_fdstat_set_rights fd rights_base rights_inheriting = do
  entry ← get_fd fd
  let fd_stat = record entry.fd_stat {
    rights_base = rights_base;
    rights_inheriting = rights_inheriting;
  }
  pure tt

unfoldable pub fd_filestat_get : ℕ → FsExec FileStat
fd_filestat_get fd = do
  inode ← get_inode_by_fd fd
  entry ← lock_inode_table (Table.get inode)
  pure entry.file_stat

unfoldable pub fd_renumber : ℕ → ℕ → FsExec Unit
fd_renumber old_fd new_fd = do
  entry ← get_fd old_fd
  used ← gets (λ f. contains_key new_fd f.fd_table)
  fail_if used bad_f
  put_fd new_fd entry
  modify (λ f. record f { fd_table = remove old_fd f.fd_table })

-- `as_os_str().len()` of a path: the bytes of its components and of the separators between them.
unfoldable pub os_len : FilePath → ℕ
os_len [] = 0
os_len (c ∷ []) = byte_len (component_text c)
os_len (root_dir ∷ p) = 1 + os_len p
os_len (c ∷ p) = byte_len (component_text c) + (1 + os_len p)

-- The one kind of a pre-opened descriptor is a directory, of which the length of the name is given.
unfoldable pub fd_prestat_get : ℕ → FsExec ℕ
unfolding os_len
fd_prestat_get fd = do
  found ← gets (λ f. lookup fd f.prestat_table)
  path ← ok_or bad_f found
  fail_if (leb (2 ^ 32) (os_len path)) inval
  pure (os_len path)

unfoldable pub fd_prestat_dir_name : ℕ → FsExec FilePath
fd_prestat_dir_name fd = do found ← gets (λ f. lookup fd f.prestat_table); ok_or bad_f found

module _ ⦃w : Wasi⦄ where
  unfoldable pub fd_fdstat_set_flags : ℕ → ℕ → FsExec Unit
  fd_fdstat_set_flags fd flags = do
    check_right fd w.fd_fdstat_set_flags
    entry ← get_fd fd
    put_fd fd (record entry { fd_stat = record entry.fd_stat { flags = flags } })

  unfoldable pub fd_filestat_set_size : ℕ → ℕ → FsExec Unit
  fd_filestat_set_size fd size = do
    check_right fd w.fd_filestat_set_size
    inode ← get_inode_by_fd fd
    lock_inode_table (Table.at_inode inode (Entry.resize_file size 0))

  -- One time at most is set: the tests are a chain of `else if`.
  unfoldable pub set_times : ℕ → ℕ → ℕ → ℕ → Exec ErrNo InodeEntry Unit
  set_times atime mtime fst_flags current_time = modify λ e.
      let stat = e.file_stat in
      if w.contains fst_flags w.set_atime_now
      then record e { file_stat = record stat { atime = current_time } }
      else if w.contains fst_flags w.set_mtime_now
      then record e { file_stat = record stat { mtime = current_time } }
      else if w.contains fst_flags w.set_atime
      then record e { file_stat = record stat { atime = atime } }
      else if w.contains fst_flags w.set_mtime
      then record e { file_stat = record stat { mtime = mtime } }
      else e

  unfoldable pub fd_filestat_set_times : ℕ → ℕ → ℕ → ℕ → ℕ → FsExec Unit
  fd_filestat_set_times fd atime mtime fst_flags current_time = do
    check_right fd w.fd_filestat_set_times
    inode ← get_inode_by_fd fd
    lock_inode_table (Table.at_inode inode (set_times atime mtime fst_flags current_time))

  unfoldable pub fd_pread : ℕ → List Bytes → ℕ → FsExec (List Bytes × ℕ)
  fd_pread fd bufs offset = do
    check_right fd w.fd_read
    inode ← get_inode_by_fd fd
    entry ← lock_inode_table (Table.get inode)
    lift (pread_bufs entry bufs offset)

-- The base that an offset is relative to.
unfoldable pub seek_base : Whence → ℕ → ℕ → ℕ
seek_base Whence.current offset file_size = offset
seek_base Whence.end offset file_size = file_size
seek_base Whence.start offset file_size = 0

module _ ⦃w : Wasi⦄ where
  unfoldable pub seek_target : ℕ → ℕ → ℕ → ℤ → FsExec ℕ
  seek_target fd file_size base (pos n) =
      let t_offset = (base + n) % 2 ^ 64 in
      do if ltb file_size t_offset then fd_filestat_set_size fd t_offset else pure tt; pure t_offset
  seek_target fd file_size base (negsuc n) = do
    distance ← ok_or inval (abs_u64 (negsuc n))
    fail_if (ltb base distance) s_pipe
    pure (base - distance)

  unfoldable pub fd_seek : ℕ → ℤ → Whence → FsExec ℕ
  fd_seek fd delta whence = do
    check_right fd w.fd_seek
    entry ← get_fd fd
    inode_entry ← lock_inode_table (Table.get entry.inode)
    let file_size = inode_entry.file_stat.file_size
    new_offset ← seek_target fd file_size (seek_base whence entry.offset file_size) delta
    entry' ← get_fd fd
    put_fd fd (record entry' { offset = new_offset })
    pure new_offset

  -- What a read does before it moves the offset. The buffers are filled from here on, whatever comes
  -- then.
  unfoldable pub read_at_offset : ℕ → List Bytes → FsExec (List Bytes × ℕ)
  read_at_offset fd bufs = do
    check_right fd w.fd_read
    entry ← get_fd fd
    fd_pread fd bufs entry.offset

  unfoldable pub fd_read : ℕ → List Bytes → FsExec (List Bytes × ℕ)
  fd_read fd bufs = do
    (filled, read_len) ← read_at_offset fd bufs
    fd_seek fd (as_i64 read_len) Whence.current
    pure (filled, read_len)

module _ ⦃w : Wasi⦄ ⦃s : Services⦄ where
  -- A write to the file of a service calls it, where it takes the contents for an input.
  unfoldable pub call_service : ℕ → FsExec Unit
  call_service inode = do
    valid ← lock_inode_table (service_valid_input inode)
    if valid then run_service inode else pure tt

  unfoldable pub fd_pwrite : ℕ → List Bytes → ℕ → FsExec ℕ
  fd_pwrite fd bufs offset = do
    check_right fd w.fd_write
    inode ← get_inode_by_fd fd
    len ← lock_inode_table (Table.at_inode inode (pwrite_bufs bufs offset 0))
    entry ← lock_inode_table (Table.get inode)
    if Entry.is_service entry then call_service inode else pure tt
    pure len

  unfoldable pub fd_write : ℕ → List Bytes → FsExec ℕ
  fd_write fd bufs = do
    check_right fd w.fd_write
    entry ← get_fd fd
    rst ← fd_pwrite fd bufs entry.offset
    fd_seek fd (as_i64 rst) Whence.current
    pure rst

pub record DirEnt : Type 0 where
  pub next : ℕ
  pub inode : ℕ
  pub name_len : ℕ
  pub file_type : FileType

-- The bytes of a path, as their number: the names of a directory have one component.
unfoldable pub path_len : FilePath → ℕ
path_len [] = 0
path_len (c ∷ p) = byte_len (component_text c) + path_len p

unfoldable pub dir_entries : ℕ → Map FilePath ℕ → TableExec (List (DirEnt × FilePath))
dir_entries index [] = pure []
dir_entries index ((path, inode) ∷ dir) = do
  fail_if (leb (2 ^ 32) (path_len path)) inval
  entry ← Table.get inode
  let dir_ent : DirEnt = record {
    next = index + 1;
    inode = inode;
    name_len = path_len path;
    file_type = entry.file_stat.file_type;
  }
  rest ← dir_entries (index + 1) dir
  pure ((dir_ent, path) ∷ rest)

unfoldable pub read_dir : InodeImpl → TableExec (List (DirEnt × FilePath))
read_dir (directory d) = dir_entries 0 d
read_dir impl = fail not_dir

module _ ⦃w : Wasi⦄ where
  unfoldable pub fd_readdir : ℕ → ℕ → FsExec (List (DirEnt × FilePath))
  fd_readdir fd cookie = do
    check_right fd w.fd_readdir
    dir_inode ← get_inode_by_fd fd
    entry ← lock_inode_table (Table.get dir_inode)
    dirs ← lock_inode_table (read_dir entry.impl)
    pure (if ltb (length dirs) cookie then [] else drop cookie dirs)
