-- ===== src/Vfs/Public.antt =====
-- execution-engine/src/fs.rs: how handles are made, and the interface that the runtime manager uses.
use veracruz.Base.{
  ℕ, zero, suc, Bool, true, false, not, Option, none, some, List, [], ◌∷◌, Map, length, replicate,
  if◌then◌else◌, nat_eq, path_eq, FilePath, normal, root_dir, String, parent, strip_prefix,
  strip_root_slash, Result, ◌>>=◌, ◌>>◌, pure, lift, ok_or, gets, fail_if, pos,
}
use veracruz.Wasi.{ErrNo, FileSystemResult, Wasi, Whence, access, inval, no_flags}
use veracruz.Policy.Principal.{Principal, RightsTable}
use veracruz.Vfs.Impl.{Bytes, SharedService, Service}
use veracruz.Vfs.Entry
use veracruz.Vfs.Table
use veracruz.Vfs.Table.{InodeTable, TableExec}
use veracruz.Vfs.Handle.{
  FileSystem, FsExec, bare, lock_inode_table, get_fd, get_inode_by_fd, check_right, install_prestat,
}
use veracruz.Vfs.File.{Services, fd_close, fd_filestat_get, fd_read, fd_seek, fd_write}
use veracruz.Vfs.Directory.{path_open}

module _ {A : Type 0} where
  -- The handle `f`, after the work of another handle on the shared table.
  abbrev pub share : FileSystem → Result ErrNo A × FileSystem → Result ErrNo A × FileSystem
  share f (r, g) = (r, record f { inode_table = g.inode_table })

  -- The work of another handle.
  unfoldable pub on_handle : FileSystem → FsExec A → FsExec A
  on_handle g m f = share f (m (record g { inode_table = f.inode_table }))

module _ ⦃w : Wasi⦄ where
  unfoldable pub spawn_with : Map FilePath ℕ → FsExec FileSystem
  spawn_with rights_table f =
      share f ((do install_prestat rights_table; gets (λ g. g)) (bare f.inode_table))

  unfoldable pub spawn : Principal → FsExec FileSystem
  spawn principal = do
    rights ← gets (λ f. Table.get_rights principal f.inode_table)
    rights_table ← lift rights
    spawn_with rights_table

-- `install_services`
unfoldable pub install_services : List (FilePath × SharedService) → TableExec Unit
install_services [] = pure tt
install_services ((path, service) ∷ services) = do
  Table.install_service (strip_root_slash path) service
  install_services services

abbrev pub unlocked : Service → SharedService
unlocked state = record { state = state; locked = false }

-- `AesCounterModeService::new`
unfoldable pub new_aes_counter_mode_service : Service
new_aes_counter_mode_service =
    Service.aes_counter_mode_service (replicate 16 0) (replicate 16 0) [] [] false

abbrev pub service_path : String → FilePath
service_path name = root_dir ∷ normal "services" ∷ normal name ∷ []

module _ ⦃w : Wasi⦄ where
  abbrev pub all_rights_table : Map FilePath ℕ
  all_rights_table =
      (root_dir ∷ [], w.all_rights)
      ∷ (normal "stdin" ∷ [], w.all_rights)
      ∷ (normal "stdout" ∷ [], w.all_rights)
      ∷ (normal "stderr" ∷ [], w.all_rights)
      ∷ []

  -- What `FileSystem::new` does once the inode table is there.
  unfoldable pub install_super_user : FsExec Unit
  install_super_user = do
    install_prestat all_rights_table
    lock_inode_table (
        install_services (
          (service_path "postcard_string.dat", unlocked Service.postcard_service)
          ∷ (service_path "aesctr.dat", unlocked new_aes_counter_mode_service)
          ∷ []))

  -- `FileSystem::new`
  unfoldable pub new : RightsTable → FileSystemResult Unit × FileSystem
  new rights_table =
      (do lock_inode_table Table.new; install_super_user) (bare (Table.empty_table rights_table))

-- `Path::ancestors`; each step takes one component away, so the fuel is enough.
unfoldable pub ancestors_from : ℕ → FilePath → List FilePath
ancestors_from zero path = path ∷ []
ancestors_from (suc n) path = elim (parent path) [
  | none ↦ path ∷ []
  | some above ↦ path ∷ ancestors_from n above
]

unfoldable pub ancestors : FilePath → List FilePath
unfolding ancestors_from
ancestors path = ancestors_from (length path) path

-- The descriptor that is opened in advance for exactly this path.
unfoldable pub prestat_of : FilePath → Map ℕ FilePath → Option ℕ
prestat_of path [] = none
prestat_of path ((fd, prestat_path) ∷ m) =
    if path_eq.beq prestat_path path then some fd else prestat_of path m

unfoldable pub first_prestat : List FilePath → Map ℕ FilePath → Option (ℕ × FilePath)
first_prestat [] m = none
first_prestat (path ∷ paths) m = elim (prestat_of path m) [
  | some fd ↦ some (fd, path)
  | none ↦ first_prestat paths m
]

unfoldable pub find_prestat : FilePath → FsExec (ℕ × FilePath)
find_prestat path = do
  found ← gets (λ f. first_prestat (ancestors path) f.prestat_table)
  (fd, parent_path) ← ok_or access found
  rest ← ok_or inval (strip_prefix parent_path path)
  pure (fd, rest)

-- The single buffer that was handed over.
abbrev flat : List Bytes → Bytes
flat [] = []
flat (buf ∷ bufs) = buf

module _ ⦃w : Wasi⦄ where
  -- The rights that an opened file must have, for the calls that follow.
  unfoldable pub require_rights : ℕ → ℕ → FsExec Unit
  require_rights fd rights = do
    entry ← get_fd fd
    fail_if (not (w.contains entry.fd_stat.rights_base rights)) access

  unfoldable pub open_by_absolute_path : FilePath → ℕ → FsExec ℕ
  open_by_absolute_path file_name oflags = do
    (fd, rest) ← find_prestat file_name
    path_open fd rest oflags w.all_rights w.all_rights no_flags

  unfoldable pub read_file_by_absolute_path : FilePath → FsExec Bytes
  read_file_by_absolute_path file_name = do
    fd ← open_by_absolute_path file_name no_flags
    require_rights fd (w.union w.fd_read w.fd_seek)
    file_stat ← fd_filestat_get fd
    (filled, read_size) ← fd_read fd (replicate file_stat.file_size 0 ∷ [])
    fd_close fd
    pure (flat filled)

  -- Read from the descriptor of a standard stream, as much as it holds.
  unfoldable pub read_std_stream : ℕ → FsExec Bytes
  read_std_stream fd = do
    inode ← get_inode_by_fd fd
    entry ← lock_inode_table (Table.get inode)
    (filled, read_len) ← fd_read fd (replicate (Entry.len entry) 0 ∷ [])
    pure (flat filled)

  unfoldable pub read_stdout : FsExec Bytes
  read_stdout = read_std_stream 1

  unfoldable pub read_stderr : FsExec Bytes
  read_stderr = read_std_stream 2

  -- On a handle of the principal, which is dropped.
  unfoldable pub check_executable : FilePath → FsExec Bool
  check_executable path = do
    fd ← open_by_absolute_path path no_flags
    check_right fd w.fd_execute
    pure true

  unfoldable pub is_executable : Principal → FilePath → FsExec Bool
  is_executable principal path = do vfs ← spawn principal; on_handle vfs (check_executable path)

module _ ⦃w : Wasi⦄ ⦃s : Services⦄ where
  unfoldable pub write_file_by_absolute_path : FilePath → Bytes → Bool → FsExec Unit
  write_file_by_absolute_path file_name bytes is_append = do
    fd ←
        open_by_absolute_path file_name
          (w.union w.o_create (if is_append then no_flags else w.o_trunc))
    require_rights fd (w.union w.fd_write w.fd_seek)
    if is_append then (do fd_seek fd (pos 0) Whence.end; pure tt) else pure tt
    fd_write fd (bytes ∷ [])
    fd_close fd

  unfoldable pub write_stdin : Bytes → FsExec ℕ
  write_stdin buf = fd_write 0 (buf ∷ [])
