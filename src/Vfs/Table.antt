-- ===== src/Vfs/Table.antt =====
-- execution-engine/src/fs.rs: `InodeTable`, the table of inodes that all handles of the filesystem
-- share, and the paths through its directories.
use veracruz.Base.{
  ℕ, ◌+◌, ◌^◌, Bool, false, none, some, [], ◌∷◌, Map, lookup, insert, contains_key, length, ltb,
  ◌==◌, if◌then◌else◌, nat_eq, path_eq, FilePath, Component, normal, parent, file_name, ok, err,
  abort, Exec, ◌>>=◌, ◌>>◌, pure, fail, panic, lift, ok_or, attempt, modify, gets,
}
use veracruz.Wasi.{
  ErrNo, FileStat, FileType, FileSystemResult, access, inval, n_file, no_ent, regular_file,
}
use veracruz.Policy.Principal.{Principal, principal_eq, RightsTable}
use veracruz.Vfs.Impl.{Bytes, SharedService, native_module, file, new_directory}
use veracruz.Vfs.Entry
use veracruz.Vfs.Entry.{InodeEntry}

pub record InodeTable : Type 0 where
  pub table : Map ℕ InodeEntry
  pub rights_table : RightsTable
  pub stdin : ℕ
  pub stdout : ℕ
  pub stderr : ℕ
  pub next_inode_candidate : ℕ

abbrev pub TableExec : Type 0 → Type 0
TableExec A = Exec ErrNo InodeTable A

abbrev pub root_directory_inode : ℕ
root_directory_inode = 2

-- `insert` of the table
unfoldable pub insert_entry : ℕ → InodeEntry → TableExec Unit
insert_entry inode entry t = (ok tt, record t { table = insert inode entry t.table })

-- `get`
unfoldable pub get : ℕ → TableExec InodeEntry
get inode t = elim (lookup inode t.table) [ none ↦ (err no_ent, t) | some e ↦ (ok e, t) ]

-- `get_mut(&inode)?` and a method of the entry
module _ {A : Type 0} where
  abbrev pub put_back :
      ℕ → FileSystemResult A × InodeEntry → InodeTable → FileSystemResult A × InodeTable
  put_back inode (r, e) t = (r, record t { table = insert inode e t.table })

  unfoldable pub at_inode : ℕ → Exec ErrNo InodeEntry A → TableExec A
  at_inode inode m t = elim (lookup inode t.table) [
    | none ↦ (err no_ent, t)
    | some e ↦ put_back inode (m e) t
  ]

unfoldable pub is_dir : ℕ → InodeTable → Bool
unfolding Entry.is_dir
is_dir inode t = elim (lookup inode t.table) [ none ↦ false | some e ↦ Entry.is_dir e ]

unfoldable pub get_rights : Principal → InodeTable → FileSystemResult (Map FilePath ℕ)
get_rights principal t = elim (lookup principal t.rights_table) [
  | none ↦ err access
  | some rights ↦ ok rights
]

-- The fold over the components of a path.
unfoldable pub walk : FilePath → ℕ → TableExec ℕ
walk [] last = pure last
walk (component ∷ path) last = do
  entry ← get last
  next ← lift (Entry.get_inode_by_path (component ∷ []) entry)
  walk path next

unfoldable pub get_inode_by_inode_path : ℕ → FilePath → TableExec ℕ
get_inode_by_inode_path parent_inode path = do inode ← walk path parent_inode; get inode; pure inode

-- An inode number is a `u64`, and the largest one is wasted.
unfoldable pub new_inode : TableExec ℕ
new_inode t =
    if contains_key t.next_inode_candidate t.table
    then (err n_file, t)
    else if ltb (t.next_inode_candidate + 1) (2 ^ 64)
    then (ok t.next_inode_candidate, record t { next_inode_candidate = t.next_inode_candidate + 1 })
    else (err n_file, t)

abbrev pub new_stat : ℕ → FileType → ℕ → FileStat
new_stat inode file_type file_size = record {
  device = 0;
  inode = inode;
  file_type = file_type;
  num_links = 0;
  file_size = file_size;
  atime = 0;
  mtime = 0;
  ctime = 0;
}

unfoldable pub new_dir_entry : ℕ → ℕ → InodeEntry
new_dir_entry new_inode parent = record {
  file_stat = new_stat new_inode FileType.directory 0;
  impl = new_directory new_inode parent;
}

unfoldable pub new_file_entry : ℕ → Bytes → InodeEntry
new_file_entry new_inode raw_file_data = record {
  file_stat = new_stat new_inode regular_file (length raw_file_data);
  impl = file raw_file_data;
}

-- `if parent != new_inode { parent.insert(path, new_inode) }`
unfoldable pub link : ℕ → FilePath → ℕ → TableExec Unit
link parent path new_inode =
    if parent == new_inode then pure tt else at_inode parent (Entry.insert_path path new_inode)

unfoldable pub add_dir : ℕ → FilePath → ℕ → TableExec Unit
add_dir parent path new_inode = do
  link parent path new_inode
  insert_entry new_inode (new_dir_entry new_inode parent)

-- The directory below `parent` that is found, or is made where `NoEnt` is the error.
unfoldable pub found_or_added : ℕ → FilePath → FileSystemResult ℕ → TableExec ℕ
found_or_added parent c (ok inode) = pure inode
found_or_added parent c (err no_ent) = do new ← new_inode; add_dir parent c new; pure new
found_or_added parent c (err e) = fail e
found_or_added parent c abort = panic

unfoldable pub add_all_dir : ℕ → FilePath → TableExec ℕ
add_all_dir parent [] = pure parent
add_all_dir parent (normal c ∷ path) = do
  found ← attempt (get_inode_by_inode_path parent (normal c ∷ []))
  new_parent ← found_or_added parent (normal c ∷ []) found
  add_all_dir new_parent path
add_all_dir parent (component ∷ path) = fail inval

-- The direct parent of the new file, and its name there.
unfoldable pub locate : ℕ → FilePath → FilePath → TableExec (ℕ × FilePath)
locate parent path [] = pure (parent, path)
locate parent path parent_path = do
  name ← ok_or inval (file_name path)
  add_all_dir parent parent_path
  direct ← get_inode_by_inode_path parent parent_path
  pure (direct, normal name ∷ [])

unfoldable pub add_file : ℕ → FilePath → ℕ → Bytes → TableExec Unit
add_file parent_inode path new_inode raw_file_data = do
  parent_path ← ok_or inval (parent path)
  (direct, name) ← locate parent_inode path parent_path
  insert_entry new_inode (new_file_entry new_inode raw_file_data)
  link direct name new_inode

-- One service of `install_services`, with its path less the root.
unfoldable pub install_service : FilePath → SharedService → TableExec Unit
install_service path service = do
  new ← new_inode
  add_file root_directory_inode path new []
  uplifted ← gets (λ t. lookup new t.table)
  entry ← ok_or inval uplifted
  insert_entry new (record entry { impl = native_module service [] })

unfoldable pub install_standard_streams_inode : TableExec Unit
install_standard_streams_inode = do
  in_inode ← new_inode
  modify (λ t. record t { stdin = in_inode })
  add_file in_inode (normal "stdin" ∷ []) in_inode []
  out_inode ← new_inode
  modify (λ t. record t { stdout = out_inode })
  add_file out_inode (normal "stdout" ∷ []) out_inode []
  err_inode ← new_inode
  modify (λ t. record t { stderr = err_inode })
  add_file err_inode (normal "stderr" ∷ []) err_inode []

unfoldable pub empty_table : RightsTable → InodeTable
empty_table rights_table = record {
  table = [];
  rights_table = rights_table;
  stdin = 0;
  stdout = 1;
  stderr = 2;
  next_inode_candidate = root_directory_inode + 1;
}

-- What `InodeTable::new` does to the empty table: the root directory and the standard streams.
unfoldable pub new : TableExec Unit
new = do
  add_dir root_directory_inode (Component.root_dir ∷ []) root_directory_inode
  install_standard_streams_inode
