-- ===== src/Vfs/Handle.antt =====
-- execution-engine/src/fs.rs: `FileSystem`, a handle of one principal on the shared inode table: its
-- file descriptors, their rights, and the directories that are opened in advance.
use veracruz.Base.{
  ℕ, suc, ◌+◌, ◌%◌, ◌/◌, ◌^◌, Bool, false, ◌||◌, Option, none, some, List, [], ◌∷◌, Map, lookup,
  insert, contains_key, length, ltb, leb, ◌==◌, if◌then◌else◌, nat_eq, path_eq, string_eq, FilePath,
  normal, strip_root_slash, String, Exec, ok, err, ◌>>=◌, ◌>>◌, pure, fail, ok_or, modify, gets,
  zoom, fail_if,
}
use veracruz.Wasi.{
  ErrNo, FileType, FdStat, Wasi, no_flags, access, bad_f, inval, n_file, regular_file, unknown,
}
use veracruz.Policy.Principal.{FileRights}
use veracruz.Vfs.Table
use veracruz.Vfs.Table.{InodeTable, TableExec, root_directory_inode}

pub record FdEntry : Type 0 where
  pub inode : ℕ
  pub fd_stat : FdStat
  pub offset : ℕ
  -- offset, length and advice
  pub advice : List (ℕ × ℕ × ℕ)

-- All handles hold the same inode table behind an `Arc`: what one handle leaves in it is put into
-- the others where the program goes on with them.
pub record FileSystem : Type 0 where
  pub fd_table : Map ℕ FdEntry
  pub next_fd_candidate : ℕ
  pub inode_table : InodeTable
  pub prestat_table : Map ℕ FilePath

abbrev pub FsExec : Type 0 → Type 0
FsExec A = Exec ErrNo FileSystem A

abbrev pub first_fd : ℕ
first_fd = 3

-- A handle with no descriptor yet.
unfoldable pub bare : InodeTable → FileSystem
bare t = record { fd_table = []; next_fd_candidate = first_fd; inode_table = t; prestat_table = [] }

module _ {A : Type 0} where
  -- `lock_inode_table()?` and a method of the table. The lock is free: one thread runs, and no
  -- caller keeps it across such a call.
  unfoldable pub lock_inode_table : TableExec A → FsExec A
  unfolding zoom
  lock_inode_table = zoom (λ f. f.inode_table) (λ t f. record f { inode_table = t })

unfoldable pub get_fd : ℕ → FsExec FdEntry
get_fd fd f = elim (lookup fd f.fd_table) [ none ↦ (err bad_f, f) | some e ↦ (ok e, f) ]

unfoldable pub put_fd : ℕ → FdEntry → FsExec Unit
put_fd fd entry f = (ok tt, record f { fd_table = insert fd entry f.fd_table })

unfoldable pub new_fd_entry : FileType → ℕ → ℕ → ℕ → FdEntry
new_fd_entry file_type inode rights_base rights_inheriting = record {
  inode = inode;
  fd_stat = record {
    file_type = file_type;
    flags = no_flags;
    rights_base = rights_base;
    rights_inheriting = rights_inheriting;
  };
  offset = 0;
  advice = [];
}

-- The bit 31 of a candidate is set when all descriptors are used up.
unfoldable pub new_fd : FsExec ℕ
new_fd f =
    if f.next_fd_candidate / 2 ^ 31 % 2 == 1 || contains_key f.next_fd_candidate f.fd_table
    then (err n_file, f)
    else (
      ok f.next_fd_candidate,
      record f { next_fd_candidate = (f.next_fd_candidate + 1) % 2 ^ 32 },
    )

unfoldable pub get_inode_by_fd : ℕ → FsExec ℕ
get_inode_by_fd fd = do entry ← get_fd fd; pure entry.inode

unfoldable pub get_inode_by_fd_path : ℕ → FilePath → FsExec ℕ
get_inode_by_fd_path fd path = do
  parent_inode ← get_inode_by_fd fd
  lock_inode_table (Table.get_inode_by_inode_path parent_inode path)

-- The paths of the standard streams.
unfoldable pub is_std_path : FilePath → Bool
is_std_path (normal s ∷ []) =
    string_eq.beq s "stdin" || string_eq.beq s "stdout" || string_eq.beq s "stderr"
is_std_path p = false

-- The rights on the standard streams that fit a `u32`.
unfoldable pub std_streams_table : Map FilePath ℕ → List FileRights
unfolding is_std_path
std_streams_table ((normal s ∷ [], v) ∷ m) =
    let rest = std_streams_table m in
    if is_std_path (normal s ∷ [])
    then if ltb v (2 ^ 32) then record { file_name = s; rights = v } ∷ rest else rest
    else rest
std_streams_table (_ ∷ m) = std_streams_table m
std_streams_table [] = []

unfoldable pub without_std : Map FilePath ℕ → Map FilePath ℕ
unfolding is_std_path
without_std [] = []
without_std ((k, v) ∷ m) = let rest = without_std m in if is_std_path k then rest else (k, v) ∷ rest

-- The descriptor and the inode of a standard stream.
unfoldable pub std_stream : String → InodeTable → Option (ℕ × ℕ)
std_stream name t =
    if string_eq.beq name "stdin"
    then some (0, t.stdin)
    else if string_eq.beq name "stdout"
    then some (1, t.stdout)
    else if string_eq.beq name "stderr"
    then some (2, t.stderr)
    else none

unfoldable pub install_fd : ℕ → FileType → ℕ → ℕ → ℕ → FsExec Unit
unfolding put_fd
install_fd fd file_type inode rights_base rights_inheriting =
    put_fd fd (new_fd_entry file_type inode rights_base rights_inheriting)

module _ ⦃w : Wasi⦄ where
  unfoldable pub check_right : ℕ → ℕ → FsExec Unit
  check_right fd rights = do
    entry ← get_fd fd
    if w.contains entry.fd_stat.rights_base rights then pure tt else fail access

  unfoldable pub install_stream : FileRights → Option (ℕ × ℕ) → FsExec Unit
  install_stream stream none = pure tt
  install_stream stream (some (fd, inode)) = do
    rights ← ok_or inval (w.from_bits stream.rights)
    install_fd fd regular_file inode rights rights

  unfoldable pub install_standard_streams_fd : List FileRights → FsExec Unit
  install_standard_streams_fd [] = pure tt
  install_standard_streams_fd (stream ∷ streams) = do
    which ← gets (λ f. std_stream stream.file_name f.inode_table)
    install_stream stream which
    install_standard_streams_fd streams

-- The root, or the directory at a path below it, made where it is missing.
unfoldable pub prestat_inode : FilePath → TableExec ℕ
prestat_inode [] = pure root_directory_inode
prestat_inode relative_path = Table.add_all_dir root_directory_inode relative_path

-- The loop over the opened directories, from the descriptor `first_fd + index` on.
unfoldable pub install_prestat_dirs : ℕ → Map FilePath ℕ → FsExec Unit
install_prestat_dirs index [] = pure tt
install_prestat_dirs index ((path, rights) ∷ m) = do
  fail_if (leb (2 ^ 32) index) inval
  inode ← lock_inode_table (prestat_inode (strip_root_slash path))
  let new_fd = (index + first_fd) % 2 ^ 32
  install_fd new_fd unknown inode rights rights
  modify (λ f. record f { prestat_table = insert new_fd path f.prestat_table })
  install_prestat_dirs (suc index) m

module _ ⦃w : Wasi⦄ where
  unfoldable pub install_prestat : Map FilePath ℕ → FsExec Unit
  install_prestat rights_table = do
    install_standard_streams_fd (std_streams_table rights_table)
    install_prestat_dirs 0 (without_std rights_table)
    fail_if (leb (2 ^ 32) (length rights_table)) inval
    modify (λ f. record f { next_fd_candidate = (first_fd + length rights_table) % 2 ^ 32 })
