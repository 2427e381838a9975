-- ===== src/Vfs/Integrity/Paths.antt =====
-- Paths through directories, and the operations that add files below them, keep the inode table
-- well-formed.
use veracruz.Base.{
  ℕ, ◌^◌, ◌<◌, sym, ◌∙◌, subst, length, nat_eq, path_eq, FilePath, ok, err, abort, arith, [], ◌∷◌,
  normal, parent, file_name,
}
use veracruz.Wasi.{FileSystemResult, no_ent, inval}
use veracruz.Hoare.{
  Always, OnOk_const, weaken, Triple-pure, Triple-fail, Triple-panic, Triple-lift, Triple-bind,
  Triple-attempt, Triple-ok_or,
}
use veracruz.Vfs.Impl
use veracruz.Vfs.Impl.{Bytes, directory}
use veracruz.Vfs.Entry
use veracruz.Vfs.Entry.{InodeEntry}
use veracruz.Vfs.Table
use veracruz.Vfs.Table.{InodeTable, TableExec}
use veracruz.Vfs.Integrity.{Present, SizeFits, LinksInto, Awaited, table_frame, Present-lookup}
use veracruz.Vfs.Integrity.Contents.{Anything}
use veracruz.Vfs.Integrity.Inodes.{
  TableTriple, IsFresh, IsThere, IsEntryOf, get-Triple, new_inode-Triple,
}
use veracruz.Vfs.Integrity.Additions.{add_dir-Triple, insert_entry-Triple, link-Triple}
use veracruz.Vfs.Integrity.Untouched.{Leaves, locate-Leaves}

-- An operation that keeps the table well-formed.
abbrev pub Keeps : {A : Type 0} → TableExec A → Type 0
Keeps m = TableTriple Always m Anything

module _ {A : Type 0} {pre : InodeTable → Type 0} {m : TableExec A} where
  pub forget :
      {post : A → InodeTable → Type 0} → TableTriple Always m post → TableTriple pre m Anything
  forget h = weaken table_frame pre Anything (λ s p. tt) (λ a s g q. tt) h

pub walk-Keeps : (path : FilePath) (i : ℕ) → Keeps (Table.walk path i)
unfolding Table.walk
walk-Keeps [] i = forget (Triple-pure table_frame Always i)
walk-Keeps (c ∷ path) i = Triple-bind table_frame (IsEntryOf i) (get-Triple i) (λ entry.
    Triple-bind table_frame Anything
      (forget (Triple-lift table_frame Always (Entry.get_inode_by_path (c ∷ []) entry)))
      (λ next. walk-Keeps path next))

-- A path that is found leads to an inode of the table.
abbrev pub LeadsTo : ℕ → InodeTable → Type 0
LeadsTo i t = Present i t

pub get_inode_by_inode_path-Triple :
    (i : ℕ) (path : FilePath) → TableTriple Always (Table.get_inode_by_inode_path i path) LeadsTo
unfolding Table.get_inode_by_inode_path
get_inode_by_inode_path-Triple i path =
    Triple-bind table_frame Anything (walk-Keeps path i) (λ inode.
      Triple-bind table_frame (IsEntryOf inode) (get-Triple inode) (λ e.
        weaken table_frame (IsEntryOf inode e) LeadsTo (λ t p. p)
          (λ a t g q. subst (λ k. Present k t) (sym q.0) (Present-lookup inode e t q.1))
          (Triple-pure table_frame (IsEntryOf inode e) inode)))

found_or_added-Keeps :
    (i : ℕ) (c : FilePath) (r : FileSystemResult ℕ) → Keeps (Table.found_or_added i c r)
unfolding Table.found_or_added
found_or_added-Keeps i c (ok inode) = forget (Triple-pure table_frame Always inode)
found_or_added-Keeps i c (err no_ent) = Triple-bind table_frame IsFresh new_inode-Triple (λ new.
    Triple-bind table_frame (IsThere new) (add_dir-Triple i c new)
      (λ u. forget (Triple-pure table_frame Always new)))
found_or_added-Keeps i c (err e) = forget (Triple-fail table_frame Always e Anything)
found_or_added-Keeps i c abort = forget (Triple-panic table_frame Always Anything)

pub add_all_dir-Keeps : (i : ℕ) (path : FilePath) → Keeps (Table.add_all_dir i path)
unfolding Table.add_all_dir
add_all_dir-Keeps i [] = forget (Triple-pure table_frame Always i)
add_all_dir-Keeps i (normal c ∷ path) =
    Triple-bind table_frame Anything
      (forget (
        Triple-attempt table_frame Always (Table.get_inode_by_inode_path i (normal c ∷ [])) LeadsTo
          (get_inode_by_inode_path-Triple i (normal c ∷ []))))
      (λ found.
        Triple-bind table_frame Anything (found_or_added-Keeps i (normal c ∷ []) found)
          (λ new_parent. add_all_dir-Keeps new_parent path))
add_all_dir-Keeps i (_ ∷ path) = forget (Triple-fail table_frame Always inval Anything)

-- What is reserved stays so, while others are given out.
reserved :
    {A : Type 0} (n : ℕ) {m : TableExec A}
    → Keeps m
    → Leaves m
    → TableTriple (IsFresh n) m (λ _. IsFresh n)
reserved n {m} k l = record {
  run = λ t g fresh.
      let (good, grows, _) = k.run t g tt in
      let (_, free, _) = l.run t tt tt in
      (
        good,
        grows,
        OnOk_const (m t).0 (free.same n fresh.1 ∙ fresh.0, omega (arith, free.next, fresh.1)),
      );
}

locate-Keeps : (i : ℕ) (path above : FilePath) → Keeps (Table.locate i path above)
unfolding Table.locate
locate-Keeps i path [] = forget (Triple-pure table_frame Always (i, path))
locate-Keeps i path (c ∷ above) =
    Triple-bind table_frame Anything
      (forget (Triple-ok_or table_frame Always inval (file_name path)))
      (λ name. Triple-bind table_frame Anything (add_all_dir-Keeps i (c ∷ above)) (λ last.
        Triple-bind table_frame Anything (forget (get_inode_by_inode_path-Triple i (c ∷ above)))
          (λ direct. forget (Triple-pure table_frame Always (direct, normal name ∷ [])))))

new_file-SizeFits :
    (n : ℕ) (raw : Bytes) → length raw < 2 ^ 63 → SizeFits (Table.new_file_entry n raw)
unfolding Table.new_file_entry Impl.contents
new_file-SizeFits n raw small b h = ground arith

new_file-LinksInto :
    (T : ℕ → Type 0) (n : ℕ) (raw : Bytes) → LinksInto T (Table.new_file_entry n raw)
unfolding Table.new_file_entry
new_file-LinksInto T n raw d h p j found = cc

-- Some `n` is fresh, and then is written as a file.
pub insert_file-Triple :
    (n : ℕ) (raw : Bytes)
    → length raw < 2 ^ 63
    → TableTriple (IsFresh n) (Table.insert_entry n (Table.new_file_entry n raw)) (IsThere n)
insert_file-Triple n raw small =
    weaken table_frame (IsFresh n) (IsThere n)
      (λ t fresh. (fresh, new_file-LinksInto (Awaited n t) n raw)) (λ a t g q. q)
      (insert_entry-Triple n (Table.new_file_entry n raw) (new_file-SizeFits n raw small))

pub add_file-Triple :
    (i : ℕ) (path : FilePath) (n : ℕ) (raw : Bytes)
    → length raw < 2 ^ 63
    → TableTriple (IsFresh n) (Table.add_file i path n raw) (IsThere n)
unfolding Table.add_file
add_file-Triple i path n raw small =
    Triple-bind table_frame (λ above t. IsFresh n t)
      (weaken table_frame (IsFresh n) (λ above t. IsFresh n t) (λ t p. p) (λ a t g q. q.1)
        (Triple-ok_or table_frame (IsFresh n) inval (parent path)))
      (λ above.
        Triple-bind table_frame (λ place t. IsFresh n t)
          (reserved n (locate-Keeps i path above) (locate-Leaves i path above))
          (λ place.
            Triple-bind table_frame (IsThere n) (insert_file-Triple n raw small)
              (λ u. link-Triple place.0 place.1 n)))
