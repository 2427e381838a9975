-- ===== src/Vfs/Integrity/Reached.antt =====
-- The directory that `add_all_dir` ends at is an inode of the table.
use veracruz.Base.{ℕ, ok, err, abort, subst, sym, FilePath, [], ◌∷◌, normal, pure}
use veracruz.Wasi.{FileSystemResult, no_ent, inval}
use veracruz.Hoare.{
  Always, OnOk, weaken, Triple-pure, Triple-fail, Triple-panic, Triple-bind, Triple-attempt,
}
use veracruz.Vfs.Table
use veracruz.Vfs.Table.{InodeTable}
use veracruz.Vfs.Integrity.{Present, table_frame}
use veracruz.Vfs.Integrity.Inodes.{TableTriple, IsFresh, IsThere, new_inode-Triple}
use veracruz.Vfs.Integrity.Additions.{add_dir-Triple}
use veracruz.Vfs.Integrity.Paths.{LeadsTo, get_inode_by_inode_path-Triple}

-- What was found, where something was.
abbrev FoundIn : FileSystemResult ℕ → InodeTable → Type 0
FoundIn r t = OnOk r (λ i. Present i t)

pure-LeadsTo : (i : ℕ) → TableTriple (LeadsTo i) (pure i) LeadsTo
pure-LeadsTo i =
    weaken table_frame (LeadsTo i) LeadsTo (λ t p. p)
      (λ k t g q. subst (λ x. Present x t) (sym q.0) q.1) (Triple-pure table_frame (LeadsTo i) i)

found_or_added-Triple :
    (i : ℕ) (c : FilePath) (r : FileSystemResult ℕ)
    → TableTriple (FoundIn r) (Table.found_or_added i c r) LeadsTo
unfolding Table.found_or_added
found_or_added-Triple i c (ok inode) = pure-LeadsTo inode
found_or_added-Triple i c (err no_ent) =
    weaken table_frame (FoundIn (err no_ent)) LeadsTo (λ t p. tt) (λ a t g q. q)
      (Triple-bind table_frame IsFresh new_inode-Triple (λ new.
        Triple-bind table_frame (IsThere new) (add_dir-Triple i c new) (λ u. pure-LeadsTo new)))
found_or_added-Triple i c (err e) = Triple-fail table_frame (FoundIn (err e)) e LeadsTo
found_or_added-Triple i c abort = Triple-panic table_frame (FoundIn abort) LeadsTo

pub add_all_dir-Triple :
    (i : ℕ) (path : FilePath) → TableTriple (LeadsTo i) (Table.add_all_dir i path) LeadsTo
unfolding Table.add_all_dir
add_all_dir-Triple i [] = pure-LeadsTo i
add_all_dir-Triple i (normal c ∷ path) =
    weaken table_frame (LeadsTo i) LeadsTo (λ t p. tt) (λ a t g q. q)
      (Triple-bind table_frame FoundIn
        (Triple-attempt table_frame Always (Table.get_inode_by_inode_path i (normal c ∷ [])) LeadsTo
          (get_inode_by_inode_path-Triple i (normal c ∷ [])))
        (λ found.
          Triple-bind table_frame LeadsTo (found_or_added-Triple i (normal c ∷ []) found)
            (λ new_parent. add_all_dir-Triple new_parent path)))
add_all_dir-Triple i (_ ∷ path) = Triple-fail table_frame (LeadsTo i) inval LeadsTo
