-- ===== src/Vfs/Soundness/Unmoved.antt =====
-- The steps of `FileSystem::new` that leave the inode table alone.
use veracruz.Base.{
  true, Bool, fail_if, ℕ, ◌≡◌, refl, List, [], ◌∷◌, root_dir, path_eq, nat_eq, ◌>>=◌,
  strip_root_slash, false, some, none, ◌∙◌, pure, gets, ok_or, Option, modify,
}
use veracruz.Wasi.{ErrNo, Wasi, FileType, regular_file, inval}
use veracruz.Vfs.Handle
use veracruz.Vfs.Handle.{FileSystem, FdEntry, bare}
use veracruz.Hoare.{Frame, Triple, Always, OnOk_trivial, Triple-bind}
use veracruz.Vfs.Integrity.Contents.{Anything}
use veracruz.Policy.Principal.{FileRights}
use veracruz.Vfs.Handle.{FsExec}
use veracruz.Vfs.Soundness.{ErrNo}
use veracruz.Vfs.Public

-- Steps that leave the inode table alone.
abbrev table_kept : Frame FileSystem
table_kept = record {
  Good = Always;
  Rel = λ f g. g.inode_table ≡ f.inode_table;
  reflexive = λ f. refl;
  transitive = λ f g h p q. q ∙ p;
}

abbrev LeavesTable : {A : Type 0} → FsExec A → Type 0
LeavesTable m = Triple table_kept Always m Anything

leaves :
    {A : Type 0} {m : FsExec A}
    → ((f : FileSystem) → (m f).1.inode_table ≡ f.inode_table)
    → LeavesTable m
leaves {m} same = record { run = λ f g p. (tt, same f, OnOk_trivial (m f).0) }

next :
    {A B : Type 0} {m : FsExec A} {k : A → FsExec B}
    → LeavesTable m
    → ((a : A) → LeavesTable (k a))
    → LeavesTable (m >>= k)
next h k = Triple-bind table_kept Anything h k

install_fd-LeavesTable :
    (fd : ℕ) (file_type : FileType) (inode base inheriting : ℕ)
    → LeavesTable (Handle.install_fd fd file_type inode base inheriting)
unfolding Handle.install_fd Handle.put_fd
install_fd-LeavesTable fd file_type inode base inheriting = leaves (λ f. refl)

pure-LeavesTable : {A : Type 0} (a : A) → LeavesTable (pure a)
unfolding pure
pure-LeavesTable a = leaves (λ f. refl)

modify-LeavesTable :
    (h : FileSystem → FileSystem)
    → ((f : FileSystem) → (h f).inode_table ≡ f.inode_table)
    → LeavesTable (modify h)
unfolding modify
modify-LeavesTable h same = leaves same

gets_reads :
    {A : Type 0} (h : FileSystem → A) (f : FileSystem)
    → ((gets {E = ErrNo} h) f).1.inode_table ≡ f.inode_table
unfolding gets
gets_reads h f = refl

ok_or-reads :
    {A : Type 0} (e : ErrNo) (o : Option A) (f : FileSystem)
    → (ok_or e o f).1.inode_table ≡ f.inode_table
unfolding ok_or
ok_or-reads e none f = refl
ok_or-reads e (some a) f = refl

fail_if-reads :
    (b : Bool) (e : ErrNo) (f : FileSystem) → (fail_if b e f).1.inode_table ≡ f.inode_table
unfolding fail_if
fail_if-reads true e f = refl
fail_if-reads false e f = refl

module _ ⦃w : Wasi⦄ where
  install_none : (stream : FileRights) → LeavesTable (Handle.install_stream stream none)
  unfolding Handle.install_stream
  install_none stream = pure-LeavesTable tt

  install_some :
      (stream : FileRights) (fd inode : ℕ)
      → LeavesTable (Handle.install_stream stream (some (fd, inode)))
  unfolding Handle.install_stream
  install_some stream fd inode =
      next (leaves (ok_or-reads inval (w.from_bits stream.rights)))
        (λ rights. install_fd-LeavesTable fd regular_file inode rights rights)

  streams-LeavesTable :
      (streams : List FileRights) → LeavesTable (Handle.install_standard_streams_fd streams)
  unfolding Handle.install_standard_streams_fd
  streams-LeavesTable [] = pure-LeavesTable tt
  streams-LeavesTable (stream ∷ streams) =
      next (leaves (λ f. gets_reads (λ g. Handle.std_stream stream.file_name g.inode_table) f))
        (λ which. next (one which) (λ u. streams-LeavesTable streams))
    where
      one : (which : Option (ℕ × ℕ)) → LeavesTable (Handle.install_stream stream which)
      one none = install_none stream
      one (some (fd, inode)) = install_some stream fd inode

  root-LeavesTable :
      (rights : ℕ) → LeavesTable (Handle.install_prestat_dirs 0 ((root_dir ∷ [], rights) ∷ []))
  unfolding Handle.install_prestat_dirs Handle.prestat_inode strip_root_slash
      Handle.lock_inode_table Handle.install_fd Handle.put_fd ◌>>=◌
  root-LeavesTable rights = leaves (λ f. refl)

  pub super-LeavesTable : LeavesTable (Handle.install_prestat Public.all_rights_table)
  unfolding Handle.install_prestat Handle.without_std Handle.is_std_path
  super-LeavesTable = next (streams-LeavesTable _) (λ u.
      next (root-LeavesTable w.all_rights)
        (λ v. next (leaves (fail_if-reads _ inval)) (λ x. modify-LeavesTable _ (λ f. refl))))
