-- ===== src/Vfs/Soundness/Handles.antt =====
-- The handles that are spawned are sound, where the table has its root and its streams.
use veracruz.Base.{
  ◌%◌, ◌^◌, ℕ, suc, ◌+◌, ◌^◌, ◌≡◌, refl, subst, sym, Option, none, some, List, [], ◌∷◌, Map, length,
  leb, FilePath, strip_root_slash, string_eq, modify, String, Bool-cases, inl, inr,
}
use veracruz.Wasi.{Wasi, FileType, inval, unknown, regular_file}
use veracruz.Hoare.{weaken, with_stable, Triple-pure, Triple-bind, Triple-gets, Triple-ok_or}
use veracruz.Policy.Principal.{FileRights}
use veracruz.Vfs.Table.{InodeTable, root_directory_inode}
use veracruz.Vfs.Handle
use veracruz.Vfs.Handle.{
  FileSystem, FsExec, FdEntry, bare, lock_inode_table, first_fd, new_fd_entry,
}
use veracruz.Vfs.Integrity.Inodes.{TableTriple}
use veracruz.Vfs.Integrity.Paths.{LeadsTo}
use veracruz.Vfs.Integrity.{table_frame, Present, Grows}
use veracruz.Vfs.Integrity.Contents.{Anything}
use veracruz.Vfs.Integrity.Reached.{add_all_dir-Triple}
use veracruz.Vfs.Soundness.{
  FsKeeps, FsTriple, IsInode, fs_frame, forget, lock-Triple, put_fd-Triple, keeps_both,
}
use veracruz.Vfs.Soundness.Files.{pure-Keeps, fail_if-Keeps}

-- The root directory and the standard streams are inodes of the table.
pub record IsFurnished (t : InodeTable) : Type 0 where
  pub root : Present root_directory_inode t
  pub in_stream : Present t.stdin t
  pub out_stream : Present t.stdout t
  pub err_stream : Present t.stderr t

pub Grows-IsFurnished : (t u : InodeTable) → Grows t u → IsFurnished t → IsFurnished u
Grows-IsFurnished t u g h = record {
  root = g.present root_directory_inode h.root;
  in_stream = subst (λ i. Present i u) (sym g.streams.0) (g.present t.stdin h.in_stream);
  out_stream = subst (λ i. Present i u) (sym g.streams.1) (g.present t.stdout h.out_stream);
  err_stream = subst (λ i. Present i u) (sym g.streams.2) (g.present t.stderr h.err_stream);
}

abbrev pub FsFurnished : FileSystem → Type 0
FsFurnished f = IsFurnished f.inode_table

-- An action on a furnished table, which stays so.
abbrev pub Furnishes : {A : Type 0} → FsExec A → Type 0
Furnishes m = FsTriple FsFurnished m (λ a. FsFurnished)

pub stays : {A : Type 0} {m : FsExec A} → FsTriple FsFurnished m Anything → Furnishes m
stays h =
    weaken fs_frame FsFurnished (λ a. FsFurnished) (λ f p. (p, p)) (λ a f g q. q.1)
      (with_stable fs_frame FsFurnished
        (λ f g grows. Grows-IsFurnished f.inode_table g.inode_table grows) h)

-- With the table furnished beside what is known.
pub beside :
    {A : Type 0} {m : FsExec A} {pre : FileSystem → Type 0} {post : A → FileSystem → Type 0}
    → FsTriple pre m post
    → FsTriple (λ f. pre f × FsFurnished f) m (λ a f. post a f × FsFurnished f)
beside h =
    with_stable fs_frame FsFurnished
      (λ f g grows. Grows-IsFurnished f.inode_table g.inode_table grows) h

pub keeping : {A : Type 0} {m : FsExec A} → FsKeeps m → Furnishes m
keeping h = stays (forget h)

install_fd-Triple :
    (fd : ℕ) (file_type : FileType) (inode base inheriting : ℕ)
    → FsTriple (IsInode inode) (Handle.install_fd fd file_type inode base inheriting) Anything
unfolding Handle.install_fd new_fd_entry
install_fd-Triple fd file_type inode base inheriting =
    put_fd-Triple fd (new_fd_entry file_type inode base inheriting)

-- The inode of a stream that is known.
abbrev StreamIn : Option (ℕ × ℕ) → FileSystem → Type 0
StreamIn none f = Unit
StreamIn (some (fd, inode)) f = IsInode inode f

std_stream-Present :
    (name : String) (f : FileSystem)
    → FsFurnished f
    → StreamIn (Handle.std_stream name f.inode_table) f
unfolding Handle.std_stream
std_stream-Present name f h = elim (Bool-cases (string_eq.beq name "stdin")) [
  | inl a ↦ rw a h.in_stream
  | inr a ↦ rw a (elim (Bool-cases (string_eq.beq name "stdout")) [
    | inl b ↦ rw b h.out_stream
    | inr b ↦ rw b (elim (Bool-cases (string_eq.beq name "stderr")) [
      | inl c ↦ rw c h.err_stream
      | inr c ↦ rw c tt
    ])
  ])
]

module _ ⦃w : Wasi⦄ where
  install_stream-Triple :
      (stream : FileRights) (which : Option (ℕ × ℕ))
      → FsTriple (StreamIn which) (Handle.install_stream stream which) Anything
  unfolding Handle.install_stream
  install_stream-Triple stream none = forget (pure-Keeps tt)
  install_stream-Triple stream (some (fd, inode)) =
      Triple-bind fs_frame (λ r f. IsInode inode f)
        (weaken fs_frame (IsInode inode) (λ r f. IsInode inode f) (λ f p. p) (λ a f g q. q.1)
          (Triple-ok_or fs_frame (IsInode inode) inval (w.from_bits stream.rights)))
        (λ rights. install_fd-Triple fd regular_file inode rights rights)

  install_standard_streams_fd-Furnishes :
      (streams : List FileRights) → Furnishes (Handle.install_standard_streams_fd streams)
  unfolding Handle.install_standard_streams_fd
  install_standard_streams_fd-Furnishes [] = keeping (pure-Keeps tt)
  install_standard_streams_fd-Furnishes (stream ∷ streams) =
      Triple-bind fs_frame (λ which f. StreamIn which f × FsFurnished f)
        (weaken fs_frame FsFurnished (λ which f. StreamIn which f × FsFurnished f) (λ f p. p)
          (λ which f g q.
            (subst (λ o. StreamIn o f) (sym q.0) (std_stream-Present stream.file_name f q.1), q.1))
          (Triple-gets fs_frame FsFurnished
            (λ f. Handle.std_stream stream.file_name f.inode_table)))
        (λ which.
          Triple-bind fs_frame (λ u. FsFurnished)
            (weaken fs_frame (λ f. StreamIn which f × FsFurnished f) (λ u. FsFurnished) (λ f p. p)
              (λ a f g q. q.1) (beside (install_stream-Triple stream which)))
            (λ u. install_standard_streams_fd-Furnishes streams))

prestat_inode-Triple :
    (path : FilePath) → TableTriple IsFurnished (Handle.prestat_inode path) LeadsTo
unfolding Handle.prestat_inode
prestat_inode-Triple [] =
    weaken table_frame IsFurnished LeadsTo (λ t p. p.root)
      (λ k t g q. subst (λ x. Present x t) (sym q.0) q.1)
      (Triple-pure table_frame (LeadsTo root_directory_inode) root_directory_inode)
prestat_inode-Triple (c ∷ path) =
    weaken table_frame IsFurnished LeadsTo (λ t p. p.root) (λ k t g q. q)
      (add_all_dir-Triple root_directory_inode (c ∷ path))

abbrev IsFurnishedInode : ℕ → FileSystem → Type 0
IsFurnishedInode i f = IsInode i f × FsFurnished f

opened-Furnishes :
    (path : FilePath)
    → FsTriple FsFurnished (lock_inode_table (Handle.prestat_inode path)) IsFurnishedInode
opened-Furnishes path =
    weaken fs_frame FsFurnished IsFurnishedInode (λ f p. (p, p)) (λ i f g q. q)
      (beside (lock-Triple (Handle.prestat_inode path) (prestat_inode-Triple path)))

modify_handle-Keeps :
    (h : FileSystem → FileSystem)
    → ((f : FileSystem) → ((h f).fd_table ≡ f.fd_table) × ((h f).inode_table ≡ f.inode_table))
    → FsKeeps (modify h)
unfolding modify
modify_handle-Keeps h same = keeps_both (modify h) same

install_prestat_dirs-Furnishes :
    (index : ℕ) (m : Map FilePath ℕ) → Furnishes (Handle.install_prestat_dirs index m)
unfolding Handle.install_prestat_dirs
install_prestat_dirs-Furnishes index [] = keeping (pure-Keeps tt)
install_prestat_dirs-Furnishes index ((path, rights) ∷ m) =
    Triple-bind fs_frame (λ u. FsFurnished) (keeping (fail_if-Keeps (leb (2 ^ 32) index) inval))
      (λ u.
        Triple-bind fs_frame IsFurnishedInode (opened-Furnishes (strip_root_slash path)) (λ inode.
          Triple-bind fs_frame (λ v. FsFurnished)
            (weaken fs_frame (IsFurnishedInode inode) (λ v. FsFurnished) (λ f p. p) (λ a f g q. q.1)
              (beside
                (install_fd-Triple ((index + first_fd) % 2 ^ 32) unknown inode rights rights)))
            (λ v.
              Triple-bind fs_frame (λ x. FsFurnished)
                (keeping (modify_handle-Keeps _ (λ f. (refl, refl))))
                (λ x. install_prestat_dirs-Furnishes (suc index) m))))

module _ ⦃w : Wasi⦄ where
  pub install_prestat-Furnishes :
      (rights_table : Map FilePath ℕ) → Furnishes (Handle.install_prestat rights_table)
  unfolding Handle.install_prestat
  install_prestat-Furnishes rights_table =
      Triple-bind fs_frame (λ u. FsFurnished)
        (install_standard_streams_fd-Furnishes (Handle.std_streams_table rights_table))
        (λ u.
          Triple-bind fs_frame (λ v. FsFurnished)
            (install_prestat_dirs-Furnishes 0 (Handle.without_std rights_table))
            (λ v.
              Triple-bind fs_frame (λ x. FsFurnished)
                (keeping (fail_if-Keeps (leb (2 ^ 32) (length rights_table)) inval))
                (λ x. keeping (modify_handle-Keeps _ (λ f. (refl, refl))))))
