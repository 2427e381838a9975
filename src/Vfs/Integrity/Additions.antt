-- ===== src/Vfs/Integrity/Additions.antt =====
-- The operations of `InodeTable` that add directories and files keep it well-formed.
use veracruz.Base.{
  parent_dir, cur_dir, follow, ap, ℕ, ◌≡◌, refl, sym, subst, ◌∙◌, ◌⊎◌, inl, inr, false, none, some,
  Map, lookup, insert, contains_key, lookup-insert, nat_eq, path_eq, FilePath, ok, err, abort,
  ◌>>=◌, pure, Bool-cases, Option-cases, arith, [], ◌∷◌, ◌==◌,
}
use veracruz.Wasi.{FileType, FileSystemResult, not_dir, FileStat}
use veracruz.Hoare.{Outcome, outcome}
use veracruz.Vfs.Impl
use veracruz.Vfs.Impl.{Bytes, InodeImpl, directory, file, native_module}
use veracruz.Vfs.Entry
use veracruz.Vfs.Entry.{InodeEntry}
use veracruz.Vfs.Table
use veracruz.Vfs.Table.{InodeTable, TableExec}
use veracruz.Vfs.Integrity.{
  Present, SizeFits, LinksInto, Awaited, IsReadyFor, IsWellFormed, IsWellFormed-IsReadyFor, Grows,
  Grows-refl, Grows-trans, table_frame, write, Present-lookup, Present-write_self, write-Grows,
  write-IsWellFormed, write-IsReadyFor,
}
use veracruz.Vfs.Integrity.Contents.{SameKind-refl}
use veracruz.Vfs.Integrity.Inodes.{
  TableTriple, IsFresh, IsThere, at_inode-some, at_inode-none, kept_links,
}

pub insert_entry-Triple :
    (n : ℕ) (e : InodeEntry)
    → SizeFits e
    → TableTriple
        (λ t. IsFresh n t × LinksInto (Awaited n t) e)
        (Table.insert_entry n e)
        (IsThere n)
unfolding Table.insert_entry
insert_entry-Triple n e size = record {
  run = λ t g p. (
    write-IsWellFormed n e t (IsWellFormed-IsReadyFor n t g) p.0.1 size p.1,
    write-Grows n e t (λ h. cc (h, p.0.0)),
    Present-write_self n e t,
  );
}

insert_path_cases :
    (path : FilePath) (n : ℕ) (st : FileStat) (i : InodeImpl)
    → let e : InodeEntry = record { file_stat = st; impl = i } in
      (Entry.insert_path path n e ≡ (err not_dir, e))
      ⊎ ((d : Map FilePath ℕ) × (i ≡ directory d)
          × (Entry.insert_path path n e ≡ (ok tt, record e { impl = directory (insert path n d) })))
unfolding Entry.insert_path
insert_path_cases path n st (directory d) = inr (d, refl, refl)
insert_path_cases path n st (file b) = inl refl
insert_path_cases path n st (native_module s b) = inl refl

abbrev dir_entry : FileStat → Map FilePath ℕ → InodeEntry
dir_entry st d = record { file_stat = st; impl = directory d }

dir_entry-SizeFits : (st : FileStat) (d : Map FilePath ℕ) → SizeFits (dir_entry st d)
unfolding Impl.contents
dir_entry-SizeFits st d b h = cc

dir_entry-LinksInto :
    (T : ℕ → Type 0) (st : FileStat) (d : Map FilePath ℕ)
    → ((p : FilePath) (j : ℕ) → lookup p d ≡ some j → T j)
    → LinksInto T (dir_entry st d)
dir_entry-LinksInto T st d h d' is p j found = h p j (cc)

-- An inode that is a directory in the table.
dir_entry-kind :
    (i : ℕ) (e : InodeEntry) (t : InodeTable) (st : FileStat) (d d' : Map FilePath ℕ)
    → lookup i t.table ≡ some e
    → e.impl ≡ directory d
    → Entry.is_dir (dir_entry st d') ≡ Table.is_dir i t
unfolding Entry.is_dir Table.is_dir
dir_entry-kind i e t st d d' at is = ground arith

-- The outcome of a link from `parent` to the inode `n`: all is in order but for `n`, or an error.
abbrev Linked : ℕ → ℕ → FileSystemResult Unit × InodeTable → Type 0
Linked parent n (ok u, t) = IsReadyFor n t × Awaited n t parent × IsFresh n t
Linked parent n (err e, t) = IsWellFormed t
Linked parent n (abort, t) = IsWellFormed t

contains_key-write_ne :
    (p n : ℕ) (e : InodeEntry) (t : InodeTable)
    → Present p t
    → contains_key n t.table ≡ false
    → contains_key n (write p e t).table ≡ false
unfolding contains_key
contains_key-write_ne p n e t there free = ground (arith, lookup-insert p n e t.table)

module _ (parent : ℕ) (path : FilePath) (n : ℕ) (t : InodeTable) (g : IsWellFormed t)
    (fresh : IsFresh n t) where
  linked_into :
      (e : InodeEntry) (d : Map FilePath ℕ)
      → lookup parent t.table ≡ some e
      → e.impl ≡ directory d
      → (p : FilePath) (j : ℕ) → lookup p (insert path n d) ≡ some j
      → Awaited n t j
  linked_into e d at is p j found =
      ground (arith, lookup-insert path p n d, g.links parent e at d is p j)

  linked_directory :
      (e : InodeEntry) (d : Map FilePath ℕ)
      → lookup parent t.table ≡ some e
      → e.impl ≡ directory d
      → let u = write parent (record e { impl = directory (insert path n d) }) t in
        Grows t u × (IsReadyFor n u × Awaited n u parent × IsFresh n u)
  linked_directory e d at is =
      let e' : InodeEntry = record e { impl = directory (insert path n d) } in
      (
        write-Grows parent e' t
            (λ _. dir_entry-kind parent e t e.file_stat d (insert path n d) at is),
        (
          write-IsReadyFor parent e' t n g (g.below parent e at)
              (dir_entry-SizeFits e.file_stat (insert path n d))
              (dir_entry-LinksInto (Awaited n t) e.file_stat (insert path n d)
                (linked_into e d at is)),
          inr (Present-write_self parent e' t),
          (contains_key-write_ne parent n e' t (Present-lookup parent e t at) fresh.0, fresh.1),
        ),
      )

  link_at :
      (e : InodeEntry)
      → lookup parent t.table ≡ some e
      → let y = Table.at_inode parent (Entry.insert_path path n) t in
        Grows t y.1 × Linked parent n y
  link_at e at =
      let same = at_inode-some parent (Entry.insert_path path n) e t at in
      let put = λ (z : FileSystemResult Unit × InodeEntry). Table.put_back parent z t in
      elim (insert_path_cases path n e.file_stat e.impl) [
        | inl x ↦
            let (good, grows) =
              kept_links parent e e t g at (g.sizes parent e at) (SameKind-refl e) in
            subst (λ y. Grows t y.1 × Linked parent n y) (sym (same ∙ ap put x)) (grows, good)
        | inr (d, is, x) ↦
            subst (λ y. Grows t y.1 × Linked parent n y) (sym (same ∙ ap put x))
              (linked_directory e d at is)
      ]

  link_missing :
      lookup parent t.table ≡ none
      → let y = Table.at_inode parent (Entry.insert_path path n) t in
        Grows t y.1 × Linked parent n y
  link_missing h =
      subst (λ y. Grows t y.1 × Linked parent n y)
        (sym (at_inode-none parent (Entry.insert_path path n) t h)) (Grows-refl t, g)

  link_lem : let y = Table.link parent path n t in Grows t y.1 × Linked parent n y
  unfolding Table.link pure
  link_lem = elim (Bool-cases (parent == n)) [
    | inl same ↦ rw same (Grows-refl t, (IsWellFormed-IsReadyFor n t g, inl (ground arith), fresh))
    | inr other ↦ rw other (elim (Option-cases (lookup parent t.table)) [
      | inl h ↦ link_missing h
      | inr (e, at) ↦ link_at e at
    ])
  ]

new_dir_target :
    (n parent : ℕ) (t : InodeTable)
    → Awaited n t parent
    → (p : FilePath) (j : ℕ)
    → lookup p (insert (parent_dir ∷ []) parent (insert (cur_dir ∷ []) n [])) ≡ some j
    → Awaited n t j
unfolding lookup
new_dir_target n parent t h p j found = ground (
  arith,
  lookup-insert (parent_dir ∷ []) p parent (insert (cur_dir ∷ []) n []),
  lookup-insert (cur_dir ∷ []) p n [],
)

new_dir-LinksInto :
    (n parent : ℕ) (t : InodeTable)
    → Awaited n t parent
    → LinksInto (Awaited n t) (Table.new_dir_entry n parent)
unfolding Table.new_dir_entry Impl.new_directory
new_dir-LinksInto n parent t h =
    dir_entry-LinksInto (Awaited n t) (Table.new_stat n FileType.directory 0)
      (insert (parent_dir ∷ []) parent (insert (cur_dir ∷ []) n [])) (new_dir_target n parent t h)

new_dir-SizeFits : (n parent : ℕ) → SizeFits (Table.new_dir_entry n parent)
unfolding Table.new_dir_entry Impl.new_directory Impl.contents
new_dir-SizeFits n parent b h = cc

add_dir_after :
    (parent n : ℕ) (t : InodeTable) (y : FileSystemResult Unit × InodeTable)
    → Grows t y.1
    → Linked parent n y
    → Outcome table_frame t
        (IsThere n)
        (follow y (λ _. Table.insert_entry n (Table.new_dir_entry n parent)))
unfolding Table.insert_entry
add_dir_after parent n t (ok v, u) grows (ready, link, fresh) =
    let e = Table.new_dir_entry n parent in
    (
      write-IsWellFormed n e u ready fresh.1 (new_dir-SizeFits n parent)
          (new_dir-LinksInto n parent u link),
      Grows-trans t u (write n e u) grows (write-Grows n e u (λ h. cc (h, fresh.0))),
      Present-write_self n e u,
    )
add_dir_after parent n t (err e, u) grows good = (good, grows, tt)
add_dir_after parent n t (abort, u) grows good = (good, grows, tt)

pub add_dir-Triple :
    (parent : ℕ) (path : FilePath) (n : ℕ)
    → TableTriple (IsFresh n) (Table.add_dir parent path n) (IsThere n)
unfolding Table.add_dir ◌>>=◌
add_dir-Triple parent path n = record {
  run = λ t g fresh.
      let (grows, linked) = link_lem parent path n t g fresh in
      add_dir_after parent n t (Table.link parent path n t) grows linked;
}

-- A link to an inode that is there.
module _ (parent : ℕ) (path : FilePath) (n : ℕ) where
  abbrev LinksThere : InodeTable → FileSystemResult Unit × InodeTable → Type 0
  LinksThere t = Outcome table_frame t (IsThere n)

  link_there_directory :
      (t : InodeTable) (e : InodeEntry) (d : Map FilePath ℕ)
      → IsWellFormed t
      → Present n t
      → lookup parent t.table ≡ some e
      → e.impl ≡ directory d
      → LinksThere t (ok tt, write parent (dir_entry e.file_stat (insert path n d)) t)
  link_there_directory t e d g there at is =
      let e' : InodeEntry = dir_entry e.file_stat (insert path n d) in
      let grows =
        write-Grows parent e' t
          (λ _. dir_entry-kind parent e t e.file_stat d (insert path n d) at is) in
      (
        write-IsWellFormed parent e' t (IsWellFormed-IsReadyFor parent t g) (g.below parent e at)
            (dir_entry-SizeFits e.file_stat (insert path n d))
            (dir_entry-LinksInto (Awaited parent t) e.file_stat (insert path n d) (λ p j found.
              inr (ground (arith, lookup-insert path p n d, g.links parent e at d is p j, there)))),
        grows,
        grows.present n there,
      )

  link_there_at :
      (t : InodeTable) (e : InodeEntry)
      → IsWellFormed t
      → Present n t
      → lookup parent t.table ≡ some e
      → LinksThere t (Table.at_inode parent (Entry.insert_path path n) t)
  link_there_at t e g there at =
      let same = at_inode-some parent (Entry.insert_path path n) e t at in
      let put = λ (z : FileSystemResult Unit × InodeEntry). Table.put_back parent z t in
      elim (insert_path_cases path n e.file_stat e.impl) [
        | inl x ↦
            let (good, grows) =
              kept_links parent e e t g at (g.sizes parent e at) (SameKind-refl e) in
            outcome table_frame t (IsThere n) (same ∙ ap put x) (good, grows, tt)
        | inr (d, is, x) ↦
            outcome table_frame t (IsThere n) (same ∙ ap put x)
              (link_there_directory t e d g there at is)
      ]

  pub link-Triple : TableTriple (IsThere n tt) (Table.link parent path n) (IsThere n)
  unfolding Table.link pure
  link-Triple = record {
    run = λ t g there. elim (Bool-cases (parent == n)) [
      | inl same ↦ rw same (g, Grows-refl t, there)
      | inr other ↦ rw other (elim (Option-cases (lookup parent t.table)) [
        | inl h ↦
            outcome table_frame t (IsThere n) (at_inode-none parent (Entry.insert_path path n) t h)
              (g, Grows-refl t, tt)
        | inr (e, at) ↦ link_there_at t e g there at
      ])
    ];
  }
