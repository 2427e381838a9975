-- ===== src/Vfs/Integrity/Inodes.antt =====
-- The operations of `InodeTable` keep it well-formed and let it grow only.
use veracruz.Base.{
  ℕ, ◌+◌, ◌<◌, ◌≡◌, refl, sym, ◌∙◌, ◌⊎◌, inl, inr, false, none, some, lookup, contains_key, nat_eq,
  path_eq, ok, err, Exec, Option-cases, arith,
}
use veracruz.Wasi.{ErrNo, no_ent, n_file}
use veracruz.Hoare.{outcome, OnOk_const, Triple, Always}
use veracruz.Vfs.Entry
use veracruz.Vfs.Entry.{InodeEntry}
use veracruz.Vfs.Table
use veracruz.Vfs.Table.{InodeTable, TableExec}
use veracruz.Vfs.Integrity.{
  Present, SizeFits, IsWellFormed, IsWellFormed-IsReadyFor, Grows, Grows-refl, table_frame, write,
  Present-write_self, write-Grows, write-IsWellFormed,
}
use veracruz.Vfs.Integrity.Contents.{IsContentStep, SameKind}

abbrev pub TableTriple :
    {A : Type 0} → (InodeTable → Type 0) → TableExec A → (A → InodeTable → Type 0) → Type 0
TableTriple pre m post = Triple table_frame pre m post

-- Postconditions: an entry is that of the inode; the inode is there.
abbrev pub IsEntryOf : ℕ → InodeEntry → InodeTable → Type 0
IsEntryOf i e t = lookup i t.table ≡ some e

abbrev pub IsThere : {A : Type 0} → ℕ → A → InodeTable → Type 0
IsThere i a t = Present i t

get-some :
    (i : ℕ) (e : InodeEntry) (t : InodeTable)
    → lookup i t.table ≡ some e
    → Table.get i t ≡ (ok e, t)
unfolding Table.get
get-some i e t h = ground arith

get-none : (i : ℕ) (t : InodeTable) → lookup i t.table ≡ none → Table.get i t ≡ (err no_ent, t)
unfolding Table.get
get-none i t h = ground arith

pub get-Triple : (i : ℕ) → TableTriple Always (Table.get i) (IsEntryOf i)
get-Triple i = record {
  run = λ t g _. elim (Option-cases (lookup i t.table)) [
    | inl h ↦ outcome table_frame t (IsEntryOf i) (get-none i t h) (g, Grows-refl t, tt)
    | inr (e, h) ↦ outcome table_frame t (IsEntryOf i) (get-some i e t h) (g, Grows-refl t, h)
  ];
}

pub is_dir_at :
    (i : ℕ) (e : InodeEntry) (t : InodeTable)
    → lookup i t.table ≡ some e
    → Table.is_dir i t ≡ Entry.is_dir e
unfolding Table.is_dir
is_dir_at i e t h = ground arith

-- What a directory leads to is kept by a method that leaves directories alone.
pub kept_links :
    (i : ℕ) (e f : InodeEntry) (t : InodeTable)
    → IsWellFormed t
    → lookup i t.table ≡ some e
    → SizeFits f
    → SameKind e f
    → IsWellFormed (write i f t) × Grows t (write i f t)
kept_links i e f t g at size k = (
  write-IsWellFormed i f t (IsWellFormed-IsReadyFor i t g) (g.below i e at) size
      (λ d is p j found. inr (g.links i e at d (k.same_dir d is) p j found)),
  write-Grows i f t (λ _. k.kind ∙ sym (is_dir_at i e t at)),
)

module _ {A : Type 0} (i : ℕ) (m : Exec ErrNo InodeEntry A) where
  pub at_inode-none :
      (t : InodeTable) → lookup i t.table ≡ none → Table.at_inode i m t ≡ (err no_ent, t)
  unfolding Table.at_inode
  at_inode-none t h = ground arith

  pub at_inode-some :
      (e : InodeEntry) (t : InodeTable)
      → lookup i t.table ≡ some e
      → Table.at_inode i m t ≡ ((m e).0, write i (m e).1 t)
  unfolding Table.at_inode
  at_inode-some e t h = ground arith

  pub at_inode-Triple : IsContentStep m → TableTriple Always (Table.at_inode i m) (IsThere i)
  at_inode-Triple step = record {
    run = λ t g _. elim (Option-cases (lookup i t.table)) [
      | inl h ↦ outcome table_frame t (IsThere i) (at_inode-none t h) (g, Grows-refl t, tt)
      | inr (e, h) ↦
          let (size, kind, _) = step.run e (g.sizes i e h) tt in
          let (good, grows) = kept_links i e (m e).1 t g h size kind in
          outcome table_frame t (IsThere i) (at_inode-some e t h)
            (good, grows, OnOk_const (m e).0 (Present-write_self i (m e).1 t))
    ];
  }

abbrev bump : InodeTable → InodeTable
bump t = record t { next_inode_candidate = t.next_inode_candidate + 1 }

bump-IsWellFormed : (t : InodeTable) → IsWellFormed t → IsWellFormed (bump t)
bump-IsWellFormed t g = record {
  below = λ i e at. omega (arith, g.below i e at);
  sizes = g.sizes;
  links = g.links;
}

bump-Grows : (t : InodeTable) → Grows t (bump t)
unfolding Table.is_dir
bump-Grows t = record {
  present = λ i h. h;
  kinds = λ i h. refl;
  next = omega arith;
  rights = refl;
  streams = (refl, refl, refl);
}

-- A new inode is not in the table, and is below all that come later.
pub new_inode_cases :
    (t : InodeTable)
    → (Table.new_inode t ≡ (err n_file, t))
      ⊎ ((Table.new_inode t ≡ (ok t.next_inode_candidate, bump t))
          × (contains_key t.next_inode_candidate t.table ≡ false))
unfolding Table.new_inode
new_inode_cases t = ground arith

abbrev pub IsFresh : ℕ → InodeTable → Type 0
IsFresh n t = (contains_key n t.table ≡ false) × (n < t.next_inode_candidate)

pub new_inode-Triple : TableTriple Always Table.new_inode IsFresh
new_inode-Triple = record {
  run = λ t g _. elim (new_inode_cases t) [
    | inl e ↦ outcome table_frame t IsFresh e (g, Grows-refl t, tt)
    | inr (e, free) ↦
        outcome table_frame t IsFresh e (bump-IsWellFormed t g, bump-Grows t, (free, omega arith))
  ];
}
