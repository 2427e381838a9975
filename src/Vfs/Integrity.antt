-- ===== src/Vfs/Integrity.antt =====
-- Referential integrity of the inode table: what each operation keeps of it, and the order in which
-- tables grow. The proofs for the operations are in the modules below.
pub mod Contents
pub mod Inodes
pub mod Untouched
pub mod Additions
pub mod Paths
pub mod Reached
use veracruz.Base.{
  ℕ, ◌^◌, ◌≤◌, ◌<◌, ◌≡◌, refl, sym, subst, ◌∙◌, ◌⊎◌, inl, inr, true, some, Map, lookup, insert,
  contains_key, lookup-insert, length, nat_eq, path_eq, ok, arith, FilePath,
}
use veracruz.Hoare.{Frame}
use veracruz.Vfs.Impl
use veracruz.Vfs.Impl.{Bytes, directory}
use veracruz.Vfs.Entry
use veracruz.Vfs.Entry.{InodeEntry}
use veracruz.Vfs.Table
use veracruz.Vfs.Table.{InodeTable}

abbrev pub Present : ℕ → InodeTable → Type 0
Present i t = contains_key i t.table ≡ true

-- The status holds the number of bytes, which is at most `isize::MAX`.
abbrev pub SizeFits : InodeEntry → Type 0
SizeFits e =
    (b : Bytes)
    → Impl.contents e.impl ≡ ok b
    → (e.file_stat.file_size ≡ length b) × (length b < 2 ^ 63)

-- The names of a directory lead to inodes of the table, or to the one that is about to be made.
abbrev pub LinksInto : (ℕ → Type 0) → InodeEntry → Type 0
LinksInto Target e =
    (d : Map FilePath ℕ)
    → e.impl ≡ directory d
    → (p : FilePath) (j : ℕ) → lookup p d ≡ some j
    → Target j

abbrev pub Awaited : ℕ → InodeTable → ℕ → Type 0
Awaited n t j = (j ≡ n) ⊎ Present j t

-- All but the inode `n`, which is about to be made, is in order.
pub record IsReadyFor (n : ℕ) (t : InodeTable) : Type 0 where
  pub below : (i : ℕ) (e : InodeEntry) → lookup i t.table ≡ some e → i < t.next_inode_candidate
  pub sizes : (i : ℕ) (e : InodeEntry) → lookup i t.table ≡ some e → SizeFits e
  pub links : (i : ℕ) (e : InodeEntry) → lookup i t.table ≡ some e → LinksInto (Awaited n t) e

pub record IsWellFormed (t : InodeTable) : Type 0 where
  pub below : (i : ℕ) (e : InodeEntry) → lookup i t.table ≡ some e → i < t.next_inode_candidate
  pub sizes : (i : ℕ) (e : InodeEntry) → lookup i t.table ≡ some e → SizeFits e
  pub links : (i : ℕ) (e : InodeEntry) → lookup i t.table ≡ some e → LinksInto (λ j. Present j t) e

pub IsWellFormed-IsReadyFor : (n : ℕ) (t : InodeTable) → IsWellFormed t → IsReadyFor n t
IsWellFormed-IsReadyFor n t g = record {
  below = g.below;
  sizes = g.sizes;
  links = λ i e at d is p j found. inr (g.links i e at d is p j found);
}

-- No inode goes away, or turns from a file into a directory or back; the rights and the streams stay.
pub record Grows (t u : InodeTable) : Type 0 where
  pub present : (i : ℕ) → Present i t → Present i u
  pub kinds : (i : ℕ) → Present i t → Table.is_dir i u ≡ Table.is_dir i t
  pub next : t.next_inode_candidate ≤ u.next_inode_candidate
  pub rights : u.rights_table ≡ t.rights_table
  pub streams : (u.stdin ≡ t.stdin) × (u.stdout ≡ t.stdout) × (u.stderr ≡ t.stderr)

pub Grows-refl : (t : InodeTable) → Grows t t
Grows-refl t = record {
  present = λ i h. h;
  kinds = λ i h. refl;
  next = omega arith;
  rights = refl;
  streams = (refl, refl, refl);
}

pub Grows-trans : (t u v : InodeTable) → Grows t u → Grows u v → Grows t v
Grows-trans t u v a b = record {
  present = λ i h. b.present i (a.present i h);
  kinds = λ i h. b.kinds i (a.present i h) ∙ a.kinds i h;
  next = omega (arith, a.next, b.next);
  rights = b.rights ∙ a.rights;
  streams = (b.streams.0 ∙ a.streams.0, b.streams.1 ∙ a.streams.1, b.streams.2 ∙ a.streams.2);
}

abbrev pub table_frame : Frame InodeTable
table_frame = record {
  Good = IsWellFormed;
  Rel = Grows;
  reflexive = Grows-refl;
  transitive = Grows-trans;
}

abbrev pub write : ℕ → InodeEntry → InodeTable → InodeTable
write i e t = record t { table = insert i e t.table }

pub Present-lookup :
    (i : ℕ) (e : InodeEntry) (t : InodeTable) → lookup i t.table ≡ some e → Present i t
unfolding contains_key
Present-lookup i e t h = ground arith

pub Present-write_self : (i : ℕ) (e : InodeEntry) (t : InodeTable) → Present i (write i e t)
unfolding contains_key
Present-write_self i e t = ground (arith, lookup-insert i i e t.table)

Present-write : (i j : ℕ) (e : InodeEntry) (t : InodeTable) → Present j t → Present j (write i e t)
unfolding contains_key
Present-write i j e t h = ground (arith, lookup-insert i j e t.table)

-- A new inode, or one that keeps its kind, is written.
module _ (n : ℕ) (e : InodeEntry) (t : InodeTable) where
  -- What is found after the write: the entry that was written, or one that was there.
  pub write_cases :
      (i : ℕ) (e' : InodeEntry)
      → lookup i (write n e t).table ≡ some e'
      → (e ≡ e') ⊎ (lookup i t.table ≡ some e')
  write_cases i e' h = ground (arith, lookup-insert n i e t.table)

  pub write-Grows : (Present n t → Entry.is_dir e ≡ Table.is_dir n t) → Grows t (write n e t)
  unfolding Table.is_dir contains_key
  write-Grows kind = record {
    present = λ i h. Present-write n i e t h;
    kinds = λ i h. ground (arith, lookup-insert n i e t.table, kind);
    next = omega arith;
    rights = refl;
    streams = (refl, refl, refl);
  }

  Awaited-write : (j : ℕ) → Awaited n t j → Present j (write n e t)
  Awaited-write j (inl same) =
      subst (λ k. Present k (write n e t)) (sym same) (Present-write_self n e t)
  Awaited-write j (inr old) = Present-write n j e t old

  below-write :
      IsReadyFor n t
      → n < t.next_inode_candidate
      → (i : ℕ) (e' : InodeEntry) → lookup i (write n e t).table ≡ some e'
      → i < t.next_inode_candidate
  below-write ready fresh i e' at = ground (arith, lookup-insert n i e t.table, ready.below i e')

  pub write-IsWellFormed :
      IsReadyFor n t
      → n < t.next_inode_candidate
      → SizeFits e
      → LinksInto (Awaited n t) e
      → IsWellFormed (write n e t)
  write-IsWellFormed ready fresh size link = record {
    below = below-write ready fresh;
    sizes = λ i e' at. elim (write_cases i e' at) [
      | inl new ↦ subst SizeFits new size
      | inr old ↦ ready.sizes i e' old
    ];
    links = λ i e' at d is p j found. elim (write_cases i e' at) [
      | inl new ↦ Awaited-write j (subst (LinksInto (Awaited n t)) new link d is p j found)
      | inr old ↦ Awaited-write j (ready.links i e' old d is p j found)
    ];
  }

  Awaited-keep : (m j : ℕ) → Awaited m t j → Awaited m (write n e t) j
  Awaited-keep m j (inl same) = inl same
  Awaited-keep m j (inr old) = inr (Present-write n j e t old)

  -- An entry that leads to the inode to come is written.
  pub write-IsReadyFor :
      (m : ℕ)
      → IsWellFormed t
      → n < t.next_inode_candidate
      → SizeFits e
      → LinksInto (Awaited m t) e
      → IsReadyFor m (write n e t)
  write-IsReadyFor m good old size link = record {
    below = below-write (IsWellFormed-IsReadyFor n t good) old;
    sizes = λ i e' at. elim (write_cases i e' at) [
      | inl new ↦ subst SizeFits new size
      | inr old ↦ good.sizes i e' old
    ];
    links = λ i e' at d is p j found. elim (write_cases i e' at) [
      | inl new ↦ Awaited-keep m j (subst (LinksInto (Awaited m t)) new link d is p j found)
      | inr old ↦ Awaited-keep m j (inr (good.links i e' old d is p j found))
    ];
  }
