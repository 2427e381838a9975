-- ===== src/Vfs/Integrity/Untouched.antt =====
-- A number that `new_inode` has given out is taken by nobody else: making the directories above a
-- new file adds no inode below the next candidate of the start.
use veracruz.Base.{
  file_name, ℕ, ◌+◌, ◌≤◌, ◌<◌, ◌≡◌, ◌≢◌, refl, sym, ◌∙◌, subst, inl, inr, lookup, contains_key,
  lookup-insert, nat_eq, FilePath, ok, err, abort, Exec, ◌>>=◌, pure, Bool-cases, Option-cases,
  arith, [], ◌∷◌, ◌==◌, follow, normal,
}
use veracruz.Wasi.{no_ent, inval, ErrNo, FileSystemResult}
use veracruz.Hoare.{
  Frame, Triple, Always, OnOk_trivial, weaken, Triple-pure, Triple-fail, Triple-panic, Triple-ok_or,
  Triple-lift, Triple-bind, Triple-attempt,
}
use veracruz.Vfs.Entry
use veracruz.Vfs.Entry.{InodeEntry}
use veracruz.Vfs.Table
use veracruz.Vfs.Table.{InodeTable, TableExec}
use veracruz.Vfs.Integrity.Contents.{Anything}
use veracruz.Vfs.Integrity.Inodes.{at_inode-none, at_inode-some, new_inode_cases}

pub record Untouched (t u : InodeTable) : Type 0 where
  pub next : t.next_inode_candidate ≤ u.next_inode_candidate
  pub same : (i : ℕ) → i < t.next_inode_candidate → contains_key i u.table ≡ contains_key i t.table

pub Untouched-refl : (t : InodeTable) → Untouched t t
Untouched-refl t = record { next = omega arith; same = λ i h. refl }

pub Untouched-trans : (t u v : InodeTable) → Untouched t u → Untouched u v → Untouched t v
Untouched-trans t u v a b = record {
  next = omega (arith, a.next, b.next);
  same = λ i h. b.same i (omega (arith, a.next, h)) ∙ a.same i h;
}

abbrev pub untouched_frame : Frame InodeTable
untouched_frame = record {
  Good = Always;
  Rel = Untouched;
  reflexive = Untouched-refl;
  transitive = Untouched-trans;
}

abbrev pub Leaves : {A : Type 0} → TableExec A → Type 0
Leaves m = Triple untouched_frame Always m Anything

trivial :
    {A : Type 0} {pre : InodeTable → Type 0} {post : A → InodeTable → Type 0} {m : TableExec A}
    → Triple untouched_frame Always m post
    → Triple untouched_frame pre m Anything
trivial {pre = pre} h = weaken untouched_frame pre Anything (λ s p. tt) (λ a s g q. tt) h

read_only : {A : Type 0} (m : TableExec A) → ((t : InodeTable) → (m t).1 ≡ t) → Leaves m
read_only m same = record {
  run = λ t g p. (tt, subst (Untouched t) (sym (same t)) (Untouched-refl t), OnOk_trivial (m t).0);
}

pub get-reads : (i : ℕ) (t : InodeTable) → (Table.get i t).1 ≡ t
unfolding Table.get
get-reads i t = ground arith

pub get-Leaves : (i : ℕ) → Leaves (Table.get i)
get-Leaves i = read_only (Table.get i) (get-reads i)

pub walk-Leaves : (path : FilePath) (i : ℕ) → Leaves (Table.walk path i)
unfolding Table.walk
walk-Leaves [] i = trivial (Triple-pure untouched_frame Always i)
walk-Leaves (c ∷ path) i = Triple-bind untouched_frame Anything (get-Leaves i) (λ entry.
    Triple-bind untouched_frame Anything
      (trivial (Triple-lift untouched_frame Always (Entry.get_inode_by_path (c ∷ []) entry)))
      (λ next. walk-Leaves path next))

pub get_inode_by_inode_path-Leaves :
    (i : ℕ) (path : FilePath) → Leaves (Table.get_inode_by_inode_path i path)
unfolding Table.get_inode_by_inode_path
get_inode_by_inode_path-Leaves i path =
    Triple-bind untouched_frame Anything (walk-Leaves path i) (λ inode.
      Triple-bind untouched_frame Anything (get-Leaves inode)
        (λ e. trivial (Triple-pure untouched_frame Always inode)))

at_inode-keeps :
    (p : ℕ) (m : Exec ErrNo InodeEntry Unit) (t : InodeTable) (i : ℕ)
    → let u = (Table.at_inode p m t).1 in
      (contains_key i u.table ≡ contains_key i t.table)
      × (u.next_inode_candidate ≡ t.next_inode_candidate)
unfolding contains_key
at_inode-keeps p m t i = elim (Option-cases (lookup p t.table)) [
  | inl h ↦ rw (at_inode-none p m t h) (refl, refl)
  | inr (e, h) ↦
      rw (at_inode-some p m e t h) (ground (arith, lookup-insert p i (m e).1 t.table), refl)
]

link-keeps :
    (parent : ℕ) (path : FilePath) (n : ℕ) (t : InodeTable) (i : ℕ)
    → let u = (Table.link parent path n t).1 in
      (contains_key i u.table ≡ contains_key i t.table)
      × (u.next_inode_candidate ≡ t.next_inode_candidate)
unfolding Table.link pure
link-keeps parent path n t i = elim (Bool-cases (parent == n)) [
  | inl same ↦ rw same (refl, refl)
  | inr other ↦ rw other (at_inode-keeps parent (Entry.insert_path path n) t i)
]

add_dir_follow :
    (n : ℕ) (e : InodeEntry) (t : InodeTable) (y : FileSystemResult Unit × InodeTable) (i : ℕ)
    → i ≢ n
    → contains_key i y.1.table ≡ contains_key i t.table
    → contains_key i (follow y (λ _. Table.insert_entry n e)).1.table ≡ contains_key i t.table
unfolding Table.insert_entry contains_key
add_dir_follow n e t (ok v, u) i ne h = ground (arith, lookup-insert n i e u.table)
add_dir_follow n e t (err x, u) i ne h = h
add_dir_follow n e t (abort, u) i ne h = h

insert_entry-next :
    (n : ℕ) (e : InodeEntry) (y : FileSystemResult Unit × InodeTable)
    → (follow y (λ _. Table.insert_entry n e)).1.next_inode_candidate ≡ y.1.next_inode_candidate
unfolding Table.insert_entry
insert_entry-next n e (ok v, u) = refl
insert_entry-next n e (err x, u) = refl
insert_entry-next n e (abort, u) = refl

add_dir-keeps :
    (parent : ℕ) (path : FilePath) (n : ℕ) (t : InodeTable)
    → let u = (Table.add_dir parent path n t).1 in
      ((i : ℕ) → i ≢ n → contains_key i u.table ≡ contains_key i t.table)
      × (u.next_inode_candidate ≡ t.next_inode_candidate)
unfolding Table.add_dir ◌>>=◌
add_dir-keeps parent path n t = (
  λ i ne.
      add_dir_follow n (Table.new_dir_entry n parent) t (Table.link parent path n t) i ne
        (link-keeps parent path n t i).0,
  insert_entry-next n (Table.new_dir_entry n parent) (Table.link parent path n t)
      ∙ (link-keeps parent path n t 0).1,
)

follow-pure-state :
    {A B : Type 0} (y : FileSystemResult A × InodeTable) (b : B) → (follow y (λ _. pure b)).1 ≡ y.1
unfolding pure
follow-pure-state (ok a, t) b = refl
follow-pure-state (err e, t) b = refl
follow-pure-state (abort, t) b = refl

-- The directory that is made takes the next candidate.
added-Untouched :
    (parent : ℕ) (c : FilePath) (t : InodeTable)
    → let n = t.next_inode_candidate in
      Untouched t (Table.add_dir parent c n (record t { next_inode_candidate = n + 1 })).1
added-Untouched parent c t =
    let n = t.next_inode_candidate in
    let (same, next) = add_dir-keeps parent c n (record t { next_inode_candidate = n + 1 }) in
    record { next = omega (arith, next); same = λ i h. same i (λ e. omega arith) }

found_or_added-Leaves :
    (parent : ℕ) (c : FilePath) (r : FileSystemResult ℕ) → Leaves (Table.found_or_added parent c r)
unfolding Table.found_or_added ◌>>=◌
found_or_added-Leaves parent c (ok i) = trivial (Triple-pure untouched_frame Always i)
found_or_added-Leaves parent c (err no_ent) = record {
  run = λ t g p. elim (new_inode_cases t) [
    | inl e ↦ rw e (tt, Untouched-refl t, tt)
    | inr (e, free) ↦
        let n = t.next_inode_candidate in
        let y = Table.add_dir parent c n (record t { next_inode_candidate = n + 1 }) in
        rw e (
          tt,
          subst (Untouched t) (sym (follow-pure-state y n)) (added-Untouched parent c t),
          OnOk_trivial (follow y (λ _. pure n)).0,
        )
  ];
}
found_or_added-Leaves parent c (err e) = trivial (Triple-fail untouched_frame Always e Anything)
found_or_added-Leaves parent c abort = trivial (Triple-panic untouched_frame Always Anything)

pub add_all_dir-Leaves : (parent : ℕ) (path : FilePath) → Leaves (Table.add_all_dir parent path)
unfolding Table.add_all_dir
add_all_dir-Leaves parent [] = trivial (Triple-pure untouched_frame Always parent)
add_all_dir-Leaves parent (normal c ∷ path) =
    Triple-bind untouched_frame Anything
      (trivial (
        Triple-attempt untouched_frame Always (Table.get_inode_by_inode_path parent (normal c ∷ []))
          Anything (get_inode_by_inode_path-Leaves parent (normal c ∷ []))))
      (λ found.
        Triple-bind untouched_frame Anything
          (trivial (found_or_added-Leaves parent (normal c ∷ []) found))
          (λ new_parent. add_all_dir-Leaves new_parent path))
add_all_dir-Leaves parent (_ ∷ path) = trivial (Triple-fail untouched_frame Always inval Anything)

pub locate-Leaves : (i : ℕ) (path above : FilePath) → Leaves (Table.locate i path above)
unfolding Table.locate
locate-Leaves i path [] = trivial (Triple-pure untouched_frame Always (i, path))
locate-Leaves i path (c ∷ above) =
    Triple-bind untouched_frame Anything
      (trivial (Triple-ok_or untouched_frame Always inval (file_name path)))
      (λ name. Triple-bind untouched_frame Anything (add_all_dir-Leaves i (c ∷ above)) (λ last.
        Triple-bind untouched_frame Anything (get_inode_by_inode_path-Leaves i (c ∷ above))
          (λ direct. trivial (Triple-pure untouched_frame Always (direct, normal name ∷ [])))))
