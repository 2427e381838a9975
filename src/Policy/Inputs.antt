-- ===== src/Policy/Inputs.antt =====
-- The inputs that a program requires.
use veracruz.Base.{
  ℕ, ◌≡◌, refl, Bool, false, ◌||◌, Option, some, none, List, [], ◌∷◌, Map, FilePath, path_eq, arith,
  lookup, lookup-insert, insert, path_from, ◌∙◌,
}
use veracruz.Wasi.{Wasi}
use veracruz.Policy.Principal.{FileRights, compute_right_map, insert_rights}
use veracruz.Policy.Contract

-- No key stands twice.
abbrev IsUnique : Map FilePath ℕ → Type 0
IsUnique [] = Unit
IsUnique ((k, v) ∷ m) = (lookup k m ≡ none) × IsUnique m

insert-IsUnique : (k : FilePath) (v : ℕ) (m : Map FilePath ℕ) → IsUnique m → IsUnique (insert k v m)
unfolding insert lookup
insert-IsUnique k v [] h = (refl, tt)
insert-IsUnique k v ((j, x) ∷ m) (free, rest) = ground (
  arith,
  insert-IsUnique k v m rest,
  lookup-insert k j v m,
  path_eq.beq_iff j k,
  path_eq.beq_iff k j,
)

module _ ⦃w : Wasi⦄ where
  insert_rights-IsUnique :
      (rs : List FileRights) (m : Map FilePath ℕ) → IsUnique m → IsUnique (insert_rights rs m)
  unfolding insert_rights
  insert_rights-IsUnique [] m h = h
  insert_rights-IsUnique (r ∷ rs) m h =
      insert_rights-IsUnique rs _ (insert-IsUnique (path_from r.file_name) _ m h)

abbrev pub path_member : FilePath → List FilePath → Bool
path_member p [] = false
path_member p (q ∷ qs) = path_eq.beq q p || path_member p qs

insert_sorted-path_member :
    (p q : FilePath) (qs : List FilePath)
    → path_member p (Contract.insert_sorted q qs) ≡ (path_eq.beq q p || path_member p qs)
unfolding Contract.insert_sorted
insert_sorted-path_member p q [] = refl
insert_sorted-path_member p q (r ∷ qs) = ground (arith, insert_sorted-path_member p q qs)

sort-path_member :
    (p : FilePath) (qs : List FilePath) → path_member p (Contract.sort qs) ≡ path_member p qs
unfolding Contract.sort
sort-path_member p [] = refl
sort-path_member p (q ∷ qs) =
    ground (arith, insert_sorted-path_member p q (Contract.sort qs), sort-path_member p qs)

module _ ⦃w : Wasi⦄ where
  abbrev pub can_read : Option ℕ → Bool
  can_read none = false
  can_read (some rights) = w.contains rights (w.union w.fd_read w.path_open)

  readable-path_member :
      (p : FilePath) (m : Map FilePath ℕ)
      → IsUnique m
      → path_member p (Contract.readable m) ≡ can_read (lookup p m)
  unfolding Contract.readable lookup
  readable-path_member p [] h = refl
  readable-path_member p ((k, v) ∷ m) (free, rest) =
      ground (arith, readable-path_member p m rest, path_eq.beq_iff k p)

-- A path is among the inputs that a program requires exactly where the map of rights that is
-- computed from the program's entries has rights for it that are enough to open and to read it.
pub get_required_inputs-path_member :
    ⦃w : Wasi⦄ (file_rights : List FileRights) (p : FilePath)
    → path_member p (Contract.get_required_inputs (compute_right_map file_rights))
      ≡ can_read (lookup p (compute_right_map file_rights))
unfolding Contract.get_required_inputs compute_right_map
get_required_inputs-path_member file_rights p =
    sort-path_member p (Contract.readable (compute_right_map file_rights))
    ∙ readable-path_member p (compute_right_map file_rights)
        (insert_rights-IsUnique file_rights [] tt)
