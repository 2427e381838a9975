-- ===== src/Policy/Rights.antt =====
-- The table of rights that is derived from a policy.
use veracruz.Base.{
  lookup-insert_self, Map, FilePath, ℕ, ◌≡◌, refl, true, false, some, List, [], ◌∷◌, ◌++◌, ok,
  arith, lookup, lookup-insert, insert, nat_eq, ◌∙◌, ==_iff,
}
use veracruz.Wasi.{Wasi}
use veracruz.Policy.Principal.{
  Identity, Program, RightsTable, participant, program, principal_eq, compute_right_map,
}
use veracruz.Policy.Contract
use veracruz.Policy.Contract.{Policy, member}
use veracruz.Policy.Validity.{AllNew, assert_valid_iff}

member-append :
    (id j : ℕ) (seen : List ℕ) → member id seen ≡ true → member id (seen ++ (j ∷ [])) ≡ true
unfolding member
member-append id j [] known = ground arith
member-append id j (k ∷ seen) known = ground (arith, member-append id j seen)

member_last : (id : ℕ) (seen : List ℕ) → member id (seen ++ (id ∷ [])) ≡ true
unfolding member
member_last id [] = ground arith
member_last id (k ∷ seen) = ground (arith, member_last id seen)

participant_other :
    (j id : ℕ) (seen : List ℕ) (rights : Map FilePath ℕ) (t : RightsTable)
    → member j seen ≡ false
    → member id seen ≡ true
    → lookup (participant id) (insert (participant j) rights t) ≡ lookup (participant id) t
participant_other j id seen rights t fresh known =
    ground (arith, lookup-insert (participant j) (participant id) rights t, ==_iff j id)

module _ ⦃w : Wasi⦄ where
  programs_keep :
      (id : ℕ) (ps : List Program) (t : RightsTable)
      → lookup (participant id) (Contract.insert_programs ps t) ≡ lookup (participant id) t
  unfolding Contract.insert_programs
  programs_keep id [] t = refl
  programs_keep id (p ∷ ps) t =
      let name = program p.program_file_name in
      let rights = compute_right_map p.file_rights in
      programs_keep id ps (insert name rights t) ∙ lookup-insert name (participant id) rights t

  participants_keep :
      (id : ℕ) (seen : List ℕ) (is : List Identity) (t : RightsTable)
      → AllNew seen is
      → member id seen ≡ true
      → lookup (participant id) (Contract.insert_participants is t) ≡ lookup (participant id) t
  unfolding Contract.insert_participants
  participants_keep id seen [] t new known = refl
  participants_keep id seen (i ∷ is) t (fresh, new) known =
      let rights = compute_right_map i.file_rights in
      participants_keep id (seen ++ (i.id ∷ [])) is (insert (participant i.id) rights t) new
        (member-append id i.id seen known)
      ∙ participant_other i.id id seen rights t fresh known

  -- Each identity has its own rights.
  abbrev pub AllGranted : List Identity → RightsTable → Type 0
  AllGranted [] t = Unit
  AllGranted (i ∷ is) t =
      (lookup (participant i.id) t ≡ some (compute_right_map i.file_rights)) × AllGranted is t

  participants_granted :
      (seen : List ℕ) (is : List Identity) (t : RightsTable)
      → AllNew seen is
      → AllGranted is (Contract.insert_participants is t)
  unfolding Contract.insert_participants
  participants_granted seen [] t new = tt
  participants_granted seen (i ∷ is) t (fresh, new) =
      let rights = compute_right_map i.file_rights in
      let t' = insert (participant i.id) rights t in
      (
        participants_keep i.id (seen ++ (i.id ∷ [])) is t' new (member_last i.id seen)
            ∙ lookup-insert_self (participant i.id) rights t,
        participants_granted (seen ++ (i.id ∷ [])) is t' new,
      )

  programs_granted :
      (is : List Identity) (ps : List Program) (t : RightsTable)
      → AllGranted is t
      → AllGranted is (Contract.insert_programs ps t)
  programs_granted [] ps t h = tt
  programs_granted (i ∷ is) ps t (first, rest) =
      (programs_keep i.id ps t ∙ first, programs_granted is ps t rest)

-- In the table of a valid policy every client has exactly the rights that the policy lists for it,
-- whatever other clients and programs the policy has.
pub get_rights_table-AllGranted :
    ⦃w : Wasi⦄ (policy : Policy)
    → Contract.assert_valid policy ≡ ok tt
    → AllGranted policy.identities (Contract.get_rights_table policy)
unfolding Contract.get_rights_table
get_rights_table-AllGranted policy valid =
    programs_granted policy.identities policy.programs
      (Contract.insert_participants policy.identities [])
      (participants_granted [] policy.identities [] ((assert_valid_iff policy).0 valid).1)
