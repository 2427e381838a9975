-- ===== src/Policy/Principal.antt =====
-- policy-utils/src/principal.rs: principals, the rights that a policy gives them on files, programs,
-- identities and file hashes.
use veracruz.Wasi.{Wasi}
use veracruz.Base.{
  ℕ, ◌≡◌, ◌↔◌, Bool, true, false, String, Eq, Map, arith, nat_eq, string_eq, FilePath, path_eq,
  Result, List, if◌then◌else◌, not, ends_with, ◌∷◌, err, [], ok, insert, path_from,
}
use text.Mathlib.TextEquality.{eq_iff}
use veracruz.Base.{==_iff}

pub data Principal : Type 0 where
  internal_super_user : Principal
  participant : ℕ → Principal
  program : String → Principal
  no_cap : Principal

abbrev pub principal_beq : Principal → Principal → Bool
principal_beq internal_super_user internal_super_user = true
principal_beq (participant i) (participant j) = nat_eq.beq i j
principal_beq (program s) (program t) = string_eq.beq s t
principal_beq no_cap no_cap = true
principal_beq _ _ = false

pub principal_beq_iff : (a b : Principal) → (principal_beq a b ≡ true) ↔ (a ≡ b)
principal_beq_iff (program s) (program t) = ground (arith, eq_iff s t)
principal_beq_iff (participant i) b = ground (arith, ==_iff i)
principal_beq_iff internal_super_user b = ground arith
principal_beq_iff a b = ground arith

instance abbrev pub principal_eq : Eq Principal
principal_eq = record { beq = principal_beq; beq_iff = principal_beq_iff }

-- `RightsTable`
abbrev pub RightsTable : Type 0
RightsTable = Map Principal (Map FilePath ℕ)

-- A file name of a policy, and the rights on it: a `u32`.
pub record FileRights : Type 0 where
  pub file_name : String
  pub rights : ℕ

module _ ⦃w : Wasi⦄ where
  -- The fold inserts from the first entry on: a later entry of a name replaces an earlier one.
  unfoldable pub insert_rights : List FileRights → Map FilePath ℕ → Map FilePath ℕ
  insert_rights [] acc = acc
  insert_rights (r ∷ rs) acc =
      insert_rights rs (insert (path_from r.file_name) (w.from_bits_truncate r.rights) acc)

  unfoldable pub compute_right_map : List FileRights → Map FilePath ℕ
  unfolding insert_rights
  compute_right_map file_rights = insert_rights file_rights []

pub record Program : Type 0 where
  pub program_file_name : String
  pub id : ℕ
  pub file_rights : List FileRights

pub data ExecutionStrategy : Type 0 where
  interpretation jit : ExecutionStrategy

-- `Identity<String>`; the id is a `u32`.
pub record Identity : Type 0 where
  pub certificate : String
  pub id : ℕ
  pub file_rights : List FileRights

pub record FileHash : Type 0 where
  pub file_path : String
  pub hash : String

-- The errors that the modelled code returns.
pub data PolicyError : Type 0 where
  certificate_format_error : String → PolicyError
  duplicated_client_id_error : ℕ → PolicyError
  invalid_client_certificate_error : String → PolicyError
  missing_policy_field_error : String → PolicyError
  hex_error : PolicyError
  json_error : PolicyError

-- `Identity::assert_valid`; the checks under the misspelt `cfg(features = "std")` are compiled out.
unfoldable pub assert_identity_valid : Identity → Result PolicyError (Unit {0})
assert_identity_valid i =
    if not (ends_with i.certificate "-----END CERTIFICATE-----")
    then err (certificate_format_error i.certificate)
    else ok tt
