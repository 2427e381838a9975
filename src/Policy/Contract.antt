-- ===== src/Policy/Contract.antt =====
-- policy-utils/src/policy.rs: the global policy of a computation, its checks, and the tables that the
-- runtime derives from it.
use veracruz.Base.{path_eq, abort}
use veracruz.Policy.Principal.{principal_eq}
use veracruz.Wasi.{Wasi}
use veracruz.Policy.Expiry.{Timepoint}
use text.Mathlib.Text.{is_lt}
use Prim.Native.String.{compare}
use veracruz.Base.{
  ℕ, Result, String, Component, List, FilePath, Option, Bool, normal, ◌∷◌, true, none, [], root_dir,
  false, Map, err, ok, if◌then◌else◌, cur_dir, ◌==◌, ◌++◌, ◌||◌, parent_dir, ltb, insert, some,
  string_eq, not, path_from, ◌&&◌,
}
use veracruz.Policy.Principal.{
  assert_identity_valid, FileHash, Identity, PolicyError, Program, missing_policy_field_error,
  hex_error, json_error, invalid_client_certificate_error, RightsTable, ExecutionStrategy,
  duplicated_client_id_error, compute_right_map, program, participant,
}

-- policy-utils/src/lib.rs
pub data Platform : Type 0 where
  linux nitro ice_cap mock : Platform

pub record Policy : Type 0 where
  pub identities : List Identity
  pub programs : List Program
  pub file_hashes : List FileHash
  pub veracruz_server_url : String
  pub enclave_cert_expiry : Timepoint
  pub ciphersuite : String
  pub runtime_manager_hash_linux : Option String
  pub runtime_manager_hash_nitro : Option String
  pub runtime_manager_hash_icecap : Option String
  pub proxy_attestation_server_url : String
  pub proxy_service_cert : String
  pub debug : Bool
  pub execution_strategy : ExecutionStrategy
  pub enable_clock : Bool
  pub max_memory_mib : ℕ
  pub policy_hash : Option String

-- What the policy takes from `hex`, `serde_json` and the digest of `veracruz_utils`.
pub record Codecs : Type 0 where
  pub hex_decode : String → Option (List ℕ)
  pub hex_encode : List ℕ → String
  pub sha256 : List ℕ → List ℕ
  pub as_bytes : String → List ℕ
  pub from_str : String → Option Policy

-- `Vec::contains`
unfoldable pub member : ℕ → List ℕ → Bool
member id [] = false
member id (j ∷ ids) = j == id || member id ids

-- The loop of `Policy::assert_valid`, with the ids that it has met.
unfoldable pub assert_identities : List ℕ → List Identity → Result PolicyError (Unit {0})
unfolding assert_identity_valid member
assert_identities client_ids [] = ok tt
assert_identities client_ids (i ∷ is) =
    let rest = assert_identities (client_ids ++ (i.id ∷ [])) is in
    elim (assert_identity_valid i) [
      | err e ↦ err e
      | abort ↦ abort
      | ok u ↦ if member i.id client_ids then err (duplicated_client_id_error i.id) else rest
    ]

unfoldable pub assert_valid : Policy → Result PolicyError (Unit {0})
unfolding assert_identities
assert_valid policy = assert_identities [] policy.identities

-- `Policy::new`, given the fields.
unfoldable pub new : Policy → Result PolicyError Policy
unfolding assert_valid
new fields =
    let policy = record fields { policy_hash = none } in
    elim (assert_valid policy) [ err e ↦ err e | abort ↦ abort | ok u ↦ ok policy ]

module _ ⦃c : Codecs⦄ where
  unfoldable pub from_json : String → Result PolicyError Policy
  unfolding assert_valid
  from_json json = elim (c.from_str json) [
    | none ↦ err json_error
    | some policy ↦ elim (assert_valid policy) [
      | err e ↦ err e
      | abort ↦ abort
      | ok u ↦ ok (record policy { policy_hash = some (c.hex_encode (c.sha256 (c.as_bytes json))) })
    ]
  ]

-- The value of an optional field.
unfoldable pub field_or_missing : String → Option String → Result PolicyError String
field_or_missing name none = err (missing_policy_field_error name)
field_or_missing name (some hash) = ok hash

unfoldable pub runtime_manager_hash : Platform → Policy → Result PolicyError String
unfolding field_or_missing
runtime_manager_hash linux p =
    field_or_missing "runtime_manager_hash_linux" p.runtime_manager_hash_linux
runtime_manager_hash nitro p =
    field_or_missing "runtime_manager_hash_nitro" p.runtime_manager_hash_nitro
runtime_manager_hash ice_cap p =
    field_or_missing "runtime_manager_hash_icecap" p.runtime_manager_hash_icecap
runtime_manager_hash mock p =
    field_or_missing "runtime_manager_hash_nitro" p.runtime_manager_hash_nitro

-- `expected_shutdown_list`
unfoldable pub ids : List Identity → List ℕ
ids [] = []
ids (i ∷ is) = i.id ∷ ids is

unfoldable pub expected_shutdown_list : Policy → List ℕ
unfolding ids
expected_shutdown_list policy = ids policy.identities

unfoldable pub check_certificate : String → List Identity → Result PolicyError ℕ
check_certificate cert [] = err (invalid_client_certificate_error cert)
check_certificate cert (i ∷ is) =
    if string_eq.beq i.certificate cert then ok i.id else check_certificate cert is

unfoldable pub check_client_id : String → Policy → Result PolicyError ℕ
unfolding check_certificate
check_client_id cert policy = check_certificate cert policy.identities

module _ ⦃w : Wasi⦄ where
  unfoldable pub insert_participants : List Identity → RightsTable → RightsTable
  insert_participants [] table = table
  insert_participants (i ∷ is) table =
      insert_participants is (insert (participant i.id) (compute_right_map i.file_rights) table)

  unfoldable pub insert_programs : List Program → RightsTable → RightsTable
  insert_programs [] table = table
  insert_programs (p ∷ ps) table =
      insert_programs ps
        (insert (program p.program_file_name) (compute_right_map p.file_rights) table)

  unfoldable pub get_rights_table : Policy → RightsTable
  unfolding insert_participants insert_programs
  get_rights_table policy =
      insert_programs policy.programs (insert_participants policy.identities [])

module _ ⦃c : Codecs⦄ where
  unfoldable pub insert_hashes :
      List FileHash → Map FilePath (List ℕ) → Result PolicyError (Map FilePath (List ℕ))
  insert_hashes [] table = ok table
  insert_hashes (h ∷ hs) table = elim (c.hex_decode h.hash) [
    | none ↦ err hex_error
    | some digest ↦ insert_hashes hs (insert (path_from h.file_path) digest table)
  ]

  unfoldable pub get_file_hash_table : Policy → Result PolicyError (Map FilePath (List ℕ))
  unfolding insert_hashes
  get_file_hash_table policy = insert_hashes policy.file_hashes []

-- `Ord` of a path: the components in turn, a root before `.` before `..` before names.
unfoldable pub component_rank : Component → ℕ
component_rank root_dir = 0
component_rank cur_dir = 1
component_rank parent_dir = 2
component_rank (normal s) = 3

unfoldable pub component_lt : Component → Component → Bool
unfolding component_rank
component_lt (normal s) (normal t) = is_lt (compare s t)
component_lt a b = ltb (component_rank a) (component_rank b)

unfoldable pub path_le : FilePath → FilePath → Bool
unfolding component_lt
path_le [] q = true
path_le (a ∷ p) [] = false
path_le (a ∷ p) (b ∷ q) = component_lt a b || (not (component_lt b a) && path_le p q)

unfoldable pub insert_sorted : FilePath → List FilePath → List FilePath
unfolding path_le
insert_sorted p [] = p ∷ []
insert_sorted p (q ∷ qs) = if path_le p q then p ∷ q ∷ qs else q ∷ insert_sorted p qs

unfoldable pub sort : List FilePath → List FilePath
unfolding insert_sorted
sort [] = []
sort (p ∷ ps) = insert_sorted p (sort ps)

module _ ⦃w : Wasi⦄ where
  unfoldable pub readable : Map FilePath ℕ → List FilePath
  readable [] = []
  readable ((file_name, right) ∷ m) =
      let rest = readable m in
      if w.contains right (w.union w.fd_read w.path_open) then file_name ∷ rest else rest

  unfoldable pub get_required_inputs : Map FilePath ℕ → List FilePath
  unfolding readable sort
  get_required_inputs right_map = sort (readable right_map)

  unfoldable pub insert_inputs :
      List Program → Map String (List FilePath) → Map String (List FilePath)
  unfolding get_required_inputs
  insert_inputs [] table = table
  insert_inputs (p ∷ ps) table =
      insert_inputs ps
        (insert p.program_file_name (get_required_inputs (compute_right_map p.file_rights)) table)

  unfoldable pub get_input_table : Policy → Map String (List FilePath)
  unfolding insert_inputs
  get_input_table policy = insert_inputs policy.programs []
