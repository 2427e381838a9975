-- ===== src/Scenarios.antt =====
-- The theorems on policies and on the protocol state at concrete inputs.
use veracruz.Base.{
  root_dir, insert, path_eq, ends_with, ℕ, ◌≡◌, ◌≤◌, ◌↔◌, refl, true, false, none, some, [], ◌∷◌,
  ok, err, arith, String, normal, length, lookup, path_from, List,
}
use veracruz.Wasi.{access}
use veracruz.Policy.Principal.{Principal, Identity, interpretation}
use veracruz.Policy.Expiry
use veracruz.Policy.Expiry.{Timepoint}
use veracruz.Policy.Contract
use veracruz.Policy.Contract.{Policy, Codecs, member}
use veracruz.Policy.Validity.{
  AllPem, AllNew, assert_valid_iff, check_client_id-expected_shutdown_list, new_iff,
}
use veracruz.Vfs.Handle.{bare}
use veracruz.Vfs.Table
use veracruz.Runtime.Protocol
use veracruz.Runtime.Protocol.{
  ProtocolState, Engine, file_system_error, success, uninitialized_protocol_state,
}
use veracruz.Transport.Messages.{Message}
use veracruz.Runtime.Dispatch
use veracruz.Policy.Inputs.{path_member, can_read, get_required_inputs-path_member}
use veracruz.Runtime.Strangers.{IsRefused, stranger-IsRefused}
use veracruz.Policy.Rights.{AllGranted, get_rights_table-AllGranted}
use veracruz.Policy.Principal.{assert_identity_valid, FileRights, compute_right_map}
use veracruz.Runtime.Guards.{
  write_file-digest, dispatch_on_request-shutdown, dispatch_on_request-none,
}
use veracruz.Examples.{level_wasi, idle}

-- The length stands for the digest.
instance abbrev pub length_codecs : Codecs
length_codecs = record {
  hex_decode = λ s. some [];
  hex_encode = λ b. "";
  sha256 = λ b. length b ∷ [];
  as_bytes = λ s. [];
  from_str = λ s. none;
}

instance abbrev pub still : Engine
still = record { execute = λ strategy f b clock. (ok 0, f) }

abbrev pub client : String → ℕ → Identity
client text id = record { certificate = text; id = id; file_rights = [] }

abbrev pub noon : Timepoint
noon = record { year = 2030; month = 6; day = 1; hour = 12; minute = 0 }

abbrev pub policy : Policy
policy = record {
  identities = client "A-----END CERTIFICATE-----" 0 ∷ client "B-----END CERTIFICATE-----" 7 ∷ [];
  programs = [];
  file_hashes = [];
  veracruz_server_url = "";
  enclave_cert_expiry = noon;
  ciphersuite = "";
  runtime_manager_hash_linux = none;
  runtime_manager_hash_nitro = none;
  runtime_manager_hash_icecap = none;
  proxy_attestation_server_url = "";
  proxy_service_cert = "";
  debug = false;
  execution_strategy = interpretation;
  enable_clock = false;
  max_memory_mib = 256;
  policy_hash = none;
}

abbrev pub state : ProtocolState
state = record {
  global_policy = policy;
  global_policy_hash = "00";
  expected_shutdown_sources = 0 ∷ 7 ∷ [];
  vfs =
      bare (Table.empty_table ((Principal.participant 0, []) ∷ (Principal.participant 7, []) ∷ []));
  digest_table = (normal "a" ∷ [], 3 ∷ []) ∷ [];
}

assert_valid_iff_example :
    (Contract.assert_valid policy ≡ ok tt)
    ↔ (AllPem policy.identities × AllNew [] policy.identities)
assert_valid_iff_example = assert_valid_iff policy

check_client_id-expected_shutdown_list_example :
    member 7 (Contract.expected_shutdown_list policy) ≡ true
unfolding Contract.check_client_id Contract.check_certificate
check_client_id-expected_shutdown_list_example =
    check_client_id-expected_shutdown_list "B-----END CERTIFICATE-----" policy 7 refl

new_iff_example :
    (Expiry.new 2030 6 1 12 0 ≡ ok noon)
    ↔ (((0 ≤ 59) × (12 ≤ 23) × (1 ≤ 31) × (6 ≤ 12)) × (noon ≡ noon))
new_iff_example = new_iff 2030 6 1 12 0 noon

write_file-digest_example :
    Protocol.write_file (Principal.participant 7) "a" (1 ∷ 2 ∷ []) state
    ≡ (err (file_system_error access), state)
unfolding path_from lookup
write_file-digest_example =
    write_file-digest (Principal.participant 7) "a" (1 ∷ 2 ∷ []) (3 ∷ []) state refl
      (λ e. ground arith)

dispatch_on_request-shutdown_example :
    Dispatch.dispatch_on_request 7 Message.request_shutdown (some state)
    ≡ (ok (some (success none)), none)
unfolding member
dispatch_on_request-shutdown_example = dispatch_on_request-shutdown 7 state

dispatch_on_request-none_example :
    Dispatch.dispatch_on_request 7 (Message.read_file "a") none
    ≡ (err uninitialized_protocol_state, none)
dispatch_on_request-none_example = dispatch_on_request-none 7 (Message.read_file "a")

get_rights_table-AllGranted_example :
    AllGranted policy.identities (Contract.get_rights_table policy)
unfolding Contract.assert_valid Contract.assert_identities assert_identity_valid ends_with member
get_rights_table-AllGranted_example = get_rights_table-AllGranted policy refl

stranger-IsRefused_example :
    IsRefused (Protocol.write_file (Principal.participant 9) "b" (1 ∷ [])) state
    × IsRefused (Protocol.append_file (Principal.participant 9) "b" (1 ∷ [])) state
    × IsRefused (Protocol.read_file (Principal.participant 9) "b") state
    × IsRefused (Protocol.execute (Principal.participant 9) "b") state
unfolding lookup Table.empty_table bare
stranger-IsRefused_example = stranger-IsRefused (Principal.participant 9) "b" (1 ∷ []) state refl

abbrev entries : List FileRights
entries =
    record { file_name = "/in"; rights = 40 }
    ∷ record { file_name = "/in"; rights = 5 }
    ∷ record { file_name = "/also"; rights = 20 }
    ∷ []

get_required_inputs-path_member_example :
    path_member
      (root_dir ∷ normal "in" ∷ [])
      (Contract.get_required_inputs (compute_right_map entries))
    ≡ can_read (lookup (root_dir ∷ normal "in" ∷ []) (compute_right_map entries))
get_required_inputs-path_member_example =
    get_required_inputs-path_member entries (root_dir ∷ normal "in" ∷ [])

-- The second entry of a path counts.
required :
    Contract.get_required_inputs (compute_right_map entries) ≡ (root_dir ∷ normal "also" ∷ []) ∷ []
unfolding Contract.get_required_inputs compute_right_map insert path_from
required = refl
