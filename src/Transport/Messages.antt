-- ===== src/Transport/Messages.antt =====
-- transport-protocol/protos/transport_protocol.proto: the messages, from which the build generates
-- Rust. A message with one field stands as that field. The generated codec of a message type is the
-- parameter `Codec`.
use veracruz.Base.{zero, suc, ℕ, none, some, Option, String, ℤ, pos}
use veracruz.Vfs.Impl.{Bytes}
use veracruz.Transport.Sgx.{
  SgxMsg1, SgxAttestationTokens, SgxAttestationInit, SgxAttestationChallenge,
}

pub record StartMsg : Type 0 where
  pub protocol : String
  pub firmware_version : String

pub record Data : Type 0 where
  pub file_name : String
  pub data_bytes : Bytes

pub record NitroAttestationDoc : Type 0 where
  pub doc : Bytes
  pub device_id : ℤ

pub record PsaAttestationInit : Type 0 where
  pub challenge : Bytes
  pub device_id : ℤ

pub record NativePsaAttestationToken : Type 0 where
  pub token : Bytes
  pub device_id : ℤ
  pub csr : Bytes

pub record ProxyPsaAttestationToken : Type 0 where
  pub token : Bytes
  pub pubkey : Bytes
  pub device_id : ℤ

pub record CertChain : Type 0 where
  pub root_cert : Bytes
  pub enclave_cert : Bytes

pub data ResponseStatus : Type 0 where
  unset : ResponseStatus
  status_success : ResponseStatus
  failed_invalid_role : ResponseStatus
  failed_not_ready : ResponseStatus
  failed_generic : ResponseStatus
  failed_vm_error : ResponseStatus
  failed_error_code_returned : ResponseStatus
  status_invalid_request : ResponseStatus

-- `ResponseStatus::X as i32`
unfoldable pub as_i32 : ResponseStatus → ℤ
as_i32 unset = pos 0
as_i32 status_success = pos 1
as_i32 failed_invalid_role = pos 2
as_i32 failed_not_ready = pos 3
as_i32 failed_generic = pos 4
as_i32 failed_vm_error = pos 5
as_i32 failed_error_code_returned = pos 6
as_i32 status_invalid_request = pos 7

unfoldable pub from_i32 : ℤ → Option ResponseStatus
from_i32 (pos zero) = some unset
from_i32 (pos (suc zero)) = some status_success
from_i32 (pos (suc (suc zero))) = some failed_invalid_role
from_i32 (pos (suc (suc (suc zero)))) = some failed_not_ready
from_i32 (pos (suc (suc (suc (suc zero))))) = some failed_generic
from_i32 (pos (suc (suc (suc (suc (suc zero)))))) = some failed_vm_error
from_i32 (pos (suc (suc (suc (suc (suc (suc zero))))))) = some failed_error_code_returned
from_i32 (pos (suc (suc (suc (suc (suc (suc (suc zero)))))))) = some status_invalid_request
from_i32 _ = none

-- The `message_oneof` of a request to the runtime manager.
pub data Message : Type 0 where
  write_file : Data → Message
  append_file : Data → Message
  request_pi_hash : String → Message
  request_result : String → Message
  request_proxy_psa_attestation_token : Bytes → Message
  request_shutdown : Message
  psa_attestation_init : PsaAttestationInit → Message
  request_policy_hash : Message
  read_file : String → Message

pub record RuntimeManagerRequest : Type 0 where
  pub message_oneof : Option Message
  pub context : ℕ

pub data ResponseMessage : Type 0 where
  result : Bytes → ResponseMessage
  pi_hash : Bytes → ResponseMessage
  error : Bytes → ResponseMessage
  state : Bytes → ResponseMessage
  policy_hash : Bytes → ResponseMessage
  cert : Bytes → ResponseMessage

pub record RuntimeManagerResponse : Type 0 where
  pub status : ResponseStatus
  pub message_oneof : Option ResponseMessage
  pub context : ℕ

pub data AttestationRequest : Type 0 where
  start_msg : StartMsg → AttestationRequest
  native_psa_attestation_token : NativePsaAttestationToken → AttestationRequest
  proxy_psa_attestation_token : ProxyPsaAttestationToken → AttestationRequest
  msg1 : SgxMsg1 → AttestationRequest
  sgx_attestation_tokens : SgxAttestationTokens → AttestationRequest
  nitro_attestation_doc : NitroAttestationDoc → AttestationRequest

pub record ProxyAttestationServerRequest : Type 0 where
  pub message_oneof : Option AttestationRequest
  pub context : ℕ

pub data AttestationResponse : Type 0 where
  psa_init : PsaAttestationInit → AttestationResponse
  sgx_attestation_init : SgxAttestationInit → AttestationResponse
  sgx_attestation_challenge : SgxAttestationChallenge → AttestationResponse
  cert_chain : CertChain → AttestationResponse

pub record ProxyAttestationServerResponse : Type 0 where
  pub message_oneof : Option AttestationResponse
  pub context : ℕ

-- `Message::new` of the generated types, where nothing is set.
abbrev pub new_runtime_request : RuntimeManagerRequest
new_runtime_request = record { message_oneof = none; context = 0 }

abbrev pub new_runtime_response : RuntimeManagerResponse
new_runtime_response = record { status = unset; message_oneof = none; context = 0 }

abbrev pub new_attestation_request : ProxyAttestationServerRequest
new_attestation_request = record { message_oneof = none; context = 0 }

abbrev pub new_attestation_response : ProxyAttestationServerResponse
new_attestation_response = record { message_oneof = none; context = 0 }

-- The codec that is generated for a message type.
pub record Codec (M : Type 0) : Type 0 where
  -- `protobuf::parse_from_bytes`
  pub parse_from_bytes : Bytes → Option M
  -- `Message::write_to_bytes`
  pub write_to_bytes : M → Option Bytes
