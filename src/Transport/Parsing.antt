-- ===== src/Transport/Parsing.antt =====
-- transport-protocol/src/custom.rs: the functions that take a message apart.
use veracruz.Base.{◌>>=◌, none, some, Option, String, ok, err, Result, ℕ, ℤ, pos, negsuc, ok_or}
use veracruz.Vfs.Impl.{Bytes}
use veracruz.Transport.Framing.{
  TransportExec, TransportProtocolError, protobuf_error, response_status_error,
  handle_protocol_buffer,
}
use veracruz.Transport.Messages.{
  Codec, ResponseMessage, AttestationRequest, RuntimeManagerRequest, RuntimeManagerResponse,
  ProxyAttestationServerRequest, ProxyAttestationServerResponse, ResponseStatus, StartMsg,
  CertChain, PsaAttestationInit, NitroAttestationDoc, NativePsaAttestationToken,
  ProxyPsaAttestationToken,
}

module _ {M : Type 0} ⦃c : Codec M⦄ where
  -- `protobuf::parse_from_bytes::<M>(&handle_protocol_buffer(session_id, buffer)?)?`
  unfoldable pub parse : Option ℕ → Bytes → TransportExec M
  parse session_id buffer = do
    full_unprefixed_buffer ← handle_protocol_buffer session_id buffer
    ok_or protobuf_error (c.parse_from_bytes full_unprefixed_buffer)

unfoldable pub parse_runtime_manager_request :
    ⦃c : Codec RuntimeManagerRequest⦄ → Option ℕ → Bytes → TransportExec RuntimeManagerRequest
unfolding parse
parse_runtime_manager_request session_id buffer = parse session_id buffer

unfoldable pub parse_runtime_manager_response :
    ⦃c : Codec RuntimeManagerResponse⦄ → Option ℕ → Bytes → TransportExec RuntimeManagerResponse
unfolding parse
parse_runtime_manager_response session_id buffer = parse session_id buffer

unfoldable pub parse_proxy_attestation_server_request :
    ⦃c : Codec ProxyAttestationServerRequest⦄
    → Option ℕ
    → Bytes
    → TransportExec ProxyAttestationServerRequest
unfolding parse
parse_proxy_attestation_server_request session_id buffer = parse session_id buffer

unfoldable pub parse_proxy_attestation_server_response :
    ⦃c : Codec ProxyAttestationServerResponse⦄
    → Option ℕ
    → Bytes
    → TransportExec ProxyAttestationServerResponse
unfolding parse
parse_proxy_attestation_server_response session_id buffer = parse session_id buffer

-- The message is its one field.
unfoldable pub parse_request_proxy_psa_attestation_token : Bytes → Bytes
parse_request_proxy_psa_attestation_token proto = proto

unfoldable pub parse_cert_chain : CertChain → Bytes × Bytes
parse_cert_chain chain = (chain.root_cert, chain.enclave_cert)

unfoldable pub parse_proxy_psa_attestation_token : ProxyPsaAttestationToken → Bytes × Bytes × ℤ
parse_proxy_psa_attestation_token proto = (proto.token, proto.pubkey, proto.device_id)

unfoldable pub parse_native_psa_attestation_token : NativePsaAttestationToken → Bytes × Bytes × ℤ
parse_native_psa_attestation_token proto = (proto.token, proto.csr, proto.device_id)

unfoldable pub parse_nitro_attestation_doc : NitroAttestationDoc → Bytes × ℤ
parse_nitro_attestation_doc proto = (proto.doc, proto.device_id)

unfoldable pub parse_psa_attestation_init : PsaAttestationInit → Bytes × ℤ
parse_psa_attestation_init pai = (pai.challenge, pai.device_id)

-- The generated getter gives the default message where another one is set.
unfoldable pub get_start_msg : ProxyAttestationServerRequest → StartMsg
get_start_msg parsed = elim parsed.message_oneof [
  | some (AttestationRequest.start_msg start_msg) ↦ start_msg
  | _ ↦ record { protocol = ""; firmware_version = "" }
]

unfoldable pub parse_start_msg : ProxyAttestationServerRequest → String × String
unfolding get_start_msg
parse_start_msg parsed = ((get_start_msg parsed).protocol, (get_start_msg parsed).firmware_version)

unfoldable pub decoded_status : ResponseStatus → ℤ
decoded_status ResponseStatus.unset = negsuc 0
decoded_status ResponseStatus.status_success = pos 0
decoded_status ResponseStatus.failed_invalid_role = pos 1
decoded_status ResponseStatus.failed_not_ready = pos 2
decoded_status ResponseStatus.failed_generic = pos 3
decoded_status ResponseStatus.failed_vm_error = pos 4
decoded_status ResponseStatus.failed_error_code_returned = pos 5
decoded_status ResponseStatus.status_invalid_request = pos 6

unfoldable pub result_of : Option ResponseMessage → Option Bytes
result_of (some (ResponseMessage.result bytes)) = some bytes
result_of _ = none

unfoldable pub parse_result : RuntimeManagerResponse → Result TransportProtocolError (Option Bytes)
unfolding decoded_status result_of
parse_result response = elim response.status [
  | ResponseStatus.status_success ↦ ok (result_of response.message_oneof)
  | status ↦ err (response_status_error (decoded_status status))
]
