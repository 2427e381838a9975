-- ===== src/Transport/Serializing.antt =====
-- transport-protocol/src/custom.rs: the functions that make a message, encode it and frame it.
use veracruz.Base.{none, some, Option, String, err, [], ◌∷◌, ℕ, ℤ}
use veracruz.Vfs.Impl.{Bytes}
use veracruz.Transport.Framing.{
  TransportProtocolResult, protobuf_error, response_status_error, set_length_prefix,
}
use veracruz.Transport.Messages.{
  Data, StartMsg, NitroAttestationDoc, CertChain, PsaAttestationInit, ProxyPsaAttestationToken,
  NativePsaAttestationToken, Codec, Message, ResponseMessage, AttestationRequest,
  AttestationResponse, RuntimeManagerRequest, RuntimeManagerResponse, ProxyAttestationServerRequest,
  ProxyAttestationServerResponse, status_success, from_i32, new_runtime_request,
  new_runtime_response, new_attestation_request, new_attestation_response,
}

module _ {M : Type 0} ⦃c : Codec M⦄ where
  -- `let mut buffer = m.write_to_bytes()?; set_length_prefix(&mut buffer)`
  unfoldable pub serialize : M → TransportProtocolResult
  serialize m = elim (c.write_to_bytes m) [
    | none ↦ err protobuf_error
    | some buffer ↦ set_length_prefix buffer
  ]

module _ ⦃c : Codec RuntimeManagerRequest⦄ where
  unfoldable pub serialize_program : Bytes → String → TransportProtocolResult
  unfolding serialize
  serialize_program program_buffer file_name =
      let program : Data = record { file_name = file_name; data_bytes = program_buffer } in
      serialize (record new_runtime_request { message_oneof = some (Message.write_file program) })

  unfoldable pub serialize_program_data : Bytes → String → TransportProtocolResult
  unfolding serialize
  serialize_program_data data_buffer file_name =
      let contents : Data = record { file_name = file_name; data_bytes = data_buffer } in
      serialize (record new_runtime_request { message_oneof = some (Message.write_file contents) })

  unfoldable pub serialize_write_file : Bytes → String → TransportProtocolResult
  unfolding serialize
  serialize_write_file data_buffer file_name =
      let contents : Data = record { file_name = file_name; data_bytes = data_buffer } in
      serialize (record new_runtime_request { message_oneof = some (Message.write_file contents) })

  unfoldable pub serialize_read_file : String → TransportProtocolResult
  unfolding serialize
  serialize_read_file file_name =
      serialize (record new_runtime_request { message_oneof = some (Message.read_file file_name) })

  unfoldable pub serialize_stream : Bytes → String → TransportProtocolResult
  unfolding serialize
  serialize_stream data_buffer file_name =
      let contents : Data = record { file_name = file_name; data_bytes = data_buffer } in
      serialize (record new_runtime_request { message_oneof = some (Message.append_file contents) })

  unfoldable pub serialize_request_result : String → TransportProtocolResult
  unfolding serialize
  serialize_request_result file_name =
      serialize
        (record new_runtime_request { message_oneof = some (Message.request_result file_name) })

  unfoldable pub serialize_request_shutdown : TransportProtocolResult
  unfolding serialize
  serialize_request_shutdown =
      serialize (record new_runtime_request { message_oneof = some Message.request_shutdown })

  unfoldable pub serialize_request_proxy_psa_attestation_token : Bytes → TransportProtocolResult
  unfolding serialize
  serialize_request_proxy_psa_attestation_token challenge = serialize (record new_runtime_request {
    message_oneof = some (Message.request_proxy_psa_attestation_token challenge);
  })

  unfoldable pub serialize_request_pi_hash : String → TransportProtocolResult
  unfolding serialize
  serialize_request_pi_hash file_name =
      serialize
        (record new_runtime_request { message_oneof = some (Message.request_pi_hash file_name) })

  unfoldable pub serialize_request_policy_hash : TransportProtocolResult
  unfolding serialize
  serialize_request_policy_hash =
      serialize (record new_runtime_request { message_oneof = some Message.request_policy_hash })

module _ ⦃c : Codec ProxyAttestationServerRequest⦄ where
  unfoldable pub serialize_proxy_psa_attestation_token : Bytes → Bytes → ℤ → TransportProtocolResult
  unfolding serialize
  serialize_proxy_psa_attestation_token token pubkey device_id =
      let pat_proto : ProxyPsaAttestationToken = record {
        token = token;
        pubkey = pubkey;
        device_id = device_id;
      } in
      serialize (record new_attestation_request {
        message_oneof = some (AttestationRequest.proxy_psa_attestation_token pat_proto);
      })

  unfoldable pub serialize_native_psa_attestation_token :
      Bytes → Bytes → ℤ → TransportProtocolResult
  unfolding serialize
  serialize_native_psa_attestation_token token csr device_id =
      let pat_proto : NativePsaAttestationToken = record {
        token = token;
        csr = csr;
        device_id = device_id;
      } in
      serialize (record new_attestation_request {
        message_oneof = some (AttestationRequest.native_psa_attestation_token pat_proto);
      })

  unfoldable pub serialize_nitro_attestation_doc : Bytes → ℤ → TransportProtocolResult
  unfolding serialize
  serialize_nitro_attestation_doc doc device_id =
      let nad_proto : NitroAttestationDoc = record { doc = doc; device_id = device_id } in
      serialize (record new_attestation_request {
        message_oneof = some (AttestationRequest.nitro_attestation_doc nad_proto);
      })

  unfoldable pub serialize_start_msg : String → String → TransportProtocolResult
  unfolding serialize
  serialize_start_msg protocol firmware_version =
      let start_msg : StartMsg = record {
        protocol = protocol;
        firmware_version = firmware_version;
      } in
      serialize (record new_attestation_request {
        message_oneof = some (AttestationRequest.start_msg start_msg);
      })

module _ ⦃c : Codec ProxyAttestationServerResponse⦄ where
  unfoldable pub serialize_cert_chain : Bytes → Bytes → TransportProtocolResult
  unfolding serialize
  serialize_cert_chain enclave_cert root_cert =
      let chain : CertChain = record { root_cert = root_cert; enclave_cert = enclave_cert } in
      serialize (record new_attestation_response {
        message_oneof = some (AttestationResponse.cert_chain chain);
      })

  unfoldable pub serialize_psa_attestation_init : Bytes → ℤ → TransportProtocolResult
  unfolding serialize
  serialize_psa_attestation_init challenge device_id =
      let pai : PsaAttestationInit = record { challenge = challenge; device_id = device_id } in
      serialize (record new_attestation_response {
        message_oneof = some (AttestationResponse.psa_init pai);
      })

-- The body is set where there are data.
unfoldable pub result_body : Option Bytes → Option ResponseMessage
result_body none = none
result_body (some bytes) = some (ResponseMessage.result bytes)

module _ ⦃c : Codec RuntimeManagerResponse⦄ where
  unfoldable pub serialize_certificate : Bytes → TransportProtocolResult
  unfolding serialize
  serialize_certificate cert =
      serialize (record new_runtime_response { message_oneof = some (ResponseMessage.cert cert) })

  unfoldable pub serialize_machine_state : ℕ → TransportProtocolResult
  unfolding serialize
  serialize_machine_state machine_state = serialize (record new_runtime_response {
    status = status_success;
    message_oneof = some (ResponseMessage.state (machine_state ∷ []));
  })

  unfoldable pub serialize_pi_hash : Bytes → TransportProtocolResult
  unfolding serialize
  serialize_pi_hash hash = serialize (record new_runtime_response {
    status = status_success;
    message_oneof = some (ResponseMessage.pi_hash hash);
  })

  unfoldable pub serialize_policy_hash : Bytes → TransportProtocolResult
  unfolding serialize
  serialize_policy_hash hash = serialize (record new_runtime_response {
    status = status_success;
    message_oneof = some (ResponseMessage.policy_hash hash);
  })

  unfoldable pub serialize_empty_response : ℤ → TransportProtocolResult
  unfolding serialize from_i32
  serialize_empty_response status = elim (from_i32 status) [
    | none ↦ err (response_status_error status)
    | some encoded_status ↦ serialize (record new_runtime_response { status = encoded_status })
  ]

  unfoldable pub serialize_result : ℤ → Option Bytes → TransportProtocolResult
  unfolding serialize from_i32 result_body
  serialize_result status data_opt = elim (from_i32 status) [
    | none ↦ err (response_status_error status)
    | some encoded_status ↦ serialize (record new_runtime_response {
      status = encoded_status;
      message_oneof = result_body data_opt;
    })
  ]
