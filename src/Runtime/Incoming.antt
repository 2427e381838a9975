-- ===== src/Runtime/Incoming.antt =====
-- runtime-manager/src/managers/execution_engine_manager.rs: what becomes of the bytes of a session,
-- and runtime-manager/src/managers/mod.rs: the encoding of the responses.
use veracruz.Base.{
  ◌>>=◌, none, some, ℕ, ok, err, abort, Option, Result, Exec, pure, lift, [], ◌∷◌, ◌%◌, ◌/◌, follow,
}
use veracruz.Wasi.{Wasi}
use veracruz.Vfs.Impl.{Bytes}
use veracruz.Vfs.File.{Services}
use veracruz.Policy.Contract.{Codecs}
use veracruz.Transport.Framing.{Buffers, TransportProtocolError, partial_buffer}
use veracruz.Transport.Messages.{
  Codec, Message, RuntimeManagerRequest, RuntimeManagerResponse, as_i32, status_success,
  status_invalid_request,
}
use veracruz.Transport.Serializing.{serialize_result, serialize_policy_hash, serialize_pi_hash}
use veracruz.Transport.Parsing.{parse_runtime_manager_request}
use veracruz.Runtime.Protocol.{
  ProtocolState, Engine, Response, RuntimeManagerError, success, error_code_returned,
  failed_invalid_request, policy_hash, pi_hash, accepted, transport_protocol_error,
}
use veracruz.Runtime.Dispatch.{dispatch_on_request}

-- The statics that the requests of sessions read and write.
pub record Globals : Type 0 where
  pub protocol_state : Option ProtocolState
  pub incoming_buffers : Buffers

-- `u32::to_le_bytes`
unfoldable pub to_le_bytes : ℕ → Bytes
to_le_bytes n = n % 256 ∷ n / 256 % 256 ∷ n / 65536 % 256 ∷ n / 16777216 % 256 ∷ []

-- `serialize_…(..)?`, and `serialize_…(..).unwrap_or_else(|err| panic!(..))`
unfoldable pub from_transport :
    {A : Type 0} → Result TransportProtocolError A → Result RuntimeManagerError A
from_transport (ok a) = ok a
from_transport (err e) = err (transport_protocol_error e)
from_transport abort = abort

unfoldable pub or_panic : Result TransportProtocolError Bytes → Result RuntimeManagerError Bytes
or_panic (ok bytes) = ok bytes
or_panic _ = abort

module _ ⦃c : Codecs⦄ ⦃d : Codec RuntimeManagerResponse⦄ where
  -- `response_success`, `response_error_code_returned`, `response_invalid_request` and the calls of
  -- the serializers in the dispatch.
  unfoldable pub encode : Response → Result RuntimeManagerError Bytes
  unfolding to_le_bytes from_transport or_panic
  encode (success data_opt) = or_panic (serialize_result (as_i32 status_success) data_opt)
  encode accepted = from_transport (serialize_result (as_i32 status_success) none)
  encode (error_code_returned error_code) =
      or_panic (serialize_result (as_i32 status_success) (some (to_le_bytes error_code)))
  encode failed_invalid_request =
      from_transport (serialize_result (as_i32 status_invalid_request) none)
  encode (policy_hash hash) = from_transport (serialize_policy_hash (c.as_bytes hash))
  encode (pi_hash text) = from_transport (serialize_pi_hash (c.as_bytes text))

abbrev pub GlobalsExec : Type 0 → Type 0
GlobalsExec A = Exec RuntimeManagerError Globals A

module _ ⦃q : Codec RuntimeManagerRequest⦄ where
  -- A buffer that is partial is no error.
  unfoldable pub tolerate :
      Result TransportProtocolError RuntimeManagerRequest
      → Result RuntimeManagerError (Option RuntimeManagerRequest)
  tolerate (ok v) = ok (some v)
  tolerate abort = abort
  tolerate (err (partial_buffer id)) = ok none
  tolerate (err e) = err (transport_protocol_error e)

  unfoldable pub parse_incoming_buffer : ℕ → Bytes → GlobalsExec (Option RuntimeManagerRequest)
  unfolding tolerate
  parse_incoming_buffer tls_session_id input g =
      let (r, buffers) =
        parse_runtime_manager_request (some tls_session_id) input g.incoming_buffers in
      (tolerate r, record g { incoming_buffers = buffers })

module _ ⦃w : Wasi⦄ ⦃s : Services⦄ ⦃c : Codecs⦄ ⦃e : Engine⦄
    ⦃d : Codec RuntimeManagerResponse⦄ where
  unfoldable pub encode_option : Option Response → Result RuntimeManagerError (Option Bytes)
  encode_option none = ok none
  encode_option (some response) = elim (encode response) [
    | ok bytes ↦ ok (some bytes)
    | err e ↦ err e
    | abort ↦ abort
  ]

  -- `dispatch_on_request` with its encoded response.
  unfoldable pub answer_request : ℕ → Message → GlobalsExec (Option Bytes)
  answer_request client_id request g =
      let (r, state) = dispatch_on_request client_id request g.protocol_state in
      follow (r, record g { protocol_state = state }) (λ response. lift (encode_option response))

  unfoldable pub answer : ℕ → Option RuntimeManagerRequest → GlobalsExec (Option Bytes)
  answer client_id none = pure none
  answer client_id (some request) = elim request.message_oneof [
    | none ↦ lift (encode_option (some failed_invalid_request))
    | some m ↦ answer_request client_id m
  ]

  unfoldable pub dispatch_on_incoming_data :
      ⦃q : Codec RuntimeManagerRequest⦄ → ℕ → ℕ → Bytes → GlobalsExec (Option Bytes)
  dispatch_on_incoming_data tls_session_id client_id input = do
    request ← parse_incoming_buffer tls_session_id input
    answer client_id request
