-- ===== src/Runtime/Dispatch.antt =====
-- runtime-manager/src/managers/execution_engine_manager.rs: the dispatch of a decoded request.
-- The responses are encoded by the caller, `Runtime.Incoming`.
use veracruz.Base.{
  ◌>>=◌, ◌>>◌, none, pure, ℕ, err, Option, String, Exec, gets, some, modify, if◌then◌else◌,
}
use veracruz.Wasi.{Wasi}
use veracruz.Vfs.Impl.{Bytes}
use veracruz.Vfs.File.{Services}
use veracruz.Policy.Principal.{Principal}
use veracruz.Policy.Contract.{Codecs}
use veracruz.Transport.Messages.{
  Message, write_file, append_file, request_pi_hash, request_policy_hash, request_result,
  request_shutdown, read_file, request_proxy_psa_attestation_token, psa_attestation_init,
}
use veracruz.Runtime.Protocol
use veracruz.Runtime.Protocol.{
  ProtocolState, StateExec, Engine, Response, RuntimeManagerError, success, accepted,
  failed_invalid_request, policy_hash, pi_hash, uninitialized_protocol_state,
}

-- `PROTOCOL_STATE`, which is nothing before the policy is there and after a shutdown.
abbrev pub GlobalExec : Type 0 → Type 0
GlobalExec A = Exec RuntimeManagerError (Option ProtocolState) A

unfoldable pub dispatch_on_policy_hash : StateExec (Option Response)
dispatch_on_policy_hash = gets (λ p. some (policy_hash (Protocol.get_policy_hash p)))

module _ ⦃w : Wasi⦄ ⦃e : Engine⦄ where
  unfoldable pub dispatch_on_result : ℕ → String → StateExec (Option Response)
  dispatch_on_result client_id file_name =
      Protocol.execute (Principal.participant client_id) file_name

module _ ⦃w : Wasi⦄ where
  unfoldable pub dispatch_on_read : ℕ → String → StateExec (Option Response)
  dispatch_on_read client_id file_name = do
    result ← Protocol.read_file (Principal.participant client_id) file_name
    pure (some (success result))

module _ ⦃w : Wasi⦄ ⦃s : Services⦄ where
  module _ ⦃c : Codecs⦄ where
    unfoldable pub dispatch_on_write : ℕ → String → Bytes → StateExec (Option Response)
    dispatch_on_write client_id file_name file_contents = do
      Protocol.write_file (Principal.participant client_id) file_name file_contents
      pure (some accepted)

  unfoldable pub dispatch_on_append : ℕ → String → Bytes → StateExec (Option Response)
  dispatch_on_append client_id file_name file_contents = do
    Protocol.append_file (Principal.participant client_id) file_name file_contents
    pure (some accepted)

module _ {A : Type 0} where
  -- `protocol_state_guard.as_mut().ok_or(..)?`
  unfoldable pub with_state : StateExec A → GlobalExec A
  with_state m none = (err uninitialized_protocol_state, none)
  with_state m (some p) = let (r, q) = m p in (r, some q)

-- The state is dropped where the client may stop the computation.
unfoldable pub dispatch_on_shutdown : ℕ → GlobalExec (Option Response)
dispatch_on_shutdown client_id = do
  is_dead ← with_state (Protocol.request_and_check_shutdown client_id)
  modify (λ g. if is_dead then none else g)
  pure (some (success none))

module _ ⦃w : Wasi⦄ ⦃s : Services⦄ ⦃c : Codecs⦄ ⦃e : Engine⦄ where
  unfoldable pub dispatch_on_request : ℕ → Message → GlobalExec (Option Response)
  dispatch_on_request id (write_file sent) =
      with_state (dispatch_on_write id sent.file_name sent.data_bytes)
  dispatch_on_request id (append_file sent) =
      with_state (dispatch_on_append id sent.file_name sent.data_bytes)
  dispatch_on_request id (request_pi_hash name) = with_state (pure (some (pi_hash "deprecated")))
  dispatch_on_request id request_policy_hash = with_state dispatch_on_policy_hash
  dispatch_on_request id (request_result name) = with_state (dispatch_on_result id name)
  dispatch_on_request id request_shutdown = dispatch_on_shutdown id
  dispatch_on_request id (read_file name) = with_state (dispatch_on_read id name)
  dispatch_on_request id (request_proxy_psa_attestation_token challenge) =
      with_state (pure (some failed_invalid_request))
  dispatch_on_request id (psa_attestation_init init) =
      with_state (pure (some failed_invalid_request))
