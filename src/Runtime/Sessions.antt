-- ===== src/Runtime/Sessions.antt =====
-- runtime-manager/src/managers/session_manager.rs: the statics of the runtime manager, and the calls
-- that the platform makes.
use veracruz.Base.{
  ◌>>=◌, ◌>>◌, none, some, ℕ, ok, err, abort, Bool, true, false, Option, String, Result, Exec, Map,
  pure, lift, gets, modify, ok_or, [], List, if◌then◌else◌, lookup, insert, remove, nat_eq, ◌+◌,
  ◌%◌, ◌^◌,
}
use veracruz.Wasi.{Wasi}
use veracruz.Vfs.Impl.{Bytes}
use veracruz.Vfs.File.{Services}
use veracruz.Policy.Principal.{PolicyError}
use veracruz.Policy.Contract.{Codecs, from_json}
use veracruz.Transport.Messages.{Codec, RuntimeManagerRequest, RuntimeManagerResponse}
use veracruz.Session.Tls.{Tls}
use veracruz.Session.Context
use veracruz.Session.Context.{SessionContext, SessionManagerError, ContextExec}
use veracruz.Session.Connection
use veracruz.Session.Connection.{Session, SessionExec}
use veracruz.Runtime.Protocol
use veracruz.Runtime.Protocol.{
  Engine, RuntimeManagerError, session_manager_error, policy_error, uninitialized_session_error,
  unavailable_session_error, no_data_error, cert_error,
}
use veracruz.Runtime.Incoming.{Globals, GlobalsExec, dispatch_on_incoming_data}

-- `From<SessionManagerError>` and `From<PolicyError>`, which `?` applies.
unfoldable pub from_session :
    {A : Type 0} → Result SessionManagerError A → Result RuntimeManagerError A
from_session (ok a) = ok a
from_session (err e) = err (session_manager_error e)
from_session abort = abort

unfoldable pub from_policy : {A : Type 0} → Result PolicyError A → Result RuntimeManagerError A
from_policy (ok a) = ok a
from_policy (err e) = err (policy_error e)
from_policy abort = abort

module _ ⦃t : Tls⦄ where
  pub record Statics : Type 0 where
    pub my_session_manager : Option SessionContext
    pub session_counter : ℕ
    pub sessions : Map ℕ Session
    pub globals : Globals
    pub debug_flag : Bool

  abbrev pub StaticsExec : Type 0 → Type 0
  StaticsExec A = Exec RuntimeManagerError Statics A

  abbrev pub initial : Statics
  initial = record {
    my_session_manager = none;
    session_counter = 1;
    sessions = [];
    globals = record { protocol_state = none; incoming_buffers = [] };
    debug_flag = false;
  }

  unfoldable pub init_session_manager : StaticsExec Unit
  unfolding from_session
  init_session_manager = do
    new_session_manager ← lift (from_session Context.new)
    modify (λ st. record st { my_session_manager = some new_session_manager })

  -- A call of the session manager, which may not be there.
  unfoldable pub on_manager : {A : Type 0} → String → ContextExec A → StaticsExec A
  unfolding from_session
  on_manager function m st = elim st.my_session_manager [
    | none ↦ (err (uninitialized_session_error function), st)
    | some context ↦
        let (r, context') = m context in
        (from_session r, record st { my_session_manager = some context' })
  ]

  unfoldable pub set_protocol_state : Protocol.ProtocolState → Statics → Statics
  set_protocol_state state st = record st {
    globals = record st.globals { protocol_state = some state };
  }

  module _ ⦃w : Wasi⦄ ⦃c : Codecs⦄ where
    -- The protocol state is there also where the session manager is not.
    unfoldable pub load_policy : String → StaticsExec Unit
    unfolding on_manager set_protocol_state from_policy
    load_policy policy_json = do
      policy ← lift (from_policy (from_json policy_json))
      modify (λ st. if policy.debug then record st { debug_flag = true } else st)
      state ← lift (Protocol.new policy (c.hex_encode (c.sha256 (c.as_bytes policy_json))))
      modify (set_protocol_state state)
      on_manager "session_manager_state" (Context.set_policy policy)

  unfoldable pub load_cert_chain : List Bytes → StaticsExec Unit
  unfolding on_manager
  load_cert_chain chain = on_manager "load_cert_chain" (Context.set_cert_chain chain)

  -- The counter, a `u32`, goes on also where there is no session in the end.
  unfoldable pub new_session : StaticsExec ℕ
  unfolding from_session
  new_session = do
    local_session_id ← gets (λ st. st.session_counter)
    modify (λ st. record st { session_counter = (st.session_counter + 1) % 2 ^ 32 })
    manager ← gets (λ st. st.my_session_manager)
    my_session_manager ← ok_or (uninitialized_session_error "new_session") manager
    session ← lift (from_session (Connection.create_session my_session_manager))
    modify (λ st. record st { sessions = insert local_session_id session st.sessions })
    pure local_session_id

  unfoldable pub close_session : ℕ → StaticsExec Unit
  close_session session_id = modify (λ st. record st { sessions = remove session_id st.sessions })

  -- A call of a session, whose state is kept in any case.
  unfoldable pub on_session : {A : Type 0} → ℕ → SessionExec A → StaticsExec A
  unfolding from_session
  on_session session_id m st = elim (lookup session_id st.sessions) [
    | none ↦ (err (unavailable_session_error session_id), st)
    | some session ↦
        let (r, session') = m session in
        (from_session r, record st { sessions = insert session_id session' st.sessions })
  ]

  unfoldable pub on_globals : {A : Type 0} → GlobalsExec A → StaticsExec A
  on_globals m st = let (r, g) = m st.globals in (r, record st { globals = g })

  unfoldable pub respond : ℕ → Option Bytes → StaticsExec Unit
  unfolding on_session
  respond session_id none = pure tt
  respond session_id (some response) = on_session session_id (Connection.return_data response)

  module _ ⦃w : Wasi⦄ ⦃s : Services⦄ ⦃c : Codecs⦄ ⦃e : Engine⦄ ⦃d : Codec RuntimeManagerResponse⦄
      ⦃q : Codec RuntimeManagerRequest⦄ where
    -- The plaintext that came, if any, with the client that sent it.
    unfoldable pub process_plaintext : ℕ → Option (ℕ × Bytes) → StaticsExec Unit
    unfolding on_globals respond
    process_plaintext session_id none = pure tt
    process_plaintext session_id (some (client_id, plaintext_data)) = do
      proc_ret ← on_globals (dispatch_on_incoming_data session_id client_id plaintext_data)
      respond session_id proc_ret

    unfoldable pub send_data : ℕ → Bytes → StaticsExec Unit
    unfolding process_plaintext on_session
    send_data session_id input_data = do
      plaintext_option ←
          on_session session_id
            (do Connection.send_tls_data input_data; Connection.read_plaintext_data)
      process_plaintext session_id plaintext_option

  unfoldable pub is_some : Option Protocol.ProtocolState → Bool
  is_some none = false
  is_some (some state) = true

  unfoldable pub get_data : ℕ → StaticsExec (Bool × Bytes)
  unfolding on_session is_some
  get_data session_id = do
    result ← on_session session_id Connection.read_tls_data
    active_flag ← gets (λ st. is_some st.globals.protocol_state)
    output_data ← ok_or no_data_error result
    pure (active_flag, output_data)

  unfoldable pub get_data_needed : ℕ → StaticsExec Bool
  unfolding on_session
  get_data_needed session_id = on_session session_id (gets Connection.read_tls_needed)

  unfoldable pub get_enclave_private_key : StaticsExec Bytes
  unfolding on_manager
  get_enclave_private_key = on_manager "get_enclave_private_key" (gets (λ c. c.server_private_key))

  unfoldable pub generate_csr : StaticsExec Bytes
  generate_csr = do
    private_key_der ← get_enclave_private_key
    ok_or cert_error (t.generate_csr private_key_der)
