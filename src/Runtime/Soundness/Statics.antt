-- ===== src/Runtime/Soundness/Statics.antt =====
-- The statics of the runtime manager through the calls of the platform.
use veracruz.Base.{
  ℕ, ◌≡◌, refl, sym, subst, ◌∙◌, Option, none, some, Result, ok, ◌>>=◌, ◌>>◌, lift, String, List,
  Bool, true, false, if◌then◌else◌, lookup, insert, lookup-insert, lookup-remove, nat_eq, arith,
  Option-cases, inl, inr, modify,
}
use veracruz.Wasi.{Wasi}
use veracruz.Hoare.{
  Frame, Triple, Always, weaken, OnOk_trivial, Triple-bind, Triple-pure, Triple-lift, Triple-gets,
  Triple-ok_or,
}
use veracruz.Vfs.Impl.{Bytes}
use veracruz.Vfs.File.{Services}
use veracruz.Vfs.Integrity.Contents.{Anything}
use veracruz.Vfs.Soundness.Services.{AreSafe}
use veracruz.Policy.Contract.{Codecs, Policy, get_file_hash_table}
use veracruz.Transport.Messages.{Codec, RuntimeManagerRequest, RuntimeManagerResponse}
use veracruz.Session.Tls.{Tls}
use veracruz.Session.Context.{ContextExec}
use veracruz.Session.Context
use veracruz.Session.Connection.{Session, SessionExec}
use veracruz.Runtime.Protocol.{ProtocolState, Engine, RuntimeManagerError}
use veracruz.Runtime.Protocol
use veracruz.Runtime.Incoming.{GlobalsExec}
use veracruz.Runtime.Sessions
use veracruz.Runtime.Sessions.{Statics, StaticsExec, initial}
use veracruz.Runtime.Soundness.{IsInOrder, IsSafeEngine}
use veracruz.Runtime.Soundness.Whole.{with_digests-IsInOrder}
use veracruz.Runtime.Soundness.Globals.{IsRunning, GlobalsKeeps, dispatch_on_incoming_data-Keeps}

module _ ⦃t : Tls⦄ where
  -- No session comes up, and the counter stays.
  pub record OpensNone (a b : Statics) : Type 0 where
    pub counter : b.session_counter ≡ a.session_counter
    pub absent : (id : ℕ) → lookup id a.sessions ≡ none → lookup id b.sessions ≡ none

  pub OpensNone-refl : (a : Statics) → OpensNone a a
  OpensNone-refl a = record { counter = refl; absent = λ id h. h }

  pub OpensNone-trans : (a b c : Statics) → OpensNone a b → OpensNone b c → OpensNone a c
  OpensNone-trans a b c f g = record {
    counter = g.counter ∙ f.counter;
    absent = λ id h. g.absent id (f.absent id h);
  }

  abbrev pub statics_frame : Frame Statics
  statics_frame = record {
    Good = λ st. IsRunning st.globals.protocol_state;
    Rel = OpensNone;
    reflexive = OpensNone-refl;
    transitive = OpensNone-trans;
  }

  abbrev pub StaticsKeeps : {A : Type 0} → StaticsExec A → Type 0
  StaticsKeeps m = Triple statics_frame Always m Anything

  module _ {A : Type 0} {pre : Statics → Type 0} {m : StaticsExec A} where
    forget :
        {post : A → Statics → Type 0}
        → Triple statics_frame Always m post
        → Triple statics_frame pre m Anything
    forget h = weaken statics_frame pre Anything (λ s p. tt) (λ a s g q. tt) h

  step_then :
      {A B : Type 0} {m : StaticsExec A} {f : A → StaticsExec B}
      → StaticsKeeps m
      → ((a : A) → StaticsKeeps (f a))
      → StaticsKeeps (m >>= f)
  step_then h k = Triple-bind statics_frame Anything h k

  lift-Keeps : {A : Type 0} (r : Result RuntimeManagerError A) → StaticsKeeps (lift r)
  lift-Keeps r = forget (Triple-lift statics_frame Always r)

  -- A change that leaves the sessions, the counter and the protocol state alone.
  modify-Keeps :
      (f : Statics → Statics)
      → ((st : Statics) → (f st).session_counter ≡ st.session_counter)
      → ((st : Statics) → (f st).sessions ≡ st.sessions)
      → ((st : Statics) → (f st).globals ≡ st.globals)
      → StaticsKeeps (modify f)
  unfolding ◌>>=◌
  modify-Keeps f counter sessions globals = record {
    run = λ st good p. (
      subst (λ g. IsRunning g.protocol_state) (sym (globals st)) good,
      record { counter = counter st; absent = λ id h. rw (sessions st) h },
      tt,
    );
  }

  on_manager-Keeps :
      {A : Type 0} (name : String) (m : ContextExec A) → StaticsKeeps (Sessions.on_manager name m)
  unfolding Sessions.on_manager
  on_manager-Keeps name m = record {
    run = λ st good p. elim (Option-cases st.my_session_manager) [
      | inl e ↦
          rw (Sessions.on_manager, e) (good, record { counter = refl; absent = λ id h. h }, tt)
      | inr (context, e) ↦
          rw (Sessions.on_manager, e)
            (good, record { counter = refl; absent = λ id h. h }, OnOk_trivial _)
    ];
  }

  on_globals-Keeps :
      {A : Type 0} {m : GlobalsExec A} → GlobalsKeeps m → StaticsKeeps (Sessions.on_globals m)
  unfolding Sessions.on_globals
  on_globals-Keeps h = record {
    run = λ st good p.
        let (good', _, _) = h.run st.globals good tt in
        (good', record { counter = refl; absent = λ id h. h }, OnOk_trivial _);
  }

  pub close_session-Keeps : (id : ℕ) → StaticsKeeps (Sessions.close_session id)
  unfolding Sessions.close_session ◌>>=◌
  close_session-Keeps id = record {
    run = λ st good p. (
      good,
      record {
        counter = refl;
        absent = λ j h. ground (arith, lookup-remove id j st.sessions, nat_eq.beq_iff id j);
      },
      tt,
    );
  }

  replaced :
      (id j : ℕ) (session session' : Session) (sessions : List (ℕ × Session))
      → lookup id sessions ≡ some session
      → lookup j sessions ≡ none
      → lookup j (insert id session' sessions) ≡ none
  replaced id j session session' sessions there absent =
      ground (arith, lookup-insert id j session' sessions, nat_eq.beq_iff id j)

  on_session-Keeps :
      {A : Type 0} (id : ℕ) (m : SessionExec A) → StaticsKeeps (Sessions.on_session id m)
  unfolding Sessions.on_session
  on_session-Keeps id m = record {
    run = λ st good p. elim (Option-cases (lookup id st.sessions)) [
      | inl e ↦ rw (Sessions.on_session, e) (good, OpensNone-refl st, tt)
      | inr (session, e) ↦
          rw (Sessions.on_session, e)
            (
              good,
              record {
                counter = refl;
                absent = λ j h. replaced id j session (m session).1 st.sessions e h;
              },
              OnOk_trivial _,
            )
    ];
  }

  pub init-Keeps : StaticsKeeps Sessions.init_session_manager
  unfolding Sessions.init_session_manager
  init-Keeps =
      step_then (lift-Keeps _) (λ manager. modify-Keeps _ (λ st. refl) (λ st. refl) (λ st. refl))

  pub load_cert_chain-Keeps : (chain : List Bytes) → StaticsKeeps (Sessions.load_cert_chain chain)
  unfolding Sessions.load_cert_chain
  load_cert_chain-Keeps chain = on_manager-Keeps "load_cert_chain" _

  pub get_data-Keeps : (id : ℕ) → StaticsKeeps (Sessions.get_data id)
  unfolding Sessions.get_data
  get_data-Keeps id = step_then (on_session-Keeps id _) (λ result.
      step_then (forget (Triple-gets statics_frame Always _)) (λ active_flag.
        step_then (forget (Triple-ok_or statics_frame Always _ _))
          (λ output. forget (Triple-pure statics_frame Always _))))

  pub get_data_needed-Keeps : (id : ℕ) → StaticsKeeps (Sessions.get_data_needed id)
  unfolding Sessions.get_data_needed
  get_data_needed-Keeps id = on_session-Keeps id _

  pub generate_csr-Keeps : StaticsKeeps Sessions.generate_csr
  unfolding Sessions.generate_csr Sessions.get_enclave_private_key
  generate_csr-Keeps =
      step_then (on_manager-Keeps "get_enclave_private_key" _)
        (λ key. forget (Triple-ok_or statics_frame Always _ _))

  respond-Keeps : (id : ℕ) (o : Option Bytes) → StaticsKeeps (Sessions.respond id o)
  unfolding Sessions.respond
  respond-Keeps id none = forget (Triple-pure statics_frame Always tt)
  respond-Keeps id (some response) = on_session-Keeps id _

  module _ ⦃w : Wasi⦄ ⦃c : Codecs⦄ where
    -- A new protocol state is in order.
    new-IsInOrder :
        (policy : Policy) (hash : String) (state : ProtocolState)
        → Protocol.new policy hash ≡ ok state
        → IsInOrder state
    unfolding Protocol.new
    new-IsInOrder policy hash state made =
        (with_digests-IsInOrder policy hash state (get_file_hash_table policy) refl made).0

    set_state-Keeps :
        (policy : Policy) (hash : String) (state : ProtocolState)
        → Triple statics_frame
            (λ st. (Protocol.new policy hash ≡ ok state) × Always st)
            (modify {E = RuntimeManagerError} (Sessions.set_protocol_state state))
            Anything
    unfolding Sessions.set_protocol_state ◌>>=◌
    set_state-Keeps policy hash state = record {
      run = λ st good p.
          (new-IsInOrder policy hash state p.0, record { counter = refl; absent = λ id h. h }, tt);
    }

    install-Keeps :
        (policy : Policy) (hash : String)
        → StaticsKeeps (do
          state ← lift (Protocol.new policy hash)
          modify (Sessions.set_protocol_state state)
          Sessions.on_manager "session_manager_state" (Context.set_policy policy))
    install-Keeps policy hash =
        Triple-bind statics_frame (λ state st. (Protocol.new policy hash ≡ ok state) × Always st)
          (Triple-lift statics_frame Always (Protocol.new policy hash))
          (λ state.
            Triple-bind statics_frame Anything (set_state-Keeps policy hash state)
              (λ u. on_manager-Keeps "session_manager_state" (Context.set_policy policy)))

    debug-Keeps :
        (b : Bool) → StaticsKeeps (modify (λ st. if b then record st { debug_flag = true } else st))
    debug-Keeps true = modify-Keeps _ (λ st. refl) (λ st. refl) (λ st. refl)
    debug-Keeps false = modify-Keeps _ (λ st. refl) (λ st. refl) (λ st. refl)

    pub load_policy-Keeps : (json : String) → StaticsKeeps (Sessions.load_policy json)
    unfolding Sessions.load_policy
    load_policy-Keeps json =
        step_then (lift-Keeps _)
          (λ policy. step_then (debug-Keeps policy.debug) (λ u. install-Keeps policy _))

    module _ ⦃s : Services⦄ ⦃e : Engine⦄ ⦃d : Codec RuntimeManagerResponse⦄
        ⦃q : Codec RuntimeManagerRequest⦄ (safe : AreSafe s) (safe_engine : IsSafeEngine e) where
      process_plaintext-Keeps :
          (id : ℕ) (o : Option (ℕ × Bytes)) → StaticsKeeps (Sessions.process_plaintext id o)
      unfolding Sessions.process_plaintext
      process_plaintext-Keeps id none = forget (Triple-pure statics_frame Always tt)
      process_plaintext-Keeps id (some (client, bytes)) =
          step_then
            (on_globals-Keeps (dispatch_on_incoming_data-Keeps safe safe_engine id client bytes))
            (respond-Keeps id)

      pub send_data-Keeps : (id : ℕ) (input : Bytes) → StaticsKeeps (Sessions.send_data id input)
      unfolding Sessions.send_data
      send_data-Keeps id input = step_then (on_session-Keeps id _) (process_plaintext-Keeps id)
