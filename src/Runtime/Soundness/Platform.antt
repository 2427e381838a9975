-- ===== src/Runtime/Soundness/Platform.antt =====
-- runtime-manager/src/managers/session_manager.rs: sequences of the calls that the platform makes.
use veracruz.Base.{
  ℕ, ◌≡◌, ◌≢◌, refl, sym, subst, Option, none, some, Result, ok, err, abort, ◌>>=◌, String, List,
  [], ◌∷◌, lookup, insert, lookup-insert, nat_eq, arith, ◌<◌, ◌≤◌, ◌+◌, ◌%◌, ◌^◌, length,
}
use veracruz.Wasi.{Wasi}
use veracruz.Vfs.Impl.{Bytes}
use veracruz.Vfs.File.{Services}
use veracruz.Vfs.Soundness.Services.{AreSafe}
use veracruz.Policy.Contract.{Codecs}
use veracruz.Transport.Messages.{Codec, RuntimeManagerRequest, RuntimeManagerResponse}
use veracruz.Session.Tls.{Tls}
use veracruz.Session.Context.{SessionContext, SessionManagerError}
use veracruz.Session.Connection
use veracruz.Session.Connection.{Session}
use veracruz.Runtime.Protocol.{Engine}
use veracruz.Runtime.Sessions
use veracruz.Runtime.Sessions.{Statics, StaticsExec, initial}
use veracruz.Runtime.Soundness.{IsSafeEngine}
use veracruz.Runtime.Soundness.Globals.{IsRunning}
use veracruz.Runtime.Soundness.Statics.{
  StaticsKeeps, init-Keeps, load_cert_chain-Keeps, get_data-Keeps, get_data_needed-Keeps,
  generate_csr-Keeps, load_policy-Keeps, send_data-Keeps, close_session-Keeps,
}

pub data Call : Type 0 where
  init_session_manager : Call
  load_policy : String → Call
  load_cert_chain : List Bytes → Call
  new_session : Call
  close_session : ℕ → Call
  send_data : ℕ → Bytes → Call
  get_data : ℕ → Call
  get_data_needed : ℕ → Call
  generate_csr : Call

module _ ⦃t : Tls⦄ where
  -- No session has a number that the counter is still to give, and the protocol state, where there
  -- is one, is in order.
  pub record IsOrderly (st : Statics) : Type 0 where
    pub running : IsRunning st.globals.protocol_state
    pub numbered : (id : ℕ) → st.session_counter ≤ id → lookup id st.sessions ≡ none

  -- What `new_session` does in any case.
  record Opens (a b : Statics) : Type 0 where
    pub globals : b.globals ≡ a.globals
    pub counter : b.session_counter ≡ (a.session_counter + 1) % 2 ^ 32
    pub absent :
        (id : ℕ)
        → id ≢ a.session_counter
        → lookup id a.sessions ≡ none
        → lookup id b.sessions ≡ none

  insert_absent :
      (id j : ℕ) (v : Session) (m : List (ℕ × Session))
      → id ≢ j
      → lookup id m ≡ none
      → lookup id (insert j v m) ≡ none
  insert_absent id j v m other absent = ground (arith, lookup-insert j id v m, nat_eq.beq_iff j id)

  new_session-Opens : (st : Statics) → Opens st (Sessions.new_session st).1
  unfolding Sessions.new_session Sessions.from_session ◌>>=◌
  new_session-Opens st = manager st.my_session_manager refl
    where
      session :
          (context : SessionContext) (r : Result SessionManagerError Session)
          → st.my_session_manager ≡ some context
          → Connection.create_session context ≡ r
          → Opens st (Sessions.new_session st).1
      session context (ok opened) e f =
          rw (e, f)
            (record {
              globals = refl;
              counter = refl;
              absent = λ id other h. insert_absent id st.session_counter opened st.sessions other h;
            })
      session context (err x) e f =
          rw (e, f) (record { globals = refl; counter = refl; absent = λ id other h. h })
      session context abort e f =
          rw (e, f) (record { globals = refl; counter = refl; absent = λ id other h. h })

      manager :
          (o : Option SessionContext)
          → st.my_session_manager ≡ o
          → Opens st (Sessions.new_session st).1
      manager none e = rw e (record { globals = refl; counter = refl; absent = λ id other h. h })
      manager (some context) e = session context (Connection.create_session context) e refl

  -- Where the counter does not wrap around, an opened session keeps the statics orderly.
  Opens-IsOrderly :
      (a b : Statics)
      → IsOrderly a
      → a.session_counter + 1 < 2 ^ 32
      → Opens a b
      → IsOrderly b × (b.session_counter ≤ a.session_counter + 1)
  Opens-IsOrderly a b orderly small opens =
      let counter : b.session_counter ≡ a.session_counter + 1 = omega (arith, opens.counter) in
      (
        record {
          running = subst (λ g. IsRunning g.protocol_state) (sym opens.globals) orderly.running;
          numbered = λ id h. opens.absent id (λ e. omega arith) (orderly.numbered id (omega arith));
        },
        omega arith,
      )

  keeps-IsOrderly :
      {A : Type 0} {m : StaticsExec A} (a : Statics)
      → StaticsKeeps m
      → IsOrderly a
      → IsOrderly (m a).1 × ((m a).1.session_counter ≤ a.session_counter + 1)
  keeps-IsOrderly a h orderly =
      let (running, rel, _) = h.run a orderly.running tt in
      (
        record {
          running = running;
          numbered = λ id le. rel.absent id (orderly.numbered id (omega (arith, rel.counter)));
        },
        omega (arith, rel.counter),
      )

  module _ ⦃w : Wasi⦄ ⦃s : Services⦄ ⦃c : Codecs⦄ ⦃e : Engine⦄ ⦃d : Codec RuntimeManagerResponse⦄
      ⦃q : Codec RuntimeManagerRequest⦄ where
    -- The statics after a call, whatever it returns.
    unfoldable pub perform : Call → Statics → Statics
    perform init_session_manager st = (Sessions.init_session_manager st).1
    perform (load_policy json) st = (Sessions.load_policy json st).1
    perform (load_cert_chain chain) st = (Sessions.load_cert_chain chain st).1
    perform new_session st = (Sessions.new_session st).1
    perform (close_session id) st = (Sessions.close_session id st).1
    perform (send_data id bytes) st = (Sessions.send_data id bytes st).1
    perform (get_data id) st = (Sessions.get_data id st).1
    perform (get_data_needed id) st = (Sessions.get_data_needed id st).1
    perform generate_csr st = (Sessions.generate_csr st).1

    unfoldable pub perform_all : List Call → Statics → Statics
    unfolding perform
    perform_all [] st = st
    perform_all (call ∷ calls) st = perform_all calls (perform call st)

    module _ (safe : AreSafe s) (safe_engine : IsSafeEngine e) where
      perform-IsOrderly :
          (call : Call) (st : Statics)
          → IsOrderly st
          → st.session_counter + 1 < 2 ^ 32
          → IsOrderly (perform call st)
            × ((perform call st).session_counter ≤ st.session_counter + 1)
      unfolding perform
      perform-IsOrderly init_session_manager st o small = keeps-IsOrderly st init-Keeps o
      perform-IsOrderly (load_policy json) st o small =
          keeps-IsOrderly st (load_policy-Keeps json) o
      perform-IsOrderly (load_cert_chain chain) st o small =
          keeps-IsOrderly st (load_cert_chain-Keeps chain) o
      perform-IsOrderly new_session st o small = Opens-IsOrderly st _ o small (new_session-Opens st)
      perform-IsOrderly (close_session id) st o small =
          keeps-IsOrderly st (close_session-Keeps id) o
      perform-IsOrderly (send_data id bytes) st o small =
          keeps-IsOrderly st (send_data-Keeps safe safe_engine id bytes) o
      perform-IsOrderly (get_data id) st o small = keeps-IsOrderly st (get_data-Keeps id) o
      perform-IsOrderly (get_data_needed id) st o small =
          keeps-IsOrderly st (get_data_needed-Keeps id) o
      perform-IsOrderly generate_csr st o small = keeps-IsOrderly st generate_csr-Keeps o

      all-IsOrderly :
          (calls : List Call) (st : Statics)
          → IsOrderly st
          → st.session_counter + length calls < 2 ^ 32
          → IsOrderly (perform_all calls st)
      unfolding perform_all
      all-IsOrderly [] st o small = o
      all-IsOrderly (call ∷ calls) st o small =
          let (o', bound) = perform-IsOrderly call st o (omega arith) in
          all-IsOrderly calls (perform call st) o' (omega arith)

-- Whatever calls the platform makes from the start of the runtime manager, with any arguments, in any
-- order and whether they succeed or fail (fewer than 2 ^ 32 - 1 of them, and with services and an
-- engine that leave handles sound): no session has a number that is still to be given, and the
-- protocol state, where there is one, is in order, so its handle of the file system is sound.
pub perform_all-IsOrderly :
    ⦃t : Tls⦄ ⦃w : Wasi⦄ ⦃s : Services⦄ ⦃c : Codecs⦄ ⦃e : Engine⦄ ⦃d : Codec RuntimeManagerResponse⦄
    ⦃q : Codec RuntimeManagerRequest⦄
    → AreSafe s
    → IsSafeEngine e
    → (calls : List Call) → 1 + length calls < 2 ^ 32
    → IsOrderly (perform_all calls initial)
unfolding lookup
perform_all-IsOrderly safe safe_engine calls small =
    all-IsOrderly safe safe_engine calls initial (record { running = tt; numbered = λ id h. refl })
      small
