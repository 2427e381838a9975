-- ===== src/Runtime/Soundness/Fresh.antt =====
-- runtime-manager/src/managers/session_manager.rs, new_session: the number of a new session.
use veracruz.Base.{
  ℕ, ◌≡◌, ◌≢◌, refl, sym, ap, ◌∙◌, Option, none, some, Result, ok, err, abort, ◌>>=◌, List, lookup,
  insert, lookup-insert, nat_eq, arith, ◌<◌, ◌+◌, ◌%◌, ◌^◌, length, lookup-insert_self,
}
use veracruz.Wasi.{Wasi}
use veracruz.Vfs.File.{Services}
use veracruz.Vfs.Soundness.Services.{AreSafe}
use veracruz.Policy.Contract.{Codecs}
use veracruz.Transport.Messages.{Codec, RuntimeManagerRequest, RuntimeManagerResponse}
use veracruz.Session.Tls.{Tls}
use veracruz.Session.Context.{SessionContext, SessionManagerError}
use veracruz.Session.Connection
use veracruz.Session.Connection.{Session}
use veracruz.Runtime.Protocol.{Engine}
use veracruz.Runtime.Sessions
use veracruz.Runtime.Sessions.{Statics, StaticsExec, initial}
use veracruz.Runtime.Soundness.{IsSafeEngine}
use veracruz.Runtime.Soundness.Platform.{Call, IsOrderly, perform_all, perform_all-IsOrderly}

-- In an orderly state, a new session has the number of no open session.
new_session_orderly :
    ⦃t : Tls⦄ (st st' : Statics) (id : ℕ)
    → IsOrderly st
    → Sessions.new_session st ≡ (ok id, st')
    → (lookup id st.sessions ≡ none)
      × (((session : Session) × (lookup id st'.sessions ≡ some session))
          × ((j : ℕ) → j ≢ id → lookup j st'.sessions ≡ lookup j st.sessions))
unfolding Sessions.new_session Sessions.from_session ◌>>=◌
new_session_orderly st st' id orderly done = manager st.my_session_manager refl
  where
    Fresh : Type 0
    Fresh =
        (lookup id st.sessions ≡ none)
        × (((session : Session) × (lookup id st'.sessions ≡ some session))
            × ((j : ℕ) → j ≢ id → lookup j st'.sessions ≡ lookup j st.sessions))

    session :
        (context : SessionContext) (r : Result SessionManagerError Session)
        → st.my_session_manager ≡ some context
        → Connection.create_session context ≡ r
        → Fresh
    session context (err x) e f = absurd (grind arith)
    session context abort e f = absurd (grind arith)
    session context (ok opened) e f =
        let n = st.session_counter in
        let run : Sessions.new_session st ≡ (
          ok n,
          record st { session_counter = (n + 1) % 2 ^ 32; sessions = insert n opened st.sessions },
        ) =
          rw (e, f) refl in
        let same : n ≡ id = cc in
        let table : st'.sessions ≡ insert n opened st.sessions =
          ap (λ y. y.1.sessions) (sym done ∙ run) in
        rw (sym same, table)
          (
            orderly.numbered n (omega arith),
            (
              (opened, lookup-insert_self n opened st.sessions),
              λ j other. ground (arith, lookup-insert n j opened st.sessions, nat_eq.beq_iff n j),
            ),
          )

    manager : (o : Option SessionContext) → st.my_session_manager ≡ o → Fresh
    manager none e = absurd (grind arith)
    manager (some context) e = session context (Connection.create_session context) e refl

-- After whatever calls of the platform from the start of the runtime manager, fewer than 2 ^ 32 - 1
-- of them and with services and an engine that leave handles sound, a new session that is opened
-- has a number that no open session has; there is a session of that number then, and the other
-- sessions are as they were.
pub new_session-fresh :
    ⦃t : Tls⦄ ⦃w : Wasi⦄ ⦃s : Services⦄ ⦃c : Codecs⦄ ⦃e : Engine⦄ ⦃d : Codec RuntimeManagerResponse⦄
    ⦃q : Codec RuntimeManagerRequest⦄
    → AreSafe s
    → IsSafeEngine e
    → (calls : List Call) (id : ℕ) (after : Statics) → 1 + length calls < 2 ^ 32
    → Sessions.new_session (perform_all calls initial) ≡ (ok id, after)
    → let st = perform_all calls initial in
      (lookup id st.sessions ≡ none)
      × (((session : Session) × (lookup id after.sessions ≡ some session))
          × ((j : ℕ) → j ≢ id → lookup j after.sessions ≡ lookup j st.sessions))
new_session-fresh safe safe_engine calls id after small done =
    new_session_orderly (perform_all calls initial) after id
      (perform_all-IsOrderly safe safe_engine calls small) done
