-- ===== src/Runtime/Soundness/Globals.antt =====
-- The protocol state and the buffers through the bytes of clients.
use veracruz.Base.{
  ℕ, ◌≡◌, refl, sym, subst, Option, none, some, Result, ok, err, abort, ◌>>=◌, follow, lift,
}
use veracruz.Wasi.{Wasi}
use veracruz.Hoare.{
  Frame, Triple, Always, weaken, OnOk_trivial, Triple-bind, Triple-pure, Triple-lift,
}
use veracruz.Vfs.Impl.{Bytes}
use veracruz.Vfs.File.{Services}
use veracruz.Vfs.Integrity.Contents.{Anything}
use veracruz.Vfs.Soundness.Services.{AreSafe}
use veracruz.Policy.Contract.{Codecs}
use veracruz.Transport.Messages.{Codec, Message, RuntimeManagerRequest, RuntimeManagerResponse}
use veracruz.Runtime.Protocol.{ProtocolState, Engine, Response, RuntimeManagerError}
use veracruz.Runtime.Dispatch
use veracruz.Runtime.Guards.{dispatch_on_request-none}
use veracruz.Runtime.Incoming.{
  Globals, GlobalsExec, answer_request, answer, dispatch_on_incoming_data, parse_incoming_buffer,
  encode_option,
}
use veracruz.Runtime.Soundness.{IsInOrder, IsSafeEngine}
use veracruz.Runtime.Soundness.Requests.{IsAfter, dispatch-IsAfter}

-- The protocol state, where there is one, is in order.
abbrev pub IsRunning : Option ProtocolState → Type 0
IsRunning none = Unit
IsRunning (some p) = IsInOrder p

abbrev pub globals_frame : Frame Globals
globals_frame = record {
  Good = λ g. IsRunning g.protocol_state;
  Rel = λ g h. Unit;
  reflexive = λ g. tt;
  transitive = λ f g h a b. tt;
}

abbrev pub GlobalsKeeps : {A : Type 0} → GlobalsExec A → Type 0
GlobalsKeeps m = Triple globals_frame Always m Anything

after-IsRunning : (p : ProtocolState) (o : Option ProtocolState) → IsAfter p o → IsRunning o
after-IsRunning p none h = tt
after-IsRunning p (some q) (good, continues) = good

module _ ⦃w : Wasi⦄ ⦃s : Services⦄ ⦃c : Codecs⦄ ⦃e : Engine⦄ (safe : AreSafe s)
    (safe_engine : IsSafeEngine e) where
  dispatch-IsRunning :
      (id : ℕ) (m : Message) (o : Option ProtocolState)
      → IsRunning o
      → IsRunning (Dispatch.dispatch_on_request id m o).1
  dispatch-IsRunning id m none h =
      subst (λ y. IsRunning y.1) (sym (dispatch_on_request-none id m)) tt
  dispatch-IsRunning id m (some p) h =
      after-IsRunning p _ (dispatch-IsAfter safe safe_engine id m p h)

  module _ ⦃d : Codec RuntimeManagerResponse⦄ where
    answered :
        (x : Result RuntimeManagerError (Option Response)) (g : Globals)
        → (follow (x, g) (λ r. lift (encode_option r))).1 ≡ g
    unfolding ◌>>=◌
    answered (ok r) g = refl
    answered (err e) g = refl
    answered abort g = refl

    answer_request-Keeps : (id : ℕ) (m : Message) → GlobalsKeeps (answer_request id m)
    unfolding answer_request
    answer_request-Keeps id m = record {
      run = λ g good p.
          let y = Dispatch.dispatch_on_request id m g.protocol_state in
          let kept = answered y.0 (record g { protocol_state = y.1 }) in
          (
            subst (λ h. IsRunning h.protocol_state) (sym kept)
                (dispatch-IsRunning id m g.protocol_state good),
            tt,
            OnOk_trivial _,
          );
    }

    forget :
        {A : Type 0} {m : GlobalsExec A} {post : A → Globals → Type 0}
        → Triple globals_frame Always m post
        → GlobalsKeeps m
    forget h = weaken globals_frame Always Anything (λ s p. tt) (λ a s g q. tt) h

    answer-Keeps : (id : ℕ) (o : Option RuntimeManagerRequest) → GlobalsKeeps (answer id o)
    unfolding answer
    answer-Keeps id none = forget (Triple-pure globals_frame Always none)
    answer-Keeps id (some r) = message r.message_oneof
      where
        message :
            (o : Option Message) → GlobalsKeeps (answer id (some (record r { message_oneof = o })))
        message none = forget (Triple-lift globals_frame Always _)
        message (some m) = answer_request-Keeps id m

    pub dispatch_on_incoming_data-Keeps :
        ⦃q : Codec RuntimeManagerRequest⦄ (session id : ℕ) (input : Bytes)
        → GlobalsKeeps (dispatch_on_incoming_data session id input)
    unfolding dispatch_on_incoming_data parse_incoming_buffer
    dispatch_on_incoming_data-Keeps session id input =
        Triple-bind globals_frame Anything (record { run = λ g good p. (good, tt, OnOk_trivial _) })
          (λ o. weaken globals_frame _ Anything (λ s p. tt) (λ a s g q. tt) (answer-Keeps id o))
