-- ===== src/Runtime/Soundness/Requests.antt =====
-- Sequences of requests, of any clients.
use veracruz.Base.{
  ℕ, ◌≡◌, refl, subst, sym, Option, none, some, List, [], ◌∷◌, Bool, true, false, if◌then◌else◌,
}
use veracruz.Wasi.{Wasi}
use veracruz.Hoare.{Always, Triple-pure, Triple-gets}
use veracruz.Vfs.File.{Services}
use veracruz.Policy.Principal.{Principal}
use veracruz.Policy.Contract.{Codecs, member}
use veracruz.Vfs.Soundness.Services.{AreSafe}
use veracruz.Runtime.Protocol.{ProtocolState, StateExec, Engine}
use veracruz.Runtime.Dispatch
use veracruz.Transport.Messages.{Message}
use veracruz.Runtime.Guards.{dispatch_on_request-shutdown, dispatch_on_request-none}
use veracruz.Runtime.Soundness.{
  IsInOrder, Continues, Continues-refl, Continues-trans, StateKeeps, state_frame, step_then, forget,
  IsSafeEngine, write_file-Keeps, append_file-Keeps, read_file-Keeps, execute-Keeps,
}

-- What may stand after a state `p`: nothing, or a state in order that goes on from it.
abbrev pub IsAfter : ProtocolState → Option ProtocolState → Type 0
IsAfter p none = Unit
IsAfter p (some q) = IsInOrder q × Continues p q

module _ {A : Type 0} where
  with_state-IsAfter :
      (m : StateExec A)
      → StateKeeps m
      → (p : ProtocolState) → IsInOrder p
      → IsAfter p (Dispatch.with_state m (some p)).1
  unfolding Dispatch.with_state
  with_state-IsAfter m h p good = let (good', continues, _) = h.run p good tt in (good', continues)

shutdown-IsAfter :
    (b : Bool) (p : ProtocolState) → IsInOrder p → IsAfter p (if b then none else some p)
shutdown-IsAfter true p good = tt
shutdown-IsAfter false p good = (good, Continues-refl p)

module _ ⦃w : Wasi⦄ ⦃s : Services⦄ ⦃c : Codecs⦄ ⦃e : Engine⦄ where
  -- The state after a sequence of requests, each with the number of its client.
  unfoldable pub serve_all : List (ℕ × Message) → Option ProtocolState → Option ProtocolState
  serve_all [] g = g
  serve_all ((id, m) ∷ rs) g = serve_all rs (Dispatch.dispatch_on_request id m g).1

  module _ (safe : AreSafe s) (safe_engine : IsSafeEngine e) where
    pub dispatch-IsAfter :
        (id : ℕ) (m : Message) (p : ProtocolState)
        → IsInOrder p
        → IsAfter p (Dispatch.dispatch_on_request id m (some p)).1
    unfolding Dispatch.dispatch_on_request Dispatch.dispatch_on_write Dispatch.dispatch_on_append
        Dispatch.dispatch_on_result Dispatch.dispatch_on_read Dispatch.dispatch_on_policy_hash
    dispatch-IsAfter id (Message.write_file sent) p good =
        with_state-IsAfter _
          (step_then
            (write_file-Keeps safe (Principal.participant id) sent.file_name sent.data_bytes)
            (λ u. forget (Triple-pure state_frame Always _)))
          p good
    dispatch-IsAfter id (Message.append_file sent) p good =
        with_state-IsAfter _
          (step_then
            (append_file-Keeps safe (Principal.participant id) sent.file_name sent.data_bytes)
            (λ u. forget (Triple-pure state_frame Always _)))
          p good
    dispatch-IsAfter id (Message.request_pi_hash name) p good =
        with_state-IsAfter _ (forget (Triple-pure state_frame Always _)) p good
    dispatch-IsAfter id Message.request_policy_hash p good =
        with_state-IsAfter _ (forget (Triple-gets state_frame Always _)) p good
    dispatch-IsAfter id (Message.request_result name) p good =
        with_state-IsAfter _ (execute-Keeps safe_engine (Principal.participant id) name) p good
    dispatch-IsAfter id Message.request_shutdown p good =
        subst (λ y. IsAfter p y.1) (sym (dispatch_on_request-shutdown id p))
          (shutdown-IsAfter (member id p.expected_shutdown_sources) p good)
    dispatch-IsAfter id (Message.read_file name) p good =
        with_state-IsAfter _
          (step_then (read_file-Keeps (Principal.participant id) name)
            (λ r. forget (Triple-pure state_frame Always _)))
          p good
    dispatch-IsAfter id (Message.request_proxy_psa_attestation_token challenge) p good =
        with_state-IsAfter _ (forget (Triple-pure state_frame Always _)) p good
    dispatch-IsAfter id (Message.psa_attestation_init init) p good =
        with_state-IsAfter _ (forget (Triple-pure state_frame Always _)) p good

    ended : (rs : List (ℕ × Message)) → serve_all rs none ≡ none
    unfolding serve_all
    ended [] = refl
    ended ((id, m) ∷ rs) =
        subst (λ y. serve_all rs y.1 ≡ none) (sym (dispatch_on_request-none id m)) (ended rs)

    later :
        (p : ProtocolState) (g : Option ProtocolState)
        → IsAfter p g
        → (rs : List (ℕ × Message))
        → ((q : ProtocolState) → IsInOrder q → IsAfter q (serve_all rs (some q)))
        → IsAfter p (serve_all rs g)
    later p none h rs rest = subst (IsAfter p) (sym (ended rs)) tt
    later p (some q) (good, continues) rs rest = widen (serve_all rs (some q)) (rest q good)
      where
        widen : (g : Option ProtocolState) → IsAfter q g → IsAfter p g
        widen none h = tt
        widen (some r) (good', continues') = (good', Continues-trans p q r continues continues')

    all-IsAfter :
        (rs : List (ℕ × Message)) (p : ProtocolState)
        → IsInOrder p
        → IsAfter p (serve_all rs (some p))
    unfolding serve_all
    all-IsAfter [] p good = (good, Continues-refl p)
    all-IsAfter ((id, m) ∷ rs) p good =
        later p (Dispatch.dispatch_on_request id m (some p)).1 (dispatch-IsAfter id m p good) rs
          (λ q g. all-IsAfter rs q g)

-- Whatever requests clients make, in any order, whether they succeed or fail, on a protocol state in
-- order and with services and an engine that leave handles sound: a state that is left is in order
-- (its handle is sound, its root and its streams are there), no inode was lost, and the policy, its
-- hash, the clients that may stop the computation and the digests are those of the start.
pub serve_all-IsInOrder :
    ⦃w : Wasi⦄ ⦃s : Services⦄ ⦃c : Codecs⦄ ⦃e : Engine⦄
    → AreSafe s
    → IsSafeEngine e
    → (requests : List (ℕ × Message)) (p q : ProtocolState) → IsInOrder p
    → serve_all requests (some p) ≡ some q
    → IsInOrder q × Continues p q
serve_all-IsInOrder safe safe_engine requests p q good done =
    subst (IsAfter p) done (all-IsAfter safe safe_engine requests p good)
