-- ===== src/Runtime/Chunks.antt =====
-- runtime-manager/src/managers/execution_engine_manager.rs: a request that arrives in chunks.
use veracruz.Base.{
  ◌>>=◌, ℕ, zero, suc, ◌≡◌, ◌≢◌, refl, none, some, [], ◌∷◌, ◌++◌, ok, err, Result, List, Option,
  lookup, nat_eq, length, concat, replicate, ◌≤◌, follow, arith,
}
use veracruz.Wasi.{Wasi}
use veracruz.Vfs.Impl.{Bytes}
use veracruz.Vfs.File.{Services}
use veracruz.Policy.Contract.{Codecs}
use veracruz.Transport.Framing.{Buffers, partial_buffer, length_prefix_size}
use veracruz.Transport.Messages.{Codec, RuntimeManagerRequest, RuntimeManagerResponse}
use veracruz.Transport.Serializing.{serialize}
use veracruz.Transport.Parsing.{parse, parse_runtime_manager_request}
use veracruz.Transport.Reassembly.{AllFilled}
use veracruz.Transport.Roundtrip.{IsFaithful, parse_all, parse_all-serialize}
use veracruz.Runtime.Protocol.{Engine, RuntimeManagerError}
use veracruz.Runtime.Incoming.{
  Globals, dispatch_on_incoming_data, answer, parse_incoming_buffer, tolerate,
}

abbrev pub Answer : Type 0
Answer = Result RuntimeManagerError (Option Bytes)

module _ ⦃w : Wasi⦄ ⦃s : Services⦄ ⦃c : Codecs⦄ ⦃e : Engine⦄ ⦃d : Codec RuntimeManagerResponse⦄
    ⦃q : Codec RuntimeManagerRequest⦄ where
  -- The chunks that a session brings from one client, one after the other.
  unfoldable pub dispatch_all : ℕ → ℕ → List Bytes → Globals → List Answer × Globals
  dispatch_all session client_id [] g = ([], g)
  dispatch_all session client_id (chunk ∷ chunks) g =
      let (r, g') = dispatch_on_incoming_data session client_id chunk g in
      let (rs, g'') = dispatch_all session client_id chunks g' in (r ∷ rs, g'')

  dispatch_chunk :
      (session client_id : ℕ) (chunk : Bytes) (g : Globals)
      → dispatch_on_incoming_data session client_id chunk g ≡ (
          let (r, h) = parse (some session) chunk g.incoming_buffers in
          follow (tolerate r, record g { incoming_buffers = h }) (answer client_id))
  unfolding dispatch_on_incoming_data parse_incoming_buffer parse_runtime_manager_request ◌>>=◌
  dispatch_chunk session client_id chunk g = refl

  dispatch_partial :
      (session client_id : ℕ) (chunk : Bytes) (g : Globals)
      → (parse {M = RuntimeManagerRequest} (some session) chunk g.incoming_buffers).0
        ≡ err (partial_buffer session)
      → dispatch_on_incoming_data session client_id chunk g ≡ (
        ok none,
        record g {
          incoming_buffers =
              (parse {M = RuntimeManagerRequest} (some session) chunk g.incoming_buffers).1;
        },
      )
  unfolding tolerate answer ◌>>=◌
  dispatch_partial session client_id chunk g now =
      rw (dispatch_chunk session client_id chunk g, now) refl

  -- What the parser makes of the chunks decides what the dispatch does.
  dispatch_all-parse_all :
      (session client_id n : ℕ) (request : RuntimeManagerRequest) (chunks : List Bytes)
      (g : Globals)
      → (parse_all {M = RuntimeManagerRequest} session chunks g.incoming_buffers).0
        ≡ replicate n (err (partial_buffer session)) ++ (ok request ∷ [])
      → dispatch_all session client_id chunks g ≡ (
          let (r, g') = answer client_id (some request) (record g {
            incoming_buffers =
                (parse_all {M = RuntimeManagerRequest} session chunks g.incoming_buffers).1;
          }) in
          (replicate n (ok none) ++ (r ∷ []), g'))
  unfolding dispatch_all parse_all tolerate ◌>>=◌
  dispatch_all-parse_all session client_id zero request [] g parsed = absurd (grind arith)
  dispatch_all-parse_all session client_id (suc n) request [] g parsed = absurd (grind arith)
  dispatch_all-parse_all session client_id zero request (chunk ∷ []) g parsed =
      let now : (parse {M = RuntimeManagerRequest} (some session) chunk g.incoming_buffers).0
          ≡ ok request =
        cc in
      rw (dispatch_chunk session client_id chunk g, now) refl
  dispatch_all-parse_all session client_id zero request (chunk ∷ d ∷ ds) g parsed =
      absurd (grind arith)
  dispatch_all-parse_all session client_id (suc n) request (chunk ∷ chunks) g parsed =
      let x = parse {M = RuntimeManagerRequest} (some session) chunk g.incoming_buffers in
      let now : x.0 ≡ err (partial_buffer session) = cc in
      let later : (parse_all {M = RuntimeManagerRequest} session chunks x.1).0
          ≡ replicate n (err (partial_buffer session)) ++ (ok request ∷ []) =
        cc in
      let g' = record g { incoming_buffers = x.1 } in
      rw
        (
          dispatch_partial session client_id chunk g now,
          dispatch_all-parse_all session client_id n request chunks g' later,
        )
        refl

-- A request that a client serializes and that its session brings in chunks cut at any places (the
-- first of at least eight bytes, none of the others empty), where the session has no buffer yet:
-- every chunk but the last is answered by nothing and leaves the protocol state alone, and the last
-- one is answered exactly as the request is that was sent, on the protocol state of the start. No
-- buffer of the session is left over, and those of other sessions are kept.
pub dispatch_all-serialize :
    ⦃w : Wasi⦄ ⦃s : Services⦄ ⦃c : Codecs⦄ ⦃e : Engine⦄ ⦃d : Codec RuntimeManagerResponse⦄
    ⦃q : Codec RuntimeManagerRequest⦄
    → IsFaithful q
    → (session client_id : ℕ) (request : RuntimeManagerRequest) (first : Bytes) (rest : List Bytes)
      (g : Globals)
    → lookup session g.incoming_buffers ≡ none
    → length_prefix_size ≤ length first
    → AllFilled rest
    → serialize request ≡ ok (concat (first ∷ rest))
    → (h : Buffers) × ((dispatch_all session client_id (first ∷ rest) g ≡ (
          let (r, g') = answer client_id (some request) (record g { incoming_buffers = h }) in
          (replicate (length rest) (ok none) ++ (r ∷ []), g')))
        × ((lookup session h ≡ none)
            × ((j : ℕ) → j ≢ session → lookup j h ≡ lookup j g.incoming_buffers)))
dispatch_all-serialize faithful session client_id request first rest g absent long filled sent =
    let p =
      parse_all-serialize faithful session request first rest g.incoming_buffers absent long filled
        sent in
    (
      (parse_all {M = RuntimeManagerRequest} session (first ∷ rest) g.incoming_buffers).1,
      (
        dispatch_all-parse_all session client_id (length rest) request (first ∷ rest) g p.outcomes,
        (p.gone, p.others),
      ),
    )
