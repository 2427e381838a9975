-- ===== src/Transport/Roundtrip.antt =====
-- transport-protocol/src/custom.rs: what one party serializes and another one parses.
use veracruz.Base.{
  zero, ◌>>=◌, ℕ, ◌≡◌, refl, sym, ap, ◌∙◌, none, some, [], ◌∷◌, ◌++◌, ok, err, abort, Result, List,
  nat_eq, map, lookup, length, concat, replicate, ◌≤◌, ◌<◌, ◌^◌, Option, ◌≢◌, Option-cases, follow,
  ok_or, suc, inl, inr, arith, ℤ, pos, negsuc,
}
use veracruz.Vfs.Impl.{Bytes}
use veracruz.Transport.Framing.{
  Buffers, TransportProtocolError, partial_buffer, protobuf_error, response_status_error,
  handle_protocol_buffer, set_length_prefix, length_prefix_size,
}
use veracruz.Transport.Messages.{
  Codec, RuntimeManagerResponse, ResponseStatus, from_i32, as_i32, status_success,
  new_runtime_response,
}
use veracruz.Transport.Serializing.{serialize, serialize_result, result_body}
use veracruz.Transport.Parsing.{parse, parse_result, decoded_status, result_of}
use veracruz.Transport.Reassembly.{Outcome, receive_all, AllFilled, receive_all-IsDelivered}

-- What `write_to_bytes` encodes, `parse_from_bytes` decodes, and a message is less than 2 ^ 64 long.
pub record IsFaithful {M : Type 0} (c : Codec M) : Type 0 where
  pub decoded : (m : M) (b : Bytes) → c.write_to_bytes m ≡ some b → c.parse_from_bytes b ≡ some m
  pub small : (m : M) (b : Bytes) → c.write_to_bytes m ≡ some b → length b < 2 ^ 64

module _ {M : Type 0} ⦃c : Codec M⦄ where
  -- The chunks of one session, each given to the parser.
  unfoldable pub parse_all :
      ℕ → List Bytes → Buffers → List (Result TransportProtocolError M) × Buffers
  parse_all session [] h = ([], h)
  parse_all session (chunk ∷ chunks) h =
      let (r, h') = parse (some session) chunk h in
      let (rs, h'') = parse_all session chunks h' in (r ∷ rs, h'')

  decode : Outcome → Result TransportProtocolError M
  decode (err e) = err e
  decode abort = abort
  decode (ok payload) = elim (c.parse_from_bytes payload) [
    | none ↦ err protobuf_error
    | some m ↦ ok m
  ]

  decoded_lem :
      (o : Option M) (h : Buffers)
      → ok_or protobuf_error o h ≡ (elim o [ none ↦ err protobuf_error | some m ↦ ok m ], h)
  unfolding ◌>>=◌
  decoded_lem none h = refl
  decoded_lem (some m) h = refl

  decode_then :
      (x : Outcome × Buffers)
      → follow x (λ b. ok_or protobuf_error (c.parse_from_bytes b)) ≡ (decode x.0, x.1)
  unfolding decode
  decode_then (ok payload, h) = decoded_lem (c.parse_from_bytes payload) h
  decode_then (err e, h) = refl
  decode_then (abort, h) = refl

  parse_all-receive_all :
      (session : ℕ) (chunks : List Bytes) (h : Buffers)
      → parse_all session chunks h
        ≡ (map decode (receive_all session chunks h).0, (receive_all session chunks h).1)
  unfolding parse_all parse receive_all ◌>>=◌
  parse_all-receive_all session [] h = refl
  parse_all-receive_all session (chunk ∷ chunks) h =
      let x = handle_protocol_buffer (some session) chunk h in
      rw (decode_then x, parse_all-receive_all session chunks x.1) refl

  decode_all :
      (session n : ℕ) (payload : Bytes) (m : M)
      → c.parse_from_bytes payload ≡ some m
      → map decode (replicate n (err (partial_buffer session)) ++ (ok payload ∷ []))
        ≡ replicate n (err (partial_buffer session)) ++ (ok m ∷ [])
  unfolding decode
  decode_all session zero payload m decoded = rw (decode, decoded) refl
  decode_all session (suc n) payload m decoded =
      ap (λ l. err (partial_buffer session) ∷ l) (decode_all session n payload m decoded)

  unframe :
      (m : M) (frame : Bytes)
      → serialize m ≡ ok frame
      → (payload : Bytes) × ((c.write_to_bytes m ≡ some payload)
          × (set_length_prefix payload ≡ ok frame))
  unfolding serialize
  unframe m frame sent = elim (Option-cases (c.write_to_bytes m)) [
    | inl failed ↦ absurd (grind arith)
    | inr (payload, encoded) ↦ (payload, (encoded, rw (serialize, encoded) at sent))
  ]

-- Every chunk but the last leaves the message partial, the last one gives the message.
pub record IsParsed {M : Type 0} (session : ℕ) (m : M) (waiting : ℕ) (h : Buffers)
    (after : List (Result TransportProtocolError M) × Buffers) : Type 0 where
  pub outcomes : after.0 ≡ replicate waiting (err (partial_buffer session)) ++ (ok m ∷ [])
  pub gone : lookup session after.1 ≡ none
  pub others : (j : ℕ) → j ≢ session → lookup j after.1 ≡ lookup j h

-- A message of any type that one party serializes, and that arrives at the other party in chunks cut
-- at any places (the first of at least eight bytes, none of the others empty), is parsed as the
-- message that was sent when the last chunk is there, and not before. This takes a codec that decodes
-- what it encodes, and no buffer of the session at the start; there is none at the end either.
pub parse_all-serialize :
    {M : Type 0} ⦃c : Codec M⦄
    → IsFaithful c
    → (session : ℕ) (m : M) (first : Bytes) (rest : List Bytes) (h : Buffers)
    → lookup session h ≡ none
    → length_prefix_size ≤ length first
    → AllFilled rest
    → serialize m ≡ ok (concat (first ∷ rest))
    → IsParsed session m (length rest) h (parse_all session (first ∷ rest) h)
unfolding serialize
parse_all-serialize ⦃c = c⦄ faithful session m first rest h absent long filled sent =
    let (payload, (encoded, framed)) = unframe m _ sent in
    let d =
      receive_all-IsDelivered session payload first rest h absent (faithful.small m payload encoded)
        long filled framed in
    rw (parse_all-receive_all session (first ∷ rest) h) (record {
      outcomes =
          ap (map decode) d.outcomes
          ∙ decode_all session (length rest) payload m (faithful.decoded m payload encoded);
      gone = d.gone;
      others = d.others;
    })

-- The number before a number.
abbrev pub before : ℤ → ℤ
before (pos zero) = negsuc 0
before (pos (suc n)) = pos n
before (negsuc n) = negsuc (suc n)

-- What a response with this status and these data means to its receiver: the data on success, and
-- else the number of the status in the schema, less one.
abbrev pub verdict : ResponseStatus → Option Bytes → Result TransportProtocolError (Option Bytes)
verdict status_success data_opt = ok data_opt
verdict status data_opt = err (response_status_error (before (as_i32 status)))

abbrev reply : ResponseStatus → Option Bytes → RuntimeManagerResponse
reply status data_opt = record new_runtime_response {
  status = status;
  message_oneof = result_body data_opt;
}

serialize_result-reply :
    ⦃c : Codec RuntimeManagerResponse⦄ (status : ResponseStatus) (data_opt : Option Bytes)
    → serialize_result (as_i32 status) data_opt ≡ serialize (reply status data_opt)
unfolding serialize_result as_i32 from_i32
serialize_result-reply status data_opt = ground arith

parse_result-reply :
    (status : ResponseStatus) (data_opt : Option Bytes)
    → parse_result (reply status data_opt) ≡ verdict status data_opt
unfolding parse_result decoded_status as_i32 result_of result_body
parse_result-reply status data_opt = ground arith

-- A response that the runtime manager serializes with a status and with data or none, and that
-- arrives in chunks, is parsed when the last chunk is there, and `parse_result` gives back the data
-- where the status was success. Any other status becomes an error with the number that the status has
-- in the schema, less one: a status that is sent as 7 is an error with 6. This takes a codec that
-- decodes what it encodes, no buffer of the session at the start, a first chunk of at least eight
-- bytes, and no other chunk empty.
pub serialize_result-parse_result :
    ⦃c : Codec RuntimeManagerResponse⦄
    → IsFaithful c
    → (session : ℕ) (status : ResponseStatus) (data_opt : Option Bytes) (first : Bytes)
      (rest : List Bytes) (h : Buffers)
    → lookup session h ≡ none
    → length_prefix_size ≤ length first
    → AllFilled rest
    → serialize_result (as_i32 status) data_opt ≡ ok (concat (first ∷ rest))
    → (response : RuntimeManagerResponse) × (IsParsed session response
          (length rest)
          h
          (parse_all session (first ∷ rest) h)
        × (parse_result response ≡ verdict status data_opt))
serialize_result-parse_result faithful session status data_opt first rest h absent long filled
      sent =
    (
      reply status data_opt,
      (
        parse_all-serialize faithful session (reply status data_opt) first rest h absent long filled
            (sym (serialize_result-reply status data_opt) ∙ sent),
        parse_result-reply status data_opt,
      ),
    )
