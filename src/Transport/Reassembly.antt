-- ===== src/Transport/Reassembly.antt =====
-- transport-protocol/src/custom.rs, handle_protocol_buffer: what comes of a message in chunks.
use veracruz.Base.{
  ◌>>=◌, ℕ, ◌≡◌, ◌≢◌, refl, sym, ap, subst, ◌∙◌, none, some, [], ◌∷◌, ◌++◌, ok, err, arith, Result,
  List, nat_eq, lookup, contains_key, insert, remove, length, take, drop, concat, replicate,
  length-append, append_assoc, append_nil, lookup-insert, lookup-remove, lookup-insert_self, ◌≤◌,
  ◌<◌, ◌^◌, ltb, true, false, take-append_left, drop-append_left, split_append,
}
use veracruz.Vfs.Impl.{Bytes}
use veracruz.Transport.Numbers.{
  to_be_bytes, from_be_bytes, length-to_be_bytes, from_be_bytes-to_be_bytes,
}
use veracruz.Transport.Framing.{
  Buffers, TransportProtocolError, partial_buffer, handle_protocol_buffer, append_chunk,
  open_buffer, flush_buffer, get_length_prefix, unwrap_or_zero, set_length_prefix,
  length_prefix_size,
}

abbrev pub Outcome : Type 0
Outcome = Result TransportProtocolError Bytes

-- The chunks of one session, one after the other.
unfoldable pub receive_all : ℕ → List Bytes → Buffers → List Outcome × Buffers
receive_all session [] h = ([], h)
receive_all session (c ∷ cs) h =
    let (r, h') = handle_protocol_buffer (some session) c h in
    let (rs, h'') = receive_all session cs h' in (r ∷ rs, h'')

-- No chunk is empty.
unfoldable pub AllFilled : List Bytes → Type 0
AllFilled [] = Unit
AllFilled (c ∷ cs) = (1 ≤ length c) × AllFilled cs

-- Every chunk but the last leaves the buffer partial, the last one gives the payload, and the entry
-- of the session is gone, with those of the others as they were.
pub record IsDelivered (session : ℕ) (payload : Bytes) (waiting : ℕ) (h : Buffers)
    (after : List Outcome × Buffers) : Type 0 where
  pub outcomes : after.0 ≡ replicate waiting (err (partial_buffer session)) ++ (ok payload ∷ [])
  pub gone : lookup session after.1 ≡ none
  pub others : (j : ℕ) → j ≢ session → lookup j after.1 ≡ lookup j h

abbrev step : ℕ → Outcome × Buffers → List Bytes → List Outcome × Buffers
step session (r, h) cs = let (rs, h') = receive_all session cs h in (r ∷ rs, h')

lookup-insert_other :
    (s j : ℕ) (v : ℕ × Bytes) (h : Buffers) → j ≢ s → lookup j (insert s v h) ≡ lookup j h
lookup-insert_other s j v h other = ground (arith, lookup-insert s j v h, nat_eq.beq_iff s j)

lookup-remove_other : (s j : ℕ) (h : Buffers) → j ≢ s → lookup j (remove s h) ≡ lookup j h
lookup-remove_other s j h other = ground (arith, lookup-remove s j h, nat_eq.beq_iff s j)

lookup-remove_self : (s : ℕ) (h : Buffers) → lookup s (remove s h) ≡ none
lookup-remove_self s h = ground (arith, lookup-remove s s h, nat_eq.beq_iff s s)

is_known :
    (s : ℕ) (h : Buffers) (entry : ℕ × Bytes) → lookup s h ≡ some entry → contains_key s h ≡ true
unfolding contains_key
is_known s h entry found = rw (contains_key, found) refl

is_unknown : (s : ℕ) (h : Buffers) → lookup s h ≡ none → contains_key s h ≡ false
unfolding contains_key
is_unknown s h absent = rw (contains_key, absent) refl

-- With an entry, a chunk is appended.
handle_known :
    (s : ℕ) (c : Bytes) (h : Buffers) (entry : ℕ × Bytes)
    → lookup s h ≡ some entry
    → handle_protocol_buffer (some s) c h ≡ append_chunk s c h
unfolding handle_protocol_buffer unwrap_or_zero ◌>>=◌
handle_known s c h entry found = rw (is_known s h entry found) refl

-- The first chunk, which holds the prefix, makes the entry.
handle_first :
    (s n : ℕ) (body : Bytes) (h : Buffers)
    → lookup s h ≡ none
    → n < 2 ^ 64
    → handle_protocol_buffer (some s) (to_be_bytes n ++ body) h
      ≡ append_chunk s body (insert s (n, []) h)
unfolding handle_protocol_buffer unwrap_or_zero open_buffer get_length_prefix ◌>>=◌
handle_first s n body h absent small =
    let long : ltb (length (to_be_bytes n ++ body)) 8 ≡ false =
      ground (arith, length-append (to_be_bytes n) body, length-to_be_bytes n) in
    let number : from_be_bytes (take 8 (to_be_bytes n ++ body)) ≡ n =
      subst (λ k. from_be_bytes (take k (to_be_bytes n ++ body)) ≡ n) (length-to_be_bytes n)
        (rw (take-append_left (to_be_bytes n) body) (from_be_bytes-to_be_bytes n small)) in
    let left : drop 8 (to_be_bytes n ++ body) ≡ body =
      subst (λ k. drop k (to_be_bytes n ++ body) ≡ body) (length-to_be_bytes n)
        (drop-append_left (to_be_bytes n) body) in
    rw (is_unknown s h absent, long, number, left) refl

append_partial :
    (s n : ℕ) (got c : Bytes) (h : Buffers)
    → lookup s h ≡ some (n, got)
    → length (got ++ c) < n
    → append_chunk s c h ≡ (err (partial_buffer s), insert s (n, got ++ c) h)
unfolding append_chunk flush_buffer ◌>>=◌
append_partial s n got c h found short = ground arith

append_complete :
    (s n : ℕ) (got c : Bytes) (h : Buffers)
    → lookup s h ≡ some (n, got)
    → n ≤ length (got ++ c)
    → append_chunk s c h ≡ (ok (got ++ c), remove s (insert s (n, got ++ c) h))
unfolding append_chunk flush_buffer ◌>>=◌
append_complete s n got c h found full = ground arith

-- The chunk `c` and those after it complete the payload, of which `got` has come.
rest-IsDelivered :
    (s : ℕ) (payload got c : Bytes) (cs : List Bytes) (h : Buffers)
    → lookup s h ≡ some (length payload, got)
    → AllFilled cs
    → got ++ (c ++ concat cs) ≡ payload
    → IsDelivered s payload (length cs) h (step s (append_chunk s c h) cs)
unfolding receive_all AllFilled
rest-IsDelivered s payload got c [] h found filled whole =
    let all : got ++ c ≡ payload = ap (λ l. got ++ l) (sym (append_nil c)) ∙ whole in
    rw (append_complete s (length payload) got c h found (rw all (omega arith))) (record {
      outcomes = rw all refl;
      gone = lookup-remove_self s _;
      others = λ j other. lookup-remove_other s j _ other ∙ lookup-insert_other s j _ h other;
    })
rest-IsDelivered s payload got c (d ∷ ds) h found (filled, more) whole =
    let regrouped : (got ++ c) ++ (d ++ concat ds) ≡ payload =
      append_assoc got c (d ++ concat ds) ∙ whole in
    let short : length (got ++ c) < length payload = omega (
      arith,
      ap length regrouped,
      length-append (got ++ c) (d ++ concat ds),
      length-append d (concat ds),
    ) in
    let h' = insert s (length payload, got ++ c) h in
    let found' = lookup-insert_self s (length payload, got ++ c) h in
    let later = rest-IsDelivered s payload (got ++ c) d ds h' found' more regrouped in
    rw (append_partial s (length payload) got c h found short, handle_known s d h' _ found')
      (record {
        outcomes = ap (λ l. err (partial_buffer s) ∷ l) later.outcomes;
        gone = later.gone;
        others = λ j other. later.others j other ∙ lookup-insert_other s j _ h other;
      })

-- A message that is framed by `set_length_prefix` and then cut into chunks at any places, the first
-- chunk of at least eight bytes and none of the others empty, is put together again: where the
-- session has no buffer, every chunk but the last is answered by `PartialBuffer`, the last one by
-- exactly the payload, the buffer of the session is gone, and those of the other sessions are kept.
pub receive_all-IsDelivered :
    (session : ℕ) (payload first : Bytes) (rest : List Bytes) (h : Buffers)
    → lookup session h ≡ none
    → length payload < 2 ^ 64
    → length_prefix_size ≤ length first
    → AllFilled rest
    → set_length_prefix payload ≡ ok (concat (first ∷ rest))
    → IsDelivered session payload (length rest) h (receive_all session (first ∷ rest) h)
unfolding receive_all set_length_prefix
receive_all-IsDelivered session payload first rest h absent small long filled framed =
    let n = length payload in
    let whole : first ++ concat rest ≡ to_be_bytes n ++ payload = cc in
    let (body, (front, back)) =
      split_append (to_be_bytes n) payload first (concat rest) (rw (length-to_be_bytes n) long)
        whole in
    let h' = insert session (n, []) h in
    let opened = handle_first session n body h absent small in
    let later =
      rest-IsDelivered session payload [] body rest h' (lookup-insert_self session (n, []) h) filled
        back in
    rw (front, opened)
      (record {
        outcomes = later.outcomes;
        gone = later.gone;
        others = λ j other. later.others j other ∙ lookup-insert_other session j (n, []) h other;
      })

-- Where a chunk brings a whole message and bytes behind it, and the session has no buffer, those
-- bytes are given out as a part of the payload. They are not kept for the next message: the session
-- has no buffer afterwards either, and those of the other sessions are as they were.
pub handle_protocol_buffer-surplus :
    (session : ℕ) (payload surplus frame : Bytes) (h : Buffers)
    → lookup session h ≡ none
    → length payload < 2 ^ 64
    → set_length_prefix payload ≡ ok frame
    → let after = handle_protocol_buffer (some session) (frame ++ surplus) h in
      (after.0 ≡ ok (payload ++ surplus))
      × (lookup session after.1 ≡ none)
      × ((j : ℕ) → j ≢ session → lookup j after.1 ≡ lookup j h)
unfolding set_length_prefix
handle_protocol_buffer-surplus session payload surplus frame h absent small framed =
    let n = length payload in
    let h' = insert session (n, []) h in
    let whole : frame ++ surplus ≡ to_be_bytes n ++ (payload ++ surplus) =
      ap (λ l. l ++ surplus) (cc) ∙ append_assoc (to_be_bytes n) payload surplus in
    let flushed =
      append_complete session n [] (payload ++ surplus) h' (lookup-insert_self session (n, []) h)
        (omega (arith, length-append payload surplus)) in
    rw (whole, handle_first session n (payload ++ surplus) h absent small, flushed)
      (
        refl,
        lookup-remove_self session _,
        λ j other.
            lookup-remove_other session j _ other
            ∙ lookup-insert_other session j _ h' other
            ∙ lookup-insert_other session j _ h other,
      )
