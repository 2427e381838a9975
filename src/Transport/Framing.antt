-- ===== src/Transport/Framing.antt =====
-- transport-protocol/src/custom.rs: the length prefix, and the buffers of messages that arrive in
-- chunks. The error of the mutex is left out: nothing panics while it is held.
use veracruz.Base.{
  ◌>>=◌, ◌>>◌, none, pure, ℕ, err, Option, Exec, gets, some, modify, if◌then◌else◌, Map, Result, ok,
  ltb, length, take, drop, ◌++◌, lookup, insert, remove, nat_eq, contains_key, ℤ, lift, ok_or, fail,
  [],
}
use veracruz.Vfs.Impl.{Bytes}
use veracruz.Transport.Numbers.{to_be_bytes, from_be_bytes}

pub data TransportProtocolError : Type 0 where
  protobuf_error : TransportProtocolError
  response_status_error : ℤ → TransportProtocolError
  try_into_error : TransportProtocolError
  partial_buffer : ℕ → TransportProtocolError
  missing_length_prefix : ℕ → TransportProtocolError
  buffer_not_found : ℕ → TransportProtocolError
  mutex_error : ℕ → TransportProtocolError

-- `INCOMING_BUFFER_HASH`: for a session, the expected length and what has come so far.
abbrev pub Buffers : Type 0
Buffers = Map ℕ (ℕ × Bytes)

abbrev pub TransportExec : Type 0 → Type 0
TransportExec A = Exec TransportProtocolError Buffers A

abbrev pub TransportProtocolResult : Type 0
TransportProtocolResult = Result TransportProtocolError Bytes

abbrev pub length_prefix_size : ℕ
length_prefix_size = 8

unfoldable pub get_length_prefix : ℕ → Bytes → Result TransportProtocolError (ℕ × Bytes)
get_length_prefix session_id buffer =
    if ltb (length buffer) length_prefix_size
    then err (missing_length_prefix session_id)
    else ok (from_be_bytes (take length_prefix_size buffer), drop length_prefix_size buffer)

unfoldable pub set_length_prefix : Bytes → TransportProtocolResult
set_length_prefix buffer = ok (to_be_bytes (length buffer) ++ buffer)

-- The entry of a session that has none is made, from the prefix. What is left of the input comes
-- back.
unfoldable pub open_buffer : ℕ → Bytes → TransportExec Bytes
open_buffer session_id input = do
  (expected_length, input_unprefixed) ← lift (get_length_prefix session_id input)
  modify (insert session_id (expected_length, []))
  pure input_unprefixed

-- The buffer is taken out when it has reached its length.
unfoldable pub flush_buffer : ℕ → ℕ → Bytes → TransportExec Bytes
flush_buffer session_id expected_length incoming_buffer =
    if ltb (length incoming_buffer) expected_length
    then fail (partial_buffer session_id)
    else (do modify (remove session_id); pure incoming_buffer)

unfoldable pub append_chunk : ℕ → Bytes → TransportExec Bytes
append_chunk session_id input = do
  found ← gets (lookup session_id)
  (expected_length, incoming_buffer) ← ok_or (buffer_not_found session_id) found
  modify (insert session_id (expected_length, incoming_buffer ++ input))
  flush_buffer session_id expected_length (incoming_buffer ++ input)

unfoldable pub unwrap_or_zero : Option ℕ → ℕ
unwrap_or_zero none = 0
unwrap_or_zero (some id) = id

unfoldable pub handle_protocol_buffer : Option ℕ → Bytes → TransportExec Bytes
handle_protocol_buffer session input = do
  known ← gets (contains_key (unwrap_or_zero session))
  rest ← if known then pure input else open_buffer (unwrap_or_zero session) input
  append_chunk (unwrap_or_zero session) rest
