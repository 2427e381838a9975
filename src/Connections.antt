-- ===== src/Connections.antt =====
-- The theorems on exchanged messages and on sessions at concrete inputs.
use veracruz.Base.{
  ℕ, zero, ◌≡◌, ◌≢◌, refl, true, false, none, some, Option, List, [], ◌∷◌, ◌++◌, ok, err, abort,
  arith, ltb, if◌then◌else◌, length, lookup, nat_eq, ◌>>=◌, insert, ap, ◌∙◌, ends_with,
}
use veracruz.Vfs.Impl.{Bytes}
use veracruz.Transport.Numbers.{to_be_bytes}
use veracruz.Transport.Framing.{set_length_prefix, Buffers}
use veracruz.Transport.Messages.{
  Codec, Message, ResponseMessage, RuntimeManagerResponse, ResponseStatus, status_success, as_i32,
  from_i32,
}
use veracruz.Transport.Serializing.{serialize, serialize_result, result_body}
use veracruz.Transport.Reassembly.{AllFilled}
use veracruz.Transport.Roundtrip.{
  IsFaithful, IsParsed, parse_all, parse_all-serialize, serialize_result-parse_result, verdict,
}
use veracruz.Transport.Parsing.{parse_result}
use veracruz.Policy.Contract
use veracruz.Policy.Contract.{member}
use veracruz.Policy.Principal.{assert_identity_valid}
use veracruz.Session.Tls.{Tls}
use veracruz.Session.Context
use veracruz.Session.Context.{SessionContext, CertifiedPrincipal, invalid_state_error}
use veracruz.Session.Connection
use veracruz.Session.Connection.{Session}
use veracruz.Session.Clients.{IsFrom, read_plaintext_data-IsFrom}
use veracruz.Session.Configuration.{Follows, set_policy-Follows, set_cert_chain_twice}
use veracruz.Session.Sending.{IsProgressing, send_tls_data-ends}
use veracruz.Runtime.Incoming.{Globals, answer}
use veracruz.Runtime.Chunks.{dispatch_all, dispatch_all-serialize}
use veracruz.Runtime.Sessions
use veracruz.Runtime.Sessions.{Statics, initial}
use veracruz.Runtime.Soundness.Platform.{Call, IsOrderly, perform_all, perform_all-IsOrderly}
use veracruz.Runtime.Soundness.Fresh.{new_session-fresh}
use veracruz.Native.Modules.{native}
use veracruz.Native.Safety.{native-AreSafe}
use veracruz.Examples.{level_wasi}
use veracruz.Scenarios.{length_codecs, still, policy, state}
use veracruz.Witnesses.{
  reading_codecs, hashed, second_state, made_hashed, encode_request, two_requests, request_of,
  two_requests-IsFaithful, still-IsSafeEngine, libraries,
}

-- A request for shutdown, framed.
abbrev frame : Bytes
frame = 0 ∷ 0 ∷ 0 ∷ 0 ∷ 0 ∷ 0 ∷ 0 ∷ 1 ∷ []

parse_all-serialize_example :
    IsParsed 4 (request_of Message.request_shutdown) 1 [] (parse_all 4 (frame ∷ (1 ∷ []) ∷ []) [])
unfolding lookup AllFilled serialize set_length_prefix to_be_bytes encode_request
parse_all-serialize_example =
    parse_all-serialize two_requests-IsFaithful 4 (request_of Message.request_shutdown) frame
      ((1 ∷ []) ∷ []) [] refl (omega arith) (omega arith, tt) refl

-- A codec for successful responses with less than a hundred bytes.
encode_response : ResponseStatus → Option ResponseMessage → ℕ → Option Bytes
encode_response status_success (some (ResponseMessage.result bytes)) zero =
    if ltb (length bytes) 100 then some (1 ∷ bytes) else none
encode_response _ _ _ = none

decode_response : Bytes → Option RuntimeManagerResponse
decode_response [] = none
decode_response (b ∷ bytes) = some (record {
  status = status_success;
  message_oneof = some (ResponseMessage.result bytes);
  context = 0;
})

instance abbrev small_results : Codec RuntimeManagerResponse
small_results = record {
  parse_from_bytes = decode_response;
  write_to_bytes = λ m. encode_response m.status m.message_oneof m.context;
}

small_results-IsFaithful : IsFaithful small_results
unfolding encode_response decode_response
small_results-IsFaithful = record { decoded = λ m b e. ground arith; small = λ m b e. ground arith }

serialize_result-parse_result_example :
    (response : RuntimeManagerResponse) × (IsParsed 4 response 1 []
        (parse_all 4 (frame ∷ (1 ∷ []) ∷ []) [])
      × (parse_result response ≡ verdict status_success (some [])))
unfolding lookup AllFilled serialize_result as_i32 from_i32 serialize set_length_prefix to_be_bytes
    encode_response result_body
serialize_result-parse_result_example =
    serialize_result-parse_result small_results-IsFaithful 4 status_success (some []) frame
      ((1 ∷ []) ∷ []) [] refl (omega arith) (omega arith, tt) refl

abbrev globals : Globals
globals = record { protocol_state = some state; incoming_buffers = [] }

dispatch_all-serialize_example :
    (h : Buffers) × ((dispatch_all ⦃s = native 1⦄ 4 7 (frame ∷ (1 ∷ []) ∷ []) globals ≡ (
        let (r, g') =
          answer ⦃s = native 1⦄ 7
            (some (request_of Message.request_shutdown))
            (record globals { incoming_buffers = h }) in
        (ok none ∷ r ∷ [], g')))
      × ((lookup 4 h ≡ none) × ((j : ℕ) → j ≢ 4 → lookup j h ≡ lookup j globals.incoming_buffers)))
unfolding lookup AllFilled serialize set_length_prefix to_be_bytes encode_request
dispatch_all-serialize_example =
    dispatch_all-serialize ⦃s = native 1⦄ two_requests-IsFaithful 4 7
      (request_of Message.request_shutdown) frame ((1 ∷ []) ∷ []) globals refl (omega arith)
      (omega arith, tt) refl

-- Bytes that pass as they are: what came and was not read is the connection.
instance abbrev plain : Tls
plain = record {
  SupportedCipherSuite = ℕ;
  RootCertStore = List Bytes;
  ConfigBuilder = List Bytes;
  ServerConfig = List Bytes;
  ServerConnection = Bytes;
  certs = λ text. some ((1 ∷ []) ∷ []);
  lookup_value = λ text. some 1;
  all_cipher_suites = 2 ∷ 1 ∷ [];
  suite = λ s. s;
  empty_store = [];
  add = λ cert store. some (cert ∷ store);
  builder = λ suite store. some store;
  with_single_cert = λ builder chain key. some chain;
  new_connection = λ config. some [];
  read_tls = λ c input. (some [], c ++ input);
  process_new_packets = λ c. (true, c);
  read_to_end = λ c. (true, (c, []));
  peer_certificates = λ c. some ((1 ∷ []) ∷ []);
  wants_write = λ c. false;
  write_tls = λ c. (some [], c);
  write_all = λ bytes c. (true, c);
  is_handshaking = λ c. false;
  generate_ec = some ([], 5 ∷ []);
  generate_csr = λ key. some key;
}

abbrev alice : CertifiedPrincipal
alice = record { certificate = 1 ∷ []; id = 7; file_rights = [] }

abbrev session : Session
session = record { tls_connection = 8 ∷ 9 ∷ []; principals = alice ∷ [] }

read_plaintext_data-IsFrom_example : IsFrom 7 session (record session { tls_connection = [] })
unfolding Connection.read_plaintext_data Connection.on_connection Connection.process_packets
    Connection.with_client Connection.identify Connection.find_client Connection.same_bytes ◌>>=◌
read_plaintext_data-IsFrom_example =
    read_plaintext_data-IsFrom 7 (8 ∷ 9 ∷ []) session (record session { tls_connection = [] }) refl

plain-IsProgressing : IsProgressing plain
plain-IsProgressing = record { taken = λ c c' b input left e. ground arith }

send_tls_data-ends_example : (Connection.send_tls_data (3 ∷ 4 ∷ []) session).0 ≢ abort
send_tls_data-ends_example = send_tls_data-ends plain-IsProgressing (3 ∷ 4 ∷ []) session

abbrev context : SessionContext
context = record {
  server_config_builder = none;
  server_config = some [];
  policy = none;
  principals = some (alice ∷ []);
  server_private_key = 5 ∷ [];
  server_public_key = [];
}

abbrev configured : SessionContext
configured = (Context.set_policy policy context).1

set_policy-Follows_example : Follows policy configured
unfolding Context.set_policy Context.add_identities Context.convert_cert_buffer
    Context.lookup_ciphersuite Context.find_suite ◌>>=◌
set_policy-Follows_example = set_policy-Follows policy context configured refl

set_cert_chain_twice_example :
    Context.set_cert_chain [] (Context.set_cert_chain ((6 ∷ []) ∷ []) context).1
    ≡ (err invalid_state_error, (Context.set_cert_chain ((6 ∷ []) ∷ []) context).1)
set_cert_chain_twice_example = set_cert_chain_twice ((6 ∷ []) ∷ []) [] context

perform_all-IsOrderly_example : IsOrderly (
    perform_all ⦃s = native 1⦄
      (Call.init_session_manager
        ∷ Call.load_policy "{}"
        ∷ Call.load_cert_chain []
        ∷ Call.new_session
        ∷ Call.send_data 1 (3 ∷ [])
        ∷ [])
      initial)
perform_all-IsOrderly_example =
    perform_all-IsOrderly ⦃s = native 1⦄ (native-AreSafe 1) still-IsSafeEngine
      (Call.init_session_manager
        ∷ Call.load_policy "{}"
        ∷ Call.load_cert_chain []
        ∷ Call.new_session
        ∷ Call.send_data 1 (3 ∷ [])
        ∷ [])
      (omega arith)

-- From the start to the first session: the statics after each of the calls.
abbrev fresh : SessionContext
fresh = record context { principals = none; server_config = none }

abbrev started : Statics
started = record initial { my_session_manager = some fresh }

abbrev loaded : Statics
loaded = record started {
  my_session_manager = some (Context.set_policy hashed fresh).1;
  globals = record { protocol_state = some second_state; incoming_buffers = [] };
}

load_policy_run : (Sessions.load_policy ⦃c = reading_codecs⦄ "{}" started).1 ≡ loaded
unfolding Sessions.load_policy Sessions.on_manager Sessions.set_protocol_state Sessions.from_policy
    Contract.from_json Contract.assert_valid Contract.assert_identities assert_identity_valid
    ends_with member Context.set_policy Context.add_identities Context.convert_cert_buffer
    Context.lookup_ciphersuite Context.find_suite ◌>>=◌
load_policy_run = rw made_hashed refl

abbrev calls : List Call
calls =
    Call.init_session_manager ∷ Call.load_policy "{}" ∷ Call.load_cert_chain ((1 ∷ []) ∷ []) ∷ []

abbrev ready : Statics
ready = (Sessions.load_cert_chain ((1 ∷ []) ∷ []) loaded).1

calls_run : perform_all ⦃s = native 1⦄ ⦃c = reading_codecs⦄ calls initial ≡ ready
unfolding perform_all Sessions.init_session_manager Context.new ◌>>=◌
calls_run = rw load_policy_run refl

abbrev opened : Statics
opened = (Sessions.new_session ready).1

new_session_run : Sessions.new_session ready ≡ (ok 1, opened)
unfolding Sessions.new_session Sessions.from_session Connection.create_session
    Context.server_config_of Context.principals_of ◌>>=◌ insert Sessions.load_cert_chain
    Context.set_cert_chain Context.set_policy Context.add_identities Context.convert_cert_buffer
    Context.lookup_ciphersuite
new_session_run = refl

new_session-fresh_example :
    let st = perform_all ⦃s = native 1⦄ ⦃c = reading_codecs⦄ calls initial in
    (lookup 1 st.sessions ≡ none)
    × (((s : Session) × (lookup 1 opened.sessions ≡ some s))
        × ((j : ℕ) → j ≢ 1 → lookup j opened.sessions ≡ lookup j st.sessions))
new_session-fresh_example =
    new_session-fresh ⦃s = native 1⦄ ⦃c = reading_codecs⦄ (native-AreSafe 1) still-IsSafeEngine
      calls 1 opened (omega arith) (ap Sessions.new_session calls_run ∙ new_session_run)
