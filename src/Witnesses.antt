-- ===== src/Witnesses.antt =====
-- The theorems on messages, sessions and whole runs at concrete inputs.
use veracruz.Base.{
  ℕ, zero, suc, ◌≡◌, ◌≢◌, ◌≤◌, ◌<◌, refl, true, false, none, some, Option, List, [], ◌∷◌, ◌++◌, ok,
  err, abort, arith, Result, ltb, if◌then◌else◌, length, pos, lookup, nat_eq, concat, replicate,
  String, insert, ◌>>=◌,
}
use veracruz.Vfs.Impl.{Bytes}
use veracruz.Vfs.Public
use veracruz.Vfs.Soundness.{IsSound, fs_frame}
use veracruz.Vfs.Soundness.Start.{new-IsSound}
use veracruz.Vfs.Soundness.Handles.{FsFurnished}
use veracruz.Native.Modules.{Libraries, native}
use veracruz.Policy.Principal.{Principal, RightsTable, principal_eq}
use veracruz.Policy.Contract.{
  Codecs, Policy, get_rights_table, expected_shutdown_list, get_file_hash_table, insert_hashes,
}
use veracruz.Wasi.{FileSystemResult}
use veracruz.Vfs.Handle.{FileSystem}
use veracruz.Runtime.Dispatch.{dispatch_on_request, dispatch_on_policy_hash, with_state}
use veracruz.Transport.Numbers.{to_be_bytes}
use veracruz.Transport.Framing.{set_length_prefix, handle_protocol_buffer}
use veracruz.Transport.Messages.{Codec, Message, RuntimeManagerRequest}
use veracruz.Transport.Reassembly.{
  AllFilled, IsDelivered, receive_all, receive_all-IsDelivered, handle_protocol_buffer-surplus,
}
use veracruz.Transport.Roundtrip.{IsFaithful}
use veracruz.Runtime.Protocol
use veracruz.Runtime.Protocol.{ProtocolState}
use veracruz.Runtime.Soundness.{IsInOrder, IsSafeEngine}
use veracruz.Runtime.Soundness.Requests.{serve_all}
use veracruz.Runtime.Soundness.Whole.{Implements, serve_all-Implements}
use veracruz.Examples.{level_wasi}
use veracruz.Scenarios.{length_codecs, still, policy}

-- A prefix of eight bytes for a message of three.
abbrev prefix : Bytes
prefix = 0 ∷ 0 ∷ 0 ∷ 0 ∷ 0 ∷ 0 ∷ 0 ∷ 3 ∷ []

receive_all-IsDelivered_example :
    IsDelivered 5 (7 ∷ 8 ∷ 9 ∷ []) 2 [] (receive_all 5 (prefix ∷ (7 ∷ []) ∷ (8 ∷ 9 ∷ []) ∷ []) [])
unfolding lookup AllFilled set_length_prefix to_be_bytes
receive_all-IsDelivered_example =
    receive_all-IsDelivered 5 (7 ∷ 8 ∷ 9 ∷ []) prefix ((7 ∷ []) ∷ (8 ∷ 9 ∷ []) ∷ []) [] refl
      (omega arith) (omega arith) (omega arith, (omega arith, tt)) refl

handle_protocol_buffer-surplus_example :
    let after = handle_protocol_buffer (some 5) ((prefix ++ (7 ∷ 8 ∷ 9 ∷ [])) ++ (1 ∷ [])) [] in
    (after.0 ≡ ok (7 ∷ 8 ∷ 9 ∷ 1 ∷ []))
    × (lookup 5 after.1 ≡ none)
    × ((j : ℕ) → j ≢ 5 → lookup j after.1 ≡ none)
unfolding lookup set_length_prefix to_be_bytes
handle_protocol_buffer-surplus_example =
    handle_protocol_buffer-surplus 5 (7 ∷ 8 ∷ 9 ∷ []) (1 ∷ []) (prefix ++ (7 ∷ 8 ∷ 9 ∷ [])) [] refl
      (omega arith) refl

-- A codec for two of the requests.
unfoldable pub encode_request : Option Message → ℕ → Option Bytes
encode_request (some Message.request_shutdown) zero = some (1 ∷ [])
encode_request (some Message.request_policy_hash) zero = some (2 ∷ [])
encode_request _ _ = none

abbrev pub request_of : Message → RuntimeManagerRequest
request_of m = record { message_oneof = some m; context = 0 }

unfoldable pub decode_request : Bytes → Option RuntimeManagerRequest
decode_request (suc zero ∷ []) = some (request_of Message.request_shutdown)
decode_request (suc (suc zero) ∷ []) = some (request_of Message.request_policy_hash)
decode_request _ = none

instance abbrev pub two_requests : Codec RuntimeManagerRequest
two_requests = record {
  parse_from_bytes = decode_request;
  write_to_bytes = λ m. encode_request m.message_oneof m.context;
}

pub two_requests-IsFaithful : IsFaithful two_requests
unfolding encode_request decode_request
two_requests-IsFaithful = record { decoded = λ m b e. ground arith; small = λ m b e. ground arith }

instance abbrev pub libraries : Libraries
libraries = record {
  aes_from_bytes = λ b. none;
  json_of_structs = λ b. some b;
  cipher = λ f key iv b. some (b, length b);
}

pub still-IsSafeEngine : IsSafeEngine still
still-IsSafeEngine = record { keeps = λ strategy f program clock g. (g, fs_frame.reflexive f) }

new-IsSound_example :
    IsSound (Public.new ((Principal.participant 0, []) ∷ [])).1
    × ((Public.new ((Principal.participant 0, []) ∷ [])).0 ≡ ok tt
        → FsFurnished (Public.new ((Principal.participant 0, []) ∷ [])).1)
new-IsSound_example = new-IsSound ((Principal.participant 0, []) ∷ [])

abbrev rights_table : RightsTable
rights_table =
    insert Principal.internal_super_user Protocol.su_read_rights (get_rights_table policy)

started : (Public.new rights_table).0 ≡ ok tt
unfolding Public.new veracruz.Base.◌>>=◌ veracruz.Vfs.Handle.lock_inode_table veracruz.Vfs.Table.new
    veracruz.Vfs.Table.add_dir veracruz.Vfs.Table.link veracruz.Vfs.Table.insert_entry
    veracruz.Vfs.Table.install_standard_streams_inode veracruz.Vfs.Table.new_inode
    veracruz.Base.contains_key veracruz.Base.insert veracruz.Vfs.Handle.bare
    veracruz.Vfs.Table.empty_table veracruz.Vfs.Table.add_file veracruz.Base.parent lookup
    veracruz.Base.file_name veracruz.Base.strip_root_slash veracruz.Base.components_of
    veracruz.Base.path_from veracruz.Base.split_slash veracruz.Vfs.Entry.get_inode_by_path
    veracruz.Vfs.Entry.insert_path veracruz.Vfs.Entry.on_impl veracruz.Vfs.Handle.install_fd
    veracruz.Vfs.Handle.install_prestat veracruz.Vfs.Handle.install_prestat_dirs
    veracruz.Vfs.Handle.install_standard_streams_fd veracruz.Vfs.Handle.install_stream
    veracruz.Vfs.Handle.is_std_path veracruz.Vfs.Handle.new_fd_entry
    veracruz.Vfs.Handle.prestat_inode veracruz.Vfs.Handle.put_fd veracruz.Vfs.Handle.std_stream
    veracruz.Vfs.Handle.std_streams_table veracruz.Vfs.Handle.without_std
    veracruz.Vfs.Impl.get_inode_by_path veracruz.Vfs.Impl.insert_path
    veracruz.Vfs.Impl.new_directory Public.install_services Public.install_super_user
    Public.new_aes_counter_mode_service veracruz.Vfs.Table.add_all_dir veracruz.Vfs.Table.at_inode
    veracruz.Vfs.Table.found_or_added veracruz.Vfs.Table.get
    veracruz.Vfs.Table.get_inode_by_inode_path veracruz.Vfs.Table.install_service
    veracruz.Vfs.Table.locate veracruz.Vfs.Table.new_dir_entry veracruz.Vfs.Table.new_file_entry
    veracruz.Vfs.Table.walk veracruz.Base.remove
started = refl

abbrev first_state : ProtocolState
first_state = record {
  global_policy = policy;
  global_policy_hash = "00";
  expected_shutdown_sources = expected_shutdown_list policy;
  vfs = (Public.new rights_table).1;
  digest_table = [];
}

assembled_first :
    (p : Policy) (hash : String) (y : FileSystemResult Unit × FileSystem)
    → y.0 ≡ ok tt
    → Protocol.assemble p hash [] y
      ≡ ok (record {
        global_policy = p;
        global_policy_hash = hash;
        expected_shutdown_sources = expected_shutdown_list p;
        vfs = y.1;
        digest_table = [];
      })
unfolding Protocol.assemble
assembled_first p hash (ok u, f) h = refl
assembled_first p hash (err e, f) h = absurd (grind arith)
assembled_first p hash (abort, f) h = absurd (grind arith)

made : Protocol.new policy "00" ≡ ok first_state
unfolding Protocol.new Protocol.with_digests get_file_hash_table insert_hashes
made = assembled_first policy "00" (Public.new rights_table) started

-- The text of every policy is read as the one policy.
abbrev pub reading_codecs : Codecs
reading_codecs = record length_codecs { from_str = λ s. some policy }

abbrev pub hashed : Policy
hashed = record policy { policy_hash = some "" }

abbrev pub second_state : ProtocolState
second_state = record first_state { global_policy = hashed; global_policy_hash = "" }

pub made_hashed : Protocol.new ⦃c = reading_codecs⦄ hashed "" ≡ ok second_state
unfolding Protocol.new Protocol.with_digests get_file_hash_table insert_hashes get_rights_table
    expected_shutdown_list
made_hashed = assembled_first hashed "" (Public.new rights_table) started

served :
    serve_all ⦃s = native 1⦄ ((0, Message.request_policy_hash) ∷ []) (some first_state)
    ≡ some first_state
unfolding serve_all dispatch_on_request dispatch_on_policy_hash with_state ◌>>=◌
served = refl

serve_all-Implements_example : IsInOrder first_state × Implements policy "00" first_state
serve_all-Implements_example =
    serve_all-Implements 1 still-IsSafeEngine policy "00" ((0, Message.request_policy_hash) ∷ [])
      first_state first_state made served
