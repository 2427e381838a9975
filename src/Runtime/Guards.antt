-- ===== src/Runtime/Guards.antt =====
-- What the protocol state refuses, and what ends it.
use veracruz.Base.{
  ℕ, ◌≡◌, refl, ◌≢◌, false, none, some, [], ◌∷◌, lookup, length, ok, err, arith, String, path_from,
  path_eq, ◌>>=◌, if◌then◌else◌,
}
use veracruz.Wasi.{Wasi, access}
use veracruz.Vfs.Impl.{Bytes}
use veracruz.Vfs.File.{Services}
use veracruz.Policy.Principal.{Principal}
use veracruz.Policy.Contract.{Codecs, member}
use veracruz.Runtime.Protocol
use veracruz.Runtime.Protocol.{
  ProtocolState, Engine, file_system_error, success, uninitialized_protocol_state, digests_differ,
}
use veracruz.Transport.Messages.{Message}
use veracruz.Runtime.Dispatch

digests_differ_lem :
    (xs ys : Bytes) → length ys ≡ length xs → digests_differ xs ys ≡ false → ys ≡ xs
unfolding digests_differ
digests_differ_lem [] [] l h = refl
digests_differ_lem [] (y ∷ ys) l h = absurd (omega arith)
digests_differ_lem (x ∷ xs) [] l h = absurd (omega arith)
digests_differ_lem (x ∷ xs) (y ∷ ys) l h = ground (arith, digests_differ_lem xs ys)

-- A client's request to write bytes whose digest is not the one that the policy has for the file is
-- refused, whoever the client is, and the state is left as it is.
pub write_file-digest :
    ⦃w : Wasi⦄ ⦃s : Services⦄ ⦃c : Codecs⦄ (client_id : Principal) (file_name : String)
    (bytes digest : Bytes) (p : ProtocolState)
    → lookup (path_from file_name) p.digest_table ≡ some digest
    → c.sha256 bytes ≢ digest
    → Protocol.write_file client_id file_name bytes p ≡ (err (file_system_error access), p)
unfolding Protocol.write_file Protocol.check_digest ◌>>=◌
write_file-digest ⦃c = c⦄ client_id file_name bytes digest p found wrong =
    ground (arith, digests_differ_lem digest (c.sha256 bytes))

-- A request for shutdown is answered alike to every client; it ends the computation exactly where
-- the client is one of the expected sources.
pub dispatch_on_request-shutdown :
    ⦃w : Wasi⦄ ⦃s : Services⦄ ⦃c : Codecs⦄ ⦃e : Engine⦄ (client_id : ℕ) (p : ProtocolState)
    → Dispatch.dispatch_on_request client_id Message.request_shutdown (some p) ≡ (
      ok (some (success none)),
      if member client_id p.expected_shutdown_sources then none else some p,
    )
unfolding Dispatch.dispatch_on_request Dispatch.dispatch_on_shutdown Dispatch.with_state
    Protocol.request_and_check_shutdown ◌>>=◌
dispatch_on_request-shutdown client_id p = ground arith

-- Where there is no state, before the policy is there and after a shutdown, every request of every
-- client is refused, and none makes a state.
pub dispatch_on_request-none :
    ⦃w : Wasi⦄ ⦃s : Services⦄ ⦃c : Codecs⦄ ⦃e : Engine⦄ (client_id : ℕ) (m : Message)
    → Dispatch.dispatch_on_request client_id m none ≡ (err uninitialized_protocol_state, none)
unfolding Dispatch.dispatch_on_request Dispatch.dispatch_on_shutdown Dispatch.with_state ◌>>=◌
dispatch_on_request-none client_id m = ground arith
