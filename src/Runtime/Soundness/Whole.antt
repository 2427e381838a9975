-- ===== src/Runtime/Soundness/Whole.antt =====
-- From the policy to the state after any requests, with the installed services.
use veracruz.Base.{
  ap, subst, ℕ, ◌≡◌, refl, sym, ◌∙◌, some, List, ok, err, abort, String, Map, FilePath, Result,
  insert,
}
use veracruz.Wasi.{Wasi, FileSystemResult}
use veracruz.Vfs.Impl.{Bytes}
use veracruz.Vfs.Handle.{FileSystem}
use veracruz.Vfs.Public
use veracruz.Policy.Principal.{principal_eq, Principal, PolicyError}
use veracruz.Policy.Contract.{
  Policy, Codecs, get_rights_table, get_file_hash_table, expected_shutdown_list,
}
use veracruz.Vfs.Soundness.{IsSound}
use veracruz.Vfs.Soundness.Handles.{FsFurnished}
use veracruz.Vfs.Soundness.Start.{new-IsSound}
use veracruz.Native.Modules.{Libraries, native}
use veracruz.Native.Safety.{native-AreSafe}
use veracruz.Runtime.Protocol
use veracruz.Runtime.Protocol.{ProtocolState, Engine, RuntimeManagerError}
use veracruz.Transport.Messages.{Message}
use veracruz.Runtime.Soundness.{IsInOrder, IsSafeEngine}
use veracruz.Runtime.Soundness.Requests.{serve_all, serve_all-IsInOrder}

-- What a new state has of the policy.
pub record Implements ⦃c : Codecs⦄ (policy : Policy) (hash : String) (p : ProtocolState)
    : Type 0 where
  pub policy_kept : p.global_policy ≡ policy
  pub hash_kept : p.global_policy_hash ≡ hash
  pub sources : p.expected_shutdown_sources ≡ expected_shutdown_list policy
  pub digests : get_file_hash_table policy ≡ ok p.digest_table

module _ (policy : Policy) (hash : String) (p : ProtocolState) where
  assembled :
      (digests : Map FilePath Bytes) (y : FileSystemResult Unit × FileSystem)
      → Protocol.assemble policy hash digests y ≡ ok p
      → (y.0 ≡ ok tt)
        × (p ≡ record {
          global_policy = policy;
          global_policy_hash = hash;
          expected_shutdown_sources = expected_shutdown_list policy;
          vfs = y.1;
          digest_table = digests;
        })
  unfolding Protocol.assemble
  assembled digests (ok u, f) done = (refl, cc)
  assembled digests (err e, f) done = cc
  assembled digests (abort, f) done = cc

  module _ ⦃w : Wasi⦄ ⦃c : Codecs⦄ where
    pub with_digests-IsInOrder :
        (r : Result PolicyError (Map FilePath Bytes))
        → get_file_hash_table policy ≡ r
        → Protocol.with_digests policy hash r ≡ ok p
        → IsInOrder p × Implements policy hash p
    unfolding Protocol.with_digests
    with_digests-IsInOrder (err e) same done = cc
    with_digests-IsInOrder abort same done = cc
    with_digests-IsInOrder (ok digests) same done =
        let rights_table =
          insert Principal.internal_super_user Protocol.su_read_rights (get_rights_table policy) in
        let (made, is) = assembled digests (Public.new rights_table) done in
        let (sound, furnished) = new-IsSound rights_table in
        (
          record {
            sound = subst IsSound (ap (λ q. q.vfs) (sym is)) sound;
            furnished = subst FsFurnished (ap (λ q. q.vfs) (sym is)) (furnished made);
          },
          record {
            policy_kept = ap (λ q. q.global_policy) is;
            hash_kept = ap (λ q. q.global_policy_hash) is;
            sources = ap (λ q. q.expected_shutdown_sources) is;
            digests = same ∙ ap (λ q. ok q.digest_table) (sym is);
          },
        )

-- A protocol state that is made from a policy and that has served any requests, with the installed
-- services and an engine that leaves handles sound, and was not stopped: its file system is sound,
-- with its root and its streams; it still has the policy, its hash, its clients as those that may
-- stop the computation, and the digests of the policy's files.
pub serve_all-Implements :
    ⦃w : Wasi⦄ ⦃l : Libraries⦄ ⦃c : Codecs⦄ ⦃e : Engine⦄ (depth : ℕ)
    → IsSafeEngine e
    → (policy : Policy) (hash : String) (requests : List (ℕ × Message)) (p q : ProtocolState)
    → Protocol.new policy hash ≡ ok p
    → serve_all ⦃s = native depth⦄ requests (some p) ≡ some q
    → IsInOrder q × Implements policy hash q
unfolding Protocol.new
serve_all-Implements depth safe_engine policy hash requests p q made served =
    let (good, start) =
      with_digests-IsInOrder policy hash p (get_file_hash_table policy) refl made in
    let (good', on) =
      serve_all-IsInOrder ⦃s = native depth⦄ (native-AreSafe depth) safe_engine requests p q good
        served in
    (
      good',
      record {
        policy_kept = on.policy ∙ start.policy_kept;
        hash_kept = on.hash ∙ start.hash_kept;
        sources = on.sources ∙ start.sources;
        digests = start.digests ∙ ap (λ t. ok t) (sym on.digests);
      },
    )
