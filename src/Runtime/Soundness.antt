-- ===== src/Runtime/Soundness.antt =====
-- The protocol state through the requests of clients.
pub mod Requests
pub mod Whole
pub mod Globals
pub mod Statics
pub mod Platform
pub mod Fresh
use veracruz.Base.{
  ◌≡◌, refl, ◌∙◌, ok, err, abort, String, FilePath, path_from, Bool, not, ◌>>=◌, subst, sym, Result,
  false, arith, true,
}
use veracruz.Wasi.{Wasi, ErrNo}
use veracruz.Hoare.{
  Frame, Triple, Always, OnOk, OnOk_trivial, weaken, Triple-pure, Triple-bind, Triple-gets,
  Triple-fail_if, Triple-ok_or, Triple-if,
}
use veracruz.Vfs.Impl.{Bytes}
use veracruz.Vfs.Handle.{FileSystem, FsExec}
use veracruz.Vfs.File.{Services}
use veracruz.Vfs.Public
use veracruz.Policy.Principal.{Principal, ExecutionStrategy}
use veracruz.Policy.Contract.{Codecs}
use veracruz.Vfs.Integrity.Contents.{Anything}
use veracruz.Vfs.Soundness.{IsSound, FsGrows, FsKeeps, FsTriple, fs_frame}
use veracruz.Vfs.Soundness.Files.{and_then, pure-Keeps}
use veracruz.Vfs.Soundness.Services.{AreSafe}
use veracruz.Vfs.Soundness.Handles.{FsFurnished, Grows-IsFurnished}
use veracruz.Vfs.Soundness.Principals.{
  IsClientOf, on_table, outgrown, spawn-Triple, spawned-Furnishes, is_executable-Furnishes,
  read_std_stream-Keeps, read_file_by_absolute_path-Keeps, write_file_by_absolute_path-Keeps,
  write_stdin-Keeps,
}
use veracruz.Runtime.Protocol
use veracruz.Runtime.Protocol.{
  ProtocolState, StateExec, Engine, Response, RuntimeManagerError, from_fs,
}

pub record IsInOrder (p : ProtocolState) : Type 0 where
  pub sound : IsSound p.vfs
  pub furnished : FsFurnished p.vfs

-- The file system grows, and nothing else changes.
pub record Continues (p q : ProtocolState) : Type 0 where
  pub grows : FsGrows p.vfs q.vfs
  pub policy : q.global_policy ≡ p.global_policy
  pub hash : q.global_policy_hash ≡ p.global_policy_hash
  pub sources : q.expected_shutdown_sources ≡ p.expected_shutdown_sources
  pub digests : q.digest_table ≡ p.digest_table

pub Continues-refl : (p : ProtocolState) → Continues p p
Continues-refl p = record {
  grows = fs_frame.reflexive p.vfs;
  policy = refl;
  hash = refl;
  sources = refl;
  digests = refl;
}

pub Continues-trans : (p q r : ProtocolState) → Continues p q → Continues q r → Continues p r
Continues-trans p q r a b = record {
  grows = fs_frame.transitive p.vfs q.vfs r.vfs a.grows b.grows;
  policy = b.policy ∙ a.policy;
  hash = b.hash ∙ a.hash;
  sources = b.sources ∙ a.sources;
  digests = b.digests ∙ a.digests;
}

abbrev pub state_frame : Frame ProtocolState
state_frame = record {
  Good = IsInOrder;
  Rel = Continues;
  reflexive = Continues-refl;
  transitive = Continues-trans;
}

abbrev pub StateTriple :
    {A : Type 0} → (ProtocolState → Type 0) → StateExec A → (A → ProtocolState → Type 0) → Type 0
StateTriple pre m post = Triple state_frame pre m post

abbrev pub StateKeeps : {A : Type 0} → StateExec A → Type 0
StateKeeps m = StateTriple Always m Anything

module _ {A : Type 0} {pre : ProtocolState → Type 0} {m : StateExec A} where
  pub forget :
      {post : A → ProtocolState → Type 0} → StateTriple Always m post → StateTriple pre m Anything
  forget h = weaken state_frame pre Anything (λ s p. tt) (λ a s g q. tt) h

pub step_then :
    {A B : Type 0} {m : StateExec A} {f : A → StateExec B}
    → StateKeeps m
    → ((a : A) → StateKeeps (f a))
    → StateKeeps (m >>= f)
step_then h k = Triple-bind state_frame Anything h k

-- The change of the file system alone.
with_vfs :
    (p : ProtocolState) (f : FileSystem)
    → IsInOrder p
    → IsSound f
    → FsGrows p.vfs f
    → IsInOrder (record p { vfs = f }) × Continues p (record p { vfs = f })
with_vfs p f good sound grows = (
  record {
    sound = sound;
    furnished = Grows-IsFurnished p.vfs.inode_table f.inode_table grows good.furnished;
  },
  record { grows = grows; policy = refl; hash = refl; sources = refl; digests = refl },
)

from_fs-OnOk : {A : Type 0} (r : Result ErrNo A) (P : A → Type 0) → OnOk r P → OnOk (from_fs r) P
unfolding from_fs
from_fs-OnOk (ok a) P h = h
from_fs-OnOk (err e) P h = tt
from_fs-OnOk abort P h = tt

pub on_vfs-Triple :
    {A : Type 0} {m : FsExec A} (post : A → FileSystem → Type 0)
    → FsTriple FsFurnished m post
    → StateTriple Always (Protocol.on_vfs m) (λ a p. post a p.vfs)
unfolding Protocol.on_vfs
on_vfs-Triple {m} post h = record {
  run = λ p good _.
      let (sound, grows, q) = h.run p.vfs good.sound good.furnished in
      let (good', continues) = with_vfs p (m p.vfs).1 good sound grows in
      (good', continues, from_fs-OnOk (m p.vfs).0 (λ a. post a (m p.vfs).1) q);
}

module _ ⦃w : Wasi⦄ where
  on_behalf-Keeps :
      {A : Type 0} (principal : Principal) (m : FsExec A)
      → FsKeeps m
      → StateKeeps (Protocol.on_behalf principal m)
  unfolding Protocol.on_behalf
  on_behalf-Keeps principal m h =
      forget (on_vfs-Triple (λ a. FsFurnished) (spawned-Furnishes principal m h))

  pub read_file-Keeps :
      (client_id : Principal) (file_name : String)
      → StateKeeps (Protocol.read_file client_id file_name)
  unfolding Protocol.read_file Protocol.read_named Public.read_stdout Public.read_stderr
  read_file-Keeps client_id file_name =
      step_then
        (on_behalf-Keeps client_id (Protocol.read_named file_name) (
          Triple-if fs_frame _ (read_std_stream-Keeps 2) (
            Triple-if fs_frame _ (read_std_stream-Keeps 1)
              (read_file_by_absolute_path-Keeps (path_from file_name)))))
        (λ rst. forget (Triple-pure state_frame Always _))

-- An action that only reads.
reads-Keeps : {A : Type 0} {m : StateExec A} → ((p : ProtocolState) → (m p).1 ≡ p) → StateKeeps m
reads-Keeps {m} same = record {
  run = λ p good _.
      subst (λ q. IsInOrder q × Continues p q × OnOk (m p).0 (λ a. Unit)) (sym (same p))
        (good, Continues-refl p, OnOk_trivial (m p).0);
}

check_digest-reads :
    ⦃c : Codecs⦄ (path : FilePath) (bytes : Bytes) (p : ProtocolState)
    → (Protocol.check_digest path bytes p).1 ≡ p
unfolding Protocol.check_digest
check_digest-reads path bytes p = ground arith

module _ ⦃w : Wasi⦄ ⦃s : Services⦄ (safe : AreSafe s) where
  write_named-Keeps :
      (file_name : String) (bytes : Bytes) → FsKeeps (Protocol.write_named file_name bytes)
  unfolding Protocol.write_named
  write_named-Keeps file_name bytes =
      Triple-if fs_frame _ (and_then (write_stdin-Keeps safe bytes) (λ n. pure-Keeps tt))
        (write_file_by_absolute_path-Keeps safe (path_from file_name) bytes false)

  pub write_file-Keeps :
      ⦃c : Codecs⦄ (client_id : Principal) (file_name : String) (bytes : Bytes)
      → StateKeeps (Protocol.write_file client_id file_name bytes)
  unfolding Protocol.write_file
  write_file-Keeps client_id file_name bytes =
      step_then (reads-Keeps (check_digest-reads (path_from file_name) bytes))
        (λ u. on_behalf-Keeps client_id _ (write_named-Keeps file_name bytes))

  pub append_file-Keeps :
      (client_id : Principal) (file_name : String) (bytes : Bytes)
      → StateKeeps (Protocol.append_file client_id file_name bytes)
  unfolding Protocol.append_file
  append_file-Keeps client_id file_name bytes =
      step_then (forget (Triple-gets state_frame Always _)) (λ guarded.
        step_then (forget (Triple-fail_if state_frame Always guarded _)) (λ u.
          on_behalf-Keeps client_id _
            (write_file_by_absolute_path-Keeps safe (path_from file_name) bytes true)))

-- An engine may run any program on the handle that it is given, and leaves a sound one.
pub record IsSafeEngine (e : Engine) : Type 0 where
  pub keeps :
      (strategy : ExecutionStrategy) (f : FileSystem) (program : Bytes) (enable_clock : Bool)
      → IsSound f
      → IsSound (e.execute strategy f program enable_clock).1
        × FsGrows f (e.execute strategy f program enable_clock).1

module _ ⦃w : Wasi⦄ ⦃e : Engine⦄ (safe : IsSafeEngine e) where
  run_engine-Keeps :
      (strategy : ExecutionStrategy) (enable_clock : Bool) (g : FileSystem) (program : Bytes)
      → StateTriple
          (λ p. IsClientOf g p.vfs)
          (Protocol.run_engine strategy enable_clock g program)
          Anything
  unfolding Protocol.run_engine
  run_engine-Keeps strategy enable_clock g program = record {
    run = λ p good client.
        let y = e.execute strategy (on_table g p.vfs) program enable_clock in
        let (sound, grows) = safe.keeps strategy (on_table g p.vfs) program enable_clock client.0 in
        let (good', continues) =
          with_vfs p (on_table p.vfs y.1) good (outgrown p.vfs y.1 good.sound sound grows) grows in
        (good', continues, OnOk_trivial y.0);
  }

  pub execute-Keeps :
      (client_id : Principal) (file_name : String)
      → StateKeeps (Protocol.execute client_id file_name)
  unfolding Protocol.execute
  execute-Keeps client_id file_name =
      step_then (forget (Triple-gets state_frame Always _)) (λ policy.
        step_then
          (forget (
            on_vfs-Triple (λ a. FsFurnished)
              (is_executable-Furnishes client_id (path_from file_name))))
          (λ executable.
            step_then (forget (Triple-fail_if state_frame Always (not executable) _)) (λ u.
              step_then (read_file-Keeps Principal.internal_super_user file_name) (λ read.
                step_then (forget (Triple-ok_or state_frame Always _ read)) (λ program.
                  Triple-bind state_frame (λ g p. IsClientOf g p.vfs)
                    (on_vfs-Triple IsClientOf (spawn-Triple (Principal.program file_name)))
                    (λ g.
                      Triple-bind state_frame Anything
                        (run_engine-Keeps policy.execution_strategy policy.enable_clock g program)
                        (λ code. forget (Triple-pure state_frame Always _))))))))
