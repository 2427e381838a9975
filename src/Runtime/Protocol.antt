-- ===== src/Runtime/Protocol.antt =====
-- runtime-manager/src/managers/mod.rs: `ProtocolState`, and the calls of the file system that it
-- makes on behalf of a client. The execution engine is the parameter `Engine`.
use veracruz.Base.{
  ◌>>=◌, ◌>>◌, none, pure, ℕ, path_eq, Exec, FilePath, Result, Option, Map, Bool, String, gets,
  lookup, if◌then◌else◌, root_dir, ok, List, insert, err, ◌∷◌, some, string_eq, abort, path_from,
  not, [], ◌==◌, length, ◌||◌, false, fail_if, contains_key, ok_or, true,
}
use veracruz.Policy.Principal.{principal_eq, ExecutionStrategy, Principal, PolicyError}
use veracruz.Wasi.{FileSystemResult, Wasi, ErrNo, access, no_ent}
use veracruz.Vfs.Impl.{Bytes}
use veracruz.Vfs.Handle.{FileSystem, FsExec}
use veracruz.Vfs.File.{Services}
use veracruz.Vfs.Public
use veracruz.Transport.Framing.{TransportProtocolError}
use veracruz.Session.Context.{SessionManagerError}
use veracruz.Policy.Contract
use veracruz.Policy.Contract.{
  Policy, Codecs, get_rights_table, get_file_hash_table, expected_shutdown_list,
}

-- The errors that the modelled code returns.
pub data RuntimeManagerError : Type 0 where
  file_system_error : ErrNo → RuntimeManagerError
  policy_error : PolicyError → RuntimeManagerError
  engine_error : RuntimeManagerError
  transport_protocol_error : TransportProtocolError → RuntimeManagerError
  session_manager_error : SessionManagerError → RuntimeManagerError
  uninitialized_session_error : String → RuntimeManagerError
  unavailable_session_error : ℕ → RuntimeManagerError
  no_data_error : RuntimeManagerError
  cert_error : RuntimeManagerError
  execution_denied : RuntimeManagerError
  uninitialized_protocol_state : RuntimeManagerError

pub record ProtocolState : Type 0 where
  pub global_policy : Policy
  pub global_policy_hash : String
  pub expected_shutdown_sources : List ℕ
  pub vfs : FileSystem
  pub digest_table : Map FilePath Bytes

abbrev pub StateExec : Type 0 → Type 0
StateExec A = Exec RuntimeManagerError ProtocolState A

-- `execution_engine::execute`, with `enable_clock` of its options: the return code of the program,
-- and the handle as the program leaves it.
pub record Engine : Type 0 where
  pub execute :
      ExecutionStrategy → FileSystem → Bytes → Bool → Result RuntimeManagerError ℕ × FileSystem

-- The results of the protocol, before their encoding.
pub data Response : Type 0 where
  success : Option Bytes → Response
  accepted : Response
  error_code_returned : ℕ → Response
  failed_invalid_request : Response
  policy_hash : String → Response
  pi_hash : String → Response

-- `From<ErrNo>`, which `?` applies.
unfoldable pub from_fs : {A : Type 0} → Result ErrNo A → Result RuntimeManagerError A
from_fs (ok a) = ok a
from_fs (err e) = err (file_system_error e)
from_fs abort = abort

-- A call of `self.vfs`.
unfoldable pub on_vfs : {A : Type 0} → FsExec A → StateExec A
unfolding from_fs
on_vfs m p = let (r, f) = m p.vfs in (from_fs r, record p { vfs = f })

-- `self.vfs.spawn(principal)?`, and a call of the new handle.
unfoldable pub on_behalf : {A : Type 0} → ⦃w : Wasi⦄ → Principal → FsExec A → StateExec A
on_behalf principal m = on_vfs (do handle ← Public.spawn principal; Public.on_handle handle m)

-- The loop over the digests, in parallel.
unfoldable pub digests_differ : Bytes → Bytes → Bool
digests_differ (lhs ∷ digest) (rhs ∷ incoming) = not (lhs == rhs) || digests_differ digest incoming
digests_differ _ _ = false

module _ ⦃c : Codecs⦄ where
  unfoldable pub check_digest : FilePath → Bytes → StateExec Unit
  check_digest path file_contents p = elim (lookup path p.digest_table) [
    | none ↦ (ok tt, p)
    | some digest ↦
        let incoming_digest = c.sha256 file_contents in
        if not (length incoming_digest == length digest)
        then (err (file_system_error access), p)
        else if digests_differ digest incoming_digest
        then (err (file_system_error access), p)
        else (ok tt, p)
  ]

module _ ⦃w : Wasi⦄ where
  abbrev pub su_read_rights : Map FilePath ℕ
  su_read_rights =
      (root_dir ∷ [], w.union (w.union (w.union w.path_open w.fd_read) w.fd_seek) w.fd_readdir) ∷ []

-- The end of `ProtocolState::new`, given the file system that was made or its error.
unfoldable pub assemble :
    Policy
    → String
    → Map FilePath Bytes
    → FileSystemResult (Unit {0}) × FileSystem
    → Result RuntimeManagerError ProtocolState
assemble global_policy global_policy_hash digest_table (err e, vfs) = err (file_system_error e)
assemble global_policy global_policy_hash digest_table (abort, vfs) = abort
assemble global_policy global_policy_hash digest_table (ok u, vfs) = ok (record {
  global_policy = global_policy;
  global_policy_hash = global_policy_hash;
  expected_shutdown_sources = expected_shutdown_list global_policy;
  vfs = vfs;
  digest_table = digest_table;
})

module _ ⦃w : Wasi⦄ where
  -- The file system for the rights of the policy, and for the super user's right to read.
  unfoldable pub with_digests :
      Policy
      → String
      → Result PolicyError (Map FilePath Bytes)
      → Result RuntimeManagerError ProtocolState
  unfolding assemble
  with_digests global_policy global_policy_hash (err e) = err (policy_error e)
  with_digests global_policy global_policy_hash abort = abort
  with_digests global_policy global_policy_hash (ok digest_table) =
      let rights_table =
        insert Principal.internal_super_user su_read_rights (get_rights_table global_policy) in
      assemble global_policy global_policy_hash digest_table (Public.new rights_table)

module _ ⦃w : Wasi⦄ ⦃c : Codecs⦄ where
  -- `ProtocolState::new`
  unfoldable pub new : Policy → String → Result RuntimeManagerError ProtocolState
  unfolding with_digests
  new global_policy global_policy_hash =
      with_digests global_policy global_policy_hash (get_file_hash_table global_policy)

unfoldable pub get_policy_hash : ProtocolState → String
get_policy_hash p = p.global_policy_hash

module _ ⦃w : Wasi⦄ ⦃s : Services⦄ where
  -- The file of a name, or the standard input.
  unfoldable pub write_named : String → Bytes → FsExec Unit
  write_named file_name file_contents =
      if string_eq.beq file_name "stdin"
      then (do Public.write_stdin file_contents; pure tt)
      else Public.write_file_by_absolute_path (path_from file_name) file_contents false

  module _ ⦃c : Codecs⦄ where
    unfoldable pub write_file : Principal → String → Bytes → StateExec Unit
    write_file client_id file_name file_contents = do
      check_digest (path_from file_name) file_contents
      on_behalf client_id (write_named file_name file_contents)

  unfoldable pub append_file : Principal → String → Bytes → StateExec Unit
  append_file client_id file_name file_contents = do
    guarded ← gets (λ p. contains_key (path_from file_name) p.digest_table)
    fail_if guarded (file_system_error access)
    on_behalf client_id
        (Public.write_file_by_absolute_path (path_from file_name) file_contents true)

module _ ⦃w : Wasi⦄ where
  unfoldable pub read_named : String → FsExec Bytes
  read_named file_name =
      if string_eq.beq file_name "stderr"
      then Public.read_stderr
      else if string_eq.beq file_name "stdout"
      then Public.read_stdout
      else Public.read_file_by_absolute_path (path_from file_name)

-- Nothing where the file is empty.
unfoldable pub non_empty : Bytes → Option Bytes
non_empty [] = none
non_empty (b ∷ bs) = some (b ∷ bs)

module _ ⦃w : Wasi⦄ where
  unfoldable pub read_file : Principal → String → StateExec (Option Bytes)
  read_file client_id file_name = do
    rst ← on_behalf client_id (read_named file_name)
    pure (non_empty rst)

  -- The engine's work on the handle of the program; the inode table is shared.
  unfoldable pub run_engine :
      ⦃e : Engine⦄ → ExecutionStrategy → Bool → FileSystem → Bytes → StateExec ℕ
  run_engine ⦃e⦄ strategy enable_clock handle program_bytes p =
      let (r, f) =
        e.execute strategy (record handle { inode_table = p.vfs.inode_table }) program_bytes
          enable_clock in
      (r, record p { vfs = record p.vfs { inode_table = f.inode_table } })

  module _ ⦃e : Engine⦄ where
    unfoldable pub execute : Principal → String → StateExec (Option Response)
    execute client_id file_name = do
      policy ← gets (λ p. p.global_policy)
      executable ← on_vfs (Public.is_executable client_id (path_from file_name))
      fail_if (not executable) execution_denied
      read ← read_file Principal.internal_super_user file_name
      program_bytes ← ok_or (file_system_error no_ent) read
      handle ← on_vfs (Public.spawn (Principal.program file_name))
      return_code ← run_engine policy.execution_strategy policy.enable_clock handle program_bytes
      pure (some (error_code_returned return_code))

unfoldable pub request_and_check_shutdown : ℕ → StateExec Bool
request_and_check_shutdown client_id =
    gets (λ p. Contract.member client_id p.expected_shutdown_sources)
