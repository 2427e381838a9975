-- ===== src/Runtime/Strangers.antt =====
-- Clients that the policy does not know.
use veracruz.Base.{
  FilePath, path_from, Bool-cases, contains_key, ok, ◌⊎◌, inl, inr, ◌>>=◌, path_eq, ◌≡◌, refl, none,
  lookup, err, arith, String, true,
}
use veracruz.Wasi.{Wasi, access}
use veracruz.Vfs.Impl.{Bytes}
use veracruz.Vfs.Table
use veracruz.Vfs.Table.{InodeTable}
use veracruz.Vfs.Handle.{FileSystem, FsExec}
use veracruz.Vfs.File.{Services}
use veracruz.Vfs.Public
use veracruz.Policy.Principal.{Principal, principal_eq}
use veracruz.Policy.Contract.{Codecs}
use veracruz.Runtime.Protocol
use veracruz.Runtime.Protocol.{
  ProtocolState, StateExec, Engine, RuntimeManagerError, file_system_error,
}

abbrev pub IsStranger : Principal → ProtocolState → Type 0
IsStranger client_id p = lookup client_id p.vfs.inode_table.rights_table ≡ none

abbrev pub IsRefused : {A : Type 0} → StateExec A → ProtocolState → Type 0
IsRefused m p = m p ≡ (err (file_system_error access), p)

rights-none :
    (client_id : Principal) (t : InodeTable)
    → lookup client_id t.rights_table ≡ none
    → Table.get_rights client_id t ≡ err access
unfolding Table.get_rights
rights-none client_id t unknown = ground arith

-- The digest is checked first.
check_digest_cases :
    ⦃c : Codecs⦄ (path : FilePath) (bytes : Bytes) (p : ProtocolState)
    → (Protocol.check_digest path bytes p ≡ (ok tt, p))
      ⊎ IsRefused (Protocol.check_digest path bytes) p
unfolding Protocol.check_digest
check_digest_cases path bytes p = ground arith

module _ ⦃w : Wasi⦄ (client_id : Principal) where
  spawn-none :
      {A : Type 0} (k : FileSystem → FsExec A) (f : FileSystem)
      → lookup client_id f.inode_table.rights_table ≡ none
      → (Public.spawn client_id >>= k) f ≡ (err access, f)
  unfolding Public.spawn ◌>>=◌
  spawn-none k f unknown = rw (rights-none client_id f.inode_table unknown) refl

  module _ (p : ProtocolState) (stranger : IsStranger client_id p) where
    on_behalf-none : {A : Type 0} (m : FsExec A) → IsRefused (Protocol.on_behalf client_id m) p
    unfolding Protocol.on_behalf Protocol.on_vfs Protocol.from_fs
    on_behalf-none m = rw (spawn-none (λ g. Public.on_handle g m) p.vfs stranger) refl

    is_executable-none :
        (path : FilePath) → IsRefused (Protocol.on_vfs (Public.is_executable client_id path)) p
    unfolding Protocol.on_vfs Protocol.from_fs Public.is_executable
    is_executable-none path = rw (spawn-none _ p.vfs stranger) refl

-- A client that has no entry in the table of rights is refused, with `access`, whatever it asks
-- for: to write a file, to append to it, to read it or to execute it; and the state is left as it
-- is.
pub stranger-IsRefused :
    ⦃w : Wasi⦄ ⦃s : Services⦄ ⦃c : Codecs⦄ ⦃e : Engine⦄ (client_id : Principal) (file_name : String)
    (bytes : Bytes) (p : ProtocolState)
    → IsStranger client_id p
    → IsRefused (Protocol.write_file client_id file_name bytes) p
      × IsRefused (Protocol.append_file client_id file_name bytes) p
      × IsRefused (Protocol.read_file client_id file_name) p
      × IsRefused (Protocol.execute client_id file_name) p
unfolding Protocol.write_file Protocol.append_file Protocol.read_file Protocol.execute ◌>>=◌
stranger-IsRefused client_id file_name bytes p stranger = (
  elim (check_digest_cases (path_from file_name) bytes p) [
    | inl passed ↦
        rw (passed, on_behalf-none client_id p stranger (Protocol.write_named file_name bytes)) refl
    | inr refused ↦ rw refused refl
  ],
  elim (Bool-cases (contains_key (path_from file_name) p.digest_table)) [
    | inl guarded ↦ rw guarded refl
    | inr free ↦
        rw
          (
            free,
            on_behalf-none client_id p stranger
                (Public.write_file_by_absolute_path (path_from file_name) bytes true),
          )
          refl
  ],
  rw (on_behalf-none client_id p stranger (Protocol.read_named file_name)) refl,
  rw (is_executable-none client_id p stranger (path_from file_name)) refl,
)
