-- ===== src/Native/Modules.antt =====
-- execution-engine/src/native_modules/aes.rs and postcard.rs: the two implementations of `Service`.
use veracruz.Base.{
  ℕ, zero, suc, Bool, true, false, none, some, Option, [], ◌∷◌, FilePath, root_dir, normal, ok,
  abort, ◌>>=◌, lift, ok_or,
}
use veracruz.Wasi.{Wasi, FileSystemResult, inval, canceled}
use veracruz.Vfs.Impl.{Bytes, Service, postcard_service, aes_counter_mode_service, resize_bytes}
use veracruz.Vfs.Handle.{FileSystem, FsExec}
use veracruz.Vfs.File.{Services}
use veracruz.Vfs.Public.{
  new_aes_counter_mode_service, read_file_by_absolute_path, write_file_by_absolute_path,
}

-- What the services take from `postcard`, `serde_json` and `psa_crypto`.
pub record Libraries : Type 0 where
  -- `postcard::from_bytes::<AesCounterModeService>`: the key, the vector, the paths and the flag
  pub aes_from_bytes : Bytes → Option (Bytes × Bytes × FilePath × FilePath × Bool)
  -- `postcard::from_bytes::<Vec<Struct3>>`, and the text of the value by `serde_json`
  pub json_of_structs : Bytes → Option Bytes
  -- `init`, `import`, and `encrypt` or `decrypt` by the flag: the filled buffer and the length
  pub cipher : Bool → Bytes → Bytes → Bytes → Option (Bytes × ℕ)

abbrev result_path : FilePath
result_path = root_dir ∷ normal "services" ∷ normal "postcard_result.dat" ∷ []

module _ ⦃l : Libraries⦄ where
  unfoldable pub try_parse : Service → Bytes → FileSystemResult Bool × Service
  try_parse postcard_service input = (ok true, postcard_service)
  try_parse (aes_counter_mode_service key iv source target is_encryption) input =
      elim (l.aes_from_bytes input) [
        | none ↦ (ok false, aes_counter_mode_service key iv source target is_encryption)
        | some (key', iv', source', target', is_encryption') ↦
            (ok true, aes_counter_mode_service key' iv' source' target' is_encryption')
      ]

module _ ⦃w : Wasi⦄ ⦃l : Libraries⦄ ⦃s : Services⦄ where
  unfoldable pub encryption_decryption : Bytes → Bytes → FilePath → FilePath → Bool → FsExec Unit
  encryption_decryption key iv input_path output_path is_encryption = do
    input ← read_file_by_absolute_path input_path
    (output, length) ← ok_or canceled (l.cipher is_encryption key iv input)
    resized ← lift (resize_bytes length 0 output)
    write_file_by_absolute_path output_path resized true

  unfoldable pub serve_postcard : Bytes → FsExec Unit
  serve_postcard inputs = do
    text ← ok_or inval (l.json_of_structs inputs)
    write_file_by_absolute_path result_path text false

  -- The state of the cipher is erased in any case.
  unfoldable pub serve : Service → Bytes → FileSystem → FileSystemResult Unit × Service × FileSystem
  serve postcard_service inputs fs =
      let (result, fs') = serve_postcard inputs fs in (result, postcard_service, fs')
  serve (aes_counter_mode_service key iv source target is_encryption) input fs =
      let (result, fs') = encryption_decryption key iv source target is_encryption fs in
      (result, new_aes_counter_mode_service, fs')

-- A service may write to the file of a service. The depth bounds how far such calls are nested.
unfoldable pub native : ⦃w : Wasi⦄ ⦃l : Libraries⦄ → ℕ → Services
native zero = record { try_parse = try_parse; serve = λ service input fs. (abort, service, fs) }
native (suc depth) = record { try_parse = try_parse; serve = serve ⦃s = native depth⦄ }
