-- ===== src/Native/Safety.antt =====
-- The services on sound handles.
use veracruz.Base.{ℕ, zero, suc, Bool, FilePath, true, false}
use veracruz.Wasi.{Wasi, canceled, inval}
use veracruz.Hoare.{Always, Triple-ok_or, Triple-lift}
use veracruz.Vfs.Impl.{Bytes, Service, aes_counter_mode_service, postcard_service, resize_bytes}
use veracruz.Vfs.Handle.{FileSystem}
use veracruz.Vfs.File.{Services}
use veracruz.Vfs.Soundness.{IsSound, FsGrows, FsKeeps, fs_frame, forget}
use veracruz.Vfs.Soundness.Files.{and_then}
use veracruz.Vfs.Soundness.Services.{AreSafe}
use veracruz.Vfs.Soundness.Principals.{
  read_file_by_absolute_path-Keeps, write_file_by_absolute_path-Keeps,
}
use veracruz.Native.Modules
use veracruz.Native.Modules.{Libraries, native, serve}

module _ ⦃w : Wasi⦄ ⦃l : Libraries⦄ ⦃s : Services⦄ (safe : AreSafe s) where
  encryption_decryption-Keeps :
      (key iv : Bytes) (source target : FilePath) (is_encryption : Bool)
      → FsKeeps (Modules.encryption_decryption key iv source target is_encryption)
  unfolding Modules.encryption_decryption
  encryption_decryption-Keeps key iv source target is_encryption =
      and_then (read_file_by_absolute_path-Keeps source) (λ input.
        and_then (forget (Triple-ok_or fs_frame Always canceled _)) (λ (output, length).
          and_then (forget (Triple-lift fs_frame Always (resize_bytes length 0 output)))
            (λ resized. write_file_by_absolute_path-Keeps safe target resized true)))

  serve_postcard-Keeps : (inputs : Bytes) → FsKeeps (Modules.serve_postcard inputs)
  unfolding Modules.serve_postcard
  serve_postcard-Keeps inputs =
      and_then (forget (Triple-ok_or fs_frame Always inval (l.json_of_structs inputs)))
        (λ text. write_file_by_absolute_path-Keeps safe _ text false)

  serve-IsSound :
      (service : Service) (input : Bytes) (f : FileSystem)
      → IsSound f
      → IsSound (serve service input f).2 × FsGrows f (serve service input f).2
  unfolding serve
  serve-IsSound postcard_service input f g =
      let (good, grows, _) = (serve_postcard-Keeps input).run f g tt in (good, grows)
  serve-IsSound (aes_counter_mode_service key iv source target e) input f g =
      let (good, grows, _) = (encryption_decryption-Keeps key iv source target e).run f g tt in
      (good, grows)

-- The installed services, which may write to the files of one another, leave every sound handle
-- sound, and lose no inode, at every depth of nesting.
pub native-AreSafe : ⦃w : Wasi⦄ ⦃l : Libraries⦄ (depth : ℕ) → AreSafe (native depth)
unfolding native
native-AreSafe zero = record { keeps = λ service input f g. (g, fs_frame.reflexive f) }
native-AreSafe (suc depth) = record {
  keeps = serve-IsSound ⦃s = native depth⦄ (native-AreSafe depth);
}
