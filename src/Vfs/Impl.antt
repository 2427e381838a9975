-- ===== src/Vfs/Impl.antt =====
-- execution-engine/src/fs.rs: `InodeImpl`, the data of an inode. A method that takes `&mut self`
-- is an action on the `InodeImpl`; the source's 64-bit conversions between `u64` and `usize` keep
-- the value.
use veracruz.Base.{
  ℕ, ◌+◌, Bool, true, false, some, none, List, [], ◌∷◌, min, Map, insert, lookup, length, take,
  drop, ◌++◌, resize, splice, ltb, if◌then◌else◌, FilePath, cur_dir, parent_dir, ok, err, abort,
  Exec, ◌>>=◌, ◌>>◌, pure, ◌^◌, path_eq,
}
use veracruz.Wasi.{ErrNo, FileSystemResult, inval, not_dir, no_ent}

abbrev pub Bytes : Type 0
Bytes = List ℕ

-- The states of the implementations of `Service`.
pub data Service : Type 0 where
  postcard_service : Service
  aes_counter_mode_service : Bytes → Bytes → FilePath → FilePath → Bool → Service

-- `Arc<Mutex<Box<dyn Service>>>`
pub record SharedService : Type 0 where
  pub state : Service
  pub locked : Bool

pub data InodeImpl : Type 0 where
  native_module : SharedService → Bytes → InodeImpl
  file : Bytes → InodeImpl
  directory : Map FilePath ℕ → InodeImpl

-- `.` and `..`
unfoldable pub new_directory : ℕ → ℕ → InodeImpl
new_directory current parent =
    directory (insert (parent_dir ∷ []) parent (insert (cur_dir ∷ []) current []))

-- `Vec::resize` panics where the bytes would be more than `isize::MAX`.
unfoldable pub resize_bytes : ℕ → ℕ → Bytes → FileSystemResult Bytes
resize_bytes size fill_byte b = if ltb size (2 ^ 63) then ok (resize size fill_byte b) else abort

-- The contents of a file or of a service's file; a directory has none.
unfoldable pub contents : InodeImpl → FileSystemResult Bytes
contents (native_module s b) = ok b
contents (file b) = ok b
contents (directory d) = err ErrNo.is_dir

unfoldable pub set_contents : Bytes → InodeImpl → InodeImpl
set_contents b (native_module s _) = native_module s b
set_contents b (file _) = file b
set_contents b (directory d) = directory d

unfoldable pub new_contents : (Bytes → FileSystemResult Bytes) → InodeImpl → FileSystemResult Bytes
unfolding contents
new_contents f i = elim (contents i) [ ok b ↦ f b | err e ↦ err e | abort ↦ abort ]

unfoldable pub replace_contents : FileSystemResult Bytes → Exec ErrNo InodeImpl Unit
unfolding set_contents
replace_contents (ok b) i = (ok tt, set_contents b i)
replace_contents (err e) i = (err e, i)
replace_contents abort i = (abort, i)

-- The contents replaced by a function of them.
unfoldable pub update_contents : (Bytes → FileSystemResult Bytes) → Exec ErrNo InodeImpl Unit
unfolding new_contents replace_contents
update_contents f i = replace_contents (new_contents f i) i

unfoldable pub resize_file : ℕ → ℕ → Exec ErrNo InodeImpl Unit
unfolding resize_bytes update_contents
resize_file size fill_byte = update_contents (resize_bytes size fill_byte)

-- The buffer as it is left, and the number of bytes read. `split_at` panics past the end.
unfoldable pub read_bytes_from_offset : Bytes → Bytes → ℕ → FileSystemResult (Bytes × ℕ)
read_bytes_from_offset bytes buf offset =
    let to_read = drop offset bytes in
    let read_length = min (length buf) (length to_read) in
    if ltb (length bytes) offset
    then abort
    else ok (take read_length to_read ++ drop read_length buf, read_length)

unfoldable pub read_file : Bytes → ℕ → InodeImpl → FileSystemResult (Bytes × ℕ)
unfolding read_bytes_from_offset contents
read_file buf offset impl = elim (contents impl) [
  | ok b ↦ read_bytes_from_offset b buf offset
  | err e ↦ err e
  | abort ↦ abort
]

-- The bytes of a file after `buf` is written at `offset`: it grows where it must, with zeros.
unfoldable pub write_bytes : Bytes → ℕ → Bytes → FileSystemResult Bytes
unfolding resize_bytes
write_bytes buf offset bytes =
    let grown = resize_bytes (offset + length buf) 0 bytes in
    elim (if ltb (length bytes) (offset + length buf) then grown else ok bytes) [
      | ok b ↦ ok (splice offset buf b)
      | err e ↦ err e
      | abort ↦ abort
    ]

unfoldable pub write_file : Bytes → ℕ → Exec ErrNo InodeImpl ℕ
unfolding write_bytes update_contents ◌>>=◌
write_file buf offset = do update_contents (write_bytes buf offset); pure (length buf)

unfoldable pub truncate_file : Exec ErrNo InodeImpl Unit
unfolding update_contents
truncate_file = update_contents (λ b. ok [])

-- `insert`, into a directory
unfoldable pub insert_path : FilePath → ℕ → Exec ErrNo InodeImpl Unit
insert_path path inode (directory d) = (ok tt, directory (insert path inode d))
insert_path path inode impl = (err not_dir, impl)

unfoldable pub get_inode_by_path : FilePath → InodeImpl → FileSystemResult ℕ
get_inode_by_path path (directory d) = elim (lookup path d) [
  | none ↦ err no_ent
  | some inode ↦ ok inode
]
get_inode_by_path path impl = err not_dir

unfoldable pub len : InodeImpl → ℕ
len (native_module s f) = length f
len (file f) = length f
len (directory d) = length d

unfoldable pub is_dir : InodeImpl → Bool
is_dir (directory d) = true
is_dir impl = false

unfoldable pub is_service : InodeImpl → Bool
is_service (native_module s b) = true
is_service impl = false

-- The service and a copy of the input, for a caller that has let go of the inode table.
unfoldable pub service_handler : InodeImpl → FileSystemResult (SharedService × Bytes)
service_handler (native_module s b) = ok (s, b)
service_handler impl = err inval
