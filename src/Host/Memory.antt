-- ===== src/Host/Memory.antt =====
-- execution-engine/src/wasi/common.rs: `MemoryHandler`, on the linear memory of wasi/wasmi.rs,
-- whose slices panic out of range, with less than 2 ^ 32 bytes. Slices that overlap are written one
-- after the other.
use veracruz.Base.{
  ◌>>=◌, ◌>>◌, ℕ, zero, suc, ◌+◌, ◌*◌, ◌-◌, ◌/◌, ◌%◌, ◌^◌, List, [], ◌∷◌, Result, ok, err, abort,
  Exec, pure, panic, lift, gets, fail_if, if◌then◌else◌, ltb, leb, length, take, drop, splice,
}
use veracruz.Wasi.{ErrNo, inval}
use veracruz.Vfs.Impl.{Bytes}

abbrev pub MemoryExec : Type 0 → Type 0
MemoryExec A = Exec ErrNo Bytes A

-- `&memory[address..address + length]`
unfoldable pub get_slice : ℕ → ℕ → MemoryExec Bytes
get_slice address len m =
    if leb (address + len) (length m) then (ok (take len (drop address m)), m) else (abort, m)

unfoldable pub get_size : MemoryExec ℕ
get_size = gets (λ m. length m)

-- `copy_from_slice` on the mutable slice
unfoldable pub put_slice : ℕ → Bytes → MemoryExec Unit
put_slice address bytes m =
    if leb (address + length bytes) (length m) then (ok tt, splice address bytes m) else (abort, m)

unfoldable pub write_buffer : ℕ → Bytes → MemoryExec Unit
unfolding put_slice
write_buffer address buffer = do
  fail_if (leb (2 ^ 32) (length buffer)) inval
  put_slice address buffer

unfoldable pub read_buffer : ℕ → ℕ → MemoryExec Bytes
unfolding get_slice
read_buffer address len = do fail_if (leb (2 ^ 32) len) inval; get_slice address len

-- The lowest `width` bytes of a number, the lowest of them first, and the number of such bytes.
unfoldable pub le_bytes : ℕ → ℕ → Bytes
le_bytes zero n = []
le_bytes (suc width) n = n % 256 ∷ le_bytes width (n / 256)

unfoldable pub le_value : Bytes → ℕ
le_value [] = 0
le_value (b ∷ bs) = b + 256 * le_value bs

unfoldable pub write_u32 : ℕ → ℕ → MemoryExec Unit
unfolding le_bytes
write_u32 address number = write_buffer address (le_bytes 4 number)

unfoldable pub read_u32 : ℕ → MemoryExec ℕ
unfolding le_value
read_u32 address = do bytes ← read_buffer address 4; pure (le_value bytes)

unfoldable pub write_u64 : ℕ → ℕ → MemoryExec Unit
unfolding le_bytes
write_u64 address number = write_buffer address (le_bytes 8 number)

unfoldable pub read_u64 : ℕ → MemoryExec ℕ
unfolding le_value
read_u64 address = do bytes ← read_buffer address 8; pure (le_value bytes)

-- `IoVec`: where a buffer of the program is.
pub record IoVec : Type 0 where
  pub buf : ℕ
  pub len : ℕ

unfoldable pub unpack : Bytes → Result ErrNo IoVec
unfolding le_value
unpack bytes =
    if leb (length bytes) 7
    then err inval
    else if leb 9 (length bytes)
    then err inval
    else ok (record { buf = le_value (take 4 bytes); len = le_value (take 4 (drop 4 bytes)) })

-- `&memory[start..end]`
unfoldable pub range : ℕ → ℕ → MemoryExec Bytes
unfolding get_slice
range start end = if ltb end start then panic else get_slice start (end - start)

-- The places of the vectors, with the range check of each. Sums of `u32` wrap around.
unfoldable pub unpack_places : ℕ → ℕ → ℕ → MemoryExec (List IoVec)
unfolding range unpack
unpack_places address i zero = pure []
unpack_places address i (suc count) = do
  bytes ← range ((address + i * 8) % 2 ^ 32) ((address + (i + 1) * 8) % 2 ^ 32)
  iovec ← lift (unpack bytes)
  range iovec.buf ((iovec.buf + iovec.len) % 2 ^ 32)
  others ← unpack_places address (i + 1) count
  pure (iovec ∷ others)

-- The bytes at the places.
unfoldable pub contents_of : List IoVec → Bytes → List Bytes
contents_of [] m = []
contents_of (v ∷ vs) m = take v.len (drop v.buf m) ∷ contents_of vs m

unfoldable pub unpack_iovec : ℕ → ℕ → MemoryExec (List Bytes)
unfolding unpack_places contents_of
unpack_iovec address count = do places ← unpack_places address 0 count; gets (contents_of places)

-- What a read leaves in mutable slices.
unfoldable pub put_all : List IoVec → List Bytes → MemoryExec Unit
unfolding put_slice
put_all [] _ = pure tt
put_all (v ∷ vs) [] = pure tt
put_all (v ∷ vs) (b ∷ bs) = do put_slice v.buf b; put_all vs bs

unfoldable pub write_string_list : List Bytes → ℕ → ℕ → MemoryExec Unit
write_string_list [] buf_address buf_pointers = pure tt
write_string_list (to_write ∷ content) buf_address buf_pointers = do
  write_buffer buf_address to_write
  write_u32 buf_pointers buf_address
  write_string_list content ((buf_address + length to_write) % 2 ^ 32) ((buf_pointers + 4) % 2 ^ 32)
