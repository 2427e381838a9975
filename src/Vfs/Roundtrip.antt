-- ===== src/Vfs/Roundtrip.antt =====
-- Writes to a file and reads from it: what the bytes are afterwards.
use veracruz.Base.{
  Bool-cases, inl, inr, ltb→lt, take-resize, resize_shorter, ◌++◌, length-splice, drop-splice,
  length-drop, min, drop, false, refl, [], drop_all, append_nil, ℕ, ◌≡◌, ◌+◌, ◌^◌, ◌<◌, length,
  splice, resize, ok, arith, ltb, ◌≤◌, if◌then◌else◌, take, take_all, take-append_left, replicate,
  ◌-◌,
}
use veracruz.Vfs.Impl
use veracruz.Vfs.Entry
use veracruz.Vfs.Entry.{InodeEntry}
use veracruz.Vfs.Impl.{Bytes}
use veracruz.Base.{length-resize}

-- The bytes of a file when it has room for a write.
abbrev pub grown : Bytes → ℕ → Bytes → Bytes
grown buf offset bytes =
    if ltb (length bytes) (offset + length buf) then resize (offset + length buf) 0 bytes else bytes

grown_has_room :
    (buf : Bytes) (offset : ℕ) (bytes : Bytes)
    → offset + length buf ≤ length (grown buf offset bytes)
grown_has_room buf offset bytes = ground (arith, length-resize (offset + length buf) 0 bytes)

write_bytes_ok :
    (buf : Bytes) (offset : ℕ) (bytes : Bytes)
    → offset + length buf < 2 ^ 63
    → Impl.write_bytes buf offset bytes ≡ ok (splice offset buf (grown buf offset bytes))
unfolding Impl.write_bytes Impl.resize_bytes
write_bytes_ok buf offset bytes h = ground arith

-- The room that is made beyond the end is filled with zeros, and the bytes before stay.
resize_keeps :
    (n : ℕ) (bytes : Bytes) → length bytes ≤ n → take (length bytes) (resize n 0 bytes) ≡ bytes
unfolding resize
resize_keeps n bytes h =
    rw (take_all n bytes h) (take-append_left bytes (replicate (n - length bytes) 0))

abbrev pub after_write : Bytes → ℕ → Bytes → Bytes
after_write buf offset bytes = splice offset buf (grown buf offset bytes)

length-after_write :
    (buf : Bytes) (offset : ℕ) (bytes : Bytes)
    → offset + length buf ≤ length (after_write buf offset bytes)
length-after_write buf offset bytes = omega (
  arith,
  length-splice offset buf (grown buf offset bytes) (grown_has_room buf offset bytes),
  grown_has_room buf offset bytes,
)

read_back :
    (buf room : Bytes) (offset : ℕ) (new : Bytes)
    → offset + length buf ≤ length new
    → take (length buf) (drop offset new) ≡ buf
    → length room ≡ length buf
    → Impl.read_bytes_from_offset new room offset ≡ ok (buf, length buf)
unfolding Impl.read_bytes_from_offset
read_back buf room offset new fits found same =
    let shorter : min (length room) (length (drop offset new)) ≡ length buf =
      omega (arith, length-drop offset new) in
    let inside : ltb (length new) offset ≡ false = ground arith in
    let rest : drop (length buf) room ≡ [] = drop_all (length buf) room (omega arith) in
    rw (inside, shorter, found, rest, append_nil buf) refl

written :
    (buf : Bytes) (offset : ℕ) (e : InodeEntry) (bytes : Bytes)
    → e.impl ≡ Impl.file bytes
    → offset + length buf < 2 ^ 63
    → let new = after_write buf offset bytes in
      Entry.write_file buf offset e ≡ (
        ok (length buf),
        record e {
          impl = Impl.file new;
          file_stat = record e.file_stat { file_size = length new };
        },
      )
unfolding Entry.write_file Impl.write_file Impl.update_contents Impl.new_contents
    Impl.replace_contents Impl.contents Impl.set_contents Impl.len
written buf offset e bytes is_file small = rw (is_file, write_bytes_ok buf offset bytes small) refl

-- A buffer that is written at an offset of a file, and that ends below 2^63, is read back from the
-- same offset; all of it is reported as written, the recorded size of the file is the number of its
-- bytes, and that reaches the end of the buffer.
pub write_file-read_file :
    (buf room : Bytes) (offset : ℕ) (e : InodeEntry) (bytes : Bytes)
    → e.impl ≡ Impl.file bytes
    → offset + length buf < 2 ^ 63
    → length room ≡ length buf
    → let after = Entry.write_file buf offset e in
      (after.0 ≡ ok (length buf))
      × (Entry.read_file room offset after.1 ≡ ok (buf, length buf))
      × (after.1.file_stat.file_size ≡ Entry.len after.1)
      × (offset + length buf ≤ Entry.len after.1)
unfolding Entry.read_file Impl.read_file Impl.contents Entry.len Impl.len
write_file-read_file buf room offset e bytes is_file small same =
    rw (written buf offset e bytes is_file small) (
      refl,
      read_back buf room offset (after_write buf offset bytes) (length-after_write buf offset bytes)
          (drop-splice offset buf (grown buf offset bytes) (grown_has_room buf offset bytes)) same,
      refl,
      length-after_write buf offset bytes,
    )

-- What a file is after a write, by its parts.
abbrev pub overwritten : Bytes → ℕ → Bytes → Bytes
overwritten buf offset bytes = resize offset 0 bytes ++ (buf ++ drop (offset + length buf) bytes)

after_write-overwritten :
    (buf : Bytes) (offset : ℕ) (bytes : Bytes)
    → after_write buf offset bytes ≡ overwritten buf offset bytes
unfolding splice
after_write-overwritten buf offset bytes =
    elim (Bool-cases (ltb (length bytes) (offset + length buf))) [
      | inl short ↦
          let past = offset + length buf in
          let none_left : drop past (resize past 0 bytes) ≡ [] =
            drop_all past (resize past 0 bytes) (omega (arith, length-resize past 0 bytes)) in
          let none_before : drop past bytes ≡ [] =
            drop_all past bytes (omega (arith, ltb→lt (length bytes) past short)) in
          rw (short, none_left, none_before, take-resize offset past 0 bytes (omega arith)) refl
      | inr room ↦
          let inside : offset ≤ length bytes = ground arith in
          rw (room, resize_shorter offset 0 bytes inside) refl
    ]

-- After a write of a buffer at an offset of a file, where the buffer ends below 2^63, the file is
-- its old bytes up to the offset, with zeros where there were too few, then the buffer, then the
-- old bytes behind it; no byte outside of the range of the write is changed.
pub write_file-overwritten :
    (buf : Bytes) (offset : ℕ) (e : InodeEntry) (bytes : Bytes)
    → e.impl ≡ Impl.file bytes
    → offset + length buf < 2 ^ 63
    → (Entry.write_file buf offset e).1.impl ≡ Impl.file (overwritten buf offset bytes)
write_file-overwritten buf offset e bytes is_file small =
    rw (written buf offset e bytes is_file small, after_write-overwritten buf offset bytes) refl
