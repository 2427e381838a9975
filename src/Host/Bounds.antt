-- ===== src/Host/Bounds.antt =====
-- execution-engine/src/wasi/common.rs, `MemoryHandler`: what the calls do to linear memory.
use veracruz.Base.{
  ◌>>=◌, ℕ, zero, suc, ◌≡◌, refl, ◌∙◌, ap, true, false, ◌≤◌, ◌<◌, ◌+◌, ◌^◌, Bool-cases, inl, inr,
  leb, List, [], ◌∷◌, ok, length, take, splice, length-splice, drop-splice, take-splice, arith,
  leb→le,
}
use veracruz.Hoare.{
  Frame, Triple, Always, weaken, Triple-bind, Triple-pure, Triple-lift, Triple-gets, Triple-fail_if,
  Triple-panic, Triple-if,
}
use veracruz.Vfs.Impl.{Bytes}
use veracruz.Vfs.Integrity.Contents.{Anything}
use veracruz.Host.Memory
use veracruz.Host.Memory.{MemoryExec, IoVec}

-- The memory keeps its length.
abbrev pub memory_frame : Frame Bytes
memory_frame = record {
  Good = λ m. Unit;
  Rel = λ m n. length n ≡ length m;
  reflexive = λ m. refl;
  transitive = λ a b c f g. g ∙ f;
}

abbrev pub MemoryKeeps : {A : Type 0} → MemoryExec A → Type 0
MemoryKeeps m = Triple memory_frame Always m Anything

module _ {A : Type 0} {pre : Bytes → Type 0} {m : MemoryExec A} where
  pub forget :
      {post : A → Bytes → Type 0}
      → Triple memory_frame Always m post
      → Triple memory_frame pre m Anything
  forget h = weaken memory_frame pre Anything (λ s p. tt) (λ a s g q. tt) h

pub step_then :
    {A B : Type 0} {m : MemoryExec A} {f : A → MemoryExec B}
    → MemoryKeeps m
    → ((a : A) → MemoryKeeps (f a))
    → MemoryKeeps (m >>= f)
step_then {f = f} h k =
    Triple-bind memory_frame Anything h
      (λ a. weaken memory_frame (Anything a) Anything (λ s p. tt) (λ b s g q. q) (k a))

pub get_slice-Keeps : (address len : ℕ) → MemoryKeeps (Memory.get_slice address len)
unfolding Memory.get_slice
get_slice-Keeps address len = record {
  run = λ m good p. elim (Bool-cases (leb (address + len) (length m))) [
    | inl e ↦ rw e (tt, refl, tt)
    | inr e ↦ rw e (tt, refl, tt)
  ];
}

put_slice-Keeps : (address : ℕ) (bytes : Bytes) → MemoryKeeps (Memory.put_slice address bytes)
unfolding Memory.put_slice
put_slice-Keeps address bytes = record {
  run = λ m good p. elim (Bool-cases (leb (address + length bytes) (length m))) [
    | inl e ↦ rw e (tt, length-splice address bytes m (leb→le _ _ e), tt)
    | inr e ↦ rw e (tt, refl, tt)
  ];
}

pub write_buffer-Keeps :
    (address : ℕ) (bytes : Bytes) → MemoryKeeps (Memory.write_buffer address bytes)
unfolding Memory.write_buffer
write_buffer-Keeps address bytes =
    step_then (forget (Triple-fail_if memory_frame Always _ _)) (λ u. put_slice-Keeps address bytes)

pub read_buffer-Keeps : (address len : ℕ) → MemoryKeeps (Memory.read_buffer address len)
unfolding Memory.read_buffer
read_buffer-Keeps address len =
    step_then (forget (Triple-fail_if memory_frame Always _ _)) (λ u. get_slice-Keeps address len)

pub write_u32-Keeps : (address n : ℕ) → MemoryKeeps (Memory.write_u32 address n)
unfolding Memory.write_u32
write_u32-Keeps address n = write_buffer-Keeps address _

pub write_u64-Keeps : (address n : ℕ) → MemoryKeeps (Memory.write_u64 address n)
unfolding Memory.write_u64
write_u64-Keeps address n = write_buffer-Keeps address _

range-Keeps : (start end : ℕ) → MemoryKeeps (Memory.range start end)
unfolding Memory.range
range-Keeps start end =
    Triple-if memory_frame _ (Triple-panic memory_frame Always Anything) (get_slice-Keeps start _)

pub unpack_places-Keeps : (address i count : ℕ) → MemoryKeeps (Memory.unpack_places address i count)
unfolding Memory.unpack_places
unpack_places-Keeps address i zero = forget (Triple-pure memory_frame Always _)
unpack_places-Keeps address i (suc count) = step_then (range-Keeps _ _) (λ bytes.
    step_then (forget (Triple-lift memory_frame Always _)) (λ iovec.
      step_then (range-Keeps _ _) (λ slice.
        step_then (unpack_places-Keeps address (i + 1) count)
          (λ others. forget (Triple-pure memory_frame Always _)))))

pub unpack_iovec-Keeps : (address count : ℕ) → MemoryKeeps (Memory.unpack_iovec address count)
unfolding Memory.unpack_iovec
unpack_iovec-Keeps address count =
    step_then (unpack_places-Keeps address 0 count)
      (λ places. forget (Triple-gets memory_frame Always _))

pub put_all-Keeps : (vs : List IoVec) (bs : List Bytes) → MemoryKeeps (Memory.put_all vs bs)
unfolding Memory.put_all
put_all-Keeps [] bs = forget (Triple-pure memory_frame Always tt)
put_all-Keeps (v ∷ vs) [] = forget (Triple-pure memory_frame Always tt)
put_all-Keeps (v ∷ vs) (b ∷ bs) = step_then (put_slice-Keeps v.buf b) (λ u. put_all-Keeps vs bs)

pub write_string_list-Keeps :
    (content : List Bytes) (a b : ℕ) → MemoryKeeps (Memory.write_string_list content a b)
unfolding Memory.write_string_list
write_string_list-Keeps [] a b = forget (Triple-pure memory_frame Always tt)
write_string_list-Keeps (bytes ∷ content) a b =
    step_then (write_buffer-Keeps a bytes)
      (λ u. step_then (write_u32-Keeps b a) (λ v. write_string_list-Keeps content _ _))

-- What is written to linear memory is read back from there, and the bytes below the address and the
-- size of the memory are kept. This takes a buffer of less than 2 ^ 32 bytes that lies inside the
-- memory.
pub write_buffer-read_buffer :
    (address : ℕ) (bytes m : Bytes)
    → length bytes < 2 ^ 32
    → address + length bytes ≤ length m
    → (Memory.read_buffer address (length bytes) (Memory.write_buffer address bytes m).1).0
        ≡ ok bytes
      × (take address (Memory.write_buffer address bytes m).1 ≡ take address m)
      × (length (Memory.write_buffer address bytes m).1 ≡ length m)
unfolding Memory.read_buffer Memory.write_buffer Memory.put_slice Memory.get_slice ◌>>=◌
write_buffer-read_buffer address bytes m small inside =
    let e1 : leb (2 ^ 32) (length bytes) ≡ false = ground arith in
    let e2 : leb (address + length bytes) (length m) ≡ true = ground arith in
    let same = length-splice address bytes m inside in
    let e3 : leb (address + length bytes) (length (splice address bytes m)) ≡ true = rw same e2 in
    rw (e1, e2, e3)
      (ap ok (drop-splice address bytes m inside), take-splice address bytes m (omega arith), same)
