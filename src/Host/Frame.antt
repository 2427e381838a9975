-- ===== src/Host/Frame.antt =====
-- execution-engine/src/wasi/common.rs, `WasiWrapper`: what a call keeps, and steps of calls that
-- keep it.
use veracruz.Base.{◌>>=◌, ◌≡◌, refl, ◌∙◌, length, Option, attempt}
use veracruz.Hoare.{
  Frame, Triple, Always, weaken, OnOk_trivial, Triple-bind, Triple-ok_or, Triple-attempt,
}
use veracruz.Vfs.Handle.{FsExec}
use veracruz.Vfs.Integrity.Contents.{Anything}
use veracruz.Vfs.Soundness.{IsSound, FsGrows, FsKeeps, fs_frame}
use veracruz.Host.Memory.{MemoryExec}
use veracruz.Host.Bounds.{MemoryKeeps}
use veracruz.Host.Wrapper.{WasiWrapper, HostExec, on_memory, on_filesystem, decode}

-- The file system goes on, and the memory keeps its length.
pub record GoesOn (a b : WasiWrapper) : Type 0 where
  pub grows : FsGrows a.filesystem b.filesystem
  pub size : length b.memory ≡ length a.memory

pub GoesOn-refl : (a : WasiWrapper) → GoesOn a a
GoesOn-refl a = record { grows = fs_frame.reflexive a.filesystem; size = refl }

pub GoesOn-trans : (a b c : WasiWrapper) → GoesOn a b → GoesOn b c → GoesOn a c
GoesOn-trans a b c f g = record {
  grows = fs_frame.transitive a.filesystem b.filesystem c.filesystem f.grows g.grows;
  size = g.size ∙ f.size;
}

abbrev pub host_frame : Frame WasiWrapper
host_frame = record {
  Good = λ h. IsSound h.filesystem;
  Rel = GoesOn;
  reflexive = GoesOn-refl;
  transitive = GoesOn-trans;
}

abbrev pub HostKeeps : {A : Type 0} → HostExec A → Type 0
HostKeeps m = Triple host_frame Always m Anything

module _ {A : Type 0} {m : HostExec A} where
  pub forget : {post : A → WasiWrapper → Type 0} → Triple host_frame Always m post → HostKeeps m
  forget h = weaken host_frame Always Anything (λ s p. tt) (λ a s g q. tt) h

infixl 9 ◌and◌
abbrev pub ◌and◌ :
    {A B : Type 0} {m : HostExec A} {f : A → HostExec B}
    → HostKeeps m
    → ((a : A) → HostKeeps (f a))
    → HostKeeps (m >>= f)
h and k = Triple-bind host_frame Anything h k

pub memory-Keeps : {A : Type 0} {m : MemoryExec A} → MemoryKeeps m → HostKeeps (on_memory m)
unfolding on_memory
memory-Keeps h = record {
  run = λ s good p.
      let (_, same, _) = h.run s.memory tt tt in
      (good, record { grows = fs_frame.reflexive s.filesystem; size = same }, OnOk_trivial _);
}

pub files-Keeps : {A : Type 0} {m : FsExec A} → FsKeeps m → HostKeeps (on_filesystem m)
unfolding on_filesystem
files-Keeps h = record {
  run = λ s good p.
      let (good', grows, _) = h.run s.filesystem good tt in
      (good', record { grows = grows; size = refl }, OnOk_trivial _);
}

pub attempt-Keeps : {A : Type 0} {m : HostExec A} → HostKeeps m → HostKeeps (attempt m)
attempt-Keeps {m = m} h = forget (Triple-attempt host_frame Always m Anything h)

pub decode-Keeps : {A : Type 0} (o : Option A) → HostKeeps (decode o)
unfolding decode
decode-Keeps o = forget (Triple-ok_or host_frame Always _ o)
