-- ===== src/Vfs/Integrity/Contents.antt =====
-- What the methods of `InodeEntry` keep: the status of a file fits its bytes, and a directory stays
-- the directory that it is.
use veracruz.Base.{
  Bool-cases, inl, inr, modify, List, [], ◌∷◌, sym, subst, length-resize, ◌∙◌, [], ℕ, ◌^◌, ◌<◌, ◌≡◌,
  Map, length, path_eq, ok, ◌>>◌, FilePath, arith, err, ◌>>=◌, abort, refl, Exec, pure, ◌+◌,
  length-splice, resize,
}
use veracruz.Hoare.{weaken, Triple-pure, Triple-bind, Frame, Triple, Always, OnOk_trivial}
use veracruz.Wasi.{Wasi, FileStat, FileSystemResult, ErrNo}
use veracruz.Vfs.Impl
use veracruz.Vfs.Impl.{Bytes, InodeImpl, SharedService, native_module, file, directory}
use veracruz.Vfs.Entry
use veracruz.Vfs.File
use veracruz.Vfs.Entry.{InodeEntry}
use veracruz.Vfs.Integrity.{SizeFits}

-- A directory stays the directory that it is.
pub record SameKind (e f : InodeEntry) : Type 0 where
  pub kind : Entry.is_dir f ≡ Entry.is_dir e
  pub same_dir : (d : Map FilePath ℕ) → f.impl ≡ directory d → e.impl ≡ directory d

pub SameKind-refl : (e : InodeEntry) → SameKind e e
SameKind-refl e = record { kind = refl; same_dir = λ d h. h }

pub SameKind-trans : (e f g : InodeEntry) → SameKind e f → SameKind f g → SameKind e g
SameKind-trans e f g a b = record {
  kind = b.kind ∙ a.kind;
  same_dir = λ d h. a.same_dir d (b.same_dir d h);
}

abbrev pub entry_frame : Frame InodeEntry
entry_frame = record {
  Good = SizeFits;
  Rel = SameKind;
  reflexive = SameKind-refl;
  transitive = SameKind-trans;
}

abbrev pub Anything : {A S : Type 0} → A → S → Type 0
Anything a s = Unit

-- A method that leaves directories alone, and keeps sizes right.
abbrev pub IsContentStep : {A : Type 0} → Exec ErrNo InodeEntry A → Type 0
IsContentStep m = Triple entry_frame Always m Anything

abbrev entry : FileStat → InodeImpl → InodeEntry
entry st i = record { file_stat = st; impl = i }

-- Every such method replaces the contents, and then writes down a size.
abbrev after : (InodeEntry → ℕ) → InodeEntry → FileSystemResult Bytes → InodeEntry
after g e (ok b) =
    let x : InodeEntry = record e { impl = Impl.set_contents b e.impl } in
    record x { file_stat = record x.file_stat { file_size = g x } }
after g e (err x) = e
after g e abort = e

module _ (g : InodeEntry → ℕ) where
  after-replace :
      (e : InodeEntry) (r : FileSystemResult Bytes)
      → ((do Entry.on_impl (Impl.replace_contents r); Entry.set_file_size g) e).1 ≡ after g e r
  unfolding Impl.replace_contents Entry.on_impl Entry.set_file_size ◌>>=◌
  after-replace e (ok b) = refl
  after-replace e (err x) = refl
  after-replace e abort = refl

  after-is_dir :
      (st : FileStat) (i : InodeImpl) (r : FileSystemResult Bytes)
      → Entry.is_dir (after g (entry st i) r) ≡ Entry.is_dir (entry st i)
  unfolding Entry.is_dir Impl.set_contents
  after-is_dir st (file b) (ok c) = refl
  after-is_dir st (native_module s b) (ok c) = refl
  after-is_dir st (directory d) (ok c) = refl
  after-is_dir st i (err x) = refl
  after-is_dir st i abort = refl

  after-same_dir :
      (st : FileStat) (i : InodeImpl) (r : FileSystemResult Bytes) (d : Map FilePath ℕ)
      → (after g (entry st i) r).impl ≡ directory d
      → i ≡ directory d
  unfolding Impl.set_contents
  after-same_dir st (file b) (ok c) d h = cc
  after-same_dir st (native_module s b) (ok c) d h = cc
  after-same_dir st (directory d') (ok c) d h = h
  after-same_dir st i (err x) d h = h
  after-same_dir st i abort d h = h

  after-SameKind : (e : InodeEntry) (r : FileSystemResult Bytes) → SameKind e (after g e r)
  after-SameKind e r = record {
    kind = after-is_dir e.file_stat e.impl r;
    same_dir = after-same_dir e.file_stat e.impl r;
  }

  -- The size that is written down is the number of bytes.
  after-SizeFits :
      (st : FileStat) (i : InodeImpl) (r : FileSystemResult Bytes)
      → ((c : Bytes)
          → r ≡ ok c
          → (length c < 2 ^ 63) × ((e : InodeEntry) → Impl.contents e.impl ≡ ok c → g e ≡ length c))
      → SizeFits (entry st i)
      → SizeFits (after g (entry st i) r)
  unfolding Impl.set_contents Impl.contents
  after-SizeFits st (file b) (ok c) m h x is =
      let (small, fits) = m c refl in ground (arith, small, fits (entry st (file c)) refl)
  after-SizeFits st (native_module s b) (ok c) m h x is =
      let (small, fits) = m c refl in
      ground (arith, small, fits (entry st (native_module s c)) refl)
  after-SizeFits st (directory d) (ok c) m h x is = cc
  after-SizeFits st i (err e) m h x is = h x is
  after-SizeFits st i abort m h x is = h x is

-- Any method of the form above, by its size.
module _ (f : Bytes → FileSystemResult Bytes) (g : InodeEntry → ℕ)
    (m : (b c : Bytes)
      → f b ≡ ok c
      → (length c < 2 ^ 63)
        × ((e : InodeEntry) → Impl.contents e.impl ≡ ok c → g e ≡ length c)) where
  measured :
      (i : InodeImpl) (c : Bytes)
      → Impl.new_contents f i ≡ ok c
      → (length c < 2 ^ 63) × ((e : InodeEntry) → Impl.contents e.impl ≡ ok c → g e ≡ length c)
  unfolding Impl.new_contents
  measured (file b) c h = m b c h
  measured (native_module s b) c h = m b c h
  measured (directory d) c h = cc

  update_step :
      (e : InodeEntry)
      → SizeFits e
      → SizeFits (after g e (Impl.new_contents f e.impl))
        × SameKind e (after g e (Impl.new_contents f e.impl))
  update_step e h =
      let r = Impl.new_contents f e.impl in
      (
        after-SizeFits g e.file_stat e.impl r (measured e.impl) h,
        record {
          kind = after-is_dir g e.file_stat e.impl r;
          same_dir = after-same_dir g e.file_stat e.impl r;
        },
      )

  update-IsContentStep :
      {A : Type 0} (step : Exec ErrNo InodeEntry A)
      → ((e : InodeEntry) → (step e).1 ≡ after g e (Impl.new_contents f e.impl))
      → IsContentStep step
  update-IsContentStep step same = record {
    run = λ e h _.
        let (size, kind) = update_step e h in
        (
          subst SizeFits (sym (same e)) size,
          subst (SameKind e) (sym (same e)) kind,
          OnOk_trivial (step e).0,
        );
  }

resize_file-measured :
    (size fill : ℕ) (b c : Bytes)
    → Impl.resize_bytes size fill b ≡ ok c
    → (length c < 2 ^ 63) × ((e : InodeEntry) → Impl.contents e.impl ≡ ok c → size ≡ length c)
unfolding Impl.resize_bytes
resize_file-measured size fill b c h =
    (ground (arith, length-resize size fill b), λ e is. ground (arith, length-resize size fill b))

pub resize_file-IsContentStep : (size fill : ℕ) → IsContentStep (Entry.resize_file size fill)
unfolding Entry.resize_file Impl.resize_file Impl.update_contents
resize_file-IsContentStep size fill =
    update-IsContentStep (Impl.resize_bytes size fill) (λ e. size) (resize_file-measured size fill)
      (Entry.resize_file size fill)
      (λ e. after-replace (λ e. size) e (Impl.new_contents (Impl.resize_bytes size fill) e.impl))

pub truncate_file-IsContentStep : IsContentStep Entry.truncate_file
unfolding Entry.truncate_file Impl.truncate_file Impl.update_contents
truncate_file-IsContentStep =
    update-IsContentStep (λ b. ok []) (λ e. 0) (λ b c h. (ground arith, λ e is. ground arith))
      Entry.truncate_file (λ e. after-replace (λ e. 0) e (Impl.new_contents (λ b. ok []) e.impl))

len-contents : (i : InodeImpl) (c : Bytes) → Impl.contents i ≡ ok c → Impl.len i ≡ length c
unfolding Impl.contents Impl.len
len-contents (file b) c h = ground arith
len-contents (native_module s b) c h = ground arith
len-contents (directory d) c h = cc

length-write_bytes :
    (buf : Bytes) (offset : ℕ) (b c : Bytes)
    → length b < 2 ^ 63
    → Impl.write_bytes buf offset b ≡ ok c
    → length c < 2 ^ 63
unfolding Impl.write_bytes
length-write_bytes buf offset b c small h = ground (
  arith,
  length-resize (offset + length buf) 0 b,
  length-splice offset buf b,
  length-splice offset buf (resize (offset + length buf) 0 b),
)

after-write :
    (n : ℕ) (e : InodeEntry) (r : FileSystemResult Bytes)
    → ((do
      rst ← Entry.on_impl (do Impl.replace_contents r; pure n)
      Entry.set_file_size (λ x. Impl.len x.impl)
      pure rst)
        e).1
      ≡ after (λ x. Impl.len x.impl) e r
unfolding Impl.replace_contents Entry.on_impl Entry.set_file_size ◌>>=◌
after-write n e (ok b) = refl
after-write n e (err x) = refl
after-write n e abort = refl

new_contents_source :
    (f : Bytes → FileSystemResult Bytes) (i : InodeImpl) (c : Bytes)
    → Impl.new_contents f i ≡ ok c
    → (b : Bytes) × (Impl.contents i ≡ ok b) × (f b ≡ ok c)
unfolding Impl.new_contents
new_contents_source f (file b) c h = (b, refl, h)
new_contents_source f (native_module s b) c h = (b, refl, h)
new_contents_source f (directory d) c h = cc

written-lt :
    (buf : Bytes) (offset : ℕ) (e : InodeEntry) (c : Bytes)
    → SizeFits e
    → Impl.new_contents (Impl.write_bytes buf offset) e.impl ≡ ok c
    → length c < 2 ^ 63
written-lt buf offset e c h is =
    let (b, old, new) = new_contents_source (Impl.write_bytes buf offset) e.impl c is in
    length-write_bytes buf offset b c (h b old).1 new

write_file-step :
    (buf : Bytes) (offset : ℕ) (e : InodeEntry)
    → SizeFits e
    → SizeFits (Entry.write_file buf offset e).1 × SameKind e (Entry.write_file buf offset e).1
unfolding Entry.write_file Impl.write_file Impl.update_contents
write_file-step buf offset e h =
    let r = Impl.new_contents (Impl.write_bytes buf offset) e.impl in
    let same = after-write (length buf) e r in
    (
      subst SizeFits (sym same) (
          after-SizeFits (λ x. Impl.len x.impl) e.file_stat e.impl r
            (λ c is. (written-lt buf offset e c h is, λ x. len-contents x.impl c)) h),
      subst (SameKind e) (sym same) (after-SameKind (λ x. Impl.len x.impl) e r),
    )

pub write_file-IsContentStep :
    (buf : Bytes) (offset : ℕ) → IsContentStep (Entry.write_file buf offset)
write_file-IsContentStep buf offset = record {
  run = λ e h _.
      let (size, kind) = write_file-step buf offset e h in
      (size, kind, OnOk_trivial (Entry.write_file buf offset e).0);
}

-- Several writes, one behind the other.
pub pwrite_bufs-IsContentStep :
    (bufs : List Bytes) (offset len : ℕ) → IsContentStep (File.pwrite_bufs bufs offset len)
unfolding File.pwrite_bufs
pwrite_bufs-IsContentStep [] offset len =
    weaken entry_frame Always Anything (λ e p. p) (λ a e g q. tt)
      (Triple-pure entry_frame Always len)
pwrite_bufs-IsContentStep (buf ∷ bufs) offset len =
    Triple-bind entry_frame Anything (write_file-IsContentStep buf offset)
      (λ delta. pwrite_bufs-IsContentStep bufs (offset + delta) (len + delta))

module _ ⦃w : Wasi⦄ where
  pub set_times-IsContentStep :
      (atime mtime fst_flags current_time : ℕ)
      → IsContentStep (File.set_times atime mtime fst_flags current_time)
  unfolding File.set_times modify Entry.is_dir
  set_times-IsContentStep atime mtime fst_flags current_time = record {
    run = λ e h _. (
      λ b is. ground (arith, h b),
      record { kind = ground arith; same_dir = λ d is. ground arith },
      tt,
    );
  }

pub truncate_service-IsContentStep : IsContentStep File.truncate_service
unfolding File.truncate_service
truncate_service-IsContentStep = record {
  run = λ e h _. elim (Bool-cases (Entry.is_service e)) [
    | inl yes' ↦ rw yes' (truncate_file-IsContentStep.run e h tt)
    | inr no' ↦ rw no' (h, SameKind-refl e, tt)
  ];
}
