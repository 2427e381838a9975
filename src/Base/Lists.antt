-- ===== src/Base/Lists.antt =====
-- Lists measured by native numbers, and the operations of Rust's `Vec<u8>` that the program uses.
use Prim.Native.Nat.{ℕ, zero, suc, ◌+◌, ◌-◌, ◌≤◌, min}
use mathlib.Core.Path.{◌≡◌, refl, ap}
use mathlib.Core.List.{List, [], ◌∷◌, ◌++◌}
use native.Mathlib.Omega.{arith}

module _ {ℓ} {A : Type ℓ} where
  abbrev pub length : List A → ℕ
  length [] = 0
  length (x ∷ xs) = suc (length xs)

  abbrev pub take : ℕ → List A → List A
  take zero xs = []
  take (suc n) [] = []
  take (suc n) (x ∷ xs) = x ∷ take n xs

  abbrev pub drop : ℕ → List A → List A
  drop zero xs = xs
  drop (suc n) [] = []
  drop (suc n) (x ∷ xs) = drop n xs

  abbrev pub replicate : ℕ → A → List A
  replicate zero a = []
  replicate (suc n) a = a ∷ replicate n a

  abbrev pub concat : List (List A) → List A
  concat [] = []
  concat (xs ∷ xss) = xs ++ concat xss

  pub length-append : (xs ys : List A) → length (xs ++ ys) ≡ length xs + length ys
  length-append [] ys = omega arith
  length-append (x ∷ xs) ys = omega (arith, length-append xs ys)

  pub length-take : (n : ℕ) (xs : List A) → length (take n xs) ≡ min n (length xs)
  length-take zero xs = omega arith
  length-take (suc n) [] = omega arith
  length-take (suc n) (x ∷ xs) = omega (arith, length-take n xs)

  pub length-drop : (n : ℕ) (xs : List A) → length (drop n xs) ≡ length xs - n
  length-drop zero xs = omega arith
  length-drop (suc n) [] = omega arith
  length-drop (suc n) (x ∷ xs) = omega (arith, length-drop n xs)

  pub length-replicate : (n : ℕ) (a : A) → length (replicate n a) ≡ n
  length-replicate zero a = refl
  length-replicate (suc n) a = ap suc (length-replicate n a)

  pub take_all : (n : ℕ) (xs : List A) → length xs ≤ n → take n xs ≡ xs
  take_all zero [] h = refl
  take_all zero (x ∷ xs) h = absurd (omega arith)
  take_all (suc n) [] h = refl
  take_all (suc n) (x ∷ xs) h = ap (λ l. x ∷ l) (take_all n xs (omega arith))

  pub drop_all : (n : ℕ) (xs : List A) → length xs ≤ n → drop n xs ≡ []
  drop_all zero [] h = refl
  drop_all zero (x ∷ xs) h = absurd (omega arith)
  drop_all (suc n) [] h = refl
  drop_all (suc n) (x ∷ xs) h = drop_all n xs (omega arith)

  pub append_nil : (xs : List A) → xs ++ [] ≡ xs
  append_nil [] = refl
  append_nil (x ∷ xs) = ap (λ l. x ∷ l) (append_nil xs)

  pub append_assoc : (xs ys zs : List A) → (xs ++ ys) ++ zs ≡ xs ++ (ys ++ zs)
  append_assoc [] ys zs = refl
  append_assoc (x ∷ xs) ys zs = ap (λ l. x ∷ l) (append_assoc xs ys zs)

  pub take-append_left : (xs ys : List A) → take (length xs) (xs ++ ys) ≡ xs
  take-append_left [] ys = refl
  take-append_left (x ∷ xs) ys = ap (λ l. x ∷ l) (take-append_left xs ys)

  pub drop-append_left : (xs ys : List A) → drop (length xs) (xs ++ ys) ≡ ys
  drop-append_left [] ys = refl
  drop-append_left (x ∷ xs) ys = drop-append_left xs ys

  -- Where two splits of a list meet, the later one holds the rest of the earlier one.
  pub split_append :
      (xs ws ys zs : List A)
      → length xs ≤ length ys
      → ys ++ zs ≡ xs ++ ws
      → (body : List A) × ((ys ≡ xs ++ body) × (body ++ zs ≡ ws))
  split_append [] ws ys zs h e = (ys, (refl, e))
  split_append (x ∷ xs) ws [] zs h e = absurd (omega arith)
  split_append (x ∷ xs) ws (y ∷ ys) zs h e =
      let (body, (front, back)) = split_append xs ws ys zs (omega arith) (cc) in (body, (cc, back))

module _ {ℓ} {A : Type ℓ} where
  -- `Vec::resize`
  unfoldable pub resize : ℕ → A → List A → List A
  resize n fill xs = take n xs ++ replicate (n - length xs) fill

  -- `xs[at .. at + ys.len()].copy_from_slice(&ys)`, where the range lies inside `xs`
  unfoldable pub splice : ℕ → List A → List A → List A
  splice at ys xs = take at xs ++ (ys ++ drop (at + length ys) xs)

  pub length-resize : (n : ℕ) (fill : A) (xs : List A) → length (resize n fill xs) ≡ n
  unfolding resize
  length-resize n fill xs = omega (
    arith,
    length-append (take n xs) (replicate (n - length xs) fill),
    length-take n xs,
    length-replicate (n - length xs) fill,
  )

  pub length-splice :
      (at : ℕ) (ys xs : List A) → at + length ys ≤ length xs → length (splice at ys xs) ≡ length xs
  unfolding splice
  length-splice at ys xs h = omega (
    arith,
    length-append (take at xs) (ys ++ drop (at + length ys) xs),
    length-append ys (drop (at + length ys) xs),
    length-take at xs,
    length-drop (at + length ys) xs,
  )

  -- What was copied in is found there.
  pub drop-splice :
      (at : ℕ) (ys xs : List A)
      → at + length ys ≤ length xs
      → take (length ys) (drop at (splice at ys xs)) ≡ ys
  unfolding splice
  drop-splice zero ys xs h = take-append_left ys (drop (zero + length ys) xs)
  drop-splice (suc at) ys [] h = absurd (omega arith)
  drop-splice (suc at) ys (x ∷ xs) h =
      let shift : suc at + length ys ≡ suc (at + length ys) = omega arith in
      rw shift (drop-splice at ys xs (omega arith))

  -- What stands before the place is kept.
  pub take-splice :
      (at : ℕ) (ys xs : List A) → at ≤ length xs → take at (splice at ys xs) ≡ take at xs
  unfolding splice
  take-splice zero ys xs h = refl
  take-splice (suc at) ys [] h = absurd (omega arith)
  take-splice (suc at) ys (x ∷ xs) h =
      ap (λ l. x ∷ l) (go at xs (ys ++ drop (suc at + length ys) (x ∷ xs)) (omega arith))
    where
      go : (n : ℕ) (l r : List A) → n ≤ length l → take n (take n l ++ r) ≡ take n l
      go zero l r h = refl
      go (suc n) [] r h = absurd (omega arith)
      go (suc n) (y ∷ l) r h = ap (λ l. y ∷ l) (go n l r (omega arith))

  take-replicate : (n m : ℕ) (a : A) → n ≤ m → take n (replicate m a) ≡ replicate n a
  take-replicate zero m a h = refl
  take-replicate (suc n) zero a h = absurd (omega arith)
  take-replicate (suc n) (suc m) a h = ap (λ l. a ∷ l) (take-replicate n m a (omega arith))

  -- The first part of what is resized is what is resized to that length.
  pub take-resize :
      (n m : ℕ) (fill : A) (xs : List A) → n ≤ m → take n (resize m fill xs) ≡ resize n fill xs
  unfolding resize
  take-resize zero m fill xs h =
      let none_left : zero - length xs ≡ 0 = omega arith in rw none_left refl
  take-resize (suc n) zero fill xs h = absurd (omega arith)
  take-resize (suc n) (suc m) fill [] h =
      let below : suc m - 0 ≡ suc m = omega arith in
      let above : suc n - 0 ≡ suc n = omega arith in
      rw (below, above) (take-replicate (suc n) (suc m) fill h)
  take-resize (suc n) (suc m) fill (x ∷ xs) h =
      let below : suc m - suc (length xs) ≡ m - length xs = omega arith in
      let above : suc n - suc (length xs) ≡ n - length xs = omega arith in
      rw (below, above) (ap (λ l. x ∷ l) (take-resize n m fill xs (omega arith)))

  pub resize_shorter :
      (n : ℕ) (fill : A) (xs : List A) → n ≤ length xs → resize n fill xs ≡ take n xs
  unfolding resize
  resize_shorter n fill xs h =
      let none_left : n - length xs ≡ 0 = omega arith in rw none_left (append_nil (take n xs))
