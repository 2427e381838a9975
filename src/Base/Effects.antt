-- ===== src/Base/Effects.antt =====
-- Fallible methods that mutate an object. What was written before an error stays written, so the
-- state comes back beside the error too.
use mathlib.Core.Bool.{Bool, true, false}
use mathlib.Core.Option.{Option, none, some}

-- `abort` is a call that does not return: a panic, or a lock that is never given.
pub data Result {ℓ κ} (E : Type ℓ) (A : Type κ) : Type (ℓ ⊔ κ) where
  ok : A → Result E A
  err : E → Result E A
  abort : Result E A

abbrev pub Exec {ℓ} : Type ℓ → Type ℓ → Type ℓ → Type ℓ
Exec E S A = S → Result E A × S

module _ {ℓ} {E S A : Type ℓ} where
  unfoldable pub pure : A → Exec E S A
  pure a s = (ok a, s)

  unfoldable pub fail : E → Exec E S A
  fail e s = (err e, s)

  unfoldable pub panic : Exec E S A
  panic s = (abort, s)

  unfoldable pub lift : Result E A → Exec E S A
  lift r s = (r, s)

  unfoldable pub gets : (S → A) → Exec E S A
  gets f s = (ok (f s), s)

  -- `Option::ok_or(e)?`
  unfoldable pub ok_or : E → Option A → Exec E S A
  ok_or e none s = (err e, s)
  ok_or e (some a) s = (ok a, s)

  -- The result of a call that the caller goes on with, instead of `?`.
  unfoldable pub attempt : Exec E S A → Exec E S (Result E A)
  attempt m s = let (r, s') = m s in (ok r, s')

module _ {ℓ} {E S : Type ℓ} where
  unfoldable pub modify : (S → S) → Exec E S (Unit {ℓ})
  modify f s = (ok tt, f s)

  -- `if b { return Err(e); }`
  unfoldable pub fail_if : Bool → E → Exec E S (Unit {ℓ})
  fail_if true e s = (err e, s)
  fail_if false e s = (ok tt, s)

-- A method of a part of the object.
module _ {ℓ} {E S T A : Type ℓ} where
  unfoldable pub zoom : (S → T) → (T → S → S) → Exec E T A → Exec E S A
  zoom part put_back m s = let (r, t) = m (part s) in (r, put_back t s)

module _ {ℓ} {E S A B : Type ℓ} where
  abbrev pub follow : Result E A × S → (A → Exec E S B) → Result E B × S
  follow (ok a, s) f = f a s
  follow (err e, s) f = (err e, s)
  follow (abort, s) f = (abort, s)

  infixl 10 ◌>>=◌ ◌>>◌
  -- Opening this opens the actions above too.
  unfoldable pub ◌>>=◌ : Exec E S A → (A → Exec E S B) → Exec E S B
  unfolding pure fail panic lift gets ok_or attempt modify fail_if zoom
  ◌>>=◌ m f s = follow (m s) f

  abbrev pub ◌>>◌ : Exec E S A → Exec E S B → Exec E S B
  m >> n = m >>= λ _. n
