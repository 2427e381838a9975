-- ===== src/Hoare.antt =====
-- Reasoning about `Exec`: a triple over a frame, which is an invariant with a preorder of states
-- that every step goes up in. The postcondition is of the results that are returned; the invariant
-- and the preorder hold on every path, errors and panics included.
use veracruz.Base.{
  ◌≡◌, refl, Bool, true, false, Option, none, some, Result, ok, err, abort, Exec, ◌>>=◌, pure, fail,
  panic, lift, gets, ok_or, attempt, fail_if, if◌then◌else◌, subst, sym,
}

pub record Frame (S : Type 0) : Type 1 where
  pub Good : S → Type 0
  pub Rel : S → S → Type 0
  pub reflexive : (s : S) → Rel s s
  pub transitive : (s t u : S) → Rel s t → Rel t u → Rel s u

abbrev pub OnOk {ℓ} : {E A : Type 0} → Result E A → (A → Type ℓ) → Type ℓ
OnOk (ok a) Q = Q a
OnOk (err e) Q = Unit
OnOk abort Q = Unit

pub OnOk_const : {E A P : Type 0} (r : Result E A) → P → OnOk r (λ _. P)
OnOk_const (ok a) p = p
OnOk_const (err e) p = tt
OnOk_const abort p = tt

pub OnOk_trivial : {E A : Type 0} (r : Result E A) → OnOk r (λ _. Unit {0})
OnOk_trivial (ok a) = tt
OnOk_trivial (err e) = tt
OnOk_trivial abort = tt

module _ {E S A : Type 0} where
  pub record Triple (F : Frame S) (pre : S → Type 0) (m : Exec E S A) (post : A → S → Type 0)
      : Type 0 where
    pub run :
        (s : S)
        → F.Good s
        → pre s
        → F.Good (m s).1 × F.Rel s (m s).1 × OnOk (m s).0 (λ a. post a (m s).1)

-- What a triple says of the outcome of a run from `s`.
abbrev pub Outcome : {E S A : Type 0} → Frame S → S → (A → S → Type 0) → Result E A × S → Type 0
Outcome F s post y = F.Good y.1 × F.Rel s y.1 × OnOk y.0 (λ a. post a y.1)

pub outcome :
    {E S A : Type 0} (F : Frame S) (s : S) (post : A → S → Type 0) {x y : Result E A × S}
    → y ≡ x
    → Outcome F s post x
    → Outcome F s post y
outcome F s post e h = subst (Outcome F s post) (sym e) h

abbrev pub Always : {S : Type 0} → S → Type 0
Always s = Unit

module _ {E S : Type 0} (F : Frame S) where
  module _ {A : Type 0} (pre : S → Type 0) where
    pub Triple-pure : (a : A) → Triple F pre (pure {E = E} a) (λ b s. (b ≡ a) × pre s)
    unfolding pure
    Triple-pure a = record { run = λ s g p. (g, F.reflexive s, (refl, p)) }

    pub Triple-fail : (e : E) (post : A → S → Type 0) → Triple F pre (fail e) post
    unfolding fail
    Triple-fail e post = record { run = λ s g p. (g, F.reflexive s, tt) }

    pub Triple-panic : (post : A → S → Type 0) → Triple F pre (panic {E = E}) post
    unfolding panic
    Triple-panic post = record { run = λ s g p. (g, F.reflexive s, tt) }

    pub Triple-gets : (h : S → A) → Triple F pre (gets {E = E} h) (λ a s. (a ≡ h s) × pre s)
    unfolding gets
    Triple-gets h = record { run = λ s g p. (g, F.reflexive s, (refl, p)) }

    pub Triple-lift : (r : Result E A) → Triple F pre (lift r) (λ a s. (r ≡ ok a) × pre s)
    unfolding lift
    Triple-lift (ok a) = record { run = λ s g p. (g, F.reflexive s, (refl, p)) }
    Triple-lift (err e) = record { run = λ s g p. (g, F.reflexive s, tt) }
    Triple-lift abort = record { run = λ s g p. (g, F.reflexive s, tt) }

    pub Triple-ok_or :
        (e : E) (o : Option A) → Triple F pre (ok_or e o) (λ a s. (o ≡ some a) × pre s)
    unfolding ok_or
    Triple-ok_or e none = record { run = λ s g p. (g, F.reflexive s, tt) }
    Triple-ok_or e (some a) = record { run = λ s g p. (g, F.reflexive s, (refl, p)) }

    pub Triple-attempt :
        (m : Exec E S A) (post : A → S → Type 0)
        → Triple F pre m post
        → Triple F pre (attempt m) (λ r s. OnOk r (λ a. post a s))
    unfolding attempt
    Triple-attempt m post h = record { run = λ s g p. h.run s g p }

  pub Triple-fail_if :
      (pre : S → Type 0) (b : Bool) (e : E)
      → Triple F pre (fail_if b e) (λ _ s. (b ≡ false) × pre s)
  unfolding fail_if
  Triple-fail_if pre true e = record { run = λ s g p. (g, F.reflexive s, tt) }
  Triple-fail_if pre false e = record { run = λ s g p. (g, F.reflexive s, (refl, p)) }

  module _ {A : Type 0} {pre : S → Type 0} {post : A → S → Type 0} where
    pub Triple-if :
        (b : Bool) {m n : Exec E S A}
        → Triple F pre m post
        → Triple F pre n post
        → Triple F pre (if b then m else n) post
    Triple-if true h k = h
    Triple-if false h k = k

    -- A stronger precondition, and a weaker postcondition.
    pub weaken :
        {m : Exec E S A} (pre' : S → Type 0) (post' : A → S → Type 0)
        → ((s : S) → pre' s → pre s)
        → ((a : A) (s : S) → F.Good s → post a s → post' a s)
        → Triple F pre m post
        → Triple F pre' m post'
    weaken {m} pre' post' narrow widen h = record {
      run = λ s g p.
          let (g', r, q) = h.run s g (narrow s p) in (g', r, widen_ok (m s).0 (m s).1 g' q);
    }
      where
        widen_ok :
            (r : Result E A) (s : S) → F.Good s → OnOk r (λ a. post a s) → OnOk r (λ a. post' a s)
        widen_ok (ok a) s g q = widen a s g q
        widen_ok (err e) s g q = tt
        widen_ok abort s g q = tt

    -- A fact that no step undoes is kept.
    pub with_stable :
        {m : Exec E S A} (K : S → Type 0)
        → ((s t : S) → F.Rel s t → K s → K t)
        → Triple F pre m post
        → Triple F (λ s. pre s × K s) m (λ a s. post a s × K s)
    with_stable {m} K stable h = record {
      run = λ s g p.
          let (g', r, q) = h.run s g p.0 in (g', r, add (m s).0 (m s).1 q (stable s (m s).1 r p.1));
    }
      where
        add : (r : Result E A) (s : S) → OnOk r (λ a. post a s) → K s → OnOk r (λ a. post a s × K s)
        add (ok a) s q k = (q, k)
        add (err e) s q k = tt
        add abort s q k = tt

module _ {E S A B : Type 0} (F : Frame S) (mid : A → S → Type 0) {post : B → S → Type 0} where
  after :
      (s t : S) (r : Result E A) (f : A → Exec E S B)
      → ((a : A) → Triple F (mid a) (f a) post)
      → F.Good t × F.Rel s t × OnOk r (λ a. mid a t)
      → let m = lift r >>= f in
        F.Good (m t).1 × F.Rel s (m t).1 × OnOk (m t).0 (λ b. post b (m t).1)
  unfolding ◌>>=◌
  after s t (ok a) f next (g, r, q) =
      let (g', r', q') = (next a).run t g q in (g', F.transitive s t (f a t).1 r r', q')
  after s t (err e) f next (g, r, q) = (g, r, tt)
  after s t abort f next (g, r, q) = (g, r, tt)

  pub Triple-bind :
      {pre : S → Type 0} {m : Exec E S A} {f : A → Exec E S B}
      → Triple F pre m mid
      → ((a : A) → Triple F (mid a) (f a) post)
      → Triple F pre (m >>= f) post
  unfolding ◌>>=◌
  Triple-bind {pre} {m} {f} first next = record {
    run = λ s g p. after s (m s).1 (m s).0 f next (first.run s g p);
  }
