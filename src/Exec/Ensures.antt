-- ===== src/Exec/Ensures.antt =====
-- What holds after an action that returned: an early return with an error promises nothing.
use callifornia.Exec.{
  Result, ok, err, Action, pure, gets, modify, guard, or_raise, attempt, map_err, change_error,
  continue, ◌>>=◌,
}
use callifornia.Exec.Keeps.{Keeps}
use callifornia.Prelude.{◌≡◌, refl, Bool, true, false, Option, none, some}

-- From a state with `P`, an action that returns `a` ends in a state that is in `Q a`.
pub record Ensures {S E A : Type 0} (P : S → Type 0) (m : Action S E A) (Q : A → S → Type 0)
    : Type 0 where
  pub at : (s : S) (a : A) → P s → (m s).0 ≡ ok a → Q a (m s).1

module _ {S E A B : Type 0} {P : S → Type 0} {Q : A → S → Type 0} {R : B → S → Type 0} where
  pub Ensures-bind :
      (m : Action S E A) (f : A → Action S E B)
      → Ensures P m Q
      → ((a : A) → Ensures (Q a) (f a) R)
      → Ensures P (m >>= f) R
  unfolding ◌>>=◌
  Ensures-bind m f em ef = record {
    at = λ s b h e. go s b (m s).0 (m s).1 (λ a k. em.at s a h k) e;
  }
    where
      go :
          (s : S) (b : B) (r : Result E A) (s' : S)
          → ((a : A) → r ≡ ok a → Q a s')
          → (continue r f s').0 ≡ ok b
          → R b (continue r f s').1
      go s b (ok a) s' q e = (ef a).at s' b (q a refl) e
      go s b (err x) s' q e = absurd (cc)

module _ {S E A : Type 0} {P : S → Type 0} where
  pub Ensures-Keeps : (m : Action S E A) → Keeps P m → Ensures P m (λ _. P)
  Ensures-Keeps m k = record { at = λ s a h e. k.at s h }

  -- What does not depend on the state needs no step.
  pub Ensures-const : {C : Type 0} (m : Action S E A) → ((s : S) → P s → C) → Ensures P m (λ _ _. C)
  Ensures-const m c = record { at = λ s a h e. c s h }

  pub Ensures-gets : (f : S → A) → Ensures P (gets {E = E} f) (λ a s. P s × (f s ≡ a))
  unfolding gets
  Ensures-gets f = record { at = λ s a h e. (h, cc) }

module _ {S E : Type 0} {P : S → Type 0} where
  pub Ensures-guard : (b : Bool) (e : E) → Ensures P (guard b e) (λ _ s. P s × (b ≡ true))
  unfolding guard
  Ensures-guard true e = record { at = λ s a h k. (h, refl) }
  Ensures-guard false e = record { at = λ s a h k. absurd (cc) }

  pub Ensures-modify :
      {Q : S → Type 0} (f : S → S)
      → ((s : S) → P s → Q (f s))
      → Ensures P (modify {E = E} f) (λ _. Q)
  unfolding modify
  Ensures-modify f h = record { at = λ s a p e. h s p }

-- What a result promises, if it is no error.
abbrev pub IfOk : {S E A : Type 0} → (A → S → Type 0) → Result E A → S → Type 0
IfOk Q (ok a) s = Q a s
IfOk Q (err e) s = Unit

module _ {S E D A : Type 0} {P : S → Type 0} {Q : A → S → Type 0} where
  pub Ensures-attempt : (m : Action S E A) → Ensures P m Q → Ensures P (attempt {D = D} m) (IfOk Q)
  unfolding attempt
  Ensures-attempt m em = record { at = λ s a h e. rw (← returned e) (go s (m s).0 refl h) }
    where
      returned : {x y : Result E A} → ◌≡◌ {A = Result D (Result E A)} (ok x) (ok y) → x ≡ y
      returned e = cc

      go : (s : S) (r : Result E A) → (m s).0 ≡ r → P s → IfOk Q r (m s).1
      go s (ok a) e h = em.at s a h e
      go s (err x) e h = tt

module _ {S E D A : Type 0} {P : S → Type 0} {Q : A → S → Type 0} where
  pub Ensures-map_err : (f : E → D) (m : Action S E A) → Ensures P m Q → Ensures P (map_err f m) Q
  unfolding map_err
  Ensures-map_err f m em = record { at = λ s a h e. em.at s a h (returned (m s).0 a e) }
    where
      returned : (r : Result E A) (a : A) → change_error f r ≡ ok a → r ≡ ok a
      returned (ok b) a e = cc
      returned (err x) a e = absurd cc

module _ {S E A : Type 0} {P : S → Type 0} where
  pub Ensures-or_raise :
      (o : Option A) (e : E) → Ensures P (or_raise o e) (λ a s. P s × (o ≡ some a))
  unfolding or_raise
  Ensures-or_raise none e = record { at = λ s a h k. absurd cc }
  Ensures-or_raise (some b) e = record { at = λ s a h k. (h, cc) }

  pub Ensures-pure : (b : A) → Ensures P (pure {E = E} b) (λ a s. P s × (b ≡ a))
  unfolding pure
  Ensures-pure b = record { at = λ s a h k. (h, cc) }

  -- What an action keeps, with what it is known to return.
  pub Ensures-with :
      {C : A → Type 0} (m : Action S E A)
      → Keeps P m
      → ((s : S) (a : A) → (m s).0 ≡ ok a → C a)
      → Ensures P m (λ a s. P s × C a)
  Ensures-with m k f = record { at = λ s a h e. (k.at s h, f s a e) }

  pub Ensures-weaken :
      {Q R : A → S → Type 0} (m : Action S E A)
      → ((a : A) (s : S) → Q a s → R a s)
      → Ensures P m Q
      → Ensures P m R
  Ensures-weaken m f em = record { at = λ s a h e. f a (m s).1 (em.at s a h e) }

  -- A fact that does not depend on the state is carried on.
  pub Ensures-carry :
      {C : Type 0} {Q : A → S → Type 0} (m : Action S E A)
      → Ensures P m Q
      → Ensures (λ s. P s × C) m (λ a s. Q a s × C)
  Ensures-carry m em = record { at = λ s a h e. (em.at s a h.0 e, h.1) }
