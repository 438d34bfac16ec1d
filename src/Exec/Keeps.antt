-- ===== src/Exec/Keeps.antt =====
-- Invariants of actions: one rule for each way to build an action.
use callifornia.Exec.{
  Result, ok, err, Action, pure, raise, gets, or_raise, total, modify, continue, ◌>>=◌, map_err,
  attempt, ignore, zoom, when, guard, when_some, for_each,
}
use callifornia.Prelude.{Bool, true, false, Option, none, some, List, [], ◌∷◌, if◌then◌else◌}

-- The action keeps `P`, whether it returns or fails.
pub record Keeps {S E A : Type 0} (P : S → Type 0) (m : Action S E A) : Type 0 where
  pub at : (s : S) → P s → P (m s).1

module _ {S E A : Type 0} {P : S → Type 0} where
  pub Keeps-if :
      (b : Bool) (m n : Action S E A) → Keeps P m → Keeps P n → Keeps P (if b then m else n)
  Keeps-if true m n km kn = km
  Keeps-if false m n km kn = kn

  pub Keeps-gets : (read : S → A) → Keeps P (gets {E = E} read)
  unfolding gets
  Keeps-gets read = record { at = λ _ held. held }

  pub Keeps-or_raise : (o : Option A) (e : E) → Keeps P (or_raise o e)
  unfolding or_raise
  Keeps-or_raise none e = record { at = λ s h. h }
  Keeps-or_raise (some a) e = record { at = λ s h. h }

  pub Keeps-total : (f : S → A × S) → ((s : S) → P s → P (f s).1) → Keeps P (total {E = E} f)
  unfolding total
  Keeps-total f k = record { at = k }

  pub Keeps-pure : (result : A) → Keeps P (pure {E = E} result)
  unfolding pure
  Keeps-pure result = record { at = λ _ held. held }

  pub Keeps-raise : (e : E) → Keeps P (raise {A = A} e)
  unfolding raise
  Keeps-raise e = record { at = λ _ held. held }

module _ {S E : Type 0} {P : S → Type 0} where
  pub Keeps-modify : (f : S → S) → ((s : S) → P s → P (f s)) → Keeps P (modify {E = E} f)
  unfolding modify
  Keeps-modify f k = record { at = k }

  pub Keeps-guard : (b : Bool) (e : E) → Keeps P (guard b e)
  unfolding guard
  Keeps-guard true e = record { at = λ s h. h }
  Keeps-guard false e = record { at = λ s h. h }

  pub Keeps-when : (b : Bool) (m : Action S E (Unit {0})) → Keeps P m → Keeps P (when b m)
  unfolding when
  Keeps-when true m k = record { at = λ s h. k.at s h }
  Keeps-when false m k = record { at = λ s h. h }

module _ {S E A B : Type 0} {P : S → Type 0} (next : A → Action S E B)
    (kept : (a : A) → Keeps P (next a)) where
  Keeps-continue : (r : Result E A) → Keeps P (continue r next)
  Keeps-continue (ok a) = record { at = λ s. (kept a).at s }
  Keeps-continue (err e) = record { at = λ _ held. held }

module _ {S E A B : Type 0} {P : S → Type 0} where
  pub Keeps-bind :
      (first : Action S E A) (next : A → Action S E B)
      → Keeps P first
      → ((a : A) → Keeps P (next a))
      → Keeps P (first >>= next)
  unfolding ◌>>=◌
  Keeps-bind first next before after = record {
    at = λ s held. (Keeps-continue next after (first s).0).at (first s).1 (before.at s held);
  }

module _ {S E D A : Type 0} {P : S → Type 0} where
  pub Keeps-map_err : (f : E → D) (m : Action S E A) → Keeps P m → Keeps P (map_err f m)
  unfolding map_err
  Keeps-map_err f m k = record { at = k.at }

  pub Keeps-attempt : (m : Action S E A) → Keeps P m → Keeps P (attempt {D = D} m)
  unfolding attempt
  Keeps-attempt m k = record { at = k.at }

  pub Keeps-ignore : (m : Action S E A) → Keeps P m → Keeps P (ignore {D = D} m)
  unfolding ignore
  Keeps-ignore m k = record { at = k.at }

module _ {S T E A : Type 0} {P : S → Type 0} {Q : T → Type 0} where
  -- A part of the state, whose invariant is a part of the whole one.
  pub Keeps-zoom :
      (get : S → T) (put : T → S → S) (m : Action T E A)
      → ((s : S) → P s → Q (get s))
      → ((t : T) (s : S) → P s → Q t → P (put t s))
      → Keeps Q m
      → Keeps P (zoom get put m)
  unfolding zoom
  Keeps-zoom get put m view back k = record {
    at = λ s h. back (m (get s)).1 s h (k.at (get s) (view s h));
  }

module _ {S E A : Type 0} {P : S → Type 0} where
  pub Keeps-when_some :
      (o : Option A) (f : A → Action S E (Unit {0}))
      → ((a : A) → Keeps P (f a))
      → Keeps P (when_some o f)
  unfolding when_some
  Keeps-when_some none f k = record { at = λ s h. h }
  Keeps-when_some (some a) f k = record { at = λ s h. (k a).at s h }

  pub Keeps-for_each :
      (xs : List A) (f : A → Action S E (Unit {0}))
      → ((a : A) → Keeps P (f a))
      → Keeps P (for_each xs f)
  unfolding for_each
  Keeps-for_each [] f k = Keeps-pure tt
  Keeps-for_each (x ∷ xs) f k = Keeps-bind (f x) _ (k x) (λ _. Keeps-for_each xs f k)

pub ruleset keeps_rules = (
  Keeps-pure, Keeps-raise, Keeps-gets, Keeps-or_raise, Keeps-if, Keeps-guard, Keeps-when,
  Keeps-bind, Keeps-map_err, Keeps-attempt, Keeps-ignore, Keeps-when_some, Keeps-for_each,
)
