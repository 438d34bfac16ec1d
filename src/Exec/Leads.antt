-- ===== src/Exec/Leads.antt =====
-- Actions that cannot fail: their binds run to the end, so a condition before leads to one after.
use callifornia.Exec.{Result, ok, err, Action, ◌>>=◌, modify, pure, for_each}
use callifornia.Exec.Keeps.{Keeps}
use callifornia.Prelude.{◌≡◌, refl, List, [], ◌∷◌}

-- From a state with `P` the action ends in one with `Q`.
pub record Leads {S A : Type 0} (P Q : S → Type 0) (m : Action S ⊥ A) : Type 0 where
  pub at : (s : S) → P s → Q (m s).1

module _ {S A B : Type 0} where
  pub quiet-bind :
      (m : Action S ⊥ A) (f : A → Action S ⊥ B) (s : S)
      → (a : A) × ((m s).0 ≡ ok a) × ((m >>= f) s ≡ f a (m s).1)
  unfolding ◌>>=◌
  quiet-bind m f s = go (m s).0 (m s).1
    where
      go :
          (r : Result ⊥ A) (s' : S) → (a : A) × (r ≡ ok a) × ((λ (_ : S). (r, s')) >>= f) s ≡ f a s'
      go (ok a) s' = (a, refl, refl)
      go (err e) s' = absurd e

module _ {S A B : Type 0} {P Q R : S → Type 0} where
  pub Leads-bind :
      (m : Action S ⊥ A) (f : A → Action S ⊥ B)
      → Leads P Q m
      → ((a : A) → Leads Q R (f a))
      → Leads P R (m >>= f)
  Leads-bind m f lm lf = record {
    at = λ s h. let (a, _, e) = quiet-bind m f s in rw e ((lf a).at (m s).1 (lm.at s h));
  }

module _ {S A : Type 0} {P : S → Type 0} where
  pub Leads-Keeps : (m : Action S ⊥ A) → Keeps P m → Leads P P m
  Leads-Keeps m k = record { at = k.at }

module _ {S : Type 0} {P Q : S → Type 0} where
  pub Leads-modify : (f : S → S) → ((s : S) → P s → Q (f s)) → Leads P Q (modify {E = ⊥} f)
  unfolding modify
  Leads-modify f h = record { at = h }

module _ {S A : Type 0} (P : List A → S → Type 0) where
  -- A loop whose rounds each handle the head of what is left.
  pub Leads-for_each :
      (f : A → Action S ⊥ (Unit {0}))
      → ((x : A) (xs : List A) → Leads (P (x ∷ xs)) (P xs) (f x))
      → (xs : List A) → Leads (P xs) (P []) (for_each xs f)
  unfolding for_each
  Leads-for_each f round [] = record { at = unfold pure in λ s h. h }
  Leads-for_each f round (x ∷ xs) =
      Leads-bind (f x) (λ _. for_each xs f) (round x xs) (λ _. Leads-for_each f round xs)
