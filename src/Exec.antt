-- ===== src/Exec.antt =====
-- Handlers that change a state and may fail, for the `async fn` of the services. What was written
-- before a failure stays written, so the state comes back beside the error too.
pub mod Keeps
pub mod Leads
pub mod Ensures
use callifornia.Prelude.{Bool, true, false, Option, none, some, List, [], ◌∷◌, if◌then◌else◌}

pub data Result {ℓ κ} (E : Type ℓ) (A : Type κ) : Type (ℓ ⊔ κ) where
  ok : A → Result E A
  err : E → Result E A

abbrev pub Action : Type 0 → Type 0 → Type 0 → Type 0
Action S E A = S → Result E A × S

module _ {S E A : Type 0} where
  unfoldable pub pure : A → Action S E A
  pure a s = (ok a, s)

  unfoldable pub raise : E → Action S E A
  raise e s = (err e, s)

  unfoldable pub gets : (S → A) → Action S E A
  gets f s = (ok (f s), s)

  -- `ok_or(e)?`
  unfoldable pub or_raise : Option A → E → Action S E A
  or_raise none e s = (err e, s)
  or_raise (some a) e s = (ok a, s)

  -- A step that cannot fail.
  unfoldable pub total : (S → A × S) → Action S E A
  total f s = let (a, s') = f s in (ok a, s')

module _ {S E : Type 0} where
  unfoldable pub modify : (S → S) → Action S E (Unit {0})
  modify f s = (ok tt, f s)

module _ {S E A B : Type 0} where
  abbrev pub continue : Result E A → (A → Action S E B) → Action S E B
  continue (ok a) f s = f a s
  continue (err e) f s = (err e, s)

  infixl 10 ◌>>=◌ ◌>>◌
  unfoldable pub ◌>>=◌ : Action S E A → (A → Action S E B) → Action S E B
  ◌>>=◌ m f s = let (r, s') = m s in continue r f s'

  abbrev pub ◌>>◌ : Action S E A → Action S E B → Action S E B
  m >> n = m >>= λ _. n

abbrev pub change_error {ℓ κ} : {E D : Type ℓ} {A : Type κ} → (E → D) → Result E A → Result D A
change_error f (ok a) = ok a
change_error f (err e) = err (f e)

module _ {S E D A : Type 0} where
  -- `.map_err(f)`
  unfoldable pub map_err : (E → D) → Action S E A → Action S D A
  map_err f m s = let (r, s') = m s in (change_error f r, s')

  -- The result as a value, for a `match` or an `if let Err(err)` on it.
  unfoldable pub attempt : Action S E A → Action S D (Result E A)
  attempt m s = let (r, s') = m s in (ok r, s')

  -- `if let Err(err) = m { warn!(…) }` and `let _ = m`
  unfoldable pub ignore : Action S E A → Action S D (Unit {0})
  ignore m s = let (r, s') = m s in (ok tt, s')

module _ {S T E A : Type 0} where
  -- An action on a part of the state.
  unfoldable pub zoom : (S → T) → (T → S → S) → Action T E A → Action S E A
  zoom get put m s = let (r, t) = m (get s) in (r, put t s)

module _ {S E : Type 0} where
  -- `if b { m }`
  unfoldable pub when : Bool → Action S E (Unit {0}) → Action S E (Unit {0})
  when true m s = m s
  when false m s = (ok tt, s)

  -- `if !b { return Err(e) }`
  unfoldable pub guard : Bool → E → Action S E (Unit {0})
  guard true e s = (ok tt, s)
  guard false e s = (err e, s)

module _ {S E A : Type 0} where
  -- `if let Some(a) = o { f(a) }`
  unfoldable pub when_some : Option A → (A → Action S E (Unit {0})) → Action S E (Unit {0})
  when_some none f s = (ok tt, s)
  when_some (some a) f s = f a s

  -- `for x in xs { f(x) }`
  unfoldable pub for_each : List A → (A → Action S E (Unit {0})) → Action S E (Unit {0})
  for_each [] f = pure tt
  for_each (x ∷ xs) f = f x >> for_each xs f
