-- ===== src/Commands/Rules.antt =====
-- Rules for the commands of an operation, over predicates on the server's data.
use callifornia.Commands.{send}
use callifornia.Commands.Laws.{IsRedis}
use callifornia.Exec.{Result, ok, err, Action, total, continue, change_error, ◌>>=◌}
use callifornia.Exec.Ensures.{Ensures}
use callifornia.Exec.Keeps.{Keeps, Keeps-total}
use callifornia.Prelude.{◌≡◌, refl, inl, inr}
use callifornia.Services.{Services, Fault}

module _ ⦃v : Services⦄ (laws : IsRedis) where
  -- A predicate on the data, as one on the world.
  abbrev pub On : (v.Db → Type 0) → v.Ext → Type 0
  On P x = P (laws.db x)

module _ ⦃v : Services⦄ (laws : IsRedis) {E A : Type 0} (from : Fault → E) (P : v.Db → Type 0) where
  pub Keeps-send :
      (f : v.Db → A × v.Db) → ((d : v.Db) → P d → P (f d).1) → Keeps (On laws P) (send from f)
  unfolding send
  Keeps-send f k = record {
    at = λ x h. elim (laws.delivered f x) [ inl e ↦ rw e h | inr e ↦ rw e (k (laws.db x) h) ];
  }

  pub Ensures-send :
      (Q : A → v.Db → Type 0) (f : v.Db → A × v.Db)
      → ((d : v.Db) → P d → Q (f d).0 (f d).1)
      → Ensures (On laws P) (send from f) (λ a. On laws (Q a))
  unfolding send
  Ensures-send Q f k = record {
    at = λ x a h e.
        let (r, s) = laws.answered f x a (returned (v.deliver A f x).0 a e) in
        rw (r, s) (k (laws.db x) h);
  }
    where
      returned : (r : Result Fault A) (a : A) → change_error from r ≡ ok a → r ≡ ok a
      returned (ok b) a e = cc
      returned (err b) a e = absurd cc

module _ {S E A B : Type 0} (P : S → Type 0) where
  -- What the first action returned may matter to what the second one keeps.
  pub bind-at :
      (m : Action S E A) (f : A → Action S E B) (s : S)
      → P (m s).1
      → ((a : A) → (m s).0 ≡ ok a → P (f a (m s).1).1)
      → P ((m >>= f) s).1
  unfolding ◌>>=◌
  bind-at m f s h k = go (m s).0 refl
    where
      go : (r : Result E A) → (m s).0 ≡ r → P (continue r f (m s).1).1
      go (ok a) e = k a e
      go (err x) e = h

module _ ⦃v : Services⦄ (laws : IsRedis) {E : Type 0} (P : v.Db → Type 0) where
  pub Keeps-unix_now : Keeps (On laws P) (total {E = E} v.unix_now)
  Keeps-unix_now = Keeps-total _ λ x h. rw (laws.db-unix_now x) h
