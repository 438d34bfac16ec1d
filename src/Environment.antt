-- ===== src/Environment.antt =====
-- What the configurations of services/connector/src/config.rs, services/supervisor/src/config.rs and
-- services/signaling/src/config.rs share: results that fail on the first entry that cannot be read,
-- and numbers of the environment.
use callifornia.Exec.{Result, ok, err}
use callifornia.Numerals.{parse_u64}
use callifornia.Prelude.{ℕ, String, List, [], ◌∷◌, Option, none, some}

-- The variable or the entry that cannot be read.
pub data ConfigError : Type 0 where
  invalid_integer : (key : String) → ConfigError
  invalid_entry : (entry : String) → ConfigError

-- `.map(f).collect()` into a result: the first error ends it.
unfoldable pub collect {ℓ} : {E A B : Type ℓ} → (A → Result E B) → List A → Result E (List B)
collect f [] = ok []
collect f (x ∷ xs) = elim (f x) [
  | err e ↦ err e
  | ok b ↦ elim (collect f xs) [ err e ↦ err e | ok bs ↦ ok (b ∷ bs) ]
]

module _ {A B : Type 0} where
  infixl 10 ◌>>=◌
  abbrev pub ◌>>=◌ : Result ConfigError A → (A → Result ConfigError B) → Result ConfigError B
  ok a >>= f = f a
  err e >>= f = err e

unfoldable pub read_u64 : String → ℕ → Option String → Result ConfigError ℕ
unfolding parse_u64
read_u64 key default none = ok default
read_u64 key default (some value) = elim (parse_u64 value) [
  | none ↦ err (invalid_integer key)
  | some n ↦ ok n
]
