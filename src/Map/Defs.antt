-- ===== src/Map/Defs.antt =====
-- The operations of the standard library's map and set that the services call.
use callifornia.Prelude.{
  String, List, [], ◌∷◌, Option, none, some, Bool, true, false, ◌||◌, ◌==◌, if◌then◌else◌, map,
}

abbrev pub Map {ℓ} : Type ℓ → Type ℓ
Map V = List (String × V)

module _ {ℓ} {V : Type ℓ} where
  -- `keys`
  abbrev pub keys : Map V → List String
  keys = map (λ e. e.0)

  -- `insert`, and the assignment through `get_mut` or `entry`
  unfoldable pub insert : String → V → Map V → Map V
  insert key value [] = (key, value) ∷ []
  insert key value ((held, old) ∷ more) =
      if held == key then (key, value) ∷ more else (held, old) ∷ insert key value more

  -- `remove`
  unfoldable pub remove : String → Map V → Map V
  remove key [] = []
  remove key ((held, old) ∷ more) =
      let rest = remove key more in if held == key then rest else (held, old) ∷ rest

  -- `get`
  unfoldable pub lookup : String → Map V → Option V
  lookup key [] = none
  lookup key ((held, value) ∷ more) = if held == key then some value else lookup key more

-- `HashSet::contains`
unfoldable pub contains : String → List String → Bool
contains k [] = false
contains k (x ∷ xs) = x == k || contains k xs

-- `HashSet::insert`
unfoldable pub add : String → List String → List String
unfolding contains
add k xs = if contains k xs then xs else k ∷ xs

-- `HashSet::remove`, and `retain` of what differs
unfoldable pub discard : String → List String → List String
discard k [] = []
discard k (x ∷ xs) = let rest = discard k xs in if x == k then rest else x ∷ rest

-- `is_empty`
abbrev pub is_empty {ℓ} : {A : Type ℓ} → List A → Bool
is_empty [] = true
is_empty (x ∷ xs) = false
