-- ===== src/Map/Laws.antt =====
-- The laws of the map and the set, in the form of a conditional: they have no side condition.
use callifornia.Prelude.{
  ◌≤◌, ◌<◌, String, List, [], ◌∷◌, none, some, ◌||◌, ◌&&◌, not, ◌==◌, eq_iff, if◌then◌else◌, ◌≡◌,
  refl, arith, length,
}
use callifornia.Map.Defs.{Map, lookup, insert, remove, contains, add, discard}

module _ {ℓ} {V : Type ℓ} where
  pub lookup-remove :
      (gone key : String) (m : Map V)
      → lookup key (remove gone m) ≡ (if gone == key then none else lookup key m)
  unfolding lookup remove
  lookup-remove gone key [] = ground arith
  lookup-remove gone key ((held, old) ∷ m) =
      ground (arith, eq_iff gone key, eq_iff held gone, eq_iff held key, lookup-remove gone key m)

  pub lookup-insert :
      (fresh key : String) (value : V) (m : Map V)
      → lookup key (insert fresh value m) ≡ (if fresh == key then some value else lookup key m)
  unfolding lookup insert
  lookup-insert fresh key value [] = refl
  lookup-insert fresh key value ((held, old) ∷ m) =
      ground (
        arith,
        eq_iff fresh key,
        eq_iff held fresh,
        eq_iff held key,
        lookup-insert fresh key value m,
      )

  pub length-remove-le : (k : String) (m : Map V) → length (remove k m) ≤ length m
  unfolding remove
  length-remove-le k [] = omega arith
  length-remove-le k ((i, w) ∷ m) = ground (arith, length-remove-le k m)

  -- Removing a key that is there makes the map smaller.
  pub length-remove-lt :
      (k : String) (m : Map V) (v : V) → lookup k m ≡ some v → length (remove k m) < length m
  unfolding lookup remove
  length-remove-lt k [] v h = absurd (ground arith)
  length-remove-lt k ((i, w) ∷ m) v h = ground (arith, length-remove-le k m, length-remove-lt k m v)

pub contains-add :
    (k j : String) (xs : List String) → contains j (add k xs) ≡ (k == j || contains j xs)
unfolding contains add
contains-add k j [] = ground arith
contains-add k j (x ∷ xs) = ground (arith, eq_iff k j, eq_iff x k, eq_iff x j, contains-add k j xs)

pub contains-discard :
    (k j : String) (xs : List String) → contains j (discard k xs) ≡ (not (k == j) && contains j xs)
unfolding contains discard
contains-discard k j [] = ground arith
contains-discard k j (x ∷ xs) =
    ground (arith, eq_iff k j, eq_iff x k, eq_iff x j, contains-discard k j xs)

pub ruleset map_laws = (lookup-insert, lookup-remove, contains-add, contains-discard)
