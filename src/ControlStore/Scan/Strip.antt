-- ===== src/ControlStore/Scan/Strip.antt =====
-- `str::strip_prefix`, `str::strip_suffix` and `str::ends_with` of the standard library.
use callifornia.Prelude.{
  String, Option, none, some, Bool, true, false, ◌||◌, ◌==◌, eq_iff, nat_eq, ◌≡◌, ◌≢◌, refl, ap,
  arith, Bool-cases, inl, inr, if◌then◌else◌,
}
use Prim.Native.Char.{Char, code}
use Prim.Native.String.{[], ◌∷◌, ◌++◌, count}
use text.Mathlib.TextLemmas.{nil-append, cons-append, length-cons, length-append}
use text.Mathlib.TextEquality.{Char-path}

unfoldable pub strip_prefix : String → String → Option String
strip_prefix [] s = some s
strip_prefix (c ∷ p) [] = none
strip_prefix (c ∷ p) (d ∷ s) =
    let rest = strip_prefix p s in if nat_eq (code c) (code d) then rest else none

abbrev pub prepend : Char → Option String → Option String
prepend c none = none
prepend c (some s) = some (c ∷ s)

unfoldable pub strip_suffix : String → String → Option String
strip_suffix suffix [] = if [] == suffix then some [] else none
strip_suffix suffix (c ∷ s) =
    let rest = strip_suffix suffix s in if (c ∷ s) == suffix then some [] else prepend c rest

unfoldable pub ends_with : String → String → Bool
ends_with suffix [] = [] == suffix
ends_with suffix (c ∷ s) = (c ∷ s) == suffix || ends_with suffix s

pub strip_prefix-append : (p s : String) → strip_prefix p (p ++ s) ≡ some s
unfolding strip_prefix
strip_prefix-append [] s = rw (nil-append s) refl
strip_prefix-append (c ∷ p) s = rw (cons-append c p s) (ground (arith, strip_prefix-append p s))

pub strip_prefix_sound : (p s t : String) → strip_prefix p s ≡ some t → s ≡ p ++ t
unfolding strip_prefix
strip_prefix_sound [] s t h = cc (nil-append t, h)
strip_prefix_sound (c ∷ p) [] t h = absurd cc
strip_prefix_sound (c ∷ p) (d ∷ s) t h = elim (Bool-cases (nat_eq (code c) (code d))) [
  | inl e ↦ cc (
    cons-append c p t,
    Char-path c d (ground (arith, e)),
    strip_prefix_sound p s t (ground (arith, h, e)),
  )
  | inr e ↦ absurd (ground (arith, h, e))
]

strip_suffix-here : (x s : String) → s ≡ x → strip_suffix x s ≡ some []
unfolding strip_suffix
strip_suffix-here x [] e = rw ((eq_iff [] x).1 e) refl
strip_suffix-here x (c ∷ s) e = rw ((eq_iff (c ∷ s) x).1 e) refl

strip_suffix-there :
    (x s : String) (c : Char) → (c ∷ s) ≢ x → strip_suffix x (c ∷ s) ≡ prepend c (strip_suffix x s)
unfolding strip_suffix
strip_suffix-there x s c ne = elim (Bool-cases ((c ∷ s) == x)) [
  | inl e ↦ absurd (ne ((eq_iff (c ∷ s) x).0 e))
  | inr e ↦ rw e refl
]

pub strip_suffix-append : (s x : String) → strip_suffix x (s ++ x) ≡ some s
strip_suffix-append [] x = rw (nil-append x) (strip_suffix-here x x refl)
strip_suffix-append (c ∷ s) x =
    rw (cons-append c s x, strip_suffix-there x (s ++ x) c longer, strip_suffix-append s x) refl
  where
    longer : (c ∷ (s ++ x)) ≢ x
    longer e = absurd (omega (arith, ap count e, length-cons c (s ++ x), length-append s x))

strip_suffix-empty : (x s t : String) → s ≡ x → strip_suffix x s ≡ some t → s ≡ t ++ x
strip_suffix-empty x s t e h = cc (strip_suffix-here x s e, nil-append x)

strip_suffix-longer :
    (x s : String) (c : Char) (t : String) (rest : Option String)
    → ((r : String) → rest ≡ some r → s ≡ r ++ x)
    → prepend c rest ≡ some t
    → (c ∷ s) ≡ t ++ x
strip_suffix-longer x s c t none f h = absurd cc
strip_suffix-longer x s c t (some r) f h = cc (f r refl, cons-append c r x)

pub strip_suffix_sound : (x s t : String) → strip_suffix x s ≡ some t → s ≡ t ++ x
strip_suffix_sound x [] t h = elim (Bool-cases ([] == x)) [
  | inl e ↦ strip_suffix-empty x [] t ((eq_iff [] x).0 e) h
  | inr e ↦ absurd (unfold strip_suffix in ground (arith, h, e))
]
strip_suffix_sound x (c ∷ s) t h = elim (Bool-cases ((c ∷ s) == x)) [
  | inl e ↦ strip_suffix-empty x (c ∷ s) t ((eq_iff (c ∷ s) x).0 e) h
  | inr e ↦
      strip_suffix-longer x s c t (strip_suffix x s) (λ r m. strip_suffix_sound x s r m)
        (unfold strip_suffix in ground (arith, h, e))
]

ends_with_self : (x s : String) → s ≡ x → ends_with x s ≡ true
unfolding ends_with
ends_with_self x [] e = (eq_iff [] x).1 e
ends_with_self x (c ∷ s) e = rw ((eq_iff (c ∷ s) x).1 e) refl

pub ends_with-append : (x s : String) → ends_with x (s ++ x) ≡ true
unfolding ends_with
ends_with-append x [] = ends_with_self x ([] ++ x) (nil-append x)
ends_with-append x (c ∷ s) = rw (cons-append c s x) (ground (arith, ends_with-append x s))

-- Both texts go on, and differ.
abbrev pub clash : String → String → Bool
clash [] s = false
clash (c ∷ p) [] = false
clash (c ∷ p) (d ∷ s) = let rest = clash p s in if nat_eq (code c) (code d) then rest else true

pub strip_prefix-clash : (p s t : String) → clash p s ≡ true → strip_prefix p (s ++ t) ≡ none
unfolding strip_prefix
strip_prefix-clash [] s t h = absurd cc
strip_prefix-clash (c ∷ p) [] t h = absurd cc
strip_prefix-clash (c ∷ p) (d ∷ s) t h =
    rw (cons-append d s t) (ground (arith, h, strip_prefix-clash p s t))
