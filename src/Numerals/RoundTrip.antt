-- ===== src/Numerals/RoundTrip.antt =====
-- A number that is printed is read back.
use callifornia.Numerals.{
  digit, print_digits, print_u16, print_u64, read_digits, read_number, parse_u16, parse_i64,
  read_signed, pos,
}
use callifornia.Prelude.{
  ◌==◌, eq_iff, ap, ℕ, zero, suc, ◌+◌, ◌-◌, ◌*◌, ◌/◌, ◌%◌, ◌^◌, ◌<◌, String, List, [], ◌∷◌, ◌++◌,
  Option, none, length, length-append, some, ◌≡◌, refl, arith, Bool-cases, inl, inr, false,
}
use callifornia.Text.{codes}
use Prim.Native.String
use text.Mathlib.TextLemmas.{nil-append, cons-append}

codes-append : (s t : String) → codes (String.◌++◌ s t) ≡ codes s ++ codes t
codes-append String.[] t = rw nil-append refl
codes-append (String.◌∷◌ c s) t = rw (cons-append c s t, codes-append s t) refl

codes-digit : (d : ℕ) → d < 10 → codes (digit d) ≡ (48 + d) ∷ []
unfolding digit
codes-digit zero h = refl
codes-digit (suc zero) h = refl
codes-digit (suc (suc zero)) h = refl
codes-digit (suc (suc (suc zero))) h = refl
codes-digit (suc (suc (suc (suc zero)))) h = refl
codes-digit (suc (suc (suc (suc (suc zero))))) h = refl
codes-digit (suc (suc (suc (suc (suc (suc zero)))))) h = refl
codes-digit (suc (suc (suc (suc (suc (suc (suc zero))))))) h = refl
codes-digit (suc (suc (suc (suc (suc (suc (suc (suc zero)))))))) h = refl
codes-digit (suc (suc (suc (suc (suc (suc (suc (suc (suc zero))))))))) h = refl
codes-digit (suc (suc (suc (suc (suc (suc (suc (suc (suc (suc d)))))))))) h = absurd (omega arith)

abbrev and_then : Option ℕ → (ℕ → Option ℕ) → Option ℕ
and_then none f = none
and_then (some n) f = f n

read_digits-append :
    (bound acc : ℕ) (s t : List ℕ)
    → read_digits bound acc (s ++ t)
      ≡ and_then (read_digits bound acc s) (λ n. read_digits bound n t)
unfolding read_digits
read_digits-append bound acc [] t = refl
read_digits-append bound acc (c ∷ s) t =
    ground (arith, read_digits-append bound (acc * 10 + (c - 48)) s t)

read_digits-print_digits :
    (fuel n bound : ℕ)
    → n < 10 ^ fuel
    → n < bound
    → read_digits bound 0 (codes (print_digits fuel n)) ≡ some n
unfolding print_digits read_digits
read_digits-print_digits zero n bound h k = ground arith
read_digits-print_digits (suc fuel) n bound h k = ground (
  arith,
  codes-append (print_digits fuel (n / 10)) (digit (n % 10)),
  codes-digit n,
  codes-digit (n % 10),
  read_digits-append bound 0 (codes (print_digits fuel (n / 10))) (codes (digit (n % 10))),
  read_digits-print_digits fuel (n / 10) bound,
)

length-print_digits : (fuel n : ℕ) → 0 < length (codes (print_digits (suc fuel) n))
unfolding print_digits
length-print_digits fuel n = ground (
  arith,
  codes-append (print_digits fuel (n / 10)) (digit (n % 10)),
  codes-digit n,
  codes-digit (n % 10),
  length-append (codes (print_digits fuel (n / 10))) (codes (digit (n % 10))),
)

-- A text of digits alone has no sign.
read_number-digits :
    (bound n : ℕ) (s : List ℕ)
    → 0 < length s
    → read_digits bound 0 s ≡ some n
    → read_number bound s ≡ some n
unfolding read_number read_digits
read_number-digits bound n [] h k = absurd (omega arith)
read_number-digits bound n (c ∷ []) h k = ground (arith, k)
read_number-digits bound n (c ∷ d ∷ s) h k = ground (arith, k)

read_signed-digits :
    (n : ℕ) (s : List ℕ)
    → 0 < length s
    → read_digits (2 ^ 63) 0 s ≡ some n
    → read_signed s ≡ some (pos n)
unfolding read_signed read_digits
read_signed-digits n [] h k = absurd (omega arith)
read_signed-digits n (c ∷ []) h k = rw (read_number-digits (2 ^ 63) n (c ∷ []) h k) refl
read_signed-digits n (c ∷ d ∷ s) h k =
    ground (arith, read_number-digits (2 ^ 63) n (c ∷ d ∷ s) h k, k)

pub parse_u16-print_u16 : (n : ℕ) → n < 65536 → parse_u16 (print_u16 n) ≡ some n
unfolding parse_u16 print_u16
parse_u16-print_u16 n h =
    read_number-digits 65536 n _ (length-print_digits 4 n)
      (read_digits-print_digits 5 n 65536 (omega arith) h)

pub parse_i64-print_u64 : (n : ℕ) → n < 2 ^ 63 → parse_i64 (print_u64 n) ≡ some (pos n)
unfolding parse_i64 print_u64
parse_i64-print_u64 n h =
    read_signed-digits n _ (length-print_digits 19 n)
      (read_digits-print_digits 20 n (2 ^ 63) (omega arith) h)

pub print_u16-shown : (n : ℕ) → (print_u16 n == "") ≡ false
unfolding print_u16
print_u16-shown n = elim (Bool-cases (print_u16 n == "")) [
  | inl e ↦ absurd (
      omega (
        arith,
        length-print_digits 4 n,
        ap (λ s. length (codes s)) ((eq_iff (print_digits 5 n) "").0 e),
      ))
  | inr e ↦ e
]
