-- ===== src/Numerals.antt =====
-- Decimal text of the integers of the program, as the standard library's `Display` prints it and
-- `parse` reads it: `u16`, `u64`, and `i64`, which may have a sign.
pub mod RoundTrip
pub mod Words
use callifornia.Prelude.{
  ℕ, zero, suc, ◌+◌, ◌-◌, ◌*◌, ◌/◌, ◌%◌, ◌^◌, String, List, [], ◌∷◌, Option, none, some, Bool, true,
  false, not, ◌&&◌, leb, ltb, nat_eq, if◌then◌else◌,
}
use callifornia.Text.{codes}
use Prim.Native.String.{◌++◌}

unfoldable pub digit : ℕ → String
digit d =
    if nat_eq d 0
    then "0"
    else if nat_eq d 1
    then "1"
    else if nat_eq d 2
    then "2"
    else if nat_eq d 3
    then "3"
    else if nat_eq d 4
    then "4"
    else if nat_eq d 5
    then "5"
    else if nat_eq d 6
    then "6"
    else if nat_eq d 7
    then "7"
    else if nat_eq d 8
    then "8"
    else "9"

unfoldable pub print_digits : ℕ → ℕ → String
unfolding digit
print_digits zero n = ""
print_digits (suc fuel) n =
    let rest = print_digits fuel (n / 10) in if ltb n 10 then digit n else rest ++ digit (n % 10)

-- Five digits are enough below 2^16.
unfoldable pub print_u16 : ℕ → String
unfolding print_digits
print_u16 n = print_digits 5 n

-- Twenty digits are enough below 2^64.
unfoldable pub print_u64 : ℕ → String
unfolding print_digits
print_u64 n = print_digits 20 n

-- The digits of a number, which must stay below the bound at each step.
unfoldable pub read_digits : ℕ → ℕ → List ℕ → Option ℕ
read_digits bound acc [] = some acc
read_digits bound acc (c ∷ s) =
    let next = acc * 10 + (c - b'0') in
    let rest = read_digits bound next s in
    if leb b'0' c && leb c b'9' && ltb next bound then rest else none

-- A number has a digit at least, and may have a sign `+`.
unfoldable pub read_number : ℕ → List ℕ → Option ℕ
unfolding read_digits
read_number bound [] = none
read_number bound (c ∷ []) = if nat_eq c b'+' then none else read_digits bound 0 (c ∷ [])
read_number bound (c ∷ d ∷ s) = read_digits bound 0 (if nat_eq c b'+' then d ∷ s else c ∷ d ∷ s)

unfoldable pub parse_u16 : String → Option ℕ
unfolding read_number
parse_u16 s = read_number 65536 (codes s)

unfoldable pub parse_u32 : String → Option ℕ
unfolding read_number
parse_u32 s = read_number (2 ^ 32) (codes s)

unfoldable pub parse_u64 : String → Option ℕ
unfolding read_number
parse_u64 s = read_number (2 ^ 64) (codes s)

pub data ℤ : Type 0 where
  pos : ℕ → ℤ
  negsuc : ℕ → ℤ

abbrev pub negated : Option ℕ → Option ℤ
negated none = none
negated (some zero) = some (pos 0)
negated (some (suc n)) = some (negsuc n)

abbrev pub unsigned : Option ℕ → Option ℤ
unsigned none = none
unsigned (some n) = some (pos n)

unfoldable pub read_signed : List ℕ → Option ℤ
unfolding read_number read_digits
read_signed [] = none
read_signed (c ∷ []) = unsigned (read_number (2 ^ 63) (c ∷ []))
read_signed (c ∷ d ∷ s) =
    if nat_eq c b'-'
    then negated (read_digits (2 ^ 63 + 1) 0 (d ∷ s))
    else unsigned (read_number (2 ^ 63) (c ∷ d ∷ s))

unfoldable pub parse_i64 : String → Option ℤ
unfolding read_signed
parse_i64 s = read_signed (codes s)

-- `n as i64` of a `u64`: from 2^63 on it is negative.
unfoldable pub as_i64 : ℕ → ℤ
as_i64 n = if ltb n (2 ^ 63) then pos n else negsuc (2 ^ 64 - 1 - n)

-- `now - t` in `i64` as a release build computes it, for a `now` that is not negative and below 2^63.
-- Only a `t` below 0 can make it wrap.
unfoldable pub minus : ℕ → ℤ → ℤ
unfolding as_i64
minus now (pos t) = if leb t now then pos (now - t) else negsuc (t - now - 1)
minus now (negsuc t) = as_i64 (now + suc t)

unfoldable pub ltz : ℤ → ℤ → Bool
ltz (pos a) (pos b) = ltb a b
ltz (pos a) (negsuc b) = false
ltz (negsuc a) (pos b) = true
ltz (negsuc a) (negsuc b) = ltb b a

abbrev pub lez : ℤ → ℤ → Bool
lez a b = not (ltz b a)
