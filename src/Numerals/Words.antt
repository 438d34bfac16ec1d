-- ===== src/Numerals/Words.antt =====
-- Integers of 64 bits with a sign, where nothing wraps.
use callifornia.Numerals.{ℤ, pos, negsuc, as_i64, minus, ltz}
use callifornia.Prelude.{ℕ, suc, ◌+◌, ◌<◌, ◌≤◌, ◌^◌, ltb, ◌≡◌, arith}

pub as_i64-small : (n : ℕ) → n < 2 ^ 63 → as_i64 n ≡ pos n
unfolding as_i64
as_i64-small n h = ground (arith, h)

pub ltz-minus : (now t limit : ℕ) → ltz (pos limit) (minus now (pos t)) ≡ ltb (t + limit) now
unfolding minus ltz
ltz-minus now t limit = ground arith

-- At most so long ago.
abbrev pub IsWithin : ℕ → ℕ → ℤ → Type 0
IsWithin now limit (pos t) = now ≤ t + limit
IsWithin now limit (negsuc n) = now + suc n ≤ limit
