-- ===== src/Client/Room/Names.antt =====
-- client/src/components/room/tiles.rs: a name that is cut keeps to its bound.
use callifornia.Client.Room.{take, truncate_str}
use callifornia.Prelude.{ℕ, zero, suc, ◌-◌, ◌≤◌, ◌<◌, List, [], ◌∷◌, push, length, arith, ◌≡◌}

length-take : (n : ℕ) (s : List ℕ) → length (take n s) ≤ n
unfolding take
length-take n [] = omega arith
length-take zero (c ∷ s) = omega arith
length-take (suc n) (c ∷ s) = omega (arith, length-take n s)

length-push : (s : List ℕ) (c : ℕ) → length (push s c) ≡ suc (length s)
length-push [] c = omega arith
length-push (d ∷ s) c = omega (arith, length-push s c)

-- A text is cut to the limit at most, unless the limit is 0.
length-truncate_str : (s : List ℕ) (limit : ℕ) → 0 < limit → length (truncate_str s limit) ≤ limit
unfolding truncate_str
length-truncate_str s limit h =
    ground (arith, length-push (take (limit - 1) s) 0x2026, length-take (limit - 1) s)
