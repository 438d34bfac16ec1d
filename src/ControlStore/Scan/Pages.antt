-- ===== src/ControlStore/Scan/Pages.antt =====
-- common/control_store/src/storage.rs: a scan comes to its end, if Redis answers and its cursor comes
-- back to 0 within the timeout.
use callifornia.ControlStore.{Store, query}
use callifornia.ControlStore.Scan.{collect, push, scan_loop}
use callifornia.Exec.{ok, pure, ◌>>=◌}
use callifornia.Commands.{send}
use callifornia.Prelude.{
  ℕ, suc, zero, ◌≤◌, String, Option, none, some, List, [], ◌∷◌, ◌++◌, nat_eq, Bool, true, false,
  ◌≡◌, ◌≢◌, refl, ap, ◌∙◌, arith,
}
use callifornia.Services.{Services}
use mathlib.Core.List.{append_assoc}

push-append : (o : Option String) (s t : List String) → push o (s ++ t) ≡ push o s ++ t
push-append none s t = refl
push-append (some id) s t = refl

nonzero : (n : ℕ) → n ≢ 0 → nat_eq n 0 ≡ false
nonzero n ne = ground (arith, ne)

module _ ⦃v : Services⦄ where
  -- Redis answers a scan at this state of the world, and the state afterwards.
  abbrev Answers : String → ℕ → ℕ → List String → v.Ext → v.Ext → Type 0
  Answers pattern cursor next keys x x' =
      v.deliver (ℕ × List String) (λ d. (v.scan_keys cursor pattern d, d)) x ≡ (ok (next, keys), x')

  -- A run of `SCAN` from a cursor until it is 0: the rounds, all the keys, and the states between.
  pub data Run (pattern : String) : ℕ → ℕ → List String → v.Ext → v.Ext → Type 0 where
    last :
        {cursor : ℕ} {keys : List String} {x x' : v.Ext}
        → Answers pattern cursor 0 keys x x'
        → Run pattern 1 cursor keys x x'
    more :
        {rounds cursor next : ℕ} {keys rest : List String} {x y z : v.Ext}
        → next ≢ 0
        → Answers pattern cursor next keys x y
        → Run pattern rounds next rest y z
        → Run pattern (suc rounds) cursor (keys ++ rest) x z

  collect-append :
      (id_of : String → Option String) (s t : List String)
      → collect id_of (s ++ t) ≡ collect id_of s ++ collect id_of t
  unfolding collect
  collect-append id_of [] t = refl
  collect-append id_of (k ∷ s) t =
      ap (push (id_of k)) (collect-append id_of s t)
      ∙ push-append (id_of k) (collect id_of s) (collect id_of t)

  at_false :
      (b : Bool) (m n : Store (List String)) (x : v.Ext)
      → b ≡ false
      → (elim b as (λ _. Store (List String)) [ true ↦ m | false ↦ n ]) x ≡ n x
  at_false true m n x e = absurd cc
  at_false false m n x e = refl

  -- One round, whose cursor is not 0.
  scan_loop-suc :
      {pattern : String} {cursor next : ℕ} {keys : List String} {x y : v.Ext}
      (id_of : String → Option String) (fuel : ℕ) (results : List String)
      → nat_eq next 0 ≡ false
      → Answers pattern cursor next keys x y
      → scan_loop (suc fuel) pattern id_of cursor results x
        ≡ scan_loop fuel pattern id_of next (results ++ collect id_of keys) y
  unfolding scan_loop query send ◌>>=◌ pure
  scan_loop-suc {next} {y} id_of fuel results ne a = rw a (at_false (nat_eq next 0) _ _ y ne)

  -- If Redis answers every `SCAN` until its cursor is 0, in at most as many rounds as fit in the
  -- timeout, the loop returns the ids of all the keys that were answered, after those it had.
  pub scan_loop-Run :
      {pattern : String} {n cursor : ℕ} {keys : List String} {x z : v.Ext}
      (id_of : String → Option String) (fuel : ℕ) (results : List String)
      → Run pattern n cursor keys x z
      → n ≤ fuel
      → scan_loop fuel pattern id_of cursor results x ≡ (ok (results ++ collect id_of keys), z)
  unfolding scan_loop query send ◌>>=◌ pure
  scan_loop-Run id_of zero results (last a) h = absurd (omega arith)
  scan_loop-Run id_of zero results (more ne a r) h = absurd (omega arith)
  scan_loop-Run id_of (suc fuel) results (last a) h = rw a refl
  scan_loop-Run id_of (suc fuel) results (more {rounds} {next} {keys} {rest} ne a r) h =
      scan_loop-suc id_of fuel results (nonzero next ne) a
      ∙ scan_loop-Run {n = rounds} id_of fuel (results ++ collect id_of keys) r (omega arith)
      ∙ rw
          (
            append_assoc results (collect id_of keys) (collect id_of rest),
            collect-append id_of keys rest,
          )
          refl
