-- ===== src/Signaling/Redis/Least.antt =====
-- services/signaling/src/redis.rs: the instance that the script of the assignment chooses.
use callifornia.Numerals.{ℤ, pos, negsuc}
use callifornia.Numerals.Words.{IsWithin}
use callifornia.Prelude.{
  ℕ, ◌<◌, eq_iff, String, List, [], ◌∷◌, Option, none, some, Bool, true, false, ◌&&◌, leb, ◌≡◌,
  refl, arith, if◌then◌else◌, Option-cases, Bool-cases, inl, inr,
}
use callifornia.Services.{Services, SfuInstance}
use callifornia.Signaling.Redis.Assign.{is_better, is_recent, is_eligible, load_of, scan}

-- An instance was chosen, and its load is at most the one given.
abbrev pub is_at_most : Option (SfuInstance × ℕ) → ℕ → Bool
is_at_most none load = false
is_at_most (some (_, best_load)) load = leb best_load load

module _ ⦃v : Services⦄ (now stale_after : ℕ) (d : v.Db) where
  -- The best so far after one instance more.
  choose : SfuInstance → Option (SfuInstance × ℕ) → Option (SfuInstance × ℕ)
  choose inst best =
      if is_eligible now stale_after inst (load_of d inst) && is_better (load_of d inst) best
      then some (inst, load_of d inst)
      else best

  scan-cons :
      (key payload : String) (inst : SfuInstance) (best : Option (SfuInstance × ℕ))
      (entries : List (String × String))
      → v.decode_instance payload ≡ some inst
      → scan now stale_after d best ((key, payload) ∷ entries)
        ≡ scan now stale_after d (choose inst best) entries
  unfolding scan choose
  scan-cons key payload inst best entries h = rw (h, scan)

  scan-none :
      (key payload : String) (best : Option (SfuInstance × ℕ)) (entries : List (String × String))
      → v.decode_instance payload ≡ none
      → scan now stale_after d best ((key, payload) ∷ entries) ≡ none
  unfolding scan
  scan-none key payload best entries h = rw (h, scan)

  scan-nil :
      (best chosen : Option (SfuInstance × ℕ))
      → scan now stale_after d best [] ≡ some chosen
      → best ≡ chosen
  unfolding scan
  scan-nil best chosen h = cc

  -- The load is that of the instance, which is alive, says that it is ready, was pinged within the
  -- limit, and carries less than its bound.
  pub record IsReady (inst : SfuInstance) (load : ℕ) : Type 0 where
    pub own_load : load ≡ load_of d inst
    pub alive : inst.alive ≡ true
    pub ready : inst.state ≡ "ready"
    pub recent : IsWithin now stale_after inst.last_ping_unix
    pub below : load < inst.max_rooms

  -- Nothing was chosen, or an instance that is ready, with its load.
  abbrev pub AllReady : Option (SfuInstance × ℕ) → Type 0
  AllReady none = Unit
  AllReady (some (inst, load)) = IsReady inst load

  recent-IsWithin : (t : ℤ) → is_recent now stale_after t ≡ true → IsWithin now stale_after t
  unfolding is_recent
  recent-IsWithin (pos t) h = ground (arith, h)
  recent-IsWithin (negsuc t) h = ground (arith, h)

  eligible-IsReady :
      (inst : SfuInstance)
      → is_eligible now stale_after inst (load_of d inst) ≡ true
      → IsReady inst (load_of d inst)
  unfolding is_eligible
  eligible-IsReady inst h = record {
    own_load = refl;
    alive = ground (arith, h);
    ready = (eq_iff inst.state "ready").0 (ground (arith, h));
    recent = recent-IsWithin inst.last_ping_unix (ground (arith, h));
    below = ground (arith, h);
  }

  choose-AllReady :
      (inst : SfuInstance) (best : Option (SfuInstance × ℕ))
      → AllReady best
      → AllReady (choose inst best)
  unfolding choose
  choose-AllReady inst best h =
      elim (Bool-cases
        (is_eligible now stale_after inst (load_of d inst) && is_better (load_of d inst) best)) [
          | inl e ↦ rw e (eligible-IsReady inst (ground (arith, e)))
          | inr e ↦ rw e h
        ]

  -- What the scan chooses, from nothing or from a choice that is ready, is ready: it is alive, its
  -- state is `ready`, its last ping is at most `stale_after` ago, and its load, which is the one in
  -- the sorted set, is below its bound.
  pub scan-IsReady :
      (entries : List (String × String)) (best chosen : Option (SfuInstance × ℕ))
      → AllReady best
      → scan now stale_after d best entries ≡ some chosen
      → AllReady chosen
  scan-IsReady [] best chosen r h = rw (← scan-nil best chosen h) r
  scan-IsReady ((key, payload) ∷ entries) best chosen r h =
      elim (Option-cases (v.decode_instance payload)) [
        | inl e ↦ absurd (ground (arith, h, scan-none key payload best entries e))
        | inr (inst, e) ↦
            scan-IsReady entries (choose inst best) chosen (choose-AllReady inst best r)
              (ground (arith, h, scan-cons key payload inst best entries e))
      ]
