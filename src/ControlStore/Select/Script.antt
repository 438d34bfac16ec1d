-- ===== src/ControlStore/Select/Script.antt =====
-- common/control_store/src/storage.rs and services/signaling/src/redis.rs: the instance is chosen by
-- `select_least_loaded_instance` in Rust, and by `ASSIGN_ROOM_TO_SFU_LUA` on the server.
use callifornia.ControlStore.Select.{load_in, is_selectable, min_from, select}
use callifornia.Map.{lookup}
use callifornia.Numerals.{ℤ, pos, negsuc}
use callifornia.Prelude.{
  ℕ, suc, ◌+◌, ◌<◌, ◌^◌, String, List, [], ◌∷◌, Option, none, some, ◌&&◌, filter, ◌≡◌,
  if◌then◌else◌,
}
use callifornia.Services.{Services, SfuInstance}
use callifornia.Signaling.Redis.{sfu_room_load_key}
use callifornia.Signaling.Redis.Assign.{is_better}

module _ (loads : List (String × ℕ)) where
  -- The script keeps the load beside the instance.
  abbrev pub with_load : Option SfuInstance → Option (SfuInstance × ℕ)
  with_load none = none
  with_load (some inst) = some (inst, load_in loads inst)

-- How far below 0.
abbrev pub deficit : ℤ → ℕ
deficit (pos t) = 0
deficit (negsuc n) = suc n

-- A payload that the program reads is read alike by the script, and the time since its last ping is
-- an `i64`.
pub record IsShared ⦃v : Services⦄ (now : ℕ) (payload : String) : Type 0 where
  pub alike :
      (inst : SfuInstance)
      → v.parse_instance payload ≡ some inst
      → v.decode_instance payload ≡ some inst
  pub in_range :
      (inst : SfuInstance)
      → v.parse_instance payload ≡ some inst
      → now + deficit inst.last_ping_unix < 2 ^ 63

module _ ⦃v : Services⦄ (now : ℕ) (d : v.Db) (loads : List (String × ℕ))
    (same : (m : String) → v.zscore sfu_room_load_key m d ≡ lookup m loads) where
  -- The choice among the instances, from the best so far.
  abbrev chosen : Option SfuInstance → List SfuInstance → Option SfuInstance
  chosen none instances = select now loads instances
  chosen (some best) instances =
      some (min_from (load_in loads) best (filter (is_selectable now loads) instances))

  step : SfuInstance → Option SfuInstance → Option SfuInstance
  step inst best =
      if is_selectable now loads inst && is_better (load_in loads inst) (with_load loads best)
      then some inst
      else best

  -- The program read these instances, in this order.
  Reads : List (String × String) → List SfuInstance → Type 0
  Reads [] [] = Unit
  Reads ((_, payload) ∷ entries) (inst ∷ instances) =
      (v.parse_instance payload ≡ some inst) × Reads entries instances
  Reads _ _ = ⊥
