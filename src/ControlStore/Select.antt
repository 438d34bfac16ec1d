-- ===== src/ControlStore/Select.antt =====
-- common/control_store/src/storage.rs: `select_least_loaded_instance`. The order of the instances is
-- that of the server's reply; in the program a `HashMap` shuffles them.
pub mod Least
pub mod Script
use callifornia.ControlStore.{Store}
use callifornia.ControlStore.Instances.{list_sfu_instances, load_sfu_room_loads}
use callifornia.Exec.{pure, total, ◌>>=◌}
use callifornia.Map.{lookup}
use callifornia.Numerals.{pos, minus, ltz, lez, as_i64}
use callifornia.Prelude.{
  ℕ, ◌+◌, String, List, [], ◌∷◌, Option, none, some, Bool, ◌&&◌, ◌==◌, get_or, filter, leb, ltb,
  if◌then◌else◌,
}
use callifornia.Services.{Services, SfuInstance}

-- `room_loads.get(&inst.instance_id).copied().unwrap_or_default()`
abbrev pub load_in : List (String × ℕ) → SfuInstance → ℕ
load_in loads inst = get_or (lookup inst.instance_id loads) 0

-- `now - inst.last_ping_unix <= 30`, in `i64`.
unfoldable pub is_selectable : ℕ → List (String × ℕ) → SfuInstance → Bool
is_selectable now loads inst =
    inst.alive
    && lez (minus now inst.last_ping_unix) (pos 30)
    && (inst.state == "ready")
    && ltb (load_in loads inst) inst.max_rooms

-- `Iterator::min_by` keeps the first of two that are equal: `best` is replaced by less alone.
unfoldable pub min_from {ℓ} : {A : Type ℓ} → (A → ℕ) → A → List A → A
min_from measure best [] = best
min_from measure best (x ∷ xs) =
    min_from measure (if ltb (measure x) (measure best) then x else best) xs

unfoldable pub min_by {ℓ} : {A : Type ℓ} → (A → ℕ) → List A → Option A
unfolding min_from
min_by measure [] = none
min_by measure (x ∷ xs) = some (min_from measure x xs)

unfoldable pub select : ℕ → List (String × ℕ) → List SfuInstance → Option SfuInstance
unfolding is_selectable min_by
select now loads instances = min_by (load_in loads) (filter (is_selectable now loads) instances)

module _ ⦃v : Services⦄ where
  unfoldable pub select_least_loaded_instance : Store (Option SfuInstance)
  unfolding select
  select_least_loaded_instance = do
    instances ← list_sfu_instances
    room_loads ← load_sfu_room_loads
    now ← total v.unix_now
    pure (select now room_loads instances)
