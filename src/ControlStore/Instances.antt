-- ===== src/ControlStore/Instances.antt =====
-- common/control_store/src/storage.rs: the inventory of SFU instances, which Redis keeps as JSON,
-- and the count of the rooms that each one carries.
use callifornia.ControlStore.{
  Store, SfuCandidate, bad_json, missing_instance, query, write, sfu_instances_key,
  sfu_room_load_key, room_binding_key,
}
use callifornia.Exec.{pure, or_raise, total, ◌>>=◌, ◌>>◌, when, for_each}
use callifornia.Map.{lookup}
use callifornia.Numerals.{ℤ, pos, print_u16}
use callifornia.Prelude.{
  ℕ, ◌-◌, String, List, [], ◌∷◌, Option, none, some, Bool, true, false, get_or, leb, nat_eq,
  if◌then◌else◌,
}
use callifornia.Services.{Services, SfuInstance}

module _ ⦃v : Services⦄ where
  -- `serde_json::from_str(&json)?`
  unfoldable pub parse : String → Store SfuInstance
  parse json = or_raise (v.parse_instance json) bad_json

  unfoldable pub parse_all : List (String × String) → Store (List SfuInstance)
  parse_all [] = pure []
  parse_all ((_, json) ∷ rest) = do
    inst ← parse json
    instances ← parse_all rest
    pure (inst ∷ instances)

  unfoldable pub list_sfu_instances : Store (List SfuInstance)
  list_sfu_instances = do values ← query (v.hgetall sfu_instances_key); parse_all values

  unfoldable pub load_sfu_room_loads : Store (List (String × ℕ))
  load_sfu_room_loads = query (v.zrange_withscores sfu_room_load_key)

  unfoldable pub parse_found : Option String → Store (Option SfuInstance)
  parse_found none = pure none
  parse_found (some json) = do inst ← parse json; pure (some inst)

  unfoldable pub get_sfu_instance : String → Store (Option SfuInstance)
  get_sfu_instance instance_id = do
    payload ← query (λ d. lookup instance_id (v.hgetall sfu_instances_key d))
    parse_found payload

  unfoldable pub save_sfu_instance : SfuInstance → Store (Unit {0})
  save_sfu_instance inst = write (v.hset sfu_instances_key inst.instance_id (v.print_instance inst))

  unfoldable pub seeded : SfuCandidate → ℕ → Option SfuInstance → SfuInstance
  seeded candidate now (some inst) = record inst {
    grpc_addr = candidate.grpc_addr;
    max_rooms = candidate.max_rooms;
  }
  seeded candidate now none = record {
    instance_id = candidate.instance_id;
    grpc_addr = candidate.grpc_addr;
    max_rooms = candidate.max_rooms;
    alive = false;
    state = "unknown";
    last_ping_unix = pos 0;
    idle_since_unix = pos now;
  }

  abbrev pub is_none : Option ℕ → Bool
  is_none none = true
  is_none (some n) = false

  unfoldable pub seed_one : ℕ → SfuCandidate → Store (Unit {0})
  seed_one now candidate = do
    existing ← get_sfu_instance candidate.instance_id
    let inst = seeded candidate now existing
    save_sfu_instance inst
    existing_load ← query (v.zscore sfu_room_load_key inst.instance_id)
    when (is_none existing_load) (write (v.zadd sfu_room_load_key inst.instance_id 0))

  unfoldable pub seed_sfu_inventory : List SfuCandidate → Store (Unit {0})
  seed_sfu_inventory inventory = do now ← total v.unix_now; for_each inventory (seed_one now)

  unfoldable pub with_health : Bool → ℕ → SfuInstance → SfuInstance
  with_health alive now inst =
      if alive
      then record inst { alive = true; last_ping_unix = pos now; state = "ready" }
      else record inst { alive = false }

  unfoldable pub save_health : Bool → ℕ → Option SfuInstance → Store (Unit {0})
  save_health alive now none = pure tt
  save_health alive now (some inst) = save_sfu_instance (with_health alive now inst)

  unfoldable pub update_sfu_health : String → Bool → ℕ → Store (Unit {0})
  update_sfu_health instance_id alive now = do
    found ← get_sfu_instance instance_id
    save_health alive now found

  unfoldable pub update_idle_since : String → ℤ → Store (Unit {0})
  update_idle_since instance_id idle_since_unix = do
    found ← get_sfu_instance instance_id
    inst ← or_raise found missing_instance
    save_sfu_instance (record inst { idle_since_unix = idle_since_unix })

  -- Both in one transaction.
  unfoldable pub delete_sfu_instance : String → Store (Unit {0})
  delete_sfu_instance instance_id =
      write λ d. v.zrem sfu_room_load_key instance_id (v.hdel sfu_instances_key instance_id d)

  -- `if current <= 1.0 { 0.0 } else { current - 1.0 }`
  unfoldable pub decremented : Option ℕ → ℕ
  decremented current = let c = get_or current 0 in if leb c 1 then 0 else c - 1

  unfoldable pub decrement_sfu_room_load : String → Store (Unit {0})
  decrement_sfu_room_load instance_id = do
    current ← query (v.zscore sfu_room_load_key instance_id)
    let next = decremented current
    write (v.zadd sfu_room_load_key instance_id next)
    when (nat_eq next 0) (do now ← total v.unix_now; update_idle_since instance_id (pos now))

  -- The six fields are one transaction.
  unfoldable pub assign_room_to_instance :
      String → String → String → ℕ → SfuInstance → Store (Unit {0})
  assign_room_to_instance room_id owner_id owner_host owner_port inst = do
    let key = room_binding_key room_id
    write λ d. v.hset key "sfu_grpc_addr" inst.grpc_addr (
        v.hset key "sfu_instance_id" inst.instance_id (
          v.hset key "room_state" "active" (
            v.hset key "signaling_owner_id" owner_id (
              v.hset key "owner_port" (print_u16 owner_port)
                (v.hset key "owner_host" owner_host d)))))
    write (v.zincr sfu_room_load_key inst.instance_id 1)
    update_idle_since inst.instance_id (pos 0)
