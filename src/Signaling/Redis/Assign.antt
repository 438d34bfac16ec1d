-- ===== src/Signaling/Redis/Assign.antt =====
-- services/signaling/src/redis.rs: the script `ASSIGN_ROOM_TO_SFU_LUA` and its caller. The server
-- runs the script as a whole, so it is a function on its data.
use callifornia.Exec.{Result, ok, err, pure, raise, or_raise, total, ◌>>=◌}
use callifornia.Numerals.{ℤ, pos, negsuc, print_u16}
use callifornia.Prelude.{
  ℕ, suc, ◌+◌, String, List, [], ◌∷◌, Option, none, some, Bool, true, ◌&&◌, ◌==◌, get_or, ltb, leb,
  if◌then◌else◌,
}
use callifornia.Services.{Services, SfuInstance, Fault, failure}
use callifornia.Signaling.Redis.{
  Redis, room_already_exists, invalid_room_target, no_sfu_capacity, redis, command,
  sfu_instances_key, sfu_room_load_key, room_binding_key, non_empty,
}

-- `load == None or load < best`
unfoldable pub is_better : ℕ → Option (SfuInstance × ℕ) → Bool
is_better load none = true
is_better load (some (_, best_load)) = ltb load best_load

-- `now - last_ping <= stale_after` on the numbers of Lua, which do not wrap.
unfoldable pub is_recent : ℕ → ℕ → ℤ → Bool
is_recent now stale_after (pos last_ping) = leb now (stale_after + last_ping)
is_recent now stale_after (negsuc n) = leb (now + suc n) stale_after

-- The test of the script's loop but for the best load so far.
unfoldable pub is_eligible : ℕ → ℕ → SfuInstance → ℕ → Bool
unfolding is_recent
is_eligible now stale_after inst load =
    inst.alive
    && (inst.state == "ready")
    && is_recent now stale_after inst.last_ping_unix
    && ltb load inst.max_rooms

module _ ⦃v : Services⦄ where
  unfoldable pub load_of : v.Db → SfuInstance → ℕ
  load_of d inst = get_or (v.zscore sfu_room_load_key inst.instance_id d) 0

  -- The loop over the hash of the instances. `none` is the error of a payload that it cannot use.
  unfoldable pub scan :
      (now stale_after : ℕ)
      → v.Db
      → Option (SfuInstance × ℕ)
      → List (String × String)
      → Option (Option (SfuInstance × ℕ))
  scan now stale_after d best [] = some best
  scan now stale_after d best ((_, payload) ∷ rest) = elim (v.decode_instance payload) [
    | none ↦ none
    | some inst ↦
        scan now stale_after d
          (if is_eligible now stale_after inst (load_of d inst) && is_better (load_of d inst) best
            then some (inst, load_of d inst)
            else best)
          rest
  ]

  -- `HSET` with six fields, `ZINCRBY` and `HSET`.
  unfoldable pub bind_room : String → String → String → String → SfuInstance → v.Db → v.Db
  bind_room binding_key owner_host owner_port owner_id inst d =
      v.hset sfu_instances_key inst.instance_id
        (v.encode_instance (record inst { idle_since_unix = pos 0 }))
        (v.zincr sfu_room_load_key inst.instance_id 1 (
          v.hset binding_key "sfu_grpc_addr" inst.grpc_addr (
            v.hset binding_key "sfu_instance_id" inst.instance_id (
              v.hset binding_key "room_state" "active" (
                v.hset binding_key "signaling_owner_id" owner_id (
                  v.hset binding_key "owner_port" owner_port
                    (v.hset binding_key "owner_host" owner_host d)))))))

  unfoldable pub finish :
      String
      → String
      → String
      → String
      → Option (Option (SfuInstance × ℕ))
      → v.Db
      → Result Fault (List String) × v.Db
  finish binding_key owner_host owner_port owner_id none d = (err failure, d)
  finish binding_key owner_host owner_port owner_id (some none) d = (ok [], d)
  finish binding_key owner_host owner_port owner_id (some (some (inst, _))) d =
      if v.exists binding_key d then (ok ("__ROOM_EXISTS__" ∷ "" ∷ []), d) else (
        ok (inst.instance_id ∷ inst.grpc_addr ∷ []),
        bind_room binding_key owner_host owner_port owner_id inst d,
      )

  unfoldable pub assign_script :
      String → String → String → String → ℕ → ℕ → v.Db → Result Fault (List String) × v.Db
  assign_script binding_key owner_host owner_port owner_id now stale_after d =
      finish binding_key owner_host owner_port owner_id
        (scan now stale_after d none (v.hgetall sfu_instances_key d)) d

  unfoldable pub or_fault : Result Fault (List String) → Redis (List String)
  or_fault (ok r) = pure r
  or_fault (err e) = raise redis

  -- The address of the `SfuAssignment`.
  unfoldable pub read_assignment : List String → Redis String
  read_assignment [] = raise no_sfu_capacity
  read_assignment (id ∷ []) =
      if id == "__ROOM_EXISTS__" then raise room_already_exists else raise invalid_room_target
  read_assignment (id ∷ addr ∷ _) =
      if id == "__ROOM_EXISTS__"
      then raise room_already_exists
      else or_raise (non_empty (some addr)) invalid_room_target

  unfoldable pub assign_room_to_least_loaded_sfu : String → String → String → ℕ → Redis String
  assign_room_to_least_loaded_sfu room_id owner_id owner_host owner_port = do
    now ← total v.unix_now
    answer ←
        command (
          assign_script (room_binding_key room_id) owner_host (print_u16 owner_port) owner_id now
            30)
    result ← or_fault answer
    read_assignment result
