-- ===== src/Signaling/Redis.antt =====
-- services/signaling/src/redis.rs: the operations of the signaling service on Redis. Each command
-- is sent by `deliver`, and any of them may fail: the whole operation then fails, with what the
-- earlier commands have written. That is also what its timeout does.
pub mod Assign
pub mod Least
use callifornia.Exec.{
  Result, ok, err, Action, pure, raise, or_raise, total, ◌>>=◌, ◌>>◌, change_error, when, guard,
}
use callifornia.Map.{lookup, is_empty, discard}
use callifornia.Numerals.{ℤ, parse_u16, pos, as_i64}
use callifornia.Prelude.{
  ℕ, ◌+◌, ◌-◌, ◌/◌, max, String, List, [], ◌∷◌, Option, none, some, Bool, true, false, not, ◌==◌,
  is_text, get_or, nat_eq, leb, if◌then◌else◌,
}
use callifornia.Services.{Services, Fault, failure}
use callifornia.Signaling.Sessions.{SessionState}
use Prim.Native.String.{◌++◌}

pub data RedisRoomError : Type 0 where
  room_not_found nickname_taken participant_not_in_room invalid_room_target : RedisRoomError
  no_sfu_capacity room_already_exists timeout redis : RedisRoomError

pub record RoomRoute : Type 0 where
  pub owner_host : String
  pub owner_port : ℕ
  pub room_state : String
  pub sfu_grpc_addr : Option String

abbrev pub from_fault : Fault → RedisRoomError
from_fault Fault.timeout = RedisRoomError.timeout
from_fault failure = redis

unfoldable pub session_key : String → String
session_key session_id = "signaling:session:" ++ session_id

unfoldable pub session_lock_key : String → String
session_lock_key session_id = "signaling:session:" ++ (session_id ++ ":lock")

unfoldable pub nick_key : String → String
nick_key nickname = "signaling:nick:" ++ nickname

unfoldable pub room_binding_key : String → String
room_binding_key room_id = "room:" ++ (room_id ++ ":binding")

unfoldable pub room_members_key : String → String
room_members_key room_id = "signaling:room:" ++ (room_id ++ ":members")

abbrev pub instance_load_key : String
instance_load_key = "signaling:instance_load"

abbrev pub sfu_instances_key : String
sfu_instances_key = "sfu:instances"

abbrev pub sfu_room_load_key : String
sfu_room_load_key = "sfu:room_load"

-- `.filter(|value| !value.is_empty())`
abbrev pub non_empty : Option String → Option String
non_empty none = none
non_empty (some s) = if s == "" then none else some s

module _ ⦃v : Services⦄ where
  abbrev pub Redis : Type 0 → Type 0
  Redis A = Action v.Ext RedisRoomError A

module _ ⦃v : Services⦄ {A : Type 0} where
  unfoldable pub command : (v.Db → A × v.Db) → Redis A
  command f x = let (r, x') = v.deliver A f x in (change_error from_fault r, x')

  unfoldable pub query : (v.Db → A) → Redis A
  query f = command (λ d. (f d, d))

module _ ⦃v : Services⦄ where
  unfoldable pub write : (v.Db → v.Db) → Redis (Unit {0})
  write f = command (λ d. (tt, f d))

  -- `COMPARE_AND_DEL_LUA`: one script, run by the server as a whole.
  unfoldable pub compare_and_del : String → String → v.Db → ℕ × v.Db
  compare_and_del key arg d = if is_text (v.get key d) arg then v.del key d else (0, d)

  unfoldable pub consume_jti : String → ℕ → Redis Bool
  consume_jti jti ttl = command (v.set_nx_ex ("signaling:jti:" ++ jti) "1" (max ttl 1))

  unfoldable pub session_set_owner : String → String → Redis (Unit {0})
  session_set_owner session_id owner_id =
      write (v.hset (session_key session_id) "signaling_owner_id" owner_id)

  -- The lock's time to live is in milliseconds.
  unfoldable pub acquire_session_lock : String → String → ℕ → Redis Bool
  acquire_session_lock session_id owner ttl =
      command (v.set_nx_px (session_lock_key session_id) owner ttl)

  unfoldable pub release_session_lock : String → String → Redis ℕ
  release_session_lock session_id owner =
      command (compare_and_del (session_lock_key session_id) owner)

  unfoldable pub release_nick_lease : String → String → Redis ℕ
  release_nick_lease nickname session_id = command (compare_and_del (nick_key nickname) session_id)

  unfoldable pub renew_session_ttl : String → ℕ → Redis Bool
  renew_session_ttl session_id ttl = command (v.expire (session_key session_id) (as_i64 ttl))

  unfoldable pub to_session : List (String × String) → Option SessionState
  to_session values =
      if is_empty values
      then none
      else some (record {
        nickname = get_or (lookup "nickname" values) "";
        room_id = non_empty (lookup "room_id" values);
      })

  unfoldable pub session_get : String → Redis (Option SessionState)
  session_get session_id = do
    values ← query (v.hgetall (session_key session_id))
    pure (to_session values)

  unfoldable pub session_set_room : String → Option String → Redis (Unit {0})
  session_set_room session_id room_id =
      write (v.hset (session_key session_id) "room_id" (get_or room_id ""))

  unfoldable pub session_delete : String → Redis ℕ
  session_delete session_id = command (v.del (session_key session_id))

  unfoldable pub increment_instance_load : String → Redis (Unit {0})
  increment_instance_load instance_id = write (v.zincr instance_load_key instance_id 1)

  -- `if current <= 1.0 { 0.0 } else { current - 1.0 }`
  unfoldable pub decremented : Option ℕ → ℕ
  decremented current = let c = get_or current 0 in if leb c 1 then 0 else c - 1

  unfoldable pub decrement_instance_load : String → Redis (Unit {0})
  decrement_instance_load instance_id = do
    current ← query (v.zscore instance_load_key instance_id)
    write (v.zadd instance_load_key instance_id (decremented current))

  unfoldable pub to_route : List (String × String) → Redis RoomRoute
  to_route values = do
    host ← or_raise (non_empty (lookup "owner_host" values)) invalid_room_target
    text ← or_raise (lookup "owner_port" values) invalid_room_target
    port ← or_raise (parse_u16 text) invalid_room_target
    pure (record {
      owner_host = host;
      owner_port = port;
      room_state = get_or (lookup "room_state" values) "active";
      sfu_grpc_addr = non_empty (lookup "sfu_grpc_addr" values);
    })

  unfoldable pub get_room_route : String → Redis RoomRoute
  get_room_route room_id = do
    values ← query (v.hgetall (room_binding_key room_id))
    if is_empty values then raise room_not_found else to_route values

  unfoldable pub join_room : String → String → Redis (List String)
  join_room room_id nickname = do
    exists ← query (v.exists (room_binding_key room_id))
    guard exists room_not_found
    already_taken ← query (v.sismember (room_members_key room_id) nickname)
    guard (not already_taken) nickname_taken
    write (v.sadd (room_members_key room_id) nickname)
    participants ← query (v.smembers (room_members_key room_id))
    pure (discard nickname participants)

  unfoldable pub srem_member : String → String → Redis ℕ
  srem_member room_id nickname = command (v.srem (room_members_key room_id) nickname)

  unfoldable pub delete_if : Bool → String → Redis (Unit {0})
  delete_if b key = when b (do command (v.del key); pure tt)

  -- The result is `room_empty` of `LeaveRoomResult`.
  unfoldable pub leave_room : String → String → Redis Bool
  leave_room room_id nickname = do
    exists ← query (v.exists (room_binding_key room_id))
    guard exists room_not_found
    removed ← command (v.srem (room_members_key room_id) nickname)
    guard (not (nat_eq removed 0)) participant_not_in_room
    remaining ← query (v.scard (room_members_key room_id))
    delete_if (nat_eq remaining 0) (room_members_key room_id)
    pure (nat_eq remaining 0)

  unfoldable pub store_idle_since : String → ℤ → Option String → Redis (Unit {0})
  store_idle_since instance_id idle_since_unix none = pure tt
  store_idle_since instance_id idle_since_unix (some payload) = do
    json ← or_raise (v.set_idle_since idle_since_unix payload) invalid_room_target
    write (v.hset sfu_instances_key instance_id json)

  unfoldable pub update_sfu_idle_since : String → ℤ → Redis (Unit {0})
  update_sfu_idle_since instance_id idle_since_unix = do
    payload ← query (λ d. lookup instance_id (v.hgetall sfu_instances_key d))
    store_idle_since instance_id idle_since_unix payload

  unfoldable pub decrement_sfu_room_load : String → Redis (Unit {0})
  decrement_sfu_room_load instance_id = do
    current ← query (v.zscore sfu_room_load_key instance_id)
    let next = decremented current
    write (v.zadd sfu_room_load_key instance_id next)
    when (nat_eq next 0) (do now ← total v.unix_now; update_sfu_idle_since instance_id (pos now))

  unfoldable pub release_instance : Option String → Redis Bool
  release_instance none = pure false
  release_instance (some instance_id) = do decrement_sfu_room_load instance_id; pure true

  unfoldable pub close_room_binding : String → Redis Bool
  close_room_binding room_id = do
    instance_id ← query (λ d. lookup "sfu_instance_id" (v.hgetall (room_binding_key room_id) d))
    deleted ← command (v.del (room_binding_key room_id))
    release_instance (if nat_eq deleted 0 then none else instance_id)

  unfoldable pub delete_room : String → Redis ℕ
  delete_room room_id = command (v.del (room_members_key room_id))
