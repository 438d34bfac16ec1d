-- ===== src/Connector/Redis.antt =====
-- services/connector/src/redis.rs: the operations of the connector on Redis.
use callifornia.Commands.{send}
use callifornia.ControlStore.{SupervisorStatus}
use callifornia.ControlStore.Heartbeat.{read_supervisor_status, non_empty}
use callifornia.Exec.{Action, pure, raise, or_raise, total, guard, map_err, ◌>>=◌, ◌>>◌}
use callifornia.Map.{lookup, is_empty}
use callifornia.Numerals.{as_i64, minus}
use callifornia.Prelude.{ℕ, String, List, Option, none, some, Bool, is_text, if◌then◌else◌}
use callifornia.Services.{Services, Fault, failure}
use Prim.Native.String.{◌++◌}

pub data RedisError : Type 0 where
  nickname_taken room_not_found invalid_room_route timeout redis : RedisError

pub record RoomRoute : Type 0 where
  pub signaling_instance_id : String

pub record SessionData : Type 0 where
  pub nickname : String

abbrev pub from_fault : Fault → RedisError
from_fault Fault.timeout = RedisError.timeout
from_fault failure = redis

unfoldable pub session_key : String → String
session_key session_id = "signaling:session:" ++ session_id

unfoldable pub nick_key : String → String
nick_key nickname = "signaling:nick:" ++ nickname

unfoldable pub room_binding_key : String → String
room_binding_key room_id = "room:" ++ (room_id ++ ":binding")

abbrev pub to_session_data : Option String → Option SessionData
to_session_data none = none
to_session_data (some nickname) = some (record { nickname = nickname })

module _ ⦃v : Services⦄ where
  abbrev pub Redis : Type 0 → Type 0
  Redis A = Action v.Ext RedisError A

  unfoldable pub write : (v.Db → v.Db) → Redis (Unit {0})
  unfolding send
  write f = send from_fault (λ d. (tt, f d))

module _ ⦃v : Services⦄ {A : Type 0} where
  unfoldable pub command : (v.Db → A × v.Db) → Redis A
  unfolding send
  command f = send from_fault f

  unfoldable pub query : (v.Db → A) → Redis A
  unfolding send
  query f = send from_fault (λ d. (f d, d))

module _ ⦃v : Services⦄ where
  -- `SET key value NX` without a time to live.
  unfoldable pub reserve_nickname : String → String → Redis (Unit {0})
  reserve_nickname nickname session_id = do
    acquired ← command (v.set_nx (nick_key nickname) session_id)
    guard acquired nickname_taken

  unfoldable pub nick_owner_get : String → Redis (Option String)
  nick_owner_get nickname = query (v.get (nick_key nickname))

  -- `COMPARE_AND_DEL_LUA`, one script.
  unfoldable pub release_nick_lease : String → String → Redis (Unit {0})
  release_nick_lease nickname session_id = write λ d.
      if is_text (v.get (nick_key nickname) d) session_id
      then (v.del (nick_key nickname) d).1
      else d

  unfoldable pub session_create : String → String → ℕ → Redis (Unit {0})
  session_create session_id nickname ttl = do
    let key = session_key session_id
    write (v.hset key "nickname" nickname)
    write (v.hset key "room_id" "")
    command (v.expire key (as_i64 ttl))
    pure tt

  unfoldable pub session_delete : String → Redis (Unit {0})
  session_delete session_id = write (λ d. (v.del (session_key session_id) d).1)

  unfoldable pub session_get : String → Redis (Option SessionData)
  unfolding non_empty
  session_get session_id = do
    nickname ← query (λ d. lookup "nickname" (v.hgetall (session_key session_id) d))
    pure (to_session_data (non_empty nickname))

  unfoldable pub session_refresh_ttl : String → ℕ → Redis Bool
  session_refresh_ttl session_id ttl = command (v.expire (session_key session_id) (as_i64 ttl))

  unfoldable pub to_route : List (String × String) → Redis RoomRoute
  unfolding non_empty
  to_route values = do
    host ← or_raise (non_empty (lookup "owner_host" values)) invalid_room_route
    port ← or_raise (non_empty (lookup "owner_port" values)) invalid_room_route
    pure (record { signaling_instance_id = host ++ (":" ++ port) })

  unfoldable pub get_room_route : String → Redis RoomRoute
  get_room_route room_id = do
    values ← query (v.hgetall (room_binding_key room_id))
    if is_empty values then raise room_not_found else to_route values

  unfoldable pub load_signaling_loads : Redis (List (String × ℕ))
  load_signaling_loads = query (v.zrange_withscores "signaling:instance_load")

  unfoldable pub alive_signaling_nodes : ℕ → Redis (List String)
  alive_signaling_nodes stale_threshold = do
    now ← total v.unix_now
    query (v.zrangebyscore "signaling:nodes" (minus now (as_i64 stale_threshold)))

  unfoldable pub get_supervisor_status : Redis (Option SupervisorStatus)
  unfolding read_supervisor_status
  get_supervisor_status = map_err (λ e. redis) read_supervisor_status
