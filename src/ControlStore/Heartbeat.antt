-- ===== src/ControlStore/Heartbeat.antt =====
-- common/control_store/src/storage.rs: the supervisor's heartbeat, and the nodes that it has seen.
use callifornia.ControlStore.{
  Store, SupervisorStatus, query, write, supervisor_heartbeat_key, signaling_nodes_key,
  signaling_instance_load_key, redis,
}
use callifornia.Exec.{pure, raise, total, ◌>>=◌}
use callifornia.Map.{lookup, is_empty}
use callifornia.Numerals.{ℤ, pos, as_i64, minus, parse_i64, print_u64}
use callifornia.Prelude.{
  ℕ, String, List, Option, none, some, Bool, true, false, ◌==◌, get_or, if◌then◌else◌,
}
use callifornia.Services.{Services, failure}

-- `.filter(|v| !v.is_empty())`
unfoldable pub non_empty : Option String → Option String
non_empty none = none
non_empty (some s) = if s == "" then none else some s

-- `.and_then(|v| v.parse().ok()).unwrap_or(0)`
unfoldable pub read_unix : Option String → ℤ
read_unix none = pos 0
read_unix (some text) = get_or (parse_i64 text) (pos 0)

unfoldable pub to_status : List (String × String) → Option SupervisorStatus
unfolding read_unix non_empty
to_status values =
    if is_empty values
    then none
    else some (record {
      last_seen_unix = read_unix (lookup "last_seen_unix" values);
      instance_id = non_empty (lookup "instance_id" values);
    })

module _ ⦃v : Services⦄ where
  -- Both fields in one transaction.
  unfoldable pub write_supervisor_heartbeat : Option String → ℕ → Store (Unit {0})
  write_supervisor_heartbeat instance_id now_unix = write λ d.
      v.hset supervisor_heartbeat_key "instance_id" (get_or instance_id "")
        (v.hset supervisor_heartbeat_key "last_seen_unix" (print_u64 now_unix) d)

  unfoldable pub read_supervisor_status : Store (Option SupervisorStatus)
  unfolding to_status
  read_supervisor_status = do
    values ← query (v.hgetall supervisor_heartbeat_key)
    pure (to_status values)

  unfoldable pub write_signaling_node_seen : String → ℕ → Store (Unit {0})
  write_signaling_node_seen node_id now_unix = write (v.zadd signaling_nodes_key node_id now_unix)

  unfoldable pub remove_signaling_node : String → Store (Unit {0})
  remove_signaling_node node_id = write (v.zrem signaling_nodes_key node_id)

  unfoldable pub alive_signaling_nodes : ℕ → Store (List String)
  alive_signaling_nodes stale_threshold = do
    now ← total v.unix_now
    query (v.zrangebyscore signaling_nodes_key (minus now (as_i64 stale_threshold)))

  unfoldable pub remove_signaling_node_heartbeats_below : ℤ → Store (Unit {0})
  remove_signaling_node_heartbeats_below cutoff_unix =
      write (v.zremrangebyscore signaling_nodes_key cutoff_unix)

  unfoldable pub signaling_load_members : Store (List String)
  signaling_load_members = query (v.zrange signaling_instance_load_key)

  unfoldable pub remove_signaling_load : String → Store (Unit {0})
  remove_signaling_load node_id = write (v.zrem signaling_instance_load_key node_id)

  unfoldable pub ping_reply : Bool → Store (Unit {0})
  ping_reply true = pure tt
  ping_reply false = raise (redis failure)

  unfoldable pub health_ping : Store (Unit {0})
  unfolding ping_reply
  health_ping = do alive ← total v.ping; ping_reply alive
