-- ===== src/Supervisor/Janitor.antt =====
-- services/supervisor/src/probes.rs: one iteration of the janitor. It reads which nodes are alive,
-- and clears Redis of the rooms, the loads and the sessions of the others.
pub mod Spares
pub mod Safety
use callifornia.ControlStore.{Store, RoomBinding}
use callifornia.ControlStore.Cleanup.{
  get_session_owner, delete_signaling_session, delete_signaling_room_members,
  delete_room_assignment,
}
use callifornia.ControlStore.Heartbeat.{
  alive_signaling_nodes, remove_signaling_node_heartbeats_below, signaling_load_members,
  remove_signaling_load,
}
use callifornia.ControlStore.Instances.{decrement_sfu_room_load}
use callifornia.ControlStore.Rooms.{get_room_assignment}
use callifornia.ControlStore.Scan.{
  scan_room_binding_ids, scan_signaling_room_ids, scan_signaling_session_ids,
}
use callifornia.Exec.{Action, pure, total, ignore, when, when_some, for_each, ◌>>=◌, ◌>>◌}
use callifornia.Map.{contains}
use callifornia.Numerals.{as_i64, minus}
use callifornia.Prelude.{ℕ, ◌-◌, String, List, Option, none, some, not, ◌==◌, ◌||◌, if◌then◌else◌}
use callifornia.Services.{Services}

module _ ⦃v : Services⦄ where
  unfoldable pub reclaim : String → RoomBinding → Store (Unit {0})
  reclaim room_id binding = do
    when_some binding.sfu_instance_id λ id. ignore (decrement_sfu_room_load id)
    ignore (delete_room_assignment room_id)
    ignore (delete_signaling_room_members room_id)

  unfoldable pub reclaim_if_stale : List String → String → Option RoomBinding → Store (Unit {0})
  reclaim_if_stale alive room_id none = pure tt
  reclaim_if_stale alive room_id (some binding) =
      if binding.owner_id == "" || contains binding.owner_id alive
      then pure tt
      else reclaim room_id binding

  unfoldable pub check_binding : List String → String → Store (Unit {0})
  check_binding alive room_id = do
    binding ← get_room_assignment room_id
    reclaim_if_stale alive room_id binding

  unfoldable pub check_members : List String → String → Store (Unit {0})
  check_members binding_ids room_id =
      when (not (contains room_id binding_ids)) (ignore (delete_signaling_room_members room_id))

  unfoldable pub check_load : List String → String → Store (Unit {0})
  check_load alive node_id =
      when (not (contains node_id alive)) (ignore (remove_signaling_load node_id))

  unfoldable pub delete_if_stale : List String → String → Option String → Store (Unit {0})
  delete_if_stale alive session_id none = pure tt
  delete_if_stale alive session_id (some owner) =
      when (not (contains owner alive)) (ignore (delete_signaling_session session_id))

  unfoldable pub check_session : List String → String → Store (Unit {0})
  check_session alive session_id = do
    owner ← get_session_owner session_id
    delete_if_stale alive session_id owner

  -- What follows the reading of the nodes that are alive.
  unfoldable pub clean : ℕ → List String → Store (Unit {0})
  clean stale_threshold alive = do
    now ← total v.unix_now
    let cutoff = minus now (as_i64 stale_threshold)
    binding_ids ← scan_room_binding_ids
    for_each binding_ids (check_binding alive)
    room_ids ← scan_signaling_room_ids
    for_each room_ids (check_members binding_ids)
    load_members ← signaling_load_members
    for_each load_members (check_load alive)
    session_ids ← scan_signaling_session_ids
    for_each session_ids (check_session alive)
    ignore (remove_signaling_node_heartbeats_below cutoff)

  -- The argument is `signaling_stale_timeout` of the configuration.
  unfoldable pub run_janitor_iteration : ℕ → Store (Unit {0})
  run_janitor_iteration stale_threshold = do
    alive ← alive_signaling_nodes stale_threshold
    clean stale_threshold alive
