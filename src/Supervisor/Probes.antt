-- ===== src/Supervisor/Probes.antt =====
-- services/supervisor/src/probes.rs: one round of each of the loops that probe. What fails is
-- logged and passed over, so a round has no error. The calls carry their timeouts.
use callifornia.ControlStore.{RoomBinding, StoreError}
use callifornia.ControlStore.Cleanup.{delete_room_assignment, delete_signaling_room_members}
use callifornia.ControlStore.Heartbeat.{
  write_supervisor_heartbeat, write_signaling_node_seen, remove_signaling_node,
  alive_signaling_nodes,
}
use callifornia.ControlStore.Instances.{
  list_sfu_instances, update_sfu_health, decrement_sfu_room_load,
}
use callifornia.ControlStore.Rooms.{get_room_assignment}
use callifornia.ControlStore.Scan.{scan_room_binding_ids}
use callifornia.Exec.{
  Result, ok, err, Action, pure, total, attempt, ignore, when, when_some, for_each, ◌>>=◌, ◌>>◌,
}
use callifornia.Map.{contains}
use callifornia.Prelude.{
  ℕ, String, List, [], ◌∷◌, Option, none, some, Bool, not, ◌==◌, is_text, if◌then◌else◌,
}
use callifornia.Services.{Services, SfuInstance}
use callifornia.Supervisor.Config.{Config, SignalingAdminInstance}

unfoldable pub find_node : String → List SignalingAdminInstance → Option SignalingAdminInstance
find_node id [] = none
find_node id (inst ∷ rest) = if inst.node_id == id then some inst else find_node id rest

module _ ⦃v : Services⦄ where
  abbrev pub Probe : Type 0 → Type 0
  Probe A = Action v.Ext ⊥ A

module _ ⦃v : Services⦄ (config : Config) where
  unfoldable pub heartbeat : Probe (Unit {0})
  heartbeat = do
    now ← total v.unix_now
    ignore (write_supervisor_heartbeat (some config.instance_id) now)

  unfoldable pub remove_if_stale :
      SignalingAdminInstance → Result StoreError (List String) → Probe (Unit {0})
  remove_if_stale inst (err e) = pure tt
  remove_if_stale inst (ok alive) =
      when (not (contains inst.node_id alive)) (ignore (remove_signaling_node inst.node_id))

  unfoldable pub check_and_purge_dead_signaling : SignalingAdminInstance → Probe (Unit {0})
  check_and_purge_dead_signaling inst = do
    alive ← attempt (alive_signaling_nodes config.signaling_stale_timeout)
    remove_if_stale inst alive

  unfoldable pub note_seen : String → Probe (Unit {0})
  note_seen node_id = do now ← total v.unix_now; ignore (write_signaling_node_seen node_id now)

  unfoldable pub probe_signaling_instance : SignalingAdminInstance → Probe (Unit {0})
  probe_signaling_instance inst = do
    answered ← total (v.ping_signaling_admin inst.grpc_addr)
    if answered then note_seen inst.node_id else check_and_purge_dead_signaling inst

  unfoldable pub probe_signaling : Probe (Unit {0})
  probe_signaling = for_each config.signaling_admin_instances probe_signaling_instance

  unfoldable pub tell_owner : String → String → Probe (Unit {0})
  tell_owner owner_id sfu_grpc_addr = when (not (owner_id == "")) (
      when_some (find_node owner_id config.signaling_admin_instances)
        λ inst. do total (v.close_rooms_by_sfu inst.grpc_addr sfu_grpc_addr "sfu_down"); pure tt)

  -- What a room leaves in Redis: the count at its SFU, its binding and its members.
  unfoldable pub reclaim : String → RoomBinding → Probe (Unit {0})
  reclaim room_id binding = do
    when_some binding.sfu_instance_id λ id. ignore (decrement_sfu_room_load id)
    ignore (delete_room_assignment room_id)
    ignore (delete_signaling_room_members room_id)

  unfoldable pub close_if_on_sfu :
      String → String → Result StoreError (Option RoomBinding) → Probe (Unit {0})
  close_if_on_sfu sfu_grpc_addr room_id (err e) = pure tt
  close_if_on_sfu sfu_grpc_addr room_id (ok none) = pure tt
  close_if_on_sfu sfu_grpc_addr room_id (ok (some binding)) =
      when (is_text binding.sfu_grpc_addr sfu_grpc_addr)
        (do tell_owner binding.owner_id sfu_grpc_addr; reclaim room_id binding)

  unfoldable pub handle_binding : String → String → Probe (Unit {0})
  handle_binding sfu_grpc_addr room_id = do
    binding ← attempt (get_room_assignment room_id)
    close_if_on_sfu sfu_grpc_addr room_id binding

  unfoldable pub handle_bindings : String → Result StoreError (List String) → Probe (Unit {0})
  handle_bindings sfu_grpc_addr (err e) = pure tt
  handle_bindings sfu_grpc_addr (ok ids) = for_each ids (handle_binding sfu_grpc_addr)

  unfoldable pub handle_dead_sfu : String → Probe (Unit {0})
  handle_dead_sfu sfu_grpc_addr = do
    ids ← attempt scan_room_binding_ids
    handle_bindings sfu_grpc_addr ids

  unfoldable pub after_health : Bool → String → Result StoreError (Unit {0}) → Probe (Unit {0})
  after_health alive grpc_addr (err e) = pure tt
  after_health alive grpc_addr (ok _) = when (not alive) (handle_dead_sfu grpc_addr)

  unfoldable pub probe_sfu_instance : ℕ → SfuInstance → Probe (Unit {0})
  probe_sfu_instance now inst = do
    alive ← total (v.ping_sfu inst.grpc_addr)
    updated ← attempt (update_sfu_health inst.instance_id alive now)
    after_health alive inst.grpc_addr updated

  unfoldable pub probe_instances : Result StoreError (List SfuInstance) → Probe (Unit {0})
  probe_instances (err e) = pure tt
  probe_instances (ok instances) = do
    now ← total v.unix_now
    for_each instances (probe_sfu_instance now)

  unfoldable pub probe_sfus : Probe (Unit {0})
  probe_sfus = do instances ← attempt list_sfu_instances; probe_instances instances

  unfoldable pub purge_all_signaling_for_redis_down : Probe (Unit {0})
  purge_all_signaling_for_redis_down =
      for_each config.signaling_admin_instances
        λ inst. do total (v.purge_signaling inst.grpc_addr "redis"); pure tt
