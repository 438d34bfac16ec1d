-- ===== src/Supervisor/Monitor.antt =====
-- services/supervisor/src/main.rs: the start, and the loop that watches Redis.
pub mod Outage
use callifornia.ControlStore.{Store, StoreError, SfuCandidate}
use callifornia.ControlStore.Heartbeat.{write_supervisor_heartbeat, health_ping}
use callifornia.ControlStore.Instances.{seed_sfu_inventory}
use callifornia.Exec.{Result, ok, err, Action, pure, total, attempt, ignore, when, ◌>>=◌, ◌>>◌}
use callifornia.Prelude.{ℕ, zero, suc, List, map, Option, some, Bool, true, false, not}
use callifornia.Services.{Services}
use callifornia.Supervisor.Config.{Config, SfuInventoryInstance}
use callifornia.Supervisor.Probes.{Probe, purge_all_signaling_for_redis_down}

abbrev pub to_candidate : SfuInventoryInstance → SfuCandidate
to_candidate inst = record {
  instance_id = inst.instance_id;
  grpc_addr = inst.grpc_addr;
  max_rooms = inst.max_rooms;
}

module _ ⦃v : Services⦄ (config : Config) where
  -- What is written before the loops are spawned.
  unfoldable pub start : Store (Unit {0})
  start = do
    now ← total v.unix_now
    ignore (write_supervisor_heartbeat (some config.instance_id) now)
    seed_sfu_inventory (map to_candidate config.sfu_instances)

  -- The result is `redis_was_down`.
  unfoldable pub note_ping : Bool → Result StoreError (Unit {0}) → Probe Bool
  note_ping redis_was_down (ok _) = pure false
  note_ping redis_was_down (err e) = do
    when (not redis_was_down) (purge_all_signaling_for_redis_down config)
    pure true

  unfoldable pub check_redis : Bool → Probe Bool
  check_redis redis_was_down = do reply ← attempt health_ping; note_ping redis_was_down reply

  -- So many rounds of the loop.
  unfoldable pub monitor : ℕ → Bool → Probe Bool
  monitor zero redis_was_down = pure redis_was_down
  monitor (suc rounds) redis_was_down = do down ← check_redis redis_was_down; monitor rounds down
