-- ===== src/Tests/Store.antt =====
-- The theorems about the control store and the supervisor, with one SFU instance and one node.
use callifornia.ControlStore.{RoomBinding, room_binding_key, session_key, session_lock_key}
use callifornia.ControlStore.Rooms.{to_binding, read_port}
use callifornia.ControlStore.Heartbeat.{non_empty}
use callifornia.ControlStore.Scan.{scan_loop, binding_id_of, session_id_of, collect}
use callifornia.ControlStore.Scan.Ids.{binding_id_of-room_binding_key, session_id_of-session_key}
use callifornia.ControlStore.Scan.Pages.{last, scan_loop-Run}
use callifornia.ControlStore.Scan.Strip.{ends_with, strip_prefix, strip_suffix}
use callifornia.Exec.{ok, for_each, ◌>>=◌, total, pure}
use callifornia.Map.{contains, lookup}
use callifornia.Numerals.{minus, ltz, parse_u16, read_number, read_digits}
use callifornia.Prelude.{[], ◌∷◌, none, some, true, false, ◌≡◌, ◌↔◌, refl, arith}
use callifornia.Supervisor.Config.{Config}
use callifornia.Supervisor.Janitor.{run_janitor_iteration}
use callifornia.Supervisor.Janitor.Safety.{run_janitor_iteration-spares}
use callifornia.Supervisor.Monitor.{monitor}
use callifornia.Supervisor.Monitor.Outage.{stop, next, monitor-outage}
use callifornia.Supervisor.Probes.{purge_all_signaling_for_redis_down}
use callifornia.Tests.Laws.{toy_laws, db_toy}
use callifornia.Tests.World.{toy, Ext}

abbrev outside : Ext
outside = record {
  db = record {
    hashes =
        (
          "room:r1:binding",
          ("signaling_owner_id", "node:8080")
              ∷ ("owner_host", "node")
              ∷ ("owner_port", "8080")
              ∷ ("sfu_instance_id", "sfu-1")
              ∷ [],
        )
        ∷ ("sfu:instances", ("sfu-1", "sfu-1") ∷ [])
        ∷ [];
    sets = [];
    strings = [];
    scores = ("signaling:nodes", ("node:8080", 99) ∷ []) ∷ [];
  };
  clock = 100;
  reachable = true;
}

abbrev down : Ext
down = record outside { reachable = false }

abbrev config : Config
config = record {
  redis_url = "";
  redis_connect_timeout_ms = 2000;
  redis_op_timeout_ms = 800;
  rpc_connect_timeout_ms = 2000;
  signaling_admin_instances = record { node_id = "node:8080"; grpc_addr = "http://node" } ∷ [];
  sfu_instances = [];
  probe_interval_ms = 2000;
  probe_timeout_ms = 1000;
  signaling_stale_timeout = 30;
  janitor_interval = 5;
  sfu_connect_timeout_ms = 2000;
  instance_id = "sup";
}

abbrev binding : RoomBinding
binding = record {
  room_id = "r1";
  owner_id = "node:8080";
  owner_host = "node";
  owner_port = 8080;
  state = "active";
  sfu_instance_id = some "sfu-1";
  sfu_grpc_addr = none;
}

binding_id_of-room_binding_key_example :
    (binding_id_of "room:r1:binding" ≡ some "r1") ↔ ("room:r1:binding" ≡ room_binding_key "r1")
binding_id_of-room_binding_key_example = binding_id_of-room_binding_key "room:r1:binding" "r1"

session_id_of-session_key_example :
    (session_id_of (session_lock_key "s1") ≡ none) × (session_id_of (session_key "s1") ≡ some "s1")
unfolding ends_with session_key
session_id_of-session_key_example = session_id_of-session_key "s1"

scan_loop-Run_example :
    scan_loop 10 "room:*:binding" binding_id_of 0 [] outside ≡ (ok ("r1" ∷ []), outside)
unfolding collect binding_id_of strip_prefix strip_suffix
scan_loop-Run_example =
    scan_loop-Run {n = 1} {keys = "room:r1:binding" ∷ "sfu:instances" ∷ []} binding_id_of 10 []
      (last refl) (omega arith)

run_janitor_iteration-spares_example :
    toy.hgetall (room_binding_key "r1") (toy_laws.db (run_janitor_iteration 30 outside).1)
    ≡ toy.hgetall (room_binding_key "r1") (toy_laws.db outside)
unfolding to_binding read_port non_empty lookup contains parse_u16 read_number read_digits
    room_binding_key minus ltz
run_janitor_iteration-spares_example =
    run_janitor_iteration-spares toy_laws 30 "r1" binding outside (omega arith)
      (rw (db_toy outside) refl) (rw (db_toy outside) refl)

monitor-outage_example : monitor config 3 false down ≡ (ok true, record down { clock = 101 })
unfolding purge_all_signaling_for_redis_down for_each ◌>>=◌ total pure
monitor-outage_example = monitor-outage config {n = 2} refl (next refl (next refl stop))
