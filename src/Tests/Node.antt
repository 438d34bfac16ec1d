-- ===== src/Tests/Node.antt =====
-- The theorems about the signaling node, at a node with a room of three, two of whose channels are
-- closed.
use callifornia.Exec.{
  ok, pure, gets, or_raise, total, modify, ◌>>=◌, map_err, when, when_some, zoom, guard,
}
use callifornia.Message.{participant_left}
use callifornia.Prelude.{
  ℕ, List, String, get_or, [], ◌∷◌, none, some, true, false, ◌≡◌, ◌≢◌, refl, All, is_text,
  if◌then◌else◌, ◌==◌, ◌&&◌,
}
use callifornia.Map.{keys, lookup, insert, remove, contains, add, discard}
use callifornia.Signaling.Cleanup.{get-cleanup_connection}
use callifornia.Signaling.Close.{IsClosed, close_room-IsClosed}
use callifornia.Signaling.Redis.Assign.{load_of, is_eligible, is_better, scan}
use callifornia.Signaling.Redis.Least.{IsReady, scan-IsReady}
use callifornia.Signaling.Websocket.Context.{Conn, default}
use callifornia.Signaling.Logout.{IsLoggedOut, handle_logout-IsLoggedOut}
use callifornia.Signaling.Redis
use callifornia.Signaling.Websocket.Context
use callifornia.Signaling.Websocket.Handlers
use callifornia.Signaling.Websocket.Handlers.{handle_logout}
use callifornia.Signaling.Detach.{peers-detach_peer}
use callifornia.Signaling.Drain.{drain-enough_fuel}
use callifornia.Signaling.Invariant.Node.{Inv, here, next, purge, new, Reach-Inv}
use callifornia.Signaling.Node.{Node, Config, on_ext}
use callifornia.Signaling.Peers.Broadcast.{broadcast-IsTarget}
use callifornia.Signaling.Peers.Rooms.{find-unregister, find-register}
use callifornia.Signaling.Peers.{
  PeerEntry, RoomPeers, broadcast_to_room, find, unregister, register,
}
use callifornia.Signaling.Purge.{IsEmpty, run_purge-IsEmpty, run_purge-refuses}
use callifornia.Signaling.Sessions
use callifornia.Signaling.Sessions.Moves.{
  set_room-IsValid, room_of-set_room, room_of-clear_room, clear_room-IsValid, is_known,
}
use callifornia.Signaling.Sessions.Rooms.{IsValid, is_linked, default-IsValid, upsert-IsValid}
use callifornia.Signaling.Sessions.{
  SessionState, SessionStore, upsert, set_room, clear_room, room_of,
}
use callifornia.Signaling.State.{detach_peer, run_purge, close_room, is_redis_available}
use callifornia.Signaling.Websocket.Connection.{ws_upgrade, cleanup_connection}
use callifornia.Signaling.Websocket.Rooms.Stale.{drain, enough_fuel}
use callifornia.Tests.World.{toy, Ext, instance_a}
use mathlib.Core.List.{reverse}

abbrev pub config : Config
config = record {
  signaling_addr = "0.0.0.0:8080";
  signaling_public_host = "node";
  signaling_public_port = 8080;
  admin_grpc_addr = "0.0.0.0:50071";
  redis_url = "redis://redis:6379/";
  connector_token_secret = "secret";
  redis_connect_timeout = 2000;
  rpc_connect_timeout = 2000;
  ws_read_timeout = 30000;
  ws_write_timeout = 10000;
  redis_op_timeout = 800;
  sfu_rpc_timeout = 5000;
  sfu_backoff_min = 1000;
  sfu_backoff_max = 30000;
  peer_outbound_capacity = 256;
  session_lock_ttl = 5000;
  session_ttl = 600;
  session_renew_interval = 60;
}

abbrev pub outside : Ext
outside = record {
  db = record {
    hashes =
        ("sfu:instances", ("sfu-1", "sfu-1") ∷ [])
        ∷ ("signaling:session:s1", ("nickname", "ann") ∷ [])
        ∷ [];
    sets = [];
    strings = [];
    scores = [];
  };
  clock = 110;
  reachable = true;
}

abbrev entry : ℕ → PeerEntry ⦃v = toy⦄
entry n = record { sender = n; sfu_addr = some "http://sfu:50051" }

abbrev peers : RoomPeers ⦃v = toy⦄
peers = ("r1", ("ann", entry 0) ∷ ("bob", entry 0) ∷ ("eve", entry 1) ∷ []) ∷ []

abbrev session : SessionState
session = record { nickname = "ann"; room_id = some "r1" }

abbrev pub node : Node ⦃v = toy⦄
node = record {
  ext = outside;
  config = config;
  peers = peers;
  sessions = upsert "s1" session Sessions.default;
  sfu = record { clients = []; listeners = []; sdp_peer_locks = []; last_offer_ice_ufrag = [] };
  purging = false;
}

Reach-Inv_example : Inv (run_purge "redis" (new outside config)).1
Reach-Inv_example = Reach-Inv outside config _ (next here (purge (new outside config) "redis"))

drain-enough_fuel_example :
    (drain (enough_fuel "r1" ("ann" ∷ []) peers) "r1" "stale_sender" (reverse ("ann" ∷ [])) node).0
    ≡ ok true
drain-enough_fuel_example = drain-enough_fuel "r1" "stale_sender" ("ann" ∷ []) node

run_purge-IsEmpty_example : IsEmpty (run_purge "redis" node).1
run_purge-IsEmpty_example = run_purge-IsEmpty "redis" node refl

run_purge-refuses_example : ws_upgrade (run_purge "redis" node).1 ≡ none
run_purge-refuses_example = run_purge-refuses "redis" node _ here

peers-detach_peer_example :
    (detach_peer "r1" "ann" "user_left" node).1.peers ≡ unregister "r1" "ann" peers
peers-detach_peer_example = peers-detach_peer "r1" "ann" "user_left" node

broadcast-IsTarget_example :
    All
      (λ nick. (is_text (some "eve") nick ≡ false) × (find "r1" nick peers ≢ none))
      (broadcast_to_room "r1" (some "eve") (participant_left "eve") peers outside).0
broadcast-IsTarget_example =
    broadcast-IsTarget "r1" (some "eve") (participant_left "eve") peers outside

find-unregister_example :
    find "r1" "eve" (unregister "r1" "ann" peers)
    ≡ (if ("r1" == "r1") && ("ann" == "eve") then none else find "r1" "eve" peers)
find-unregister_example = find-unregister "r1" "ann" "r1" "eve" peers

abbrev store : SessionStore
store = upsert "s1" session Sessions.default

room_of-set_room_example :
    room_of (set_room "s1" (some "r2") store) "s1"
    ≡ (if is_known store "s1" && ("s1" == "s1") then some "r2" else room_of store "s1")
room_of-set_room_example = room_of-set_room "s1" "s1" (some "r2") store

store-IsValid : IsValid store
store-IsValid = upsert-IsValid "s1" session Sessions.default default-IsValid

clear_room-IsValid_example : IsValid (clear_room "r1" store).0
clear_room-IsValid_example = clear_room-IsValid "r1" store store-IsValid

room_of-clear_room_example :
    room_of (clear_room "r1" store).0 "s1"
    ≡ (if is_linked store "r1" "s1" then none else room_of store "s1")
room_of-clear_room_example = room_of-clear_room "r1" "s1" store

abbrev pub conn : Conn ⦃v = toy⦄
conn = record { node = node; context = record default { session_id = some "s1" } }

close_room-IsClosed_example :
    IsClosed "r1" (close_room "sfu down" ("r1", keys (get_or (lookup "r1" peers) [])) node).1
close_room-IsClosed_example = close_room-IsClosed "r1" "sfu down" node store-IsValid

get-cleanup_connection_example : Sessions.get "s1" (cleanup_connection conn).1.node.sessions ≡ none
get-cleanup_connection_example = get-cleanup_connection "s1" conn refl

abbrev instances : List (String × String)
instances = ("sfu-1", "sfu-1") ∷ []

scan-IsReady_example : IsReady 110 30 outside.db instance_a 0
unfolding scan is_eligible load_of lookup is_better
scan-IsReady_example = scan-IsReady 110 30 outside.db instances none (some (instance_a, 0)) tt refl

set_room-IsValid_example : IsValid (set_room "s1" none store)
set_room-IsValid_example = set_room-IsValid "s1" none store store-IsValid

find-register_example :
    find "r1" "bob" (register "r1" "bob" (entry 2) peers)
    ≡ (if ("r1" == "r1") && ("bob" == "bob") then some (entry 2) else find "r1" "bob" peers)
find-register_example = find-register "r1" "bob" "r1" "bob" (entry 2) peers

handle_logout-IsLoggedOut_example : IsLoggedOut "s1" (handle_logout "s1" conn).1
unfolding handle_logout pure gets or_raise total modify ◌>>=◌ map_err when when_some zoom guard
    lookup insert remove contains add discard on_ext is_redis_available Redis.command Redis.query
    Redis.session_key Redis.nick_key Redis.session_get Redis.to_session Redis.session_delete
    Redis.release_nick_lease Redis.compare_and_del Context.require_redis Context.quietly
    Context.on_node Context.on_redis Context.on_context Context.on_sessions Context.send_message
    Context.is_bound_elsewhere Context.named Context.check_session Handlers.logout_redis default
handle_logout-IsLoggedOut_example = handle_logout-IsLoggedOut "s1" conn refl
