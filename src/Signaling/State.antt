-- ===== src/Signaling/State.antt =====
-- services/signaling/src/state.rs: how a node lets go of a peer, of the rooms of a dead SFU, and of
-- everything. None of these fails: an error of Redis or of the SFU is logged, and the rest is done.
use callifornia.Exec.{
  Result, ok, err, Action, pure, gets, total, modify, attempt, ignore, when, when_some, for_each,
  ◌>>=◌, ◌>>◌,
}
use callifornia.Message.{ServerMessage, service_unavailable, room_closed}
use callifornia.Prelude.{String, List, Option, none, some, Bool, true, false, not, is_text}
use callifornia.Services.{Services}
use callifornia.Signaling.Node.{Node, on_ext}
use callifornia.Signaling.Peers
use callifornia.Signaling.Peers.{unregister, snapshot_rooms, snapshot_rooms_with_sfu}
use callifornia.Signaling.Redis
use callifornia.Signaling.Redis.{Redis, RoomRoute, RedisRoomError, get_room_route}
use callifornia.Signaling.Sessions
use callifornia.Signaling.Sfu
use callifornia.Signaling.Sfu.{cleanup_peer_sdp_state}

module _ ⦃v : Services⦄ where
  -- An action that cannot fail.
  abbrev pub Quiet : Type 0 → Type 0
  Quiet A = Action Node ⊥ A

  unfoldable pub is_redis_available : Quiet Bool
  is_redis_available = on_ext (total v.ping)

  unfoldable pub drop_peer : String → String → Node → Node
  drop_peer room_id nickname n = record n { peers = unregister room_id nickname n.peers }

  unfoldable pub broadcast_to_room : String → Option String → ServerMessage → Quiet (List String)
  broadcast_to_room room_id except payload = total λ n.
      let (stale, x) = Peers.broadcast_to_room room_id except payload n.peers n.ext in
      (stale, record n { ext = x })

  unfoldable pub to_route : Result RedisRoomError RoomRoute → Option RoomRoute
  to_route (ok route) = some route
  to_route (err e) = none

  unfoldable pub known_route : Bool → String → Quiet (Option RoomRoute)
  known_route false room_id = pure none
  known_route true room_id = do
    route ← attempt (on_ext (get_room_route room_id))
    pure (to_route route)

  unfoldable pub was_last : Result RedisRoomError Bool → Bool
  was_last (ok room_empty) = room_empty
  was_last (err e) = false

  unfoldable pub leave_redis : Bool → String → String → Quiet Bool
  leave_redis false room_id nickname = pure false
  leave_redis true room_id nickname = do
    left ← attempt (on_ext (Redis.leave_room room_id nickname))
    pure (was_last left)

  -- `route.and_then(|route| route.sfu_grpc_addr)`
  unfoldable pub sfu_of : Option RoomRoute → Option String
  sfu_of none = none
  sfu_of (some route) = route.sfu_grpc_addr

  unfoldable pub detach_peer : String → String → String → Quiet (Unit {0})
  detach_peer room_id nickname reason = do
    available ← is_redis_available
    route ← known_route available room_id
    modify (drop_peer room_id nickname)
    still_available ← is_redis_available
    room_empty ← leave_redis still_available room_id nickname
    when_some (sfu_of route) λ sfu_addr. ignore (Sfu.delete_peer sfu_addr room_id nickname reason)
    when room_empty (ignore (on_ext (Redis.close_room_binding room_id)))

  unfoldable pub purge_peer : String → String × Option String → Quiet (Unit {0})
  purge_peer room_id (nickname, sfu_addr) =
      when_some sfu_addr λ addr. ignore (Sfu.delete_peer addr room_id nickname "signaling_purge")

  unfoldable pub clear_registries : Node → Node
  clear_registries n =
      Sfu.clear (record n { peers = Peers.clear n.peers; sessions = Sessions.clear n.sessions })

  -- What follows once the flag is set.
  unfoldable pub purge : String → Quiet (Unit {0})
  purge dependency = do
    rooms ← gets (λ n. snapshot_rooms_with_sfu n.peers)
    for_each rooms
        λ room. do broadcast_to_room room.0 none (service_unavailable dependency 5000); pure tt
    for_each rooms λ room. for_each room.1 (purge_peer room.0)
    modify clear_registries

  unfoldable pub is_purging : Node → Bool
  is_purging n = n.purging

  -- `compare_exchange(false, true)` succeeds if the flag was not set; it is set in either case.
  unfoldable pub try_begin_purge : Quiet Bool
  try_begin_purge = total λ n. (not n.purging, record n { purging = true })

  unfoldable pub run_purge : String → Quiet (Unit {0})
  run_purge dependency = do first ← try_begin_purge; when first (purge dependency)

  unfoldable pub forget_peer : String → String → Quiet (Unit {0})
  forget_peer room_id nickname = do
    modify (drop_peer room_id nickname)
    modify (cleanup_peer_sdp_state room_id nickname)

  unfoldable pub clear_room : String → Quiet (List String)
  clear_room room_id = total λ n.
      let (sessions, affected) = Sessions.clear_room room_id n.sessions in
      (affected, record n { sessions = sessions })

  unfoldable pub close_in_redis : String → List String → Quiet (Unit {0})
  close_in_redis room_id affected = do
    ignore (on_ext (Redis.close_room_binding room_id))
    ignore (on_ext (Redis.delete_room room_id))
    for_each affected λ session_id. ignore (on_ext (Redis.session_set_room session_id none))

  -- One room whose binding names the dead SFU.
  unfoldable pub close_room : String → String × List String → Quiet (Unit {0})
  close_room reason (room_id, participants) = do
    stale ← broadcast_to_room room_id none (room_closed room_id reason)
    for_each participants (forget_peer room_id)
    for_each stale (forget_peer room_id)
    affected ← clear_room room_id
    available ← is_redis_available
    when available (close_in_redis room_id affected)

  unfoldable pub close_if_on : String → String → String × List String → Quiet (Unit {0})
  close_if_on sfu_addr reason room = do
    route ← attempt (on_ext (get_room_route room.0))
    when (is_text (sfu_of (to_route route)) sfu_addr) (close_room reason room)

  unfoldable pub close_rooms_due_to_sfu_addr : String → String → Quiet (Unit {0})
  close_rooms_due_to_sfu_addr sfu_addr reason = do
    rooms ← gets (λ n. snapshot_rooms n.peers)
    for_each rooms (close_if_on sfu_addr reason)
