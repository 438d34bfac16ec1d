-- ===== src/Signaling/Websocket/Rooms.antt =====
-- services/signaling/src/websocket.rs: joining, creating and leaving a room.
pub mod Stale
use callifornia.Exec.{
  Result, ok, err, Action, pure, raise, gets, or_raise, total, modify, guard, attempt, ignore,
  ◌>>=◌, ◌>>◌,
}
use callifornia.Message.{participant_left, participant_joined, joined, created}
use callifornia.Prelude.{
  String, List, Option, none, some, Bool, true, false, not, ◌&&◌, ◌==◌, is_text,
}
use callifornia.Services.{Services}
use callifornia.Signaling.Node.{Node, on_ext, public_node_id}
use callifornia.Signaling.Peers
use callifornia.Signaling.Peers.{PeerEntry, register}
use callifornia.Signaling.Redis
use callifornia.Signaling.Redis.{
  RedisRoomError, get_room_route, session_set_room, srem_member, close_room_binding,
}
use callifornia.Signaling.Redis.Assign.{assign_room_to_least_loaded_sfu}
use callifornia.Signaling.Sessions
use callifornia.Signaling.Sfu.{SfuClientError, ensure_peer}
use callifornia.Signaling.State.{Quiet, detach_peer, broadcast_to_room}
use callifornia.Signaling.Websocket.Context.{
  Conn, Ws, WsHandlerError, unauthorized, already_in_room, invalid_room_assignment, sfu_unavailable,
  map_redis_error, map_sfu_error, on_node, on_redis, quietly, on_context, on_sessions,
  require_redis, send_message, check_session, is_local_target, cache_room,
}
use Stale.{detach_stale_peers}

abbrev pub is_absent : Option String → Bool
is_absent none = true
is_absent (some s) = false

module _ ⦃v : Services⦄ where
  unfoldable pub tell_left : String → String → Quiet (Unit {0})
  tell_left room_id nickname = do
    stale ← broadcast_to_room room_id (some nickname) (participant_left nickname)
    detach_stale_peers room_id stale "stale_sender"

  unfoldable pub leave_room_and_notify : String → String → String → Quiet (Unit {0})
  leave_room_and_notify room_id nickname reason = do
    detach_peer room_id nickname reason
    tell_left room_id nickname

  unfoldable pub leave_room : String → String → String → String → Ws (Unit {0})
  leave_room session_id room_id nickname reason = do
    require_redis
    quietly (detach_peer room_id nickname reason)
    quietly (tell_left room_id nickname)
    on_redis (session_set_room session_id none)
    modify (on_sessions (Sessions.set_room session_id none))
    modify (on_context (cache_room none))

  -- The room is written to Redis, to the registry and to the connection's copy of the session.
  unfoldable pub enter_room : String → String → Ws (Unit {0})
  enter_room session_id room_id = do
    on_redis (session_set_room session_id (some room_id))
    modify (on_sessions (Sessions.set_room session_id (some room_id)))
    modify (on_context (cache_room (some room_id)))

  -- `outbound_tx` is the sender of the connection's own channel.
  unfoldable pub register_peer : String → String → v.Sender → String → Conn → Conn
  register_peer room_id nickname outbound_tx sfu_addr c =
      let entry : PeerEntry = record { sender = outbound_tx; sfu_addr = some sfu_addr } in
      record c { node = record c.node { peers = register room_id nickname entry c.node.peers } }

  unfoldable pub settle : Quiet (Unit {0}) → Result SfuClientError (Unit {0}) → Ws (Unit {0})
  settle undo (ok _) = pure tt
  settle undo (err e) = do quietly undo; raise (map_sfu_error e)

  -- `if let Err(err) = ensure_peer(…)`: the SFU's refusal is returned when `undo` is done.
  unfoldable pub ensure_peer_or : Quiet (Unit {0}) → String → String → String → Ws (Unit {0})
  ensure_peer_or undo sfu_addr room_id nickname = do
    answer ← quietly (attempt (ensure_peer sfu_addr room_id nickname))
    settle undo answer

  unfoldable pub handle_join_locked : v.Sender → String → String → Ws (Unit {0})
  handle_join_locked outbound_tx session_id room_id = do
    session ← check_session session_id
    guard (is_absent session.room_id) already_in_room
    context ← gets (λ c. c.context)
    guard (is_text context.allowed_intent "join" && is_text context.allowed_room_id room_id)
        unauthorized
    route ← on_redis (get_room_route room_id)
    is_local ← gets (λ c. is_local_target c.node route)
    guard is_local invalid_room_assignment
    guard (route.room_state == "active") invalid_room_assignment
    sfu_addr ← or_raise route.sfu_grpc_addr sfu_unavailable
    participants ← on_redis (Redis.join_room room_id session.nickname)
    ensure_peer_or (ignore (on_ext (srem_member room_id session.nickname))) sfu_addr room_id
        session.nickname
    enter_room session_id room_id
    send_message (joined room_id session.nickname participants)
    modify (register_peer room_id session.nickname outbound_tx sfu_addr)
    stale ←
        quietly
          (broadcast_to_room room_id (some session.nickname) (participant_joined session.nickname))
    quietly (detach_stale_peers room_id stale "stale_sender")

  unfoldable pub settle_join : String → Result RedisRoomError (List String) → Ws (Unit {0})
  settle_join room_id (ok _) = pure tt
  settle_join room_id (err e) = do
    quietly (ignore (on_ext (close_room_binding room_id)))
    raise (map_redis_error e)

  -- `if let Err(err) = join_room(…)`: the binding is closed again.
  unfoldable pub join_created : String → String → Ws (Unit {0})
  join_created room_id nickname = do
    answer ← quietly (attempt (on_ext (Redis.join_room room_id nickname)))
    settle_join room_id answer

  unfoldable pub undo_create : String → String → Quiet (Unit {0})
  undo_create room_id nickname = do
    ignore (on_ext (srem_member room_id nickname))
    ignore (on_ext (close_room_binding room_id))

  unfoldable pub handle_create_locked : v.Sender → String → Ws (Unit {0})
  handle_create_locked outbound_tx session_id = do
    session ← check_session session_id
    guard (is_absent session.room_id) already_in_room
    context ← gets (λ c. c.context)
    guard (is_text context.allowed_intent "create") unauthorized
    room_id ← quietly (on_ext (total v.new_uuid))
    config ← gets (λ c. c.node.config)
    sfu_addr ← on_redis (
        assign_room_to_least_loaded_sfu room_id (public_node_id config) config.signaling_public_host
          config.signaling_public_port)
    join_created room_id session.nickname
    ensure_peer_or (undo_create room_id session.nickname) sfu_addr room_id session.nickname
    enter_room session_id room_id
    send_message (created room_id session.nickname)
    modify (register_peer room_id session.nickname outbound_tx sfu_addr)
