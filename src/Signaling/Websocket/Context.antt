-- ===== src/Signaling/Websocket/Context.antt =====
-- services/signaling/src/websocket.rs: the context of a connection, its errors, and the steps that
-- the handlers share.
use callifornia.Exec.{Action, pure, gets, or_raise, modify, guard, map_err, zoom, ◌>>=◌, ◌>>◌}
use callifornia.Message
use callifornia.Message.{ServerMessage, ServerErrorCode, error}
use callifornia.Prelude.{
  String, Option, none, some, Bool, false, not, ◌&&◌, ◌==◌, nat_eq, if◌then◌else◌,
}
use callifornia.Services.{Services, Fault}
use callifornia.Signaling.Node.{Node, on_ext}
use callifornia.Signaling.Redis.{
  Redis, RedisRoomError, RoomRoute, invalid_room_target, no_sfu_capacity, room_already_exists,
  session_get,
}
use callifornia.Signaling.Sessions
use callifornia.Signaling.Sessions.{SessionState}
use callifornia.Signaling.Sfu.{SfuClientError, transport, connect, rejected}
use callifornia.Signaling.State.{Quiet, is_redis_available}

-- `lease_renewer` is whether the connection holds the handle of its renewal task.
pub record ConnectionContext : Type 0 where
  pub session_id : Option String
  pub cached_session : Option SessionState
  pub allowed_intent : Option String
  pub allowed_room_id : Option String
  pub instance_load_registered : Bool
  pub lease_renewer : Bool

unfoldable pub default : ConnectionContext
default = record {
  session_id = none;
  cached_session = none;
  allowed_intent = none;
  allowed_room_id = none;
  instance_load_registered = false;
  lease_renewer = false;
}

pub data WsHandlerError : Type 0 where
  already_authorized unauthorized session_conflict not_in_room leave_room_mismatch : WsHandlerError
  already_in_room room_not_found nickname_taken participant_not_in_room redis_error : WsHandlerError
  invalid_room_assignment sfu_capacity_exhausted sfu_unavailable sfu_rejected : WsHandlerError
  write_failed : WsHandlerError

unfoldable pub map_error : WsHandlerError → ServerErrorCode × String
map_error write_failed = (Message.write_failed, "Failed to send message")
map_error already_authorized = (Message.already_authorized, "Connection is already authorized")
map_error unauthorized = (Message.unauthorized, "Unauthorized")
map_error session_conflict = (Message.session_conflict, "Invalid or conflicting session")
map_error leave_room_mismatch =
    (Message.leave_room_mismatch, "Leave room does not match active room")
map_error already_in_room = (Message.already_in_room, "Connection already belongs to a room")
map_error room_not_found = (Message.room_not_found, "Room not found")
map_error nickname_taken = (Message.nickname_taken, "Nickname already taken")
map_error participant_not_in_room = (Message.not_in_room, "Participant is not in room")
map_error invalid_room_assignment = (Message.invalid_room_assignment, "Invalid room assignment")
map_error sfu_capacity_exhausted =
    (Message.sfu_capacity_exhausted, "No ready SFU capacity is available")
map_error redis_error = (Message.storage_unavailable, "Storage operation failed")
map_error not_in_room = (Message.not_in_room, "Connection is not joined to this room")
map_error sfu_unavailable = (Message.sfu_unavailable, "SFU is unavailable")
map_error sfu_rejected = (Message.sfu_rejected, "SFU rejected signaling request")

unfoldable pub map_redis_error : RedisRoomError → WsHandlerError
map_redis_error RedisRoomError.room_not_found = room_not_found
map_redis_error RedisRoomError.nickname_taken = nickname_taken
map_redis_error RedisRoomError.participant_not_in_room = participant_not_in_room
map_redis_error no_sfu_capacity = sfu_capacity_exhausted
map_redis_error room_already_exists = invalid_room_assignment
map_redis_error invalid_room_target = invalid_room_assignment
map_redis_error RedisRoomError.timeout = redis_error
map_redis_error RedisRoomError.redis = redis_error

unfoldable pub map_sfu_error : SfuClientError → WsHandlerError
map_sfu_error (transport _) = sfu_unavailable
map_sfu_error connect = sfu_unavailable
map_sfu_error SfuClientError.timeout = sfu_unavailable
map_sfu_error (rejected _) = sfu_rejected

module _ ⦃v : Services⦄ where
  pub record Conn : Type 0 where
    pub node : Node
    pub context : ConnectionContext

  abbrev pub Ws : Type 0 → Type 0
  Ws A = Action Conn WsHandlerError A

module _ ⦃v : Services⦄ {E A : Type 0} where
  unfoldable pub on_node : Action Node E A → Action Conn E A
  on_node m = zoom (λ c. c.node) (λ n c. record c { node = n }) m

abbrev pub never : ⊥ → WsHandlerError
never e = elim e [ ]

module _ ⦃v : Services⦄ {A : Type 0} where
  -- An operation on Redis with `.map_err(map_redis_error)?`.
  unfoldable pub on_redis : Redis A → Ws A
  on_redis m = map_err map_redis_error (on_node (on_ext m))

  unfoldable pub quietly : Quiet A → Ws A
  quietly m = map_err never (on_node m)

module _ ⦃v : Services⦄ where
  unfoldable pub on_context : (ConnectionContext → ConnectionContext) → Conn → Conn
  on_context f c = record c { context = f c.context }

  unfoldable pub on_sessions : (Sessions.SessionStore → Sessions.SessionStore) → Conn → Conn
  on_sessions f c = record c { node = record c.node { sessions = f c.node.sessions } }

  -- `if !state.is_redis_available().await { return Err(WsHandlerError::RedisError) }`
  unfoldable pub require_redis : Ws (Unit {0})
  require_redis = do available ← quietly is_redis_available; guard available redis_error

  unfoldable pub send_message : ServerMessage → Ws (Unit {0})
  send_message payload =
      map_err (λ (f : Fault). write_failed) (on_node (on_ext (v.socket_send payload)))

  -- `Some(bound) if bound != session_id`
  unfoldable pub is_bound_elsewhere : Option String → String → Bool
  is_bound_elsewhere none session_id = false
  is_bound_elsewhere (some bound) session_id = not (bound == session_id)

  -- `.filter(|session| !session.nickname.is_empty())`
  unfoldable pub named : Option SessionState → Option SessionState
  named none = none
  named (some session) = if session.nickname == "" then none else some session

  unfoldable pub check_session : String → Ws SessionState
  check_session session_id = do
    bound ← gets (λ c. c.context.session_id)
    guard (not (is_bound_elsewhere bound session_id)) session_conflict
    require_redis
    found ← on_redis (session_get session_id)
    session ← or_raise (named found) session_conflict
    modify
        (on_context λ c. record c { session_id = some session_id; cached_session = some session })
    modify (on_sessions (Sessions.upsert session_id session))
    pure session

  unfoldable pub is_local_target : Node → RoomRoute → Bool
  is_local_target n route =
      (route.owner_host == n.config.signaling_public_host)
      && nat_eq route.owner_port n.config.signaling_public_port

  -- `if let Some(cached) = context.cached_session.as_mut() { cached.room_id = room }`
  unfoldable pub cache_room : Option String → ConnectionContext → ConnectionContext
  cache_room room c = elim c.cached_session [
    | none ↦ c
    | some session ↦ record c { cached_session = some (record session { room_id = room }) }
  ]
