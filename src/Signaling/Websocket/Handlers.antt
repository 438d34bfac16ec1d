-- ===== src/Signaling/Websocket/Handlers.antt =====
-- services/signaling/src/websocket.rs: `handle_client_message`, a function for each message.
use callifornia.Exec.{
  Result, ok, err, pure, raise, gets, or_raise, total, modify, guard, when, when_some, attempt,
  ignore, map_err, ◌>>=◌, ◌>>◌,
}
use callifornia.Message.{
  ClientMessage, Claims, attach, logout, create, join, leave, ServerMessage, attached, logged_out,
  left,
}
use callifornia.Prelude.{
  ℕ, ◌+◌, ◌-◌, max, String, Option, none, some, true, false, not, ◌==◌, if◌then◌else◌,
}
use callifornia.Services.{Services}
use callifornia.Signaling.Auth.{TokenError, validate_connector_token}
use callifornia.Signaling.Node.{on_ext, public_node_id}
use callifornia.Signaling.Redis.{
  consume_jti, session_get, session_set_owner, increment_instance_load, decrement_instance_load,
  release_nick_lease, session_delete, acquire_session_lock, release_session_lock, get_room_route,
}
use callifornia.Signaling.Sessions
use callifornia.Signaling.Sessions.{SessionState}
use callifornia.Signaling.Sfu.{handle_sdp, add_ice_candidate}
use callifornia.Signaling.State.{is_redis_available}
use callifornia.Signaling.Websocket.Context.{
  Ws, WsHandlerError, already_authorized, unauthorized, session_conflict, not_in_room,
  leave_room_mismatch, sfu_unavailable, map_sfu_error, on_node, on_redis, quietly, on_context,
  on_sessions, require_redis, send_message, check_session,
}
use callifornia.Signaling.Websocket.Rooms.{
  is_absent, leave_room, handle_join_locked, handle_create_locked,
}

-- `exp.saturating_sub(iat).max(60) + 30`, in seconds.
unfoldable pub jti_ttl : Claims → ℕ
jti_ttl claims = max (claims.exp - claims.iat) 60 + 30

module _ ⦃v : Services⦄ where
  -- A token with an empty `jti` is not consumed.
  unfoldable pub consume_once : Claims → Ws (Unit {0})
  consume_once claims = when (not (claims.jti == "")) (do
    consumed ← on_redis (consume_jti claims.jti (jti_ttl claims))
    guard consumed unauthorized)

  -- `.filter(|session| session.nickname == claims.nickname)`
  unfoldable pub with_nickname : String → Option SessionState → Option SessionState
  with_nickname nickname none = none
  with_nickname nickname (some session) =
      if session.nickname == nickname then some session else none

  unfoldable pub read_token : String → Ws Claims
  read_token token = do
    config ← gets (λ c. c.node.config)
    map_err (λ (e : TokenError). unauthorized)
        (on_node (
          on_ext
            (validate_connector_token token config.connector_token_secret (public_node_id config))))

  -- The context is bound before the load is counted.
  unfoldable pub bind_session : Claims → SessionState → Ws (Unit {0})
  bind_session claims session = do
    modify (
        on_context λ c. record c {
          session_id = some claims.session_id;
          cached_session = some session;
          allowed_intent = some claims.intent;
          allowed_room_id = claims.room_id;
        })
    node_id ← gets (λ c. public_node_id c.node.config)
    on_redis (increment_instance_load node_id)
    modify (on_context λ c. record c { instance_load_registered = true; lease_renewer = true })
    modify (on_sessions (Sessions.upsert claims.session_id session))

  unfoldable pub handle_attach : String → Ws (Unit {0})
  handle_attach token = do
    bound ← gets (λ c. c.context.session_id)
    guard (is_absent bound) already_authorized
    require_redis
    claims ← read_token token
    consume_once claims
    found ← on_redis (session_get claims.session_id)
    session ← or_raise (with_nickname claims.nickname found) unauthorized
    node_id ← gets (λ c. public_node_id c.node.config)
    on_redis (session_set_owner claims.session_id node_id)
    bind_session claims session
    send_message (attached session.nickname claims.session_id)

  unfoldable pub uncount_load : Ws (Unit {0})
  uncount_load = do
    node_id ← gets (λ c. public_node_id c.node.config)
    on_redis (decrement_instance_load node_id)
    modify (on_context λ c. record c { instance_load_registered = false })

  unfoldable pub logout_redis : String → SessionState → Ws (Unit {0})
  logout_redis session_id session = do
    counted ← gets (λ c. c.context.instance_load_registered)
    when counted uncount_load
    on_redis (release_nick_lease session.nickname session_id)
    on_redis (session_delete session_id)
    pure tt

  unfoldable pub handle_logout : String → Ws (Unit {0})
  handle_logout session_id = do
    session ← check_session session_id
    when_some session.room_id
        λ room_id. leave_room session_id room_id session.nickname "user_logout"
    available ← quietly is_redis_available
    when available (logout_redis session_id session)
    modify (on_sessions (Sessions.delete session_id))
    modify (
        on_context
          λ c. record c { lease_renewer = false; session_id = none; cached_session = none })
    send_message (logged_out session.nickname)

  unfoldable pub settle : Result WsHandlerError (Unit {0}) → Ws (Unit {0})
  settle (ok _) = pure tt
  settle (err e) = raise e

  -- The lock of the session is taken round the handler, and given back whatever its result.
  unfoldable pub with_session_lock : String → Ws (Unit {0}) → Ws (Unit {0})
  with_session_lock session_id handler = do
    require_redis
    lock_owner ← quietly (on_ext (total v.new_uuid))
    ttl ← gets (λ c. c.node.config.session_lock_ttl)
    acquired ← on_redis (acquire_session_lock session_id lock_owner ttl)
    guard acquired session_conflict
    result ← attempt handler
    ignore (on_redis (release_session_lock session_id lock_owner))
    settle result

  unfoldable pub handle_create : v.Sender → String → Ws (Unit {0})
  handle_create outbound_tx session_id =
      with_session_lock session_id (handle_create_locked outbound_tx session_id)

  unfoldable pub handle_join : v.Sender → String → String → Ws (Unit {0})
  handle_join outbound_tx session_id room_id =
      with_session_lock session_id (handle_join_locked outbound_tx session_id room_id)

  unfoldable pub handle_leave : String → String → Ws (Unit {0})
  handle_leave session_id room_id = do
    session ← check_session session_id
    current_room ← or_raise session.room_id not_in_room
    guard (current_room == room_id) leave_room_mismatch
    leave_room session_id room_id session.nickname "user_left"
    send_message (left room_id)

  -- The SFU's address for the room that the session is in.
  unfoldable pub sfu_route : SessionState → Ws (String × String)
  sfu_route session = do
    room_id ← or_raise session.room_id not_in_room
    route ← on_redis (get_room_route room_id)
    sfu_addr ← or_raise route.sfu_grpc_addr sfu_unavailable
    pure (room_id, sfu_addr)

  unfoldable pub handle_sdp_message : String → String → String → Ws (Unit {0})
  handle_sdp_message session_id sdp sdp_type = do
    session ← check_session session_id
    (room_id, sfu_addr) ← sfu_route session
    response ←
        map_err map_sfu_error (on_node (handle_sdp sfu_addr room_id session.nickname sdp sdp_type))
    send_message (ServerMessage.sdp "sfu" response.sdp response.sdp_type)

  unfoldable pub handle_candidate : String → String → String → Ws (Unit {0})
  handle_candidate session_id candidate sdp_mid = do
    session ← check_session session_id
    (room_id, sfu_addr) ← sfu_route session
    map_err map_sfu_error
        (on_node (add_ice_candidate sfu_addr room_id session.nickname candidate sdp_mid))

  unfoldable pub handle_client_message : v.Sender → ClientMessage → Ws (Unit {0})
  handle_client_message outbound_tx (attach token) = handle_attach token
  handle_client_message outbound_tx (logout session_id _) = handle_logout session_id
  handle_client_message outbound_tx (create session_id) = handle_create outbound_tx session_id
  handle_client_message outbound_tx (join session_id room_id) =
      handle_join outbound_tx session_id room_id
  handle_client_message outbound_tx (leave session_id room_id _) = handle_leave session_id room_id
  handle_client_message outbound_tx (ClientMessage.sdp session_id sdp sdp_type) =
      handle_sdp_message session_id sdp sdp_type
  handle_client_message outbound_tx (ClientMessage.candidate session_id candidate sdp_mid) =
      handle_candidate session_id candidate sdp_mid
