-- ===== src/Signaling/Websocket/Connection.antt =====
-- services/signaling/src/websocket.rs: the life of a connection. What `select!` may pick is an event,
-- and the loop runs over the events in the order in which it picks them.
use callifornia.Exec.{
  Result, ok, err, Action, pure, gets, modify, when, when_some, attempt, ignore, ◌>>=◌, ◌>>◌,
}
use callifornia.Message.{
  ClientMessage, ServerMessage, ServerErrorCode, ValidationError, error, validate, invalid_json,
  invalid_payload, invalid_session_id, invalid_room_id, invalid_token, missing_sdp,
  missing_candidate, missing_sdp_mid,
}
use callifornia.Prelude.{
  String, List, [], ◌∷◌, Option, none, some, Bool, true, false, if◌then◌else◌,
}
use callifornia.Services.{Services}
use callifornia.Signaling.Node.{Node, on_ext, public_node_id}
use callifornia.Signaling.Redis
use callifornia.Signaling.Redis.{RedisRoomError, session_get, session_set_room, renew_session_ttl}
use callifornia.Signaling.Sessions
use callifornia.Signaling.Sessions.{SessionState}
use callifornia.Signaling.State.{Quiet, is_redis_available, is_purging}
use callifornia.Signaling.Websocket.Context.{
  Conn, default, WsHandlerError, write_failed, map_error, on_node, send_message,
}
use callifornia.Signaling.Websocket.Handlers.{handle_client_message}
use callifornia.Signaling.Websocket.Rooms.{leave_room_and_notify}

-- `incoming` has the text's message, if it is JSON of the right form.
pub data Event : Type 0 where
  heartbeat : Event
  incoming : Option ClientMessage → Event
  other_frame : Event
  close read_error read_timeout : Event
  outbound : ServerMessage → Event
  outbound_closed : Event

-- `err.to_string()`
unfoldable pub validation_text : ValidationError → String
validation_text invalid_session_id = "session_id must be a valid UUID"
validation_text invalid_room_id = "room_id must be a valid UUID"
validation_text invalid_token = "token must not be empty"
validation_text missing_sdp = "sdp must not be empty"
validation_text missing_candidate = "candidate must not be empty"
validation_text missing_sdp_mid = "sdp_mid must not be empty"

abbrev pub is_ok {ℓ κ} : {E : Type ℓ} {A : Type κ} → Result E A → Bool
is_ok (ok _) = true
is_ok (err _) = false

module _ ⦃v : Services⦄ where
  -- An action of the connection that cannot fail.
  abbrev pub Run : Type 0 → Type 0
  Run A = Action Conn ⊥ A

  -- Whether the loop goes on after a write to the socket.
  unfoldable pub try_send_message : ServerMessage → Run Bool
  try_send_message payload = do sent ← attempt (send_message payload); pure (is_ok sent)

  unfoldable pub send_error : ServerErrorCode → String → Run Bool
  send_error code message = try_send_message (error code message)

  unfoldable pub answer : Result WsHandlerError (Unit {0}) → Run Bool
  answer (ok _) = pure true
  answer (err write_failed) = pure false
  answer (err e) = let (code, message) = map_error e in send_error code message

  unfoldable pub serve : v.Sender → ClientMessage → Result ValidationError (Unit {0}) → Run Bool
  serve outbound_tx message (err e) = send_error invalid_payload (validation_text e)
  serve outbound_tx message (ok _) = do
    result ← attempt (handle_client_message outbound_tx message)
    answer result

  unfoldable pub handle_event : v.Sender → Event → Run Bool
  handle_event outbound_tx heartbeat = do
    sent ← attempt (on_node (on_ext v.socket_ping))
    pure (is_ok sent)
  handle_event outbound_tx (incoming none) = send_error invalid_json "Malformed JSON"
  handle_event outbound_tx (incoming (some message)) =
      serve outbound_tx message (validate v.is_uuid message)
  handle_event outbound_tx other_frame = pure true
  handle_event outbound_tx close = pure false
  handle_event outbound_tx read_error = pure false
  handle_event outbound_tx read_timeout = pure false
  handle_event outbound_tx (outbound payload) = try_send_message payload
  handle_event outbound_tx outbound_closed = pure false

  unfoldable pub loaded : Result RedisRoomError (Option SessionState) → Option SessionState
  loaded (ok session) = session
  loaded (err e) = none

  unfoldable pub find_session : String → Option SessionState → Run (Option SessionState)
  find_session session_id (some session) = pure (some session)
  find_session session_id none = do
    found ← attempt (on_node (on_ext (session_get session_id)))
    pure (loaded found)

  unfoldable pub edit_sessions : (Sessions.SessionStore → Sessions.SessionStore) → Conn → Conn
  edit_sessions f c = record c { node = record c.node { sessions = f c.node.sessions } }

  unfoldable pub leave_on_close : String → String → String → Run (Unit {0})
  leave_on_close session_id nickname room_id = do
    on_node (leave_room_and_notify room_id nickname "signaling_disconnected")
    ignore (on_node (on_ext (session_set_room session_id none)))
    modify (edit_sessions (Sessions.set_room session_id none))

  unfoldable pub uncount : Run (Unit {0})
  uncount = do
    node_id ← gets (λ c. public_node_id c.node.config)
    ignore (on_node (on_ext (Redis.decrement_instance_load node_id)))

  -- The nickname and the session stay in Redis: a lost connection is no logout.
  unfoldable pub release_session : String → Option SessionState → Run (Unit {0})
  release_session session_id none = pure tt
  release_session session_id (some session) = do
    when_some session.room_id (leave_on_close session_id session.nickname)
    counted ← gets (λ c. c.context.instance_load_registered)
    when counted uncount

  unfoldable pub release_bound : String → Bool → Run (Unit {0})
  release_bound session_id false = modify (edit_sessions (Sessions.delete session_id))
  release_bound session_id true = do
    cached ← gets (λ c. Sessions.get session_id c.node.sessions)
    session ← find_session session_id cached
    release_session session_id session
    modify (edit_sessions (Sessions.delete session_id))

  unfoldable pub stop_renewer : Conn → Conn
  stop_renewer c = record c { context = record c.context { lease_renewer = false } }

  unfoldable pub cleanup_connection : Run (Unit {0})
  cleanup_connection = do
    modify stop_renewer
    bound ← gets (λ c. c.context.session_id)
    when_some bound
        λ session_id. do available ← on_node is_redis_available; release_bound session_id available

  unfoldable pub run_loop : v.Sender → List Event → Run (Unit {0})
  run_loop outbound_tx [] = pure tt
  run_loop outbound_tx (e ∷ events) = do
    goes_on ← handle_event outbound_tx e
    when goes_on (run_loop outbound_tx events)

  unfoldable pub handle_ws : v.Sender → List Event → Run (Unit {0})
  handle_ws outbound_tx events = do run_loop outbound_tx events; cleanup_connection

  -- `none` is the refusal with 503; a new connection starts with the empty context.
  unfoldable pub ws_upgrade : Node → Option Conn
  ws_upgrade n = if is_purging n then none else some (record { node = n; context = default })

  -- One tick of the task of `spawn_lease_renewer`.
  unfoldable pub renew_lease : String → Quiet (Unit {0})
  renew_lease session_id = do
    available ← is_redis_available
    ttl ← gets (λ n. n.config.session_ttl)
    when available (ignore (on_ext (renew_session_ttl session_id ttl)))
