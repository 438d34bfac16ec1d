-- ===== src/Client/Signaling.antt =====
-- client/src/signaling.rs: what each message of the node makes the browser's part send and tell the
-- page.
use callifornia.Client.Messages.{
  leave, Browser, ClientMessage, ServerMessage, SignalingEvent, SignalingIntent, SignalingStart,
  attach, attached, connected, create, created, disconnected, error, join, joined, local_error,
  logged_out, remote_ice_candidate, remote_sdp, room_ready, server_error,
}
use callifornia.Exec.{Result, ok, err, Action, pure, raise, modify, map_err, attempt, ◌>>=◌, ◌>>◌}
use callifornia.Map.{contains}
use callifornia.Prelude.{
  String, List, [], ◌∷◌, push, Option, none, some, get_or, ◌==◌, if◌then◌else◌,
}
use Prim.Native.String.{◌++◌}

module _ ⦃b : Browser⦄ where
  -- The page with the events that were emitted, the oldest first.
  pub record Wire : Type 0 where
    pub page : b.Page
    pub emitted : List SignalingEvent

  abbrev pub Handler : Type 0 → Type 0
  Handler A = Action Wire String A

  unfoldable pub emit : SignalingEvent → Handler (Unit {0})
  emit event = modify λ w. record w { emitted = push w.emitted event }

  unfoldable pub js_error_message : b.JsValue → Option String
  js_error_message value = elim (b.as_string value) [
    | none ↦ b.stringify value
    | some text ↦ some text
  ]

  unfoldable pub js_error_to_string : b.JsValue → String
  js_error_to_string value = get_or (js_error_message value) "JavaScript operation failed."

  unfoldable pub write_text : b.Socket → String → Action Wire b.JsValue (Unit {0})
  write_text ws text w =
      let (r, page) = b.send_with_str ws text w.page in (r, record w { page = page })

  unfoldable pub encoded : Result String String → Handler String
  encoded (ok text) = pure text
  encoded (err message) = raise message

  unfoldable pub send_client_message : b.Socket → ClientMessage → Handler (Unit {0})
  send_client_message ws message = do
    text ← encoded (b.to_json message)
    map_err (λ e. get_or (js_error_message e) "Failed to send signaling message.")
        (write_text ws text)

  -- `if let Err(err) = … { events.emit(…) }`
  unfoldable pub report : Result String (Unit {0}) → Handler (Unit {0})
  report (ok _) = pure tt
  report (err message) = emit (error (local_error message))

  unfoldable pub send_or_report : b.Socket → ClientMessage → Handler (Unit {0})
  send_or_report ws message = do sent ← attempt (send_client_message ws message); report sent

  unfoldable pub next_message : SignalingStart → SignalingIntent → ClientMessage
  next_message start create = ClientMessage.create start.session_id
  next_message start (join room_id) = ClientMessage.join start.session_id room_id

  unfoldable pub with_self : String → List String → List String
  with_self your_nickname participants =
      if contains your_nickname participants then participants else push participants your_nickname

  unfoldable pub handle_server_message :
      b.Socket → SignalingStart → ServerMessage → Handler (Unit {0})
  handle_server_message ws start (attached _ session_id) =
      if session_id == start.session_id
      then send_or_report ws (next_message start start.intent)
      else emit (error (local_error "Signaling attached an unexpected session."))
  handle_server_message ws start (created room_id your_nickname) = emit (
      room_ready (record {
        room_id = room_id;
        your_nickname = your_nickname;
        participants = your_nickname ∷ [];
      }))
  handle_server_message ws start (joined room_id your_nickname participants) = emit (
      room_ready (record {
        room_id = room_id;
        your_nickname = your_nickname;
        participants = with_self your_nickname participants;
      }))
  handle_server_message ws start (ServerMessage.participant_joined nickname) =
      emit (SignalingEvent.participant_joined nickname)
  handle_server_message ws start (ServerMessage.participant_left nickname) =
      emit (SignalingEvent.participant_left nickname)
  handle_server_message ws start (ServerMessage.left room_id) = emit (SignalingEvent.left room_id)
  handle_server_message ws start (ServerMessage.room_closed room_id reason) =
      emit (SignalingEvent.room_closed room_id reason)
  handle_server_message ws start (ServerMessage.error code message) =
      emit (SignalingEvent.error (server_error code message))
  handle_server_message ws start (ServerMessage.service_unavailable dependency retry_after_ms) =
      emit (SignalingEvent.service_unavailable dependency retry_after_ms)
  handle_server_message ws start (logged_out nickname) =
      emit (SignalingEvent.error (local_error (nickname ++ " logged out.")))
  handle_server_message ws start (ServerMessage.sdp _ text sdp_type) =
      emit (remote_sdp text sdp_type)
  handle_server_message ws start (ServerMessage.candidate _ text sdp_mid) =
      emit (remote_ice_candidate text sdp_mid)

  -- The callbacks of a socket: `on_open`, `on_message`, `on_error` and `on_close`. The data of a
  -- message is none if it is not a text.
  unfoldable pub on_open : b.Socket → SignalingStart → Handler (Unit {0})
  on_open ws start = do emit connected; send_or_report ws (attach start.token)

  unfoldable pub on_decoded :
      b.Socket → SignalingStart → Result String ServerMessage → Handler (Unit {0})
  on_decoded ws start (ok message) = handle_server_message ws start message
  on_decoded ws start (err e) =
      emit (SignalingEvent.error (local_error ("Invalid signaling message: " ++ e)))

  unfoldable pub on_message : b.Socket → SignalingStart → Option String → Handler (Unit {0})
  on_message ws start none =
      emit (SignalingEvent.error (local_error "Unsupported binary signaling message."))
  on_message ws start (some text) = on_decoded ws start (b.from_json text)

  unfoldable pub on_error : Handler (Unit {0})
  on_error = emit (SignalingEvent.error (local_error "Signaling WebSocket error."))

  unfoldable pub on_close : String → Handler (Unit {0})
  on_close reason = emit (disconnected (if reason == "" then none else some reason))

  pub record SignalingClient : Type 0 where
    pub ws : b.Socket
    pub session_id : String

  -- `SignalingClient::connect`, and what it makes of a socket that cannot be opened.
  unfoldable pub connect : SignalingStart → Action b.Page String SignalingClient
  connect start = do
    ws ← map_err js_error_to_string (b.new_socket start.signaling_url)
    pure (record { ws = ws; session_id = start.session_id })

  -- `Drop`: the socket loses its callbacks and is closed.
  unfoldable pub drop_client : Option SignalingClient → b.Page → b.Page
  drop_client none page = page
  drop_client (some client) page = b.close client.ws page

  unfoldable pub leave_room : SignalingClient → String → String → List String → Handler (Unit {0})
  leave_room client session_id room_id participants =
      send_client_message client.ws (leave session_id room_id (some participants))

  -- `SignalingTransport`, which shares the socket of its client.
  unfoldable pub send_sdp : SignalingClient → String → String → Handler (Unit {0})
  send_sdp client text sdp_type =
      send_client_message client.ws (ClientMessage.sdp client.session_id text sdp_type)

  unfoldable pub send_ice_candidate : SignalingClient → String → String → Handler (Unit {0})
  send_ice_candidate client text sdp_mid =
      send_client_message client.ws (ClientMessage.candidate client.session_id text sdp_mid)
