-- ===== src/Client/Messages.antt =====
-- client/src/signaling.rs: the messages of the WebSocket as the browser's part writes and reads
-- them, the events that it tells the page, and what the browser and the crates do for it.
use callifornia.Exec.{Result}
use callifornia.Prelude.{ℕ, String, List, Option, none, some}
use Prim.Native.String.{◌++◌}

pub data SignalingIntent : Type 0 where
  create : SignalingIntent
  join : (room_id : String) → SignalingIntent

pub record SignalingStart : Type 0 where
  pub signaling_url : String
  pub session_id : String
  pub token : String
  pub intent : SignalingIntent

-- `SignalingReadyResponse` of client/src/connector_api.rs
pub record SignalingReadyResponse : Type 0 where
  pub signaling_url : String
  pub session_id : String
  pub token : String

-- `SignalingStart::new`
unfoldable pub new_start : SignalingReadyResponse → SignalingIntent → SignalingStart
new_start response intent = record {
  signaling_url = response.signaling_url;
  session_id = response.session_id;
  token = response.token;
  intent = intent;
}

pub record RoomSnapshot : Type 0 where
  pub room_id : String
  pub your_nickname : String
  pub participants : List String

pub data ServerErrorCode : Type 0 where
  invalid_json invalid_payload : ServerErrorCode
  unauthorized session_conflict already_authorized leave_room_mismatch : ServerErrorCode
  room_not_found nickname_taken already_in_room not_in_room : ServerErrorCode
  sfu_capacity_exhausted sfu_unavailable sfu_rejected : ServerErrorCode
  invalid_room_assignment storage_unavailable write_failed : ServerErrorCode

-- `{code:?}`
unfoldable pub debug : ServerErrorCode → String
debug invalid_json = "InvalidJson"
debug invalid_payload = "InvalidPayload"
debug unauthorized = "Unauthorized"
debug session_conflict = "SessionConflict"
debug already_authorized = "AlreadyAuthorized"
debug leave_room_mismatch = "LeaveRoomMismatch"
debug room_not_found = "RoomNotFound"
debug nickname_taken = "NicknameTaken"
debug already_in_room = "AlreadyInRoom"
debug not_in_room = "NotInRoom"
debug sfu_capacity_exhausted = "SfuCapacityExhausted"
debug sfu_unavailable = "SfuUnavailable"
debug sfu_rejected = "SfuRejected"
debug invalid_room_assignment = "InvalidRoomAssignment"
debug storage_unavailable = "StorageUnavailable"
debug write_failed = "WriteFailed"

pub record SignalingError : Type 0 where
  pub code : Option ServerErrorCode
  pub message : String

-- `SignalingError::local` and `SignalingError::server`
unfoldable pub local_error : String → SignalingError
local_error message = record { code = none; message = message }

unfoldable pub server_error : ServerErrorCode → String → SignalingError
server_error code message = record { code = some code; message = debug code ++ (": " ++ message) }

pub data SignalingEvent : Type 0 where
  connected : SignalingEvent
  disconnected : (reason : Option String) → SignalingEvent
  room_ready : RoomSnapshot → SignalingEvent
  participant_joined participant_left : String → SignalingEvent
  left : (room_id : String) → SignalingEvent
  room_closed : (room_id reason : String) → SignalingEvent
  error : SignalingError → SignalingEvent
  service_unavailable : (dependency : String) (retry_after_ms : ℕ) → SignalingEvent
  remote_sdp : (sdp sdp_type : String) → SignalingEvent
  remote_ice_candidate : (candidate sdp_mid : String) → SignalingEvent

pub data ClientMessage : Type 0 where
  attach : (token : String) → ClientMessage
  create : (session_id : String) → ClientMessage
  join : (session_id room_id : String) → ClientMessage
  leave : (session_id room_id : String) (participants : Option (List String)) → ClientMessage
  sdp : (session_id sdp sdp_type : String) → ClientMessage
  candidate : (session_id candidate sdp_mid : String) → ClientMessage

pub data ServerMessage : Type 0 where
  attached : (nickname session_id : String) → ServerMessage
  logged_out : (nickname : String) → ServerMessage
  sdp : (from sdp sdp_type : String) → ServerMessage
  candidate : (from candidate sdp_mid : String) → ServerMessage
  created : (room_id your_nickname : String) → ServerMessage
  joined : (room_id your_nickname : String) (participants : List String) → ServerMessage
  room_closed : (room_id reason : String) → ServerMessage
  left : (room_id : String) → ServerMessage
  participant_joined : (nickname : String) → ServerMessage
  participant_left : (nickname : String) → ServerMessage
  error : (code : ServerErrorCode) (message : String) → ServerMessage
  service_unavailable : (dependency : String) (retry_after_ms : ℕ) → ServerMessage

-- What the browser and the crates do for this part: the page outside, with its WebSockets; a
-- WebSocket that is opened at a URL and closed, and a text that is written to it; values of
-- JavaScript, with
-- `as_string` and `JSON::stringify`; JSON in both directions; the request that logs a session out,
-- and the WebRTC session, which takes what the SFU sends.
pub record Browser : Type 1 where
  pub Page : Type 0
  pub Socket : Type 0
  pub JsValue : Type 0
  pub Session : Type 0
  pub new_socket : String → Page → Result JsValue Socket × Page
  pub send_with_str : Socket → String → Page → Result JsValue (Unit {0}) × Page
  pub close : Socket → Page → Page
  pub as_string : JsValue → Option String
  pub stringify : JsValue → Option String
  pub to_json : ClientMessage → Result String String
  pub from_json : String → Result String ServerMessage
  pub logout_best_effort : String → Page → Page
  pub handle_remote_sdp : String → String → Session → Page → Page
  pub handle_remote_ice_candidate : String → String → Session → Page → Page
