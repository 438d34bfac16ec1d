-- ===== src/Message.antt =====
-- services/signaling/src/message.rs: the messages of the WebSocket, with their validation, and the
-- claims of the connector's token (services/signaling/src/auth.rs).
use callifornia.Exec.{Result, ok, err}
use callifornia.Prelude.{ℕ, String, List, Option, Bool, if◌then◌else◌}
use callifornia.Text.{is_blank}

pub data ServerErrorCode : Type 0 where
  invalid_json invalid_payload : ServerErrorCode
  unauthorized session_conflict already_authorized leave_room_mismatch : ServerErrorCode
  room_not_found nickname_taken already_in_room not_in_room : ServerErrorCode
  sfu_capacity_exhausted sfu_unavailable sfu_rejected : ServerErrorCode
  invalid_room_assignment storage_unavailable write_failed : ServerErrorCode

pub data ClientMessage : Type 0 where
  attach : (token : String) → ClientMessage
  logout : (session_id : String) (participants : Option (List String)) → ClientMessage
  sdp : (session_id sdp sdp_type : String) → ClientMessage
  candidate : (session_id candidate sdp_mid : String) → ClientMessage
  create : (session_id : String) → ClientMessage
  join : (session_id room_id : String) → ClientMessage
  leave : (session_id room_id : String) (participants : Option (List String)) → ClientMessage

pub data ServerMessage : Type 0 where
  attached : (nickname session_id : String) → ServerMessage
  logged_out : (nickname : String) → ServerMessage
  sdp : (from sdp sdp_type : String) → ServerMessage
  candidate : (from candidate sdp_mid : String) → ServerMessage
  created : (room_id your_nickname : String) → ServerMessage
  joined : (room_id your_nickname : String) (participants : List String) → ServerMessage
  room_closed : (room_id reason : String) → ServerMessage
  left : (room_id : String) → ServerMessage
  participant_joined : (nickname : String) → ServerMessage
  participant_left : (nickname : String) → ServerMessage
  error : (code : ServerErrorCode) (message : String) → ServerMessage
  service_unavailable : (dependency : String) (retry_after_ms : ℕ) → ServerMessage

pub data ValidationError : Type 0 where
  invalid_session_id invalid_room_id invalid_token : ValidationError
  missing_sdp missing_candidate missing_sdp_mid : ValidationError

-- `ConnectorClaims`
pub record Claims : Type 0 where
  pub jti : String
  pub session_id : String
  pub nickname : String
  pub signaling_instance_id : String
  pub intent : String
  pub room_id : Option String
  pub iat : ℕ
  pub exp : ℕ

-- `Uuid::parse_str(text).is_ok()` is the parameter.
module _ (is_uuid : String → Bool) where
  infixl 10 ◌>>◌
  abbrev ◌>>◌ :
      Result ValidationError (Unit {0})
      → Result ValidationError (Unit {0})
      → Result ValidationError (Unit {0})
  ok _ >> n = n
  err e >> n = err e

  validate_token : String → Result ValidationError (Unit {0})
  validate_token token = if is_blank token then err invalid_token else ok tt

  validate_room_id : String → Result ValidationError (Unit {0})
  validate_room_id room_id = if is_uuid room_id then ok tt else err invalid_room_id

  validate_session_id : String → Result ValidationError (Unit {0})
  validate_session_id session_id = if is_uuid session_id then ok tt else err invalid_session_id

  validate_sdp : String → Result ValidationError (Unit {0})
  validate_sdp text = if is_blank text then err missing_sdp else ok tt

  validate_candidate : String → String → Result ValidationError (Unit {0})
  validate_candidate text sdp_mid =
      if is_blank text
      then err missing_candidate
      else if is_blank sdp_mid
      then err missing_sdp_mid
      else ok tt

  unfoldable pub validate : ClientMessage → Result ValidationError (Unit {0})
  unfolding validate_token validate_room_id validate_session_id validate_sdp validate_candidate
  validate (attach token) = validate_token token
  validate (logout session_id _) = validate_session_id session_id
  validate (create session_id) = validate_session_id session_id
  validate (join session_id room_id) = validate_session_id session_id >> validate_room_id room_id
  validate (leave session_id room_id _) = validate_session_id session_id >> validate_room_id room_id
  validate (ClientMessage.sdp session_id text _) =
      validate_session_id session_id >> validate_sdp text
  validate (ClientMessage.candidate session_id text sdp_mid) =
      validate_session_id session_id >> validate_candidate text sdp_mid
