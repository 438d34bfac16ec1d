-- ===== src/Connector/Message.antt =====
-- services/connector/src/message.rs: the requests and replies, and their validation; a nickname is
-- validated over its code points.
use callifornia.Exec.{Result, ok, err}
use callifornia.Prelude.{ℕ, String, List, Bool, ◌||◌, ◌&&◌, leb, nat_eq, if◌then◌else◌, length}
use callifornia.Text.{is_ascii_alphanumeric, all, trim, codes}

pub data ValidationError : Type 0 where
  invalid_nickname invalid_session_id invalid_room_id : ValidationError

-- `ch.is_ascii_alphanumeric() || ch == '_' || ch == '-'`
unfoldable pub is_allowed : ℕ → Bool
is_allowed c = is_ascii_alphanumeric c || nat_eq c b'_' || nat_eq c b'-'

unfoldable pub validate_nickname : List ℕ → Result ValidationError (Unit {0})
validate_nickname nickname =
    let trimmed = trim nickname in
    if leb 3 (length trimmed) && leb (length trimmed) 32
    then if all is_allowed trimmed then ok tt else err invalid_nickname
    else err invalid_nickname

pub record AuthRequest : Type 0 where
  pub nickname : String

pub record AuthResponse : Type 0 where
  pub nickname : String
  pub session_id : String

pub record CreateRequest : Type 0 where
  pub session_id : String

pub record JoinRequest : Type 0 where
  pub session_id : String
  pub room_id : String

pub record LogoutRequest : Type 0 where
  pub session_id : String

pub record SessionRenewRequest : Type 0 where
  pub session_id : String

pub record SignalingReadyResponse : Type 0 where
  pub signaling_url : String
  pub session_id : String
  pub token : String

pub data ServerErrorCode : Type 0 where
  invalid_payload unauthorized nickname_taken room_not_found : ServerErrorCode
  storage_unavailable no_healthy_signaling unknown_signaling_route : ServerErrorCode
  token_issue_failed : ServerErrorCode

pub record ErrorResponse : Type 0 where
  pub code : ServerErrorCode
  pub message : String

-- `Uuid::parse_str(text).is_ok()` is the parameter.
module _ (is_uuid : String → Bool) where
  unfoldable pub validate_session_id : String → Result ValidationError (Unit {0})
  validate_session_id session_id = if is_uuid session_id then ok tt else err invalid_session_id

  unfoldable pub validate_room_id : String → Result ValidationError (Unit {0})
  validate_room_id room_id = if is_uuid room_id then ok tt else err invalid_room_id

  unfoldable pub validate_join : JoinRequest → Result ValidationError (Unit {0})
  unfolding validate_session_id validate_room_id
  validate_join request = elim (validate_session_id request.session_id) [
    | ok _ ↦ validate_room_id request.room_id
    | err e ↦ err e
  ]

unfoldable pub validate_auth : AuthRequest → Result ValidationError (Unit {0})
unfolding validate_nickname
validate_auth request = validate_nickname (codes request.nickname)
