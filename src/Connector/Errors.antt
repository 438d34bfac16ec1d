-- ===== src/Connector/Errors.antt =====
-- services/connector/src/main.rs: the errors of the handlers, and the replies that they become.
use callifornia.Connector.Message.{
  ServerErrorCode, storage_unavailable, no_healthy_signaling, token_issue_failed, ErrorResponse,
}
use callifornia.Connector.Redis.{RedisError, invalid_room_route, timeout}
use callifornia.Prelude.{ℕ, String}

pub data HandlerError : Type 0 where
  unauthorized nickname_taken room_not_found redis signaling_unavailable : HandlerError
  unknown_signaling_route token supervisor_unavailable : HandlerError
  invalid_payload : (message : String) → HandlerError

unfoldable pub map_redis_error : RedisError → HandlerError
map_redis_error RedisError.nickname_taken = HandlerError.nickname_taken
map_redis_error RedisError.room_not_found = HandlerError.room_not_found
map_redis_error invalid_room_route = HandlerError.redis
map_redis_error timeout = HandlerError.redis
map_redis_error RedisError.redis = HandlerError.redis

unfoldable pub map_error : HandlerError → ServerErrorCode × String
map_error unauthorized = (ServerErrorCode.unauthorized, "Unauthorized session")
map_error nickname_taken = (ServerErrorCode.nickname_taken, "Nickname already taken")
map_error room_not_found = (ServerErrorCode.room_not_found, "Room not found")
map_error redis = (storage_unavailable, "Storage operation failed")
map_error signaling_unavailable = (no_healthy_signaling, "No healthy signaling instance")
map_error unknown_signaling_route =
    (ServerErrorCode.unknown_signaling_route, "Signaling route is not configured on this connector")
map_error token = (token_issue_failed, "Failed to issue token")
map_error (HandlerError.invalid_payload message) = (ServerErrorCode.invalid_payload, message)
map_error supervisor_unavailable = (storage_unavailable, "Supervisor not available; retry shortly")

unfoldable pub status_for_error : HandlerError → ℕ
status_for_error unauthorized = 401
status_for_error nickname_taken = 409
status_for_error room_not_found = 404
status_for_error redis = 503
status_for_error signaling_unavailable = 503
status_for_error unknown_signaling_route = 503
status_for_error (HandlerError.invalid_payload message) = 400
status_for_error token = 500
status_for_error supervisor_unavailable = 503

unfoldable pub into_response : HandlerError → ℕ × ErrorResponse
unfolding status_for_error map_error
into_response e =
    let (code, message) = map_error e in
    (status_for_error e, record { code = code; message = message })
