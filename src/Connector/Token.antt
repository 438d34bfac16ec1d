-- ===== src/Connector/Token.antt =====
-- services/connector/src/token.rs: the token that a signaling node takes.
use callifornia.Exec.{Action, total, ◌>>=◌}
use callifornia.Prelude.{ℕ, ◌+◌, ◌/◌, String, Option}
use callifornia.Services.{Services}

-- `ttl.as_secs()` of a duration in milliseconds is `ttl_ms / 1000`.
module _ ⦃v : Services⦄ {E : Type 0} where
  unfoldable pub issue_token :
      String
      → ℕ
      → String
      → String
      → String
      → String
      → Option String
      → Action v.Ext E (Option String)
  issue_token secret ttl_ms session_id nickname signaling_instance_id intent room_id = do
    iat ← total v.unix_now
    jti ← total v.new_uuid
    total (
        v.encode_token secret (record {
          jti = jti;
          session_id = session_id;
          nickname = nickname;
          signaling_instance_id = signaling_instance_id;
          intent = intent;
          room_id = room_id;
          iat = iat;
          exp = iat + ttl_ms / 1000;
        }))
