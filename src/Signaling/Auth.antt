-- ===== src/Signaling/Auth.antt =====
-- services/signaling/src/auth.rs: the check of the connector's token.
use callifornia.Exec.{Action, or_raise, total, guard, pure, ◌>>=◌, ◌>>◌}
use callifornia.Message.{Claims}
use callifornia.Prelude.{String, ◌==◌}
use callifornia.Services.{Services}

pub data TokenError : Type 0 where
  invalid wrong_instance : TokenError

module _ ⦃v : Services⦄ where
  unfoldable pub validate_connector_token :
      String → String → String → Action v.Ext TokenError Claims
  validate_connector_token token secret expected_instance_id = do
    found ← total (v.decode_token secret token)
    claims ← or_raise found invalid
    guard (claims.signaling_instance_id == expected_instance_id) wrong_instance
    pure claims
