-- ===== src/Tests/Nicknames.antt =====
-- The theorem about nicknames at one with letters, a digit and an underscore.
use callifornia.Client.Nickname
use callifornia.Client.Nickname.{
  and_then, is_nickname_char, ascii_nickname_chars_only, validate_no_whitespace, validate_charset,
  validate_shape_when_nonempty,
}
use callifornia.Connector.Message
use callifornia.Connector.Nicknames.{validate_nickname-accepted}
use callifornia.Exec.{ok}
use callifornia.Prelude.{ℕ, List, ◌≡◌, refl}
use callifornia.Text.{codes, is_whitespace, is_ascii_alphanumeric, all, any, trim, byte_len}

abbrev nickname : List ℕ
nickname = codes "ann_7"

validate_nickname-accepted_example :
    (Message.validate_nickname nickname ≡ ok tt) × (trim nickname ≡ nickname)
unfolding Nickname.validate_nickname and_then is_nickname_char ascii_nickname_chars_only
    validate_no_whitespace validate_charset validate_shape_when_nonempty is_whitespace
    is_ascii_alphanumeric all any byte_len
validate_nickname-accepted_example = validate_nickname-accepted nickname refl
