-- ===== src/Client/Nickname.antt =====
-- client/src/nickname.rs: the validation of a nickname before it is sent, over its code points.
use callifornia.Exec.{Result, ok, err}
use callifornia.Prelude.{ℕ, String, List, Bool, ◌||◌, ltb, nat_eq, if◌then◌else◌}
use callifornia.Text.{is_whitespace, is_ascii_alphanumeric, all, any, byte_len}

abbrev pub min_nickname_len : ℕ
min_nickname_len = 3

abbrev pub max_nickname_len : ℕ
max_nickname_len = 24

-- `a?; b`
unfoldable pub and_then {ℓ} : {E A B : Type ℓ} → Result E A → Result E B → Result E B
and_then (err e) b = err e
and_then (ok _) b = b

-- `c.is_ascii_alphanumeric() || c == '_'`
unfoldable pub is_nickname_char : ℕ → Bool
is_nickname_char c = is_ascii_alphanumeric c || nat_eq c b'_'

unfoldable pub ascii_nickname_chars_only : List ℕ → Bool
ascii_nickname_chars_only value = all is_nickname_char value

unfoldable pub validate_no_whitespace : List ℕ → Result String (Unit {0})
validate_no_whitespace value =
    if any is_whitespace value then err "Spaces and line breaks are not allowed" else ok tt

unfoldable pub validate_charset : List ℕ → Result String (Unit {0})
validate_charset value = and_then (validate_no_whitespace value) (
    if ascii_nickname_chars_only value
    then ok tt
    else err "Use only English letters, numbers, and underscores")

unfoldable pub validate_shape_when_nonempty : List ℕ → Result String (Unit {0})
validate_shape_when_nonempty value =
    if nat_eq (byte_len value) 0
    then err "Nickname is required"
    else if ltb (byte_len value) min_nickname_len
    then err "Use at least 3 characters"
    else if ltb max_nickname_len (byte_len value)
    then err "Use up to 24 characters"
    else if all (λ c. nat_eq c b'_') value
    then err "Nickname cannot contain only underscores"
    else ok tt

unfoldable pub validate_nickname : List ℕ → Result String (Unit {0})
validate_nickname value = and_then (validate_charset value) (validate_shape_when_nonempty value)

unfoldable pub validate_nickname_live : List ℕ → Bool → Result String (Unit {0})
validate_nickname_live value submit_attempted =
    and_then (validate_charset value)
      (if submit_attempted then validate_shape_when_nonempty value else ok tt)
