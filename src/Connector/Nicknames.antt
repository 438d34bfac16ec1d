-- ===== src/Connector/Nicknames.antt =====
-- A nickname on its way from client/src/nickname.rs to services/connector/src/message.rs.
use callifornia.Client.Nickname
use callifornia.Client.Nickname.{
  and_then, is_nickname_char, ascii_nickname_chars_only, validate_no_whitespace, validate_charset,
  validate_shape_when_nonempty,
}
use callifornia.Connector.Message
use callifornia.Connector.Message.{is_allowed}
use callifornia.Exec.{ok}
use callifornia.Prelude.{
  ℕ, List, [], ◌∷◌, true, false, ◌≡◌, ◌≤◌, refl, ap, arith, length, Bool-cases, inl, inr,
}
use callifornia.Text.{
  is_whitespace, is_ascii_alphanumeric, all, any, trim_start, trim_end, trim, utf8_len, byte_len,
}

trim_start-no_space : (s : List ℕ) → any is_whitespace s ≡ false → trim_start s ≡ s
unfolding trim_start any
trim_start-no_space [] h = refl
trim_start-no_space (c ∷ s) h = ground (arith, h)

trim_end-no_space : (s : List ℕ) → any is_whitespace s ≡ false → trim_end s ≡ s
unfolding trim_end any
trim_end-no_space [] h = refl
trim_end-no_space (c ∷ []) h = ground (arith, h)
trim_end-no_space (c ∷ d ∷ s) h = ground (arith, trim_end-no_space (d ∷ s) (ground (arith, h)))

trim-no_space : (s : List ℕ) → any is_whitespace s ≡ false → trim s ≡ s
unfolding trim
trim-no_space s h = rw (trim_start-no_space s h) (trim_end-no_space s h)

utf8_len-ascii : (c : ℕ) → is_nickname_char c ≡ true → utf8_len c ≡ 1
unfolding is_nickname_char is_ascii_alphanumeric utf8_len
utf8_len-ascii c h = ground (arith, h)

byte_len-ascii : (s : List ℕ) → all is_nickname_char s ≡ true → byte_len s ≡ length s
unfolding byte_len all
byte_len-ascii [] h = refl
byte_len-ascii (c ∷ s) h =
    ground (arith, utf8_len-ascii c (ground (arith, h)), byte_len-ascii s (ground (arith, h)))

all-allowed : (s : List ℕ) → all is_nickname_char s ≡ true → all is_allowed s ≡ true
unfolding all is_nickname_char is_allowed
all-allowed [] h = refl
all-allowed (c ∷ s) h = ground (arith, h, all-allowed s (ground (arith, h)))

record IsPlain (s : List ℕ) : Type 0 where
  no_space : any is_whitespace s ≡ false
  plain : all is_nickname_char s ≡ true
  long : 3 ≤ byte_len s
  short : byte_len s ≤ 24

valid-IsPlain : (s : List ℕ) → Nickname.validate_nickname s ≡ ok tt → IsPlain s
unfolding Nickname.validate_nickname validate_charset validate_no_whitespace and_then
    ascii_nickname_chars_only validate_shape_when_nonempty
valid-IsPlain s h = elim (Bool-cases (any is_whitespace s)) [
  | inl e ↦ absurd (ground (arith, h, e))
  | inr e ↦ elim (Bool-cases (all is_nickname_char s)) [
    | inl k ↦ record {
      no_space = e;
      plain = k;
      long = ground (arith, h, e, k);
      short = ground (arith, h, e, k);
    }
    | inr k ↦ absurd (ground (arith, h, e, k))
  ]
]

-- A nickname that the client accepts is accepted by the connector, which trims nothing off it.
pub validate_nickname-accepted :
    (s : List ℕ)
    → Nickname.validate_nickname s ≡ ok tt
    → (Message.validate_nickname s ≡ ok tt) × (trim s ≡ s)
unfolding Message.validate_nickname
validate_nickname-accepted s h =
    let p = valid-IsPlain s h in
    let t = trim-no_space s p.no_space in
    (
      ground
          (arith, t, ap length t, byte_len-ascii s p.plain, p.long, p.short, all-allowed s p.plain),
      t,
    )
