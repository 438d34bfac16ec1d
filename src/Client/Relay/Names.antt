-- ===== src/Client/Relay/Names.antt =====
-- client/src/webrtc_room.rs with client/src/nickname.rs: a nickname that the client accepts is read
-- back from the name of a relayed track.
use callifornia.Client.Nickname.{
  is_nickname_char, ascii_nickname_chars_only, validate_nickname, validate_charset,
  validate_no_whitespace, validate_shape_when_nonempty, and_then,
}
use callifornia.Client.Relay.{
  source_of, named_source, typed_source, published_source, remote_source_from_relay_track_id,
}
use callifornia.Exec.{ok}
use callifornia.Prelude.{
  ℕ, String, List, some, Bool, true, false, not, ◌==◌, nat_eq, ◌≡◌, refl, arith, Bool-cases, inl,
  inr, eq_iff,
}
use callifornia.Text.{codes, is_ascii_alphanumeric, is_whitespace, all, any, byte_len}
use callifornia.Texts.{split_once}
use Prim.Native.Char.{Char, code}
use Prim.Native.String.{[], ◌∷◌, ◌++◌}
use text.Mathlib.TextLemmas.{nil-append, cons-append}

-- No code point of the text is the separator.
lacks : ℕ → String → Bool
lacks sep s = all (λ c. not (nat_eq c sep)) (codes s)

split_once-append :
    (sep : ℕ) (s after : String) (c : Char)
    → nat_eq (code c) sep ≡ true
    → lacks sep s ≡ true
    → split_once sep (s ++ (c ∷ after)) ≡ some (s, after)
unfolding lacks split_once all
split_once-append sep [] after c e h = rw (nil-append (c ∷ after)) (rw e refl)
split_once-append sep (d ∷ s) after c e h =
    rw (cons-append d s (c ∷ after))
      (ground (arith, split_once-append sep s after c e (ground (arith, h))))

nickname-lacks :
    (s : List ℕ) → all is_nickname_char s ≡ true → all (λ c. not (nat_eq c b'|')) s ≡ true
unfolding all is_nickname_char is_ascii_alphanumeric
nickname-lacks List.[] h = refl
nickname-lacks (List.◌∷◌ c s) h = ground (arith, h, nickname-lacks s (ground (arith, h)))

valid-nickname : (s : List ℕ) → validate_nickname s ≡ ok tt → all is_nickname_char s ≡ true
unfolding validate_nickname validate_charset validate_no_whitespace and_then
    ascii_nickname_chars_only
valid-nickname s h = elim (Bool-cases (any is_whitespace s)) [
  | inl e ↦ absurd (ground (arith, h, e))
  | inr e ↦ elim (Bool-cases (all is_nickname_char s)) [
    | inl k ↦ k
    | inr k ↦ absurd (ground (arith, h, e, k))
  ]
]

valid-nonempty : (s : String) → validate_nickname (codes s) ≡ ok tt → (s == "") ≡ false
unfolding validate_nickname validate_charset validate_no_whitespace and_then
    ascii_nickname_chars_only validate_shape_when_nonempty any all byte_len
valid-nonempty [] h = absurd (ground (arith, h))
valid-nonempty (c ∷ s) h = elim (Bool-cases ((c ∷ s) == "")) [
  | inl e ↦ absurd (cc ((eq_iff (c ∷ s) "").0 e))
  | inr e ↦ e
]

abbrev bar : Char
bar = "|"

abbrev colon : Char
colon = ":"

-- A track that the SFU names after a nickname which the client accepts and after a source, is taken
-- for one of that nickname and source, whatever its mid is.
relayed-published :
    (nickname source_type mid : String)
    → validate_nickname (codes nickname) ≡ ok tt
    → lacks b':' source_type ≡ true
    → (source_type == "") ≡ false
    → remote_source_from_relay_track_id (nickname ++ (bar ∷ (source_type ++ (colon ∷ mid))))
      ≡ some (nickname, source_of source_type)
unfolding remote_source_from_relay_track_id published_source typed_source named_source lacks
relayed-published nickname source_type mid h k e =
    rw
      (
        split_once-append b'|' nickname (source_type ++ (colon ∷ mid)) bar refl
            (nickname-lacks (codes nickname) (valid-nickname (codes nickname) h)),
        split_once-append b':' source_type mid colon refl k,
      )
      (ground (arith, valid-nonempty nickname h, e))
