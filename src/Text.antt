-- ===== src/Text.antt =====
-- Texts as the lists of their code points, with the methods of `str` and `char` that the program
-- calls: `char::is_whitespace` (the Unicode property White_Space), `trim`, `chars().count()`,
-- `len` (the bytes of UTF-8) and `is_ascii_alphanumeric`.
use Prim.Native.Char.{code}
use callifornia.Prelude.{
  ℕ, ◌+◌, String, List, [], ◌∷◌, Bool, true, false, ◌&&◌, ◌||◌, ltb, leb, nat_eq, if◌then◌else◌,
}

abbrev pub codes : String → List ℕ
codes String.[] = []
codes (String.◌∷◌ c s) = code c ∷ codes s

unfoldable pub is_whitespace : ℕ → Bool
is_whitespace c =
    leb 9 c && leb c 13
    || nat_eq c 32
    || nat_eq c 0x85
    || nat_eq c 0xA0
    || nat_eq c 0x1680
    || leb 0x2000 c && leb c 0x200A
    || nat_eq c 0x2028
    || nat_eq c 0x2029
    || nat_eq c 0x202F
    || nat_eq c 0x205F
    || nat_eq c 0x3000

unfoldable pub is_ascii_alphanumeric : ℕ → Bool
is_ascii_alphanumeric c =
    leb b'0' c && leb c b'9' || leb b'A' c && leb c b'Z' || leb b'a' c && leb c b'z'

-- `chars().all(p)`
unfoldable pub all : (ℕ → Bool) → List ℕ → Bool
all p [] = true
all p (c ∷ s) = p c && all p s

-- `chars().any(p)`
unfoldable pub any : (ℕ → Bool) → List ℕ → Bool
any p [] = false
any p (c ∷ s) = p c || any p s

unfoldable pub trim_start : List ℕ → List ℕ
unfolding is_whitespace
trim_start [] = []
trim_start (c ∷ s) = let rest = trim_start s in if is_whitespace c then rest else c ∷ s

keep_end : ℕ → List ℕ → List ℕ
keep_end c [] = if is_whitespace c then [] else c ∷ []
keep_end c (d ∷ s) = c ∷ d ∷ s

unfoldable pub trim_end : List ℕ → List ℕ
unfolding keep_end is_whitespace
trim_end [] = []
trim_end (c ∷ s) = keep_end c (trim_end s)

unfoldable pub trim : List ℕ → List ℕ
unfolding trim_start trim_end
trim s = trim_end (trim_start s)

-- The bytes of one code point in UTF-8.
unfoldable pub utf8_len : ℕ → ℕ
utf8_len c = if ltb c 0x80 then 1 else if ltb c 0x800 then 2 else if ltb c 0x10000 then 3 else 4

-- `str::len`
unfoldable pub byte_len : List ℕ → ℕ
unfolding utf8_len
byte_len [] = 0
byte_len (c ∷ s) = utf8_len c + byte_len s

-- `trim().is_empty()`
unfoldable pub is_blank : String → Bool
unfolding all is_whitespace
is_blank s = all is_whitespace (codes s)
