-- ===== src/Signaling/Sfu/Ufrag.antt =====
-- services/signaling/src/sfu.rs: `first_ice_ufrag`, over the code points of the SDP.
use callifornia.Prelude.{
  ℕ, String, List, [], ◌∷◌, Option, none, some, Bool, true, false, nat_eq, if◌then◌else◌, get_or,
}
use callifornia.Text.{codes, is_whitespace, trim}
use callifornia.Map.{is_empty}

-- `str::lines`: what it strips of a carriage return, `trim_end_matches('\r')` strips too, and a last
-- line that is empty holds no prefix.
unfoldable pub lines : List ℕ → List (List ℕ)
lines [] = [] ∷ []
lines (c ∷ s) = start (nat_eq c 10) c (lines s)
  where
    start : Bool → ℕ → List (List ℕ) → List (List ℕ)
    start true c rest = [] ∷ rest
    start false c [] = (c ∷ []) ∷ []
    start false c (line ∷ rest) = (c ∷ line) ∷ rest

unfoldable pub trim_end_cr : List ℕ → List ℕ
trim_end_cr [] = []
trim_end_cr (c ∷ s) = keep c (trim_end_cr s)
  where
    keep : ℕ → List ℕ → List ℕ
    keep c [] = if nat_eq c 13 then [] else c ∷ []
    keep c (d ∷ s) = c ∷ d ∷ s

unfoldable pub strip_prefix : List ℕ → List ℕ → Option (List ℕ)
strip_prefix [] s = some s
strip_prefix (p ∷ ps) [] = none
strip_prefix (p ∷ ps) (c ∷ s) = let rest = strip_prefix ps s in if nat_eq p c then rest else none

word : List ℕ → List ℕ
word [] = []
word (c ∷ s) = let rest = word s in if is_whitespace c then [] else c ∷ rest

-- `split_whitespace().next()`
unfoldable pub first_word : List ℕ → Option (List ℕ)
unfolding word
first_word [] = none
first_word (c ∷ s) = let rest = first_word s in if is_whitespace c then rest else some (c ∷ word s)

-- `rest.split_whitespace().next().unwrap_or(rest).trim()`
unfoldable pub read_ufrag : List ℕ → List ℕ
unfolding first_word trim
read_ufrag rest = trim (get_or (first_word rest) rest)

from_rest : Option (List ℕ) → Option (List ℕ) → Option (List ℕ)
unfolding read_ufrag
from_rest none later = later
from_rest (some rest) later =
    let ufrag = read_ufrag rest in if is_empty ufrag then later else some ufrag

search_lines : List (List ℕ) → Option (List ℕ)
unfolding from_rest strip_prefix trim_end_cr
search_lines [] = none
search_lines (line ∷ rest) =
    from_rest (strip_prefix (codes "a=ice-ufrag:") (trim_end_cr line)) (search_lines rest)

unfoldable pub first_ice_ufrag : String → Option (List ℕ)
unfolding search_lines lines
first_ice_ufrag sdp = search_lines (lines (codes sdp))
