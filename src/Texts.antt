-- ===== src/Texts.antt =====
-- The methods of `str` that the configurations are parsed with, on native texts: `split`,
-- `split_once` and `trim`. A separator is given by its code point.
use callifornia.Prelude.{ℕ, String, List, [], ◌∷◌, Option, none, some, Bool, nat_eq, if◌then◌else◌}
use callifornia.Text
use callifornia.Text.{is_whitespace}
use Prim.Native.Char.{Char, code}

abbrev pub push : Char → List String → List String
push c [] = (String.◌∷◌ c "") ∷ []
push c (piece ∷ pieces) = (String.◌∷◌ c piece) ∷ pieces

-- There is always a piece.
unfoldable pub split : ℕ → String → List String
split sep String.[] = "" ∷ []
split sep (String.◌∷◌ c s) =
    let pieces = split sep s in if nat_eq (code c) sep then "" ∷ pieces else push c pieces

abbrev pub prepend : Char → Option (String × String) → Option (String × String)
prepend c none = none
prepend c (some (before, after)) = some (String.◌∷◌ c before, after)

unfoldable pub split_once : ℕ → String → Option (String × String)
split_once sep String.[] = none
split_once sep (String.◌∷◌ c s) =
    let rest = split_once sep s in if nat_eq (code c) sep then some ("", s) else prepend c rest

unfoldable pub trim_start : String → String
unfolding is_whitespace
trim_start String.[] = ""
trim_start (String.◌∷◌ c s) =
    let rest = trim_start s in if is_whitespace (code c) then rest else String.◌∷◌ c s

abbrev keep_end : Char → String → String
keep_end c String.[] = if is_whitespace (code c) then "" else String.◌∷◌ c ""
keep_end c (String.◌∷◌ d s) = String.◌∷◌ c (String.◌∷◌ d s)

unfoldable pub trim_end : String → String
unfolding is_whitespace
trim_end String.[] = ""
trim_end (String.◌∷◌ c s) = keep_end c (trim_end s)

unfoldable pub trim : String → String
unfolding trim_start trim_end
trim s = trim_end (trim_start s)

-- `trim().is_empty()`
abbrev pub is_blank : String → Bool
is_blank s = Text.is_blank s
