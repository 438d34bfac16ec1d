-- ===== src/Client/Room.antt =====
-- client/src/components/room.rs, with components/room/layout.rs and components/room/tiles.rs: which
-- participants of a room are drawn, and how their names are cut. The sizes of the tiles, which are
-- floating-point numbers, are not modelled; they do not decide who is drawn.
pub mod Paging
pub mod Names
use callifornia.Prelude.{
  ℕ, zero, suc, ◌+◌, ◌-◌, ◌*◌, ◌/◌, min, max, String, List, [], ◌∷◌, ◌++◌, push, length, Bool, true,
  false, ltb, leb, nat_eq, if◌then◌else◌,
}

-- `TILES_PER_PAGE` and `RAIL_TILES_PER_PAGE`
abbrev pub tiles_per_page : ℕ
tiles_per_page = 6

abbrev pub rail_tiles_per_page : ℕ
rail_tiles_per_page = 4

-- `page_count` of `paged_grid_layout`, and of `resolve_participant_layout`.
unfoldable pub grid_page_count : ℕ → ℕ
grid_page_count total =
    if leb total tiles_per_page then 1 else (total + tiles_per_page - 1) / tiles_per_page

unfoldable pub resolve_page_count : ℕ → ℕ
resolve_page_count total = if nat_eq total 0 then grid_page_count 1 else grid_page_count total

unfoldable pub rail_page_count : ℕ → ℕ
rail_page_count participant_count = max ((participant_count - 1) / rail_tiles_per_page + 1) 1

-- The pages of a room: beside a presentation, or as a grid.
unfoldable pub page_count : Bool → ℕ → ℕ
page_count true participant_count = rail_page_count participant_count
page_count false participant_count = resolve_page_count participant_count

abbrev pub per_page : Bool → ℕ
per_page true = rail_tiles_per_page
per_page false = tiles_per_page

-- `page`, from the index that the component keeps.
unfoldable pub current_page : Bool → ℕ → ℕ → ℕ
current_page presentation participant_count page_index =
    min page_index (page_count presentation participant_count - 1)

-- `(start, end)`
unfoldable pub page_range : Bool → ℕ → ℕ → ℕ × ℕ
page_range presentation participant_count page_index =
    let s = current_page presentation participant_count page_index * per_page presentation in
    (s, min (s + per_page presentation) participant_count)

unfoldable pub show_arrows : Bool → ℕ → Bool
show_arrows presentation participant_count = ltb 1 (page_count presentation participant_count)

unfoldable pub on_page_prev : ℕ → ℕ
on_page_prev page_index = page_index - 1

unfoldable pub on_page_next : Bool → ℕ → ℕ → ℕ
on_page_next presentation participant_count page_index =
    min (page_index + 1) (page_count presentation participant_count - 1)

-- `chars().take(n)`
unfoldable pub take : ℕ → List ℕ → List ℕ
take n [] = []
take zero (c ∷ s) = []
take (suc n) (c ∷ s) = c ∷ take n s

-- The cut is marked by an ellipsis, U+2026.
unfoldable pub truncate_str : List ℕ → ℕ → List ℕ
truncate_str s limit = if leb (length s) limit then s else push (take (limit - 1) s) 0x2026
