-- ===== src/Client/Room/Paging.antt =====
-- client/src/components/room.rs: the pages of a room show every participant, and each arrow leads to
-- the page beside.
use callifornia.Client.Room.{
  grid_page_count, resolve_page_count, rail_page_count, page_count, per_page, current_page,
  page_range, on_page_next,
}
use callifornia.Prelude.{ℕ, zero, suc, ◌+◌, ◌-◌, ◌/◌, ◌≤◌, ◌<◌, min, Bool, true, false, ◌≡◌, arith}

last_page :
    (presentation : Bool) (count i : ℕ)
    → i < count
    → i / per_page presentation ≤ page_count presentation count - 1
unfolding page_count rail_page_count resolve_page_count grid_page_count
last_page true count i h = omega (arith, h)
last_page false count i h = ground (arith, h)

-- So many clicks on the arrow to the next page, from the first page on.
unfoldable pub clicks : Bool → ℕ → ℕ → ℕ
clicks presentation count zero = 0
clicks presentation count (suc n) = on_page_next presentation count (clicks presentation count n)

clicks-min :
    (presentation : Bool) (count n : ℕ)
    → clicks presentation count n ≡ min n (page_count presentation count - 1)
unfolding clicks on_page_next
clicks-min presentation count zero = omega arith
clicks-min presentation count (suc n) = rw (clicks-min presentation count n) (omega arith)

-- The range lies in the participants, is no longer than a page, and has the participant.
pub record IsDrawn (per_page count i : ℕ) (range : ℕ × ℕ) : Type 0 where
  pub begins : range.0 ≤ i
  pub ends : i < range.1
  pub inside : range.1 ≤ count
  pub fits : range.1 ≤ range.0 + per_page

range-IsDrawn :
    (presentation : Bool) (count i page_index : ℕ)
    → i < count
    → current_page presentation count page_index ≡ i / per_page presentation
    → IsDrawn (per_page presentation) count i (page_range presentation count page_index)
unfolding page_range
range-IsDrawn true count i page_index h e = rw e (record {
  begins = omega arith;
  ends = omega (arith, h);
  inside = omega arith;
  fits = omega arith;
})
range-IsDrawn false count i page_index h e = rw e (record {
  begins = omega arith;
  ends = omega (arith, h);
  inside = omega arith;
  fits = omega arith;
})

-- In a room with a presentation and in one without, each participant is drawn: after as many clicks
-- on the arrow to the next page as there are full pages before the participant, the range that is
-- drawn has the participant, lies within the list, and is no longer than a page.
pub clicks-IsDrawn :
    (presentation : Bool) (count i : ℕ)
    → i < count
    → IsDrawn
        (per_page presentation)
        count
        i
        (page_range presentation count (clicks presentation count (i / per_page presentation)))
unfolding current_page
clicks-IsDrawn presentation count i h = range-IsDrawn presentation count i _ h (
    omega (
      arith,
      last_page presentation count i h,
      clicks-min presentation count (i / per_page presentation),
    ))
