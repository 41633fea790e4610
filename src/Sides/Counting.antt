-- ===== src/Sides/Counting.antt =====
-- The counts of `split_matches_by_side` of app/side_regions.py.
use smdr.Sides.Groups.{same_side}
use smdr.Prelude.{
  ℕ, ◌+◌, String, ◌≡◌, refl, Option, none, some, List, [], ◌∷◌, length, arith, length-append,
  if◌then◌else◌,
}
use smdr.Sides.Keys.{View}
use smdr.Sides.Views.{Counts, Grouped, add_match, counted}

-- The number of matches under all keys.
abbrev pub total : Grouped → ℕ
total [] = 0
total ((k, hs) ∷ out) = length hs + total out

-- The number of matches that are kept.
abbrev pub kept : Counts → ℕ
kept c = c.top_count + c.bottom_count + c.side_count + c.unassigned

abbrev pub count_of : Option View → Counts → ℕ
count_of none c = c.unassigned
count_of (some v) c = elim v [
  | View.top_view ↦ c.top_count
  | View.bottom_view ↦ c.bottom_count
  | View.side_view ↦ c.side_count
]

pub total-add_match :
    (key : String) (handles : List String) (out : Grouped)
    → total (add_match key handles out) ≡ total out + 1
unfolding add_match
total-add_match key handles [] = refl
total-add_match key handles ((k, hs) ∷ out) =
    ground (arith, total-add_match key handles out, length-append hs (handles ∷ []))

pub kept-counted :
    (v : Option View) (c : Counts)
    → (kept (counted v c) ≡ kept c + 1) × ((counted v c).dropped ≡ c.dropped)
kept-counted none c = (omega arith, refl)
kept-counted (some View.top_view) c = (omega arith, refl)
kept-counted (some View.bottom_view) c = (omega arith, refl)
kept-counted (some View.side_view) c = (omega arith, refl)

pub count_of-dropped :
    (v : Option View) (c : Counts)
    → count_of v (record c { dropped = c.dropped + 1 }) ≡ count_of v c
count_of-dropped none c = refl
count_of-dropped (some View.top_view) c = refl
count_of-dropped (some View.bottom_view) c = refl
count_of-dropped (some View.side_view) c = refl

pub count_of-counted :
    (v w : Option View) (c : Counts)
    → count_of v (counted w c) ≡ count_of v c + (if same_side v w then 1 else 0)
count_of-counted none none c = refl
count_of-counted none (some View.top_view) c = omega arith
count_of-counted none (some View.bottom_view) c = omega arith
count_of-counted none (some View.side_view) c = omega arith
count_of-counted (some View.top_view) none c = omega arith
count_of-counted (some View.top_view) (some View.top_view) c = refl
count_of-counted (some View.top_view) (some View.bottom_view) c = omega arith
count_of-counted (some View.top_view) (some View.side_view) c = omega arith
count_of-counted (some View.bottom_view) none c = omega arith
count_of-counted (some View.bottom_view) (some View.top_view) c = omega arith
count_of-counted (some View.bottom_view) (some View.bottom_view) c = refl
count_of-counted (some View.bottom_view) (some View.side_view) c = omega arith
count_of-counted (some View.side_view) none c = omega arith
count_of-counted (some View.side_view) (some View.top_view) c = omega arith
count_of-counted (some View.side_view) (some View.bottom_view) c = omega arith
count_of-counted (some View.side_view) (some View.side_view) c = refl
