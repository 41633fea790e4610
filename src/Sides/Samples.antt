-- ===== src/Sides/Samples.antt =====
-- The grouping of four matches of one class, and the keys that come of it.
use smdr.Sides.Placing.{seen_on}
use smdr.Sides.Groups.{under, key_of}
use smdr.Sides.Texts.{split, join}
use smdr.Prelude.{
  ℕ, String, ◌+◌, ◌≡◌, refl, Option, none, some, List, [], ◌∷◌, same, leb, ltb, false,
  if◌then◌else◌, true, Bool, length,
}
use smdr.Sides.Keys.{
  View, parse_match_key, prefixed_key, base_key, parse_match_key-prefixed_key, parse_parts, last,
  init,
}
use smdr.Sides.Views.{
  Grouped, Regions, is_allowed_view, split_matches_by_side, split_matches, split_match,
  class_view_constraints, side_prefix_for, point_in_rect, add_match,
}
use smdr.Table.{least, select}
use smdr.Sides.Contained.{
  suppress_contained_matches, indexed_search, plain_search, removed_of, pools_of, pool_key,
  add_to_pool, removed_of_pool, dups_of, groups_of, add_to_groups, earliest, contained_of,
  enumerate, keep_from, reps_of, without, bucket, any,
}
use smdr.Sides.Suppress.{suppress_contained_matches-plain_search}
use smdr.Sides.Counting.{total, kept, count_of}
use smdr.Sides.Split.{split_matches_by_side-counts}

-- Of the texts of numbers, two.
abbrev int : String → Option ℕ
int s = if same s "0" then some 0 else if same s "12" then some 12 else none

parse_match_key-prefixed_key_example :
    parse_match_key int (prefixed_key (some View.top_view) (base_key "smd_2t" "12"))
    ≡ some (some "top_view", "smd_2t", 12)
unfolding split
parse_match_key-prefixed_key_example =
    parse_match_key-prefixed_key int (some View.top_view) "smd_2t" "12" 12 refl refl (λ _. refl)

no_index : parse_match_key int "top_view.smd_2t" ≡ none
unfolding parse_match_key parse_parts split last
no_index = refl

abbrev center : List String → Option (ℕ × ℕ)
center [] = none
center (h ∷ hs) =
    if same h "a" then some (2, 2) else if same h "c" then some (6, 3) else some (9, 9)

abbrev regions : Regions ℕ
regions = record {
  top = some (record { x0 = 0; y0 = 0; x1 = 5; y1 = 5 });
  bottom = some (record { x0 = 4; y0 = 0; x1 = 7; y1 = 5 });
  side = some (record { x0 = 8; y0 = 8; x1 = 9; y1 = 9 });
}

abbrev matches : List (List String)
matches = ("a" ∷ []) ∷ ("b" ∷ []) ∷ [] ∷ ("c" ∷ []) ∷ []

split_matches_by_side-counts_example :
    ((v : Option View)
      → (under
            (key_of v "smd_2t.0")
            (split_matches_by_side leb ltb center "smd_2t.0" "SMD-2T" regions matches).0
          ≡ seen_on leb ltb center "smd_2t.0" "SMD-2T" regions v matches)
        × (count_of v (split_matches_by_side leb ltb center "smd_2t.0" "SMD-2T" regions matches).1
            ≡ length (seen_on leb ltb center "smd_2t.0" "SMD-2T" regions v matches)))
    × (total (split_matches_by_side leb ltb center "smd_2t.0" "SMD-2T" regions matches).0
        ≡ kept (split_matches_by_side leb ltb center "smd_2t.0" "SMD-2T" regions matches).1)
    × (kept (split_matches_by_side leb ltb center "smd_2t.0" "SMD-2T" regions matches).1
          + (split_matches_by_side leb ltb center "smd_2t.0" "SMD-2T" regions matches).1.dropped
        ≡ 4)
split_matches_by_side-counts_example =
    split_matches_by_side-counts leb ltb center "smd_2t.0" "SMD-2T" regions matches

two_kept : split_matches_by_side leb ltb center "smd_2t.0" "SMD-2T" regions matches ≡ (
  ("top_view.smd_2t.0", ("a" ∷ []) ∷ []) ∷ ("bottom_view.smd_2t.0", ("c" ∷ []) ∷ []) ∷ [],
  record { top_count = 1; bottom_count = 1; side_count = 0; unassigned = 0; dropped = 2 },
)
unfolding split_matches_by_side split_matches split_match is_allowed_view class_view_constraints
    side_prefix_for point_in_rect add_match
two_kept = refl

-- An order of texts that is not asked here.
abbrev ltb_text : String → String → Bool
ltb_text s t = false

abbrev by_body : Grouped
by_body =
    ("top_view.smd_2t.0", ("a" ∷ "b" ∷ []) ∷ ("x" ∷ []) ∷ [])
    ∷ ("smd_2t.12", ("c" ∷ "b" ∷ "a" ∷ []) ∷ [])
    ∷ ("ball.0", ("a" ∷ []) ∷ [])
    ∷ []

suppress_contained_matches-plain_search_example :
    suppress_contained_matches ltb_text indexed_search int true by_body
    ≡ suppress_contained_matches ltb_text plain_search int true by_body
suppress_contained_matches-plain_search_example =
    suppress_contained_matches-plain_search ltb_text int true by_body

-- The masks without the body go, and the ball stays.
mask_only :
    suppress_contained_matches ltb_text indexed_search int true by_body
    ≡ ("top_view.smd_2t.0", ("x" ∷ []) ∷ [])
      ∷ ("smd_2t.12", ("c" ∷ "b" ∷ "a" ∷ []) ∷ [])
      ∷ ("ball.0", ("a" ∷ []) ∷ [])
      ∷ []
unfolding suppress_contained_matches removed_of pools_of parse_match_key parse_parts split last
    pool_key add_to_pool init join removed_of_pool dups_of groups_of add_to_groups earliest
    contained_of enumerate keep_from reps_of without indexed_search bucket any least select
mask_only = refl
