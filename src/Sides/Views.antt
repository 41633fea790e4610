-- ===== src/Sides/Views.antt =====
-- The side of a match, and the grouping of a template's matches by side, by app/side_regions.py, with the
-- view constraints of app/library.py. Coordinates are of any type with the comparisons `le` and `gt`; the
-- centre of a match's bounding box is a parameter.
use smdr.Prelude.{
  ℕ, ◌+◌, String, Bool, true, false, ◌&&◌, ◌||◌, Option, none, some, List, [], ◌∷◌, ◌++◌, same,
  is_some, if◌then◌else◌, not,
}
use smdr.Sides.Keys.{View, top_view, bottom_view, side_view, prefixed_key}

-- ---- app/library.py
-- The views that CLASS_VIEW_CONSTRAINTS allows; `none`: the class is not in it.
unfoldable pub class_view_constraints : String → Option (List View)
class_view_constraints name =
    if same name "C4Ball" || same name "FiducialCircle"
    then some (top_view ∷ [])
    else if same name "BGABall"
    then some (bottom_view ∷ [])
    else if same name "FiducialCross"
        || same name "FiducialSquare"
        || same name "SMD-2T"
        || same name "SMD-3T"
        || same name "SMD-8T"
        || same name "SMD-14T"
    then some (top_view ∷ bottom_view ∷ [])
    else none

abbrev pub same_view : View → View → Bool
same_view top_view w = elim w [
  | View.top_view ↦ true
  | View.bottom_view ↦ false
  | View.side_view ↦ false
]
same_view bottom_view w = elim w [
  | View.top_view ↦ false
  | View.bottom_view ↦ true
  | View.side_view ↦ false
]
same_view side_view w = elim w [
  | View.top_view ↦ false
  | View.bottom_view ↦ false
  | View.side_view ↦ true
]

abbrev is_among : View → List View → Bool
is_among v [] = false
is_among v (w ∷ ws) = same_view v w || is_among v ws

unfoldable pub is_allowed_view : String → Option View → Bool
is_allowed_view name view = elim (class_view_constraints name) [
  | none ↦ true
  | some allowed ↦ elim view [ none ↦ false | some v ↦ is_among v allowed ]
]

-- ---- regions
pub record Rect (C : Type 0) : Type 0 where
  pub x0 : C
  pub y0 : C
  pub x1 : C
  pub y1 : C

-- The regions of a file: one for each view, or None.
pub record Regions (C : Type 0) : Type 0 where
  pub top : Option (Rect C)
  pub bottom : Option (Rect C)
  pub side : Option (Rect C)

-- The counts of a split.
pub record Counts : Type 0 where
  pub top_count : ℕ
  pub bottom_count : ℕ
  pub side_count : ℕ
  pub unassigned : ℕ
  pub dropped : ℕ

abbrev pub no_counts : Counts
no_counts = record { top_count = 0; bottom_count = 0; side_count = 0; unassigned = 0; dropped = 0 }

abbrev pub counted : Option View → Counts → Counts
counted none c = record c { unassigned = c.unassigned + 1 }
counted (some v) c = elim v [
  | View.top_view ↦ record c { top_count = c.top_count + 1 }
  | View.bottom_view ↦ record c { bottom_count = c.bottom_count + 1 }
  | View.side_view ↦ record c { side_count = c.side_count + 1 }
]

-- out: from keys to the matches under them, each its handles
abbrev pub Grouped : Type 0
Grouped = List (String × List (List String))

-- out.setdefault(key, []).append(handles)
unfoldable pub add_match : String → List String → Grouped → Grouped
add_match key handles [] = (key, handles ∷ []) ∷ []
add_match key handles ((k, hs) ∷ out) =
    let rest = add_match key handles out in
    if same k key then (k, hs ++ handles ∷ []) ∷ out else (k, hs) ∷ rest

module _ {C : Type 0} (le gt : C → C → Bool) where
  unfoldable pub normalise_rect : Rect C → Rect C
  normalise_rect r = record {
    x0 = if gt r.x0 r.x1 then r.x1 else r.x0;
    y0 = if gt r.y0 r.y1 then r.y1 else r.y0;
    x1 = if gt r.x0 r.x1 then r.x0 else r.x1;
    y1 = if gt r.y0 r.y1 then r.y0 else r.y1;
  }

  unfoldable pub point_in_rect : C × C → Option (Rect C) → Bool
  point_in_rect p none = false
  point_in_rect p (some r) = le r.x0 p.0 && le p.0 r.x1 && (le r.y0 p.1 && le p.1 r.y1)

  module _ (center : List String → Option (C × C)) where
    unfoldable pub side_prefix_for : List String → Regions C → Option View
    side_prefix_for handles r =
        if not (is_some r.top || is_some r.bottom || is_some r.side)
        then none
        else elim (center handles) [
          | none ↦ none
          | some p ↦
              if point_in_rect p r.top
              then some top_view
              else if point_in_rect p r.bottom
              then some bottom_view
              else if point_in_rect p r.side
              then some side_view
              else none
        ]

    -- One turn of the loop of `split_matches_by_side`.
    unfoldable pub split_match :
        String → String → Regions C → List String → Grouped × Counts → Grouped × Counts
    split_match base class_name r handles (out, c) =
        let prefix = side_prefix_for handles r in
        if not (is_allowed_view class_name prefix)
        then (out, record c { dropped = c.dropped + 1 })
        else (add_match (prefixed_key prefix base) handles out, counted prefix c)

    unfoldable pub split_matches :
        String → String → Regions C → List (List String) → Grouped × Counts → Grouped × Counts
    split_matches base class_name r [] s = s
    split_matches base class_name r (m ∷ ms) s =
        split_matches base class_name r ms (split_match base class_name r m s)

    unfoldable pub split_matches_by_side :
        String → String → Regions C → List (List String) → Grouped × Counts
    split_matches_by_side base class_name r ms = split_matches base class_name r ms ([], no_counts)
