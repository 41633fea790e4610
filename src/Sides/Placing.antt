-- ===== src/Sides/Placing.antt =====
-- The side of a match, against `side_prefix_for` of app/side_regions.py.
use smdr.Sides.Groups.{same_side}
use smdr.Table.{select}
use smdr.Prelude.{
  String, Bool, false, ◌≡◌, refl, Option, none, some, List, Bool-cases, inl, inr, arith,
  if◌then◌else◌, not, ◌&&◌, is_some, ◌||◌, Option-cases,
}
use smdr.Sides.Keys.{View}
use smdr.Sides.Views.{Regions, is_allowed_view, side_prefix_for, point_in_rect, Rect}

module _ {C : Type 0} (le gt : C → C → Bool) (center : List String → Option (C × C))
    (base name : String) (r : Regions C) where
  abbrev pub lies_in : C × C → Option (Rect C) → Bool
  lies_in p none = false
  lies_in p (some q) = le q.x0 p.0 && le p.0 q.x1 && (le q.y0 p.1 && le p.1 q.y1)

  -- Whether a match is on a side: its centre is in the region of that side, and in no region that comes
  -- before it, of the top, the bottom and the side; or in none.
  unfoldable pub is_on : Option View → List String → Bool
  is_on v m = elim (center m) [
    | none ↦ same_side v none
    | some p ↦ elim v [
      | none ↦ not (lies_in p r.top) && not (lies_in p r.bottom) && not (lies_in p r.side)
      | some View.top_view ↦ lies_in p r.top
      | some View.bottom_view ↦ not (lies_in p r.top) && lies_in p r.bottom
      | some View.side_view ↦ not (lies_in p r.top) && not (lies_in p r.bottom) && lies_in p r.side
    ]
  ]

  -- The matches of a side on which their class may be seen.
  abbrev pub seen_on : Option View → List (List String) → List (List String)
  seen_on v ms = select (λ m. is_allowed_view name v && is_on v m) ms

  lies_in-point_in_rect : (p : C × C) (q : Option (Rect C)) → point_in_rect le gt p q ≡ lies_in p q
  unfolding point_in_rect
  lies_in-point_in_rect p none = refl
  lies_in-point_in_rect p (some q) = refl

  none_set :
      (p : C × C)
      → is_some r.top || is_some r.bottom || is_some r.side ≡ false
      → (lies_in p r.top ≡ false) × (lies_in p r.bottom ≡ false) × (lies_in p r.side ≡ false)
  none_set p h = (
    unset r.top (ground (arith, h)),
    unset r.bottom (ground (arith, h)),
    unset r.side (ground (arith, h)),
  )
    where
      unset : (q : Option (Rect C)) → is_some q ≡ false → lies_in p q ≡ false
      unset none e = refl
      unset (some q) e = cc

  by_rects :
      (v : Option View) (t b s : Bool)
      → (elim v [
        | none ↦ not t && not b && not s
        | some View.top_view ↦ t
        | some View.bottom_view ↦ not t && b
        | some View.side_view ↦ not t && not b && s
      ])
        ≡ same_side v (
            if t
            then some View.top_view
            else if b
            then some View.bottom_view
            else if s
            then some View.side_view
            else none)
  by_rects v t b s = ground arith

  outside :
      (v : Option View) (t b s : Bool)
      → t ≡ false
      → b ≡ false
      → s ≡ false
      → (elim v [
        | none ↦ not t && not b && not s
        | some View.top_view ↦ t
        | some View.bottom_view ↦ not t && b
        | some View.side_view ↦ not t && not b && s
      ])
        ≡ same_side v none
  outside v t b s ht hb hs = ground (arith, ht, hb, hs)

  pub side_prefix_for-is_on :
      (v : Option View) (m : List String)
      → is_on v m ≡ same_side v (side_prefix_for le gt center m r)
  unfolding is_on side_prefix_for
  side_prefix_for-is_on v m =
      elim (Bool-cases (is_some r.top || is_some r.bottom || is_some r.side)) [
        | inl y ↦ elim (Option-cases (center m)) [
          | inl e ↦ rw (is_on, y, e) refl
          | inr (p, e) ↦
              rw
                (
                  is_on,
                  y,
                  e,
                  lies_in-point_in_rect p r.top,
                  lies_in-point_in_rect p r.bottom,
                  lies_in-point_in_rect p r.side,
                )
                (by_rects v (lies_in p r.top) (lies_in p r.bottom) (lies_in p r.side))
        ]
        | inr n ↦ elim (Option-cases (center m)) [
          | inl e ↦ rw (is_on, n, e) refl
          | inr (p, e) ↦
              let out = none_set p n in rw (is_on, n, e) (outside v _ _ _ out.0 out.1 out.2)
        ]
      ]
