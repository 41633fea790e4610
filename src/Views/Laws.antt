-- ===== src/Views/Laws.antt =====
-- What the resolution of views by app/product_views.py amounts to.
use smdr.Sides.Views.{Rect}
use smdr.Prelude.{
  if◌then◌else◌, same, ◌||◌, String, List, Option, none, some, length, ltb, map, ◌++◌, ◌∷◌, [], ◌≤◌,
  ◌<◌, ◌≡◌, arith, refl, ◌∙◌, sym, ap, Option-cases, inl, inr, false, Bool-cases, coalesce,
}
use smdr.Views.{
  View, ViewSource, FileViews, Slot, Resolved, top, bottom, side, mapping, conflict, claim,
  scan_row, scan_rows, resolve_views, open_slot, Rect,
}

abbrev region : {F : Type 0} → String → Option (Rect F) → Option (ViewSource F)
region file_id r = elim r [
  | none ↦ none
  | some rect ↦ some (record { file_id = file_id; rect = some rect })
]

-- What a file is to a view with the name and the rect: a region of it if it is tagged "multi" or not at
-- all and the rect is set, the whole file if it is tagged with the name, and else nothing.
abbrev part_of : {F : Type 0} → String → Option (Rect F) → FileViews F → Option (ViewSource F)
part_of name rect r = elim r.dxf_view [
  | none ↦ region r.file_id rect
  | some tag ↦
      if same tag "" || same tag "multi"
      then region r.file_id rect
      else if same tag name
      then some (record { file_id = r.file_id; rect = none })
      else none
]

abbrev pub source_in : {F : Type 0} → View → FileViews F → Option (ViewSource F)
source_in top r = part_of "top" r.top_view_rect r
source_in bottom r = part_of "bottom" r.bottom_view_rect r
source_in side r = part_of "side" r.side_view_rect r

abbrev as_tag : String → String
as_tag t = if same t "" then "multi" else t

by_tag :
    {A : Type 0}
    → (tag : Option String) (name : String) (x y z : A)
    → (if same (as_tag (coalesce tag "")) "multi"
        then x
        else if same (as_tag (coalesce tag "")) name
        then y
        else z)
      ≡ (elim tag [
        | none ↦ x
        | some t ↦ if same t "" || same t "multi" then x else if same t name then y else z
      ])
by_tag none name x y z = refl
by_tag (some t) name x y z = elim (Bool-cases (same t "")) [
  | inl e ↦ rw e refl
  | inr e ↦ elim (Bool-cases (same t "multi")) [ inl m ↦ rw (e, m) refl | inr m ↦ rw (e, m) refl ]
]

claim-source_in : {F : Type 0} → (v : View) (r : FileViews F) → claim v r ≡ source_in v r
unfolding claim
claim-source_in top r =
    by_tag r.dxf_view "top" (region r.file_id r.top_view_rect)
      (some (record { file_id = r.file_id; rect = none })) none
claim-source_in bottom r =
    by_tag r.dxf_view "bottom" (region r.file_id r.bottom_view_rect)
      (some (record { file_id = r.file_id; rect = none })) none
claim-source_in side r =
    by_tag r.dxf_view "side" (region r.file_id r.side_view_rect)
      (some (record { file_id = r.file_id; rect = none })) none

-- What the rows are to a view, in their order.
unfoldable pub sources : {F : Type 0} → View → List (FileViews F) → List (ViewSource F)
sources v [] = []
sources v (r ∷ rows) =
    let rest = sources v rows in elim (source_in v r) [ none ↦ rest | some s ↦ s ∷ rest ]

-- The last of some sources, or `o` if there is none.
latest : {F : Type 0} → Option (ViewSource F) → List (ViewSource F) → Option (ViewSource F)
latest o [] = o
latest o (s ∷ ss) = latest (some s) ss

abbrev pub only : {F : Type 0} → List (ViewSource F) → Option (ViewSource F)
only [] = none
only (s ∷ ss) = some s

claim-file_id :
    {F : Type 0}
    → (v : View) (r : FileViews F) (s : ViewSource F) → claim v r ≡ some s
    → s.file_id ≡ r.file_id
unfolding claim
claim-file_id v r s e = ground arith

append_cons : (t u : List String) (r : String) → (t ++ r ∷ []) ++ u ≡ t ++ r ∷ u
append_cons [] u r = refl
append_cons (s ∷ t) u r = rw (append_cons t u r) refl

append_nil : (t : List String) → t ++ [] ≡ t
append_nil [] = refl
append_nil (r ∷ t) = rw (append_nil t) refl

claims-scan_rows :
    {F : Type 0}
    → (v : View) (rows : List (FileViews F)) (slots : View → Slot F)
    → (scan_rows rows slots v).claims ≡ (slots v).claims ++ map (λ s. s.file_id) (sources v rows)
unfolding scan_rows scan_row sources
claims-scan_rows v [] slots = sym (append_nil (slots v).claims)
claims-scan_rows v (r ∷ rows) slots = elim (Option-cases (claim v r)) [
  | inl e ↦
      claims-scan_rows v rows (scan_row r slots)
      ∙ rw (e, scan_row, sources, sym (claim-source_in v r) ∙ e) refl
  | inr (s, e) ↦
      claims-scan_rows v rows (scan_row r slots)
      ∙ rw (e, scan_row, sources, sym (claim-source_in v r) ∙ e, claim-file_id v r s e)
          (append_cons (slots v).claims (map (λ q. q.file_id) (sources v rows)) r.file_id)
]

source-scan_rows :
    {F : Type 0}
    → (v : View) (rows : List (FileViews F)) (slots : View → Slot F)
    → (scan_rows rows slots v).source ≡ latest (slots v).source (sources v rows)
unfolding scan_rows scan_row sources latest
source-scan_rows v [] slots = refl
source-scan_rows v (r ∷ rows) slots = elim (Option-cases (claim v r)) [
  | inl e ↦
      source-scan_rows v rows (scan_row r slots)
      ∙ rw (e, scan_row, sources, sym (claim-source_in v r) ∙ e) refl
  | inr (s, e) ↦
      source-scan_rows v rows (scan_row r slots)
      ∙ rw (e, scan_row, sources, sym (claim-source_in v r) ∙ e) refl
]

-- A mapping has at most one source for each view, and maps the view to that; a conflict lists the files of
-- the sources of its view, two at least.
abbrev pub ResolvesTo : {F : Type 0} → List (FileViews F) → Resolved F → Type 0
ResolvesTo rows (mapping m) =
    (v : View) → (length (sources v rows) ≤ 1) × (m v ≡ only (sources v rows))
ResolvesTo rows (conflict v ids) = (ids ≡ map (λ s. s.file_id) (sources v rows)) × (1 < length ids)

length-map : {F : Type 0} → (t : List (ViewSource F)) → length (map (λ s. s.file_id) t) ≡ length t
length-map [] = refl
length-map (s ∷ t) = omega (arith, length-map t)

latest-only : {F : Type 0} → (t : List (ViewSource F)) → length t ≤ 1 → latest none t ≡ only t
unfolding latest
latest-only [] h = refl
latest-only (s ∷ []) h = refl
latest-only (s ∷ r ∷ t) h = ground arith

at_most_one :
    {F : Type 0}
    → (v : View) (rows : List (FileViews F))
    → ltb 1 (length (scan_rows rows open_slot v).claims) ≡ false
    → (length (sources v rows) ≤ 1) × ((scan_rows rows open_slot v).source ≡ only (sources v rows))
at_most_one v rows h =
    let few : length (sources v rows) ≤ 1 =
      ground (arith, ap length (claims-scan_rows v rows open_slot), length-map (sources v rows)) in
    (few, source-scan_rows v rows open_slot ∙ latest-only (sources v rows) few)

-- For any rows: if `resolve_views` returns a mapping, each view has at most one row that is tagged with
-- its name, or tagged "multi" or not at all with a rect for it, and its source is that row, by the whole
-- file or the rect, or none. If it raises a conflict, the conflict lists the files of the rows that are
-- its view's in this sense, in their order, and they are two at least.
pub resolve_views_lem :
    {F : Type 0} → (rows : List (FileViews F)) → ResolvesTo rows (resolve_views rows)
unfolding resolve_views
resolve_views_lem rows = elim (Bool-cases (ltb 1 (length (scan_rows rows open_slot top).claims))) [
  | inl e ↦ rw e (claims-scan_rows top rows open_slot, ground arith)
  | inr e ↦ elim (Bool-cases (ltb 1 (length (scan_rows rows open_slot bottom).claims))) [
    | inl e' ↦ rw (e, e') (claims-scan_rows bottom rows open_slot, ground arith)
    | inr e' ↦ elim (Bool-cases (ltb 1 (length (scan_rows rows open_slot side).claims))) [
      | inl q ↦ rw (e, e', q) (claims-scan_rows side rows open_slot, ground arith)
      | inr q ↦ rw (e, e', q) (each e e' q)
    ]
  ]
]
  where
    each :
        ltb 1 (length (scan_rows rows open_slot top).claims) ≡ false
        → ltb 1 (length (scan_rows rows open_slot bottom).claims) ≡ false
        → ltb 1 (length (scan_rows rows open_slot side).claims) ≡ false
        → (v : View)
        → (length (sources v rows) ≤ 1)
          × ((scan_rows rows open_slot v).source ≡ only (sources v rows))
    each e e' q top = at_most_one top rows e
    each e e' q bottom = at_most_one bottom rows e'
    each e e' q side = at_most_one side rows q
