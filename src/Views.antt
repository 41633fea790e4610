-- ===== src/Views.antt =====
-- Which file each logical view of a product's role comes from, by app/product_views.py, with the decoding
-- of the columns that it reads by app/files.py. The rows are the bindings of one version and role.
-- `json.loads`, with `none` for its ValueError, and Python's `float` of a JSON value, with `none` for its
-- TypeError or ValueError, are parameters.
use smdr.Prelude.{
  if◌then◌else◌, String, List, Option, none, some, same, coalesce, length, ltb, ◌++◌, ◌∷◌, [],
}
use smdr.Json.{Json, Fields, end, field, null, bool, num, str, arr}
use smdr.Sides.Views.{Rect}
use smdr.Versions.Rows.{Binding}
pub mod Laws
mod Samples

pub data View : Type 0 where
  top bottom side : View

-- ViewSource: a region of the file, with its rect, or the whole file.
pub record ViewSource (F : Type 0) : Type 0 where
  pub file_id : String
  pub rect : Option (Rect F)

-- What is read of a FileRecord.
pub record FileViews (F : Type 0) : Type 0 where
  pub file_id : String
  pub dxf_view : Option String
  pub top_view_rect : Option (Rect F)
  pub bottom_view_rect : Option (Rect F)
  pub side_view_rect : Option (Rect F)

abbrev view_name : View → String
view_name top = "top"
view_name bottom = "bottom"
view_name side = "side"

-- parsed[key]: `none` is the KeyError.
unfoldable pub value_of : String → Fields → Option Json
value_of key end = none
value_of key (field k v d) = let rest = value_of key d in if same k key then some v else rest

module _ {F : Type 0} (loads : String → Option Json) (float : Json → Option F) where
  -- float(parsed[key])
  unfoldable pub coordinate : String → Fields → Option F
  coordinate key d = elim (value_of key d) [ none ↦ none | some v ↦ float v ]

  -- The dict of the four coordinates, of which the first that is missing or no number ends the reading.
  unfoldable pub rect_of : Fields → Option (Rect F)
  rect_of d = elim (coordinate "x0" d) [
    | none ↦ none
    | some x0 ↦ elim (coordinate "y0" d) [
      | none ↦ none
      | some y0 ↦ elim (coordinate "x1" d) [
        | none ↦ none
        | some x1 ↦ elim (coordinate "y1" d) [
          | none ↦ none
          | some y1 ↦ some (record { x0 = x0; y0 = y0; x1 = x1; y1 = y1 })
        ]
      ]
    ]
  ]

  -- _decode_rect: a column that is NULL or empty, no JSON, no object, or lacks a coordinate is no rect.
  unfoldable pub decode_rect : Option String → Option (Rect F)
  decode_rect raw =
      let text = coalesce raw "" in
      if same text ""
      then none
      else elim (loads text) [ none ↦ none | some (Json.obj d) ↦ rect_of d | some _ ↦ none ]

  unfoldable pub file_views : Binding → FileViews F
  file_views b = record {
    file_id = b.file_id;
    dxf_view = b.dxf_view;
    top_view_rect = decode_rect b.top_view_rect;
    bottom_view_rect = decode_rect b.bottom_view_rect;
    side_view_rect = decode_rect b.side_view_rect;
  }

abbrev view_rect : {F : Type 0} → View → FileViews F → Option (Rect F)
view_rect top r = r.top_view_rect
view_rect bottom r = r.bottom_view_rect
view_rect side r = r.side_view_rect

-- `rec.dxf_view or "multi"`
abbrev view_tag : {F : Type 0} → FileViews F → String
view_tag r = let tag = coalesce r.dxf_view "" in if same tag "" then "multi" else tag

-- The claim that a row makes on a view. A tag that is none of the four makes none.
unfoldable pub claim : {F : Type 0} → View → FileViews F → Option (ViewSource F)
claim v r =
    if same (view_tag r) "multi"
    then elim (view_rect v r) [
      | none ↦ none
      | some rect ↦ some (record { file_id = r.file_id; rect = some rect })
    ]
    else if same (view_tag r) (view_name v)
    then some (record { file_id = r.file_id; rect = none })
    else none

-- `claims[v]` and `mapping.get(v)`
pub record Slot (F : Type 0) : Type 0 where
  pub claims : List String
  pub source : Option (ViewSource F)

abbrev pub open_slot : {F : Type 0} → View → Slot F
open_slot v = record { claims = []; source = none }

-- One turn of the loop over the rows.
unfoldable pub scan_row : {F : Type 0} → FileViews F → (View → Slot F) → View → Slot F
scan_row r slots v = elim (claim v r) [
  | none ↦ slots v
  | some s ↦ record { claims = (slots v).claims ++ r.file_id ∷ []; source = some s }
]

unfoldable pub scan_rows : {F : Type 0} → List (FileViews F) → (View → Slot F) → View → Slot F
scan_rows [] slots = slots
scan_rows (r ∷ rows) slots = scan_rows rows (scan_row r slots)

pub data Resolved (F : Type 0) : Type 0 where
  mapping : (View → Option (ViewSource F)) → Resolved F
  conflict : View → List String → Resolved F

-- ViewCoverageConflict of the first view, in the order of VIEWS, that two rows claim.
unfoldable pub resolve_views : {F : Type 0} → List (FileViews F) → Resolved F
unfolding scan_rows
resolve_views rows =
    let slots = scan_rows rows open_slot in
    if ltb 1 (length (slots top).claims)
    then conflict top (slots top).claims
    else if ltb 1 (length (slots bottom).claims)
    then conflict bottom (slots bottom).claims
    else if ltb 1 (length (slots side).claims)
    then conflict side (slots side).claims
    else mapping (λ v. (slots v).source)
