-- ===== src/Sides/Keys.antt =====
-- `parse_match_key` of app/side_regions.py, and the keys that `split_matches_by_side` emits. Python's `int`
-- is a parameter.
use smdr.Prelude.{
  String, Bool, true, ◌||◌, ◌≡◌, refl, ap, sym, ◌∙◌, Option, none, some, List, [], ◌∷◌, ◌++◌, same,
  concat, if◌then◌else◌, not, arith,
}
use smdr.Sides.Texts.{split, join, join-split, split-dotted, split-cases}

pub data View : Type 0 where
  top_view bottom_view side_view : View

abbrev pub view_name : View → String
view_name top_view = "top_view"
view_name bottom_view = "bottom_view"
view_name side_view = "side_view"

abbrev pub is_view_prefix : String → Bool
is_view_prefix s = same s "top_view" || same s "bottom_view" || same s "side_view"

-- parts[-1] and parts[:-1]
unfoldable pub last : List String → String
last [] = ""
last (p ∷ []) = p
last (p ∷ q ∷ ps) = last (q ∷ ps)

unfoldable pub init : List String → List String
init [] = []
init (p ∷ []) = []
init (p ∷ q ∷ ps) = p ∷ init (q ∷ ps)

-- The parts before the index: a prefix, if one of several is a view, and the class.
abbrev pub prefix_and_class : List String → Option String × String
prefix_and_class [] = (none, join [])
prefix_and_class (p ∷ []) = (none, join (p ∷ []))
prefix_and_class (p ∷ q ∷ ps) =
    if is_view_prefix p then (some p, join (q ∷ ps)) else (none, join (p ∷ q ∷ ps))

-- "{view}.{class}.{idx}", or "{class}.{idx}"
abbrev pub base_key : String → String → String
base_key snake idx = concat snake (concat "." idx)

abbrev pub prefixed_key : Option View → String → String
prefixed_key none base = base
prefixed_key (some v) base = concat (view_name v) (concat "." base)

module _ {I : Type 0} (int : String → Option I) where
  unfoldable pub parse_parts : List String → Option (Option String × String × I)
  parse_parts [] = none
  parse_parts (p ∷ []) = none
  parse_parts (p ∷ q ∷ ps) = elim (int (last (p ∷ q ∷ ps))) [
    | none ↦ none
    | some idx ↦ let head = prefix_and_class (init (p ∷ q ∷ ps)) in some (head.0, head.1, idx)
  ]

  unfoldable pub parse_match_key : String → Option (Option String × String × I)
  parse_match_key key = parse_parts (split key)

last-append : (ps : List String) (p : String) → last (ps ++ p ∷ []) ≡ p
unfolding last
last-append [] p = refl
last-append (q ∷ []) p = refl
last-append (q ∷ r ∷ ps) p = last-append (r ∷ ps) p

init-append : (ps : List String) (p : String) → init (ps ++ p ∷ []) ≡ ps
unfolding init
init-append [] p = refl
init-append (q ∷ []) p = refl
init-append (q ∷ r ∷ ps) p = ap (λ xs. q ∷ xs) (init-append (r ∷ ps) p)

split-view_name : (v : View) → split (view_name v) ≡ view_name v ∷ []
unfolding split
split-view_name top_view = refl
split-view_name bottom_view = refl
split-view_name side_view = refl

is_view_prefix-view_name : (v : View) → is_view_prefix (view_name v) ≡ true
is_view_prefix-view_name top_view = refl
is_view_prefix-view_name bottom_view = refl
is_view_prefix-view_name side_view = refl

abbrev pub is_bare : List String → Bool
is_bare [] = true
is_bare (p ∷ []) = true
is_bare (p ∷ q ∷ ps) = not (is_view_prefix p)

prefix_and_class-is_bare :
    (ps : List String) → is_bare ps ≡ true → prefix_and_class ps ≡ (none, join ps)
prefix_and_class-is_bare [] h = refl
prefix_and_class-is_bare (p ∷ []) h = refl
prefix_and_class-is_bare (p ∷ q ∷ ps) h = ground (arith, h)

prefix_and_class-view :
    (v : View) (snake : String)
    → prefix_and_class (view_name v ∷ split snake) ≡ (some (view_name v), snake)
prefix_and_class-view v snake =
    let (p, ps, e) = split-cases snake in
    ap (λ xs. prefix_and_class (view_name v ∷ xs)) e
    ∙ by_view p ps
    ∙ ap (λ xs. (some (view_name v), join xs)) (sym e)
    ∙ ap (λ s. (some (view_name v), s)) (join-split snake)
  where
    by_view :
        (p : String) (ps : List String)
        → prefix_and_class (view_name v ∷ p ∷ ps) ≡ (some (view_name v), join (p ∷ ps))
    by_view p ps = ground (arith, is_view_prefix-view_name v)

module _ {I : Type 0} (int : String → Option I) where
  parse_parts-read :
      (p q : String) (ps : List String) (i : I)
      → int (last (p ∷ q ∷ ps)) ≡ some i
      → parse_parts int (p ∷ q ∷ ps)
        ≡ some
            ((prefix_and_class (init (p ∷ q ∷ ps))).0, (prefix_and_class (init (p ∷ q ∷ ps))).1, i)
  unfolding parse_parts
  parse_parts-read p q ps i e = ground (arith, e)

  parse_parts-append :
      (p idx : String) (ps : List String) (i : I)
      → int idx ≡ some i
      → parse_parts int ((p ∷ ps) ++ idx ∷ [])
        ≡ some ((prefix_and_class (p ∷ ps)).0, (prefix_and_class (p ∷ ps)).1, i)
  parse_parts-append p idx [] i e =
      parse_parts-read p idx [] i (ap int (last-append (p ∷ []) idx) ∙ e)
      ∙ ap (λ xs. some ((prefix_and_class xs).0, (prefix_and_class xs).1, i))
          (init-append (p ∷ []) idx)
  parse_parts-append p idx (r ∷ rs) i e =
      parse_parts-read p r (rs ++ idx ∷ []) i (ap int (last-append (p ∷ r ∷ rs) idx) ∙ e)
      ∙ ap (λ xs. some ((prefix_and_class xs).0, (prefix_and_class xs).1, i))
          (init-append (p ∷ r ∷ rs) idx)

  abbrev pub name_of : Option View → Option String
  name_of none = none
  name_of (some v) = some (view_name v)

  split-base_key :
      (snake idx : String)
      → split idx ≡ idx ∷ []
      → split (base_key snake idx) ≡ split snake ++ idx ∷ []
  split-base_key snake idx plain = split-dotted snake idx ∙ ap (λ xs. split snake ++ xs) plain

  -- The key of any view, class and index is read back as these, if the index is the text without a dot
  -- of a number, and, where there is no view, the name of the class is not one of a view and a class.
  pub parse_match_key-prefixed_key :
      (v : Option View) (snake idx : String) (i : I)
      → split idx ≡ idx ∷ []
      → int idx ≡ some i
      → (v ≡ none → is_bare (split snake) ≡ true)
      → parse_match_key int (prefixed_key v (base_key snake idx)) ≡ some (name_of v, snake, i)
  unfolding parse_match_key
  parse_match_key-prefixed_key none snake idx i plain e bare =
      let (p, ps, parts) = split-cases snake in
      ap (parse_parts int) (split-base_key snake idx plain ∙ ap (λ xs. xs ++ idx ∷ []) parts)
      ∙ parse_parts-append p idx ps i e
      ∙ ap (λ h. some (h.0, h.1, i))
          (ap prefix_and_class (sym parts)
            ∙ prefix_and_class-is_bare (split snake) (bare refl)
            ∙ ap (λ s. (none, s)) (join-split snake))
  parse_match_key-prefixed_key (some v) snake idx i plain e bare =
      ap (parse_parts int) (
        split-dotted (view_name v) (base_key snake idx)
        ∙ ap (λ xs. xs ++ split (base_key snake idx)) (split-view_name v)
        ∙ ap (λ xs. view_name v ∷ xs) (split-base_key snake idx plain))
      ∙ parse_parts-append (view_name v) idx (split snake) i e
      ∙ ap (λ h. some (h.0, h.1, i)) (prefix_and_class-view v snake)
