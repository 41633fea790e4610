-- ===== src/Sides/Groups.antt =====
-- The keys under which `split_matches_by_side` of app/side_regions.py groups matches.
use smdr.Prelude.{
  ℕ, String, Bool, true, false, ◌≡◌, refl, Option, none, some, List, [], ◌∷◌, Bool-cases, inl, inr,
  arith, ◌∙◌, same, concat, ◌<◌, ◌++◌, if◌then◌else◌, eq_iff, eq_refl, ap, sym,
}
use Prim.Native.Char.{code}
use Prim.Native.String.{String, count}
use text.Mathlib.TextLemmas.{append_assoc, cons-append, length-append as count-append}
use smdr.Sides.Keys.{View, prefixed_key}
use smdr.Sides.Views.{Grouped, add_match, same_view}

-- Where the two are one side.
abbrev pub same_side : Option View → Option View → Bool
same_side none w = elim w [ none ↦ true | some _ ↦ false ]
same_side (some v) w = elim w [ none ↦ false | some u ↦ same_view v u ]

pub same_side-eq : (v w : Option View) → same_side v w ≡ true → v ≡ w
same_side-eq none none h = refl
same_side-eq none (some w) h = cc
same_side-eq (some v) none h = cc
same_side-eq (some View.top_view) (some View.top_view) h = refl
same_side-eq (some View.bottom_view) (some View.bottom_view) h = refl
same_side-eq (some View.side_view) (some View.side_view) h = refl
same_side-eq (some View.top_view) (some View.bottom_view) h = cc
same_side-eq (some View.top_view) (some View.side_view) h = cc
same_side-eq (some View.bottom_view) (some View.top_view) h = cc
same_side-eq (some View.bottom_view) (some View.side_view) h = cc
same_side-eq (some View.side_view) (some View.top_view) h = cc
same_side-eq (some View.side_view) (some View.bottom_view) h = cc

-- The matches under a key.
unfoldable pub under : String → Grouped → List (List String)
under key [] = []
under key ((k, hs) ∷ out) = let rest = under key out in if same k key then hs else rest

pub under-add_match :
    (key : String) (m : List String) (out : Grouped)
    → under key (add_match key m out) ≡ under key out ++ m ∷ []
unfolding under add_match
under-add_match key m [] = rw (eq_refl key) refl
under-add_match key m ((k, hs) ∷ out) = elim (Bool-cases (same k key)) [
  | inl y ↦ rw (y, y) refl
  | inr n ↦ rw (n, n) (under-add_match key m out)
]

pub under-add_match_other :
    (key other : String) (m : List String) (out : Grouped)
    → same other key ≡ false
    → under key (add_match other m out) ≡ under key out
unfolding under add_match
under-add_match_other key other m [] h = rw h refl
under-add_match_other key other m ((k, hs) ∷ out) h = elim (Bool-cases (same k other)) [
  | inl y ↦ let apart : same k key ≡ false = rw ((eq_iff k other).0 y) h in rw (y, apart) refl
  | inr n ↦ rw n (ap (λ r. if same k key then hs else r) (under-add_match_other key other m out h))
]

-- The key of a side.
abbrev pub key_of : Option View → String → String
key_of none base = base
key_of (some v) base = elim v [
  | View.top_view ↦ concat "top_view." base
  | View.bottom_view ↦ concat "bottom_view." base
  | View.side_view ↦ concat "side_view." base
]

pub prefixed_key-key_of : (v : Option View) (base : String) → prefixed_key v base ≡ key_of v base
prefixed_key-key_of none base = refl
prefixed_key-key_of (some View.top_view) base = sym (append_assoc "top_view" "." base)
prefixed_key-key_of (some View.bottom_view) base = sym (append_assoc "bottom_view" "." base)
prefixed_key-key_of (some View.side_view) base = sym (append_assoc "side_view" "." base)

not_same : (s t : String) → (s ≡ t → false ≡ true) → same s t ≡ false
not_same s t h = elim (Bool-cases (same s t)) [
  | inl y ↦ (let q = h ((eq_iff s t).0 y) in cc)
  | inr n ↦ n
]

longer : (p base : String) → 0 < count p → concat p base ≡ base → false ≡ true
longer p base h e = ground (arith, count-append p base, ap count e)

abbrev first_code : String → ℕ
first_code String.[] = 0
first_code (String.◌∷◌ c s) = code c

first_codes :
    (base : String)
    → (first_code (concat "top_view." base) ≡ 116)
      × (first_code (concat "bottom_view." base) ≡ 98)
      × (first_code (concat "side_view." base) ≡ 115)
first_codes base = (
  ap first_code (cons-append "t" "op_view." base),
  ap first_code (cons-append "b" "ottom_view." base),
  ap first_code (cons-append "s" "ide_view." base),
)

pub key_of-apart :
    (v w : Option View) (base : String)
    → same_side v w ≡ false
    → same (key_of w base) (key_of v base) ≡ false
key_of-apart v w base h = not_same (key_of w base) (key_of v base) (λ e. apart v w h e)
  where
    codes : (s t : String) (m n : ℕ) → first_code s ≡ m → first_code t ≡ n → s ≡ t → m ≡ n
    codes s t m n p q e = sym p ∙ ap first_code e ∙ q

    apart :
        (v w : Option View) → same_side v w ≡ false → key_of w base ≡ key_of v base → false ≡ true
    apart none none h e = sym h
    apart none (some View.top_view) h e = longer "top_view." base (omega arith) e
    apart none (some View.bottom_view) h e = longer "bottom_view." base (omega arith) e
    apart none (some View.side_view) h e = longer "side_view." base (omega arith) e
    apart (some View.top_view) none h e = longer "top_view." base (omega arith) (sym e)
    apart (some View.bottom_view) none h e = longer "bottom_view." base (omega arith) (sym e)
    apart (some View.side_view) none h e = longer "side_view." base (omega arith) (sym e)
    apart (some View.top_view) (some View.top_view) h e = sym h
    apart (some View.bottom_view) (some View.bottom_view) h e = sym h
    apart (some View.side_view) (some View.side_view) h e = sym h
    apart (some View.top_view) (some View.bottom_view) h e =
        ground (arith, codes _ _ _ _ (first_codes base).1 (first_codes base).0 e)
    apart (some View.top_view) (some View.side_view) h e =
        ground (arith, codes _ _ _ _ (first_codes base).2 (first_codes base).0 e)
    apart (some View.bottom_view) (some View.top_view) h e =
        ground (arith, codes _ _ _ _ (first_codes base).0 (first_codes base).1 e)
    apart (some View.bottom_view) (some View.side_view) h e =
        ground (arith, codes _ _ _ _ (first_codes base).2 (first_codes base).1 e)
    apart (some View.side_view) (some View.top_view) h e =
        ground (arith, codes _ _ _ _ (first_codes base).0 (first_codes base).2 e)
    apart (some View.side_view) (some View.bottom_view) h e =
        ground (arith, codes _ _ _ _ (first_codes base).1 (first_codes base).2 e)
