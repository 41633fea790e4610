-- ===== src/Sides/Texts.antt =====
-- Python's `s.split(".")` and `".".join(parts)`.
use Prim.Native.Char.{Char, code}
use Prim.Native.String.{String}
use Prim.Native.String.append
use native.Mathlib.Omega.{arith}
use text.Mathlib.TextEquality.{codes_equal}
use mathlib.Core.Path.{◌≡◌, refl, ap, ◌∙◌, sym}
use mathlib.Core.Bool.{Bool, true, false}
use mathlib.Core.List.{List, [], ◌∷◌, ◌++◌}
use mathlib.Core.Logic.{inl, inr}
use smdr.Prelude.{◌==◌, if◌then◌else◌, Bool-cases, concat}

abbrev is_dot : Char → Bool
is_dot c = code c == 46

-- The first part of a text with one more character before it.
abbrev grown : Char → List String → List String
grown c [] = String.◌∷◌ c String.[] ∷ []
grown c (p ∷ ps) = String.◌∷◌ c p ∷ ps

unfoldable pub split : String → List String
split String.[] = String.[] ∷ []
split (String.◌∷◌ c s) = let rest = split s in if is_dot c then String.[] ∷ rest else grown c rest

unfoldable pub join : List String → String
join [] = ""
join (p ∷ []) = p
join (p ∷ q ∷ ps) = concat p (concat "." (join (q ∷ ps)))

concat-cons : (c : Char) (s t : String) → concat (String.◌∷◌ c s) t ≡ String.◌∷◌ c (concat s t)
concat-cons c s t = append.cons c s t

concat-dot : (t : String) → concat "." t ≡ String.◌∷◌ "." t
concat-dot t = append.cons "." String.[] t ∙ ap (String.◌∷◌ ".") (append.nil t)

join-grown : (c : Char) (ps : List String) → join (grown c ps) ≡ String.◌∷◌ c (join ps)
unfolding join
join-grown c [] = refl
join-grown c (p ∷ []) = refl
join-grown c (p ∷ q ∷ ps) = concat-cons c p (concat "." (join (q ∷ ps)))

-- A text has a first part.
pub split-cases : (s : String) → (p : String) × (ps : List String) × (split s ≡ p ∷ ps)
unfolding split
split-cases String.[] = (String.[], [], refl)
split-cases (String.◌∷◌ c s) =
    let (p, ps, e) = split-cases s in
    elim (Bool-cases (is_dot c)) [
      | inl y ↦ (String.[], split s, rw y refl)
      | inr n ↦ (String.◌∷◌ c p, ps, rw (n, e) refl)
    ]

dot_is : (c : Char) → is_dot c ≡ true → c ≡ "."
dot_is c e = codes_equal c "." (ground (arith, e))

split-dot : (c : Char) (s : String) → is_dot c ≡ true → split (String.◌∷◌ c s) ≡ "" ∷ split s
unfolding split
split-dot c s y = rw y refl

split-other :
    (c : Char) (s : String) → is_dot c ≡ false → split (String.◌∷◌ c s) ≡ grown c (split s)
unfolding split
split-other c s n = rw n refl

join-empty : (p : String) (ps : List String) → join ("" ∷ p ∷ ps) ≡ String.◌∷◌ "." (join (p ∷ ps))
unfolding join
join-empty p ps = append.nil (concat "." (join (p ∷ ps))) ∙ concat-dot (join (p ∷ ps))

-- The parts of a text, joined again, are the text.
pub join-split : (s : String) → join (split s) ≡ s
join-split String.[] = unfold split join in refl
join-split (String.◌∷◌ c s) =
    let (p, ps, e) = split-cases s in
    elim (Bool-cases (is_dot c)) [
      | inl y ↦
          ap join (split-dot c s y)
          ∙ ap (λ xs. join ("" ∷ xs)) e
          ∙ join-empty p ps
          ∙ ap (λ xs. String.◌∷◌ "." (join xs)) (sym e)
          ∙ ap (String.◌∷◌ ".") (join-split s)
          ∙ ap (λ d. String.◌∷◌ d s) (sym (dot_is c y))
      | inr n ↦
          ap join (split-other c s n) ∙ join-grown c (split s) ∙ ap (String.◌∷◌ c) (join-split s)
    ]

grown-append :
    (c : Char) (s : String) (ps : List String) → grown c (split s ++ ps) ≡ grown c (split s) ++ ps
grown-append c s ps = let (q, qs, e) = split-cases s in rw e refl

-- The parts of two texts with a dot between them.
pub split-dotted : (s t : String) → split (concat s (concat "." t)) ≡ split s ++ split t
split-dotted String.[] t =
    ap split (append.nil (concat "." t) ∙ concat-dot t)
    ∙ split-dot "." t refl
    ∙ (unfold split in refl)
split-dotted (String.◌∷◌ c s) t =
    ap split (concat-cons c s (concat "." t)) ∙ elim (Bool-cases (is_dot c)) [
      | inl y ↦
          split-dot c (concat s (concat "." t)) y
          ∙ ap (λ xs. "" ∷ xs) (split-dotted s t)
          ∙ ap (λ xs. xs ++ split t) (sym (split-dot c s y))
      | inr n ↦
          split-other c (concat s (concat "." t)) n
          ∙ ap (grown c) (split-dotted s t)
          ∙ grown-append c s (split t)
          ∙ ap (λ xs. xs ++ split t) (sym (split-other c s n))
    ]
