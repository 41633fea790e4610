-- ===== src/Sql/Fill.antt =====
-- What a driver makes of a translated statement, character by character, in the states of
-- `_qmark_to_format` of app/db.py.
use Prim.Native.Char.{Char}
use Prim.Native.String.{String}
use text.Mathlib.TextEquality.{codes_equal}
use smdr.Prelude.{
  ℕ, Bool, true, false, Option, none, some, List, [], ◌∷◌, ◌≡◌, refl, ap, sym, ◌∙◌, concat, arith,
  Bool-cases, inl, inr, if◌then◌else◌,
}
use smdr.Sql.{is_char, is_quote, is_qmark, is_percent, next_quote, translated, translate_from}

abbrev pub after_char : Char → Option String → Option String
after_char c o = elim o [ none ↦ none | some t ↦ some (String.◌∷◌ c t) ]

abbrev pub after_text : String → Option String → Option String
after_text p o = elim o [ none ↦ none | some t ↦ some (concat p t) ]

-- The next parameter, and the rest of the statement with the others; `none` if there is none.
abbrev pub next_param : List String → (List String → Option String) → Option String
next_param ps rest = elim ps [ [] ↦ none | p ∷ qs ↦ after_text p (rest qs) ]

-- At the end no parameter is left over.
abbrev pub finished : List String → Option String
finished ps = elim ps [ [] ↦ some String.[] | _ ∷ _ ↦ none ]

-- printf: `%%` is a percent sign, `%s` the next parameter, any other directive an error. The flag tells
-- that a percent sign was just read.
unfoldable pub interpolate : Bool → String → List String → Option String
interpolate false String.[] ps = finished ps
interpolate true String.[] ps = none
interpolate false (String.◌∷◌ c s) ps =
    let directive = interpolate true s ps in
    let plain = interpolate false s ps in if is_percent c then directive else after_char c plain
interpolate true (String.◌∷◌ c s) ps =
    let plain = interpolate false s in
    if is_percent c
    then after_char "%" (plain ps)
    else if is_char 115 c
    then next_param ps plain
    else none

-- A `?` outside quotes is a placeholder.
abbrev is_placeholder : Option ℕ → Char → Bool
is_placeholder none c = is_qmark c
is_placeholder (some k) c = false

-- The statement with its placeholders filled, one after the other.
unfoldable pub fill : Option ℕ → String → List String → Option String
fill quote String.[] ps = finished ps
fill quote (String.◌∷◌ c s) ps =
    let rest = fill (next_quote quote c) s in
    if is_placeholder quote c then next_param ps rest else after_char c (rest ps)

interpolate-percent :
    (s : String) (ps : List String)
    → interpolate false (String.◌∷◌ "%" (String.◌∷◌ "%" s)) ps
      ≡ after_char "%" (interpolate false s ps)
unfolding interpolate
interpolate-percent s ps = refl

interpolate-param :
    (s : String) (ps : List String)
    → interpolate false (String.◌∷◌ "%" (String.◌∷◌ "s" s)) ps ≡ next_param ps (interpolate false s)
unfolding interpolate
interpolate-param s ps = refl

interpolate-plain :
    (c : Char) (s : String) (ps : List String)
    → is_percent c ≡ false
    → interpolate false (String.◌∷◌ c s) ps ≡ after_char c (interpolate false s ps)
unfolding interpolate
interpolate-plain c s ps n = rw n refl

percent_is : (c : Char) → is_percent c ≡ true → c ≡ "%"
percent_is c e = codes_equal c "%" (ground (arith, e))

-- A percent sign is doubled, and any other character is as it was.
interpolate-char :
    (c : Char) (s : String) (ps : List String)
    → interpolate false
        (if is_percent c then String.◌∷◌ "%" (String.◌∷◌ "%" s) else String.◌∷◌ c s)
        ps
      ≡ after_char c (interpolate false s ps)
interpolate-char c s ps = elim (Bool-cases (is_percent c)) [
  | inl y ↦ rw y (
      interpolate-percent s ps
      ∙ ap (λ d. after_char d (interpolate false s ps)) (sym (percent_is c y)))
  | inr n ↦ rw n (interpolate-plain c s ps n)
]

interpolate-translated :
    (quote : Option ℕ) (c : Char) (s : String) (ps : List String)
    → interpolate false (translated quote c s) ps ≡ (
        if is_placeholder quote c
        then next_param ps (interpolate false s)
        else after_char c (interpolate false s ps))
interpolate-translated (some k) c s ps = interpolate-char c s ps
interpolate-translated none c s ps = elim (Bool-cases (is_quote c)) [
  | inl y ↦
      let unmarked : is_qmark c ≡ false = ground (arith, y) in
      rw (y, unmarked) (interpolate-plain c s ps (ground (arith, y)))
  | inr n ↦ elim (Bool-cases (is_qmark c)) [
    | inl y ↦ rw (n, y) (interpolate-param s ps)
    | inr m ↦ rw (n, m) (interpolate-char c s ps)
  ]
]

pub next_param_same :
    (ps : List String) (f g : List String → Option String)
    → ((qs : List String) → f qs ≡ g qs)
    → next_param ps f ≡ next_param ps g
next_param_same [] f g h = refl
next_param_same (p ∷ qs) f g h = ap (after_text p) (h qs)

opened :
    (quote : Option ℕ) (c : Char) (s : String) (ps : List String)
    → interpolate false (translate_from quote (String.◌∷◌ c s)) ps
      ≡ interpolate false (translated quote c (translate_from (next_quote quote c) s)) ps
unfolding translate_from
opened quote c s ps = refl

filled :
    (quote : Option ℕ) (c : Char) (s : String) (ps : List String)
    → fill quote (String.◌∷◌ c s) ps ≡ (
        if is_placeholder quote c
        then next_param ps (fill (next_quote quote c) s)
        else after_char c (fill (next_quote quote c) s ps))
unfolding fill
filled quote c s ps = refl

if_same :
    (c : Bool) (a b x y : Option String)
    → a ≡ x
    → b ≡ y
    → (if c then a else b) ≡ (if c then x else y)
if_same true a b x y p q = p
if_same false a b x y p q = q

pub interpolate-translate_from :
    (quote : Option ℕ) (s : String) (ps : List String)
    → interpolate false (translate_from quote s) ps ≡ fill quote s ps
interpolate-translate_from quote String.[] ps = unfold interpolate translate_from fill in refl
interpolate-translate_from quote (String.◌∷◌ c s) ps =
    let q : Option ℕ = next_quote quote c in
    let rest : String = translate_from q s in
    opened quote c s ps
    ∙ interpolate-translated quote c rest ps
    ∙ if_same (is_placeholder quote c) (next_param ps (interpolate false rest))
        (after_char c (interpolate false rest ps)) (next_param ps (fill q s))
        (after_char c (fill q s ps))
        (next_param_same ps (interpolate false rest) (fill q s) (interpolate-translate_from q s))
        (ap (after_char c) (interpolate-translate_from q s ps))
    ∙ sym (filled quote c s ps)
