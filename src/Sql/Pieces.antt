-- ===== src/Sql/Pieces.antt =====
-- A statement by its quotations and placeholders, and what a driver makes of its translation by
-- `_qmark_to_format` of app/db.py.
use Prim.Native.Char.{Char, code}
use Prim.Native.String.{String}
use text.Mathlib.TextLemmas.{append_assoc, append-nil, cons-append, nil-append}
use smdr.Prelude.{
  Bool, true, false, Option, none, some, List, [], ◌∷◌, ◌≡◌, refl, ap, ◌∙◌, concat, sym, arith,
  ◌==◌, All, not, ◌&&◌,
}
use smdr.Sql.{is_quote, is_qmark, qmark_to_format}
use smdr.Sql.Fill.{
  after_char, after_text, next_param, finished, interpolate, fill, interpolate-translate_from,
  next_param_same,
}

-- A character that is no quote and no question mark, a question mark, or a text between two quotes.
pub data Piece : Type 0 where
  plain : Char → Piece
  mark : Piece
  quoted : Char → String → Piece

-- A statement ends after its last piece, or within a quotation that is not closed.
pub data Ending : Type 0 where
  closed : Ending
  unclosed : Char → String → Ending

unfoldable pub lacks : Char → String → Bool
lacks q String.[] = true
lacks q (String.◌∷◌ c s) = not (code c == code q) && lacks q s

-- The text between two quotes does not hold that quote.
abbrev pub IsPiece : Piece → Type 0
IsPiece (plain c) = (is_quote c ≡ false) × (is_qmark c ≡ false)
IsPiece mark = true ≡ true
IsPiece (quoted q body) = (is_quote q ≡ true) × (lacks q body ≡ true)

abbrev pub IsEnding : Ending → Type 0
IsEnding closed = true ≡ true
IsEnding (unclosed q body) = (is_quote q ≡ true) × (lacks q body ≡ true)

abbrev pub between : Char → String → String
between q body = String.◌∷◌ q (concat body (String.◌∷◌ q String.[]))

abbrev ending_text : Ending → String
ending_text closed = ""
ending_text (unclosed q body) = String.◌∷◌ q body

unfoldable pub statement : List Piece → Ending → String
statement [] e = ending_text e
statement (plain c ∷ ps) e = String.◌∷◌ c (statement ps e)
statement (mark ∷ ps) e = String.◌∷◌ "?" (statement ps e)
statement (quoted q body ∷ ps) e = concat (between q body) (statement ps e)

-- The statement with its question marks replaced by the parameters; `none` if these are too few or too
-- many.
unfoldable pub fill_pieces : List Piece → Ending → List String → Option String
fill_pieces [] e params = after_text (ending_text e) (finished params)
fill_pieces (plain c ∷ ps) e params = after_char c (fill_pieces ps e params)
fill_pieces (mark ∷ ps) e params = next_param params (fill_pieces ps e)
fill_pieces (quoted q body ∷ ps) e params = after_text (between q body) (fill_pieces ps e params)

pub concat-between :
    (q : Char) (body rest : String)
    → concat (between q body) rest ≡ String.◌∷◌ q (concat body (String.◌∷◌ q rest))
concat-between q body rest =
    cons-append q (concat body (String.◌∷◌ q String.[])) rest
    ∙ ap (String.◌∷◌ q) (
        append_assoc body (String.◌∷◌ q String.[]) rest
        ∙ ap (concat body) (cons-append q String.[] rest ∙ ap (String.◌∷◌ q) (nil-append rest)))

after_text-nil : (o : Option String) → after_text String.[] o ≡ o
after_text-nil none = refl
after_text-nil (some t) = ap some (nil-append t)

after_text-cons :
    (c : Char) (s : String) (o : Option String)
    → after_text (String.◌∷◌ c s) o ≡ after_char c (after_text s o)
after_text-cons c s none = refl
after_text-cons c s (some t) = ap some (cons-append c s t)

after_text-concat :
    (s t : String) (o : Option String) → after_text (concat s t) o ≡ after_text s (after_text t o)
after_text-concat s t none = refl
after_text-concat s t (some u) = ap some (append_assoc s t u)

-- Within a quotation every character is kept up to its end.
fill-body :
    (q : Char) (body rest : String) (params : List String)
    → lacks q body ≡ true
    → fill (some (code q)) (concat body rest) params
      ≡ after_text body (fill (some (code q)) rest params)
unfolding fill lacks
fill-body q String.[] rest params h =
    ap (λ s. fill (some (code q)) s params) (nil-append rest)
    ∙ sym (after_text-nil (fill (some (code q)) rest params))
fill-body q (String.◌∷◌ c s) rest params h =
    ap (λ t. fill (some (code q)) t params) (cons-append c s rest)
    ∙ rw (kept) (ap (after_char c) (fill-body q s rest params (ground (arith, h))))
    ∙ sym (after_text-cons c s (fill (some (code q)) rest params))
  where
    kept : (code c == code q) ≡ false
    kept = ground (arith, h)

fill_last :
    (q : Char) (rest : String) (params : List String)
    → fill (some (code q)) (String.◌∷◌ q rest) params ≡ after_char q (fill none rest params)
unfolding fill
fill_last q rest params = ground arith

fill_first :
    (q : Char) (rest : String) (params : List String)
    → is_quote q ≡ true
    → fill none (String.◌∷◌ q rest) params ≡ after_char q (fill (some (code q)) rest params)
unfolding fill
fill_first q rest params h =
    let unmarked : is_qmark q ≡ false = ground (arith, h) in rw (h, unmarked) refl

fill_plain :
    (c : Char) (rest : String) (params : List String)
    → is_quote c ≡ false
    → is_qmark c ≡ false
    → fill none (String.◌∷◌ c rest) params ≡ after_char c (fill none rest params)
unfolding fill
fill_plain c rest params h m = rw (h, m) refl

fill_mark :
    (rest : String) (params : List String)
    → fill none (String.◌∷◌ "?" rest) params ≡ next_param params (fill none rest)
unfolding fill
fill_mark rest params = refl

fill-between :
    (q : Char) (body rest : String) (params : List String)
    → is_quote q ≡ true
    → lacks q body ≡ true
    → fill none (concat (between q body) rest) params
      ≡ after_text (between q body) (fill none rest params)
fill-between q body rest params h l =
    ap (λ s. fill none s params) (concat-between q body rest)
    ∙ fill_first q (concat body (String.◌∷◌ q rest)) params h
    ∙ ap (after_char q) (
        fill-body q body (String.◌∷◌ q rest) params l
        ∙ ap (after_text body) (
            fill_last q rest params
            ∙ ap (after_char q) (sym (after_text-nil (fill none rest params)))
            ∙ sym (after_text-cons q String.[] (fill none rest params)))
        ∙ sym (after_text-concat body (String.◌∷◌ q String.[]) (fill none rest params)))
    ∙ sym (after_text-cons q (concat body (String.◌∷◌ q String.[])) (fill none rest params))

fill-ending :
    (e : Ending) (params : List String)
    → IsEnding e
    → fill none (ending_text e) params ≡ after_text (ending_text e) (finished params)
unfolding fill
fill-ending closed params h = sym (after_text-nil (finished params))
fill-ending (unclosed q body) params h =
    fill_first q body params h.0
    ∙ ap (after_char q) (
        ap (λ s. fill (some (code q)) s params) (sym (append-nil body))
        ∙ fill-body q body String.[] params h.1)
    ∙ sym (after_text-cons q body (finished params))

fill-statement :
    (ps : List Piece) (e : Ending) (params : List String)
    → All IsPiece ps
    → IsEnding e
    → fill none (statement ps e) params ≡ fill_pieces ps e params
unfolding statement fill_pieces
fill-statement [] e params h end = fill-ending e params end
fill-statement (plain c ∷ ps) e params h end =
    fill_plain c (statement ps e) params h.0.0 h.0.1
    ∙ ap (after_char c) (fill-statement ps e params h.1 end)
fill-statement (mark ∷ ps) e params h end =
    fill_mark (statement ps e) params
    ∙ next_param_same params (fill none (statement ps e)) (fill_pieces ps e)
        (λ qs. fill-statement ps e qs h.1 end)
fill-statement (quoted q body ∷ ps) e params h end =
    fill-between q body (statement ps e) params h.0.0 h.0.1
    ∙ ap (after_text (between q body)) (fill-statement ps e params h.1 end)

-- For a statement of plain characters, question marks and texts between two quotes of a kind, which may
-- end within a quotation: a driver that interpolates its translation, where `%%` is a percent sign and
-- `%s` the next parameter, gets the statement with the question marks outside quotations replaced by the
-- parameters in turn and all else, percent signs and quoted texts, as it was; and it fails exactly if
-- there are more or fewer parameters than such question marks.
pub qmark_to_format-fill_pieces :
    (ps : List Piece) (e : Ending) (params : List String)
    → All IsPiece ps
    → IsEnding e
    → interpolate false (qmark_to_format (statement ps e)) params ≡ fill_pieces ps e params
unfolding qmark_to_format
qmark_to_format-fill_pieces ps e params h end =
    interpolate-translate_from none (statement ps e) params ∙ fill-statement ps e params h end
