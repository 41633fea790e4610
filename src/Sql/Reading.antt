-- ===== src/Sql/Reading.antt =====
-- Texts as statements of pieces, for `_qmark_to_format` of app/db.py.
use Prim.Native.Char.{Char, code}
use Prim.Native.String.{String}
use text.Mathlib.TextEquality.{codes_equal}
use text.Mathlib.TextLemmas.{cons-append, nil-append}
use smdr.Prelude.{
  true, false, List, [], ◌∷◌, ◌≡◌, refl, sym, ap, ◌∙◌, concat, arith, ◌==◌, All, Bool-cases, inl,
  inr,
}
use smdr.Sql.{is_quote, is_qmark}
use smdr.Sql.Pieces.{
  Piece, Ending, plain, mark, quoted, closed, unclosed, lacks, IsPiece, IsEnding, statement,
  concat-between,
}

-- A text as a statement.
record Reading (s : String) : Type 0 where
  pieces : List Piece
  ending : Ending
  well_formed : All IsPiece pieces
  well_ended : IsEnding ending
  text : statement pieces ending ≡ s

-- A text after a quote: without another such quote, or up to it and a statement from there on.
data Quotation (q : Char) (s : String) : Type 0 where
  open_ended : lacks q s ≡ true → Quotation q s
  ended :
      (body rest : String)
      → lacks q body ≡ true
      → Reading rest
      → s ≡ concat body (String.◌∷◌ q rest)
      → Quotation q s

read_quote : (q : Char) (s : String) → is_quote q ≡ true → Quotation q s → Reading (String.◌∷◌ q s)
unfolding statement
read_quote q s y (open_ended h) = record {
  pieces = [];
  ending = unclosed q s;
  well_formed = tt;
  well_ended = (y, h);
  text = refl;
}
read_quote q s y (ended body rest h r e) = record {
  pieces = quoted q body ∷ r.pieces;
  ending = r.ending;
  well_formed = ((y, h), r.well_formed);
  well_ended = r.well_ended;
  text =
      concat-between q body (statement r.pieces r.ending)
      ∙ ap (λ t. String.◌∷◌ q (concat body (String.◌∷◌ q t))) r.text
      ∙ ap (String.◌∷◌ q) (sym e);
}

read_char : (c : Char) (s : String) → is_quote c ≡ false → Reading s → Reading (String.◌∷◌ c s)
unfolding statement
read_char c s n r = elim (Bool-cases (is_qmark c)) [
  | inl y ↦ record {
    pieces = mark ∷ r.pieces;
    ending = r.ending;
    well_formed = (refl, r.well_formed);
    well_ended = r.well_ended;
    text =
        ap (String.◌∷◌ "?") r.text
        ∙ ap (λ d. String.◌∷◌ d s) (sym (codes_equal c "?" (ground (arith, y))));
  }
  | inr m ↦ record {
    pieces = plain c ∷ r.pieces;
    ending = r.ending;
    well_formed = ((n, m), r.well_formed);
    well_ended = r.well_ended;
    text = ap (String.◌∷◌ c) r.text;
  }
]

read_on : (q c : Char) (s : String) → Reading s → Quotation q s → Quotation q (String.◌∷◌ c s)
unfolding lacks
read_on q c s r inside = elim (Bool-cases (code c == code q)) [
  | inl y ↦ ended "" s refl r (
      ap (λ d. String.◌∷◌ d s) (codes_equal c q (ground (arith, y)))
      ∙ sym (nil-append (String.◌∷◌ q s)))
  | inr n ↦ elim inside [
    | open_ended h ↦ open_ended (ground (arith, n, h))
    | ended body rest h r' e ↦
        ended (String.◌∷◌ c body) rest (ground (arith, n, h)) r'
          (ap (String.◌∷◌ c) e ∙ sym (cons-append c body (String.◌∷◌ q rest)))
  ]
]

read : (s : String) → Reading s × ((q : Char) → Quotation q s)
unfolding statement lacks
read String.[] = (
  record { pieces = []; ending = closed; well_formed = tt; well_ended = refl; text = refl },
  λ q. open_ended refl,
)
read (String.◌∷◌ c s) =
    let (r, inside) = read s in
    (
      elim (Bool-cases (is_quote c)) [
        | inl y ↦ read_quote c s y (inside c)
        | inr n ↦ read_char c s n r
      ],
      λ q. read_on q c s r (inside q),
    )

-- Each text is a statement of well-formed pieces and a well-formed ending.
pub statement_covers :
    (s : String)
    → (ps : List Piece) × (e : Ending) × All IsPiece ps × IsEnding e × (statement ps e ≡ s)
statement_covers s =
    let r : Reading s = (read s).0 in (r.pieces, r.ending, r.well_formed, r.well_ended, r.text)
