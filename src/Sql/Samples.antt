-- ===== src/Sql/Samples.antt =====
-- A statement with a placeholder, a quoted question mark and a pattern.
use smdr.Prelude.{String, ◌≡◌, refl, some, [], ◌∷◌, false, List}
use smdr.Sql.{qmark_to_format, translate_from}
use smdr.Sql.Fill.{interpolate}
use smdr.Sql.Pieces.{
  Piece, plain, mark, quoted, closed, lacks, statement, fill_pieces, qmark_to_format-fill_pieces,
}

abbrev sql : String
sql = "id = ? AND name LIKE '%?%'"

translated_sql : qmark_to_format sql ≡ "id = %s AND name LIKE '%%?%%'"
unfolding qmark_to_format translate_from
translated_sql = refl

abbrev pieces : List Piece
pieces =
    plain "i"
    ∷ plain "d"
    ∷ plain "="
    ∷ mark
    ∷ plain "&"
    ∷ quoted "'" "%?\"%"
    ∷ plain "%"
    ∷ mark
    ∷ []

written : statement pieces closed ≡ "id=?&'%?\"%'%?"
unfolding statement
written = refl

filled : fill_pieces pieces closed ("7" ∷ "8" ∷ []) ≡ some "id=7&'%?\"%'%8"
unfolding fill_pieces
filled = refl

qmark_to_format-fill_pieces_example :
    interpolate false (qmark_to_format (statement pieces closed)) ("7" ∷ "8" ∷ [])
    ≡ fill_pieces pieces closed ("7" ∷ "8" ∷ [])
unfolding lacks
qmark_to_format-fill_pieces_example =
    qmark_to_format-fill_pieces pieces closed ("7" ∷ "8" ∷ [])
      (
        (refl, refl),
        (
          (refl, refl),
          ((refl, refl), (refl, ((refl, refl), ((refl, refl), ((refl, refl), (refl, tt)))))),
        ),
      )
      refl
