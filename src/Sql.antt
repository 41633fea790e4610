-- ===== src/Sql.antt =====
-- The translation of SQL placeholders (`_qmark_to_format` of app/db.py) for a driver that interpolates a
-- statement in the style of printf.
use Prim.Native.Char.{Char, code}
use Prim.Native.String.{String, ◌++◌}
use smdr.Prelude.{
  ℕ, Bool, true, false, ◌||◌, Option, none, some, List, [], ◌∷◌, ◌==◌, if◌then◌else◌,
}
pub mod Fill
pub mod Pieces
pub mod Reading
mod Samples

abbrev pub is_char : ℕ → Char → Bool
is_char n c = code c == n

-- ' or "
abbrev pub is_quote : Char → Bool
is_quote c = is_char 39 c || is_char 34 c

abbrev pub is_qmark : Char → Bool
is_qmark c = is_char 63 c

abbrev pub is_percent : Char → Bool
is_percent c = is_char 37 c

-- The code of the quote that is open, after one more character.
abbrev pub next_quote : Option ℕ → Char → Option ℕ
next_quote none c = if is_quote c then some (code c) else none
next_quote (some k) c = if is_char k c then none else some k

-- What is appended for one character.
abbrev pub translated : Option ℕ → Char → String → String
translated (some k) c rest =
    if is_percent c then String.◌∷◌ "%" (String.◌∷◌ "%" rest) else String.◌∷◌ c rest
translated none c rest =
    if is_quote c
    then String.◌∷◌ c rest
    else if is_qmark c
    then String.◌∷◌ "%" (String.◌∷◌ "s" rest)
    else if is_percent c
    then String.◌∷◌ "%" (String.◌∷◌ "%" rest)
    else String.◌∷◌ c rest

unfoldable pub translate_from : Option ℕ → String → String
translate_from quote String.[] = String.[]
translate_from quote (String.◌∷◌ c s) = translated quote c (translate_from (next_quote quote c) s)

unfoldable pub qmark_to_format : String → String
qmark_to_format sql = translate_from none sql
