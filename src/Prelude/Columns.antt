-- ===== src/Prelude/Columns.antt =====
-- Comparisons with a nullable column: SQL's `c < n` and `c = t` do not hold of NULL, and COALESCE.
use Prim.Native.String.{String}
use mathlib.Core.Bool.{Bool, false}
use mathlib.Core.Option.{Option, none, some}
use mathlib.Core.Path.{◌≡◌}
use native.Mathlib.Omega.{arith}
use text.Mathlib.TextEquality.{eq_iff}
use text.Mathlib.Text.{◌==◌ as same}

-- c = t
abbrev pub same_col : Option String → String → Bool
same_col none t = false
same_col (some s) t = same s t

-- COALESCE(c, d)
abbrev pub coalesce {ℓ} : {A : Type ℓ} → Option A → A → A
coalesce none d = d
coalesce (some a) d = a

-- c IS NOT NULL
abbrev pub is_some {ℓ} : {A : Type ℓ} → Option A → Bool
is_some none = false
is_some (some _) = Bool.true

pub same_swap : (s t : String) → same s t ≡ same t s
same_swap s t = ground (arith, eq_iff s t, eq_iff t s)
