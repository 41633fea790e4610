-- ===== src/RuleCheck/Values.antt =====
-- The Python values that the external rule checker may return, as far as app/rule_check.py tells them
-- apart. A finite int or float is the number that stands for it.
use smdr.Prelude.{ℕ, String, Bool, true, false, same, if◌then◌else◌}

-- A key of a dict: a text, or anything else.
pub data Key : Type 0 where
  name : String → Key
  odd : Key

mutual
  pub data Value : Type 0 where
    null : Value
    bool : Bool → Value
    num : ℕ → Value
    non_finite : Value
    str : String → Value
    arr : Items → Value
    obj : Fields → Value
    other : Value

  pub data Items : Type 0 where
    nil : Items
    cons : Value → Items → Items

  pub data Fields : Type 0 where
    end : Fields
    field : Key → Value → Fields → Fields

-- d.get(k): None where the key is missing
unfoldable pub get : Fields → String → Value
get end k = null
get (field odd v d) k = get d k
get (field (name n) v d) k = if same n k then v else get d k

-- k in d
unfoldable pub has : Fields → String → Bool
has end k = false
has (field odd v d) k = has d k
has (field (name n) v d) k = if same n k then true else has d k

abbrev pub is_null : Value → Bool
is_null null = true
is_null _ = false
