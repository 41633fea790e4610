-- ===== src/RuleCheck.antt =====
-- The validation of the external rule checker's reply, by app/rule_check.py. `check_rules` returns the
-- reply that `validate_envelope` accepts, and raises what it raises otherwise.
use smdr.Prelude.{
  ℕ, String, Bool, true, false, ◌&&◌, ◌||◌, not, Option, none, some, List, [], ◌∷◌, same, is_some,
  if◌then◌else◌,
}
pub mod Values
pub mod Spec
pub mod Readers
pub mod SubRules
pub mod Envelope
mod Samples
use smdr.RuleCheck.Values.{
  Value, Items, Fields, Key, null, bool, num, non_finite, str, arr, obj, other, nil, cons, end,
  field, name, odd, get, has, is_null,
}

-- The ways to raise: `bad_reply` is a RuleCheckOutputError, with the place that its message names;
-- `unhashable` is the TypeError of `part not in _VALID_PARTS` where the part is a list or a dict.
pub data RuleError : Type 0 where
  bad_reply : String → RuleError
  unhashable : RuleError

pub data Checked {ℓ} (A : Type ℓ) : Type ℓ where
  ok : A → Checked A
  err : RuleError → Checked A

infixl 5 ◌>>=◌ ◌>>◌
unfoldable pub ◌>>=◌ {ℓ κ} : {A : Type ℓ} {B : Type κ} → Checked A → (A → Checked B) → Checked B
ok a >>= f = f a
err e >>= f = err e

abbrev pub ◌>>◌ {ℓ} : {B : Type ℓ} → Checked (Unit {0}) → Checked B → Checked B
m >> k = m >>= λ _. k

-- if not b: raise RuleCheckOutputError
abbrev pub check : Bool → String → Checked (Unit {0})
check true place = ok tt
check false place = err (bad_reply place)

-- ---- the readers of a field
-- _typed_handle, on `sub.get(key)`; also the checks of `file_id` and `tol_text`.
unfoldable pub typed_handle : String → Value → Checked (Option String)
typed_handle place null = ok none
typed_handle place (str s) = ok (some s)
typed_handle place _ = err (bad_reply place)

-- [number, number] of finite numbers
unfoldable pub point_of : Value → Option (ℕ × ℕ)
point_of (arr (cons (num x) (cons (num y) nil))) = some (x, y)
point_of _ = none

unfoldable pub typed_point : String → Value → Checked (Option (ℕ × ℕ))
typed_point place null = ok none
typed_point place v = elim (point_of v) [ none ↦ err (bad_reply place) | some p ↦ ok (some p) ]

-- The loop of _typed_point_list.
unfoldable pub check_points : String → Items → Checked (Unit {0})
check_points place nil = ok tt
check_points place (cons v vs) =
    let rest = check_points place vs in
    elim (point_of v) [ none ↦ err (bad_reply place) | some p ↦ rest ]

unfoldable pub typed_point_list : String → Value → Checked (Unit {0})
unfolding check_points
typed_point_list place null = ok tt
typed_point_list place (arr nil) = err (bad_reply place)
typed_point_list place (arr vs) = check_points place vs
typed_point_list place _ = err (bad_reply place)

-- What `to` holds: one handle, or a list of them.
pub data Target : Type 0 where
  one : String → Target
  fan : List String → Target

-- The loop of _typed_to over the handles of a list.
unfoldable pub handles_of : String → Items → Checked (List String)
handles_of place nil = ok []
handles_of place (cons (str s) vs) =
    let rest = handles_of place vs >>= λ ss. ok (s ∷ ss) in
    if same s "" then err (bad_reply place) else rest
handles_of place (cons _ vs) = err (bad_reply place)

unfoldable pub typed_to : String → Value → Checked (Option Target)
unfolding handles_of
typed_to place null = ok none
typed_to place (str s) = ok (some (one s))
typed_to place (arr nil) = err (bad_reply place)
typed_to place (arr vs) = handles_of place vs >>= λ ss. ok (some (fan ss))
typed_to place _ = err (bad_reply place)

abbrev pub has_to_value : Option Target → Bool
has_to_value none = false
has_to_value (some (one s)) = true
has_to_value (some (fan [])) = false
has_to_value (some (fan (s ∷ ss))) = true

-- part not in _VALID_PARTS
unfoldable pub check_part : Value → Checked (Unit {0})
check_part (str p) =
    check
      (same p "SBT"
        || same p "BD"
        || same p "POD"
        || same p "RING"
        || same p "LID"
        || same p "NovelLID")
      "part"
check_part (arr vs) = err unhashable
check_part (obj d) = err unhashable
check_part _ = err (bad_reply "part")

unfoldable pub check_text : Value → Checked (Unit {0})
check_text (str s) = check (not (same s "")) "text"
check_text _ = err (bad_reply "text")

-- `from` and `from_entity` are both set and differ.
abbrev pub disagree : Option String → Option String → Bool
disagree none b = false
disagree (some a) none = false
disagree (some a) (some b) = not (same a b)

-- from_coords is None != to_coords is None
abbrev pub same_presence {ℓ} : {A : Type ℓ} → Option A → Option A → Bool
same_presence none b = not (is_some b)
same_presence (some a) b = is_some b

-- ---- _validate_sub_rule, on a dict
unfoldable pub check_sub_rule : Fields → Checked (Unit {0})
unfolding check_part check_text
check_sub_rule sub = do
  check_part (get sub "part")
  check_text (get sub "text")
  file_id ← typed_handle "file_id" (get sub "file_id")
  frm ← typed_handle "from" (get sub "from")
  from_entity ← typed_handle "from_entity" (get sub "from_entity")
  check (not (disagree frm from_entity)) "from_entity"
  to ← typed_to "to" (get sub "to")
  tol ← typed_handle "tol" (get sub "tol")
  tol_text ← typed_handle "tol_text" (get sub "tol_text")
  from_coords ← typed_point "from_coordinates" (get sub "from_coordinates")
  to_coords ← typed_point "to_coordinates" (get sub "to_coordinates")
  check (same_presence from_coords to_coords) "to_coordinates"
  typed_point_list "to_entity" (get sub "to_entity")
  check (not (has_to_value to && not (is_some frm || is_some from_entity))) "to"
  check (not (is_some tol_text && not (is_some tol))) "tol_text"
  check
      (not (
        ((is_some frm || is_some from_entity) || has_to_value to || is_some tol)
        && not (is_some file_id)))
      "file_id"

unfoldable pub validate_sub_rule : Value → Checked (Unit {0})
validate_sub_rule (obj sub) = check_sub_rule sub
validate_sub_rule _ = err (bad_reply "sub-rule")

-- The loop over the sub-rules.
unfoldable pub validate_sub_rules : Items → Checked (Unit {0})
validate_sub_rules nil = ok tt
validate_sub_rules (cons v vs) = validate_sub_rule v >> validate_sub_rules vs

unfoldable pub check_pass : Value → Checked (Unit {0})
check_pass (bool b) = ok tt
check_pass _ = err (bad_reply "pass")

unfoldable pub check_rule_text : Value → Checked (Unit {0})
check_rule_text (str s) = ok tt
check_rule_text _ = err (bad_reply "text")

unfoldable pub check_sub_rules : Value → Checked (Unit {0})
check_sub_rules (arr vs) = validate_sub_rules vs
check_sub_rules _ = err (bad_reply "rules")

-- ---- _validate_rule: the name, the payload, its three keys and their types
unfoldable pub check_rule : Fields → Checked (Unit {0})
unfolding check_pass check_rule_text check_sub_rules
check_rule payload = do
  check (has payload "pass") "missing pass"
  check (has payload "text") "missing text"
  check (has payload "rules") "missing rules"
  check_pass (get payload "pass")
  check_rule_text (get payload "text")
  check_sub_rules (get payload "rules")

unfoldable pub validate_rule : Key → Value → Checked (Unit {0})
validate_rule odd payload = err (bad_reply "rule name")
validate_rule (name n) (obj payload) = check_rule payload
validate_rule (name n) _ = err (bad_reply "payload")

unfoldable pub validate_rules : Fields → Checked (Unit {0})
validate_rules end = ok tt
validate_rules (field k v d) = validate_rule k v >> validate_rules d

unfoldable pub validate_envelope : Value → Checked (Unit {0})
validate_envelope (obj d) = validate_rules d
validate_envelope _ = err (bad_reply "result")

-- `reply` is what the external `check_rules` returned.
unfoldable pub check_rules : Value → Checked Value
check_rules reply = validate_envelope reply >>= λ _. ok reply
