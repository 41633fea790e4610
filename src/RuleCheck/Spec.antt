-- ===== src/RuleCheck/Spec.antt =====
-- The shape of a reply, as the documentation at the head of app/rule_check.py states it, apart from the
-- order in which the code looks and what it raises.
use smdr.Prelude.{Bool, true, false, ◌&&◌, ◌||◌, not, same}
use smdr.RuleCheck.Values.{
  Value, Items, Fields, null, bool, num, str, arr, obj, nil, cons, end, field, name, get, is_null,
}

abbrev pub is_set : Value → Bool
is_set v = not (is_null v)

abbrev pub implies : Bool → Bool → Bool
implies true b = b
implies false b = true

-- One of the six parts of a product. The contract that the code refers to
-- (openspec/specs/design-rule-checking/spec.md) lists five, without NovelLID.
unfoldable pub is_part : Value → Bool
is_part (str p) =
    same p "SBT"
    || same p "BD"
    || same p "POD"
    || same p "RING"
    || same p "LID"
    || same p "NovelLID"
is_part _ = false

unfoldable pub is_message : Value → Bool
is_message (str s) = not (same s "")
is_message _ = false

-- A text or None.
unfoldable pub is_optional_text : Value → Bool
is_optional_text null = true
is_optional_text (str s) = true
is_optional_text _ = false

unfoldable pub is_point : Value → Bool
is_point (arr (cons (num x) (cons (num y) nil))) = true
is_point _ = false

unfoldable pub is_optional_point : Value → Bool
unfolding is_point
is_optional_point null = true
is_optional_point v = is_point v

unfoldable pub are_points : Items → Bool
are_points nil = true
are_points (cons v vs) = is_point v && are_points vs

-- None, or a list of points that is not empty.
unfoldable pub is_outline : Value → Bool
is_outline null = true
is_outline (arr nil) = false
is_outline (arr (cons v vs)) = are_points (cons v vs)
is_outline _ = false

unfoldable pub are_handles : Items → Bool
are_handles nil = true
are_handles (cons v vs) = is_message v && are_handles vs

-- None, one handle, or a list of handles that is not empty.
unfoldable pub is_target : Value → Bool
is_target null = true
is_target (str s) = true
is_target (arr nil) = false
is_target (arr (cons v vs)) = are_handles (cons v vs)
is_target _ = false

-- Two texts are equal; where one is missing there is nothing to compare.
unfoldable pub is_alias : Value → Value → Bool
is_alias (str a) (str b) = same a b
is_alias _ _ = true

-- A sub-rule: the types of its fields, and the invariants that relate them.
unfoldable pub is_sub_rule : Fields → Bool
is_sub_rule d =
    let from_set = is_set (get d "from") || is_set (get d "from_entity") in
    let to_set = is_set (get d "to") in
    let tol_set = is_set (get d "tol") in
    is_part (get d "part")
    && is_message (get d "text")
    && is_optional_text (get d "file_id")
    && is_optional_text (get d "from")
    && is_optional_text (get d "from_entity")
    && is_alias (get d "from") (get d "from_entity")
    && is_target (get d "to")
    && is_optional_text (get d "tol")
    && is_optional_text (get d "tol_text")
    && is_optional_point (get d "from_coordinates")
    && is_optional_point (get d "to_coordinates")
    && (implies (is_set (get d "from_coordinates")) (is_set (get d "to_coordinates"))
        && implies (is_set (get d "to_coordinates")) (is_set (get d "from_coordinates")))
    && is_outline (get d "to_entity")
    && implies to_set from_set
    && implies (is_set (get d "tol_text")) tol_set
    && implies (from_set || to_set || tol_set) (is_set (get d "file_id"))

unfoldable pub are_sub_rules : Items → Bool
are_sub_rules nil = true
are_sub_rules (cons (obj d) vs) = is_sub_rule d && are_sub_rules vs
are_sub_rules (cons _ vs) = false

unfoldable pub is_rules : Value → Bool
is_rules (arr vs) = are_sub_rules vs
is_rules _ = false

unfoldable pub is_flag : Value → Bool
is_flag (bool b) = true
is_flag _ = false

unfoldable pub is_text : Value → Bool
is_text (str s) = true
is_text _ = false

-- A rule: a verdict, a text, and sub-rules. A missing key is None, which is none of these.
unfoldable pub is_rule : Fields → Bool
is_rule d = is_flag (get d "pass") && is_text (get d "text") && is_rules (get d "rules")

unfoldable pub is_rule_map : Fields → Bool
is_rule_map end = true
is_rule_map (field (name n) (obj d) more) = is_rule d && is_rule_map more
is_rule_map (field _ _ more) = false

-- A reply: a dict from the names of rules to rules.
unfoldable pub is_envelope : Value → Bool
is_envelope (obj d) = is_rule_map d
is_envelope _ = false
