-- ===== src/RuleCheck/SubRules.antt =====
-- The validation of a sub-rule accepts exactly what has the shape of Spec.
use smdr.RuleCheck.Spec.{is_optional_text, is_alias, is_sub_rule, implies, is_set}
use smdr.Prelude.{
  none, refl, true, false, Bool, Option, is_some, not, ℕ, ◌&&◌, String, ◌≡◌, arith, Bool-cases, inr,
  inl, ◌∙◌, some,
}
use smdr.RuleCheck.Values.{null, str, arr, nil, cons, get, Value, Fields}
use smdr.RuleCheck.Readers.{
  is_ok, text_of, target_of, point_opt, texts_of, then_ok, check_part-Tests, check_text-Tests,
  typed_handle-Tests, check-Tests, typed_to-Tests, typed_point-Tests, typed_point_list-Tests,
}
use smdr.RuleCheck.{check_sub_rule, disagree, has_to_value, same_presence, check}

-- What the later tests see of a value that was read.
is_some-text_of : (v : Value) → is_some (text_of v) ≡ is_set v
unfolding text_of
is_some-text_of null = refl
is_some-text_of (str s) = refl
is_some-text_of _ = refl

has_to_value-target_of : (v : Value) → has_to_value (target_of v) ≡ is_set v
unfolding target_of texts_of
has_to_value-target_of null = refl
has_to_value-target_of (str s) = refl
has_to_value-target_of (arr nil) = refl
has_to_value-target_of (arr (cons (str s) vs)) = refl
has_to_value-target_of (arr (cons v vs)) = refl
has_to_value-target_of _ = refl

is_some-point_opt : (v : Value) → is_some (point_opt v) ≡ is_set v
unfolding point_opt
is_some-point_opt null = refl
is_some-point_opt _ = refl

same_presence-is_some :
    (a b : Option (ℕ × ℕ))
    → same_presence a b ≡ (implies (is_some a) (is_some b) && implies (is_some b) (is_some a))
same_presence-is_some none none = refl
same_presence-is_some none (some b) = refl
same_presence-is_some (some a) none = refl
same_presence-is_some (some a) (some b) = refl

disagree-is_alias :
    (a b : Value)
    → is_optional_text a ≡ true
    → is_optional_text b ≡ true
    → not (disagree (text_of a) (text_of b)) ≡ is_alias a b
unfolding is_optional_text text_of is_alias
disagree-is_alias null null h k = refl
disagree-is_alias null (str t) h k = refl
disagree-is_alias null _ h k = cc
disagree-is_alias (str s) null h k = refl
disagree-is_alias (str s) (str t) h k = ground arith
disagree-is_alias (str s) _ h k = cc
disagree-is_alias _ b h k = cc

pub is_ok-check : (b : Bool) (place : String) → is_ok (check b place) ≡ b
is_ok-check true place = refl
is_ok-check false place = refl

implies-not : (a b : Bool) → not (a && not b) ≡ implies a b
implies-not true true = refl
implies-not true false = refl
implies-not false b = refl

alias_agrees :
    (a b : Value) (r : Bool)
    → (is_optional_text a && (is_optional_text b && (not (disagree (text_of a) (text_of b)) && r)))
      ≡ (is_optional_text a && (is_optional_text b && (is_alias a b && r)))
alias_agrees a b r = elim (Bool-cases (is_optional_text a)) [
  | inr n ↦ rw n refl
  | inl y ↦ elim (Bool-cases (is_optional_text b)) [
    | inr n ↦ rw (y, n) refl
    | inl z ↦ rw (y, z, disagree-is_alias a b y z) refl
  ]
]

and_assoc : (a b c : Bool) → ((a && b) && c) ≡ (a && (b && c))
and_assoc true b c = refl
and_assoc false b c = refl

pub check_sub_rule-is_sub_rule : (d : Fields) → is_ok (check_sub_rule d) ≡ is_sub_rule d
unfolding check_sub_rule is_sub_rule
check_sub_rule-is_sub_rule d =
    then_ok _ (check_part-Tests (get d "part")) (
      then_ok _ (check_text-Tests (get d "text")) (
        then_ok _ (typed_handle-Tests "file_id" (get d "file_id")) (
          then_ok _ (typed_handle-Tests "from" (get d "from")) (
            then_ok _ (typed_handle-Tests "from_entity" (get d "from_entity")) (
              then_ok _ (check-Tests _ "from_entity") (
                then_ok _ (typed_to-Tests "to" (get d "to")) (
                  then_ok _ (typed_handle-Tests "tol" (get d "tol")) (
                    then_ok _ (typed_handle-Tests "tol_text" (get d "tol_text")) (
                      then_ok _ (typed_point-Tests "from_coordinates" (get d "from_coordinates")) (
                        then_ok _ (typed_point-Tests "to_coordinates" (get d "to_coordinates")) (
                          then_ok _ (check-Tests _ "to_coordinates") (
                            then_ok _ (typed_point_list-Tests "to_entity" (get d "to_entity")) (
                              then_ok _ (check-Tests _ "to") (
                                then_ok _ (check-Tests _ "tol_text")
                                  (is_ok-check _ "file_id")))))))))))))))
    ∙ simp
        (
          alias_agrees, same_presence-is_some, is_some-text_of, has_to_value-target_of,
          is_some-point_opt, implies-not,
        )
        (unfold is_sub_rule in (simp and_assoc))
