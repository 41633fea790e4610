-- ===== src/RuleCheck/Samples.antt =====
-- Replies of the external rule checker that app/rule_check.py accepts or refuses.
use smdr.RuleCheck.Values.{
  Value, Fields, bool, str, arr, obj, nil, cons, end, field, name, get, has,
}
use smdr.RuleCheck.{
  ok, err, bad_reply, unhashable, check_rules, validate_envelope, validate_rules, validate_rule,
  check_rule, check_sub_rule, validate_sub_rule, validate_sub_rules, ◌>>=◌, typed_handle, typed_to,
  typed_point, typed_point_list,
}
use smdr.RuleCheck.Envelope.{Judged, check_rules-Judged}
use smdr.Prelude.{false, refl, ◌≡◌}

abbrev distance : Fields
distance = field (name "part") (str "LID") (
    field (name "text") (str "too close") (
      field (name "file_id") (str "f1") (
        field (name "from") (str "2A")
          (field (name "to") (arr (cons (str "2B") (cons (str "2C") nil))) end))))

abbrev reply_of : Value → Value
reply_of sub = obj (
    field (name "gap")
      (obj (
        field (name "pass") (bool false)
          (field (name "text") (str "gap") (field (name "rules") (arr (cons sub nil)) end))))
      end)

distance_accepted : check_rules (reply_of (obj distance)) ≡ ok (reply_of (obj distance))
unfolding check_rules validate_envelope validate_rules ◌>>=◌ validate_rule check_rule has get
    validate_sub_rules validate_sub_rule check_sub_rule typed_handle typed_to typed_point
    typed_point_list
distance_accepted = refl

-- A handle needs the file that it is of.
no_file :
    check_rules (
      reply_of (
        obj (
          field
            (name "part")
            (str "LID")
            (field (name "text") (str "t") (field (name "tol") (str "9") end)))))
    ≡ err (bad_reply "file_id")
unfolding check_rules validate_envelope validate_rules ◌>>=◌ validate_rule check_rule has get
    validate_sub_rules validate_sub_rule check_sub_rule typed_handle typed_to typed_point
    typed_point_list
no_file = refl

-- A part that is a list is no member of the set of parts: looking it up raises a TypeError.
part_list : check_rules (reply_of (obj (field (name "part") (arr nil) end))) ≡ err unhashable
unfolding check_rules validate_envelope validate_rules ◌>>=◌ validate_rule check_rule has get
    validate_sub_rules validate_sub_rule check_sub_rule
part_list = refl

check_rules-Judged_example :
    Judged (reply_of (obj distance)) (check_rules (reply_of (obj distance)))
check_rules-Judged_example = check_rules-Judged (reply_of (obj distance))
