-- ===== src/RuleCheck/Envelope.antt =====
-- The validation of a whole reply accepts exactly what has the shape of Spec.
use smdr.RuleCheck.SubRules.{check_sub_rule-is_sub_rule, is_ok-check}
use smdr.RuleCheck.Spec.{
  is_rule_map, are_sub_rules, is_rule, is_envelope, is_flag, is_rules, is_text,
}
use smdr.Prelude.{true, false, refl, ◌&&◌, ◌≡◌, String, Bool, ◌∙◌, Bool-cases, inl, inr, sym, arith}
use smdr.RuleCheck.Values.{
  null, bool, str, arr, obj, nil, cons, end, field, name, odd, get, Value, has, Fields, Items,
}
use smdr.RuleCheck.Readers.{is_ok}
use smdr.RuleCheck.{
  Checked, ok, err, ◌>>=◌, ◌>>◌, check_rules, validate_rules, validate_sub_rules, check_rule,
  validate_envelope, RuleError, validate_sub_rule, validate_rule, check_sub_rule, check_rule_text,
  check_sub_rules, check_pass,
}

is_ok-then : (m k : Checked (Unit {0})) → is_ok (m >> k) ≡ (is_ok m && is_ok k)
unfolding ◌>>=◌
is_ok-then (ok u) k = refl
is_ok-then (err e) k = refl

validate_sub_rules-are_sub_rules : (vs : Items) → is_ok (validate_sub_rules vs) ≡ are_sub_rules vs
unfolding validate_sub_rules are_sub_rules validate_sub_rule ◌>>=◌
validate_sub_rules-are_sub_rules nil = refl
validate_sub_rules-are_sub_rules (cons (obj d) vs) =
    is_ok-then (check_sub_rule d) (validate_sub_rules vs)
    ∙ rw (check_sub_rule-is_sub_rule d, validate_sub_rules-are_sub_rules vs) refl
validate_sub_rules-are_sub_rules (cons _ vs) = refl

-- A key that is missing reads as None.
get-has : (d : Fields) (k : String) → has d k ≡ false → get d k ≡ null
unfolding has get
get-has end k e = refl
get-has (field odd v d) k e = get-has d k e
get-has (field (name n) v d) k e = ground (arith, get-has d k)

is_ok-has :
    (d : Fields) (k : String) (test : Value → Bool)
    → test null ≡ false
    → (has d k && test (get d k)) ≡ test (get d k)
is_ok-has d k test n = elim (Bool-cases (has d k)) [
  | inl y ↦ rw y refl
  | inr e ↦ rw (e, get-has d k e, n) refl
]

is_ok-check_pass : (v : Value) → is_ok (check_pass v) ≡ is_flag v
unfolding check_pass is_flag
is_ok-check_pass (bool b) = refl
is_ok-check_pass _ = refl

is_ok-check_rule_text : (v : Value) → is_ok (check_rule_text v) ≡ is_text v
unfolding check_rule_text is_text
is_ok-check_rule_text (str s) = refl
is_ok-check_rule_text _ = refl

is_ok-check_sub_rules : (v : Value) → is_ok (check_sub_rules v) ≡ is_rules v
unfolding check_sub_rules is_rules
is_ok-check_sub_rules (arr vs) = validate_sub_rules-are_sub_rules vs
is_ok-check_sub_rules _ = refl

check_rule-is_rule : (d : Fields) → is_ok (check_rule d) ≡ is_rule d
unfolding check_rule is_rule is_flag is_text is_rules
check_rule-is_rule d =
    simp (is_ok-then, is_ok-check, is_ok-check_pass, is_ok-check_rule_text, is_ok-check_sub_rules)
      (ground (
        arith,
        is_ok-has d "pass" is_flag refl,
        is_ok-has d "text" is_text refl,
        is_ok-has d "rules" is_rules refl,
      ))

validate_rules-is_rule_map : (d : Fields) → is_ok (validate_rules d) ≡ is_rule_map d
unfolding validate_rules is_rule_map validate_rule ◌>>=◌
validate_rules-is_rule_map end = refl
validate_rules-is_rule_map (field (name n) (obj d) more) =
    is_ok-then (check_rule d) (validate_rules more)
    ∙ rw (check_rule-is_rule d, validate_rules-is_rule_map more) refl
validate_rules-is_rule_map (field odd v more) = refl
validate_rules-is_rule_map (field (name n) _ more) = refl

-- A reply that is accepted is returned as it is.
pub data Judged (reply : Value) : Checked Value → Type 0 where
  accepted : is_envelope reply ≡ true → Judged reply (ok reply)
  refused : (e : RuleError) → is_envelope reply ≡ false → Judged reply (err e)

validate_envelope-is_envelope :
    (reply : Value) → is_ok (validate_envelope reply) ≡ is_envelope reply
unfolding validate_envelope is_envelope
validate_envelope-is_envelope (obj d) = validate_rules-is_rule_map d
validate_envelope-is_envelope _ = refl

judge :
    (reply : Value) (m : Checked (Unit {0}))
    → is_ok m ≡ is_envelope reply
    → Judged reply (m >>= λ _. ok reply)
unfolding ◌>>=◌
judge reply (ok u) h = accepted (sym h)
judge reply (err e) h = refused e (sym h)

-- `check_rules` returns the reply of the external checker, unchanged, exactly if it has the shape that
-- the documentation at the head of app/rule_check.py gives, with its six parts (NovelLID among them),
-- and raises otherwise.
pub check_rules-Judged : (reply : Value) → Judged reply (check_rules reply)
unfolding check_rules
check_rules-Judged reply =
    judge reply (validate_envelope reply) (validate_envelope-is_envelope reply)
