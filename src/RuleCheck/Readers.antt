-- ===== src/RuleCheck/Readers.antt =====
-- What the readers of app/rule_check.py accept, and what they yield then.
use smdr.RuleCheck.Spec.{
  is_point, are_handles, is_optional_text, is_target, is_part, are_points, is_outline, is_message,
  is_optional_point,
}
use smdr.Prelude.{
  refl, true, false, Bool, String, ◌≡◌, List, Option, none, Bool-cases, ℕ, ◌&&◌, [], inl, some, ◌∷◌,
  same, ◌⊎◌, inr, coalesce,
}
use smdr.RuleCheck.Values.{null, num, str, arr, obj, nil, cons, Value, Items}
use smdr.RuleCheck.{
  Checked, ok, err, bad_reply, unhashable, ◌>>=◌, one, fan, typed_point_list, typed_handle,
  typed_to, typed_point, check_text, point_of, check_points, handles_of, check_part, check,
  RuleError, Target,
}

abbrev pub is_ok {ℓ} : {A : Type ℓ} → Checked A → Bool
is_ok (ok a) = true
is_ok (err e) = false

-- A step that yields `a` if `b` holds, and raises otherwise.
pub data Tests {ℓ} {A : Type ℓ} (b : Bool) (a : A) : Checked A → Type ℓ where
  passes : b ≡ true → Tests b a (ok a)
  raises : (e : RuleError) → b ≡ false → Tests b a (err e)

pub check-Tests : (b : Bool) (place : String) → Tests {A = Unit {0}} b tt (check b place)
check-Tests true place = passes refl
check-Tests false place = raises (bad_reply place) refl

-- What the readers yield where they yield anything.
unfoldable pub text_of : Value → Option String
text_of null = none
text_of (str s) = some s
text_of _ = some ""

pub typed_handle-Tests :
    (place : String) (v : Value) → Tests (is_optional_text v) (text_of v) (typed_handle place v)
unfolding typed_handle is_optional_text text_of
typed_handle-Tests place null = passes refl
typed_handle-Tests place (str s) = passes refl
typed_handle-Tests place _ = raises (bad_reply place) refl

pub check_part-Tests : (v : Value) → Tests {A = Unit {0}} (is_part v) tt (check_part v)
unfolding check_part is_part
check_part-Tests (str p) = check-Tests _ "part"
check_part-Tests (arr vs) = raises unhashable refl
check_part-Tests (obj d) = raises unhashable refl
check_part-Tests _ = raises (bad_reply "part") refl

pub check_text-Tests : (v : Value) → Tests {A = Unit {0}} (is_message v) tt (check_text v)
unfolding check_text is_message
check_text-Tests (str s) = check-Tests _ "text"
check_text-Tests _ = raises (bad_reply "text") refl

point_of-cases :
    (v : Value)
    → ((is_point v ≡ true) × (p : ℕ × ℕ) × (point_of v ≡ some p))
      ⊎ ((is_point v ≡ false) × (point_of v ≡ none))
unfolding point_of is_point
point_of-cases (arr (cons (num x) (cons (num y) nil))) = inl (refl, (x, y), refl)
point_of-cases _ = inr (refl, refl)

unfoldable pub point_opt : Value → Option (ℕ × ℕ)
point_opt null = none
point_opt v = some (coalesce (point_of v) (0, 0))

point-Tests :
    (place : String) (v : Value)
    → Tests
        (is_point v)
        (some (coalesce (point_of v) (0, 0)))
        (elim (point_of v) as (λ _. Checked (Option (ℕ × ℕ))) [
          | none ↦ err (bad_reply place)
          | some p ↦ ok (some p)
        ])
point-Tests place v = elim (point_of-cases v) [
  | inl (y, p, e) ↦ rw e (passes y)
  | inr (n, e) ↦ rw e (raises (bad_reply place) n)
]

pub typed_point-Tests :
    (place : String) (v : Value) → Tests (is_optional_point v) (point_opt v) (typed_point place v)
unfolding typed_point is_optional_point point_opt
typed_point-Tests place null = passes refl
typed_point-Tests place (arr vs) = point-Tests place (arr vs)
typed_point-Tests place _ = point-Tests place _

check_points-Tests :
    (place : String) (vs : Items) → Tests {A = Unit {0}} (are_points vs) tt (check_points place vs)
unfolding check_points are_points
check_points-Tests place nil = passes refl
check_points-Tests place (cons v vs) = elim (point_of-cases v) [
  | inl (y, p, e) ↦ rw (e, y, check_points) (check_points-Tests place vs)
  | inr (n, e) ↦ rw (e, n, check_points) (raises (bad_reply place) refl)
]

pub typed_point_list-Tests :
    (place : String) (v : Value) → Tests {A = Unit {0}} (is_outline v) tt (typed_point_list place v)
unfolding typed_point_list is_outline
typed_point_list-Tests place null = passes refl
typed_point_list-Tests place (arr nil) = raises (bad_reply place) refl
typed_point_list-Tests place (arr (cons v vs)) = check_points-Tests place (cons v vs)
typed_point_list-Tests place _ = raises (bad_reply place) refl

unfoldable pub texts_of : Items → List String
texts_of nil = []
texts_of (cons (str s) vs) = s ∷ texts_of vs
texts_of (cons _ vs) = "" ∷ texts_of vs

unfoldable pub target_of : Value → Option Target
target_of null = none
target_of (str s) = some (one s)
target_of (arr (cons v vs)) = some (fan (texts_of (cons v vs)))
target_of _ = some (one "")

Tests-map {ℓ κ} :
    {A : Type ℓ} {B : Type κ} {b : Bool} {a : A} {m : Checked A} (f : A → B)
    → Tests b a m
    → Tests b (f a) (m >>= λ x. ok (f x))
unfolding ◌>>=◌
Tests-map f (passes h) = passes h
Tests-map f (raises e h) = raises e h

handles_of-Tests :
    (place : String) (vs : Items) → Tests (are_handles vs) (texts_of vs) (handles_of place vs)
unfolding handles_of are_handles texts_of is_message
handles_of-Tests place nil = passes refl
handles_of-Tests place (cons (str s) vs) = elim (Bool-cases (same s "")) [
  | inl e ↦ rw e (raises (bad_reply place) refl)
  | inr e ↦ rw e (Tests-map (λ ss. s ∷ ss) (handles_of-Tests place vs))
]
handles_of-Tests place (cons _ vs) = raises (bad_reply place) refl

pub typed_to-Tests :
    (place : String) (v : Value) → Tests (is_target v) (target_of v) (typed_to place v)
unfolding typed_to is_target target_of
typed_to-Tests place null = passes refl
typed_to-Tests place (str s) = passes refl
typed_to-Tests place (arr nil) = raises (bad_reply place) refl
typed_to-Tests place (arr (cons v vs)) =
    Tests-map (λ ss. some (fan ss)) (handles_of-Tests place (cons v vs))
typed_to-Tests place _ = raises (bad_reply place) refl

pub then_ok {ℓ κ} :
    {A : Type ℓ} {B : Type κ} {b : Bool} {a : A} {m : Checked A} (f : A → Checked B) {r : Bool}
    → Tests b a m
    → is_ok (f a) ≡ r
    → is_ok (m >>= f) ≡ (b && r)
unfolding ◌>>=◌
then_ok f (passes h) e = rw h e
then_ok f (raises q h) e = rw h refl
