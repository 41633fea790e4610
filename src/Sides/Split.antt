-- ===== src/Sides/Split.antt =====
-- What `split_matches_by_side` of app/side_regions.py counts and groups.
use smdr.Sides.Placing.{is_on, seen_on, side_prefix_for-is_on}
use smdr.Sides.Counting.{
  kept-counted, count_of, total, total-add_match, count_of-counted, count_of-dropped, kept,
}
use smdr.Table.Inserts.{append_nil}
use smdr.Sides.Groups.{
  same_side, under, key_of, same_side-eq, prefixed_key-key_of, under-add_match,
  under-add_match_other, key_of-apart,
}
use smdr.Table.{select}
use smdr.Prelude.{
  ◌+◌, String, Bool, true, false, ◌≡◌, refl, Option, none, some, List, [], ◌∷◌, length, Bool-cases,
  inl, inr, arith, ◌∙◌, length-append, ◌++◌, if◌then◌else◌, ap, ◌&&◌, sym,
}
use mathlib.Core.List.{append_assoc}
use smdr.Sides.Keys.{View, prefixed_key}
use smdr.Sides.Views.{
  Counts, Grouped, Regions, add_match, counted, is_allowed_view, no_counts, side_prefix_for,
  split_match, split_matches, split_matches_by_side,
}

module _ {C : Type 0} (le gt : C → C → Bool) (center : List String → Option (C × C))
    (base name : String) (r : Regions C) where
  abbrev side_of : Option View → List String → Bool
  side_of v m = is_on le gt center base name r v m

  -- What the matches `ms` add to a grouping and its counts.
  abbrev Adds : List (List String) → Grouped × Counts → Grouped × Counts → Type 0
  Adds ms s s' =
      ((v : Option View)
        → (under (key_of v base) s'.0
            ≡ under (key_of v base) s.0 ++ seen_on le gt center base name r v ms)
          × (count_of v s'.1 ≡ count_of v s.1 + length (seen_on le gt center base name r v ms)))
      × (total s'.0 + kept s.1 ≡ total s.0 + kept s'.1)
      × (kept s'.1 + s'.1.dropped ≡ kept s.1 + s.1.dropped + length ms)

  seen_one :
      (v w : Option View) (m : List String)
      → side_of v m ≡ same_side v w
      → seen_on le gt center base name r v (m ∷ [])
        ≡ (if is_allowed_view name v && same_side v w then m ∷ [] else [])
  unfolding select
  seen_one v w m e = rw e refl

  seen_none :
      (v w : Option View) (m : List String)
      → side_of v m ≡ same_side v w
      → is_allowed_view name v && same_side v w ≡ false
      → seen_on le gt center base name r v (m ∷ []) ≡ []
  seen_none v w m e n = rw (seen_one v w m e, n) refl

  dropped-Adds :
      (v w : Option View) (m : List String) (out : Grouped) (c : Counts)
      → side_of v m ≡ same_side v w
      → is_allowed_view name w ≡ false
      → (under (key_of v base) out
          ≡ under (key_of v base) out ++ seen_on le gt center base name r v (m ∷ []))
        × (count_of v (record c { dropped = c.dropped + 1 })
            ≡ count_of v c + length (seen_on le gt center base name r v (m ∷ [])))
  dropped-Adds v w m out c e n =
      let unseen : seen_on le gt center base name r v (m ∷ []) ≡ [] = seen_none v w m e either in
      (
        sym (
            ap (λ xs. under (key_of v base) out ++ xs) unseen
            ∙ append_nil (under (key_of v base) out)),
        count_of-dropped v c ∙ omega (arith, ap length unseen),
      )
    where
      either : is_allowed_view name v && same_side v w ≡ false
      either = elim (Bool-cases (same_side v w)) [
        | inl y ↦ rw (same_side-eq v w y, n) refl
        | inr q ↦ ground (arith, q)
      ]

  added-Adds :
      (v w : Option View) (m : List String) (out : Grouped) (c : Counts)
      → side_of v m ≡ same_side v w
      → is_allowed_view name w ≡ true
      → (under (key_of v base) (add_match (prefixed_key w base) m out)
          ≡ under (key_of v base) out ++ seen_on le gt center base name r v (m ∷ []))
        × (count_of v (counted w c)
            ≡ count_of v c + length (seen_on le gt center base name r v (m ∷ [])))
  added-Adds v w m out c e y = elim (Bool-cases (same_side v w)) [
    | inl q ↦
        let allowed : is_allowed_view name v && same_side v w ≡ true =
          rw q (rw (same_side-eq v w q, y) refl) in
        let seen : seen_on le gt center base name r v (m ∷ []) ≡ m ∷ [] =
          rw (seen_one v w m e, allowed) refl in
        (
          ap (λ k. under (key_of v base) (add_match k m out))
                (prefixed_key-key_of w base ∙ ap (λ u. key_of u base) (sym (same_side-eq v w q)))
              ∙ under-add_match (key_of v base) m out
              ∙ ap (λ xs. under (key_of v base) out ++ xs) (sym seen),
          count_of-counted v w c ∙ rw q (omega (arith, ap length seen)),
        )
    | inr q ↦
        let unseen : seen_on le gt center base name r v (m ∷ []) ≡ [] =
          seen_none v w m e (ground (arith, q)) in
        (
          ap (λ k. under (key_of v base) (add_match k m out)) (prefixed_key-key_of w base)
              ∙ under-add_match_other (key_of v base) (key_of w base) m out
                  (key_of-apart v w base q)
              ∙ sym (
                  ap (λ xs. under (key_of v base) out ++ xs) unseen
                  ∙ append_nil (under (key_of v base) out)),
          count_of-counted v w c ∙ rw q (omega (arith, ap length unseen)),
        )
  ]

  split_match-Adds :
      (m : List String) (s : Grouped × Counts)
      → Adds (m ∷ []) s (split_match le gt center base name r m s)
  unfolding split_match
  split_match-Adds m (out, c) =
      let w : Option View = side_prefix_for le gt center m r in
      elim (Bool-cases (is_allowed_view name w)) [
        | inl y ↦
            let k = kept-counted w c in
            rw y (
              λ v. added-Adds v w m out c (side_prefix_for-is_on le gt center base name r v m) y,
              omega (arith, total-add_match (prefixed_key w base) m out, k.0),
              omega (arith, k.0, k.1),
            )
        | inr n ↦ rw n (
          λ v. dropped-Adds v w m out c (side_prefix_for-is_on le gt center base name r v m) n,
          refl,
          omega arith,
        )
      ]

  seen_on-cons :
      (v : Option View) (m : List String) (ms : List (List String))
      → seen_on le gt center base name r v (m ∷ ms)
        ≡ seen_on le gt center base name r v (m ∷ []) ++ seen_on le gt center base name r v ms
  unfolding select
  seen_on-cons v m ms = elim (Bool-cases (is_allowed_view name v && side_of v m)) [
    | inl y ↦ rw y refl
    | inr n ↦ rw n refl
  ]

  split_matches-Adds :
      (ms : List (List String)) (s : Grouped × Counts)
      → Adds ms s (split_matches le gt center base name r ms s)
  unfolding split_matches select
  split_matches-Adds [] s =
      (λ v. (sym (append_nil (under (key_of v base) s.0)), omega arith), refl, omega arith)
  split_matches-Adds (m ∷ ms) s =
      let one = split_match-Adds m s in
      let more = split_matches-Adds ms (split_match le gt center base name r m s) in
      (
        λ v. (
          (more.0 v).0
              ∙ ap (λ xs. xs ++ seen_on le gt center base name r v ms) (one.0 v).0
              ∙ append_assoc (under (key_of v base) s.0)
                  (seen_on le gt center base name r v (m ∷ []))
                  (seen_on le gt center base name r v ms)
              ∙ ap (λ xs. under (key_of v base) s.0 ++ xs) (sym (seen_on-cons v m ms)),
          omega (
            arith,
            (more.0 v).1,
            (one.0 v).1,
            ap length (seen_on-cons v m ms),
            length-append (seen_on le gt center base name r v (m ∷ []))
                (seen_on le gt center base name r v ms),
          ),
        ),
        omega (arith, one.1, more.1),
        omega (arith, one.2, more.2),
      )

  -- In a split of the matches of a template, for each side (the top, the bottom, the side view or none):
  -- the matches under the key of that side are, in their order, those whose centre lies in the region of
  -- that side and in none before it, if their class may be seen there, and none otherwise; the count of
  -- that side is their number; there is no match under any other key; and the others are counted as
  -- dropped.
  pub split_matches_by_side-counts :
      (ms : List (List String))
      → ((v : Option View)
          → (under (key_of v base) (split_matches_by_side le gt center base name r ms).0
              ≡ seen_on le gt center base name r v ms)
            × (count_of v (split_matches_by_side le gt center base name r ms).1
                ≡ length (seen_on le gt center base name r v ms)))
        × (total (split_matches_by_side le gt center base name r ms).0
            ≡ kept (split_matches_by_side le gt center base name r ms).1)
        × (kept (split_matches_by_side le gt center base name r ms).1
              + (split_matches_by_side le gt center base name r ms).1.dropped
            ≡ length ms)
  unfolding split_matches_by_side under
  split_matches_by_side-counts ms =
      let adds = split_matches-Adds ms ([], no_counts) in
      (
        λ v. ((adds.0 v).0, (adds.0 v).1 ∙ omega (arith, none_yet v)),
        omega (arith, adds.1),
        omega (arith, adds.2),
      )
    where
      none_yet : (v : Option View) → count_of v no_counts ≡ 0
      none_yet none = refl
      none_yet (some View.top_view) = refl
      none_yet (some View.bottom_view) = refl
      none_yet (some View.side_view) = refl
