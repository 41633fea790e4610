-- ===== src/Sides/Search.antt =====
-- The search of `suppress_contained_matches` of app/side_regions.py by the rarest handle finds what a search
-- of all representatives finds.
use mathlib.Core.List.{Memᴰ}
use smdr.Prelude.{
  length, not, ◌&&◌, ◌==◌, ==_iff, All-weaken, ℕ, Bool, true, false, List, [], ◌∷◌, ◌≡◌, refl, All,
  Option-cases, Bool-cases, inl, inr, arith, not, String, eq_refl, ◌==◌, ◌&&◌, ◌∙◌, some,
}
use smdr.Table.{select, least}
use smdr.Table.Order.{least-mem, least-none}
use smdr.Sides.Contained.{
  Instance, is_in, is_subset, is_proper, any, bucket, indexed_search, plain_search,
}

module _ {ℓ} {A : Type ℓ} where
  any-select :
      (p q : A → Bool)
      → ((a : A) → p a ≡ true → q a ≡ true)
      → (t : List A) → any p (select q t) ≡ any p t
  unfolding any select
  any-select p q h [] = refl
  any-select p q h (a ∷ t) = ground (arith, h a, any-select p q h t)

  any_agree : (p q : A → Bool) (t : List A) → All (λ a. p a ≡ q a) t → any p t ≡ any q t
  unfolding any
  any_agree p q [] h = refl
  any_agree p q (a ∷ t) h = ground (arith, h.0, any_agree p q t h.1)

is_in-mem : (h : String) (xs : List String) → Memᴰ h xs → is_in h xs ≡ true
is_in-mem h [] m = elim m [ ]
is_in-mem h (x ∷ xs) (Memᴰ.head e) = rw e (rw (eq_refl x) refl)
is_in-mem h (x ∷ xs) (Memᴰ.tail m) = ground (arith, is_in-mem h xs m)

is_in-subset :
    (h : String) (xs ys : List String) → is_subset xs ys ≡ true → Memᴰ h xs → is_in h ys ≡ true
is_in-subset h [] ys s m = elim m [ ]
is_in-subset h (x ∷ xs) ys s (Memᴰ.head e) = rw e (ground (arith, s))
is_in-subset h (x ∷ xs) ys s (Memᴰ.tail m) = is_in-subset h xs ys (ground (arith, s)) m

abbrev pub HasHandles : Instance → Type 0
HasHandles it = (h : String) × (hs : List String) × (it.handles ≡ h ∷ hs)

-- No other instance has the number.
abbrev pub IsNumbered : ℕ → Instance → List (ℕ × Instance) → Type 0
IsNumbered i it reps = All (λ j. j.0 ≡ i → j.1 ≡ it) reps

proper_numbered :
    (i : ℕ) (it : Instance) (j : ℕ × Instance)
    → (j.0 ≡ i → j.1 ≡ it)
    → (not (j.0 == i) && is_proper it.handles j.1.handles) ≡ is_proper it.handles j.1.handles
proper_numbered i it j h = elim (Bool-cases (j.0 == i)) [
  | inl y ↦
      let own : is_proper it.handles j.1.handles ≡ false =
        rw (h ((==_iff j.0 i).0 y)) (ground arith) in
      ground (arith, y, own)
  | inr n ↦ rw n refl
]

indexed_search-rarest :
    (i : ℕ) (it : Instance) (reps : List (ℕ × Instance)) (k : String)
    → least (λ h. length (bucket reps h)) it.handles ≡ some k
    → indexed_search i it reps
      ≡ any (λ j. not (j.0 == i) && is_proper it.handles j.1.handles) (bucket reps k)
unfolding indexed_search
indexed_search-rarest i it reps k e = ground (arith, e)

any-bucket :
    (p : ℕ × Instance → Bool) (k : String) (reps : List (ℕ × Instance))
    → ((j : ℕ × Instance) → p j ≡ true → is_in k j.1.handles ≡ true)
    → any p (bucket reps k) ≡ any p reps
unfolding bucket
any-bucket p k reps h = any-select p (λ j. is_in k j.1.handles) h reps

pub indexed_search-plain_search :
    (i : ℕ) (it : Instance) (reps : List (ℕ × Instance))
    → HasHandles it
    → IsNumbered i it reps
    → indexed_search i it reps ≡ plain_search i it reps
unfolding plain_search
indexed_search-plain_search i it reps (h, hs, e) numbered =
    let other : ℕ × Instance → Bool = λ j. not (j.0 == i) && is_proper it.handles j.1.handles in
    elim (Option-cases (least (λ k. length (bucket reps k)) it.handles)) [
      | inl n ↦ ground (arith, least-none (λ k. length (bucket reps k)) it.handles n, e)
      | inr (k, s) ↦
          indexed_search-rarest i it reps k s
          ∙ any-bucket other k reps (λ j y.
            is_in-subset k it.handles j.1.handles (ground (arith, y))
              (least-mem (λ c. length (bucket reps c)) it.handles k s))
          ∙ any_agree other (λ j. is_proper it.handles j.1.handles) reps
              (All-weaken (λ j. j.0 ≡ i → j.1 ≡ it) _ reps (proper_numbered i it) numbered)
    ]
