-- ===== src/Sides/Suppress.antt =====
-- `suppress_contained_matches` of app/side_regions.py, by the code's search and by a plain one.
use smdr.Prelude.{
  ℕ, ◌+◌, ◌≤◌, Bool, true, false, List, [], ◌∷◌, ◌++◌, ◌≡◌, refl, All, Bool-cases, inl, inr, arith,
  All-append, All-weaken, String, same, if◌then◌else◌, ap, Option, not, none, some,
}
use smdr.Sides.Views.{Grouped}
use smdr.Sides.Keys.{parse_match_key}
use smdr.Sides.Search.{HasHandles, IsNumbered, indexed_search-plain_search}
use smdr.Sides.Contained.{
  Instance, Group, Pools, add_to_pool, pool_key, add_to_groups, groups_of, enumerate, earliest,
  reps_of, contained_of, removed_of_pool, removed_of, pools_of, suppress_contained_matches,
  indexed_search, plain_search, same_set, dups_of, without,
}

-- ---- numbers
enumerate-ge : (k : ℕ) (its : List Instance) → All (λ j. k ≤ j.0) (enumerate k its)
unfolding enumerate
enumerate-ge k [] = tt
enumerate-ge k (it ∷ its) = (
  omega arith,
  All-weaken _ _ (enumerate (k + 1) its) (λ j h. omega (arith, h)) (enumerate-ge (k + 1) its),
)

enumerate-IsNumbered :
    (k : ℕ) (its : List Instance)
    → All (λ e. IsNumbered e.0 e.1 (enumerate k its)) (enumerate k its)
unfolding enumerate
enumerate-IsNumbered k [] = tt
enumerate-IsNumbered k (it ∷ its) = (
  (
    λ _. refl,
    All-weaken _ _ (enumerate (k + 1) its) (λ j h e. ground (arith, h, e))
        (enumerate-ge (k + 1) its),
  ),
  both (enumerate (k + 1) its) (enumerate-ge (k + 1) its) (enumerate-IsNumbered (k + 1) its),
)
  where
    both :
        (es : List (ℕ × Instance))
        → All (λ j. k + 1 ≤ j.0) es
        → All (λ e. IsNumbered e.0 e.1 (enumerate (k + 1) its)) es
        → All (λ e. IsNumbered e.0 e.1 ((k, it) ∷ enumerate (k + 1) its)) es
    both [] g h = tt
    both (e ∷ es) g h = ((λ q. ground (arith, g.0, q), h.0), both es g.1 h.1)

-- ---- handles
abbrev GroupsHave : List Group → Type 0
GroupsHave groups = All (λ g. HasHandles g.0 × All HasHandles g.1) groups

add_to_groups-HasHandles :
    (it : Instance) (groups : List Group)
    → HasHandles it
    → GroupsHave groups
    → GroupsHave (add_to_groups it groups)
unfolding add_to_groups
add_to_groups-HasHandles it [] h hs = ((h, tt), tt)
add_to_groups-HasHandles it ((g, gs) ∷ groups) h hs =
    elim (Bool-cases (same_set g.handles it.handles)) [
      | inl y ↦ rw y ((hs.0.0, All-append HasHandles gs (it ∷ []) hs.0.1 (h, tt)), hs.1)
      | inr n ↦ rw n (hs.0, add_to_groups-HasHandles it groups h hs.1)
    ]

groups_of-HasHandles :
    (its : List Instance) (groups : List Group)
    → All HasHandles its
    → GroupsHave groups
    → GroupsHave (groups_of its groups)
unfolding groups_of
groups_of-HasHandles [] groups h hs = hs
groups_of-HasHandles (it ∷ its) groups h hs =
    groups_of-HasHandles its (add_to_groups it groups) h.1
      (add_to_groups-HasHandles it groups h.0 hs)

enumerate-HasHandles :
    (k : ℕ) (its : List Instance) → All HasHandles its → All (λ e. HasHandles e.1) (enumerate k its)
unfolding enumerate
enumerate-HasHandles k [] h = tt
enumerate-HasHandles k (it ∷ its) h = (h.0, enumerate-HasHandles (k + 1) its h.1)

abbrev PoolsHave : Pools → Type 0
PoolsHave pools = All (λ p. All HasHandles p.1) pools

add_to_pool-HasHandles :
    (snake : String) (it : Instance) (pools : Pools)
    → HasHandles it
    → PoolsHave pools
    → PoolsHave (add_to_pool snake it pools)
unfolding add_to_pool
add_to_pool-HasHandles snake it [] h hs = ((h, tt), tt)
add_to_pool-HasHandles snake it ((s, its) ∷ pools) h hs = elim (Bool-cases (same s snake)) [
  | inl y ↦ rw y (All-append HasHandles its (it ∷ []) hs.0 (h, tt), hs.1)
  | inr n ↦ rw n (hs.0, add_to_pool-HasHandles snake it pools h hs.1)
]

pool_key-HasHandles :
    (key snake : String) (idx pos : ℕ) (ms : List (List String)) (pools : Pools)
    → PoolsHave pools
    → PoolsHave (pool_key key snake idx pos ms pools)
unfolding pool_key
pool_key-HasHandles key snake idx pos [] pools hs = hs
pool_key-HasHandles key snake idx pos ([] ∷ ms) pools hs =
    pool_key-HasHandles key snake idx (pos + 1) ms pools hs
pool_key-HasHandles key snake idx pos ((h ∷ hs) ∷ ms) pools have =
    pool_key-HasHandles key snake idx (pos + 1) ms _
      (add_to_pool-HasHandles snake _ pools (h, hs, refl) have)

module _ (int : String → Option ℕ) where
  pools_of-HasHandles :
      (out : Grouped) (pools : Pools) → PoolsHave pools → PoolsHave (pools_of int out pools)
  unfolding pools_of
  pools_of-HasHandles [] pools h = h
  pools_of-HasHandles ((key, ms) ∷ out) pools h =
      by_parse (parse_match_key int key) (λ ps. pools_of-HasHandles out ps)
    where
      by_parse :
          (o : Option (Option String × String × ℕ))
          → ((ps : Pools) → PoolsHave ps → PoolsHave (pools_of int out ps))
          → PoolsHave (elim o [
            | none ↦ pools_of int out pools
            | some parsed ↦ pools_of int out (pool_key key parsed.1 parsed.2 0 ms pools)
          ])
      by_parse none rest = rest pools h
      by_parse (some parsed) rest =
          rest (pool_key key parsed.1 parsed.2 0 ms pools)
            (pool_key-HasHandles key parsed.1 parsed.2 0 ms pools h)

module _ (lt_text : String → String → Bool) where
  earliest-HasHandles :
      (it : Instance) (os : List Instance)
      → HasHandles it
      → All HasHandles os
      → HasHandles (earliest lt_text it os).0
  unfolding earliest
  earliest-HasHandles it [] h hs = h
  earliest-HasHandles it (o ∷ os) h hs =
      let rest : Instance × List Instance = earliest lt_text it os in
      either _ (o, rest.0 ∷ rest.1) (rest.0, o ∷ rest.1) hs.0 (earliest-HasHandles it os h hs.1)
    where
      either :
          (c : Bool) (x y : Instance × List Instance)
          → HasHandles x.0
          → HasHandles y.0
          → HasHandles (if◌then◌else◌ {A = Instance × List Instance} c x y).0
      either true x y p q = p
      either false x y p q = q

  reps_of-HasHandles :
      (groups : List Group) → GroupsHave groups → All HasHandles (reps_of lt_text groups)
  unfolding reps_of
  reps_of-HasHandles [] h = tt
  reps_of-HasHandles ((g, gs) ∷ groups) h =
      (earliest-HasHandles g gs h.0.0 h.0.1, reps_of-HasHandles groups h.1)

  contained_of_same :
      (reps rest : List (ℕ × Instance))
      → All (λ e. HasHandles e.1) rest
      → All (λ e. IsNumbered e.0 e.1 reps) rest
      → contained_of lt_text indexed_search reps rest ≡ contained_of lt_text plain_search reps rest
  unfolding contained_of
  contained_of_same reps [] h n = refl
  contained_of_same reps ((i, it) ∷ rest) h n =
      rw (indexed_search-plain_search i it reps h.0 n.0, contained_of_same reps rest h.1 n.1) refl

  removed_of_pool_same :
      (its : List Instance)
      → All HasHandles its
      → removed_of_pool lt_text indexed_search its ≡ removed_of_pool lt_text plain_search its
  unfolding removed_of_pool
  removed_of_pool_same its h =
      let reps : List Instance = reps_of lt_text (groups_of its []) in
      ap (λ xs. dups_of lt_text (groups_of its []) ++ xs)
        (contained_of_same (enumerate 0 reps) (enumerate 0 reps)
          (enumerate-HasHandles 0 reps
            (reps_of-HasHandles (groups_of its []) (groups_of-HasHandles its [] h tt)))
          (enumerate-IsNumbered 0 reps))

  removed_of_same :
      (pools : Pools)
      → PoolsHave pools
      → removed_of lt_text indexed_search pools ≡ removed_of lt_text plain_search pools
  unfolding removed_of
  removed_of_same [] h = refl
  removed_of_same ((snake, its) ∷ pools) h =
      rw (removed_of_pool_same its h.0, removed_of_same pools h.1) refl

  -- The code's search for a containing instance, among those that hold the rarest handle, suppresses
  -- exactly the matches that a search among all representatives suppresses.
  pub suppress_contained_matches-plain_search :
      (int : String → Option ℕ) (enabled : Bool) (out : Grouped)
      → suppress_contained_matches lt_text indexed_search int enabled out
        ≡ suppress_contained_matches lt_text plain_search int enabled out
  unfolding suppress_contained_matches
  suppress_contained_matches-plain_search int enabled out =
      ap
        (λ removed.
          if not enabled then out else elim removed [ [] ↦ out | p ∷ ps ↦ without (p ∷ ps) out ])
        (removed_of_same (pools_of int out []) (pools_of-HasHandles int out [] tt))
