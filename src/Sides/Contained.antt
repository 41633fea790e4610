-- ===== src/Sides/Contained.antt =====
-- `suppress_contained_matches` of app/side_regions.py. A set of handles is a list of them, by membership;
-- `lt_text` is the order of texts. The function takes the search for a containing instance as an
-- argument: `indexed_search` is the code's, by the rarest handle, and `plain_search` looks at all.
use smdr.Prelude.{
  ℕ, ◌+◌, String, Bool, true, false, ◌&&◌, ◌||◌, not, Option, none, some, List, [], ◌∷◌, ◌++◌, same,
  ltb, ◌==◌, length, if◌then◌else◌, map,
}
use smdr.Table.{select, least}
use smdr.Sides.Keys.{parse_match_key}
use smdr.Sides.Views.{Grouped}

abbrev pub is_in : String → List String → Bool
is_in h [] = false
is_in h (k ∷ ks) = same k h || is_in h ks

abbrev pub is_subset : List String → List String → Bool
is_subset [] ys = true
is_subset (x ∷ xs) ys = is_in x ys && is_subset xs ys

abbrev pub same_set : List String → List String → Bool
same_set xs ys = is_subset xs ys && is_subset ys xs

-- set_i < set_j
abbrev pub is_proper : List String → List String → Bool
is_proper xs ys = is_subset xs ys && not (is_subset ys xs)

-- An instance in a pool: its key and position, the index of its template, its handles.
pub record Instance : Type 0 where
  pub key : String
  pub pos : ℕ
  pub idx : ℕ
  pub handles : List String

abbrev pub Pools : Type 0
Pools = List (String × List Instance)

unfoldable pub add_to_pool : String → Instance → Pools → Pools
add_to_pool snake it [] = (snake, it ∷ []) ∷ []
add_to_pool snake it ((s, its) ∷ pools) =
    let rest = add_to_pool snake it pools in
    if same s snake then (s, its ++ it ∷ []) ∷ pools else (s, its) ∷ rest

-- The instances under one key, from a position on; one without handles is left in place.
unfoldable pub pool_key : String → String → ℕ → ℕ → List (List String) → Pools → Pools
pool_key key snake idx pos [] pools = pools
pool_key key snake idx pos ([] ∷ ms) pools = pool_key key snake idx (pos + 1) ms pools
pool_key key snake idx pos ((h ∷ hs) ∷ ms) pools =
    pool_key key snake idx (pos + 1) ms
      (add_to_pool snake (record { key = key; pos = pos; idx = idx; handles = h ∷ hs }) pools)

module _ (int : String → Option ℕ) where
  unfoldable pub pools_of : Grouped → Pools → Pools
  pools_of [] pools = pools
  pools_of ((key, ms) ∷ out) pools = elim (parse_match_key int key) [
    | none ↦ pools_of out pools
    | some parsed ↦ pools_of out (pool_key key parsed.1 parsed.2 0 ms pools)
  ]

-- ---- groups of one set
abbrev pub Group : Type 0
Group = Instance × List Instance

unfoldable pub add_to_groups : Instance → List Group → List Group
add_to_groups it [] = (it, []) ∷ []
add_to_groups it ((g, gs) ∷ groups) =
    let rest = add_to_groups it groups in
    if same_set g.handles it.handles then (g, gs ++ it ∷ []) ∷ groups else (g, gs) ∷ rest

unfoldable pub groups_of : List Instance → List Group → List Group
groups_of [] groups = groups
groups_of (it ∷ its) groups = groups_of its (add_to_groups it groups)

-- ---- the search
abbrev pub Search : Type 0
Search = ℕ → Instance → List (ℕ × Instance) → Bool

unfoldable pub enumerate : ℕ → List Instance → List (ℕ × Instance)
enumerate n [] = []
enumerate n (it ∷ its) = (n, it) ∷ enumerate (n + 1) its

unfoldable pub any {ℓ} : {A : Type ℓ} → (A → Bool) → List A → Bool
any p [] = false
any p (x ∷ xs) = p x || any p xs

-- handle_to_reps[h]
unfoldable pub bucket : List (ℕ × Instance) → String → List (ℕ × Instance)
bucket reps h = select (λ j. is_in h j.1.handles) reps

unfoldable pub indexed_search : Search
indexed_search i it reps = elim (least (λ h. length (bucket reps h)) it.handles) [
  | none ↦ false
  | some rarest ↦ any (λ j. not (j.0 == i) && is_proper it.handles j.1.handles) (bucket reps rarest)
]

unfoldable pub plain_search : Search
plain_search i it reps = any (λ j. is_proper it.handles j.1.handles) reps

abbrev pub Place : Type 0
Place = String × ℕ

abbrev pub place : Instance → Place
place it = (it.key, it.pos)

-- ---- the result
abbrev is_removed : Place → List Place → Bool
is_removed p [] = false
is_removed p (q ∷ qs) = (same q.0 p.0 && q.1 == p.1) || is_removed p qs

unfoldable pub keep_from : String → ℕ → List Place → List (List String) → List (List String)
keep_from key pos removed [] = []
keep_from key pos removed (m ∷ ms) =
    let rest = keep_from key (pos + 1) removed ms in
    if is_removed (key, pos) removed then rest else m ∷ rest

unfoldable pub without : List Place → Grouped → Grouped
without removed [] = []
without removed ((key, ms) ∷ out) =
    let rest = without removed out in
    elim (keep_from key 0 removed ms) [ [] ↦ rest | m ∷ kept ↦ (key, m ∷ kept) ∷ rest ]

module _ (lt_text : String → String → Bool) where
  -- (idx, key, pos) < (idx, key, pos)
  abbrev is_before : Instance → Instance → Bool
  is_before a b =
      ltb a.idx b.idx
      || (a.idx == b.idx && (lt_text a.key b.key || (same a.key b.key && ltb a.pos b.pos)))

  -- The first of a group after its sort, and the others.
  unfoldable pub earliest : Instance → List Instance → Instance × List Instance
  earliest it [] = (it, [])
  earliest it (o ∷ os) =
      let (e, others) = earliest it os in if is_before o e then (o, e ∷ others) else (e, o ∷ others)

  unfoldable pub reps_of : List Group → List Instance
  reps_of [] = []
  reps_of ((g, gs) ∷ groups) = (earliest g gs).0 ∷ reps_of groups

  unfoldable pub dups_of : List Group → List Place
  dups_of [] = []
  dups_of ((g, gs) ∷ groups) = map place (earliest g gs).1 ++ dups_of groups

  module _ (finds : Search) where
    unfoldable pub contained_of : List (ℕ × Instance) → List (ℕ × Instance) → List Place
    contained_of reps [] = []
    contained_of reps ((i, it) ∷ rest) =
        if finds i it reps then place it ∷ contained_of reps rest else contained_of reps rest

    unfoldable pub removed_of_pool : List Instance → List Place
    removed_of_pool its =
        let groups = groups_of its [] in
        let reps = enumerate 0 (reps_of groups) in dups_of groups ++ contained_of reps reps

    unfoldable pub removed_of : Pools → List Place
    removed_of [] = []
    removed_of ((snake, its) ∷ pools) = removed_of_pool its ++ removed_of pools

    unfoldable pub suppress_contained_matches : (String → Option ℕ) → Bool → Grouped → Grouped
    suppress_contained_matches int enabled out =
        let removed = removed_of (pools_of int out []) in
        if not enabled then out else elim removed [ [] ↦ out | p ∷ ps ↦ without (p ∷ ps) out ]
