-- ===== src/Worker/Children.antt =====
-- The end of a child of a reprocess-all, in app/jobs.py and app/worker_loop.py, seen on its parent's row.
use smdr.Prelude.{
  ℕ, ◌+◌, [], ◌∷◌, ◌≡◌, String, some, Option, none, same, inl, false, ◌⊎◌, eq_refl, inr, arith,
  refl, coalesce, subst, sym,
}
use smdr.Json
use smdr.Json.{Json, JsonDict, Items}
use smdr.Table.{update}
use smdr.Table.Keys.{by_key-update, by_key_sound}
use smdr.JobStore.Rows.{Job, Jobs, row_of, has_id}
use smdr.JobStore.Lifecycle.{
  append_parent_error, add_error, update_payload, bump_parent_done, bump_done, fail, complete,
}
use smdr.JobStore.Parents.{IsAt, row_of-bump_done, row_of-settle_parent, settled, settled-IsAt}

-- The list of errors is one, or is not there yet.
abbrev pub HasErrors : JsonDict → Type 0
HasErrors d =
    (Json.get d "errors" ≡ none) ⊎ ((xs : Items) × (Json.get d "errors" ≡ some (Json.arr xs)))

get-put : (d : JsonDict) (k : String) (v : Json) → Json.get (Json.put d k v) k ≡ some v
unfolding Json.get Json.put
get-put [] k v = rw (eq_refl k) refl
get-put ((j, w) ∷ d) k v = ground (arith, get-put d k v)

add_error-HasErrors :
    (d : JsonDict) (entry : Json)
    → HasErrors d
    → (d' : JsonDict) × (add_error d entry ≡ some d') × HasErrors d'
unfolding add_error
add_error-HasErrors d entry h = elim h [
  | inl e ↦
      let v : Json = Json.arr (Json.append Json.nil entry) in
      (Json.put d "errors" v, ground (arith, e), inr (_, get-put d "errors" v))
  | inr (xs, e) ↦
      let v : Json = Json.arr (Json.append xs entry) in
      (Json.put d "errors" v, ground (arith, e), inr (_, get-put d "errors" v))
]

settled-payload : (now : ℕ) (j : Job) → (settled now j).payload ≡ j.payload
unfolding settled
settled-payload now j = ground arith

module _ (p : String) where
  -- The parent's row: `d` of its `n` children are done.
  abbrev pub IsCounted : ℕ → ℕ → Jobs → Type 0
  IsCounted n d t = (j : Job) × (row_of p t ≡ some j) × IsAt n d j × HasErrors j.payload

  -- Writes to other rows.
  other_row :
      (k : String) (f : Job → Job)
      → ((j : Job) → (f j).id ≡ j.id)
      → same p k ≡ false
      → (n d : ℕ) (t : Jobs) → IsCounted n d t
      → IsCounted n d (update (has_id k) f t)
  other_row k f kept other n d t (j, e, at, errors) = (
    j,
    ground (
      arith,
      by_key-update (λ i. i.id) (has_id k) f kept p t,
      by_key_sound (λ i. i.id) p t j e,
      other,
      e,
    ),
    at,
    errors,
  )

  pub fail-IsCounted :
      (k message : String) (now : ℕ)
      → same p k ≡ false
      → (n d : ℕ) (t : Jobs) → IsCounted n d t
      → IsCounted n d (fail k message now t)
  unfolding fail
  fail-IsCounted k message now = other_row k _ (λ j. refl)

  pub complete-IsCounted :
      (k : String) (result : Option Json) (now : ℕ)
      → same p k ≡ false
      → (n d : ℕ) (t : Jobs) → IsCounted n d t
      → IsCounted n d (complete k result now t)
  unfolding complete
  complete-IsCounted k result now = other_row k _ (λ j. refl)

  pub append_parent_error-IsCounted :
      (entry : Json) (n d : ℕ) (t : Jobs)
      → IsCounted n d t
      → (t' : Jobs) × (append_parent_error p entry t ≡ some t') × IsCounted n d t'
  unfolding append_parent_error update_payload
  append_parent_error-IsCounted entry n d t (j, e, at, errors) =
      let (d', q, errors') = add_error-HasErrors j.payload entry errors in
      (
        update (has_id p) (λ i. record i { payload = d' }) t,
        ground (arith, e, q),
        (
          record j { payload = d' },
          ground (
            arith,
            by_key-update (λ i. i.id) (has_id p) (λ i. record i { payload = d' }) (λ i. refl) p t,
            by_key_sound (λ i. i.id) p t j e,
            e,
            eq_refl p,
          ),
          record { total = at.total; counted = at.counted; state = at.state },
          errors',
        ),
      )

  pub bump_parent_done-IsCounted :
      (now n d : ℕ) (t : Jobs) → IsCounted n d t → IsCounted n (d + 1) (bump_parent_done p now t).1
  unfolding bump_parent_done
  bump_parent_done-IsCounted now n d t (j, e, at, errors) =
      let b : Job = record j { done_count = some (coalesce j.done_count 0 + 1) } in
      (
        settled now b,
        row_of-settle_parent p now (bump_done p t) b (row_of-bump_done p now t j e),
        settled-IsAt now n d j at,
        subst HasErrors (sym (settled-payload now b)) errors,
      )
