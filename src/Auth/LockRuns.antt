-- ===== src/Auth/LockRuns.antt =====
-- Runs of lock calls by any callers, in any order (app/auth.py).
use smdr.Table.{count, update}
use smdr.Table.Keys.{
  IsKeyed-update, by_key-delete, by_key-update, IsKeyed, IsKeyed-delete, IsKeyed-append,
}
use smdr.Auth.Locks.{
  lock_of, heartbeat_lock, release_lock, acquire_lock, is_lock_of, is_held_lock, lock_ttl_seconds,
  lock_holder, is_takeable,
}
use smdr.Prelude.{
  refl, same, String, List, ◌∷◌, ℕ, Bool, ◌≡◌, some, [], true, Bool-cases, arith, false, ltb, ◌≤◌,
  ◌+◌, inl, eq_iff, inr, subst, All, sym, ◌⊎◌, none, ◌++◌, Option-cases,
}
use smdr.Auth.Store.{AuthStore, EditLock}
use smdr.Auth.LockLaws.{HasLocks, count-is_takeable, lock_of-update, lock_of-insert}

pub data LockCall : Type 0 where
  acquire : String → String → ℕ → LockCall
  beat : String → String → ℕ → LockCall
  release : String → String → Bool → ℕ → LockCall

unfoldable pub lock_call : LockCall → AuthStore → AuthStore
lock_call (acquire product_id userid now) s = (acquire_lock product_id userid now s).1
lock_call (beat product_id userid now) s = (heartbeat_lock product_id userid now s).1
lock_call (release product_id actor force now) s = (release_lock product_id actor force now s).1

unfoldable pub run_locks : List LockCall → AuthStore → AuthStore
run_locks [] s = s
run_locks (c ∷ cs) s = run_locks cs (lock_call c s)

-- A call that is about another product, or that another caller makes without force, an acquire of theirs
-- no later than the TTL after the heartbeat.
abbrev pub IsRival : EditLock → LockCall → Type 0
IsRival l (acquire product_id userid now) =
    same product_id l.product_id ≡ true
    → (same l.held_by userid ≡ false) × (now ≤ l.heartbeat_at + lock_ttl_seconds)
IsRival l (beat product_id userid now) =
    same product_id l.product_id ≡ true → same l.held_by userid ≡ false
IsRival l (release product_id actor force now) =
    same product_id l.product_id ≡ true → (same l.held_by actor ≡ false) × (force ≡ false)

-- A rival call keeps the lock, and any call keeps the primary key.
module _ (s : AuthStore) (h : HasLocks s) (l : EditLock)
    (e : lock_of l.product_id s.product_edit_locks ≡ some l) where
  rival_acquire :
      (product_id userid : String) (now : ℕ)
      → IsRival l (acquire product_id userid now)
      → lock_of l.product_id (acquire_lock product_id userid now s).1.product_edit_locks ≡ some l
  unfolding acquire_lock
  rival_acquire product_id userid now rival = ground (
    arith,
    count-is_takeable product_id userid now s h,
    lock_of-update product_id userid now s h l.product_id,
    lock_of-insert product_id userid now s h
        (record {
          product_id = product_id;
          held_by = userid;
          acquired_at = now;
          heartbeat_at = now;
        })
        l.product_id,
    eq_iff product_id l.product_id,
    eq_iff l.product_id product_id,
  )

  rival_beat :
      (product_id userid : String) (now : ℕ)
      → IsRival l (beat product_id userid now)
      → lock_of l.product_id (heartbeat_lock product_id userid now s).1.product_edit_locks ≡ some l
  unfolding heartbeat_lock
  rival_beat product_id userid now rival = ground (
    arith,
    by_key-update (λ m. m.product_id) (is_held_lock product_id userid)
        (λ m. record m { heartbeat_at = now }) (λ m. refl) l.product_id s.product_edit_locks,
    eq_iff product_id l.product_id,
    eq_iff l.product_id product_id,
  )

  rival_release :
      (product_id actor : String) (force : Bool) (now : ℕ)
      → IsRival l (release product_id actor force now)
      → lock_of l.product_id (release_lock product_id actor force now s).1.product_edit_locks
        ≡ some l
  unfolding release_lock
  rival_release product_id actor true now rival = ground (
    arith,
    by_key-delete (λ m. m.product_id) (is_lock_of product_id) l.product_id s.product_edit_locks h,
    eq_iff product_id l.product_id,
    eq_iff l.product_id product_id,
  )
  rival_release product_id actor false now rival = ground (
    arith,
    by_key-delete (λ m. m.product_id) (is_held_lock product_id actor) l.product_id
        s.product_edit_locks h,
    eq_iff product_id l.product_id,
    eq_iff l.product_id product_id,
  )

module _ (s : AuthStore) (h : HasLocks s) where
  module _ (product_id userid : String) (now : ℕ) where
    new_lock : EditLock
    new_lock = record {
      product_id = product_id;
      held_by = userid;
      acquired_at = now;
      heartbeat_at = now;
    }

    -- The three ways in which an acquire leaves the table.
    acquire_lock-cases :
        let t = s.product_edit_locks in
        let t' = (acquire_lock product_id userid now s).1.product_edit_locks in
        (t'
          ≡ update
              (is_takeable product_id userid now)
              (λ l. record l { held_by = userid; acquired_at = now; heartbeat_at = now })
              t)
        ⊎ ((lock_of product_id t ≡ none) × (t' ≡ t ++ new_lock ∷ []))
        ⊎ (t' ≡ t)
    unfolding acquire_lock new_lock
    acquire_lock-cases =
        elim (Bool-cases (ltb 0 (count (is_takeable product_id userid now) s.product_edit_locks))) [
          | inl y ↦ inl (ground arith)
          | inr n ↦ elim (Option-cases (lock_of product_id s.product_edit_locks)) [
            | inl e ↦ inr (inl (e, ground arith))
            | inr (l, e) ↦ inr (inr (ground arith))
          ]
        ]

    acquire_lock-HasLocks : HasLocks (acquire_lock product_id userid now s).1
    acquire_lock-HasLocks = elim acquire_lock-cases [
      | inl e ↦
          subst (IsKeyed (λ l. l.product_id)) (sym e)
            (IsKeyed-update (λ l. l.product_id) _ _ (λ l. refl) s.product_edit_locks h)
      | inr (inl (fresh, e)) ↦
          subst (IsKeyed (λ l. l.product_id)) (sym e)
            (unfold new_lock in IsKeyed-append (λ l. l.product_id) _ s.product_edit_locks fresh h)
      | inr (inr e) ↦ subst (IsKeyed (λ l. l.product_id)) (sym e) h
    ]

  release_lock-HasLocks :
      (product_id actor : String) (force : Bool) (now : ℕ)
      → HasLocks (release_lock product_id actor force now s).1
  unfolding release_lock
  release_lock-HasLocks product_id actor true now =
      elim (Bool-cases (ltb 0 (count (is_lock_of product_id) s.product_edit_locks))) [
        | inl y ↦ rw (y, IsKeyed) (IsKeyed-delete (λ l. l.product_id) _ s.product_edit_locks h)
        | inr n ↦ rw (n, IsKeyed) (IsKeyed-delete (λ l. l.product_id) _ s.product_edit_locks h)
      ]
  release_lock-HasLocks product_id actor false now =
      IsKeyed-delete (λ l. l.product_id) _ s.product_edit_locks h

  pub lock_call-HasLocks : (c : LockCall) → HasLocks (lock_call c s)
  unfolding lock_call
  lock_call-HasLocks (acquire product_id userid now) = acquire_lock-HasLocks product_id userid now
  lock_call-HasLocks (beat product_id userid now) =
      unfold heartbeat_lock in
      IsKeyed-update (λ l. l.product_id) _ _ (λ l. refl) s.product_edit_locks h
  lock_call-HasLocks (release product_id actor force now) =
      release_lock-HasLocks product_id actor force now

rival_call :
    (l : EditLock) (c : LockCall) (s : AuthStore)
    → HasLocks s
    → lock_of l.product_id s.product_edit_locks ≡ some l
    → IsRival l c
    → lock_of l.product_id (lock_call c s).product_edit_locks ≡ some l
unfolding lock_call
rival_call l (acquire product_id userid now) s h e r = rival_acquire s h l e product_id userid now r
rival_call l (beat product_id userid now) s h e r = rival_beat s h l e product_id userid now r
rival_call l (release product_id actor force now) s h e r =
    rival_release s h l e product_id actor force now r

run_locks-keeps :
    (l : EditLock) (cs : List LockCall) (s : AuthStore)
    → HasLocks s
    → lock_of l.product_id s.product_edit_locks ≡ some l
    → All (IsRival l) cs
    → lock_of l.product_id (run_locks cs s).product_edit_locks ≡ some l
unfolding run_locks
run_locks-keeps l [] s h e r = e
run_locks-keeps l (c ∷ cs) s h e r =
    run_locks-keeps l cs (lock_call c s) (lock_call-HasLocks s h c) (rival_call l c s h e r.0) r.1

-- A lock whose holder last beat at `l.heartbeat_at` stays the holder's until the TTL has passed since,
-- through any calls about other products and any calls of other callers without force.
pub held_through_ttl :
    (l : EditLock) (cs : List LockCall) (s : AuthStore) (now : ℕ)
    → HasLocks s
    → lock_of l.product_id s.product_edit_locks ≡ some l
    → All (IsRival l) cs
    → now ≤ l.heartbeat_at + lock_ttl_seconds
    → lock_holder l.product_id now (run_locks cs s) ≡ some l.held_by
unfolding lock_holder
held_through_ttl l cs s now h e r soon = ground (arith, run_locks-keeps l cs s h e r)
