-- ===== src/Auth/LockLaws.antt =====
-- At most one live holder edits a product: the promises of the edit locks of app/auth.py.
use smdr.Table.Rows.{first-append}
use smdr.Table.{first, count, update}
use smdr.Auth.Locks.{LockStatus, lock_of, acquire_lock, lock_holder, is_takeable, is_zombie}
use smdr.Table.Keys.{IsKeyed, by_key-update, count-by_key, by_key_sound}
use smdr.Prelude.{
  refl, String, ℕ, ◌++◌, Option-cases, ◌≡◌, ◌∷◌, inl, inr, [], none, some, if◌then◌else◌, ◌⊎◌,
  Bool-cases, same, true, ◌||◌, ◌≢◌, arith, false, eq_refl, eq_iff,
}
use smdr.Auth.Store.{AuthStore, EditLock}

-- No two locks are of one product: the primary key.
abbrev pub HasLocks : AuthStore → Type 0
HasLocks s = IsKeyed (λ l. l.product_id) s.product_edit_locks

-- What one `acquire_lock` comes to: the lock is taken, or another caller holds it and nothing changes.
pub data AcquireOutcome (product_id userid : String) (now : ℕ) (s : AuthStore)
    (out : LockStatus × AuthStore) : Type 0 where
  taken :
      (lock_holder product_id now s ≡ none) ⊎ (lock_holder product_id now s ≡ some userid)
      → out.0.acquired ≡ true
      → lock_holder product_id now out.1 ≡ some userid
      → AcquireOutcome product_id userid now s out
  refused :
      (holder : String)
      → lock_holder product_id now s ≡ some holder
      → holder ≢ userid
      → out.0.acquired ≡ false
      → out.0.held_by ≡ holder
      → out.1 ≡ s
      → AcquireOutcome product_id userid now s out

module _ (product_id userid : String) (now : ℕ) (s : AuthStore) (h : HasLocks s) where
  pub count-is_takeable :
      count (is_takeable product_id userid now) s.product_edit_locks
      ≡ (elim (lock_of product_id s.product_edit_locks) [
        | none ↦ 0
        | some l ↦ if same l.held_by userid || is_zombie now l then 1 else 0
      ])
  count-is_takeable =
      count-by_key (λ l. l.product_id) (λ l. same l.held_by userid || is_zombie now l) product_id
        s.product_edit_locks h

  pub lock_of-update :
      (k : String)
      → lock_of k (
          update
            (is_takeable product_id userid now)
            (λ l. record l { held_by = userid; acquired_at = now; heartbeat_at = now })
            s.product_edit_locks)
        ≡ (elim (lock_of k s.product_edit_locks) [
          | none ↦ none
          | some l ↦ some (
              if is_takeable product_id userid now l
              then record l { held_by = userid; acquired_at = now; heartbeat_at = now }
              else l)
        ])
  lock_of-update k =
      by_key-update (λ l. l.product_id) (is_takeable product_id userid now) _ (λ l. refl) k
        s.product_edit_locks

  pub lock_of-insert :
      (l : EditLock) (k : String)
      → lock_of k (s.product_edit_locks ++ l ∷ []) ≡ (elim (lock_of k s.product_edit_locks) [
        | none ↦ if same l.product_id k then some l else none
        | some m ↦ some m
      ])
  unfolding first
  lock_of-insert l k =
      ground (arith, first-append (λ m. same m.product_id k) s.product_edit_locks (l ∷ []))

  module _ (e : lock_of product_id s.product_edit_locks ≡ none) where
    acquire_absent : AcquireOutcome product_id userid now s (acquire_lock product_id userid now s)
    unfolding acquire_lock lock_holder
    acquire_absent =
        let c : count (is_takeable product_id userid now) s.product_edit_locks ≡ 0 =
          ground (arith, count-is_takeable) in
        taken (inl (ground arith)) (ground arith) (
          ground (
            arith,
            lock_of-insert
                (record {
                  product_id = product_id;
                  held_by = userid;
                  acquired_at = now;
                  heartbeat_at = now;
                })
                product_id,
            eq_refl product_id,
          ))

  module _ (l : EditLock) (e : lock_of product_id s.product_edit_locks ≡ some l) where
    acquire_takeable :
        (same l.held_by userid || is_zombie now l) ≡ true
        → AcquireOutcome product_id userid now s (acquire_lock product_id userid now s)
    unfolding acquire_lock lock_holder
    acquire_takeable y =
        let c : count (is_takeable product_id userid now) s.product_edit_locks ≡ 1 =
          ground (arith, count-is_takeable) in
        taken (ground (arith, eq_iff l.held_by userid)) (ground arith) (
          ground (
            arith,
            lock_of-update product_id,
            by_key_sound (λ m. m.product_id) product_id s.product_edit_locks l e,
            eq_iff l.product_id product_id,
          ))

    acquire_held :
        (same l.held_by userid || is_zombie now l) ≡ false
        → AcquireOutcome product_id userid now s (acquire_lock product_id userid now s)
    unfolding acquire_lock lock_holder
    acquire_held n =
        let c : count (is_takeable product_id userid now) s.product_edit_locks ≡ 0 =
          ground (arith, count-is_takeable) in
        refused l.held_by (ground arith) (λ q. ground (arith, eq_iff l.held_by userid, q))
          (ground arith) (ground arith) (ground arith)

  -- An acquire succeeds exactly if nobody, or the caller, holds the lock live, and the caller then holds
  -- it; otherwise it names the holder and changes nothing.
  pub acquire_lock-outcome :
      AcquireOutcome product_id userid now s (acquire_lock product_id userid now s)
  acquire_lock-outcome = elim (Option-cases (lock_of product_id s.product_edit_locks)) [
    | inl e ↦ acquire_absent e
    | inr (l, e) ↦ elim (Bool-cases (same l.held_by userid || is_zombie now l)) [
      | inl y ↦ acquire_takeable l e y
      | inr n ↦ acquire_held l e n
    ]
  ]
