-- ===== src/Auth/Locks.antt =====
-- The product edit locks of app/auth.py: a lock whose heartbeat is older than the TTL may be stolen.
-- A method takes the store and returns the new one; `time.time()` is an argument.
use smdr.Table.Keys.{by_key}
use smdr.Table.{delete, count, update}
use smdr.Prelude.{
  ℕ, String, Bool, ◌&&◌, Option, List, same, ltb, if◌then◌else◌, ◌||◌, none, ◌+◌, some, true, ◌++◌,
  ◌∷◌, [], false,
}
use smdr.Json
use smdr.Auth.Store.{AuthStore, EditLock, audit}

abbrev pub lock_ttl_seconds : ℕ
lock_ttl_seconds = 300

pub record LockStatus : Type 0 where
  pub acquired : Bool
  pub held_by : String
  pub heartbeat_at : ℕ

-- heartbeat_at < now - LOCK_TTL_SECONDS
abbrev pub is_zombie : ℕ → EditLock → Bool
is_zombie now l = ltb (l.heartbeat_at + lock_ttl_seconds) now

abbrev pub is_lock_of : String → EditLock → Bool
is_lock_of product_id l = same l.product_id product_id

-- SELECT ... FROM product_edit_locks WHERE product_id = ?
abbrev pub lock_of : String → List EditLock → Option EditLock
lock_of product_id t = by_key (λ l. l.product_id) product_id t

abbrev pub is_takeable : String → String → ℕ → EditLock → Bool
is_takeable product_id userid now l =
    is_lock_of product_id l && (same l.held_by userid || is_zombie now l)

-- The UPDATE; if it meets no row, the INSERT; if that finds the key taken, the read of the holder.
unfoldable pub acquire_lock : String → String → ℕ → AuthStore → LockStatus × AuthStore
acquire_lock product_id userid now s =
    let t = s.product_edit_locks in
    if ltb 0 (count (is_takeable product_id userid now) t)
    then (
      record { acquired = true; held_by = userid; heartbeat_at = now },
      record s {
        product_edit_locks =
            update (is_takeable product_id userid now)
              (λ l. record l { held_by = userid; acquired_at = now; heartbeat_at = now }) t;
      },
    )
    else elim (lock_of product_id t) [
      | none ↦ (
        record { acquired = true; held_by = userid; heartbeat_at = now },
        record s {
          product_edit_locks =
              t
              ++ (record {
                product_id = product_id;
                held_by = userid;
                acquired_at = now;
                heartbeat_at = now;
              })
                ∷ [];
        },
      )
      | some l ↦
          (record { acquired = false; held_by = l.held_by; heartbeat_at = l.heartbeat_at }, s)
    ]

abbrev pub is_held_lock : String → String → EditLock → Bool
is_held_lock product_id userid l = is_lock_of product_id l && same l.held_by userid

unfoldable pub heartbeat_lock : String → String → ℕ → AuthStore → Bool × AuthStore
heartbeat_lock product_id userid now s = (
  ltb 0 (count (is_held_lock product_id userid) s.product_edit_locks),
  record s {
    product_edit_locks =
        update (is_held_lock product_id userid) (λ l. record l { heartbeat_at = now })
          s.product_edit_locks;
  },
)

unfoldable pub lock_holder : String → ℕ → AuthStore → Option String
lock_holder product_id now s = elim (lock_of product_id s.product_edit_locks) [
  | none ↦ none
  | some l ↦ if is_zombie now l then none else some l.held_by
]

-- The owner's release; `force` is the admin's, which is audited.
unfoldable pub release_lock : String → String → Bool → ℕ → AuthStore → Bool × AuthStore
unfolding audit
release_lock product_id actor true now s =
    let t = s.product_edit_locks in
    let s' = record s { product_edit_locks = delete (is_lock_of product_id) t } in
    let was : Json.Json = elim (lock_of product_id t) [
      | none ↦ Json.null
      | some l ↦ Json.str l.held_by
    ] in
    if ltb 0 (count (is_lock_of product_id) t)
    then (
      true,
      audit
          (record {
            at_time = now;
            actor = actor;
            action = "lock.force_release";
            product_id = some product_id;
            version_id = none;
            target_type = "product";
            target_id = product_id;
            detail = some (("was_held_by", was) ∷ []);
          })
          s',
    )
    else (false, s')
release_lock product_id actor false now s = (
  ltb 0 (count (is_held_lock product_id actor) s.product_edit_locks),
  record s { product_edit_locks = delete (is_held_lock product_id actor) s.product_edit_locks },
)
