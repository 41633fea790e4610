-- ===== src/Auth/SessionRuns.antt =====
-- The absolute lifetime of a session (app/auth.py), through any use of it and of others.
use smdr.Table.Rows.{first-append}
use smdr.Table.{update, delete, first}
use smdr.Table.Keys.{by_key, by_key-delete, by_key-update, IsKeyed-delete, IsKeyed-update}
use smdr.Auth.Sessions.{
  create_session, session_of, resolve_session, delete_session, prune_sessions, is_over,
  session_abs_seconds,
}
use smdr.Prelude.{
  refl, String, List, ℕ, same, coalesce, ◌≡◌, ◌∷◌, Bool, Option-cases, [], false, inl, some, ◌≤◌,
  inr, arith, All, ◌⊎◌, ◌+◌, Bool-cases, ap, ◌<◌, ltb, none,
}
use smdr.Auth.Store.{AuthStore, Session}
use smdr.Auth.SessionLaws.{
  HasSessions, session_row, create_session-HasSessions, create_session-sessions, session_of-create,
}

pub data SessionCall : Type 0 where
  create : String → String → String → ℕ → SessionCall
  resolve : String → ℕ → SessionCall
  logout : String → SessionCall
  clean : ℕ → SessionCall

module _ (sha256 : String → String) where
  -- A call that raises leaves the store as it was.
  unfoldable pub session_call : SessionCall → AuthStore → AuthStore
  session_call (create token csrf userid now) s =
      coalesce (create_session sha256 token csrf userid now s) s
  session_call (resolve token now) s = (resolve_session sha256 token now s).1
  session_call (logout token) s = (delete_session sha256 token s).1
  session_call (clean now) s = (prune_sessions now s).1

  unfoldable pub run_sessions : List SessionCall → AuthStore → AuthStore
  run_sessions [] s = s
  run_sessions (c ∷ cs) s = run_sessions cs (session_call c s)

  -- The tokens are random: no later session has the id.
  abbrev pub IsOther : String → SessionCall → Type 0
  IsOther sid (create token csrf userid now) = same (sha256 token) sid ≡ false
  IsOther sid _ = Unit

  -- The session of the id is gone, or ends by `cap`.
  EndsBy : String → ℕ → AuthStore → Type 0
  EndsBy sid cap s = (row : Session) → session_of sid s ≡ some row → row.expires_at ≤ cap

  module _ (sid : String) (cap : ℕ) (s : AuthStore) (h : HasSessions s)
      (ends : EndsBy sid cap s) where
    new-EndsBy :
        (token csrf userid : String) (now : ℕ) (s' : AuthStore)
        → same (sha256 token) sid ≡ false
        → create_session sha256 token csrf userid now s ≡ some s'
        → EndsBy sid cap s'
    unfolding EndsBy session_row first
    new-EndsBy token csrf userid now s' other e row q =
        let (_, eq) = create_session-sessions sha256 token csrf userid now s s' e in
        let q' : session_of sid s ≡ some row = ground (
          arith,
          ap (λ (t : List Session). by_key (λ x. x.id) sid t) eq,
          first-append (λ x. same x.id sid) s.sessions
              (session_row (sha256 token) csrf userid now ∷ []),
        ) in
        ends row q'

    create_call-EndsBy :
        (token csrf userid : String) (now : ℕ)
        → IsOther sid (create token csrf userid now)
        → EndsBy sid cap (session_call (create token csrf userid now) s)
          × HasSessions (session_call (create token csrf userid now) s)
    unfolding session_call EndsBy
    create_call-EndsBy token csrf userid now other =
        elim (Option-cases (create_session sha256 token csrf userid now s)) [
          | inl e ↦ rw e (ends, h)
          | inr (s', e) ↦ rw e (
            unfold EndsBy in new-EndsBy token csrf userid now s' other e,
            create_session-HasSessions sha256 token csrf userid now s s' e h,
          )
        ]

    touch-EndsBy :
        (t : String) (now : ℕ) (row : Session)
        → session_of sid (record s {
          sessions = update (λ x. same x.id t) (λ x. record x { last_seen_at = now }) s.sessions;
        })
          ≡ some row
        → row.expires_at ≤ cap
    unfolding EndsBy
    touch-EndsBy t now row e = elim (Option-cases (session_of sid s)) [
      | inl n ↦ ground (
        arith,
        by_key-update (λ x. x.id) (λ x. same x.id t) (λ x. record x { last_seen_at = now })
            (λ x. refl) sid s.sessions,
      )
      | inr (r, y) ↦ ground (
        arith,
        by_key-update (λ x. x.id) (λ x. same x.id t) (λ x. record x { last_seen_at = now })
            (λ x. refl) sid s.sessions,
        ends r y,
      )
    ]

    drop-EndsBy :
        (p : Session → Bool) (row : Session)
        → by_key (λ x. x.id) sid (delete p s.sessions) ≡ some row
        → row.expires_at ≤ cap
    unfolding EndsBy
    drop-EndsBy p row e = elim (Option-cases (session_of sid s)) [
      | inl n ↦ ground (arith, by_key-delete (λ x. x.id) p sid s.sessions h)
      | inr (r, y) ↦ ground (arith, by_key-delete (λ x. x.id) p sid s.sessions h, ends r y)
    ]

    resolve_call-cases :
        (token : String) (now : ℕ)
        → (session_call (resolve token now) s ≡ s)
          ⊎ (session_call (resolve token now) s ≡ record s {
            sessions =
                update
                  (λ x. same x.id (sha256 token))
                  (λ x. record x { last_seen_at = now })
                  s.sessions;
          })
    unfolding session_call resolve_session
    resolve_call-cases token now = elim (Option-cases (session_of (sha256 token) s)) [
      | inl e ↦ inl (ground arith)
      | inr (row, e) ↦ elim (Bool-cases (is_over now row)) [
        | inl y ↦ inl (ground arith)
        | inr n ↦ elim (Bool-cases (ltb (row.last_seen_at + 60) now)) [
          | inl y ↦ inr (ground arith)
          | inr m ↦ inl (ground arith)
        ]
      ]
    ]

    resolve_call-EndsBy :
        (token : String) (now : ℕ)
        → EndsBy sid cap (session_call (resolve token now) s)
          × HasSessions (session_call (resolve token now) s)
    resolve_call-EndsBy token now = elim (resolve_call-cases token now) [
      | inl e ↦ rw e (ends, h)
      | inr e ↦ rw e (
        unfold EndsBy in touch-EndsBy (sha256 token) now,
        IsKeyed-update (λ x. x.id) _ _ (λ x. refl) s.sessions h,
      )
    ]

    -- Every call keeps the end, and the primary key.
    session_call-EndsBy :
        (c : SessionCall)
        → IsOther sid c
        → EndsBy sid cap (session_call c s) × HasSessions (session_call c s)
    session_call-EndsBy (create token csrf userid now) other =
        create_call-EndsBy token csrf userid now other
    session_call-EndsBy (resolve token now) other = resolve_call-EndsBy token now
    session_call-EndsBy (logout token) other =
        unfold session_call delete_session in
        (unfold EndsBy in drop-EndsBy _, IsKeyed-delete (λ x. x.id) _ s.sessions h)
    session_call-EndsBy (clean now) other =
        unfold session_call prune_sessions in
        (unfold EndsBy in drop-EndsBy _, IsKeyed-delete (λ x. x.id) _ s.sessions h)

  run_sessions-EndsBy :
      (sid : String) (cap : ℕ) (cs : List SessionCall) (s : AuthStore)
      → HasSessions s
      → EndsBy sid cap s
      → All (IsOther sid) cs
      → EndsBy sid cap (run_sessions cs s)
  unfolding run_sessions
  run_sessions-EndsBy sid cap [] s h e o = e
  run_sessions-EndsBy sid cap (c ∷ cs) s h e o =
      let (e', h') = session_call-EndsBy sid cap s h e c o.0 in
      run_sessions-EndsBy sid cap cs (session_call c s) h' e' o.1

  -- A session resolves to nothing more than 24 hours after it was created, however it was used between,
  -- and whatever was done with other sessions.
  pub session_ends :
      (token csrf userid : String) (now later : ℕ) (s s' : AuthStore) (cs : List SessionCall)
      → create_session sha256 token csrf userid now s ≡ some s'
      → HasSessions s
      → All (IsOther (sha256 token)) cs
      → now + session_abs_seconds < later
      → (resolve_session sha256 token later (run_sessions cs s')).0 ≡ none
  unfolding resolve_session
  session_ends token csrf userid now later s s' cs e h o late =
      let there = session_of-create sha256 token csrf userid now s s' e in
      let ends : EndsBy (sha256 token) (now + session_abs_seconds) s' =
        unfold EndsBy session_row in (λ row q. ground arith) in
      let over =
        run_sessions-EndsBy (sha256 token) (now + session_abs_seconds) cs s'
          (create_session-HasSessions sha256 token csrf userid now s s' e h) ends o in
      elim (Option-cases (session_of (sha256 token) (run_sessions cs s'))) [
        | inl n ↦ ground arith
        | inr (row, q) ↦
            (let b : row.expires_at ≤ now + session_abs_seconds = unfold EndsBy in over row q in
              ground arith)
      ]
