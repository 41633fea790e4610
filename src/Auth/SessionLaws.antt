-- ===== src/Auth/SessionLaws.antt =====
-- How long a login session lives, by app/auth.py.
use smdr.Table.Rows.{first-append}
use smdr.Table.{first}
use smdr.Auth.Users.{get_user}
use smdr.Table.Keys.{IsKeyed, by_key-delete, by_key_sound, IsKeyed-append}
use mathlib.Core.Option.{map as map_option}
use smdr.Prelude.{
  refl, String, ℕ, ◌≡◌, some, ◌≤◌, none, arith, ltb, Option-cases, ◌+◌, inl, same, inr, eq_iff,
  Option, subst, ◌++◌, sym, ◌∷◌, [], eq_refl, if◌then◌else◌,
}
use smdr.Auth.Store.{AuthStore, Session, User}
use smdr.Auth.Sessions.{
  SessionInfo, resolve_session, delete_session, prune_sessions, create_session, session_of,
  session_idle_seconds, is_over, session_abs_seconds, session_info,
}

-- No two sessions have one id: the primary key.
abbrev pub HasSessions : AuthStore → Type 0
HasSessions s = IsKeyed (λ x. x.id) s.sessions

session_info-fields :
    (row : Session) (u : Option User)
    → ((session_info row u).userid ≡ row.userid)
      × ((session_info row u).csrf_token ≡ row.csrf_token)
unfolding session_info
session_info-fields row none = (refl, refl)
session_info-fields row (some u) = (refl, refl)

-- The row that `create_session` writes.
unfoldable pub session_row : String → String → String → ℕ → Session
session_row sid csrf userid now = record {
  id = sid;
  userid = userid;
  created_at = now;
  last_seen_at = now;
  expires_at = now + session_abs_seconds;
  csrf_token = csrf;
}

module _ (sha256 : String → String) where
  module _ (token csrf userid : String) (now : ℕ) (s s' : AuthStore)
      (created : create_session sha256 token csrf userid now s ≡ some s') where
    pub create_session-sessions :
        (session_of (sha256 token) s ≡ none)
        × (s'.sessions ≡ s.sessions ++ session_row (sha256 token) csrf userid now ∷ [])
    unfolding create_session session_row
    create_session-sessions = ground arith

    pub session_of-create :
        session_of (sha256 token) s' ≡ some (session_row (sha256 token) csrf userid now)
    session_of-create =
        let (fresh, eq) = create_session-sessions in
        rw eq (
          unfold first session_row in
          ground (
            arith,
            first-append (λ x. same x.id (sha256 token)) s.sessions
                (session_row (sha256 token) csrf userid now ∷ []),
            eq_refl (sha256 token),
          ))

    pub create_session-HasSessions : HasSessions s → HasSessions s'
    create_session-HasSessions h =
        let (fresh, eq) = create_session-sessions in
        subst (IsKeyed (λ x. x.id)) (sym eq) (
          unfold session_row in
          IsKeyed-append (λ x. x.id) (session_row (sha256 token) csrf userid now) s.sessions fresh
            h)

    -- A new session that nobody uses resolves, to its user and its CSRF token, for eight hours, and not
    -- later.
    pub resolve_session-create :
        (later : ℕ)
        → map_option {B = String × String}
            (λ (i : SessionInfo). (i.userid, i.csrf_token))
            (resolve_session sha256 token later s').0
          ≡ (if ltb (now + session_idle_seconds) later then none else some (userid, csrf))
    unfolding resolve_session session_row
    resolve_session-create later =
        let (same_user, same_csrf) =
          session_info-fields (session_row (sha256 token) csrf userid now) (get_user userid s') in
        ground (arith, session_of-create)

  -- A pruning removes only sessions that no longer resolve: at that time and later every token resolves
  -- to what it would have without it.
  pub resolve_session-prune :
      (token : String) (now later : ℕ) (s : AuthStore)
      → HasSessions s
      → now ≤ later
      → (resolve_session sha256 token later (prune_sessions now s).1).0
        ≡ (resolve_session sha256 token later s).0
  unfolding resolve_session prune_sessions get_user
  resolve_session-prune token now later s h le =
      ground (arith, by_key-delete (λ x. x.id) (is_over now) (sha256 token) s.sessions h)

  -- After a logout the token resolves to nothing.
  pub resolve_session-delete :
      (token : String) (later : ℕ) (s : AuthStore)
      → HasSessions s
      → (resolve_session sha256 token later (delete_session sha256 token s).1).0 ≡ none
  unfolding resolve_session delete_session
  resolve_session-delete token later s h = elim (Option-cases (session_of (sha256 token) s)) [
    | inl e ↦ ground (
      arith,
      by_key-delete (λ x. x.id) (λ x. same x.id (sha256 token)) (sha256 token) s.sessions h,
    )
    | inr (row, e) ↦ ground (
      arith,
      by_key-delete (λ x. x.id) (λ x. same x.id (sha256 token)) (sha256 token) s.sessions h,
      by_key_sound (λ x. x.id) (sha256 token) s.sessions row e,
      eq_iff row.id (sha256 token),
    )
  ]
