-- ===== src/Auth/Sessions.antt =====
-- The login sessions of app/auth.py. The table holds the SHA-256 of the cookie's token; the hash is the
-- standard library's, and a parameter here, as are the random tokens. Times are whole seconds.
use smdr.Auth.Users.{get_user}
use smdr.Table.Keys.{by_key}
use smdr.Table.{count, update, delete}
use smdr.Prelude.{
  Option, String, ℕ, Bool, some, none, ltb, coalesce, ◌++◌, same, ◌||◌, ◌+◌, if◌then◌else◌, ◌∷◌, [],
}
use smdr.Auth.Store.{AuthStore, Session, User}

abbrev pub session_idle_seconds : ℕ
session_idle_seconds = 28800

abbrev pub session_abs_seconds : ℕ
session_abs_seconds = 86400

-- What `resolve_session` returns of a live session; an absent column reads "".
pub record SessionInfo : Type 0 where
  pub userid : String
  pub deptid : String
  pub name : String
  pub email : String
  pub description : String
  pub csrf_token : String

unfoldable pub session_info : Session → Option User → SessionInfo
session_info row none = record {
  userid = row.userid;
  deptid = "";
  name = "";
  email = "";
  description = "";
  csrf_token = row.csrf_token;
}
session_info row (some u) = record {
  userid = row.userid;
  deptid = coalesce u.deptid "";
  name = coalesce u.name "";
  email = coalesce u.email "";
  description = coalesce u.description "";
  csrf_token = row.csrf_token;
}

abbrev pub session_of : String → AuthStore → Option Session
session_of sid s = by_key (λ x. x.id) sid s.sessions

-- now > expires_at or now - last_seen_at > SESSION_IDLE_SECONDS
abbrev pub is_over : ℕ → Session → Bool
is_over now row = ltb row.expires_at now || ltb (row.last_seen_at + session_idle_seconds) now

module _ (sha256 : String → String) where
  -- `none` is the IntegrityError of a session id that is taken.
  unfoldable pub create_session : String → String → String → ℕ → AuthStore → Option AuthStore
  create_session token csrf userid now s = elim (session_of (sha256 token) s) [
    | some _ ↦ none
    | none ↦ some (record s {
      sessions =
          s.sessions
          ++ (record {
            id = sha256 token;
            userid = userid;
            created_at = now;
            last_seen_at = now;
            expires_at = now + session_abs_seconds;
            csrf_token = csrf;
          })
            ∷ [];
    })
  ]

  -- The row is seen at most once a minute.
  unfoldable pub resolve_session : String → ℕ → AuthStore → Option SessionInfo × AuthStore
  resolve_session token now s = elim (session_of (sha256 token) s) [
    | none ↦ (none, s)
    | some row ↦
        let seen = record s {
          sessions =
              update (λ x. same x.id (sha256 token)) (λ x. record x { last_seen_at = now })
                s.sessions;
        } in
        if is_over now row then (none, s) else (
          some (session_info row (get_user row.userid s)),
          if ltb (row.last_seen_at + 60) now then seen else s,
        )
  ]

  unfoldable pub delete_session : String → AuthStore → Bool × AuthStore
  delete_session token s = (
    ltb 0 (count (λ x. same x.id (sha256 token)) s.sessions),
    record s { sessions = delete (λ x. same x.id (sha256 token)) s.sessions },
  )

-- DELETE ... WHERE expires_at < now OR last_seen_at < now - SESSION_IDLE_SECONDS
unfoldable pub prune_sessions : ℕ → AuthStore → ℕ × AuthStore
prune_sessions now s =
    (count (is_over now) s.sessions, record s { sessions = delete (is_over now) s.sessions })
