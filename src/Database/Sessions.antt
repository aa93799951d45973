-- ===== src/Database/Sessions.antt =====
-- The statements of backend/internal/platform/database/sessions.sql.go that create, rotate and revoke, and the
-- audit event.
use pdv.Base.{
  ◌==◌, ◌&&◌, ltb, not, Bool, true, false, List, [], ◌∷◌, ◌++◌, Option, none, some, if◌then◌else◌,
  Result, ok, err, select, map,
}
use pdv.Errors.{Text, Error, pg_error, no_rows}
use pdv.Database.Rows.{Uuid, Time}
use pdv.Database.Identity.{
  User, UserStatus, AuthSession, AuthSessionStatus, active, revoked, compromised, AuthRefreshToken,
  SecurityAuditEvent,
}
use pdv.Database.Tables.{find, replace, update_all}
use pdv.Database.Store.{Db, Environment, Action, statement}

abbrev pub is_none : {A : Type 0} → Option A → Bool
is_none none = true
is_none (some _) = false

abbrev pub is_active : AuthSessionStatus → Bool
is_active active = true
is_active _ = false

abbrev pub session_at : Uuid → AuthSession → Bool
session_at id s = s.id == id

abbrev pub token_at : Uuid → AuthRefreshToken → Bool
token_at id t = t.id == id

-- LEAST
abbrev pub least : Time → Time → Time
least a b = if ltb b a then b else a

abbrev pub of_user : List AuthSession → Uuid → AuthRefreshToken → Bool
of_user sessions user_id t =
    not
      (is_none (find (λ (s : AuthSession). s.id == t.session_id && s.user_id == user_id) sessions))

abbrev pub ended : Environment → Db → AuthSessionStatus → Text → AuthSession → AuthSession
ended env db status reason s = record s {
  status = status;
  revoked_at = some (env.now db);
  revoke_reason = some reason;
  updated_at = env.now db;
}

module _ {S : Type 0} (env : Environment) where
  -- A row of the parameters that CreateAuthSession is given, with the defaults of the other columns.
  unfoldable pub create_auth_session : (Db → AuthSession) → Action S AuthSession
  unfolding statement
  create_auth_session row = statement env "CreateAuthSession" λ db.
      let s = row db in
      elim (find (λ (u : User). u.id == s.user_id) db.users) [
        | none ↦ err (pg_error "23503" "auth_sessions_user_id_fkey")
        | some _ ↦ elim (find (session_at s.id) db.auth_sessions) [
          | some _ ↦ err (pg_error "23505" "auth_sessions_pkey")
          | none ↦ ok (s, record db { auth_sessions = db.auth_sessions ++ s ∷ [] })
        ]
      ]

  unfoldable pub create_refresh_token : AuthRefreshToken → Action S AuthRefreshToken
  unfolding statement
  create_refresh_token t = statement env "CreateRefreshToken" λ db.
      elim (find (session_at t.session_id) db.auth_sessions) [
        | none ↦ err (pg_error "23503" "auth_refresh_tokens_session_id_fkey")
        | some _ ↦ elim (find (token_at t.id) db.auth_refresh_tokens) [
          | some _ ↦ err (pg_error "23505" "auth_refresh_tokens_pkey")
          | none ↦ ok (t, record db { auth_refresh_tokens = db.auth_refresh_tokens ++ t ∷ [] })
        ]
      ]

  abbrev pub found : {A : Type 0} → Db → Option A → Result (Error S) (A × Db)
  found db none = err no_rows
  found db (some a) = ok (a, db)

  unfoldable pub get_refresh_token_for_update : Uuid → Action S AuthRefreshToken
  unfolding statement
  get_refresh_token_for_update id =
      statement env "GetRefreshTokenForUpdate"
        λ db. found db (find (token_at id) db.auth_refresh_tokens)

  -- The join with the user. Of what is joined besides, the sessions read nothing.
  unfoldable pub get_auth_session_for_update : Uuid → Action S (AuthSession × UserStatus)
  unfolding statement
  get_auth_session_for_update id = statement env "GetAuthSessionForUpdate" λ db.
      elim (find (session_at id) db.auth_sessions) [
        | none ↦ err no_rows
        | some s ↦ elim (find (λ (u : User). u.id == s.user_id) db.users) [
          | none ↦ err no_rows
          | some u ↦ ok ((s, u.status), db)
        ]
      ]

  unfoldable pub consume_and_replace_refresh_token : Uuid → Uuid → Uuid → Action S AuthRefreshToken
  unfolding statement
  consume_and_replace_refresh_token session_id id child =
      statement env "ConsumeAndReplaceRefreshToken" λ db.
        let p = λ (t : AuthRefreshToken).
          t.session_id == session_id
          && t.id == id
          && is_none t.consumed_at
          && is_none t.revoked_at
          && ltb (env.now db) t.expires_at in
        let f = λ (t : AuthRefreshToken). record t {
          consumed_at = some (env.now db);
          replaced_by_token_id = some child;
        } in
        elim (find p db.auth_refresh_tokens) [
          | none ↦ err no_rows
          | some t ↦
              ok (f t, record db { auth_refresh_tokens = replace p f db.auth_refresh_tokens })
        ]

  unfoldable pub revoke_session_refresh_tokens : Uuid → Action S (Unit {0})
  unfolding statement
  revoke_session_refresh_tokens session_id = statement env "RevokeSessionRefreshTokens" λ db. ok (
    tt,
    record db {
      auth_refresh_tokens =
          update_all (λ t. t.session_id == session_id && is_none t.revoked_at)
            (λ t. record t { revoked_at = some (env.now db) }) db.auth_refresh_tokens;
    },
  )

  unfoldable pub revoke_all_user_refresh_tokens : Uuid → Action S (Unit {0})
  unfolding statement
  revoke_all_user_refresh_tokens user_id = statement env "RevokeAllUserRefreshTokens" λ db. ok (
    tt,
    record db {
      auth_refresh_tokens =
          update_all (λ t. is_none t.revoked_at && of_user db.auth_sessions user_id t)
            (λ t. record t { revoked_at = some (env.now db) }) db.auth_refresh_tokens;
    },
  )

  -- UPDATE of the one session for which the clause holds.
  unfoldable pub update_session :
      (AuthSession → Bool) → (AuthSession → AuthSession) → Db → Result (Error S) (AuthSession × Db)
  update_session p f db = elim (find p db.auth_sessions) [
    | none ↦ err no_rows
    | some s ↦ ok (f s, record db { auth_sessions = replace p f db.auth_sessions })
  ]

  unfoldable pub mark_session_compromised : Uuid → Text → Action S AuthSession
  unfolding statement update_session
  mark_session_compromised id reason = statement env "MarkSessionCompromised" λ db.
      update_session (λ s. session_at id s && is_active s.status) (ended env db compromised reason)
        db

  unfoldable pub revoke_session_row : Uuid → Uuid → Text → Action S AuthSession
  unfolding statement update_session
  revoke_session_row id user_id reason = statement env "RevokeSession" λ db.
      update_session (λ s. session_at id s && (s.user_id == user_id && is_active s.status))
        (ended env db revoked reason) db

  unfoldable pub touch_session : Uuid → Uuid → Time → Action S AuthSession
  unfolding statement update_session
  touch_session id user_id idle = statement env "TouchSession" λ db.
      update_session
        (λ s.
          session_at id s
          && (s.user_id == user_id
              && is_active s.status
              && ltb (env.now db) s.idle_expires_at
              && ltb (env.now db) s.absolute_expires_at))
        (λ s. record s {
          last_seen_at = env.now db;
          idle_expires_at = least idle s.absolute_expires_at;
          updated_at = env.now db;
        })
        db

  unfoldable pub revoke_all_active_user_sessions : Uuid → Text → Action S (List Uuid)
  unfolding statement
  revoke_all_active_user_sessions user_id reason = statement env "RevokeAllActiveUserSessions" λ db.
      let p = λ (s : AuthSession). s.user_id == user_id && is_active s.status in
      ok (
        map (λ s. s.id) (select p db.auth_sessions),
        record db { auth_sessions = update_all p (ended env db revoked reason) db.auth_sessions },
      )

  unfoldable pub create_audit_event : (Db → SecurityAuditEvent) → Action S (Unit {0})
  unfolding statement
  create_audit_event row =
      statement env "CreateAuditEvent"
        λ db. ok (tt, record db { security_audit_events = db.security_audit_events ++ row db ∷ [] })
