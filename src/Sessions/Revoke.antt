-- ===== src/Sessions/Revoke.antt =====
-- The revocation of sessions: backend/internal/sessions/service_revoke.go.
use pdv.Base.{
  ◌==◌, Bool, true, false, not, String, List, [], ◌∷◌, length, Option, none, some, if◌then◌else◌,
  fail_if,
}
use pdv.Errors.{Text, codes, wrap}
use pdv.Text.{decimal}
use pdv.Database.Rows.{Uuid}
use pdv.Database.Identity.{AuthSession, success}
use pdv.Database.Store.{Environment, pure, lift, on_error, with_tx, ◌>>=◌, ◌>>◌}
use pdv.Database.Sessions.{
  is_active, get_auth_session_for_update, revoke_session_refresh_tokens,
  revoke_all_user_refresh_tokens, revoke_session_row, revoke_all_active_user_sessions,
}
use pdv.Sessions.Errors.{because, session_not_found}
use pdv.Sessions.Input.{Dependencies, RequestMetadata}
use pdv.Sessions.Service.{
  Command, subject_of, missing_or, unavailable, write_audit_event, invalidate_session,
  invalidate_sessions,
}

pub record RevokeResult : Type 0 where
  pub session : AuthSession
  pub must_clear_cookies : Bool

pub record RevokeAllResult : Type 0 where
  pub affected_session_ids : List Uuid
  pub must_clear_cookies : Bool

module _ (env : Environment) (deps : Dependencies) where
  abbrev pub revoked_metadata : Text → Uuid → List (Text × Text)
  revoked_metadata reason id =
      (codes "reason", reason)
      ∷ (codes "session_id", env.uuid_string id)
      ∷ (codes "previous_status", codes "ACTIVE")
      ∷ (codes "new_status", codes "REVOKED")
      ∷ []

  -- Where the session is active it is revoked, and its tokens are revoked in any case.
  unfoldable pub revoke_active : Uuid → Uuid → Text → AuthSession → Command AuthSession
  revoke_active id user_id reason s =
      if is_active s.status
      then on_error
          (missing_or session_not_found "target session is not active"
            (unavailable ": revoke session: "))
          (revoke_session_row env id user_id reason)
      else pure s

  abbrev pub audit_revocation :
      String → Text → Uuid → AuthSession → RequestMetadata → Command (Unit {0})
  audit_revocation event_type reason id s meta =
      if is_active s.status
      then on_error (unavailable ": write session revoke audit event: ") (
          write_audit_event env deps event_type success (revoked_metadata reason id) meta
            (subject_of s))
      else pure tt

  abbrev pub same_uuid : Uuid → Option Uuid → Bool
  same_uuid id none = false
  same_uuid id (some other) = id == other

  unfoldable pub revoke_session_tx :
      Uuid → Uuid → Option Uuid → Text → String → RequestMetadata → Command RevokeResult
  unfolding revoke_active write_audit_event
  revoke_session_tx actor_user_id id current reason event_type meta = do
    row ←
        on_error
          (missing_or session_not_found "target session does not exist"
            (unavailable ": get target session: "))
          (get_auth_session_for_update env id)
    lift (
        fail_if (not (row.0.user_id == actor_user_id))
          (because session_not_found "target session does not exist"))
    session ← revoke_active id actor_user_id reason row.0
    on_error (unavailable ": revoke refresh tokens: ") (revoke_session_refresh_tokens env id)
    audit_revocation event_type reason id row.0 meta
    pure (record { session = session; must_clear_cookies = same_uuid id current })

  unfoldable pub revoke_session :
      Uuid → Uuid → Option Uuid → Text → String → RequestMetadata → Command RevokeResult
  unfolding revoke_session_tx
  revoke_session actor_user_id id current reason event_type meta = do
    result ←
        on_error (wrap "revoke session transaction")
          (with_tx env (revoke_session_tx actor_user_id id current reason event_type meta))
    invalidate_session env deps id
    pure result

  -- RevokeCurrentSession, RevokeSession and RevokeSessionWithCurrent
  unfoldable pub revoke_current_session : Uuid → Uuid → RequestMetadata → Command RevokeResult
  unfolding revoke_session
  revoke_current_session user_id id meta =
      revoke_session user_id id (some id) (codes "user_logged_out") "auth.logged_out" meta

  unfoldable pub revoke_session_with_current :
      Uuid → Uuid → Option Uuid → RequestMetadata → Command RevokeResult
  unfolding revoke_session
  revoke_session_with_current user_id id current meta =
      revoke_session user_id id current (codes "user_revoked") "session.revoked" meta

  unfoldable pub revoke_all_user_sessions_in_tx : Uuid → Text → Command (List Uuid)
  revoke_all_user_sessions_in_tx user_id reason = do
    ids ←
        on_error (unavailable ": revoke all user sessions: ")
          (revoke_all_active_user_sessions env user_id reason)
    on_error (unavailable ": revoke all user refresh tokens: ")
        (revoke_all_user_refresh_tokens env user_id)
    pure ids

  -- The loop that looks for the current session.
  abbrev pub contains : Uuid → List Uuid → Bool
  contains id [] = false
  contains id (x ∷ xs) = if x == id then true else contains id xs

  unfoldable pub revoke_all_tx : Uuid → Uuid → RequestMetadata → Command RevokeAllResult
  unfolding revoke_all_user_sessions_in_tx write_audit_event
  revoke_all_tx user_id current meta = do
    ids ← revoke_all_user_sessions_in_tx user_id (codes "user_logged_out_all")
    on_error (unavailable ": write revoke-all audit event: ") (
        write_audit_event env deps "auth.logged_out_all" success
          ((codes "reason", codes "user_logged_out_all")
            ∷ (codes "affected_session_count", decimal (length ids))
            ∷ [])
          meta
          (record {
            user_id = some user_id;
            membership_id = none;
            organization_id = none;
            store_id = none;
            session_id = some current;
          }))
    pure (record { affected_session_ids = ids; must_clear_cookies = contains current ids })

  unfoldable pub revoke_all_user_sessions : Uuid → Uuid → RequestMetadata → Command RevokeAllResult
  unfolding revoke_all_tx
  revoke_all_user_sessions user_id current meta = do
    result ←
        on_error (wrap "revoke all sessions transaction")
          (with_tx env (revoke_all_tx user_id current meta))
    invalidate_sessions env deps result.affected_session_ids
    pure result
