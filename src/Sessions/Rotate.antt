-- ===== src/Sessions/Rotate.antt =====
-- The rotation of refresh tokens: backend/internal/sessions/service_rotate.go.
use pdv.Base.{
  ◌+◌, ◌-◌, Bool, String, false, not, ℕ, List, [], ◌∷◌, some, if◌then◌else◌, Result, ok, err,
  fail_if, map_err,
}
use pdv.Errors.{Text, codes, wrap}
use pdv.Database.Rows.{Uuid, Time}
use pdv.Database.Identity.{
  AuthSession, AuthSessionStatus, active, revoked, compromised, expired, AuthRefreshToken,
  UserStatus, user_active, user_suspended, user_disabled, success, failure,
}
use pdv.Database.Store.{Environment, pure, lift, on_error, with_tx, ◌>>=◌, ◌>>◌}
use pdv.Database.Sessions.{
  is_none, is_active, get_refresh_token_for_update, get_auth_session_for_update,
  consume_and_replace_refresh_token, revoke_session_refresh_tokens, mark_session_compromised,
  touch_session,
}
use pdv.Sessions.Errors.{
  Sentinel, SessionsError, because, refresh_token_invalid, refresh_token_expired,
  refresh_token_reused, session_not_found, session_revoked, session_expired, session_compromised,
  user_suspended as user_suspended_error, user_disabled as user_disabled_error,
}
use pdv.Sessions.Input.{Dependencies, ParsedRefreshToken, RequestMetadata}
use pdv.Sessions.Service.{
  Command, subject_of, missing_or, unavailable, after, capped, write_audit_event,
  invalidate_session, reading, issue_token,
}

abbrev pub status_error : AuthSessionStatus → Sentinel
status_error revoked = session_revoked
status_error compromised = session_compromised
status_error expired = session_expired
status_error active = session_revoked

abbrev pub status_text : AuthSessionStatus → String
status_text active = "session status is ACTIVE"
status_text revoked = "session status is REVOKED"
status_text compromised = "session status is COMPROMISED"
status_text expired = "session status is EXPIRED"

pub record RotateResult : Type 0 where
  pub session : AuthSession
  pub raw_refresh_token : Text
  pub expires_in : ℕ
  pub must_clear_cookies : Bool

-- The transaction of a rotation ends with a new token, or with the session of a token that is used again.
pub data Rotation : Type 0 where
  rotated : RotateResult → Uuid → Rotation
  reused : Uuid → Rotation

module _ (env : Environment) (deps : Dependencies) where
  -- The metadata of the audit events.
  abbrev pub reuse_metadata : AuthRefreshToken → List (Text × Text)
  reuse_metadata token =
      (codes "token_id", env.uuid_string token.id)
      ∷ (codes "session_id", env.uuid_string token.session_id)
      ∷ (codes "previous_status", codes "ACTIVE")
      ∷ (codes "new_status", codes "COMPROMISED")
      ∷ []

  abbrev pub refreshed_metadata : AuthRefreshToken → Uuid → List (Text × Text)
  refreshed_metadata token child =
      (codes "previous_token_id", env.uuid_string token.id)
      ∷ (codes "new_token_id", env.uuid_string child)
      ∷ []

  unfoldable pub handle_reuse : AuthRefreshToken → RequestMetadata → Command (Unit {0})
  unfolding write_audit_event
  handle_reuse token meta = do
    marked ←
        on_error
          (missing_or session_not_found "session not found for reuse handling"
            (unavailable ": mark session compromised: "))
          (mark_session_compromised env token.session_id (codes "refresh_token_reused"))
    on_error (unavailable ": revoke session refresh tokens: ")
        (revoke_session_refresh_tokens env token.session_id)
    on_error (unavailable ": write refresh reuse audit event: ") (
        write_audit_event env deps "auth.refresh.reused" failure (reuse_metadata token) meta
          (subject_of marked))

  -- The checks on the token, before it is seen whether it was consumed.
  unfoldable pub check_token : Text → AuthRefreshToken → Time → Result SessionsError (Unit {0})
  check_token secret token now =
      if not (deps.verify_secret secret token.secret_hash)
      then err (because refresh_token_invalid "invalid secret")
      else if not (is_none token.revoked_at)
      then err (because refresh_token_invalid "token is revoked")
      else fail_if (after now token.expires_at) (because refresh_token_expired "token expired")

  abbrev pub check_user : UserStatus → Result SessionsError (Unit {0})
  check_user user_active = ok tt
  check_user user_suspended = err (because user_suspended_error "user is suspended")
  check_user user_disabled = err (because user_disabled_error "user is disabled")

  unfoldable pub check_session : AuthSession → UserStatus → Time → Result SessionsError (Unit {0})
  check_session s user now =
      if not (is_active s.status)
      then err (because (status_error s.status) (status_text s.status))
      else check_deadlines (check_user user)
    where
      check_deadlines : Result SessionsError (Unit {0}) → Result SessionsError (Unit {0})
      check_deadlines (err e) = err e
      check_deadlines (ok _) =
          if after now s.idle_expires_at
          then err (because session_expired "session idle expired")
          else fail_if (after now s.absolute_expires_at)
              (because session_expired "session absolute expired")

  -- The child is created, then the token is consumed, then the session is touched.
  unfoldable pub replace_token :
      AuthRefreshToken → AuthSession → Time → RequestMetadata → Command Rotation
  unfolding issue_token write_audit_event
  replace_token token s now meta = do
    let idle = capped (now + deps.refresh_idle_ttl) s.absolute_expires_at
    child ←
        issue_token env deps "generate child token selector" "generate child token"
          "create child refresh token" token.session_id (some token.id) s.absolute_expires_at
    on_error
        (missing_or refresh_token_invalid "token could not be consumed"
          (wrap "consume and replace refresh token"))
        (consume_and_replace_refresh_token env token.session_id token.id child.0)
    on_error (wrap "touch session") (touch_session env token.session_id s.user_id idle)
    on_error (wrap "write refresh audit event") (
        write_audit_event env deps "auth.refreshed" success (refreshed_metadata token child.0) meta
          (subject_of s))
    pure (
        rotated
          (record {
            session = s;
            raw_refresh_token = child.1;
            expires_in = idle - now;
            must_clear_cookies = false;
          })
          token.session_id)

  unfoldable pub rotate_tx : ParsedRefreshToken → Time → RequestMetadata → Command Rotation
  unfolding handle_reuse check_token check_session replace_token
  rotate_tx parsed now meta = do
    token ←
        on_error (missing_or refresh_token_invalid "token not found" (unavailable ": "))
          (get_refresh_token_for_update env parsed.selector)
    lift (check_token parsed.secret token now)
    if is_none token.consumed_at
        then (on_error (missing_or session_not_found "session not found" (unavailable ": "))
              (get_auth_session_for_update env token.session_id)
            >>= λ row.
                lift (check_session row.0 row.1 now) >>= λ _. replace_token token row.0 now meta)
        else (handle_reuse token meta >>= λ _. pure (reused token.session_id))

  abbrev pub finish : Rotation → Command RotateResult
  finish (rotated result id) = invalidate_session env deps id >>= λ _. pure result
  finish (reused id) = invalidate_session env deps id >>= λ _.
      lift (err (because refresh_token_reused "token was already consumed"))

  unfoldable pub rotate_refresh_token : Text → RequestMetadata → Command RotateResult
  unfolding rotate_tx
  rotate_refresh_token raw meta = do
    parsed ← lift (map_err (wrap "parse refresh token") (deps.parse raw))
    now ← reading env deps λ db. ok (deps.clock_now db)
    rotation ←
        on_error (wrap "rotate refresh token transaction") (with_tx env (rotate_tx parsed now meta))
    finish rotation
