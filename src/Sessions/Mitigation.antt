-- ===== src/Sessions/Mitigation.antt =====
-- What the transaction of a rotation does on a token that was consumed, where no statement fails.
use pdv.Base.{◌≡◌, refl, arith, ◌==◌, ◌&&◌, Bool, true, false, List, [], ◌∷◌, ◌++◌, some, ok}
use pdv.Errors.{codes}
use pdv.Database.Rows.{Uuid, Time}
use pdv.Database.Identity.{AuthSession, AuthRefreshToken, failure, compromised}
use pdv.Database.Tables.{find, replace, update_all}
use pdv.Database.Store.{Db, Environment, statement, with_tx}
use pdv.Database.Quiet.{IsQuiet, statement-quiet, with_tx-quiet}
use pdv.Database.Sessions.{
  is_none, is_active, session_at, token_at, found, ended, get_refresh_token_for_update,
  revoke_session_refresh_tokens, mark_session_compromised, update_session, create_audit_event,
}
use pdv.Sessions.Input.{Dependencies, ParsedRefreshToken, RequestMetadata}
use pdv.Sessions.Guard.{live_of, count}
use pdv.Sessions.Errors.{Sentinel}
use pdv.Sessions.Service.{subject_of, audit_row, write_audit_event, after}
use pdv.Sessions.Rotate.{reuse_metadata, handle_reuse, check_token, rotate_tx, reused}

-- No token of the session can be used.
abbrev pub IsShut : Uuid → Db → Type 0
IsShut session db = count (live_of session) db.auth_refresh_tokens ≡ 0

-- The session is found and is active.
abbrev pub is_live_session : Uuid → AuthSession → Bool
is_live_session id s = session_at id s && is_active s.status

revoked_count :
    (session : Uuid) (now : Time) (ts : List AuthRefreshToken)
    → count (live_of session) (
        update_all
          (λ t. t.session_id == session && is_none t.revoked_at)
          (λ t. record t { revoked_at = some now })
          ts)
      ≡ 0
revoked_count session now [] = refl
revoked_count session now (t ∷ ts) = ground (arith, revoked_count session now ts)

-- The row of the session that is found is compromised.
abbrev pub compromise : Environment → Db → Uuid → List AuthSession
compromise env db id =
    replace (is_live_session id) (ended env db compromised (codes "refresh_token_reused"))
      db.auth_sessions

module _ (env : Environment) (deps : Dependencies) (quiet : IsQuiet env) (db : Db)
    (t : AuthRefreshToken) (s : AuthSession)
    (live : find (is_live_session t.session_id) db.auth_sessions ≡ some s)
    (meta : RequestMetadata) where
  marked : Db
  marked = record db { auth_sessions = compromise env db t.session_id }

  shut : Db
  unfolding marked
  shut = record marked {
    auth_refresh_tokens =
        update_all (λ x. x.session_id == t.session_id && is_none x.revoked_at)
          (λ x. record x { revoked_at = some (env.now marked) }) db.auth_refresh_tokens;
  }

  -- The tables behind the mitigation.
  pub mitigated : Db
  unfolding shut
  mitigated = record shut {
    security_audit_events =
        shut.security_audit_events
        ++ audit_row env deps "auth.refresh.reused" failure (reuse_metadata env deps t) meta
            (subject_of (ended env db compromised (codes "refresh_token_reused") s)) shut
          ∷ [];
  }

  mark_step :
      mark_session_compromised {S = Sentinel} env t.session_id (codes "refresh_token_reused") db
      ≡ (ok (ended env db compromised (codes "refresh_token_reused") s), marked)
  unfolding mark_session_compromised update_session marked
  mark_step =
      statement-quiet env quiet "MarkSessionCompromised"
        (λ d.
          update_session env (is_live_session t.session_id)
            (ended env d compromised (codes "refresh_token_reused")) d)
        db (rw (update_session, live) refl)

  get_step :
      (id : Uuid)
      → find (token_at id) db.auth_refresh_tokens ≡ some t
      → get_refresh_token_for_update {S = Sentinel} env id db ≡ (ok t, db)
  unfolding get_refresh_token_for_update
  get_step id there =
      statement-quiet env quiet "GetRefreshTokenForUpdate"
        (λ d. found env d (find (token_at id) d.auth_refresh_tokens)) db (rw there refl)

  revoke_step : revoke_session_refresh_tokens {S = Sentinel} env t.session_id marked ≡ (ok tt, shut)
  unfolding revoke_session_refresh_tokens shut marked
  revoke_step = statement-quiet env quiet "RevokeSessionRefreshTokens" _ marked refl

  audit_step :
      write_audit_event env deps "auth.refresh.reused" failure
        (reuse_metadata env deps t)
        meta
        (subject_of (ended env db compromised (codes "refresh_token_reused") s))
        shut
      ≡ (ok tt, mitigated)
  unfolding write_audit_event create_audit_event statement mitigated
  audit_step = rw (quiet "CreateAuditEvent" shut) refl

  reuse_mitigates : handle_reuse env deps t meta db ≡ (ok tt, mitigated)
  unfolding handle_reuse
  reuse_mitigates = rw (mark_step, revoke_step, audit_step) refl

  pub mitigated_is :
      (mitigated.auth_sessions ≡ compromise env db t.session_id)
      × IsShut t.session_id mitigated
      × (mitigated.invalidated_sessions ≡ db.invalidated_sessions)
  unfolding mitigated marked shut
  mitigated_is = (refl, revoked_count t.session_id _ db.auth_refresh_tokens, refl)

  pub rotate_mitigates :
      (parsed : ParsedRefreshToken) (now : Time)
      → find (token_at parsed.selector) db.auth_refresh_tokens ≡ some t
      → deps.verify_secret parsed.secret t.secret_hash ≡ true
      → is_none t.revoked_at ≡ true
      → after now t.expires_at ≡ false
      → is_none t.consumed_at ≡ false
      → with_tx env (rotate_tx env deps parsed now meta) db ≡ (ok (reused t.session_id), mitigated)
  unfolding rotate_tx check_token
  rotate_mitigates parsed now there verified kept early spent =
      with_tx-quiet env quiet (rotate_tx env deps parsed now meta) db
        (rw (get_step parsed.selector there, verified, kept, early, spent, reuse_mitigates) refl)
