-- ===== src/Sessions/Service.antt =====
-- The service of backend/internal/sessions: service_create.go, and what the rotation and the revocations share
-- with it. A session of the Go code (sessionFromDBRow) has the fields of the row.
use pdv.Base.{
  ◌==◌, ◌+◌, ltb, Bool, not, String, List, [], ◌∷◌, ◌++◌, Option, none, some, if◌then◌else◌, Result,
  ok, fail_if, map_err,
}
use pdv.Errors.{Text, codes, sentinel, message, wrap, both, is_no_rows}
use pdv.Text.{is_empty}
use pdv.Database.Rows.{Uuid, Time}
use pdv.Database.Identity.{AuthSession, active, AuthRefreshToken, AuditOutcome, SecurityAuditEvent}
use pdv.Database.Store.{Db, Environment, Action, pure, lift, on_error, with_tx, ◌>>=◌, ◌>>◌}
use pdv.Database.Sessions.{create_auth_session, create_refresh_token, create_audit_event}
use pdv.Sessions.Errors.{Sentinel, SessionsError, because, dependency_unavailable}
use pdv.Sessions.Input.{
  Dependencies, RequestMetadata, CreateSessionInput, validate_client_id, validate_context_coherence,
}

abbrev pub Command : Type 0 → Type 0
Command = Action Sentinel

-- auditSubject
pub record AuditSubject : Type 0 where
  pub user_id : Option Uuid
  pub membership_id : Option Uuid
  pub organization_id : Option Uuid
  pub store_id : Option Uuid
  pub session_id : Option Uuid

abbrev pub subject_of : AuthSession → AuditSubject
subject_of s = record {
  user_id = some s.user_id;
  membership_id = s.current_membership_id;
  organization_id = s.current_organization_id;
  store_id = s.current_store_id;
  session_id = some s.id;
}

abbrev pub non_empty : Text → Option Text
non_empty t = if is_empty t then none else some t

-- An error that a missing row explains, and any other error of the database.
abbrev pub missing_or :
    Sentinel → String → (SessionsError → SessionsError) → SessionsError → SessionsError
missing_or s text other e = if is_no_rows e then because s text else other e

-- fmt.Errorf("%w: text: %w", ErrDependencyUnavailable, err)
abbrev pub unavailable : String → SessionsError → SessionsError
unavailable text e = both text (sentinel dependency_unavailable) e

pub record CreateSessionResult : Type 0 where
  pub session : AuthSession
  pub raw_refresh_token : Text

-- NOT NULL columns: the two checks on a session's deadlines, `now.After(t)`.
abbrev pub after : Time → Time → Bool
after now t = ltb t now

-- newIdleExpiresAt and idleExpiresAt
abbrev pub capped : Time → Time → Time
capped idle absolute = if after idle absolute then absolute else idle

module _ (env : Environment) (deps : Dependencies) where
  -- The row of an audit event.
  abbrev pub audit_row :
      String
      → AuditOutcome
      → List (Text × Text)
      → RequestMetadata
      → AuditSubject
      → Db
      → SecurityAuditEvent
  audit_row event_type outcome metadata meta subject db = record {
    id = env.new_id db;
    organization_id = subject.organization_id;
    store_id = subject.store_id;
    actor_user_id = subject.user_id;
    actor_membership_id = subject.membership_id;
    session_id = subject.session_id;
    event_type = codes event_type;
    request_id = non_empty meta.request_id;
    ip_address = if is_empty meta.client_ip then none else deps.parse_addr meta.client_ip;
    user_agent = non_empty meta.user_agent;
    outcome = outcome;
    metadata = metadata;
    occurred_at = env.now db;
  }

  unfoldable pub write_audit_event :
      String
      → AuditOutcome
      → List (Text × Text)
      → RequestMetadata
      → AuditSubject
      → Command (Unit {0})
  write_audit_event event_type outcome metadata meta subject =
      on_error (wrap "create audit event")
        (create_audit_event env (audit_row event_type outcome metadata meta subject))

  -- s.cacheInvalidator.InvalidateSession, behind the transaction.
  abbrev pub invalidate_session : Uuid → Command (Unit {0})
  invalidate_session id db =
      (ok tt, record db { invalidated_sessions = db.invalidated_sessions ++ id ∷ [] })

  abbrev pub invalidate_sessions : List Uuid → Command (Unit {0})
  invalidate_sessions [] = pure tt
  invalidate_sessions (id ∷ ids) = invalidate_session id >>= λ _. invalidate_sessions ids

  -- The row of a new session; it is created active.
  abbrev pub session_row : CreateSessionInput → Time → Time → Db → AuthSession
  session_row input idle absolute db = record {
    id = env.new_id db;
    user_id = input.user_id;
    status = active;
    client_id = input.client_id;
    device_name = input.device_name;
    user_agent = input.user_agent;
    ip_address = input.ip_address;
    context_kind = input.context_kind;
    current_organization_id = input.organization_id;
    current_membership_id = input.membership_id;
    current_store_id = input.store_id;
    idle_expires_at = idle;
    absolute_expires_at = absolute;
    last_seen_at = env.now db;
    revoked_at = none;
    revoke_reason = none;
    created_at = env.now db;
    updated_at = env.now db;
  }

  abbrev pub token_row : Uuid → Uuid → Option Uuid → Text → Time → Time → AuthRefreshToken
  token_row id session_id parent hash expires now = record {
    id = id;
    session_id = session_id;
    parent_token_id = parent;
    replaced_by_token_id = none;
    secret_hash = hash;
    expires_at = expires;
    consumed_at = none;
    revoked_at = none;
    created_at = now;
  }

  -- What depends on the run is read where it is used.
  abbrev pub reading : {A : Type 0} → (Db → Result SessionsError A) → Command A
  reading f db = (f db, db)

  -- A new selector and secret, and the row of the token: CreateSessionInTx and RotateRefreshToken do the same
  -- with texts of their own.
  unfoldable pub issue_token :
      String → String → String → Uuid → Option Uuid → Time → Command (Uuid × Text)
  issue_token selector_text secret_text text session_id parent expires = do
    id ← on_error (wrap selector_text) (reading deps.random_uuid)
    generated ← on_error (wrap secret_text) (reading λ db. deps.generate db id)
    now ← reading λ db. ok (env.now db)
    token ←
        on_error (wrap text)
          (create_refresh_token env (token_row id session_id parent generated.1 expires now))
    lift (
        fail_if (not (token.id == id))
          (wrap text (message "persisted selector does not match generated selector")))
    pure (token.id, generated.0)

  unfoldable pub create_session_in_tx : CreateSessionInput → Command CreateSessionResult
  unfolding issue_token
  create_session_in_tx input = do
    lift (map_err (wrap "validate session client") (validate_client_id input.client_id))
    lift (
        map_err (wrap "validate session context") (
          validate_context_coherence input.context_kind input.organization_id input.membership_id
            input.store_id))
    now ← reading λ db. ok (deps.clock_now db)
    let absolute = now + deps.session_absolute_ttl
    row ← on_error (wrap "create auth session") (
        create_auth_session env
          (session_row input (capped (now + deps.refresh_idle_ttl) absolute) absolute))
    issued ←
        issue_token "create refresh token selector" "generate initial refresh token"
          "create initial refresh token" row.id none absolute
    pure (record { session = row; raw_refresh_token = issued.1 })

  unfoldable pub create_session : CreateSessionInput → Command CreateSessionResult
  unfolding create_session_in_tx
  create_session input =
      on_error (wrap "create session transaction") (with_tx env (create_session_in_tx input))
