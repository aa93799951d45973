-- ===== src/Sessions/Keeps.antt =====
-- The commands on sessions keep the guard.
use mathlib.Core.Path.{subst}
use pdv.Base.{
  ℕ, ◌+◌, ◌≤◌, ◌≡◌, refl, ap, arith, ◌==◌, Bool, true, not, Option, none, some, List, Result, ok,
  String, inl, inr, Bool-cases, fail_if, map_err,
}
use pdv.Errors.{Text, codes, wrap, message}
use pdv.Database.Rows.{Uuid, Time}
use pdv.Database.Identity.{
  AuthSession, AuthRefreshToken, UserStatus, SecurityAuditEvent, AuditOutcome, success, failure,
}
use pdv.Database.Store.{Db, Environment}
use pdv.Database.Ensures.{Ensures, Ensures-bind, Ensures-lift, Ensures-pure, Ensures-on_error}
use pdv.Database.Sessions.{is_active}
use pdv.Sessions.Errors.{SessionsError}
use pdv.Sessions.Input.{
  Dependencies, RequestMetadata, CreateSessionInput, validate_client_id, validate_context_coherence,
}
use pdv.Sessions.Guard.{IsOpen, GuardedDb, IsGuarded, nobody, one, weaker_bound, All-map, IsOwned}
use pdv.Sessions.Statements.{
  all_but, one_more, one_less, audit_ensures, create_session_ensures, create_token_ensures,
  consume_ensures, revoke_tokens_ensures, mark_ensures, touch_ensures,
}
use pdv.Sessions.Service.{
  Command, AuditSubject, subject_of, capped, reading, session_row, token_row, issue_token,
  create_session_in_tx, write_audit_event, unavailable,
}
use pdv.Sessions.Rotate.{
  handle_reuse, check_session, replace_token, reuse_metadata, refreshed_metadata,
}

capped_le : (idle absolute : Time) → capped idle absolute ≤ absolute
capped_le idle absolute = ground arith

pub widened :
    (bound bound' : Uuid → ℕ)
    → ((id : Uuid) → bound id ≤ bound' id)
    → (db : Db) → GuardedDb nobody bound db
    → GuardedDb nobody bound' db
widened bound bound' h db g =
    weaker_bound nobody bound bound' db.auth_sessions db.auth_refresh_tokens h g

Ensures-then :
    {A : Type 0} {P Q R : Db → Type 0} {m : Command A}
    → ((db : Db) → Q db → R db)
    → Ensures P m (λ _. Q)
    → Ensures P m (λ _. R)
Ensures-then w h = record { at = λ db p a db' e. w db' (h.at db p a db' e) }

-- No session is looked away from, and any is.
pub looking_away : (besides : Uuid → Bool) (db : Db) → IsGuarded db → GuardedDb besides one db
looking_away besides db g = record {
  deadlines = g.deadlines;
  owners =
      All-map (IsOwned nobody db.auth_sessions) (IsOwned besides db.auth_sessions)
        db.auth_refresh_tokens (λ t owned l _. owned l refl) g.owners;
  single = g.single;
}

module _ (env : Environment) (deps : Dependencies) where
  pub reading_ensures :
      {A : Type 0} (P : Db → Type 0) (f : Db → Result SessionsError A)
      → Ensures P (reading env deps f) (λ _. P)
  reading_ensures P f = record { at = λ db p a db' e. subst P (ap (λ t. t.1) e) p }

  pub write_audit_ensures :
      (P : Db → Type 0)
      → ((db : Db) (rows : List SecurityAuditEvent)
          → P db
          → P (record db { security_audit_events = rows }))
      → (event_type : String) (outcome : AuditOutcome) (metadata : List (Text × Text))
        (meta : RequestMetadata) (subject : AuditSubject)
      → Ensures P (write_audit_event env deps event_type outcome metadata meta subject) (λ _. P)
  unfolding write_audit_event
  write_audit_ensures P blind event_type outcome metadata meta subject =
      Ensures-on_error _ _ _ _ (audit_ensures env P blind _)

  pub issue_ensures :
      (bound : Uuid → ℕ) (selector_text secret_text text : String) (session_id : Uuid)
      (parent : Option Uuid) (expires : Time)
      → Ensures
          (λ db. GuardedDb nobody bound db × IsOpen db.auth_sessions session_id)
          (issue_token env deps selector_text secret_text text session_id parent expires)
          (λ _. GuardedDb nobody (one_more bound session_id))
  unfolding issue_token
  issue_ensures bound selector_text secret_text text session_id parent expires =
      Ensures-bind _ (λ _ db. GuardedDb nobody bound db × IsOpen db.auth_sessions session_id) _ _ _
        (Ensures-on_error _ _ (wrap selector_text) _ (reading_ensures _ deps.random_uuid))
        λ id.
          Ensures-bind _ (λ _ db. GuardedDb nobody bound db × IsOpen db.auth_sessions session_id) _
            _ _
            (Ensures-on_error _ _ (wrap secret_text) _
              (reading_ensures _ λ db. deps.generate db id))
            λ generated.
              Ensures-bind _
                (λ _ db. GuardedDb nobody bound db × IsOpen db.auth_sessions session_id) _ _ _
                (reading_ensures _ λ db. ok (env.now db))
                λ now.
                  Ensures-bind _ (λ _. GuardedDb nobody (one_more bound session_id)) _ _ _
                    (Ensures-on_error _ _ (wrap text) _ (
                      create_token_ensures env bound
                        (token_row env deps id session_id parent generated.1 expires now)))
                    λ token.
                      Ensures-bind _ (λ _. GuardedDb nobody (one_more bound session_id)) _ _ _
                        (Ensures-lift _ _
                          (fail_if (not (token.id == id)) (
                            wrap text
                              (message "persisted selector does not match generated selector")))
                          λ a db e g. g)
                        λ _. Ensures-pure _ _ (token.id, generated.0) λ db g. g

  pub create_in_tx_ensures :
      (input : CreateSessionInput)
      → Ensures IsGuarded (create_session_in_tx env deps input) (λ _. IsGuarded)
  unfolding create_session_in_tx
  create_in_tx_ensures input =
      Ensures-bind _ (λ _. IsGuarded) _ _ _
        (Ensures-lift _ _
          (map_err (wrap "validate session client") (validate_client_id input.client_id))
          λ a db e g. g)
        λ _.
          Ensures-bind _ (λ _. IsGuarded) _ _ _
            (Ensures-lift _ _
              (map_err (wrap "validate session context") (
                validate_context_coherence input.context_kind input.organization_id
                  input.membership_id input.store_id))
              λ a db e g. g)
            λ _.
              Ensures-bind _ (λ _. IsGuarded) _ _ _ (reading_ensures _ λ db. ok (deps.clock_now db))
                λ now.
                  let absolute = now + deps.session_absolute_ttl in
                  let idle = capped (now + deps.refresh_idle_ttl) absolute in
                  Ensures-bind _
                    (λ s db. GuardedDb nobody (all_but s.id) db × IsOpen db.auth_sessions s.id) _ _
                    _
                    (Ensures-on_error _ _ (wrap "create auth session") _ (
                      create_session_ensures env (session_row env deps input idle absolute)
                        λ db. (capped_le (now + deps.refresh_idle_ttl) absolute, refl)))
                    λ row.
                      Ensures-bind _ (λ _. GuardedDb nobody (one_more (all_but row.id) row.id)) _ _
                        _
                        (issue_ensures (all_but row.id) "create refresh token selector"
                          "generate initial refresh token" "create initial refresh token" row.id
                          none absolute)
                        λ issued.
                          Ensures-pure _ _ (record { session = row; raw_refresh_token = issued.1 })
                            (widened (one_more (all_but row.id) row.id) one (λ id. ground arith))

  pub reuse_ensures :
      (token : AuthRefreshToken) (meta : RequestMetadata)
      → Ensures IsGuarded (handle_reuse env deps token meta) (λ _. IsGuarded)
  unfolding handle_reuse
  reuse_ensures token meta =
      Ensures-bind _ (λ _. GuardedDb (λ other. token.session_id == other) one) _ _ _
        (Ensures-on_error _ _ _ _
          (mark_ensures env token.session_id (codes "refresh_token_reused")))
        λ marked.
          Ensures-bind _ (λ _. IsGuarded) _ _ _
            (Ensures-on_error _ _ _ _ (revoke_tokens_ensures env token.session_id))
            λ _. Ensures-on_error _ _ (unavailable ": write refresh reuse audit event: ") _ (
              write_audit_ensures IsGuarded (λ db rows g. g) "auth.refresh.reused" failure
                (reuse_metadata env deps token) meta (subject_of marked))

  pub check_session_active :
      (s : AuthSession) (user : UserStatus) (now : Time)
      → check_session env deps s user now ≡ ok tt
      → is_active s.status ≡ true
  unfolding check_session
  check_session_active s user now e = elim (Bool-cases (is_active s.status)) [
    | inl is ↦ is
    | inr over ↦ cc (rw over at e)
  ]

  pub replace_ensures :
      (token : AuthRefreshToken) (s : AuthSession) (now : Time) (meta : RequestMetadata)
      → Ensures
          (λ db. IsGuarded db × IsOpen db.auth_sessions token.session_id)
          (replace_token env deps token s now meta)
          (λ _. IsGuarded)
  unfolding replace_token
  replace_ensures token s now meta =
      Ensures-bind _ (λ _. GuardedDb nobody (one_more one token.session_id)) _ _ _
        (issue_ensures one "generate child token selector" "generate child token"
          "create child refresh token" token.session_id (some token.id) s.absolute_expires_at)
        λ child.
          Ensures-bind _ (λ _. IsGuarded) _ _ _
            (Ensures-on_error _ _ _ _ (
              Ensures-then
                (λ db g.
                  widened (one_less (one_more one token.session_id) token.session_id) one
                    (λ id. ground arith) db g)
                (consume_ensures env (one_more one token.session_id) token.session_id token.id
                  child.0)))
            λ _.
              Ensures-bind _ (λ _. IsGuarded) _ _ _
                (Ensures-on_error _ _ _ _ (touch_ensures env token.session_id s.user_id _))
                λ _.
                  Ensures-bind _ (λ _. IsGuarded) _ _ _
                    (Ensures-on_error _ _ (wrap "write refresh audit event") _ (
                      write_audit_ensures IsGuarded (λ db rows g. g) "auth.refreshed" success
                        (refreshed_metadata env deps token child.0) meta (subject_of s)))
                    λ _. Ensures-pure _ _ _ λ db g. g
