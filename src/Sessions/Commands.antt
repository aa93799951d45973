-- ===== src/Sessions/Commands.antt =====
-- The commands on sessions, whole: what they keep whether they succeed or fail, and a token that is used twice.
use pdv.Base.{
  ◌≡◌, ◌==◌, true, false, not, Option, some, ok, String, if◌then◌else◌, inl, inr, ◌⊎◌, Bool-cases,
  fail_if, map_err,
}
use pdv.Errors.{Text, wrap}
use pdv.Database.Rows.{Uuid, Time}
use pdv.Database.Identity.{AuthSession, AuthRefreshToken, UserStatus, success}
use pdv.Database.Tables.{find}
use pdv.Database.Store.{Db, Environment, lift, on_error, with_tx, pure, ◌>>=◌}
use pdv.Database.Ensures.{Ensures, Ensures-bind, Ensures-lift, Ensures-pure, Ensures-on_error}
use pdv.Database.Frames.{Keeps, Keeps-lift, Keeps-with_tx, Keeps-on_error, Keeps-bind}
use pdv.Database.Sessions.{is_none, is_active, session_at, get_auth_session_for_update}
use pdv.Sessions.Errors.{because, refresh_token_invalid, session_not_found}
use pdv.Sessions.Input.{Dependencies, ParsedRefreshToken, RequestMetadata, CreateSessionInput}
use pdv.Sessions.Guard.{IsOpen, GuardedDb, IsGuarded, one}
use pdv.Sessions.Statements.{
  get_token_ensures, get_session_ensures, revoke_tokens_ensures, revoke_row_ensures,
}
use pdv.Sessions.Keeps.{
  looking_away, write_audit_ensures, create_in_tx_ensures, reuse_ensures, check_session_active,
  replace_ensures,
}
use pdv.Sessions.Service.{
  Command, subject_of, reading, create_session, invalidate_session, missing_or, unavailable,
}
use pdv.Sessions.Rotate.{
  handle_reuse, check_token, check_session, replace_token, rotate_tx, finish, rotate_refresh_token,
  rotated, reused, Rotation,
}
use pdv.Sessions.Revoke.{
  revoke_active, audit_revocation, revoked_metadata, revoke_session_tx, revoke_session, same_uuid,
}

module _ (env : Environment) (deps : Dependencies) where
  -- A session that is found and passes its checks is open.
  rotate_open_ensures :
      (token : AuthRefreshToken) (row : AuthSession × UserStatus) (now : Time)
      (meta : RequestMetadata)
      → Ensures
          (λ db. IsGuarded db × (find (session_at token.session_id) db.auth_sessions ≡ some row.0))
          (lift (check_session env deps row.0 row.1 now) >>= λ _.
            replace_token env deps token row.0 now meta)
          (λ _. IsGuarded)
  rotate_open_ensures token row now meta =
      Ensures-bind _ (λ _ db. IsGuarded db × IsOpen db.auth_sessions token.session_id) _ _ _
        (Ensures-lift _ _ (check_session env deps row.0 row.1 now)
          λ a db e p. (p.0, (row.0, p.1, check_session_active env deps row.0 row.1 now e)))
        λ _. replace_ensures env deps token row.0 now meta

  rotate_tx_ensures :
      (parsed : ParsedRefreshToken) (now : Time) (meta : RequestMetadata)
      → Ensures IsGuarded (rotate_tx env deps parsed now meta) (λ _. IsGuarded)
  unfolding rotate_tx
  rotate_tx_ensures parsed now meta =
      Ensures-bind _ (λ _. IsGuarded) _ _ _
        (Ensures-on_error _ _
          (missing_or refresh_token_invalid "token not found" (unavailable ": ")) _
          (get_token_ensures env IsGuarded parsed.selector))
        λ token.
          Ensures-bind _ (λ _. IsGuarded) _ _ _
            (Ensures-lift _ _ (check_token env deps parsed.secret token now) λ a db e g. g)
            λ _. branch token (Bool-cases (is_none token.consumed_at))
    where
      branch :
          (token : AuthRefreshToken)
          → (is_none token.consumed_at ≡ true) ⊎ (is_none token.consumed_at ≡ false)
          → Ensures IsGuarded
              (if is_none token.consumed_at
                then (on_error
                      (missing_or session_not_found "session not found" (unavailable ": "))
                      (get_auth_session_for_update env token.session_id)
                    >>= λ row. lift (check_session env deps row.0 row.1 now) >>= λ _.
                        replace_token env deps token row.0 now meta)
                else (handle_reuse env deps token meta >>= λ _. pure (reused token.session_id)))
              (λ _. IsGuarded)
      branch token (inl fresh) = rw fresh (
          Ensures-bind _
            (λ row db.
              IsGuarded db × (find (session_at token.session_id) db.auth_sessions ≡ some row.0))
            _ _ _
            (Ensures-on_error _ _
              (missing_or session_not_found "session not found" (unavailable ": ")) _
              (get_session_ensures env IsGuarded token.session_id))
            λ row. rotate_open_ensures token row now meta)
      branch token (inr spent) = rw spent (
          Ensures-bind _ (λ _. IsGuarded) _ _ _ (reuse_ensures env deps token meta)
            λ _. Ensures-pure _ _ (reused token.session_id) λ db g. g)

  invalidate-Keeps : (id : Uuid) → Keeps IsGuarded (invalidate_session env deps id)
  invalidate-Keeps id = record { at = λ db g. g }

  finish-Keeps : (r : Rotation) → Keeps IsGuarded (finish env deps r)
  finish-Keeps (rotated result id) = record { at = λ db g. g }
  finish-Keeps (reused id) = record { at = λ db g. g }

  revoke_active_ensures :
      (id user_id : Uuid) (reason : Text) (s : AuthSession)
      → Ensures IsGuarded
          (revoke_active env deps id user_id reason s)
          (λ _. GuardedDb (λ other. id == other) one)
  unfolding revoke_active
  revoke_active_ensures id user_id reason s = elim (Bool-cases (is_active s.status)) [
    | inl is ↦ rw is (
        Ensures-on_error _ _
          (missing_or session_not_found "target session is not active"
            (unavailable ": revoke session: "))
          _ (revoke_row_ensures env id user_id reason))
    | inr over ↦ rw over (Ensures-pure _ _ s (looking_away (λ other. id == other)))
  ]

  audit_revocation_ensures :
      (event_type : String) (reason : Text) (id : Uuid) (s : AuthSession) (meta : RequestMetadata)
      → Ensures IsGuarded (audit_revocation env deps event_type reason id s meta) (λ _. IsGuarded)
  audit_revocation_ensures event_type reason id s meta = elim (Bool-cases (is_active s.status)) [
    | inl is ↦ rw is (
        Ensures-on_error _ _ (unavailable ": write session revoke audit event: ") _ (
          write_audit_ensures env deps IsGuarded (λ db rows g. g) event_type success
            (revoked_metadata env deps reason id) meta (subject_of s)))
    | inr over ↦ rw over (Ensures-pure _ _ tt λ db g. g)
  ]

  revoke_session_tx_ensures :
      (actor id : Uuid) (current : Option Uuid) (reason : Text) (event_type : String)
      (meta : RequestMetadata)
      → Ensures IsGuarded
          (revoke_session_tx env deps actor id current reason event_type meta)
          (λ _. IsGuarded)
  unfolding revoke_session_tx
  revoke_session_tx_ensures actor id current reason event_type meta =
      Ensures-bind _ (λ _. IsGuarded) _ _ _
        (Ensures-on_error _ _
          (missing_or session_not_found "target session does not exist"
            (unavailable ": get target session: "))
          _ (forgetting (λ row db p. p.0) (get_session_ensures env IsGuarded id)))
        λ row.
          Ensures-bind _ (λ _. IsGuarded) _ _ _
            (Ensures-lift _ _
              (fail_if (not (row.0.user_id == actor))
                (because session_not_found "target session does not exist"))
              λ a db e g. g)
            λ _.
              Ensures-bind _ (λ _. GuardedDb (λ other. id == other) one) _ _ _
                (revoke_active_ensures id actor reason row.0)
                λ session.
                  Ensures-bind _ (λ _. IsGuarded) _ _ _
                    (Ensures-on_error _ _ (unavailable ": revoke refresh tokens: ") _
                      (revoke_tokens_ensures env id))
                    λ _.
                      Ensures-bind _ (λ _. IsGuarded) _ _ _
                        (audit_revocation_ensures event_type reason id row.0 meta)
                        λ _.
                          Ensures-pure _ _
                            (record {
                              session = session;
                              must_clear_cookies = same_uuid env deps id current;
                            })
                            λ db g. g
    where
      forgetting :
          {Q : AuthSession × UserStatus → Db → Type 0} {m : Command (AuthSession × UserStatus)}
          → ((row : AuthSession × UserStatus) (db : Db) → Q row db → IsGuarded db)
          → Ensures IsGuarded m Q
          → Ensures IsGuarded m (λ _. IsGuarded)
      forgetting w h = record { at = λ db p a db' e. w a db' (h.at db p a db' e) }

-- CreateSession keeps the sessions guarded, on success and on every failure: every token that is
-- neither consumed nor revoked belongs to an active session, no session has two such tokens, and
-- no session idles beyond its absolute end, where it was so before.
pub create_session-IsGuarded :
    (env : Environment) (deps : Dependencies) (input : CreateSessionInput) (db : Db)
    → IsGuarded db
    → IsGuarded (create_session env deps input db).1
unfolding create_session
create_session-IsGuarded env deps input =
    (Keeps-on_error IsGuarded (wrap "create session transaction") _
      (Keeps-with_tx IsGuarded env _ (create_in_tx_ensures env deps input))).at

-- RotateRefreshToken keeps the sessions guarded, on success and on every failure: every token that
-- is neither consumed nor revoked belongs to an active session, no session has two such tokens,
-- and no session idles beyond its absolute end, where it was so before.
pub rotate_refresh_token-IsGuarded :
    (env : Environment) (deps : Dependencies) (raw : Text) (meta : RequestMetadata) (db : Db)
    → IsGuarded db
    → IsGuarded (rotate_refresh_token env deps raw meta db).1
unfolding rotate_refresh_token
rotate_refresh_token-IsGuarded env deps raw meta =
    (Keeps-bind IsGuarded (lift (map_err (wrap "parse refresh token") (deps.parse raw))) _
      (Keeps-lift IsGuarded _)
      λ parsed.
        Keeps-bind IsGuarded (reading env deps λ db. ok (deps.clock_now db)) _
          (record { at = λ db g. g })
          λ now.
            Keeps-bind IsGuarded _ (finish env deps)
              (Keeps-on_error IsGuarded (wrap "rotate refresh token transaction") _
                (Keeps-with_tx IsGuarded env _ (rotate_tx_ensures env deps parsed now meta)))
              (finish-Keeps env deps)).at

-- The revocation of one session keeps the sessions guarded, on success and on every failure: every
-- token that is neither consumed nor revoked belongs to an active session, no session has two such
-- tokens, and no session idles beyond its absolute end, where it was so before.
pub revoke_session-IsGuarded :
    (env : Environment) (deps : Dependencies) (actor id : Uuid) (current : Option Uuid)
    (reason : Text) (event_type : String) (meta : RequestMetadata) (db : Db)
    → IsGuarded db
    → IsGuarded (revoke_session env deps actor id current reason event_type meta db).1
unfolding revoke_session
revoke_session-IsGuarded env deps actor id current reason event_type meta =
    (Keeps-bind IsGuarded
      (on_error (wrap "revoke session transaction")
        (with_tx env (revoke_session_tx env deps actor id current reason event_type meta)))
      _
      (Keeps-on_error IsGuarded (wrap "revoke session transaction") _ (
        Keeps-with_tx IsGuarded env _
          (revoke_session_tx_ensures env deps actor id current reason event_type meta)))
      λ result. record { at = λ db g. g }).at
