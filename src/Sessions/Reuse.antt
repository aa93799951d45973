-- ===== src/Sessions/Reuse.antt =====
-- A refresh token that was consumed and is used again.
use pdv.Base.{
  ◌≡◌, refl, ap, ◌++◌, false, true, false, List, [], ◌∷◌, some, Result, ok, err, inl, inr, ◌⊎◌,
  map_err,
}
use pdv.Errors.{Text, wrap}
use pdv.Database.Rows.{Uuid}
use pdv.Database.Identity.{AuthSession, AuthRefreshToken}
use pdv.Database.Tables.{find}
use pdv.Database.Store.{Db, Environment, continue, relabel, on_error, with_tx, ◌>>=◌}
use pdv.Database.Ensures.{with_tx_atomic}
use pdv.Database.Sessions.{is_none, token_at}
use pdv.Sessions.Errors.{SessionsError, because, refresh_token_reused}
use pdv.Sessions.Input.{Dependencies, ParsedRefreshToken, RequestMetadata}
use pdv.Sessions.Guard.{live_of, count}
use pdv.Sessions.Mitigation.{compromise, is_live_session, mitigated_is, rotate_mitigates}
use pdv.Database.Quiet.{IsQuiet}
use pdv.Sessions.Service.{Command, after, reading}
use pdv.Sessions.Rotate.{
  rotate_tx, finish, rotate_refresh_token, rotated, reused, Rotation, RotateResult,
}

-- A refresh token that was consumed is presented again: where no statement fails, the secret is
-- right, the token is neither revoked nor expired and its session is active, RotateRefreshToken
-- answers that the token is reused, and in the tables that it leaves the session is compromised
-- and none of its tokens can be used, and the cache is told to forget the session.
pub rotate_refresh_token-reused :
    (env : Environment) (deps : Dependencies) (raw : Text) (parsed : ParsedRefreshToken)
    (meta : RequestMetadata) (db : Db) (t : AuthRefreshToken) (s : AuthSession)
    → IsQuiet env
    → deps.parse raw ≡ ok parsed
    → find (token_at parsed.selector) db.auth_refresh_tokens ≡ some t
    → deps.verify_secret parsed.secret t.secret_hash ≡ true
    → is_none t.revoked_at ≡ true
    → after (deps.clock_now db) t.expires_at ≡ false
    → is_none t.consumed_at ≡ false
    → find (is_live_session t.session_id) db.auth_sessions ≡ some s
    → ((rotate_refresh_token env deps raw meta db).0
        ≡ err (because refresh_token_reused "token was already consumed"))
      × (count
            (live_of t.session_id)
            (rotate_refresh_token env deps raw meta db).1.auth_refresh_tokens
          ≡ 0)
      × ((rotate_refresh_token env deps raw meta db).1.auth_sessions
          ≡ compromise env db t.session_id)
      × ((rotate_refresh_token env deps raw meta db).1.invalidated_sessions
          ≡ db.invalidated_sessions ++ t.session_id ∷ [])
unfolding rotate_refresh_token
rotate_refresh_token-reused env deps raw parsed meta db t s quiet named there verified kept early
      spent live =
    let (sessions, shut, forgotten) = mitigated_is env deps quiet db t s live meta in
    rw
      (
        named,
        rotate_mitigates env deps quiet db t s live meta parsed (deps.clock_now db) there verified
            kept early spent,
      )
      (refl, shut, sessions, ap (λ (ids : List Uuid). ids ++ t.session_id ∷ []) forgotten)

module _ (env : Environment) (deps : Dependencies) where
  abbrev Harmless : Db → Result SessionsError RotateResult × Db → Type 0
  Harmless db x =
      (e : SessionsError)
      → x.0 ≡ err e
      → (x.1 ≡ db) ⊎ (e ≡ because refresh_token_reused "token was already consumed")

  outcome-Harmless :
      (db : Db) (m : Command Rotation)
      → Harmless db (
          continue
            (on_error (wrap "rotate refresh token transaction") (with_tx env m) db)
            (finish env deps))
  outcome-Harmless db m = outcome (with_tx env m db) refl
    where
      outcome :
          (x : Result SessionsError Rotation × Db)
          → with_tx env m db ≡ x
          → Harmless db
              (continue (relabel (wrap "rotate refresh token transaction") x) (finish env deps))
      outcome (err e, db') k = λ e' h. inl (with_tx_atomic env m db e db' k)
      outcome (ok (rotated result id), db') k = λ e' h. cc h
      outcome (ok (reused id), db') k = λ e' h. inr (cc h)

-- Every error of RotateRefreshToken leaves the tables as they were, but for the one that answers
-- that the token is reused, which is the only error behind a committed transaction.
pub rotate_refresh_token-fails :
    (env : Environment) (deps : Dependencies) (raw : Text) (meta : RequestMetadata) (db : Db)
    (e : SessionsError)
    → (rotate_refresh_token env deps raw meta db).0 ≡ err e
    → ((rotate_refresh_token env deps raw meta db).1 ≡ db)
      ⊎ (e ≡ because refresh_token_reused "token was already consumed")
unfolding rotate_refresh_token
rotate_refresh_token-fails env deps raw meta db = parsed (deps.parse raw)
  where
    parsed :
        (r : Result SessionsError ParsedRefreshToken)
        → Harmless env deps db (
            continue
              (map_err (wrap "parse refresh token") r, db)
              (λ p. reading env deps (λ d. ok (deps.clock_now d)) >>= λ now.
                on_error
                  (wrap "rotate refresh token transaction")
                  (with_tx env (rotate_tx env deps p now meta))
                >>= finish env deps))
    parsed (err e) = λ e' h. inl refl
    parsed (ok p) = outcome-Harmless env deps db (rotate_tx env deps p (deps.clock_now db) meta)
