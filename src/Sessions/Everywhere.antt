-- ===== src/Sessions/Everywhere.antt =====
-- The revocation of all sessions of a user: RevokeAllUserSessions of
-- backend/internal/sessions/service_revoke.go.
use mathlib.Core.Path.{subst}
use pdv.Base.{
  ◌≡◌, refl, ◌∙◌, ap, arith, ◌==◌, ◌&&◌, Bool, true, false, not, none, some, List, [], ◌∷◌, All,
  length, if◌then◌else◌, inl, inr, ◌⊎◌, Bool-cases, some_injective,
}
use pdv.Errors.{Text, codes, wrap}
use pdv.Text.{decimal}
use pdv.Database.Rows.{Uuid}
use pdv.Database.Identity.{AuthSession, AuthRefreshToken, revoked, success}
use pdv.Database.Tables.{find, update_all}
use pdv.Database.Store.{Db, Environment, on_error, with_tx}
use pdv.Database.Ensures.{
  Ensures, Ensures-bind, Ensures-pure, Ensures-on_error, Ensures-statement, ok_pair,
}
use pdv.Database.Frames.{Keeps, Keeps-with_tx, Keeps-on_error, Keeps-bind}
use pdv.Database.Sessions.{
  is_none, is_active, session_at, of_user, ended, revoke_all_active_user_sessions,
  revoke_all_user_refresh_tokens,
}
use pdv.Sessions.Errors.{Sentinel}
use pdv.Sessions.Input.{Dependencies, RequestMetadata}
use pdv.Sessions.Guard.{
  IsOpen, IsOwned, IsBounded, Guarded, GuardedDb, IsGuarded, nobody, one, All-map, find-update_all,
}
use pdv.Sessions.Changes.{revoked_tokens}
use pdv.Sessions.Keeps.{write_audit_ensures}
use pdv.Sessions.Service.{invalidate_sessions, unavailable}
use pdv.Sessions.Revoke.{
  revoke_all_user_sessions_in_tx, revoke_all_tx, revoke_all_user_sessions, contains,
}

-- The session is one of the user.
abbrev pub belongs : List AuthSession → Uuid → Uuid → Bool
belongs sessions user id =
    not (is_none (find (λ (s : AuthSession). s.id == id && s.user_id == user) sessions))

belongs_found :
    (user id : Uuid) (xs : List AuthSession) {s : AuthSession}
    → find (session_at id) xs ≡ some s
    → (s.user_id == user) ≡ true
    → belongs xs user id ≡ true
belongs_found user id [] h mine = cc
belongs_found user id (x ∷ xs) {s} h mine = elim (Bool-cases (x.id == id)) [
  | inr away ↦ rw away (belongs_found user id xs {s = s} (rw away at h) mine)
  | inl here ↦
      let same : x ≡ s = some_injective (rw here at h) in
      rw (here, ap (λ (y : AuthSession). y.user_id == user) same ∙ mine) refl
]

module _ (user : Uuid) (f : AuthSession → AuthSession)
    (same : (x : AuthSession) (id : Uuid) → session_at id (f x) ≡ session_at id x)
    (owner : (x : AuthSession) → (f x).user_id ≡ x.user_id)
    (bounded : (x : AuthSession) → IsBounded x → IsBounded (f x)) where
  abbrev active_of : AuthSession → Bool
  active_of s = s.user_id == user && is_active s.status

  All-ended : (xs : List AuthSession) → All IsBounded xs → All IsBounded (update_all active_of f xs)
  All-ended [] all = tt
  All-ended (x ∷ xs) all = (either (Bool-cases (active_of x)), All-ended xs all.1)
    where
      either :
          (active_of x ≡ true) ⊎ (active_of x ≡ false) → IsBounded (if active_of x then f x else x)
      either (inl h) = rw h (bounded x all.0)
      either (inr h) = rw h all.0

  pub ended_sessions :
      (sessions : List AuthSession) (tokens : List AuthRefreshToken)
      → Guarded nobody one sessions tokens
      → Guarded
          (belongs (update_all active_of f sessions) user)
          one
          (update_all active_of f sessions)
          tokens
  ended_sessions sessions tokens g = record {
    deadlines = All-ended sessions g.deadlines;
    owners =
        All-map (IsOwned nobody sessions)
          (IsOwned (belongs (update_all active_of f sessions) user)
            (update_all active_of f sessions))
          tokens
          (λ t owned l apart.
            let (x, there, is) = owned l refl in
            still t.session_id x is
              (find-update_all (session_at t.session_id) active_of f (λ z. same z t.session_id)
                sessions there)
              apart (Bool-cases (active_of x)))
          g.owners;
    single = g.single;
  }
    where
      still :
          (id : Uuid) (x : AuthSession)
          → is_active x.status ≡ true
          → find (session_at id) (update_all active_of f sessions)
            ≡ some (if active_of x then f x else x)
          → belongs (update_all active_of f sessions) user id ≡ false
          → (active_of x ≡ true) ⊎ (active_of x ≡ false)
          → IsOpen (update_all active_of f sessions) id
      still id x is there apart (inr kept) = (x, rw kept at there, is)
      still id x is there apart (inl hit) =
          let mine : ((f x).user_id == user) ≡ true =
            ap (λ u. u == user) (owner x) ∙ ground arith in
          absurd (
            clash (belongs_found user id (update_all active_of f sessions) (rw hit at there) mine)
              apart)
        where
          clash : {b : Bool} → b ≡ true → b ≡ false → ⊥
          clash h k = cc (h, k)

module _ (env : Environment) (deps : Dependencies) (user : Uuid) where
  -- Between the two statements.
  abbrev Between : Db → Type 0
  Between db = GuardedDb (belongs db.auth_sessions user) one db

  end_all_ensures :
      (reason : Text)
      → Ensures IsGuarded
          (revoke_all_active_user_sessions {S = Sentinel} env user reason)
          (λ _. Between)
  unfolding revoke_all_active_user_sessions
  end_all_ensures reason = Ensures-statement _ _ env _ _ λ db g a db' e.
      subst Between (ok_pair e).1 (
        ended_sessions user (ended env db revoked reason) (λ x i. refl) (λ x. refl) (λ x b. b)
          db.auth_sessions db.auth_refresh_tokens g)

  revoke_all_ensures :
      Ensures Between (revoke_all_user_refresh_tokens {S = Sentinel} env user) (λ _. IsGuarded)
  unfolding revoke_all_user_refresh_tokens
  revoke_all_ensures = Ensures-statement _ _ env _ _ λ db g a db' e. subst IsGuarded (ok_pair e).1 (
      revoked_tokens (belongs db.auth_sessions user) one db.auth_sessions db.auth_refresh_tokens g
        (λ t. is_none t.revoked_at && of_user db.auth_sessions user t)
        (λ t. record t { revoked_at = some (env.now db) }) (λ t. ground arith)
        (λ t mine lives. ground arith))

  in_tx_ensures :
      (reason : Text)
      → Ensures IsGuarded (revoke_all_user_sessions_in_tx env deps user reason) (λ _. IsGuarded)
  unfolding revoke_all_user_sessions_in_tx
  in_tx_ensures reason =
      Ensures-bind _ (λ _. Between) _ _ _
        (Ensures-on_error _ _ (unavailable ": revoke all user sessions: ") _
          (end_all_ensures reason))
        λ ids.
          Ensures-bind _ (λ _. IsGuarded) _ _ _
            (Ensures-on_error _ _ (unavailable ": revoke all user refresh tokens: ") _
              revoke_all_ensures)
            λ _. Ensures-pure _ _ ids λ db g. g

  all_tx_ensures :
      (current : Uuid) (meta : RequestMetadata)
      → Ensures IsGuarded (revoke_all_tx env deps user current meta) (λ _. IsGuarded)
  unfolding revoke_all_tx
  all_tx_ensures current meta =
      Ensures-bind _ (λ _. IsGuarded) _ _ _ (in_tx_ensures (codes "user_logged_out_all"))
        λ ids.
          Ensures-bind _ (λ _. IsGuarded) _ _ _
            (Ensures-on_error _ _ (unavailable ": write revoke-all audit event: ") _ (
              write_audit_ensures env deps IsGuarded (λ db rows g. g) "auth.logged_out_all" success
                ((codes "reason", codes "user_logged_out_all")
                  ∷ (codes "affected_session_count", decimal (length ids))
                  ∷ [])
                meta
                (record {
                  user_id = some user;
                  membership_id = none;
                  organization_id = none;
                  store_id = none;
                  session_id = some current;
                })))
            λ _.
              Ensures-pure _ _
                (record {
                  affected_session_ids = ids;
                  must_clear_cookies = contains env deps current ids;
                })
                λ db g. g

  forgets_keep : (ids : List Uuid) → Keeps IsGuarded (invalidate_sessions env deps ids)
  forgets_keep [] = record { at = λ db g. g }
  forgets_keep (id ∷ ids) = record { at = λ db g. (forgets_keep ids).at _ g }

-- RevokeAllUserSessions keeps the sessions guarded, on success and on every failure: every token
-- that is neither consumed nor revoked belongs to an active session, no session has two such
-- tokens, and no session idles beyond its absolute end, where it was so before.
pub revoke_all_user_sessions-IsGuarded :
    (env : Environment) (deps : Dependencies) (user current : Uuid) (meta : RequestMetadata)
    (db : Db)
    → IsGuarded db
    → IsGuarded (revoke_all_user_sessions env deps user current meta db).1
unfolding revoke_all_user_sessions
revoke_all_user_sessions-IsGuarded env deps user current meta =
    (Keeps-bind IsGuarded
      (on_error (wrap "revoke all sessions transaction")
        (with_tx env (revoke_all_tx env deps user current meta)))
      _
      (Keeps-on_error IsGuarded (wrap "revoke all sessions transaction") _
        (Keeps-with_tx IsGuarded env _ (all_tx_ensures env deps user current meta)))
      λ result.
        Keeps-bind IsGuarded (invalidate_sessions env deps result.affected_session_ids) _
          (forgets_keep env deps user result.affected_session_ids)
          λ _. record { at = λ db g. g }).at
