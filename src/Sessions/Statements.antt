-- ===== src/Sessions/Statements.antt =====
-- What the statements on sessions and refresh tokens do to the guard.
use mathlib.Core.Path.{subst}
use pdv.Base.{
  ℕ, ◌+◌, ◌-◌, ◌≤◌, ◌≡◌, refl, ◌∙◌, sym, ap, arith, ◌==◌, ◌&&◌, Bool, true, none, some, List, [],
  ◌∷◌, ◌++◌, ok, if◌then◌else◌, ltb, inl, inr, Bool-cases, Option-cases, ==→eq, ==_refl,
}
use pdv.Errors.{Text}
use pdv.Database.Rows.{Uuid, Time}
use pdv.Database.Identity.{
  User, AuthSession, AuthSessionStatus, compromised, revoked, AuthRefreshToken, UserStatus,
  SecurityAuditEvent,
}
use pdv.Database.Tables.{find}
use pdv.Database.Lookup.{find-append_none}
use pdv.Database.Store.{Db, Environment}
use pdv.Database.Ensures.{Ensures, Ensures-statement, ok_pair}
use pdv.Database.Sessions.{
  is_none, is_active, session_at, token_at, least, ended, create_auth_session, create_refresh_token,
  get_refresh_token_for_update, get_auth_session_for_update, consume_and_replace_refresh_token,
  revoke_session_refresh_tokens, update_session, mark_session_compromised, revoke_session_row,
  touch_session, create_audit_event,
}
use pdv.Sessions.Guard.{
  live_of, count, IsOpen, IsBounded, Guarded, GuardedDb, IsGuarded, nobody, one, appended_token,
  consumed_token,
}
use pdv.Sessions.Changes.{
  appended_session, no_session, touched_session, ended_session, revoked_tokens,
}

-- How many tokens each session may have when a session has been created, and when a token has been.
abbrev pub all_but : Uuid → Uuid → ℕ
all_but session id = if session == id then 0 else 1

abbrev pub one_more : (Uuid → ℕ) → Uuid → Uuid → ℕ
one_more bound session id = bound id + (if session == id then 1 else 0)

abbrev pub one_less : (Uuid → ℕ) → Uuid → Uuid → ℕ
one_less bound session id = if session == id then bound id - 1 else bound id

module _ {S : Type 0} (env : Environment) where
  pub get_token_ensures :
      (P : Db → Type 0) (id : Uuid)
      → Ensures P (get_refresh_token_for_update {S = S} env id) (λ _. P)
  unfolding get_refresh_token_for_update
  get_token_ensures P id = Ensures-statement _ _ env _ _ λ db p a db' e.
      elim (Option-cases (find (token_at id) db.auth_refresh_tokens)) [
        | inl missing ↦ cc (rw missing at e)
        | inr (t, there) ↦ subst P (ok_pair (rw there at e)).1 p
      ]

  pub get_session_ensures :
      (P : Db → Type 0) (id : Uuid)
      → Ensures P
          (get_auth_session_for_update {S = S} env id)
          (λ row db. P db × (find (session_at id) db.auth_sessions ≡ some row.0))
  unfolding get_auth_session_for_update
  get_session_ensures P id = Ensures-statement _ _ env _ _ λ db p a db' e.
      elim (Option-cases (find (session_at id) db.auth_sessions)) [
        | inl missing ↦ cc (rw missing at e)
        | inr (s, there) ↦ elim (Option-cases (find (λ (u : User). u.id == s.user_id) db.users)) [
          | inl missing ↦ cc (rw (there, missing) at e)
          | inr (u, known) ↦
              let (same, kept) = ok_pair (rw (there, known) at e) in
              subst (λ (d : Db). P d × (find (session_at id) d.auth_sessions ≡ some a.0)) kept
                (p, there ∙ ap (λ (r : AuthSession × UserStatus). some r.0) same)
        ]
      ]

  pub audit_ensures :
      (P : Db → Type 0)
      → ((db : Db) (rows : List SecurityAuditEvent)
          → P db
          → P (record db { security_audit_events = rows }))
      → (row : Db → SecurityAuditEvent) → Ensures P (create_audit_event {S = S} env row) (λ _. P)
  unfolding create_audit_event
  audit_ensures P blind row =
      Ensures-statement _ _ env _ _ λ db p a db' e. subst P (ok_pair e).1 (blind db _ p)

  pub create_session_ensures :
      (row : Db → AuthSession)
      → ((db : Db) → IsBounded (row db) × (is_active (row db).status ≡ true))
      → Ensures IsGuarded
          (create_auth_session {S = S} env row)
          (λ s db. GuardedDb nobody (all_but s.id) db × IsOpen db.auth_sessions s.id)
  unfolding create_auth_session
  create_session_ensures row fits = Ensures-statement _ _ env _ _ λ db g a db' e.
      elim (Option-cases (find (λ (u : User). u.id == (row db).user_id) db.users)) [
        | inl missing ↦ cc (rw missing at e)
        | inr (u, known) ↦ elim (Option-cases (find (session_at (row db).id) db.auth_sessions)) [
          | inr (s, there) ↦ cc (rw (known, there) at e)
          | inl free ↦
              let (same, kept) = ok_pair (rw (known, free) at e) in
              subst
                (λ (s : AuthSession).
                  GuardedDb nobody (all_but s.id) db' × IsOpen db'.auth_sessions s.id)
                same
                (subst
                  (λ (d : Db).
                    GuardedDb nobody (all_but (row db).id) d × IsOpen d.auth_sessions (row db).id)
                  kept (created (row db) db g free (fits db)))
        ]
      ]
    where
      alone :
          (s : AuthSession) (db : Db)
          → IsGuarded db
          → find (session_at s.id) db.auth_sessions ≡ none
          → (id : Uuid) → count (live_of id) db.auth_refresh_tokens ≤ all_but s.id id
      alone s db g free id = elim (Bool-cases (s.id == id)) [
        | inr other ↦ rw other (g.single id)
        | inl this ↦
            rw (this, sym (==→eq s.id id this))
              (omega (
                arith,
                no_session nobody one db.auth_sessions db.auth_refresh_tokens g s.id refl free,
              ))
      ]

      created :
          (s : AuthSession) (db : Db)
          → IsGuarded db
          → find (session_at s.id) db.auth_sessions ≡ none
          → IsBounded s × (is_active s.status ≡ true)
          → Guarded nobody (all_but s.id) (db.auth_sessions ++ s ∷ []) db.auth_refresh_tokens
            × IsOpen (db.auth_sessions ++ s ∷ []) s.id
      created s db g free fit =
          let next =
            appended_session nobody one db.auth_sessions db.auth_refresh_tokens g s fit.0 in
          (
            record { deadlines = next.deadlines; owners = next.owners; single = alone s db g free },
            (
              s,
              find-append_none (session_at s.id) db.auth_sessions s free ∙ rw (==_refl s.id) refl,
              fit.1,
            ),
          )

  pub create_token_ensures :
      (bound : Uuid → ℕ) (t : AuthRefreshToken)
      → Ensures
          (λ db. GuardedDb nobody bound db × IsOpen db.auth_sessions t.session_id)
          (create_refresh_token {S = S} env t)
          (λ _. GuardedDb nobody (one_more bound t.session_id))
  unfolding create_refresh_token
  create_token_ensures bound t = Ensures-statement _ _ env _ _ λ db p a db' e.
      elim (Option-cases (find (session_at t.session_id) db.auth_sessions)) [
        | inl missing ↦ cc (rw missing at e)
        | inr (s, there) ↦ elim (Option-cases (find (token_at t.id) db.auth_refresh_tokens)) [
          | inr (other, taken) ↦ cc (rw (there, taken) at e)
          | inl free ↦
              subst (GuardedDb nobody (one_more bound t.session_id))
                (ok_pair (rw (there, free) at e)).1
                (appended_token nobody bound db.auth_sessions db.auth_refresh_tokens t p.1 p.0)
        ]
      ]

  pub consume_ensures :
      (bound : Uuid → ℕ) (session_id id child : Uuid)
      → Ensures
          (GuardedDb nobody bound)
          (consume_and_replace_refresh_token {S = S} env session_id id child)
          (λ _. GuardedDb nobody (one_less bound session_id))
  unfolding consume_and_replace_refresh_token
  consume_ensures bound session_id id child = Ensures-statement _ _ env _ _ λ db g a db' e.
      elim (Option-cases (
        find
          (λ (t : AuthRefreshToken).
            t.session_id == session_id
            && t.id == id
            && is_none t.consumed_at
            && is_none t.revoked_at
            && ltb (env.now db) t.expires_at)
          db.auth_refresh_tokens)) [
            | inl missing ↦ cc (rw missing at e)
            | inr (t, there) ↦
                subst (GuardedDb nobody (one_less bound session_id)) (ok_pair (rw there at e)).1 (
                  consumed_token _ _ session_id (λ x h. ground arith) (λ x. refl) nobody bound
                    db.auth_sessions db.auth_refresh_tokens there g)
          ]

  pub revoke_tokens_ensures :
      (id : Uuid)
      → Ensures
          (GuardedDb (λ other. id == other) one)
          (revoke_session_refresh_tokens {S = S} env id)
          (λ _. IsGuarded)
  unfolding revoke_session_refresh_tokens
  revoke_tokens_ensures id = Ensures-statement _ _ env _ _ λ db g a db' e.
      subst IsGuarded (ok_pair e).1 (
        revoked_tokens (λ other. id == other) one db.auth_sessions db.auth_refresh_tokens g
          (λ t. t.session_id == id && is_none t.revoked_at)
          (λ t. record t { revoked_at = some (env.now db) }) (λ t. ground arith)
          (λ t mine lives. ground arith))

  end_ensures :
      (id : Uuid) (p : AuthSession → Bool) (status : AuthSessionStatus) (reason : Text)
      → ((x : AuthSession) → p x ≡ true → session_at id x ≡ true)
      → (db : Db) (a : AuthSession) (db' : Db) → IsGuarded db
      → update_session {S = S} env p (ended env db status reason) db ≡ ok (a, db')
      → GuardedDb (λ other. id == other) one db'
  unfolding update_session
  end_ensures id p status reason mine db a db' g e = elim (Option-cases (find p db.auth_sessions)) [
    | inl missing ↦ cc (rw (missing, update_session) at e)
    | inr (s, there) ↦
        subst (GuardedDb (λ other. id == other) one) (ok_pair (rw (there, update_session) at e)).1 (
          ended_session nobody one db.auth_sessions db.auth_refresh_tokens g id p
            (ended env db status reason) there mine (λ x i. refl) (λ x b. b) (λ i. refl))
  ]

  pub mark_ensures :
      (id : Uuid) (reason : Text)
      → Ensures IsGuarded
          (mark_session_compromised {S = S} env id reason)
          (λ _. GuardedDb (λ other. id == other) one)
  unfolding mark_session_compromised
  mark_ensures id reason =
      Ensures-statement _ _ env _ _
        λ db g a db' e. end_ensures id _ compromised reason (λ x h. ground arith) db a db' g e

  pub revoke_row_ensures :
      (id user_id : Uuid) (reason : Text)
      → Ensures IsGuarded
          (revoke_session_row {S = S} env id user_id reason)
          (λ _. GuardedDb (λ other. id == other) one)
  unfolding revoke_session_row
  revoke_row_ensures id user_id reason =
      Ensures-statement _ _ env _ _
        λ db g a db' e. end_ensures id _ revoked reason (λ x h. ground arith) db a db' g e

  pub touch_ensures :
      (id user_id : Uuid) (idle : Time)
      → Ensures IsGuarded (touch_session {S = S} env id user_id idle) (λ _. IsGuarded)
  unfolding touch_session update_session
  touch_ensures id user_id idle = Ensures-statement _ _ env _ _ λ db g a db' e.
      elim (Option-cases (
        find
          (λ (s : AuthSession).
            session_at id s
            && (s.user_id == user_id
                && is_active s.status
                && ltb (env.now db) s.idle_expires_at
                && ltb (env.now db) s.absolute_expires_at))
          db.auth_sessions)) [
            | inl missing ↦ cc (rw (missing, update_session) at e)
            | inr (s, there) ↦ subst IsGuarded (ok_pair (rw (there, update_session) at e)).1 (
                touched_session nobody one db.auth_sessions db.auth_refresh_tokens g _ _ there
                  (λ x i. refl) (λ x. refl) (least_bounds idle s.absolute_expires_at))
          ]
    where
      least_bounds : (a b : ℕ) → least a b ≤ b
      least_bounds a b = ground arith
