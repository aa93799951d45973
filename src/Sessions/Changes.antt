-- ===== src/Sessions/Changes.antt =====
-- What the changes of sessions, and the revocation of tokens, do to the guard.
use pdv.Base.{
  ℕ, ◌≤◌, ◌≡◌, refl, ◌∙◌, sym, ap, arith, ◌==◌, Bool, true, false, none, some, List, [], ◌∷◌, ◌++◌,
  All, All-append, if◌then◌else◌, inl, inr, ◌⊎◌, Bool-cases, ==→eq,
}
use pdv.Database.Rows.{Uuid}
use pdv.Database.Identity.{AuthSession, AuthRefreshToken}
use pdv.Database.Tables.{find, replace, update_all}
use pdv.Database.Lookup.{find-append_some, find-replace_out, All-find, All-replace}
use pdv.Database.Sessions.{is_active, session_at}
use pdv.Sessions.Guard.{
  live, live_of, count, IsOpen, IsOwned, IsBounded, Guarded, nobody, All-map, find-replace_either,
}

clash : true ≡ false → ⊥
clash h = cc h

module _ (besides : Uuid → Bool) (bound : Uuid → ℕ) (sessions : List AuthSession)
    (tokens : List AuthRefreshToken) (g : Guarded besides bound sessions tokens) where
  -- A session is appended.
  pub appended_session :
      (s : AuthSession) → IsBounded s → Guarded besides bound (sessions ++ s ∷ []) tokens
  appended_session s b = record {
    deadlines = All-append IsBounded sessions (s ∷ []) g.deadlines (b, tt);
    owners =
        All-map (IsOwned besides sessions) (IsOwned besides (sessions ++ s ∷ [])) tokens
          (λ t owned l apart.
            let (x, there, is) = owned l apart in
            (x, find-append_some (session_at t.session_id) sessions s there, is))
          g.owners;
    single = g.single;
  }

  -- A session that is not there has no token that can be used.
  pub no_session :
      (id : Uuid)
      → besides id ≡ false
      → find (session_at id) sessions ≡ none
      → count (live_of id) tokens ≡ 0
  no_session id apart missing = none_live tokens g.owners
    where
      none_live :
          (ts : List AuthRefreshToken)
          → All (IsOwned besides sessions) ts
          → count (live_of id) ts ≡ 0
      none_live [] all = refl
      none_live (t ∷ ts) all = elim (Bool-cases (live_of id t)) [
        | inr dead ↦ rw dead (none_live ts all.1)
        | inl lives ↦ absurd (gone t lives (all.0 (ground arith)))
      ]
        where
          gone :
              (t : AuthRefreshToken)
              → live_of id t ≡ true
              → (besides t.session_id ≡ false → IsOpen sessions t.session_id)
              → ⊥
          gone t lives is =
              let same : t.session_id ≡ id = ==→eq t.session_id id (ground arith) in
              let (s, there, _) = is (ap besides same ∙ apart) in cc (there, missing, same)

  -- One session changes, and keeps its identifier and its status.
  pub touched_session :
      (p : AuthSession → Bool) (f : AuthSession → AuthSession) {s : AuthSession}
      → find p sessions ≡ some s
      → ((x : AuthSession) (id : Uuid) → session_at id (f x) ≡ session_at id x)
      → ((x : AuthSession) → is_active (f x).status ≡ is_active x.status)
      → IsBounded (f s)
      → Guarded besides bound (replace p f sessions) tokens
  touched_session p f found same status b = record {
    deadlines = All-replace IsBounded p f sessions found b g.deadlines;
    owners =
        All-map (IsOwned besides sessions) (IsOwned besides (replace p f sessions)) tokens
          (λ t owned l apart.
            let (x, there, is) = owned l apart in
            let (y, there', which) =
              find-replace_either (session_at t.session_id) p f (λ z. same z t.session_id) sessions
                there in
            (y, there', still x y is which))
          g.owners;
    single = g.single;
  }
    where
      still :
          (x y : AuthSession)
          → is_active x.status ≡ true
          → (y ≡ x) ⊎ (y ≡ f x)
          → is_active y.status ≡ true
      still x y is (inl e) = ap (λ (z : AuthSession). is_active z.status) e ∙ is
      still x y is (inr e) = ap (λ (z : AuthSession). is_active z.status) e ∙ status x ∙ is

  -- One session ends.
  pub ended_session :
      (k : Uuid) (p : AuthSession → Bool) (f : AuthSession → AuthSession) {s : AuthSession}
      → find p sessions ≡ some s
      → ((x : AuthSession) → p x ≡ true → session_at k x ≡ true)
      → ((x : AuthSession) (id : Uuid) → session_at id (f x) ≡ session_at id x)
      → ((x : AuthSession) → IsBounded x → IsBounded (f x))
      → ((id : Uuid) → besides id ≡ false)
      → Guarded (λ id. k == id) bound (replace p f sessions) tokens
  ended_session k p f {s} found mine same b all = record {
    deadlines =
        All-replace IsBounded p f sessions found (b s (All-found sessions found g.deadlines))
          g.deadlines;
    owners =
        All-map (IsOwned besides sessions) (IsOwned (λ id. k == id) (replace p f sessions)) tokens
          (λ t owned l apart.
            let (x, there, is) = owned l (all t.session_id) in
            (
              x,
              find-replace_out p (session_at t.session_id)
                    (λ z h. other z t.session_id apart (mine z h)) f
                    (λ z h. same z t.session_id ∙ other z t.session_id apart (mine z h)) sessions
                  ∙ there,
              is,
            ))
          g.owners;
    single = g.single;
  }
    where
      other :
          (z : AuthSession) (id : Uuid)
          → (k == id) ≡ false
          → session_at k z ≡ true
          → session_at id z ≡ false
      other z id apart h = ground arith

      All-found :
          (xs : List AuthSession) {y : AuthSession}
          → find p xs ≡ some y
          → All IsBounded xs
          → IsBounded y
      All-found xs h all = All-find IsBounded p xs all h

  -- Tokens are revoked, among them those of the sessions that have ended.
  module _ (r : AuthRefreshToken → Bool) (f : AuthRefreshToken → AuthRefreshToken)
      (dead : (t : AuthRefreshToken) → live (f t) ≡ false)
      (covers : (t : AuthRefreshToken)
        → besides t.session_id ≡ true
        → live t ≡ true
        → r t ≡ true) where
    revoked_owners :
        (ts : List AuthRefreshToken)
        → All (IsOwned besides sessions) ts
        → All (IsOwned nobody sessions) (update_all r f ts)
    revoked_owners [] all = tt
    revoked_owners (t ∷ ts) all =
        (head (Bool-cases (r t)) (Bool-cases (besides t.session_id)) all.0, revoked_owners ts all.1)
      where
        head :
            (r t ≡ true) ⊎ (r t ≡ false)
            → (besides t.session_id ≡ true) ⊎ (besides t.session_id ≡ false)
            → IsOwned besides sessions t
            → IsOwned nobody sessions (if r t then f t else t)
        head (inl hit) _ owned = rw hit (λ l _. absurd (clash (sym l ∙ dead t)))
        head (inr missed) (inl ended) owned =
            rw missed (λ l _. absurd (clash (sym (covers t ended l) ∙ missed)))
        head (inr missed) (inr kept) owned = rw missed (λ l _. owned l kept)

    count-update_all :
        (id : Uuid) (ts : List AuthRefreshToken)
        → count (live_of id) (update_all r f ts) ≤ count (live_of id) ts
    count-update_all id [] = omega arith
    count-update_all id (t ∷ ts) = ground (arith, dead t, count-update_all id ts)

    pub revoked_tokens : Guarded nobody bound sessions (update_all r f tokens)
    revoked_tokens = record {
      deadlines = g.deadlines;
      owners = revoked_owners tokens g.owners;
      single = λ id. omega (arith, count-update_all id tokens, g.single id);
    }
