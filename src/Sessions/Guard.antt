-- ===== src/Sessions/Guard.antt =====
-- What the commands on sessions keep: a refresh token that can be used belongs to a session that is active, a
-- session has at most one such token, and no session idles beyond its absolute end.
use mathlib.Core.Path.{subst}
use pdv.Base.{
  ℕ, ◌+◌, ◌-◌, ◌≤◌, ◌≡◌, refl, sym, ap, arith, ◌==◌, ◌&&◌, Bool, true, false, Option, some, List,
  [], ◌∷◌, ◌++◌, All, All-append, length, select, if◌then◌else◌, inl, inr, ◌⊎◌, Bool-cases,
  some_injective, ==→eq,
}
use pdv.Database.Rows.{Uuid}
use pdv.Database.Identity.{AuthSession, AuthRefreshToken}
use pdv.Database.Tables.{find, replace, update_all}
use pdv.Database.Lookup.{select-replace_out, All-replace}
use pdv.Database.Store.{Db}
use pdv.Database.Sessions.{is_none, is_active, session_at}

abbrev pub live : AuthRefreshToken → Bool
live t = is_none t.consumed_at && is_none t.revoked_at

abbrev pub live_of : Uuid → AuthRefreshToken → Bool
live_of id t = t.session_id == id && live t

abbrev pub count : (AuthRefreshToken → Bool) → List AuthRefreshToken → ℕ
count q ts = length (select q ts)

abbrev pub IsOpen : List AuthSession → Uuid → Type 0
IsOpen sessions id =
    (s : AuthSession) × (find (session_at id) sessions ≡ some s) × (is_active s.status ≡ true)

-- A token that can be used belongs to an active session, but for the sessions `besides`.
abbrev pub IsOwned : (Uuid → Bool) → List AuthSession → AuthRefreshToken → Type 0
IsOwned besides sessions t =
    live t ≡ true → besides t.session_id ≡ false → IsOpen sessions t.session_id

abbrev pub IsBounded : AuthSession → Type 0
IsBounded s = s.idle_expires_at ≤ s.absolute_expires_at

pub record Guarded (besides : Uuid → Bool) (bound : Uuid → ℕ) (sessions : List AuthSession)
    (tokens : List AuthRefreshToken) : Type 0 where
  pub deadlines : All IsBounded sessions
  pub owners : All (IsOwned besides sessions) tokens
  pub single : (id : Uuid) → count (live_of id) tokens ≤ bound id

abbrev pub nobody : Uuid → Bool
nobody _ = false

abbrev pub one : Uuid → ℕ
one _ = 1

abbrev pub GuardedDb : (Uuid → Bool) → (Uuid → ℕ) → Db → Type 0
GuardedDb besides bound db = Guarded besides bound db.auth_sessions db.auth_refresh_tokens

abbrev pub IsGuarded : Db → Type 0
IsGuarded = GuardedDb nobody one

pub All-map :
    {A : Type 0} (P Q : A → Type 0) (xs : List A) → ((x : A) → P x → Q x) → All P xs → All Q xs
All-map P Q [] f all = tt
All-map P Q (x ∷ xs) f all = (f x all.0, All-map P Q xs f all.1)

count-append :
    (q : AuthRefreshToken → Bool) (ts : List AuthRefreshToken) (t : AuthRefreshToken)
    → count q (ts ++ t ∷ []) ≡ count q ts + (if q t then 1 else 0)
count-append q [] t = ground arith
count-append q (x ∷ ts) t = ground (arith, count-append q ts t)

at_most :
    (id : Uuid) (t : AuthRefreshToken)
    → (if live_of id t then 1 else 0) ≤ (if t.session_id == id then 1 else 0)
at_most id t = ground arith

-- An insertion of a token of an active session.
pub appended_token :
    (besides : Uuid → Bool) (bound : Uuid → ℕ) (sessions : List AuthSession)
    (tokens : List AuthRefreshToken) (t : AuthRefreshToken)
    → IsOpen sessions t.session_id
    → Guarded besides bound sessions tokens
    → Guarded besides
        (λ id. bound id + (if t.session_id == id then 1 else 0))
        sessions
        (tokens ++ t ∷ [])
appended_token besides bound sessions tokens t is g = record {
  deadlines = g.deadlines;
  owners = All-append (IsOwned besides sessions) tokens (t ∷ []) g.owners ((λ _ _. is), tt);
  single = λ id. omega (arith, count-append (live_of id) tokens t, at_most id t, g.single id);
}

pub weaker_bound :
    (besides : Uuid → Bool) (bound bound' : Uuid → ℕ) (sessions : List AuthSession)
    (tokens : List AuthRefreshToken)
    → ((id : Uuid) → bound id ≤ bound' id)
    → Guarded besides bound sessions tokens
    → Guarded besides bound' sessions tokens
weaker_bound besides bound bound' sessions tokens h g = record {
  deadlines = g.deadlines;
  owners = g.owners;
  single = λ id. omega (arith, h id, g.single id);
}

-- The token that is found is consumed.
module _ (p : AuthRefreshToken → Bool) (f : AuthRefreshToken → AuthRefreshToken) (session : Uuid)
    (mine : (x : AuthRefreshToken) → p x ≡ true → live_of session x ≡ true)
    (dead : (x : AuthRefreshToken) → live (f x) ≡ false) where
  dead_of : (id : Uuid) (x : AuthRefreshToken) → live_of id (f x) ≡ false
  dead_of id x = ground (arith, dead x)

  count-replace :
      (ts : List AuthRefreshToken) {t : AuthRefreshToken}
      → find p ts ≡ some t
      → count (live_of session) (replace p f ts) + 1 ≡ count (live_of session) ts
  count-replace [] h = cc
  count-replace (x ∷ ts) {t} h = elim (Bool-cases (p x)) [
    | inl here ↦ rw (here, dead_of session x, mine x here) (omega arith)
    | inr away ↦ elim (Bool-cases (live_of session x)) [
      | inl l ↦ rw (away, l) (omega (arith, count-replace ts {t = t} (rw away at h)))
      | inr d ↦ rw (away, d) (count-replace ts {t = t} (rw away at h))
    ]
  ]

  pub consumed_token :
      (besides : Uuid → Bool) (bound : Uuid → ℕ) (sessions : List AuthSession)
      (tokens : List AuthRefreshToken) {t : AuthRefreshToken}
      → find p tokens ≡ some t
      → Guarded besides bound sessions tokens
      → Guarded besides
          (λ id. if session == id then bound id - 1 else bound id)
          sessions
          (replace p f tokens)
  consumed_token besides bound sessions tokens {t} found g = record {
    deadlines = g.deadlines;
    owners =
        All-replace (IsOwned besides sessions) p f tokens found
          (λ l. absurd (not_both (live (f t)) l (dead t))) g.owners;
    single = λ id. elim (Bool-cases (session == id)) [
      | inl this ↦
          rw (this, sym (==→eq session id this))
            (omega (arith, count-replace tokens found, g.single session))
      | inr other ↦
          rw
            (
              other,
              select-replace_out p (live_of id) (λ x h. ground (arith, mine x h)) f
                  (λ x _. dead_of id x) tokens,
            )
            (g.single id)
    ];
  }
    where
      not_both : (b : Bool) → b ≡ true → b ≡ false → ⊥
      not_both b h k = cc (h, k)

-- The session of a row that is found again behind a change of its row, or as it was.
module _ (q : AuthSession → Bool) (p : AuthSession → Bool) (f : AuthSession → AuthSession)
    (same : (x : AuthSession) → q (f x) ≡ q x) where
  pub find-replace_either :
      (xs : List AuthSession) {s : AuthSession}
      → find q xs ≡ some s
      → (s' : AuthSession) × (find q (replace p f xs) ≡ some s') × ((s' ≡ s) ⊎ (s' ≡ f s))
  find-replace_either [] h = cc
  find-replace_either (x ∷ xs) {s} h = elim (Bool-cases (q x)) [
    | inl here ↦ elim (Bool-cases (p x)) [
      | inl changed ↦
          (f x, rw (changed, same x, here) refl, inr (ap f (some_injective (rw here at h))))
      | inr kept ↦ (x, rw (kept, here) refl, inl (some_injective (rw here at h)))
    ]
    | inr away ↦ elim (Bool-cases (p x)) [
      | inl changed ↦ (s, rw (changed, same x, away) (rw away at h), inl refl)
      | inr kept ↦
          let (s', there, which) = find-replace_either xs {s = s} (rw away at h) in
          (s', rw (kept, away) there, which)
    ]
  ]

  pub find-update_all :
      (xs : List AuthSession) {s : AuthSession}
      → find q xs ≡ some s
      → find q (update_all p f xs) ≡ some (if p s then f s else s)
  find-update_all [] h = cc
  find-update_all (x ∷ xs) {s} h = elim (Bool-cases (q x)) [
    | inl here ↦
        subst
          (λ (y : AuthSession). find q (update_all p f (x ∷ xs)) ≡ some (if p y then f y else y))
          (some_injective (rw here at h)) (first (Bool-cases (p x)) here)
    | inr away ↦ rest (Bool-cases (p x)) away (find-update_all xs {s = s} (rw away at h))
  ]
    where
      first :
          (p x ≡ true) ⊎ (p x ≡ false)
          → q x ≡ true
          → find q (update_all p f (x ∷ xs)) ≡ some (if p x then f x else x)
      first (inl changed) here = rw (changed, same x, here) refl
      first (inr kept) here = rw (kept, here) refl

      rest :
          {o : Option AuthSession}
          → (p x ≡ true) ⊎ (p x ≡ false)
          → q x ≡ false
          → find q (update_all p f xs) ≡ o
          → find q (update_all p f (x ∷ xs)) ≡ o
      rest (inl changed) away there = rw (changed, same x, away) there
      rest (inr kept) away there = rw (kept, away) there
