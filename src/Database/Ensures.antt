-- ===== src/Database/Ensures.antt =====
-- What a step leaves behind where it succeeds: one rule for each way to build a step.
use mathlib.Core.Path.{subst}
use pdv.Base.{
  ◌≡◌, refl, ◌∙◌, ap, String, Option, none, some, Result, ok, err, inl, inr, Option-cases,
  ok_injective, ◌>>=◌,
}
use pdv.Errors.{Error}
use pdv.Database.Store
use pdv.Database.Store.{
  Db, Environment, Action, pure, lift, on_error, recovering, statement, with_tx, settle,
  or_overflow, one_row, relabel, continue, end_transaction,
}

module _ {S A : Type 0} where
  pub ok_pair :
      {a b : A} {db db' : Db}
      → ◌≡◌ {A = Result (Error S) (A × Db)} (ok (a, db)) (ok (b, db'))
      → (a ≡ b) × (db ≡ db')
  ok_pair h = (cc h, cc h)

  pub or_overflow_ok : (o : Option A) {a : A} → or_overflow {S = S} o ≡ ok a → o ≡ some a
  or_overflow_ok none h = cc
  or_overflow_ok (some b) h = cc h

  pub overflow_step :
      {B : Type 0} (o : Option A) (f : A → Result (Error S) B) {b : B}
      → (or_overflow o >>= f) ≡ ok b
      → (a : A) × (o ≡ some a) × (f a ≡ ok b)
  overflow_step none f h = cc
  overflow_step (some a) f h = (a, refl, h)

  pub one_row_ok :
      (db : Db) (o : Option A) {a : A} {db' : Db}
      → one_row {S = S} db o ≡ ok (a, db')
      → (o ≡ some a) × (db ≡ db')
  one_row_ok db none h = cc
  one_row_ok db (some b) h = (cc h, cc h)

  relabel_ok :
      (g : Error S → Error S) (x : Result (Error S) A × Db) {a : A} {db' : Db}
      → relabel g x ≡ (ok a, db')
      → x ≡ (ok a, db')
  relabel_ok g (ok b, db) h = h
  relabel_ok g (err e, db) h = cc

  pub settle_ok :
      (db : Db) (x : Result (Error S) (A × Db)) {a : A} {db' : Db}
      → settle db x ≡ (ok a, db')
      → x ≡ ok (a, db')
  settle_ok db (ok (b, db1)) h = cc h
  settle_ok db (err e) h = cc

  pub continue_ok :
      {B : Type 0} (x : Result (Error S) A × Db) (f : A → Action S B) {b : B} {db' : Db}
      → continue x f ≡ (ok b, db')
      → (a : A) × (db1 : Db) × (x ≡ (ok a, db1)) × (f a db1 ≡ (ok b, db'))
  continue_ok (ok a, db) f h = (a, db, refl, h)
  continue_ok (err e, db) f h = cc

-- From a state with `P` a success ends in a state with `Q`, for the value that is returned.
pub record Ensures {S A : Type 0} (P : Db → Type 0) (m : Action S A) (Q : A → Db → Type 0)
    : Type 0 where
  pub at : (db : Db) → P db → (a : A) (db' : Db) → m db ≡ (ok a, db') → Q a db'

module _ {S A : Type 0} (P : Db → Type 0) (Q : A → Db → Type 0) where
  pub Ensures-lift :
      (r : Result (Error S) A)
      → ((a : A) (db : Db) → r ≡ ok a → P db → Q a db)
      → Ensures P (lift r) Q
  Ensures-lift r h = record {
    at = λ db p a db' e. subst (Q a) (ap (λ t. t.1) e) (h a db (ap (λ t. t.0) e) p);
  }

  pub Ensures-pure : (a : A) → ((db : Db) → P db → Q a db) → Ensures {S = S} P (pure a) Q
  Ensures-pure a h =
      Ensures-lift (ok a) λ b db e p. subst (λ (c : A). Q c db) (ok_injective e) (h db p)

  pub Ensures-on_error :
      (g : Error S → Error S) (m : Action S A) → Ensures P m Q → Ensures P (on_error g m) Q
  Ensures-on_error g m h = record { at = λ db p a db' e. h.at db p a db' (relabel_ok g (m db) e) }

  pub Ensures-recovering :
      (g : Error S → Db → Error S) (m : Action S A) → Ensures P m Q → Ensures P (recovering g m) Q
  Ensures-recovering g m h = record {
    at = λ db p a db' e. h.at db p a db' (relabel_ok (λ e. g e (m db).1) (m db) e);
  }

  pub Ensures-statement :
      (env : Environment) (name : String) (f : Db → Result (Error S) (A × Db))
      → ((db : Db) → P db → (a : A) (db' : Db) → f db ≡ ok (a, db') → Q a db')
      → Ensures P (statement env name f) Q
  unfolding statement
  Ensures-statement env name f h = record {
    at = λ db p a db' e. elim (Option-cases (env.fault name db)) [
      | inl quiet ↦ h db p a db' (settle_ok db (f db) (rw quiet at e))
      | inr (fault, loud) ↦ cc (rw loud at e)
    ];
  }

module _ {S A B : Type 0} (P : Db → Type 0) (Q : A → Db → Type 0) (R : B → Db → Type 0) where
  pub Ensures-bind :
      (m : Action S A) (f : A → Action S B)
      → Ensures P m Q
      → ((a : A) → Ensures (Q a) (f a) R)
      → Ensures P (Store.◌>>=◌ m f) R
  Ensures-bind m f hm hf = record {
    at = λ db p b db' e.
        let (a, db1, first, second) = continue_ok (m db) f e in
        (hf a).at db1 (hm.at db p a db1 first) b db' second;
  }

-- A value that is known where the step begins.
pub Ensures-known :
    {S A B : Type 0} (P : Db → Type 0) (R : B → Db → Type 0) (g : A → Action S B) (known a : A)
    → Ensures P (g known) R
    → Ensures (λ db. P db × (a ≡ known)) (g a) R
Ensures-known P R g known a h = record {
  at = λ db p b db' e. h.at db p.0 b db' (subst (λ (x : _). g x db ≡ (ok b, db')) p.1 e);
}

-- A fact that holds where the step begins.
pub Ensures-given :
    {S A : Type 0} {F : Type 0} (P : Db → Type 0) (Q : A → Db → Type 0) (m : Action S A)
    → (F → Ensures P m Q)
    → Ensures (λ db. P db × F) m Q
Ensures-given P Q m h = record { at = λ db p a db' e. (h p.1).at db p.0 a db' e }

pub Ensures-weaken :
    {S A : Type 0} (P P' : Db → Type 0) (Q : A → Db → Type 0) (m : Action S A)
    → ((db : Db) → P db → P' db)
    → Ensures P' m Q
    → Ensures P m Q
Ensures-weaken P P' Q m w h = record { at = λ db p a db' e. h.at db (w db p) a db' e }

-- What a transaction leaves.
module _ {S A : Type 0} (env : Environment) (m : Action S A) (db : Db) where
  -- A transaction that answers an error leaves the tables as they were.
  pub with_tx_atomic : (e : Error S) (db' : Db) → with_tx env m db ≡ (err e, db') → db' ≡ db
  unfolding with_tx
  with_tx_atomic e db' h = elim (Option-cases (env.fault "BEGIN" db)) [
    | inl begun ↦ end_atomic (m db) (rw (begun, with_tx) at h)
    | inr (fault, refused) ↦ cc (rw (refused, with_tx) at h)
  ]
    where
      end_atomic :
          (x : Result (Error S) A × Db) → end_transaction env db x ≡ (err e, db') → db' ≡ db
      end_atomic (err _, _) k = cc k
      end_atomic (ok a, after) k = elim (Option-cases (env.fault "COMMIT" after)) [
        | inl committed ↦ cc (rw (committed, end_transaction) at k)
        | inr (fault, refused) ↦ cc (rw (refused, end_transaction) at k)
      ]

  -- A transaction that succeeds ends where its function ends.
  pub with_tx_ok : (a : A) (db' : Db) → with_tx env m db ≡ (ok a, db') → m db ≡ (ok a, db')
  unfolding with_tx
  with_tx_ok a db' h = elim (Option-cases (env.fault "BEGIN" db)) [
    | inl begun ↦ end_ok (m db) (rw (begun, with_tx) at h)
    | inr (fault, refused) ↦ cc (rw (refused, with_tx) at h)
  ]
    where
      end_ok :
          (x : Result (Error S) A × Db) → end_transaction env db x ≡ (ok a, db') → x ≡ (ok a, db')
      end_ok (err _, _) k = cc k
      end_ok (ok b, after) k = elim (Option-cases (env.fault "COMMIT" after)) [
        | inl committed ↦ rw (committed, end_transaction) at k
        | inr (fault, refused) ↦ cc (rw (refused, end_transaction) at k)
      ]

  -- A function that never succeeds makes a transaction that leaves the tables with an error.
  pub with_tx_never :
      ((a : A) (db' : Db) → m db ≡ (ok a, db') → ⊥)
      → (e : Error S) × (with_tx env m db ≡ (err e, db))
  with_tx_never never = outcome (with_tx env m db) refl
    where
      outcome :
          (x : Result (Error S) A × Db)
          → with_tx env m db ≡ x
          → (e : Error S) × (with_tx env m db ≡ (err e, db))
      outcome (ok a, db') k = absurd (never a db' (with_tx_ok a db' k))
      outcome (err e, db') k = (e, k ∙ ap (λ (d : Db). (err e, d)) (with_tx_atomic e db' k))

  pub with_tx_keeps : (P : Db → Type 0) → Ensures P m (λ _. P) → P db → P (with_tx env m db).1
  unfolding with_tx
  with_tx_keeps P h p = elim (Option-cases (env.fault "BEGIN" db)) [
    | inl begun ↦ rw (begun, with_tx) (end_keeps (m db) (λ a after e. h.at db p a after e))
    | inr (fault, refused) ↦ rw (refused, with_tx) p
  ]
    where
      end_keeps :
          (x : Result (Error S) A × Db)
          → ((a : A) (after : Db) → x ≡ (ok a, after) → P after)
          → P (end_transaction env db x).1
      end_keeps (err _, _) k = p
      end_keeps (ok a, after) k = elim (Option-cases (env.fault "COMMIT" after)) [
        | inl committed ↦ rw (committed, end_transaction) (k a after refl)
        | inr (fault, refused) ↦ rw (refused, end_transaction) p
      ]

-- A check before the transaction changes nothing.
pub lift_keeps :
    {S A B : Type 0} (P : Db → Type 0) (r : Result (Error S) A) (f : A → Action S B) (db : Db)
    → P db
    → ((a : A) → r ≡ ok a → P (f a db).1)
    → P (Store.◌>>=◌ (lift r) f db).1
lift_keeps P (ok a) f db p h = h a refl
lift_keeps P (err e) f db p h = p

pub Ensures-with_tx :
    {S A : Type 0} (P : Db → Type 0) (Q : A → Db → Type 0) (env : Environment) (m : Action S A)
    → Ensures P m Q
    → Ensures P (with_tx env m) Q
Ensures-with_tx P Q env m h = record {
  at = λ db p a db' e. h.at db p a db' (with_tx_ok env m db a db' e);
}
