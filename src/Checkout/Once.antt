-- ===== src/Checkout/Once.antt =====
-- A sale is checked out once: a checkout that succeeds completes it, and a sale that is not open is not
-- changed by a checkout.
use mathlib.Core.Path.{subst}
use pdv.Base.{
  ◌≡◌, ◌&&◌, refl, ◌∙◌, sym, ap, true, false, some, List, ok, err, inl, inr, is_ok, is_ok_pair,
  ok_injective, some_injective, Result-cases,
}
use pdv.Errors.{Text, codes}
use pdv.Database.Rows.{Uuid, Sale, completed}
use pdv.Database.Tables.{find}
use pdv.Database.Lookup.{find-replace_in, find_holds}
use pdv.Database.Store.{Db, Environment, lift}
use pdv.Database.Ensures.{
  Ensures, Ensures-bind, Ensures-lift, Ensures-on_error, Ensures-statement, Ensures-with_tx,
  one_row_ok, with_tx_never,
}
use pdv.Database.Frames.{Keeps-Ensures}
use pdv.Database.Sales.{sale_at, is_open, lock_sale_by_id, complete_sale_for_store}
use pdv.Sales.Service.{StoreActor, to_store_scope, to_actor_scope}
use pdv.Sales.Service.Recalculate.{update_sale_ok, and_left, and_both}
use pdv.Checkout.Errors.{Sentinel, CheckoutError}
use pdv.Checkout.Input.{CheckoutPaymentInput, parse_uuid, normalize_checkout_input}
use pdv.Checkout.Payments.{PaymentInput}
use pdv.Checkout.Mapper.{to_checkout_response, CheckoutResponse}
use pdv.Checkout.Service.{Provider, may_check_out, checkout_tx, checkout}
use pdv.Checkout.Keeps.{
  may_check_out-open, checkout_tx_ensures, apply_inventory_changes_frame,
  authorize_fiscal_document-Keeps,
}

true_not_false : true ≡ false → ⊥
true_not_false h = cc h

-- The sale is there, and completed.
abbrev pub IsCompleted : StoreActor → Uuid → Db → Type 0
IsCompleted actor id db =
    (row : Sale) × (find (sale_at actor.organization_id actor.store_id id) db.sales ≡ some row)
    × (row.status ≡ completed)

module _ (env : Environment) (actor : StoreActor) (id : Uuid) where
  abbrev Anywhere : Db → Type 0
  Anywhere _ = Unit

  abbrev Here : Sale → Db → Type 0
  Here s db = find (sale_at actor.organization_id actor.store_id id) db.sales ≡ some s

  lock_locates :
      Ensures Anywhere (lock_sale_by_id {S = Sentinel} env (to_store_scope actor) id) Here
  unfolding lock_sale_by_id
  lock_locates =
      Ensures-statement _ _ env _ _
        λ db _ s db' e. let (found, same) = one_row_ok db _ e in subst (Here s) same found

  complete_finishes :
      (s : Sale)
      → is_open s.status ≡ true
      → Ensures
          (Here s)
          (complete_sale_for_store {S = Sentinel} env (to_actor_scope actor) id)
          (λ _. IsCompleted actor id)
  unfolding complete_sale_for_store
  complete_finishes s is = Ensures-statement _ _ env _ _ λ db found row db' e.
      let at = sale_at actor.organization_id actor.store_id id in
      subst (IsCompleted actor id)
        (update_sale_ok actor.organization_id actor.store_id id (λ x. is_open x.status) _ db e)
        (
          _,
          find-replace_in (λ x. at x && is_open x.status) at _ (λ x h. and_left (at x) _ h)
              (λ x h. and_left (at x) _ h) db.sales found
              (and_both (at s) _ (find_holds at db.sales found) is),
          refl,
        )

  checkout_tx-IsCompleted :
      (inputs : List PaymentInput)
      → Ensures Anywhere (checkout_tx env actor id inputs) (λ _. IsCompleted actor id)
  checkout_tx-IsCompleted inputs =
      checkout_tx_ensures env actor id Anywhere Here (IsCompleted actor id) lock_locates
        (λ s items.
          apply_inventory_changes_frame env actor id (Here s) (λ _ _ h. h) (λ _ _ h. h) items)
        (λ _ _ _ h. h) complete_finishes (λ _ _ h. h) inputs

-- A checkout that succeeds has completed the sale.
pub checkout-IsCompleted :
    (env : Environment) (actor : StoreActor) (provider : Provider) (id : Uuid) (raw : Text)
    → parse_uuid env raw (codes "id") ≡ ok id
    → (input : List CheckoutPaymentInput) (db db' : Db) (response : CheckoutResponse)
    → checkout env actor provider raw input db ≡ (ok response, db')
    → IsCompleted actor id db'
unfolding checkout
checkout-IsCompleted env actor provider id raw named input db db' response e =
    (Ensures-bind (λ _. Unit) (λ i _. id ≡ i) (λ _. IsCompleted actor id)
        (lift (parse_uuid env raw (codes "id"))) _
        (Ensures-lift _ _ _ λ i _ e _. ok_injective (sym named ∙ e))
        λ i.
          Ensures-bind _ (λ _ _. id ≡ i) _ (lift (normalize_checkout_input env input)) _
            (Ensures-lift _ _ _ λ _ _ _ h. h)
            λ normalized.
              Ensures-bind _ (λ _. IsCompleted actor id) _ _ _
                (Ensures-with_tx _ _ env _ (record {
                  at = λ d same state d' e.
                      subst (λ (k : Uuid). IsCompleted actor k d') (sym same)
                        ((checkout_tx-IsCompleted env actor i normalized).at d tt state d' e);
                }))
                λ state.
                  Ensures-bind _ (λ _. IsCompleted actor id) _ _ _
                    (Keeps-Ensures _ _ (
                      authorize_fiscal_document-Keeps env actor (IsCompleted actor id) (λ _ _ h. h)
                        provider state))
                    λ document.
                      Ensures-lift _ _
                        (to_checkout_response env (record state { fiscal_document = document }))
                        λ _ _ _ h. h).at
      db tt response db' e

module _ (env : Environment) (actor : StoreActor) (id : Uuid) (sale : Sale) (db : Db)
    (found : find (sale_at actor.organization_id actor.store_id id) db.sales ≡ some sale)
    (closed : is_open sale.status ≡ false) where
  lock_sees :
      Ensures
        (λ d. d ≡ db)
        (lock_sale_by_id {S = Sentinel} env (to_store_scope actor) id)
        (λ s _. sale ≡ s)
  unfolding lock_sale_by_id
  lock_sees = Ensures-statement _ _ env _ _ λ d same s db' e. some_injective (
      sym found
      ∙ ap (λ (x : Db). find (sale_at actor.organization_id actor.store_id id) x.sales) (sym same)
      ∙ (one_row_ok d _ e).0)

  never :
      (inputs : List PaymentInput)
      → Ensures (λ d. d ≡ db) (checkout_tx env actor id inputs) (λ _ _. ⊥)
  unfolding checkout_tx
  never inputs =
      Ensures-bind _ (λ s _. sale ≡ s) _ _ _ (Ensures-on_error _ _ _ _ lock_sees)
        λ s.
          Ensures-bind _ (λ _ _. ⊥) _ (lift (may_check_out s.status)) _
            (Ensures-lift _ _ _ λ u d e same. true_not_false (
              sym (may_check_out-open s.status e)
              ∙ ap (λ (x : Sale). is_open x.status) (sym same)
              ∙ closed))
            λ _. record { at = λ _ impossible _ _ _. absurd impossible }

  checkout-refuses :
      (provider : Provider) (raw : Text)
      → parse_uuid env raw (codes "id") ≡ ok id
      → (input : List CheckoutPaymentInput)
      → (e : CheckoutError) × (checkout env actor provider raw input db ≡ (err e, db))
  unfolding checkout
  checkout-refuses provider raw named input =
      elim (Result-cases (normalize_checkout_input env input)) [
        | inr (e, bad) ↦ (e, rw (named, bad) refl)
        | inl (normalized, good) ↦
            let (e, refused) =
              with_tx_never env (checkout_tx env actor id normalized) db
                (λ state db' h. (never normalized).at db refl state db' h) in
            (e, rw (named, good, refused) refl)
      ]

-- When a checkout succeeds the sale it names is completed, and a second checkout of the sale fails
-- and leaves all tables as they are.
pub checkout-once :
    (env : Environment) (actor : StoreActor) (provider : Provider) (id : Uuid) (raw : Text)
    → parse_uuid env raw (codes "id") ≡ ok id
    → (input : List CheckoutPaymentInput) (db : Db)
    → is_ok (checkout env actor provider raw input db).0 ≡ true
    → (again : List CheckoutPaymentInput)
    → IsCompleted actor id (checkout env actor provider raw input db).1
      × ((e : CheckoutError) × (checkout env actor provider raw again
              (checkout env actor provider raw input db).1
            ≡ (err e, (checkout env actor provider raw input db).1)))
checkout-once env actor provider id raw named input db succeeds again =
    let (response, e) = is_ok_pair (checkout env actor provider raw input db) succeeds in
    let (row, found, done) =
      checkout-IsCompleted env actor provider id raw named input db
        (checkout env actor provider raw input db).1 response e in
    (
      (row, found, done),
      checkout-refuses env actor id row (checkout env actor provider raw input db).1 found
          (ap is_open done) provider raw named again,
    )
