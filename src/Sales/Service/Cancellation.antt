-- ===== src/Sales/Service/Cancellation.antt =====
-- A sale is cancelled once, and is final then.
use mathlib.Core.Path.{subst}
use pdv.Base.{
  ◌≡◌, ◌&&◌, refl, ◌∙◌, sym, ap, true, false, not, some, ok, err, is_ok, is_ok_pair, ok_injective,
}
use pdv.Errors.{Text, codes}
use pdv.Database.Rows.{Uuid, Sale, cancelled}
use pdv.Database.Tables.{find}
use pdv.Database.Lookup.{find-replace_in, find_holds}
use pdv.Database.Store.{Db, Environment, lift, with_tx}
use pdv.Database.Ensures.{
  Ensures, Ensures-bind, Ensures-lift, Ensures-given, Ensures-on_error, Ensures-statement,
  Ensures-with_tx, one_row_ok, with_tx_never,
}
use pdv.Database.Frames.{list_items_frame}
use pdv.Database.Sales.{sale_at, is_open, is_cancelled, lock_sale_by_id, cancel_sale_for_store}
use pdv.Sales.Errors.{Sentinel, SalesError}
use pdv.Sales.Input.{AddItemInput, UpdateItemInput, parse_uuid}
use pdv.Sales.Service.{
  StoreActor, to_store_scope, to_actor_scope, cancellable, cancel_tx, cancel, add_item, update_item,
  remove_item,
}
use pdv.Sales.Service.Recalculate.{update_sale_ok, and_left, and_both}
use pdv.Sales.Service.Lifecycle.{cancellable-open, open_not_cancelled}
use pdv.Sales.Service.Closed.{lock_finds, closed_sale-unchanged}

-- The sale was open and is cancelled by the actor; its amounts and all items are what they were.
pub record IsCancellation (actor : StoreActor) (id : Uuid) (before after : Db) : Type 0 where
  pub sale : Sale
  pub was : find (sale_at actor.organization_id actor.store_id id) before.sales ≡ some sale
  pub unfinished : is_open sale.status ≡ true
  pub row : Sale
  pub is : find (sale_at actor.organization_id actor.store_id id) after.sales ≡ some row
  pub status : row.status ≡ cancelled
  pub by_actor : row.cancelled_by_membership_id ≡ some actor.membership_id
  pub amounts :
      (row.subtotal ≡ sale.subtotal)
      × (row.discount ≡ sale.discount)
      × (row.addition ≡ sale.addition)
      × (row.total ≡ sale.total)
  pub items : after.sale_items ≡ before.sale_items

module _ (env : Environment) (actor : StoreActor) (id : Uuid) (db : Db) where
  abbrev Seen : Sale → Db → Type 0
  Seen s d = (d ≡ db) × (find (sale_at actor.organization_id actor.store_id id) d.sales ≡ some s)

  lock_sees :
      Ensures (λ d. d ≡ db) (lock_sale_by_id {S = Sentinel} env (to_store_scope actor) id) Seen
  unfolding lock_sale_by_id
  lock_sees =
      Ensures-statement _ _ env _ _
        λ d same s d' e. let (found, kept) = one_row_ok d _ e in subst (Seen s) kept (same, found)

  cancel_finishes :
      (s : Sale)
      → is_open s.status ≡ true
      → Ensures
          (Seen s)
          (cancel_sale_for_store {S = Sentinel} env (to_actor_scope actor) id)
          (λ _. IsCancellation actor id db)
  unfolding cancel_sale_for_store
  cancel_finishes s is = Ensures-statement _ _ env _ _ λ d p row d' e.
      let at = sale_at actor.organization_id actor.store_id id in
      subst (λ (x : Db). IsCancellation actor id x d') p.0
        (subst (IsCancellation actor id d)
          (update_sale_ok actor.organization_id actor.store_id id (λ x. not (is_cancelled x.status))
            _ d e)
          (record {
            sale = s;
            was = p.1;
            unfinished = is;
            row = _;
            is =
                find-replace_in (λ x. at x && not (is_cancelled x.status)) at _
                  (λ x h. and_left (at x) _ h) (λ x h. and_left (at x) _ h) d.sales p.1
                  (and_both (at s) _ (find_holds at d.sales p.1) (open_not_cancelled s.status is));
            status = refl;
            by_actor = refl;
            amounts = (refl, refl, refl, refl);
            items = refl;
          }))

  cancel_tx-IsCancellation :
      Ensures (λ d. d ≡ db) (cancel_tx env actor id) (λ _. IsCancellation actor id db)
  unfolding cancel_tx
  cancel_tx-IsCancellation = Ensures-bind _ Seen _ _ _ (Ensures-on_error _ _ _ _ lock_sees) λ s.
      Ensures-bind _ (λ _ d. Seen s d × (is_open s.status ≡ true)) _ _ _
        (Ensures-lift _ _ _ λ u d e p. (p, cancellable-open s.status e))
        λ _. Ensures-given _ _ _ λ is.
          Ensures-bind _ (λ _. IsCancellation actor id db) _ _ _
            (Ensures-on_error _ _ _ _ (cancel_finishes s is))
            λ row.
              Ensures-bind _ (λ _. IsCancellation actor id db) _ _ _
                (Ensures-on_error _ _ _ _
                  (list_items_frame (IsCancellation actor id db) env (to_store_scope actor) id))
                λ items. Ensures-lift _ _ _ λ response d e c. c

  cancel-IsCancellation :
      (raw : Text)
      → parse_uuid {S = Sentinel} env raw (codes "id") ≡ ok id
      → Ensures (λ d. d ≡ db) (cancel env actor raw) (λ _. IsCancellation actor id db)
  unfolding cancel
  cancel-IsCancellation raw named =
      Ensures-bind _ (λ i d. (d ≡ db) × (id ≡ i)) _ (lift (parse_uuid env raw (codes "id"))) _
        (Ensures-lift _ _ _ λ i d e same. (same, ok_injective (sym named ∙ e)))
        λ i. Ensures-given _ _ _ λ this.
          subst
            (λ (k : Uuid).
              Ensures (λ d. d ≡ db) (with_tx env (cancel_tx env actor k))
                (λ _. IsCancellation actor id db))
            this (Ensures-with_tx _ _ env _ cancel_tx-IsCancellation)

module _ (env : Environment) (actor : StoreActor) (id : Uuid) (sale : Sale) (db : Db)
    (found : find (sale_at actor.organization_id actor.store_id id) db.sales ≡ some sale)
    (closed : is_open sale.status ≡ false) where
  true_not_false : true ≡ false → ⊥
  true_not_false h = cc h

  never : Ensures (λ d. d ≡ db) (cancel_tx env actor id) (λ _ _. ⊥)
  unfolding cancel_tx
  never =
      Ensures-bind _ (λ s _. sale ≡ s) _ _ _
        (Ensures-on_error _ _ _ _ (lock_finds env actor db id sale found closed))
        λ s.
          Ensures-bind _ (λ _ _. ⊥) _ (lift (cancellable s.status)) _
            (Ensures-lift _ _ _ λ u d e same. true_not_false (
              sym (cancellable-open s.status e)
              ∙ ap (λ (x : Sale). is_open x.status) (sym same)
              ∙ closed))
            λ _. record { at = λ _ impossible _ _ _. absurd impossible }

  cancel-refuses :
      (raw : Text)
      → parse_uuid {S = Sentinel} env raw (codes "id") ≡ ok id
      → (e : SalesError) × (cancel env actor raw db ≡ (err e, db))
  unfolding cancel
  cancel-refuses raw named =
      let (e, refused) =
        with_tx_never env (cancel_tx env actor id) db (λ a db' h. never.at db refl a db' h) in
      (e, rw (named, refused) refl)

-- When Cancel succeeds, the sale was open, is cancelled by the actor, and has its amounts as
-- before, and no item has changed; after it a second Cancel fails, and Cancel, AddItem, UpdateItem
-- and RemoveItem of the sale leave all tables as they are.
pub cancel-once :
    (env : Environment) (actor : StoreActor) (id : Uuid) (raw : Text)
    → parse_uuid {S = Sentinel} env raw (codes "id") ≡ ok id
    → (db : Db) → is_ok (cancel env actor raw db).0 ≡ true
    → (raw_item : Text) (added : AddItemInput) (updated : UpdateItemInput)
    → IsCancellation actor id db (cancel env actor raw db).1
      × ((e : SalesError) × (cancel env actor raw (cancel env actor raw db).1
            ≡ (err e, (cancel env actor raw db).1)))
      × ((add_item env actor raw added (cancel env actor raw db).1).1 ≡ (cancel env actor raw db).1)
      × ((update_item env actor raw raw_item updated (cancel env actor raw db).1).1
          ≡ (cancel env actor raw db).1)
      × ((remove_item env actor raw raw_item (cancel env actor raw db).1).1
          ≡ (cancel env actor raw db).1)
cancel-once env actor id raw named db succeeds raw_item added updated =
    let (response, e) = is_ok_pair (cancel env actor raw db) succeeds in
    let done =
      (cancel-IsCancellation env actor id db raw named).at db refl response
        (cancel env actor raw db).1 e in
    let closed : is_open done.row.status ≡ false = ap is_open done.status in
    let (a, u, r) =
      closed_sale-unchanged env actor (cancel env actor raw db).1 id done.row done.is closed raw
        named raw_item added updated in
    (
      done,
      cancel-refuses env actor id done.row (cancel env actor raw db).1 done.is closed raw named,
      a,
      u,
      r,
    )
