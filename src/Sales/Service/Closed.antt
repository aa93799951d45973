-- ===== src/Sales/Service/Closed.antt =====
-- A sale that is completed or cancelled is not changed by the commands on its items.
use mathlib.Core.Path.{subst}
use pdv.Base.{
  ◌≡◌, refl, ◌∙◌, sym, ap, Bool, false, not, some, ok, fail_if-eq-ok, ok_injective, some_injective,
}
use pdv.Errors.{Text, codes}
use pdv.Money.{Numeric}
use pdv.Database.Rows.{Uuid, Sale}
use pdv.Database.Tables.{find}
use pdv.Database.Store.{Db, Environment}
use pdv.Database.Ensures.{
  Ensures, Ensures-bind, Ensures-lift, Ensures-on_error, Ensures-statement, one_row_ok,
  with_tx_keeps, lift_keeps,
}
use pdv.Database.Sales.{is_open, sale_at, lock_sale_by_id}
use pdv.Sales.Errors.{Sentinel}
use pdv.Sales.Input.{
  AddItemInput, UpdateItemInput, parse_uuid, normalize_add_sale_item_input,
  normalize_update_sale_item_input,
}
use pdv.Sales.Service.{
  StoreActor, to_store_scope, lock_open_sale, add_item_tx, update_item_tx, remove_item_tx, add_item,
  update_item, remove_item,
}

module _ (env : Environment) (actor : StoreActor) (db : Db) (id : Uuid) (sale : Sale)
    (found : find (sale_at actor.organization_id actor.store_id id) db.sales ≡ some sale)
    (closed : is_open sale.status ≡ false) where
  abbrev Same : Db → Type 0
  Same d = d ≡ db

  pub lock_finds :
      Ensures Same (lock_sale_by_id {S = Sentinel} env (to_store_scope actor) id) (λ s _. sale ≡ s)
  unfolding lock_sale_by_id
  lock_finds = Ensures-statement _ _ env _ _ λ d same s db' e.
      let there = (one_row_ok d _ e).0 in
      some_injective (
        sym found
        ∙ ap (λ (x : Db). find (sale_at actor.organization_id actor.store_id id) x.sales) (sym same)
        ∙ there)

  not_open : {b : Bool} → b ≡ false → not b ≡ false → ⊥
  not_open h k = cc (h, k)

  lock_never : Ensures Same (lock_open_sale env actor id) (λ _ _. ⊥)
  unfolding lock_open_sale
  lock_never =
      Ensures-bind Same (λ s _. sale ≡ s) _ _ _ (Ensures-on_error _ _ _ _ lock_finds)
        λ s.
          Ensures-bind (λ _. sale ≡ s) (λ _ _. ⊥) _ _ _
            (Ensures-lift _ _ _ λ u d e same.
              not_open (ap (λ (x : Sale). is_open x.status) (sym same) ∙ closed)
                (fail_if-eq-ok _ _ e))
            λ _. Ensures-lift _ _ (ok s) λ _ _ _ impossible. impossible

  add_never : (p : Uuid) (q d : Numeric) → Ensures Same (add_item_tx env actor id p q d) (λ _. Same)
  unfolding add_item_tx
  add_never p q d =
      Ensures-bind Same (λ _ _. ⊥) _ _ _ lock_never
        λ _. record { at = λ _ impossible _ _ _. absurd impossible }

  update_never :
      (i : Uuid) (q d : Numeric) → Ensures Same (update_item_tx env actor id i q d) (λ _. Same)
  unfolding update_item_tx
  update_never i q d =
      Ensures-bind Same (λ _ _. ⊥) _ _ _ lock_never
        λ _. record { at = λ _ impossible _ _ _. absurd impossible }

  remove_never : (i : Uuid) → Ensures Same (remove_item_tx env actor id i) (λ _. Same)
  unfolding remove_item_tx
  remove_never i =
      Ensures-bind Same (λ _ _. ⊥) _ _ _ lock_never
        λ _. record { at = λ _ impossible _ _ _. absurd impossible }

  module _ (raw : Text) (named : parse_uuid {S = Sentinel} env raw (codes "id") ≡ ok id) where
    same_id : (i : Uuid) → parse_uuid {S = Sentinel} env raw (codes "id") ≡ ok i → id ≡ i
    same_id i e = ok_injective (sym named ∙ e)

    add_unchanged : (input : AddItemInput) → (add_item env actor raw input db).1 ≡ db
    unfolding add_item
    add_unchanged input = lift_keeps Same (parse_uuid env raw (codes "id")) _ db refl λ i e.
        lift_keeps Same (normalize_add_sale_item_input env input) _ db refl λ n _.
          with_tx_keeps env _ db Same
            (subst
              (λ k.
                Ensures Same (add_item_tx env actor k n.product_id n.quantity n.discount)
                  (λ _. Same))
              (same_id i e) (add_never n.product_id n.quantity n.discount))
            refl

    update_unchanged :
        (raw_item : Text) (input : UpdateItemInput)
        → (update_item env actor raw raw_item input db).1 ≡ db
    unfolding update_item
    update_unchanged raw_item input =
        lift_keeps Same (parse_uuid env raw (codes "id")) _ db refl λ i e.
          lift_keeps Same (parse_uuid env raw_item (codes "itemId")) _ db refl λ item _.
            lift_keeps Same (normalize_update_sale_item_input env input) _ db refl λ n _.
              with_tx_keeps env _ db Same
                (subst
                  (λ k.
                    Ensures Same (update_item_tx env actor k item n.quantity n.discount)
                      (λ _. Same))
                  (same_id i e) (update_never item n.quantity n.discount))
                refl

    remove_unchanged : (raw_item : Text) → (remove_item env actor raw raw_item db).1 ≡ db
    unfolding remove_item
    remove_unchanged raw_item = lift_keeps Same (parse_uuid env raw (codes "id")) _ db refl λ i e.
        lift_keeps Same (parse_uuid env raw_item (codes "itemId")) _ db refl λ item _.
          with_tx_keeps env _ db Same
            (subst (λ k. Ensures Same (remove_item_tx env actor k item) (λ _. Same)) (same_id i e)
              (remove_never item))
            refl

-- Where the sale that the request names is completed or cancelled, AddItem, UpdateItem and
-- RemoveItem leave all tables as they are.
pub closed_sale-unchanged :
    (env : Environment) (actor : StoreActor) (db : Db) (id : Uuid) (sale : Sale)
    → find (sale_at actor.organization_id actor.store_id id) db.sales ≡ some sale
    → is_open sale.status ≡ false
    → (raw : Text) → parse_uuid {S = Sentinel} env raw (codes "id") ≡ ok id
    → (raw_item : Text) (added : AddItemInput) (updated : UpdateItemInput)
    → ((add_item env actor raw added db).1 ≡ db)
      × ((update_item env actor raw raw_item updated db).1 ≡ db)
      × ((remove_item env actor raw raw_item db).1 ≡ db)
closed_sale-unchanged env actor db id sale found closed raw named raw_item added updated = (
  add_unchanged env actor db id sale found closed raw named added,
  update_unchanged env actor db id sale found closed raw named raw_item updated,
  remove_unchanged env actor db id sale found closed raw named raw_item,
)
