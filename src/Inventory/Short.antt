-- ===== src/Inventory/Short.antt =====
-- An adjustment that takes more than is on hand.
use pdv.Base.{◌≡◌, refl, ◌∙◌, ap, true, false, some, ok, err, inl, inr, Bool-cases, [], ◌∷◌, arith}
use pdv.Errors.{Text}
use pdv.Database.Rows.{Inventory}
use pdv.Database.Tables.{find}
use pdv.Database.Store.{Db, Environment}
use pdv.Database.Ensures.{
  Ensures, Ensures-bind, Ensures-recovering, Ensures-statement, with_tx_never,
}
use pdv.Database.Inventory.{StockChange, stock_at, sql_zero, take_off, decrease_inventory}
use pdv.Sales.Service.{StoreActor, to_store_scope}
use pdv.Inventory.Errors.{Sentinel, InventoryError}
use pdv.Inventory.Input.{
  CreateInventoryAdjustmentInput, NormalizedAdjustmentInput, normalize_adjustment_input, is_in,
  is_out,
}
use pdv.Inventory.Keeps.{get_product_ensures}
use pdv.Inventory.Service.{
  apply_adjustment, create_adjustment_tx, create_adjustment, translate_decrease_inventory_error,
}

module _ (env : Environment) (actor : StoreActor) (n : NormalizedAdjustmentInput) (db : Db)
    (r : Inventory)
    (on_hand : find (stock_at actor.organization_id actor.store_id n.product_id) db.inventory
      ≡ some r)
    (short : env.less_numeric r.quantity n.quantity ≡ true) where
  refused :
      (d : Db) (a : StockChange) (d' : Db)
      → d ≡ db
      → take_off {S = Sentinel} env (to_store_scope actor) n.product_id n.quantity d r ≡ ok (a, d')
      → ⊥
  unfolding take_off
  refused d a d' same e = cc (rw (short, take_off) at e)

  never_taken :
      Ensures
        (λ d. d ≡ db)
        (decrease_inventory {S = Sentinel} env (to_store_scope actor) n.product_id n.quantity)
        (λ _ _. ⊥)
  unfolding decrease_inventory
  never_taken = Ensures-statement _ _ env _ _ λ d same a d' e.
      let there : find (stock_at actor.organization_id actor.store_id n.product_id) d.inventory
          ≡ some r =
        ap
          (λ (x : Db).
            find (stock_at actor.organization_id actor.store_id n.product_id) x.inventory)
          same
        ∙ on_hand in
      elim (Bool-cases (env.less_numeric sql_zero n.quantity)) [
        | inl positive ↦ refused d a d' same (rw (positive, there) at e)
        | inr other ↦ cc (rw other at e)
      ]

  never_applied :
      is_in n.direction ≡ false
      → is_out n.direction ≡ true
      → Ensures (λ d. d ≡ db) (apply_adjustment env (to_store_scope actor) n) (λ _ _. ⊥)
  unfolding apply_adjustment
  never_applied away out =
      rw (away, out)
        (Ensures-bind _ (λ _ _. ⊥) _ _ _
          (Ensures-recovering _ _
            (translate_decrease_inventory_error env (to_store_scope actor) n.product_id) _
            never_taken)
          λ u. record { at = λ d impossible _ _ _. absurd impossible })

  never_adjusted :
      is_in n.direction ≡ false
      → is_out n.direction ≡ true
      → Ensures (λ d. d ≡ db) (create_adjustment_tx env actor n) (λ _ _. ⊥)
  unfolding create_adjustment_tx
  never_adjusted away out =
      Ensures-bind _ (λ _ d. d ≡ db) _ _ _
        (get_product_ensures env actor n.product_id (λ d. d ≡ db))
        λ _.
          Ensures-bind _ (λ _ _. ⊥) _ _ _ (never_applied away out)
            λ u. record { at = λ d impossible _ _ _. absurd impossible }

out_not_in : (direction : Text) → is_out direction ≡ true → is_in direction ≡ false
out_not_in [] h = refl
out_not_in (c ∷ t) h = ground arith

-- An adjustment OUT of more than the stock row of the product has on hand, as the server compares
-- the two quantities, fails and leaves all tables as they are.
pub create_adjustment-short :
    (env : Environment) (actor : StoreActor) (input : CreateInventoryAdjustmentInput)
    (n : NormalizedAdjustmentInput)
    → normalize_adjustment_input env input ≡ ok n
    → is_out n.direction ≡ true
    → (db : Db) (r : Inventory)
    → find (stock_at actor.organization_id actor.store_id n.product_id) db.inventory ≡ some r
    → env.less_numeric r.quantity n.quantity ≡ true
    → (e : InventoryError) × (create_adjustment env actor input db ≡ (err e, db))
unfolding create_adjustment
create_adjustment-short env actor input n good out db r on_hand short =
    let (e, failed) = with_tx_never env (create_adjustment_tx env actor n) db λ a db' h.
      (never_adjusted env actor n db r on_hand short (out_not_in n.direction out) out).at db refl a
        db' h in
    (e, rw good failed)
