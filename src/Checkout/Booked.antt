-- ===== src/Checkout/Booked.antt =====
-- What a checkout takes off the stock: applyInventoryChanges keeps the books.
use pdv.Base.{List, [], ◌∷◌, All, pos, ◌-ℤ◌}
use pdv.Money.Columns.{amount}
use pdv.Database.Rows.{Uuid, SaleItem}
use pdv.Database.Store.{Environment}
use pdv.Database.Ensures.{
  Ensures, Ensures-bind, Ensures-lift, Ensures-pure, Ensures-on_error, Ensures-recovering,
  Ensures-given,
}
use pdv.Database.Laws.{NumericLaws}
use pdv.Sales.Service.{StoreActor, to_store_scope, to_actor_scope}
use pdv.Inventory.Ledger.{Books, only, IsBooked}
use pdv.Inventory.Changes.{IsChange, decrease_ensures}
use pdv.Inventory.Recorded.{create_movement_ensures}
use pdv.Checkout.Stock.{
  Aggregate, decrease_error, sale_movement, apply_aggregate, apply_aggregates,
  apply_inventory_changes,
}
use pdv.Checkout.Aggregates.{Summed, aggregate_quantities-Summed}

module _ (env : Environment) (actor : StoreActor) (id : Uuid) where
  -- One product: its stock is ahead of its movements until the movement of the sale is recorded.
  apply_aggregate-IsBooked :
      (laws : NumericLaws env) (a : Aggregate)
      → Summed a
      → Ensures IsBooked (apply_aggregate env actor id a) (λ _. IsBooked)
  unfolding apply_aggregate
  apply_aggregate-IsBooked laws a c =
      Ensures-bind _
        (λ update db.
          Books
            (only actor.organization_id actor.store_id a.product_id (pos 0 -ℤ amount 3 a.quantity))
            db
          × IsChange (pos 0 -ℤ amount 3 a.quantity) update)
        _ _ _
        (Ensures-recovering _ _ (decrease_error env (to_store_scope actor) a.product_id) _ (record {
          at = λ db p u db' e.
              let (change, books) =
                (decrease_ensures env laws (to_store_scope actor) a.product_id a.quantity c).at db p
                  u db' e in
              (books, change);
        }))
        λ update. Ensures-given _ _ _ λ change.
          Ensures-bind _ (λ _. IsBooked) _ _ _
            (Ensures-on_error _ _ _ _ (
              create_movement_ensures env laws (to_actor_scope actor) (sale_movement id a update)
                (record {
                  quantity_column = c;
                  previous_column = change.previous_column;
                  current_column = change.current_column;
                  change = change.change;
                })))
            λ m. Ensures-pure _ _ tt λ db books. books

  apply_aggregates-IsBooked :
      (laws : NumericLaws env) (aggregates : List Aggregate)
      → All Summed aggregates
      → Ensures IsBooked (apply_aggregates env actor id aggregates) (λ _. IsBooked)
  unfolding apply_aggregates
  apply_aggregates-IsBooked laws [] all = Ensures-pure _ _ tt λ db books. books
  apply_aggregates-IsBooked laws (a ∷ others) all =
      Ensures-bind _ (λ _. IsBooked) _ _ _ (apply_aggregate-IsBooked laws a all.0)
        λ _. apply_aggregates-IsBooked laws others all.1

  pub apply_inventory_changes-IsBooked :
      (laws : NumericLaws env) (items : List SaleItem)
      → Ensures IsBooked (apply_inventory_changes env actor id items) (λ _. IsBooked)
  unfolding apply_inventory_changes
  apply_inventory_changes-IsBooked laws items =
      Ensures-bind _ (λ aggregates db. IsBooked db × All Summed aggregates) _ _ _
        (Ensures-lift _ _ _
          λ aggregates db e books. (books, aggregate_quantities-Summed env items aggregates e))
        λ aggregates. Ensures-given _ _ _ λ all. apply_aggregates-IsBooked laws aggregates all
