-- ===== src/Inventory/Recorded.antt =====
-- The movement that is recorded after a change of the stock settles the books.
use mathlib.Core.Path.{subst}
use pdv.Base.{
  ◌≡◌, refl, ◌∙◌, sym, ap, arith, true, false, [], ◌∷◌, ◌++◌, All-append, ℤ, ◌+ℤ◌, +ℤ_zero, ok, inl,
  inr, Bool-cases, Option-cases,
}
use pdv.Money.Columns.{amount, IsColumn}
use pdv.Database.Rows.{Uuid, ActorScope, InventoryMovement}
use pdv.Database.Tables.{find}
use pdv.Database.Store.{Db, Environment}
use pdv.Database.Ensures.{Ensures, Ensures-statement, overflow_step, ok_pair}
use pdv.Database.Laws.{NumericLaws}
use pdv.Database.Inventory.{
  NewMovement, same_reference, movement_row, insert_movement, create_inventory_movement,
}
use pdv.Inventory.Ledger.{
  moves, moved, moved_by, moved-append, signed, this_stock, IsMoved, Books, only, IsBooked,
}
use pdv.Inventory.Changes.{kept_column}

-- The numbers of a movement that is to be recorded.
pub record IsNew (n : NewMovement) : Type 0 where
  pub quantity_column : IsColumn 3 n.quantity
  pub previous_column : IsColumn 3 n.previous_quantity
  pub current_column : IsColumn 3 n.current_quantity
  pub change :
      amount 3 n.current_quantity
      ≡ amount 3 n.previous_quantity +ℤ signed n.movement_type (amount 3 n.quantity)

moved_by-only :
    (o s p : Uuid) (m : InventoryMovement)
    → only m.organization_id m.store_id m.product_id
        (signed m.movement_type (amount 3 m.quantity))
        o
        s
        p
      ≡ moved_by o s p m
moved_by-only o s p m =
    elim (Bool-cases (this_stock m.organization_id m.store_id m.product_id o s p)) [
      | inl this ↦ rw (this, same_row this) refl
      | inr apart ↦ rw (apart, other_row apart) refl
    ]
  where
    same_row :
        this_stock m.organization_id m.store_id m.product_id o s p ≡ true → moves o s p m ≡ true
    same_row h = ground arith

    other_row :
        this_stock m.organization_id m.store_id m.product_id o s p ≡ false → moves o s p m ≡ false
    other_row h = ground arith

-- The row of the movement balances the stock that is ahead by it.
settled_by :
    (m : InventoryMovement) (db : Db)
    → IsMoved m
    → Books
        (only m.organization_id m.store_id m.product_id
          (signed m.movement_type (amount 3 m.quantity)))
        db
    → IsBooked (record db { inventory_movements = db.inventory_movements ++ m ∷ [] })
settled_by m db right books = record {
  stocked = books.stocked;
  movements = All-append IsMoved db.inventory_movements (m ∷ []) books.movements (right, tt);
  balance = λ o s p.
      books.balance o s p
      ∙ ap (λ (a : ℤ). moved o s p db.inventory_movements +ℤ a) (moved_by-only o s p m)
      ∙ sym (moved-append o s p db.inventory_movements m)
      ∙ +ℤ_zero (moved o s p (db.inventory_movements ++ m ∷ []));
}

module _ (env : Environment) (laws : NumericLaws env) (scope : ActorScope) (n : NewMovement) where
  abbrev pub Unsettled : Db → Type 0
  Unsettled = Books (
      only scope.organization_id scope.store_id n.product_id
        (signed n.movement_type (amount 3 n.quantity)))

  insert_movement_ok :
      {S : Type 0} (db : Db) (m : InventoryMovement) (db' : Db)
      → IsNew n
      → Unsettled db
      → insert_movement {S = S} env scope n db ≡ ok (m, db')
      → IsBooked db'
  unfolding insert_movement
  insert_movement_ok db m db' new books e =
      let (quantity, eq, e1) = overflow_step (env.column 3 n.quantity) _ e in
      let (previous, ep, e2) = overflow_step (env.column 3 n.previous_quantity) _ e1 in
      let (current, ec, e3) = overflow_step (env.column 3 n.current_quantity) _ e2 in
      let (cq, same) = kept_column env laws n.quantity quantity new.quantity_column eq in
      let before = (kept_column env laws n.previous_quantity previous new.previous_column ep).1 in
      let after = (kept_column env laws n.current_quantity current new.current_column ec).1 in
      subst IsBooked (ok_pair e3).1 (
        settled_by (movement_row env scope n db quantity previous current) db
          (record { quantity_column = cq; after = rw (before, after, same) new.change })
          (subst
            (λ a.
              Books
                (only scope.organization_id scope.store_id n.product_id (signed n.movement_type a))
                db)
            (sym same) books))

  pub create_movement_ensures :
      {S : Type 0}
      → IsNew n
      → Ensures Unsettled (create_inventory_movement {S = S} env scope n) (λ _ db. IsBooked db)
  unfolding create_inventory_movement
  create_movement_ensures {S} new = Ensures-statement _ _ env _ _ λ db books m db' e.
      elim (Option-cases (find (same_reference scope n) db.inventory_movements)) [
        | inl fresh ↦ insert_movement_ok {S = S} db m db' new books (rw fresh at e)
        | inr (k, taken) ↦ cc (rw taken at e)
      ]
