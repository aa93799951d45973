-- ===== src/Inventory/Stock.antt =====
-- A change of one row of inventory: it puts one stock ahead of its movements.
use pdv.Base.{
  ◌≡◌, ◌∙◌, ap, arith, true, false, none, some, List, [], ◌∷◌, ◌++◌, All, All-append, ℤ, pos, ◌+ℤ◌,
  ◌≤ℤ◌, int_laws, inl, inr, Bool-cases,
}
use pdv.Money.{Numeric}
use pdv.Money.Columns.{amount, IsColumn}
use pdv.Database.Rows.{Uuid, Inventory}
use pdv.Database.Tables.{find, replace}
use pdv.Database.Lookup.{
  find_holds, find-replace_in, find-replace_out, find-append_none, All-replace,
}
use pdv.Database.Store.{Db, Environment}
use pdv.Database.Inventory.{stock_at, with_quantity}
use pdv.Inventory.Ledger.{on_hand, quantity_of, this_stock, IsStocked, Books, only, IsBooked}

module _ (org store product : Uuid) where
  same_keys :
      (o s p : Uuid)
      → this_stock org store product o s p ≡ true
      → (o ≡ org) × (s ≡ store) × (p ≡ product)
  same_keys o s p h = (ground arith, ground arith, ground arith)

  other_stock :
      (o s p : Uuid)
      → this_stock org store product o s p ≡ false
      → (x : Inventory) → stock_at org store product x ≡ true
      → stock_at o s p x ≡ false
  other_stock o s p h x k = ground arith

  on_hand-append_out :
      (o s p : Uuid) (rows : List Inventory) (r : Inventory)
      → stock_at o s p r ≡ false
      → on_hand o s p (rows ++ r ∷ []) ≡ on_hand o s p rows
  on_hand-append_out o s p [] r h = rw h
  on_hand-append_out o s p (x ∷ rows) r h = ground (arith, on_hand-append_out o s p rows r)

  -- A change of the rows of inventory that concerns this stock alone.
  restocked :
      (db : Db) (rows : List Inventory) (d : ℤ)
      → IsBooked db
      → All IsStocked rows
      → ((o s p : Uuid)
          → this_stock org store product o s p ≡ false
          → on_hand o s p rows ≡ on_hand o s p db.inventory)
      → on_hand org store product rows ≡ on_hand org store product db.inventory +ℤ d
      → Books (only org store product d) (record db { inventory = rows })
  restocked db rows d books all unseen here = record {
    stocked = all;
    movements = books.movements;
    balance = λ o s p. elim (Bool-cases (this_stock org store product o s p)) [
      | inr apart ↦ rw (apart, unseen o s p apart) (books.balance o s p)
      | inl this ↦
          let (eo, es, ep) = same_keys o s p this in
          rw (this, eo, es, ep) (here ∙ rw (books.balance org store product) (omega int_laws))
    ];
  }

  -- A row with another quantity in the place of the row that is found.
  pub requantified :
      (env : Environment) (db : Db) (r : Inventory) (quantity : Numeric) (d : ℤ)
      → IsBooked db
      → find (stock_at org store product) db.inventory ≡ some r
      → IsColumn 3 quantity
      → pos 0 ≤ℤ amount 3 quantity
      → amount 3 quantity ≡ amount 3 r.quantity +ℤ d
      → Books (only org store product d) (record db {
        inventory =
            replace (stock_at org store product) (with_quantity env db quantity) db.inventory;
      })
  requantified env db r quantity d books found column enough change =
      let at = stock_at org store product in
      restocked db (replace at (with_quantity env db quantity) db.inventory) d books
        (All-replace IsStocked at (with_quantity env db quantity) db.inventory found
          (record { column = column; enough = enough }) books.stocked)
        (λ o s p apart. ap quantity_of (
          find-replace_out at (stock_at o s p) (other_stock o s p apart)
            (with_quantity env db quantity) (λ x h. other_stock o s p apart x h) db.inventory))
        (rw
          (
            find-replace_in at at (with_quantity env db quantity) (λ x h. h) (λ x h. h) db.inventory
                found (find_holds at db.inventory found),
            found,
          )
          change)

  -- The first row of a product.
  pub first_stock :
      (db : Db) (r : Inventory)
      → IsBooked db
      → find (stock_at org store product) db.inventory ≡ none
      → stock_at org store product r ≡ true
      → IsStocked r
      → Books
          (only org store product (amount 3 r.quantity))
          (record db { inventory = db.inventory ++ r ∷ [] })
  first_stock db r books missing mine stocked =
      let at = stock_at org store product in
      restocked db (db.inventory ++ r ∷ []) (amount 3 r.quantity) books
        (All-append IsStocked db.inventory (r ∷ []) books.stocked (stocked, tt))
        (λ o s p apart. on_hand-append_out o s p db.inventory r (other_stock o s p apart r mine))
        (rw (find-append_none at db.inventory r missing, missing, mine) (omega int_laws))
