-- ===== src/Inventory/Changes.antt =====
-- What the statements on the stock do to the books: a decrease and an increase put one stock ahead of
-- its movements by what they take or add.
use mathlib.Core.Path.{subst}
use pdv.Base.{
  ◌≡◌, refl, ◌∙◌, sym, ap, arith, true, false, none, some, [], ◌∷◌, ◌++◌, ℤ, pos, ◌+ℤ◌, ◌-ℤ◌, ◌≤ℤ◌,
  ltb_ℤ-zero, mul_pos_pos, not_ltb_ℤ, int_laws, ok, inl, inr, Bool-cases, Option-cases,
}
use pdv.Money.{Numeric}
use pdv.Money.Columns.{amount, amount-column, IsColumn}
use pdv.Database.Rows.{Uuid, StoreScope, Inventory}
use pdv.Database.Tables.{find}
use pdv.Database.Lookup.{All-find}
use pdv.Database.Store.{Db, Environment}
use pdv.Database.Ensures.{Ensures, Ensures-statement, overflow_step, ok_pair}
use pdv.Database.Laws.{NumericLaws}
use pdv.Database.Inventory.{
  stock_at, StockChange, sql_zero, take_off, decrease_inventory, first_row, put_first, put_more,
  increase_inventory,
}
use pdv.Inventory.Ledger.{IsStocked, Books, only, IsBooked}
use pdv.Inventory.Stock.{requantified, first_stock}

-- The amounts that a change of the stock answers.
pub record IsChange (d : ℤ) (c : StockChange) : Type 0 where
  pub previous_column : IsColumn 3 c.previous_quantity
  pub current_column : IsColumn 3 c.current_quantity
  pub change : amount 3 c.current_quantity ≡ amount 3 c.previous_quantity +ℤ d

sql_zero-IsColumn : IsColumn 3 sql_zero
sql_zero-IsColumn = record {
  coefficient = pos 0;
  up = 3;
  small_up = omega arith;
  is_valid = refl;
  is_number = refl;
  is_finite = refl;
  has_int = refl;
  has_exp = omega int_laws;
}

sql_zero-amount : amount 3 sql_zero ≡ pos 0
unfolding sql_zero-IsColumn
sql_zero-amount = amount-column 3 sql_zero sql_zero-IsColumn ∙ mul_pos_pos 0 1000

at_own :
    (scope : StoreScope) (product : Uuid)
    → stock_at scope.organization_id scope.store_id product (record {
      organization_id = scope.organization_id;
      store_id = scope.store_id;
      product_id = product;
      quantity = sql_zero;
      created_at = 0;
      updated_at = 0;
    })
      ≡ true
at_own scope product = ground arith

module _ (env : Environment) (laws : NumericLaws env) where
  pub kept_column :
      (n m : Numeric)
      → IsColumn 3 n
      → env.column 3 n ≡ some m
      → IsColumn 3 m × (amount 3 m ≡ amount 3 n)
  kept_column n m c e =
      (laws.column_IsColumn 3 n m (omega arith) e, laws.column_exact 3 n m (omega arith) c e)

  sum_column :
      (a b m : Numeric)
      → IsColumn 3 a
      → IsColumn 3 b
      → env.column 3 (env.add_numeric a b) ≡ some m
      → IsColumn 3 m × (amount 3 m ≡ amount 3 a +ℤ amount 3 b)
  sum_column a b m ca cb e =
      let (c, sum) = laws.add_exact a b ca cb in
      let (column, exact) = kept_column _ m c e in (column, exact ∙ sum)

  difference_column :
      (a b m : Numeric)
      → IsColumn 3 a
      → IsColumn 3 b
      → env.column 3 (env.subtract_numeric a b) ≡ some m
      → IsColumn 3 m × (amount 3 m ≡ amount 3 a -ℤ amount 3 b)
  difference_column a b m ca cb e =
      let (c, difference) = laws.subtract_exact a b ca cb in
      let (column, exact) = kept_column _ m c e in (column, exact ∙ difference)

  positive : (q : Numeric) → IsColumn 3 q → env.less_numeric sql_zero q ≡ true → pos 1 ≤ℤ amount 3 q
  positive q c e = omega (
    int_laws,
    ltb_ℤ-zero (pos 0) (amount 3 q)
        (rw sql_zero-amount at (sym (laws.less_exact sql_zero q sql_zero-IsColumn c) ∙ e)),
  )

  enough_stock :
      (r q : Numeric)
      → IsColumn 3 r
      → IsColumn 3 q
      → env.less_numeric r q ≡ false
      → pos 0 ≤ℤ amount 3 r -ℤ amount 3 q
  enough_stock r q cr cq e =
      not_ltb_ℤ (amount 3 r) (amount 3 q) (sym (laws.less_exact r q cr cq) ∙ e)

  module _ (scope : StoreScope) (product : Uuid) (quantity : Numeric)
      (column : IsColumn 3 quantity) where
    abbrev pub Ahead : ℤ → Db → Type 0
    Ahead d = Books (only scope.organization_id scope.store_id product d)

    taken_off :
        {S : Type 0} (db : Db) (r : Inventory) (change : StockChange) (db' : Db)
        → IsBooked db
        → find (stock_at scope.organization_id scope.store_id product) db.inventory ≡ some r
        → take_off {S = S} env scope product quantity db r ≡ ok (change, db')
        → IsChange (pos 0 -ℤ amount 3 quantity) change × Ahead (pos 0 -ℤ amount 3 quantity) db'
    unfolding take_off
    taken_off {S} db r change db' books found e =
        elim (Bool-cases (env.less_numeric r.quantity quantity)) [
          | inl short ↦ cc (rw (short, take_off) at e)
          | inr enough ↦
              let row : IsStocked r =
                All-find IsStocked (stock_at scope.organization_id scope.store_id product)
                  db.inventory books.stocked found in
              let (current, ec, e1) =
                overflow_step (env.column 3 (env.subtract_numeric r.quantity quantity)) _
                  (rw (enough, take_off) at e) in
              let (previous, ep, e2) =
                overflow_step (env.column 3 (env.add_numeric current quantity)) _ e1 in
              let (below, less) =
                difference_column r.quantity quantity current row.column column ec in
              let (cp, more) = sum_column current quantity previous below column ep in
              let (answered, left) = ok_pair e2 in
              (
                subst (IsChange (pos 0 -ℤ amount 3 quantity)) answered (record {
                  previous_column = cp;
                  current_column = below;
                  change = rw more (omega int_laws);
                }),
                subst (Ahead (pos 0 -ℤ amount 3 quantity)) left (
                    requantified scope.organization_id scope.store_id product env db r current _
                      books found below
                      (rw less (enough_stock r.quantity quantity row.column column enough))
                      (less ∙ omega int_laws)),
              )
        ]

    put_first_ok :
        {S : Type 0} (added : Numeric) (db : Db) (change : StockChange) (db' : Db)
        → IsColumn 3 added
        → amount 3 added ≡ amount 3 quantity
        → pos 1 ≤ℤ amount 3 quantity
        → IsBooked db
        → find (stock_at scope.organization_id scope.store_id product) db.inventory ≡ none
        → put_first {S = S} env scope product quantity added db ≡ ok (change, db')
        → IsChange (amount 3 quantity) change × Ahead (amount 3 quantity) db'
    unfolding put_first
    put_first_ok {S} added db change db' ca same more books missing e =
        let (previous, ep, e1) =
          overflow_step (env.column 3 (env.subtract_numeric added quantity)) _ e in
        let (cp, less) = difference_column added quantity previous ca column ep in
        let (answered, left) = ok_pair e1 in
        (
          subst (IsChange (amount 3 quantity)) answered (record {
            previous_column = cp;
            current_column = ca;
            change = rw (less, same) (omega int_laws);
          }),
          subst (Ahead (amount 3 quantity)) left (
              subst
                (λ a. Ahead a (record db {
                  inventory = db.inventory ++ first_row env scope product added db ∷ [];
                }))
                same
                (first_stock scope.organization_id scope.store_id product db
                  (first_row env scope product added db) books missing (at_own scope product)
                  (record { column = ca; enough = rw same (omega (int_laws, more)) }))),
        )

    put_more_ok :
        {S : Type 0} (added : Numeric) (db : Db) (r : Inventory) (change : StockChange) (db' : Db)
        → IsColumn 3 added
        → amount 3 added ≡ amount 3 quantity
        → pos 1 ≤ℤ amount 3 quantity
        → IsBooked db
        → find (stock_at scope.organization_id scope.store_id product) db.inventory ≡ some r
        → put_more {S = S} env scope product quantity added db r ≡ ok (change, db')
        → IsChange (amount 3 quantity) change × Ahead (amount 3 quantity) db'
    unfolding put_more
    put_more_ok {S} added db r change db' ca same more books found e =
        let row : IsStocked r =
          All-find IsStocked (stock_at scope.organization_id scope.store_id product) db.inventory
            books.stocked found in
        let (current, ec, e1) =
          overflow_step (env.column 3 (env.add_numeric r.quantity added)) _ e in
        let (previous, ep, e2) =
          overflow_step (env.column 3 (env.subtract_numeric current quantity)) _ e1 in
        let (here, sum) = sum_column r.quantity added current row.column ca ec in
        let (there, less) = difference_column current quantity previous here column ep in
        let (answered, left) = ok_pair e2 in
        (
          subst (IsChange (amount 3 quantity)) answered (record {
            previous_column = there;
            current_column = here;
            change = rw less (omega int_laws);
          }),
          subst (Ahead (amount 3 quantity)) left (
              requantified scope.organization_id scope.store_id product env db r current _ books
                found here (rw (sum, same) (omega (int_laws, row.enough, more)))
                (sum ∙ ap (λ (a : ℤ). amount 3 r.quantity +ℤ a) same)),
        )

    pub decrease_ensures :
        {S : Type 0}
        → Ensures IsBooked (decrease_inventory {S = S} env scope product quantity) (λ change db.
          IsChange (pos 0 -ℤ amount 3 quantity) change × Ahead (pos 0 -ℤ amount 3 quantity) db)
    unfolding decrease_inventory
    decrease_ensures {S} = Ensures-statement _ _ env _ _ λ db books change db' e.
        elim (Bool-cases (env.less_numeric sql_zero quantity)) [
          | inr nothing ↦ cc (rw nothing at e)
          | inl something ↦
              elim (Option-cases
                (find (stock_at scope.organization_id scope.store_id product) db.inventory)) [
                  | inl missing ↦ cc (rw (something, missing) at e)
                  | inr (r, found) ↦
                      taken_off {S = S} db r change db' books found (rw (something, found) at e)
                ]
        ]

    pub increase_ensures :
        {S : Type 0}
        → Ensures IsBooked
            (increase_inventory {S = S} env scope product quantity)
            (λ change db. IsChange (amount 3 quantity) change × Ahead (amount 3 quantity) db)
    unfolding increase_inventory
    increase_ensures {S} = Ensures-statement _ _ env _ _ λ db books change db' e.
        elim (Bool-cases (env.less_numeric sql_zero quantity)) [
          | inr nothing ↦ cc (rw nothing at e)
          | inl something ↦
              let (added, ea, e1) = overflow_step (env.column 3 quantity) _ (rw something at e) in
              let (ca, same) = kept_column quantity added column ea in
              let more = positive quantity column something in
              elim (Option-cases
                (find (stock_at scope.organization_id scope.store_id product) db.inventory)) [
                  | inl missing ↦
                      put_first_ok {S = S} added db change db' ca same more books missing
                        (rw missing at e1)
                  | inr (r, found) ↦
                      put_more_ok {S = S} added db r change db' ca same more books found
                        (rw found at e1)
                ]
        ]
