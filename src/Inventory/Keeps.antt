-- ===== src/Inventory/Keeps.antt =====
-- The commands on the stock keep the books.
use mathlib.Core.Path.{subst}
use pdv.Base.{
  ◌≡◌, ◌&&◌, refl, Option, ok, err, not, fail_if, inl, inr, Bool-cases, >>=-eq-ok, ok_injective,
}
use pdv.Errors.{Text, codes, validation}
use pdv.Text.{is_empty, trim_space}
use pdv.Money.{Numeric}
use pdv.Money.Columns.{amount, IsColumn}
use pdv.Database.Rows.{Uuid, MovementType, purchase, adjustment_in, adjustment_out}
use pdv.Database.Store.{Db, Environment}
use pdv.Database.Ensures.{
  Ensures, Ensures-bind, Ensures-lift, Ensures-pure, Ensures-on_error, Ensures-recovering,
  Ensures-statement, one_row_ok, with_tx_keeps, lift_keeps,
}
use pdv.Database.Laws.{NumericLaws}
use pdv.Database.Sales.{get_product_by_id}
use pdv.Database.Inventory.{StockChange}
use pdv.Sales.Parsed.{parse_quantity-IsColumn}
use pdv.Sales.Service.{StoreActor, to_store_scope, to_actor_scope}
use pdv.Inventory.Input.{
  CreateInventoryEntryInput, NormalizedEntryInput, normalize_entry_input,
  CreateInventoryAdjustmentInput, NormalizedAdjustmentInput, normalize_adjustment_input, is_in,
  is_out, to_upper, parse_uuid, parse_quantity, normalize_optional_reason, normalize_required_text,
}
use pdv.Inventory.Ledger.{Books, only, signed, IsBooked}
use pdv.Inventory.Changes.{IsChange, increase_ensures, decrease_ensures}
use pdv.Inventory.Recorded.{create_movement_ensures}
use pdv.Inventory.Service.{
  get_product_in_tx, apply_adjustment, record_movement, create_entry_tx, create_entry,
  create_adjustment_tx, create_adjustment, translate_decrease_inventory_error,
}

pub get_product_ensures :
    (env : Environment) (actor : StoreActor) (product : Uuid) (P : Db → Type 0)
    → Ensures P (get_product_in_tx env (to_store_scope actor) product) (λ _. P)
unfolding get_product_in_tx get_product_by_id
get_product_ensures env actor product P =
    Ensures-on_error _ _ _ _
      (Ensures-statement _ _ env _ _ λ db p row db' e. subst P (one_row_ok db _ e).1 p)

module _ (env : Environment) (laws : NumericLaws env) (actor : StoreActor) (product : Uuid)
    (quantity : Numeric) (column : IsColumn 3 quantity) where
  -- The stock has changed as a movement of this type says, and the movement is not recorded yet.
  abbrev Moving : MovementType → StockChange → Db → Type 0
  Moving t change db =
      IsChange (signed t (amount 3 quantity)) change
      × Books (only actor.organization_id actor.store_id product (signed t (amount 3 quantity))) db

  record_movement_ensures :
      (t : MovementType) (reason : Option Text) (reference_type : Text) (reference_id : Uuid)
      (change : StockChange)
      → Ensures
          (Moving t change)
          (record_movement env actor t product quantity reason reference_type reference_id change)
          (λ _ db. IsBooked db)
  unfolding record_movement
  record_movement_ensures t reason reference_type reference_id change = record {
    at = λ db p.
        (Ensures-bind _ (λ _ db. IsBooked db) _ _ _
            (Ensures-on_error _ _ _ _ (
              create_movement_ensures env laws (to_actor_scope actor) _ (record {
                quantity_column = column;
                previous_column = p.0.previous_column;
                current_column = p.0.current_column;
                change = p.0.change;
              })))
            λ m. Ensures-pure _ _ _ λ db books. books).at
          db p.1;
  }

  apply_adjustment_ensures :
      (n : NormalizedAdjustmentInput)
      → n.product_id ≡ product
      → n.quantity ≡ quantity
      → Ensures IsBooked (apply_adjustment env (to_store_scope actor) n) (λ u db. Moving u.1 u.0 db)
  unfolding apply_adjustment
  apply_adjustment_ensures n ep eq = elim (Bool-cases (is_in n.direction)) [
    | inl into ↦
        rw (into, ep, eq)
          (Ensures-bind _ (Moving adjustment_in) _ _ _
            (Ensures-on_error _ _ _ _
              (increase_ensures env laws (to_store_scope actor) product quantity column))
            λ u. Ensures-pure _ _ (u, adjustment_in) λ db p. p)
    | inr away ↦ elim (Bool-cases (is_out n.direction)) [
      | inl out ↦
          rw (away, out, ep, eq)
            (Ensures-bind _ (Moving adjustment_out) _ _ _
              (Ensures-recovering _ _
                (translate_decrease_inventory_error env (to_store_scope actor) product) _
                (decrease_ensures env laws (to_store_scope actor) product quantity column))
              λ u. Ensures-pure _ _ (u, adjustment_out) λ db p. p)
      | inr neither ↦ rw (away, neither) (Ensures-lift _ _ (err _) λ a db e. cc e)
    ]
  ]

module _ (env : Environment) (laws : NumericLaws env) (actor : StoreActor) where
  create_entry_tx_ensures :
      (n : NormalizedEntryInput)
      → IsColumn 3 n.quantity
      → Ensures IsBooked (create_entry_tx env actor n) (λ _. IsBooked)
  unfolding create_entry_tx
  create_entry_tx_ensures n c =
      Ensures-bind _ (λ _. IsBooked) _ _ _ (get_product_ensures env actor n.product_id IsBooked)
        λ _.
          Ensures-bind _ (Moving env laws actor n.product_id n.quantity c purchase) _ _ _
            (Ensures-on_error _ _ _ _
              (increase_ensures env laws (to_store_scope actor) n.product_id n.quantity c))
            λ change.
              record_movement_ensures env laws actor n.product_id n.quantity c purchase n.reason
                n.reference_type n.reference_id change

  create_adjustment_tx_ensures :
      (n : NormalizedAdjustmentInput)
      → IsColumn 3 n.quantity
      → Ensures IsBooked (create_adjustment_tx env actor n) (λ _. IsBooked)
  unfolding create_adjustment_tx
  create_adjustment_tx_ensures n c =
      Ensures-bind _ (λ _. IsBooked) _ _ _ (get_product_ensures env actor n.product_id IsBooked)
        λ _.
          Ensures-bind _ (λ u. Moving env laws actor n.product_id n.quantity c u.1 u.0) _ _ _
            (apply_adjustment_ensures env laws actor n.product_id n.quantity c n refl refl)
            λ u.
              record_movement_ensures env laws actor n.product_id n.quantity c u.1 n.reason
                n.reference_type n.reference_id u.0

  entry_column :
      (input : CreateInventoryEntryInput) (n : NormalizedEntryInput)
      → normalize_entry_input env input ≡ ok n
      → IsColumn 3 n.quantity
  unfolding normalize_entry_input
  entry_column input n e =
      let (product, e1, e2) = >>=-eq-ok (parse_uuid env input.product_id (codes "productId")) _ e in
      let (quantity, e3, e4) =
        >>=-eq-ok (parse_quantity env (codes "quantity") input.quantity) _ e2 in
      let (reason, e5, e6) = >>=-eq-ok (normalize_optional_reason input.reason) _ e4 in
      let (kind, e7, e8) =
        >>=-eq-ok (normalize_required_text (codes "referenceType") input.reference_type) _ e6 in
      let (reference, e9, e10) =
        >>=-eq-ok (parse_uuid env input.reference_id (codes "referenceId")) _ e8 in
      subst (λ (m : NormalizedEntryInput). IsColumn 3 m.quantity) (ok_injective e10)
        (parse_quantity-IsColumn env laws (codes "quantity") input.quantity quantity e3)

  adjustment_column :
      (input : CreateInventoryAdjustmentInput) (n : NormalizedAdjustmentInput)
      → normalize_adjustment_input env input ≡ ok n
      → IsColumn 3 n.quantity
  unfolding normalize_adjustment_input
  adjustment_column input n e =
      let (product, e1, e2) = >>=-eq-ok (parse_uuid env input.product_id (codes "productId")) _ e in
      let (quantity, e3, e4) =
        >>=-eq-ok (parse_quantity env (codes "quantity") input.quantity) _ e2 in
      let (u, e5, e6) = >>=-eq-ok (fail_if (is_empty input.direction) _) _ e4 in
      let (v, e7, e8) =
        >>=-eq-ok
          (fail_if
            (not (is_in (to_upper (trim_space input.direction)))
              && not (is_out (to_upper (trim_space input.direction))))
            (validation (codes "direction") "must be IN or OUT"))
          _ e6 in
      let (reason, e9, e10) =
        >>=-eq-ok (normalize_required_text (codes "reason") input.reason) _ e8 in
      let (kind, e11, e12) =
        >>=-eq-ok (normalize_required_text (codes "referenceType") input.reference_type) _ e10 in
      let (reference, e13, e14) =
        >>=-eq-ok (parse_uuid env input.reference_id (codes "referenceId")) _ e12 in
      subst (λ (m : NormalizedAdjustmentInput). IsColumn 3 m.quantity) (ok_injective e14)
        (parse_quantity-IsColumn env laws (codes "quantity") input.quantity quantity e3)

-- CreateEntry keeps the books, on success and on every failure: the stock of every product in
-- every store is the sum of what its movements have moved, is not negative, and every movement
-- ends with what it began with and moved, where the environment keeps the laws on numbers and the
-- books were so before.
pub create_entry-IsBooked :
    (env : Environment) (laws : NumericLaws env) (actor : StoreActor)
    (input : CreateInventoryEntryInput) (db : Db)
    → IsBooked db
    → IsBooked (create_entry env actor input db).1
unfolding create_entry
create_entry-IsBooked env laws actor input db books =
    lift_keeps IsBooked (normalize_entry_input env input) _ db books λ n e.
      with_tx_keeps env _ db IsBooked
        (create_entry_tx_ensures env laws actor n (entry_column env laws actor input n e)) books

-- CreateAdjustment keeps the books, on success and on every failure: the stock of every product in
-- every store is the sum of what its movements have moved, is not negative, and every movement
-- ends with what it began with and moved, where the environment keeps the laws on numbers and the
-- books were so before.
pub create_adjustment-IsBooked :
    (env : Environment) (laws : NumericLaws env) (actor : StoreActor)
    (input : CreateInventoryAdjustmentInput) (db : Db)
    → IsBooked db
    → IsBooked (create_adjustment env actor input db).1
unfolding create_adjustment
create_adjustment-IsBooked env laws actor input db books =
    lift_keeps IsBooked (normalize_adjustment_input env input) _ db books λ n e.
      with_tx_keeps env _ db IsBooked
        (create_adjustment_tx_ensures env laws actor n (adjustment_column env laws actor input n e))
        books
