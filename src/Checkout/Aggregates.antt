-- ===== src/Checkout/Aggregates.antt =====
-- The quantities of a sale by product: each is a number of its column.
use mathlib.Core.Path.{subst}
use pdv.Base.{
  ◌≡◌, List, [], ◌∷◌, All, ok, err, inl, inr, Bool-cases, >>=-eq-ok, ok_injective, Result, map_err,
}
use pdv.Errors.{Text, wrap}
use pdv.Money.{Numeric, zero_money}
use pdv.Money.Columns.{IsColumn, numeric_from_scaled_int-IsColumn}
use pdv.Database.Rows.{Uuid, SaleItem}
use pdv.Database.Lookup.{All-order_by}
use pdv.Database.Store.{Environment}
use pdv.Database.Sales.{text_eq}
use pdv.Checkout.Money.{add_quantity, numeric_to_scaled_int}
use pdv.Checkout.Stock.{Aggregate, add_to, aggregate_from, aggregate_quantities, key_before}

-- The quantity of an aggregate is a sum that the checkout has made.
abbrev pub Summed : Aggregate → Type 0
Summed a = IsColumn 3 a.quantity

add_quantity-IsColumn : (a b r : Numeric) → add_quantity a b ≡ ok r → IsColumn 3 r
unfolding add_quantity
add_quantity-IsColumn a b r e =
    let (left, e1, e2) = >>=-eq-ok (numeric_to_scaled_int a 3) _ e in
    let (right, e3, e4) = >>=-eq-ok (numeric_to_scaled_int b 3) _ e2 in
    subst (IsColumn 3) (ok_injective e4) (numeric_from_scaled_int-IsColumn _ 3)

add_to-Summed :
    (key : Text) (product : Uuid) (quantity : Numeric) (old new : List Aggregate)
    → All Summed old
    → add_to key product quantity old ≡ ok new
    → All Summed new
unfolding add_to
add_to-Summed key product quantity [] new all e =
    let (sum, e1, e2) = >>=-eq-ok (add_quantity zero_money quantity) _ e in
    subst (All Summed) (ok_injective e2) (add_quantity-IsColumn zero_money quantity sum e1, tt)
add_to-Summed key product quantity (a ∷ others) new all e = elim (Bool-cases (text_eq a.key key)) [
  | inl here ↦
      let (sum, e1, e2) = >>=-eq-ok (add_quantity a.quantity quantity) _ (rw (here, add_to) at e) in
      subst (All Summed) (ok_injective e2) (add_quantity-IsColumn a.quantity quantity sum e1, all.1)
  | inr away ↦
      let (more, e1, e2) =
        >>=-eq-ok (add_to key product quantity others) _ (rw (away, add_to) at e) in
      subst (All Summed) (ok_injective e2)
        (all.0, add_to-Summed key product quantity others more all.1 e1)
]

pub map_err_ok : {E A : Type 0} (g : E → E) (r : Result E A) {a : A} → map_err g r ≡ ok a → r ≡ ok a
map_err_ok g (ok b) h = h
map_err_ok g (err e) h = cc

module _ (env : Environment) where
  aggregate_from-Summed :
      (items : List SaleItem) (old new : List Aggregate)
      → All Summed old
      → aggregate_from env items old ≡ ok new
      → All Summed new
  unfolding aggregate_from
  aggregate_from-Summed [] old new all e = subst (All Summed) (ok_injective e) all
  aggregate_from-Summed (item ∷ items) old new all e =
      let (more, e1, e2) =
        >>=-eq-ok
          (map_err (wrap "aggregate inventory quantity")
            (add_to (env.uuid_string item.product_id) item.product_id item.quantity old))
          _ e in
      aggregate_from-Summed items more new
        (add_to-Summed (env.uuid_string item.product_id) item.product_id item.quantity old more all
          (map_err_ok (wrap "aggregate inventory quantity") _ e1))
        e2

  pub aggregate_quantities-Summed :
      (items : List SaleItem) (aggregates : List Aggregate)
      → aggregate_quantities env items ≡ ok aggregates
      → All Summed aggregates
  unfolding aggregate_quantities
  aggregate_quantities-Summed items aggregates e =
      let (by_product, e1, e2) = >>=-eq-ok (aggregate_from env items []) _ e in
      subst (All Summed) (ok_injective e2) (
        All-order_by Summed key_before by_product (aggregate_from-Summed items [] by_product tt e1))
