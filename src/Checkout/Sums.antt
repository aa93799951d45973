-- ===== src/Checkout/Sums.antt =====
-- What a checkout takes off the stock of a product is the sum of the quantities of the product's items.
use pdv.Base.{
  ◌≡◌, refl, ◌∙◌, ap, Bool, true, false, List, [], ◌∷◌, All, if◌then◌else◌, ℤ, pos, ◌+ℤ◌,
  mul_pos_pos, zero_+ℤ, int_laws, arith, ok, inl, inr, Bool-cases, ==→eq,
}
use pdv.Errors.{Text}
use pdv.Money.{Numeric, zero_money, numeric_from_scaled_int}
use pdv.Money.Columns.{
  amount, amount-column, IsColumn, numeric_to_scaled_int-column, numeric_from_scaled_int-IsColumn,
  amount-numeric_from_scaled_int,
}
use pdv.Database.Rows.{Uuid, SaleItem}
use pdv.Database.Tables.{insert_by, order_by}
use pdv.Database.Store.{Environment}
use pdv.Database.Sales.{text_eq}
use pdv.Checkout.Errors.{fieldless}
use pdv.Checkout.Money.{add_quantity}
use pdv.Checkout.Stock.{Aggregate, add_to, aggregate_from, aggregate_quantities, key_before}
use pdv.Checkout.Aggregates.{Summed}

-- The thousandths of a product in the items, and in the aggregates.
abbrev pub ordered : Environment → Text → List SaleItem → ℤ
ordered env key [] = pos 0
ordered env key (item ∷ items) =
    (if text_eq (env.uuid_string item.product_id) key then amount 3 item.quantity else pos 0)
    +ℤ ordered env key items

abbrev pub held : Text → List Aggregate → ℤ
held key [] = pos 0
held key (a ∷ others) =
    (if text_eq a.key key then amount 3 a.quantity else pos 0) +ℤ held key others

text_eq→eq : (s t : Text) → text_eq s t ≡ true → s ≡ t
text_eq→eq [] [] h = refl
text_eq→eq [] (d ∷ t) h = cc
text_eq→eq (c ∷ s) [] h = cc
text_eq→eq (c ∷ s) (d ∷ t) h = cc (==→eq c d (ground arith), text_eq→eq s t (ground arith))

add_quantity-columns :
    (a b : Numeric)
    → IsColumn 3 a
    → IsColumn 3 b
    → add_quantity a b ≡ ok (numeric_from_scaled_int (amount 3 a +ℤ amount 3 b) 3)
unfolding add_quantity
add_quantity-columns a b ca cb =
    rw
      (numeric_to_scaled_int-column 3 a ca fieldless, numeric_to_scaled_int-column 3 b cb fieldless)

zero_money-IsColumn : IsColumn 3 zero_money
zero_money-IsColumn = record {
  coefficient = pos 0;
  up = 1;
  small_up = omega arith;
  is_valid = refl;
  is_number = refl;
  is_finite = refl;
  has_int = refl;
  has_exp = omega int_laws;
}

zero_money-amount : amount 3 zero_money ≡ pos 0
unfolding zero_money-IsColumn
zero_money-amount = amount-column 3 zero_money zero_money-IsColumn ∙ mul_pos_pos 0 10

shares :
    (b : Bool) (x y rest : ℤ)
    → (if b then x +ℤ y else pos 0) +ℤ rest
      ≡ (if b then x else pos 0) +ℤ rest +ℤ (if b then y else pos 0)
shares true x y rest = omega int_laws
shares false x y rest = omega int_laws

no_share :
    (b : Bool) (y : ℤ)
    → (if b then pos 0 else pos 0) +ℤ pos 0 +ℤ (if b then y else pos 0)
      ≡ pos 0 +ℤ (if b then y else pos 0)
no_share true y = omega int_laws
no_share false y = omega int_laws

-- The entry of a product takes in one more quantity.
add_to-held :
    (product : Text) (id : Uuid) (quantity : Numeric)
    → IsColumn 3 quantity
    → (old : List Aggregate) → All Summed old
    → (new : List Aggregate) × (add_to product id quantity old ≡ ok new)
      × All Summed new
      × ((key : Text)
          → held key new
            ≡ held key old +ℤ (if text_eq product key then amount 3 quantity else pos 0))
unfolding add_to
add_to-held product id quantity c [] all = (
  record {
    key = product;
    product_id = id;
    quantity = numeric_from_scaled_int (amount 3 zero_money +ℤ amount 3 quantity) 3;
  }
      ∷ [],
  rw (add_quantity-columns zero_money quantity zero_money-IsColumn c) refl,
  (numeric_from_scaled_int-IsColumn _ 3, tt),
  λ key.
      ap (λ (z : ℤ). (if text_eq product key then z else pos 0) +ℤ pos 0)
        (amount-numeric_from_scaled_int (amount 3 zero_money +ℤ amount 3 quantity) 3)
      ∙ shares (text_eq product key) (amount 3 zero_money) (amount 3 quantity) (pos 0)
      ∙ ap
          (λ (z : ℤ).
            (if text_eq product key then z else pos 0)
            +ℤ pos 0
            +ℤ (if text_eq product key then amount 3 quantity else pos 0))
          zero_money-amount
      ∙ no_share (text_eq product key) (amount 3 quantity),
)
add_to-held product id quantity c (a ∷ others) all = elim (Bool-cases (text_eq a.key product)) [
  | inl here ↦ (
    record a { quantity = numeric_from_scaled_int (amount 3 a.quantity +ℤ amount 3 quantity) 3 }
        ∷ others,
    rw (here, add_quantity-columns a.quantity quantity all.0 c) refl,
    (numeric_from_scaled_int-IsColumn _ 3, all.1),
    λ key.
        ap (λ (z : ℤ). (if text_eq a.key key then z else pos 0) +ℤ held key others)
          (amount-numeric_from_scaled_int (amount 3 a.quantity +ℤ amount 3 quantity) 3)
        ∙ shares (text_eq a.key key) (amount 3 a.quantity) (amount 3 quantity) (held key others)
        ∙ ap
            (λ (t : Text).
              held key (a ∷ others) +ℤ (if text_eq t key then amount 3 quantity else pos 0))
            (text_eq→eq a.key product here),
  )
  | inr away ↦
      let (more, eq, kept, sums) = add_to-held product id quantity c others all.1 in
      (a ∷ more, rw (away, eq) refl, (all.0, kept), λ key. rw (sums key) (omega int_laws))
]

module _ (env : Environment) where
  abbrev WithColumn : SaleItem → Type 0
  WithColumn item = IsColumn 3 item.quantity

  aggregate_from-held :
      (items : List SaleItem)
      → All WithColumn items
      → (old : List Aggregate) → All Summed old
      → (new : List Aggregate) × (aggregate_from env items old ≡ ok new)
        × ((key : Text) → held key new ≡ held key old +ℤ ordered env key items)
  unfolding aggregate_from
  aggregate_from-held [] h old all = (old, refl, λ key. omega int_laws)
  aggregate_from-held (item ∷ items) h old all =
      let (more, eq, kept, sums) =
        add_to-held (env.uuid_string item.product_id) item.product_id item.quantity h.0 old all in
      let (new, eq', sums') = aggregate_from-held items h.1 more kept in
      (new, rw (eq, eq') refl, λ key. rw (sums' key, sums key) (omega int_laws))

  held-insert_by :
      (key : Text) (a : Aggregate) (others : List Aggregate)
      → held key (insert_by key_before a others) ≡ held key (a ∷ others)
  held-insert_by key a [] = refl
  held-insert_by key a (b ∷ others) = elim (Bool-cases (key_before b a)) [
    | inl after ↦ rw (after, held-insert_by key a others) (omega int_laws)
    | inr before ↦ rw before refl
  ]

  held-order_by :
      (key : Text) (entries : List Aggregate)
      → held key (order_by key_before entries) ≡ held key entries
  held-order_by key [] = refl
  held-order_by key (a ∷ others) =
      held-insert_by key a (order_by key_before others)
      ∙ ap (λ (z : ℤ). (if text_eq a.key key then amount 3 a.quantity else pos 0) +ℤ z)
          (held-order_by key others)

  -- On items whose quantities have three places the aggregation does not fail, and the quantity
  -- that it holds under the text of a product is the sum of the quantities of the items of that
  -- product.
  pub aggregate_quantities-held :
      (items : List SaleItem)
      → All WithColumn items
      → (aggregates : List Aggregate) × (aggregate_quantities env items ≡ ok aggregates)
        × ((key : Text) → held key aggregates ≡ ordered env key items)
  unfolding aggregate_quantities
  aggregate_quantities-held items h =
      let (entries, eq, sums) = aggregate_from-held items h [] tt in
      (
        order_by key_before entries,
        rw eq refl,
        λ key. held-order_by key entries ∙ sums key ∙ zero_+ℤ (ordered env key items),
      )
