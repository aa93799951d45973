-- ===== src/Sales/Service/Recalculation.antt =====
-- The recalculation of the totals makes the header of a sale add its items up again.
use mathlib.Core.Path.{subst, subst₃}
use pdv.Base.{
  ◌≡◌, ◌∙◌, arith, Bool, true, false, none, some, List, ℤ, inl, inr, Bool-cases, some_injective,
  sym, [],
}
use pdv.Money.{Numeric, zero_money, numeric_from_scaled_int}
use pdv.Money.Columns.{
  amount, IsColumn, numeric_from_scaled_int-IsColumn, amount-numeric_from_scaled_int,
}
use pdv.Database.Rows.{Uuid, Sale, SaleItem}
use pdv.Database.Tables.{find, replace}
use pdv.Database.Lookup.{find-replace_in, find-replace_out}
use pdv.Database.Store.{Db, Environment}
use pdv.Database.Laws.{NumericLaws}
use pdv.Database.Sales.{sale_at, items_of_sale}
use pdv.Sales.Spec.{gross, discount_of, total_of, sum_of, TotalsMatch}
use pdv.Sales.Consistency.{Consistent, IsConsistent, this_sale}

pub this_sale_eq :
    (org store id o s i : Uuid)
    → this_sale org store id o s i ≡ true
    → (o ≡ org) × (s ≡ store) × (i ≡ id)
this_sale_eq org store id o s i h = ground arith

pub other_sale :
    (org store id o s i : Uuid)
    → this_sale org store id o s i ≡ false
    → (x : Sale) → sale_at org store id x ≡ true
    → sale_at o s i x ≡ false
other_sale org store id o s i h x k = ground arith

pub none_not_some : {A : Type 0} {a : A} → none ≡ some a → ⊥
none_not_some h = cc

-- A header with the four sums, as columns.
module _ (env : Environment) (laws : NumericLaws env) (items : List SaleItem) where
  stored_sum :
      (value : ℤ) {m : Numeric}
      → env.column 2 (numeric_from_scaled_int value 2) ≡ some m
      → IsColumn 2 m × (amount 2 m ≡ value)
  stored_sum value {m} e = (
    laws.column_IsColumn 2 _ m (omega arith) e,
    laws.column_exact 2 _ m (omega arith) (numeric_from_scaled_int-IsColumn value 2) e
        ∙ amount-numeric_from_scaled_int value 2,
  )

  pub stored_totals :
      (sale : Sale)
      → env.column 2 (numeric_from_scaled_int (sum_of gross items) 2) ≡ some sale.subtotal
      → env.column 2 (numeric_from_scaled_int (sum_of discount_of items) 2) ≡ some sale.discount
      → env.column 2 zero_money ≡ some sale.addition
      → env.column 2 (numeric_from_scaled_int (sum_of total_of items) 2) ≡ some sale.total
      → TotalsMatch items sale
  stored_totals sale a b c d =
      let (a0, a1) = stored_sum _ a in
      let (b0, b1) = stored_sum _ b in
      let (c0, c1) = stored_sum _ c in
      let (d0, d1) = stored_sum _ d in
      record {
        subtotal_column = a0;
        discount_column = b0;
        addition_column = c0;
        total_column = d0;
        subtotal = a1;
        discount = b1;
        addition = c1;
        total = d1;
      }

-- A change of one header by which it matches its items, where all others match theirs.
module _ (org store id : Uuid) (db : Db) (f : Sale → Sale) (p : Sale → Bool) (s : Sale)
    (same : (o t i : Uuid) (x : Sale) → sale_at o t i (f x) ≡ sale_at o t i x)
    (sub : (x : Sale) → p x ≡ true → sale_at org store id x ≡ true)
    (present : find (sale_at org store id) db.sales ≡ some s) (allowed : p s ≡ true) where
  updated_here : find (sale_at org store id) (replace p f db.sales) ≡ some (f s)
  updated_here =
      find-replace_in p (sale_at org store id) f sub (λ x k. same org store id x ∙ sub x k) db.sales
        present allowed

  unchanged_elsewhere :
      (o t i : Uuid)
      → this_sale org store id o t i ≡ false
      → find (sale_at o t i) (replace p f db.sales) ≡ find (sale_at o t i) db.sales
  unchanged_elsewhere o t i apart =
      find-replace_out p (sale_at o t i) (λ x k. other_sale org store id o t i apart x (sub x k)) f
        (λ x k. same o t i x ∙ other_sale org store id o t i apart x (sub x k)) db.sales

  updated_header :
      TotalsMatch (items_of_sale org store id db.sale_items) (f s)
      → Consistent (this_sale org store id) db
      → (o t i : Uuid) (sale : Sale) → find (sale_at o t i) (replace p f db.sales) ≡ some sale
      → TotalsMatch (items_of_sale o t i db.sale_items) sale
  updated_header match c o t i sale found = elim (Bool-cases (this_sale org store id o t i)) [
    | inr apart ↦ c.headers o t i sale apart (sym (unchanged_elsewhere o t i apart) ∙ found)
    | inl here ↦
        let (eo, et, ei) = this_sale_eq org store id o t i here in
        let found' : find (sale_at org store id) (replace p f db.sales) ≡ some sale =
          subst₃ (λ o t i. find (sale_at o t i) (replace p f db.sales) ≡ some sale) eo et ei
            found in
        subst (λ (x : Sale). TotalsMatch (items_of_sale o t i db.sale_items) x)
          (some_injective (sym updated_here ∙ found'))
          (subst₃ (λ o t i. TotalsMatch (items_of_sale o t i db.sale_items) (f s)) (sym eo) (sym et)
            (sym ei) match)
  ]

  updated_owner :
      Consistent (this_sale org store id) db
      → (o t i : Uuid) → find (sale_at o t i) (replace p f db.sales) ≡ none
      → items_of_sale o t i db.sale_items ≡ []
  updated_owner c o t i missing = elim (Bool-cases (this_sale org store id o t i)) [
    | inr apart ↦ c.owned o t i apart (sym (unchanged_elsewhere o t i apart) ∙ missing)
    | inl here ↦
        let (eo, et, ei) = this_sale_eq org store id o t i here in
        absurd (
          none_not_some (
            sym (
              subst₃ (λ o t i. find (sale_at o t i) (replace p f db.sales) ≡ none) eo et ei missing)
            ∙ updated_here))
  ]

  pub header_updated :
      TotalsMatch (items_of_sale org store id db.sale_items) (f s)
      → Consistent (this_sale org store id) db
      → IsConsistent (record db { sales = replace p f db.sales })
  header_updated match c = record {
    prices = c.prices;
    items = c.items;
    headers = λ o t i sale _ found. updated_header match c o t i sale found;
    owned = λ o t i _ missing. updated_owner c o t i missing;
  }
