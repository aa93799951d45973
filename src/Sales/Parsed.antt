-- ===== src/Sales/Parsed.antt =====
-- What the parsers of sales/validation.go give is a number of its column.
use mathlib.Core.Path.{subst}
use pdv.Base.{
  ℕ, ◌≡◌, ◌∙◌, sym, ap, not, ◌++◌, Option, none, some, pos, ok, >>=-eq-ok, fail_if, ok_injective,
  some_injective,
}
use pdv.Errors.{Text, Error, validation}
use pdv.Text.{has_positive_digit, value_of}
use pdv.Money.{Numeric, numeric_from_scaled_int}
use pdv.Money.Columns.{IsColumn, numeric_from_scaled_int-IsColumn}
use pdv.Database.Store.{Environment}
use pdv.Database.Laws.{NumericLaws}
use pdv.Sales.Input.{
  normalize_quantity_string, normalize_money_string, parse_money, parse_quantity,
  parse_optional_money, or_error,
}
use pdv.Sales.Canonical.{
  IsCanonical, normalize_quantity_string-IsCanonical, normalize_money_string-IsCanonical,
}

or_error-eq-ok :
    {S A : Type 0} (o : Option A) (e : Error S) {a : A} → or_error o e ≡ ok a → o ≡ some a
or_error-eq-ok none e h = cc
or_error-eq-ok (some b) e h = cc h

-- What is scanned is a column number.
module _ (env : Environment) (laws : NumericLaws env) where
  scanned-IsColumn :
      (places : ℕ) (t : Text) (n : Numeric)
      → IsCanonical places t
      → env.scan_scientific t ≡ some n
      → IsColumn places n
  scanned-IsColumn places t n c e =
      let scanned = laws.scan_digits c.whole c.fraction c.whole_digits c.fraction_digits in
      subst (IsColumn places)
        (some_injective (sym scanned ∙ ap env.scan_scientific (sym c.parts) ∙ e))
        (subst
          (λ k.
            IsColumn places (numeric_from_scaled_int (pos (value_of (c.whole ++ c.fraction))) k))
          (sym c.fraction_length)
          (numeric_from_scaled_int-IsColumn (pos (value_of (c.whole ++ c.fraction))) places))

  pub parse_quantity-IsColumn :
      {S : Type 0} (field value : Text) (n : Numeric)
      → parse_quantity {S = S} env field value ≡ ok n
      → IsColumn 3 n
  unfolding parse_quantity
  parse_quantity-IsColumn field value n e =
      let (t, e1, e2) = >>=-eq-ok (normalize_quantity_string field value) _ e in
      let (u, e3, e4) =
        >>=-eq-ok
          (fail_if (not (has_positive_digit t)) (validation field "must be greater than zero")) _
          e2 in
      scanned-IsColumn 3 t n (normalize_quantity_string-IsCanonical field value t e1)
        (or_error-eq-ok (env.scan_scientific t) _ e4)

  pub parse_money-IsColumn :
      (field value : Text) (n : Numeric) → parse_money env field value ≡ ok n → IsColumn 2 n
  unfolding parse_money
  parse_money-IsColumn field value n e =
      let (t, e1, e2) = >>=-eq-ok (normalize_money_string field value) _ e in
      scanned-IsColumn 2 t n (normalize_money_string-IsCanonical field value t e1)
        (or_error-eq-ok (env.scan_scientific t) _ e2)

  pub parse_optional_money-IsColumn :
      (field : Text) (value : Option Text) (n : Numeric)
      → parse_optional_money env field value ≡ ok n
      → IsColumn 2 n
  unfolding parse_optional_money
  parse_optional_money-IsColumn field none n e =
      subst (IsColumn 2) (ok_injective e) (numeric_from_scaled_int-IsColumn (pos 0) 2)
  parse_optional_money-IsColumn field (some value) n e = parse_money-IsColumn field value n e
