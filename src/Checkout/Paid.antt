-- ===== src/Checkout/Paid.antt =====
-- Payments that are validated pay the sale.
use mathlib.Core.Path.{subst}
use pdv.Base.{
  ◌≡◌, refl, ◌∙◌, sym, ap, false, List, [], ◌∷◌, All, map, ℤ, pos, ◌+ℤ◌, +ℤ_zero, +ℤ_assoc, zero_+ℤ,
  ok, fail_if-eq-ok, ok_injective, cmp_ℤ,
}
use pdv.Errors.{wrap}
use pdv.Money.{Numeric}
use pdv.Money.Columns.{amount, IsColumn, amount-numeric_from_scaled_int}
use pdv.Database.Rows.{Uuid}
use pdv.Database.Store
use pdv.Database.Store.{Db, Environment, Action, lift, on_error, pure}
use pdv.Database.Ensures.{Ensures, Ensures-bind, Ensures-lift, Ensures-given, Ensures-known}
use pdv.Checkout.Money.{differs}
use pdv.Checkout.Accepts.{cents, cents-IsColumn, add_cents, compare_money-columns}
use pdv.Checkout.Payments.{PaymentInput, ValidatedPayment, validate_from, validate_payments}
use pdv.Checkout.Fair.{IsFair, InputColumns, check_payment-IsFair, map_err-ok, not_differs}

abbrev pub paid : List ValidatedPayment → ℤ
paid [] = pos 0
paid (p ∷ ps) = amount 2 p.amount +ℤ paid ps

-- The payments that come out, with their sum, of the payments that went in and a sum so far.
pub record Collected (inputs : List PaymentInput) (a : ℤ) (rest : List ValidatedPayment × Numeric)
    : Type 0 where
  pub fair : All IsFair rest.0
  pub amounts :
      map (λ (p : ValidatedPayment). p.amount) rest.0 ≡ map (λ (i : PaymentInput). i.amount) inputs
  pub sum : rest.1 ≡ cents (a +ℤ paid rest.0)

Collected-one :
    (input : PaymentInput) (inputs : List PaymentInput) (a : ℤ) (p : ValidatedPayment)
    (rest : List ValidatedPayment × Numeric)
    → IsFair p
    → p.amount ≡ input.amount
    → Collected inputs (a +ℤ amount 2 input.amount) rest
    → Collected (input ∷ inputs) a (p ∷ rest.0, rest.1)
Collected-one input inputs a p rest fair same c = record {
  fair = (fair, c.fair);
  amounts = cc (same, c.amounts);
  sum = c.sum ∙ rw (same, +ℤ_assoc a (amount 2 input.amount) (paid rest.0));
}

-- What a validation that succeeds says of the payments.
pub record Pays (sale_total : Numeric) (inputs : List PaymentInput) (ps : List ValidatedPayment)
    : Type 0 where
  pub each_fair : All IsFair ps
  pub same_amounts :
      map (λ (p : ValidatedPayment). p.amount) ps ≡ map (λ (i : PaymentInput). i.amount) inputs
  pub pays_total : paid ps ≡ amount 2 sale_total

module _ (env : Environment) (org : Uuid) where
  abbrev Any : Db → Type 0
  Any _ = Unit {0}

  abbrev Passed : PaymentInput → ValidatedPayment → Type 0
  Passed input p = IsFair p × (p.amount ≡ input.amount)

  validate_from-Collected :
      (inputs : List PaymentInput)
      → All InputColumns inputs
      → (a : ℤ)
      → Ensures Any (validate_from env org inputs (cents a)) (λ rest _. Collected inputs a rest)
  unfolding validate_from
  validate_from-Collected [] h a = Ensures-lift _ _ (ok ([], cents a)) λ rest db e _.
      subst (Collected [] a) (ok_injective e)
        (record { fair = tt; amounts = refl; sum = ap cents (+ℤ_zero a) })
  validate_from-Collected (input ∷ inputs) (h, hs) a =
      Ensures-bind Any (λ _ _. Unit {0}) _ _ _ (record { at = λ _ _ _ _ _. tt })
        λ method.
          Ensures-bind Any (λ p db. Any db × Passed input p) _ _ _
            (Ensures-lift _ _ _ λ p db e _.
              let (fair, _, same) = check_payment-IsFair method input p h e in (tt, (fair, same)))
            λ p. Ensures-given Any _ _ λ passed.
              Ensures-bind Any (λ s db. Any db × (s ≡ cents (a +ℤ amount 2 input.amount))) _ _ _
                (Ensures-lift _ _ _ λ s db e _. (
                  tt,
                  sym (
                      ok_injective (
                        sym (add_cents a input.amount h.amount_column)
                        ∙ map_err-ok (wrap "sum payments") _ e)),
                ))
                λ s.
                  Ensures-known Any _
                    (λ s.
                      Store.◌>>=◌ (validate_from env org inputs s)
                        λ rest. pure (p ∷ rest.0, rest.1))
                    (cents (a +ℤ amount 2 input.amount)) s
                    (Ensures-bind Any (λ rest _. Collected inputs (a +ℤ amount 2 input.amount) rest)
                      _ _ _ (validate_from-Collected inputs hs (a +ℤ amount 2 input.amount))
                      λ rest. Ensures-lift _ _ (ok (p ∷ rest.0, rest.1)) λ out db e c.
                        subst (Collected (input ∷ inputs) a) (ok_injective e)
                          (Collected-one input inputs a p rest passed.0 passed.1 c))

  validate_payments_ensures :
      (sale_total : Numeric) (inputs : List PaymentInput)
      → IsColumn 2 sale_total
      → All InputColumns inputs
      → Ensures Any
          (validate_payments env org sale_total inputs)
          (λ ps _. Pays sale_total inputs ps)
  unfolding validate_payments
  validate_payments_ensures sale_total inputs ct h =
      Ensures-bind Any (λ _ _. Unit {0}) _ _ _ (record { at = λ _ _ _ _ _. tt })
        λ _.
          Ensures-bind Any (λ rest db. Any db × Collected inputs (pos 0) rest) _ _ _
            (record {
              at = λ db p rest db' e.
                  (tt, (validate_from-Collected inputs h (pos 0)).at db tt rest db' e);
            })
            λ rest. Ensures-given Any _ _ λ c.
              let summed : amount 2 rest.1 ≡ paid rest.0 =
                ap (amount 2) c.sum ∙ amount-numeric_from_scaled_int _ 2 ∙ zero_+ℤ (paid rest.0) in
              let column : IsColumn 2 rest.1 = subst (IsColumn 2) (sym c.sum) (cents-IsColumn _) in
              Ensures-bind Any
                (λ cmp db. Any db × (cmp_ℤ (amount 2 rest.1) (amount 2 sale_total) ≡ cmp)) _ _ _
                (Ensures-lift _ _ _ λ cmp db e _. (
                  tt,
                  ok_injective (
                      sym (compare_money-columns rest.1 sale_total column ct)
                      ∙ map_err-ok (wrap "compare payment total") _ e),
                ))
                λ cmp. Ensures-given Any _ _ λ compared.
                  Ensures-bind Any (λ _ db. Any db × (differs cmp ≡ false)) _ _ _
                    (Ensures-lift _ _ _ λ u db e _. (tt, fail_if-eq-ok _ _ e))
                    λ _. Ensures-given Any _ _ λ equal. Ensures-lift _ _ (ok rest.0) λ ps db e _.
                      subst (Pays sale_total inputs) (ok_injective e) (record {
                        each_fair = c.fair;
                        same_amounts = c.amounts;
                        pays_total =
                            sym summed
                            ∙ not_differs (amount 2 rest.1) (amount 2 sale_total)
                                (ap differs compared ∙ equal);
                      })

  -- When ValidatePayments succeeds on amounts with two places, the payments have the amounts of
  -- the request in its order, add up to the total of the sale, and each has an active method, a
  -- positive amount, a change that is the money received less the amount and not negative, and a
  -- number of installments that the method allows.
  pub validate_payments-Pays :
      (sale_total : Numeric) (inputs : List PaymentInput) (db db' : Db) (ps : List ValidatedPayment)
      → IsColumn 2 sale_total
      → All InputColumns inputs
      → validate_payments env org sale_total inputs db ≡ (ok ps, db')
      → Pays sale_total inputs ps
  validate_payments-Pays sale_total inputs db db' ps ct h e =
      (validate_payments_ensures sale_total inputs ct h).at db tt ps db' e
