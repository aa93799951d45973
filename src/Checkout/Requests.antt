-- ===== src/Checkout/Requests.antt =====
-- What the checks on the requests of a checkout let through.
use pdv.Base.{
  ℕ, ◌-◌, ◌≤◌, ◌≡◌, ◌↔◌, arith, Bool, true, false, ◌||◌, some, pos, negsuc, int16, ok, fail_if,
  fail_if-eq-ok, >>=-eq-ok,
}
use pdv.Errors.{Text, validation}
use pdv.Text.{trim_space, is_empty, starts_with, cut}
use pdv.Sales.Input.{
  normalize_money_string as sales_normalize_money_string, money_of_cut as sales_money_of_cut,
}
use pdv.Checkout.Input.{normalize_money_string, money_of_cut, normalize_installments}

-- A number of installments that is not negative and that int16 holds is accepted as it is.
pub normalize_installments-small :
    (field : Text) (n : ℕ) → n ≤ 32767 → normalize_installments field (some (pos n)) ≡ ok (pos n)
unfolding normalize_installments int16
normalize_installments-small field n h = ground arith

-- A number of installments that is 65536 less than a number that int16 holds and that is not
-- negative is accepted as that number.
pub normalize_installments-wraps :
    (field : Text) (n : ℕ)
    → n ≤ 32767
    → normalize_installments field (some (negsuc (65535 - n))) ≡ ok (pos n)
unfolding normalize_installments int16
normalize_installments-wraps field n h = ground arith

cut_agrees :
    (field trimmed : Text) (x : Text × Text × Bool) (r : Text)
    → sales_money_of_cut field trimmed x ≡ ok r
    → money_of_cut field trimmed x ≡ ok r
unfolding sales_money_of_cut money_of_cut
cut_agrees field trimmed (whole, fraction, true) r e = ground arith
cut_agrees field trimmed (whole, fraction, false) r e = ground arith

cut_agrees_back :
    (field trimmed : Text) (x : Text × Text × Bool) (r : Text)
    → money_of_cut field trimmed x ≡ ok r
    → sales_money_of_cut field trimmed x ≡ ok r
unfolding sales_money_of_cut money_of_cut
cut_agrees_back field trimmed (whole, fraction, true) r e = ground arith
cut_agrees_back field trimmed (whole, fraction, false) r e = ground arith

-- The sales and the checkout accept the same texts of amounts, with the same canonical text.
pub normalize_money_string-agrees :
    (field value r : Text)
    → (sales_normalize_money_string field value ≡ ok r)
      ↔ (normalize_money_string field value ≡ ok r)
unfolding sales_normalize_money_string normalize_money_string
normalize_money_string-agrees field value r =
    let t = trim_space value in
    let signed = starts_with b'-' (trim_space value) || starts_with b'+' (trim_space value) in
    (
      (λ e.
          let (u, e1, e2) = >>=-eq-ok (fail_if (is_empty t) (validation field "is required")) _ e in
          let (v, e3, e4) =
            >>=-eq-ok (fail_if signed (validation field "cannot be negative")) _ e2 in
          rw (fail_if-eq-ok _ _ e1, fail_if-eq-ok _ _ e3) (cut_agrees field t (cut b'.' t) r e4)),
      λ e.
          let (u, e1, e2) = >>=-eq-ok (fail_if (is_empty t) (validation field "is required")) _ e in
          let (v, e3, e4) =
            >>=-eq-ok (fail_if signed (validation field "cannot be negative")) _ e2 in
          rw (fail_if-eq-ok _ _ e1, fail_if-eq-ok _ _ e3)
            (cut_agrees_back field t (cut b'.' t) r e4),
    )
