-- ===== src/Checkout/Keys.antt =====
-- The idempotency keys of the payments of a checkout.
use pdv.Base.{◌≡◌, ap, arith, pos, ℕ, List, [], ◌∷◌, ◌++◌}
use pdv.Errors.{codes}
use pdv.Text.{int_to_string}
use pdv.Text.Signed.{read_int, read-int_to_string}
use pdv.Database.Rows.{Uuid}
use pdv.Database.Store.{Environment}
use pdv.Checkout.Service.{payment_idempotency_key}

append_cancel : {A : Type 0} (xs ys zs : List A) → xs ++ ys ≡ xs ++ zs → ys ≡ zs
append_cancel [] ys zs h = h
append_cancel (x ∷ xs) ys zs h = append_cancel xs ys zs (cc h)

-- Two payments of one checkout with different positions have different idempotency keys.
pub payment_idempotency_key-injective :
    (env : Environment) (sale_id : Uuid) (i j : ℕ)
    → payment_idempotency_key env sale_id i ≡ payment_idempotency_key env sale_id j
    → i ≡ j
unfolding payment_idempotency_key
payment_idempotency_key-injective env sale_id i j h =
    let same : int_to_string (pos i) ≡ int_to_string (pos j) =
      append_cancel (codes "checkout:" ++ env.uuid_string sale_id ++ codes ":payment:")
        (int_to_string (pos i)) (int_to_string (pos j)) h in
    cc (
      ap read_int same,
      read-int_to_string (pos i) (omega arith),
      read-int_to_string (pos j) (omega arith),
    )
