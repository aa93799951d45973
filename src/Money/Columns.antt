-- ===== src/Money/Columns.antt =====
-- The numbers that a column of type NUMERIC(15, s) holds: they are finite and have at most s places, so
-- bringing them to s places is exact and does not fail.
use pdv.Base.{
  ℕ, ◌^◌, ◌≤◌, ◌≡◌, refl, ◌∙◌, arith, String, true, false, none, some, ℤ, pos, neg, ◌*ℤ◌, ◌-ℤ◌,
  int_laws, neg_parts, mul_one, ok,
}
use pdv.Money.{Numeric, numeric_to_scaled_int, numeric_from_scaled_int, rescale}
use pdv.Money.Scaled.{rescale_up}

-- The number of units of the last of `places` places, zero for a number without an integer.
abbrev pub amount : ℕ → Numeric → ℤ
amount places n = elim n.int [ none ↦ pos 0 | some c ↦ rescale c n.exp places ]

-- `coefficient` times ten to the power `up` less `places`. The bounds keep exponents far from the
-- ends of int32.
pub record IsColumn (places : ℕ) (n : Numeric) : Type 0 where
  pub coefficient : ℤ
  pub up : ℕ
  pub small_up : up ≤ 16
  pub is_valid : n.valid ≡ true
  pub is_number : n.nan ≡ false
  pub is_finite : n.infinity_modifier ≡ pos 0
  pub has_int : n.int ≡ some coefficient
  pub has_exp : n.exp ≡ pos up -ℤ pos places

module _ (places : ℕ) (n : Numeric) (c : IsColumn places n) where
  pub amount-column : amount places n ≡ c.coefficient *ℤ pos (10 ^ c.up)
  amount-column =
      rw (c.has_int, c.has_exp)
        (rescale_up c.coefficient (pos c.up -ℤ pos places) places c.up (omega (arith, c.small_up))
          (omega (int_laws, neg_parts places)))

  pub numeric_to_scaled_int-column :
      {E : Type 0} (fail : String → E) → numeric_to_scaled_int fail n places ≡ ok (amount places n)
  unfolding numeric_to_scaled_int
  numeric_to_scaled_int-column fail = rw (c.is_valid, c.has_int, c.is_number, c.is_finite)

-- A number made of units of the last place is such a number.
pub numeric_from_scaled_int-IsColumn :
    (value : ℤ) (places : ℕ) → IsColumn places (numeric_from_scaled_int value places)
numeric_from_scaled_int-IsColumn value places = record {
  coefficient = value;
  up = 0;
  small_up = omega arith;
  is_valid = refl;
  is_number = refl;
  is_finite = refl;
  has_int = refl;
  has_exp = omega (int_laws, neg_parts places);
}

pub amount-numeric_from_scaled_int :
    (value : ℤ) (places : ℕ) → amount places (numeric_from_scaled_int value places) ≡ value
amount-numeric_from_scaled_int value places =
    rescale_up value (neg places) places 0 (omega arith) (omega int_laws) ∙ mul_one value
