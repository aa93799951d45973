-- ===== src/Money.antt =====
-- Fixed-point amounts, the functions that backend/internal/sales/mapper.go and
-- backend/internal/checkout/validation.go each declare: a pgtype.Numeric is an integer times a power
-- of ten, and is brought to two places (money) or three (quantities).
pub mod Rounding
pub mod Scaled
pub mod Product
pub mod Columns
pub mod Print
use pdv.Base.{
  ℕ, ◌*◌, ◌^◌, Bool, true, false, not, ◌&&◌, ◌||◌, Option, none, some, String, ℤ, pos, neg, leb,
  leb_ℤ, ltb_ℤ, eqb_ℤ, ◌+ℤ◌, ◌-ℤ◌, ◌*ℤ◌, quo, rem, int32, pos_part, if◌then◌else◌, Result, ok, err,
  ◌>>=◌,
}

-- pgtype.Numeric. `int` is `none` for a nil *big.Int.
pub record Numeric : Type 0 where
  pub int : Option ℤ
  pub exp : ℤ
  pub nan : Bool
  pub infinity_modifier : ℤ
  pub valid : Bool

-- The arguments of the Go function are never nil.
abbrev pub numeric_from_scaled_int : ℤ → ℕ → Numeric
numeric_from_scaled_int value scale = record {
  int = some value;
  exp = neg scale;
  nan = false;
  infinity_modifier = pos 0;
  valid = true;
}

abbrev pub zero_money : Numeric
zero_money = numeric_from_scaled_int (pos 0) 2

unfoldable pub pow10 : ℤ → ℕ
pow10 exp = if leb_ℤ exp (pos 0) then 1 else 10 ^ pos_part exp

-- The default branch of the switch: the truncated quotient, plus one where twice the remainder
-- reaches the divisor.
unfoldable pub round_quo : ℤ → ℕ → ℤ
round_quo value divisor =
    let quotient = quo value divisor in
    let remainder = rem value divisor in
    if not (eqb_ℤ remainder (pos 0)) && leb_ℤ (pos divisor) (remainder *ℤ pos 2)
    then quotient +ℤ pos 1
    else quotient

-- The switch on the exponent.
unfoldable pub rescale : ℤ → ℤ → ℕ → ℤ
rescale value exp scale =
    let target = neg scale in
    if eqb_ℤ exp target
    then value
    else if ltb_ℤ target exp
    then value *ℤ pos (pow10 (int32 (exp -ℤ target)))
    else round_quo value (pow10 (int32 (target -ℤ exp)))

-- The two packages differ in the error that they make of a text.
module _ {E : Type 0} (fail : String → E) where
  unfoldable pub numeric_to_scaled_int : Numeric → ℕ → Result E ℤ
  numeric_to_scaled_int value scale =
      if not value.valid then err (fail "numeric value is null") else elim value.int [
        | none ↦ ok (pos 0)
        | some int ↦
            if value.nan
            then err (fail "numeric value is NaN")
            else if not (eqb_ℤ value.infinity_modifier (pos 0))
            then err (fail "numeric value is infinite")
            else ok (rescale int value.exp scale)
      ]

unfoldable pub round_numeric : ℤ → ℤ → ℕ → Numeric
round_numeric value exp scale = numeric_from_scaled_int (rescale value exp scale) scale
