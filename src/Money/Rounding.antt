-- ===== src/Money/Rounding.antt =====
-- The rounding of the quotient.
use native.Mathlib.Nat.{div-add-mod', mod-lt, zero-div, zero-mod}
use pdv.Base.{
  ℕ, zero, suc, ◌+◌, ◌*◌, ◌/◌, ◌%◌, ◌≤◌, ◌<◌, ◌≡◌, refl, arith, ℤ, pos, neg, ◌*ℤ◌, ◌+ℤ◌, quo, rem,
  ltb, leb_ℤ, eqb_ℤ, not, ◌&&◌, mul_neg_pos, neg_parts, if◌then◌else◌,
}
use pdv.Money.{round_quo}

-- The quotient that the code computes for a non-negative value, over the natural numbers.
abbrev pub rounded : ℕ → ℕ → ℕ
rounded n d = if ltb (n % d * 2) d then n / d else n / d + 1

pub round_quo_pos : (n d : ℕ) → 0 < d → round_quo (pos n) d ≡ pos (rounded n d)
unfolding round_quo quo rem ◌*ℤ◌ ◌+ℤ◌
round_quo_pos n d h = ground arith

no_carry :
    (q : ℤ) (r d : ℕ)
    → 0 < d
    → (if not (eqb_ℤ (neg r) (pos 0)) && leb_ℤ (pos d) (neg r *ℤ pos 2) then q +ℤ pos 1 else q) ≡ q
no_carry q zero d h = refl
no_carry q (suc r) d h = rw (mul_neg_pos (suc r) 2) (ground (arith, neg_parts (suc r * 2)))

-- For a negative numerator the quotient is truncated toward zero, so it is not rounded.
pub round_quo-neg : (n d : ℕ) → 0 < d → round_quo (neg n) d ≡ neg (n / d)
unfolding round_quo quo rem ◌*ℤ◌ ◌+ℤ◌
round_quo-neg zero d h = ground (arith, zero-div d, zero-mod d)
round_quo-neg (suc n) d h = no_carry (neg (suc n / d)) (suc n % d) d h

-- `rounded` is the nearest integer, halves upward.
pub rounded_nearest :
    (n d : ℕ)
    → 0 < d
    → (rounded n d * (2 * d) ≤ n * 2 + d) × (n * 2 + d < rounded n d * (2 * d) + 2 * d)
rounded_nearest n d h = grind (arith, div-add-mod' n d, mod-lt n h)

-- For a numerator that is not negative and a positive divisor the rounded quotient is the nearest
-- integer, a half being rounded up.
pub round_quo-nearest :
    (n d : ℕ)
    → 0 < d
    → (r : ℕ) × (round_quo (pos n) d ≡ pos r)
      × (r * (2 * d) ≤ n * 2 + d)
      × (n * 2 + d < r * (2 * d) + 2 * d)
round_quo-nearest n d h =
    (rounded n d, round_quo_pos n d h, (rounded_nearest n d h).0, (rounded_nearest n d h).1)
