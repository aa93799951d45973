-- ===== src/Base/Int.antt =====
-- The integers of `math/big`, over the native numbers: sums, differences, products, order, sign, and
-- the truncated division of `QuoRem` by a positive number; and the wrap-around of `int32`.
use Prim.Native.Nat.{ℕ, zero, suc, ◌+◌, ◌-◌, ◌*◌, ◌/◌, ◌%◌, ◌≤◌, ◌<◌, compare, Ordering}
use mathlib.Core.Path.{◌≡◌, refl, ap}
use mathlib.Core.Logic.{◌≢◌, ◌⊎◌, inl, inr}
use mathlib.Core.Bool.{Bool, true, false}
use native.Mathlib.Omega.{arith}
use pdv.Base.Tests.{ltb→lt, ltb, leb, ◌==◌, if◌then◌else◌}

-- `negsuc n` is -(n + 1).
pub data ℤ : Type 0 where
  pos : ℕ → ℤ
  negsuc : ℕ → ℤ

-- - n
abbrev pub neg : ℕ → ℤ
neg zero = pos 0
neg (suc n) = negsuc n

abbrev pub pos_part : ℤ → ℕ
pos_part (pos n) = n
pos_part (negsuc n) = 0

abbrev pub neg_part : ℤ → ℕ
neg_part (pos n) = 0
neg_part (negsuc n) = suc n

abbrev pub sub_ℕ : ℕ → ℕ → ℤ
sub_ℕ a b = if leb b a then pos (a - b) else negsuc (b - a - 1)

infixl 65 ◌+ℤ◌ ◌-ℤ◌
infixl 70 ◌*ℤ◌
infix 50 ◌≤ℤ◌
unfoldable pub ◌+ℤ◌ : ℤ → ℤ → ℤ
a +ℤ b = sub_ℕ (pos_part a + pos_part b) (neg_part a + neg_part b)

unfoldable pub ◌-ℤ◌ : ℤ → ℤ → ℤ
a -ℤ b = sub_ℕ (pos_part a + neg_part b) (neg_part a + pos_part b)

unfoldable pub ◌*ℤ◌ : ℤ → ℤ → ℤ
pos a *ℤ pos b = pos (a * b)
pos a *ℤ negsuc b = neg (a * suc b)
negsuc a *ℤ pos b = neg (suc a * b)
negsuc a *ℤ negsuc b = pos (suc a * suc b)

abbrev pub ◌≤ℤ◌ : ℤ → ℤ → Type 0
a ≤ℤ b = pos_part a + neg_part b ≤ pos_part b + neg_part a

-- `Cmp`, and the tests that it and `Sign` decide.
abbrev pub cmp_ℤ : ℤ → ℤ → Ordering
cmp_ℤ a b = compare (pos_part a + neg_part b) (pos_part b + neg_part a)

abbrev pub ltb_ℤ : ℤ → ℤ → Bool
ltb_ℤ a b = ltb (pos_part a + neg_part b) (pos_part b + neg_part a)

abbrev pub leb_ℤ : ℤ → ℤ → Bool
leb_ℤ a b = leb (pos_part a + neg_part b) (pos_part b + neg_part a)

abbrev pub eqb_ℤ : ℤ → ℤ → Bool
eqb_ℤ a b = (pos_part a + neg_part b) == (pos_part b + neg_part a)

pub +ℤ_parts :
    (a b : ℤ)
    → pos_part (a +ℤ b) + neg_part a + neg_part b ≡ neg_part (a +ℤ b) + pos_part a + pos_part b
unfolding ◌+ℤ◌
+ℤ_parts a b = ground arith

pub -ℤ_parts :
    (a b : ℤ)
    → pos_part (a -ℤ b) + neg_part a + pos_part b ≡ neg_part (a -ℤ b) + pos_part a + neg_part b
unfolding ◌-ℤ◌
-ℤ_parts a b = ground arith

pub -ℤ_bounds :
    (a b : ℤ)
    → (pos_part (a -ℤ b) ≤ pos_part a + neg_part b) × (neg_part (a -ℤ b) ≤ neg_part a + pos_part b)
unfolding ◌-ℤ◌
-ℤ_bounds a b = ground arith

pub eq_of_parts : (a b : ℤ) → pos_part a + neg_part b ≡ pos_part b + neg_part a → a ≡ b
eq_of_parts a b h = ground arith

pub ruleset int_laws = (arith, +ℤ_parts, -ℤ_parts, eq_of_parts)

pub +ℤ_zero : (a : ℤ) → a ≡ a +ℤ pos 0
+ℤ_zero a = omega int_laws

pub zero_+ℤ : (a : ℤ) → pos 0 +ℤ a ≡ a
zero_+ℤ a = omega int_laws

pub +ℤ_assoc : (a b c : ℤ) → a +ℤ b +ℤ c ≡ a +ℤ (b +ℤ c)
+ℤ_assoc a b c = omega int_laws

pub eqb_ℤ_refl : (a : ℤ) → eqb_ℤ a a ≡ true
eqb_ℤ_refl a = ground arith

pub eqb_ℤ-false : (a b : ℤ) → pos_part a + neg_part b ≢ pos_part b + neg_part a → eqb_ℤ a b ≡ false
eqb_ℤ-false a b h = ground arith

pub eqb_ℤ→eq : (a b : ℤ) → eqb_ℤ a b ≡ true → a ≡ b
eqb_ℤ→eq a b h = ground arith

pub ltb_ℤ-zero : (a b : ℤ) → ltb_ℤ a b ≡ true → pos 1 ≤ℤ b -ℤ a
ltb_ℤ-zero a b h = omega (int_laws, ltb→lt (pos_part a + neg_part b) (pos_part b + neg_part a) h)

pub not_ltb_ℤ : (a b : ℤ) → ltb_ℤ a b ≡ false → pos 0 ≤ℤ a -ℤ b
not_ltb_ℤ a b h = ground (arith, -ℤ_parts a b)

pub neg_parts : (n : ℕ) → (pos_part (neg n) ≡ 0) × (neg_part (neg n) ≡ n)
neg_parts zero = (refl, refl)
neg_parts (suc n) = (refl, refl)

-- Every integer is a number or the negation of one.
pub sign_cases : (a : ℤ) → ((n : ℕ) × (a ≡ pos n)) ⊎ ((n : ℕ) × (a ≡ neg n))
sign_cases (pos n) = inl (n, refl)
sign_cases (negsuc n) = inr (suc n, refl)

-- Products of signed numbers, in the form that rewriting uses.
pub mul_pos_pos : (m k : ℕ) → pos m *ℤ pos k ≡ pos (m * k)
unfolding ◌*ℤ◌
mul_pos_pos m k = refl

pub mul_pos_neg : (m k : ℕ) → pos m *ℤ neg k ≡ neg (m * k)
unfolding ◌*ℤ◌
mul_pos_neg m zero = ground arith
mul_pos_neg m (suc k) = refl

pub mul_neg_pos : (m k : ℕ) → neg m *ℤ pos k ≡ neg (m * k)
unfolding ◌*ℤ◌
mul_neg_pos zero k = ground arith
mul_neg_pos (suc m) k = refl

pub mul_neg-neg : (m k : ℕ) → neg m *ℤ neg k ≡ pos (m * k)
unfolding ◌*ℤ◌
mul_neg-neg zero zero = ground arith
mul_neg-neg zero (suc k) = ground arith
mul_neg-neg (suc m) zero = ground arith
mul_neg-neg (suc m) (suc k) = refl

pub mul_one : (a : ℤ) → a *ℤ pos 1 ≡ a
unfolding ◌*ℤ◌
mul_one (pos n) = ground arith
mul_one (negsuc n) = ground (arith, neg_parts (suc n * 1), eq_of_parts (neg (suc n * 1)) (negsuc n))

pub ruleset mul_signs = (mul_pos_pos, mul_pos_neg, mul_neg_pos, mul_neg-neg)

-- Powers collected at the right of a product.
pub mul_mul_pos : (a b : ℤ) (m n : ℕ) → (a *ℤ pos m) *ℤ (b *ℤ pos n) ≡ (a *ℤ b) *ℤ pos (m * n)
mul_mul_pos a b m n = elim (sign_cases a) [
  | inl (i, e) ↦ elim (sign_cases b) [
    | inl (j, f) ↦ simp (e, f, mul_signs) (ap pos (omega arith))
    | inr (j, f) ↦ simp (e, f, mul_signs) (ap neg (omega arith))
  ]
  | inr (i, e) ↦ elim (sign_cases b) [
    | inl (j, f) ↦ simp (e, f, mul_signs) (ap neg (omega arith))
    | inr (j, f) ↦ simp (e, f, mul_signs) (ap pos (omega arith))
  ]
]

pub mul_pos_assoc : (a : ℤ) (m n : ℕ) → a *ℤ pos (m * n) ≡ (a *ℤ pos m) *ℤ pos n
mul_pos_assoc a m n = elim (sign_cases a) [
  | inl (i, e) ↦ simp (e, mul_signs) (ap pos (omega arith))
  | inr (i, e) ↦ simp (e, mul_signs) (ap neg (omega arith))
]

-- `QuoRem` by a positive divisor: the quotient is truncated toward zero, and the remainder has the
-- sign of the dividend.
unfoldable pub quo : ℤ → ℕ → ℤ
quo (pos n) d = pos (n / d)
quo (negsuc n) d = neg (suc n / d)

unfoldable pub rem : ℤ → ℕ → ℤ
rem (pos n) d = pos (n % d)
rem (negsuc n) d = neg (suc n % d)

-- A value of `int32` after arithmetic that may have left its range.
abbrev int32_mod : ℕ
int32_mod = 4294967296

residue : ℤ → ℕ
residue (pos n) = n % int32_mod
residue (negsuc n) = int32_mod - 1 - n % int32_mod

unfoldable pub int32 : ℤ → ℤ
unfolding residue
int32 z = let r = residue z in if ltb r 2147483648 then pos r else negsuc (int32_mod - 1 - r)

-- A value of `int64`, and of `int` on the platforms of 64 bits, after arithmetic that may have left its range.
abbrev int64_mod : ℕ
int64_mod = 18446744073709551616

abbrev pub int64_half : ℕ
int64_half = 9223372036854775808

residue64 : ℤ → ℕ
residue64 (pos n) = n % int64_mod
residue64 (negsuc n) = int64_mod - 1 - n % int64_mod

unfoldable pub int64 : ℤ → ℤ
unfolding residue64
int64 z = let r = residue64 z in if ltb r int64_half then pos r else negsuc (int64_mod - 1 - r)

-- In range nothing wraps, and above it a value that is not too large is negative.
pub int64_of_small : (n : ℕ) → n < int64_half → int64 (pos n) ≡ pos n
unfolding int64 residue64
int64_of_small n h = ground arith

pub int64_of_small_negative : (n : ℕ) → n < int64_half → int64 (negsuc n) ≡ negsuc n
unfolding int64 residue64
int64_of_small_negative n h = ground arith

pub int64-wraps :
    (n : ℕ) → int64_half ≤ n → n < int64_mod → int64 (pos n) ≡ negsuc (int64_mod - 1 - n)
unfolding int64 residue64
int64-wraps n h k = ground arith

-- The conversion to `int16`.
unfoldable pub residue16 : ℤ → ℕ
residue16 (pos n) = n % 65536
residue16 (negsuc n) = 65535 - n % 65536

unfoldable pub int16 : ℤ → ℤ
unfolding residue16
int16 z = let r = residue16 z in if ltb r 32768 then pos r else negsuc (65535 - r)

-- In range nothing wraps.
pub int32_of_small : (z : ℤ) → pos_part z < 2147483648 → neg_part z ≤ 2147483648 → int32 z ≡ z
unfolding int32
int32_of_small (pos n) h k = ground arith
int32_of_small (negsuc n) h k = ground arith
