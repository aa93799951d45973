-- ===== src/Money/Scaled.antt =====
-- The change of scale by a difference of exponents, and the values of columns of type NUMERIC(15, s):
-- they are finite and have at most s places, so bringing them to s places is exact.
use native.Mathlib.Nat.{pow-zero}
use pdv.Base.{
  ℕ, zero, suc, ◌^◌, ◌<◌, ◌≡◌, arith, false, true, ℤ, pos, neg, ◌*ℤ◌, ◌+ℤ◌, ◌-ℤ◌, int32,
  int32_of_small, int_laws, mul_one, eqb_ℤ, eqb_ℤ_refl, eqb_ℤ-false, ltb_ℤ, lt→ltb, le→ltb, ◌∙◌,
}
use pdv.Money.{rescale, pow10, round_quo}

pub pow10_pos : (k : ℕ) → k < 2147483648 → pow10 (int32 (pos k)) ≡ 10 ^ k
unfolding pow10
pow10_pos zero h = rw (int32_of_small (pos 0) (omega arith) (omega arith)) (pow-zero 10)
pow10_pos (suc k) h = rw (int32_of_small (pos (suc k)) h (omega arith)) (ground arith)

-- An exponent `k` above the wanted one multiplies by ten to the `k`.
pub rescale_up :
    (c exp : ℤ) (scale k : ℕ)
    → k < 2147483648
    → exp ≡ neg scale +ℤ pos k
    → rescale c exp scale ≡ c *ℤ pos (10 ^ k)
unfolding rescale
rescale_up c exp scale zero h e =
    let same : exp ≡ neg scale = e ∙ omega int_laws in
    rw (same, eqb_ℤ_refl (neg scale), pow-zero 10, mul_one c)
rescale_up c exp scale (suc k) h e =
    let difference : exp -ℤ neg scale ≡ pos (suc k) = rw e (omega int_laws) in
    let differ : eqb_ℤ exp (neg scale) ≡ false =
      rw e (eqb_ℤ-false (neg scale +ℤ pos (suc k)) (neg scale) (omega int_laws)) in
    let above : ltb_ℤ (neg scale) exp ≡ true = rw e (lt→ltb _ _ (omega int_laws)) in
    rw (differ, above, difference, pow10_pos (suc k) h)

-- An exponent `k` below the wanted one divides by ten to the `k`, and rounds.
pub rescale_down :
    (c exp : ℤ) (scale k : ℕ)
    → suc k < 2147483648
    → neg scale ≡ exp +ℤ pos (suc k)
    → rescale c exp scale ≡ round_quo c (10 ^ suc k)
unfolding rescale
rescale_down c exp scale k h e =
    let difference : neg scale -ℤ exp ≡ pos (suc k) = rw e (omega int_laws) in
    let differ : eqb_ℤ exp (neg scale) ≡ false =
      rw e (eqb_ℤ-false exp (exp +ℤ pos (suc k)) (omega int_laws)) in
    let below : ltb_ℤ (neg scale) exp ≡ false = rw e (le→ltb _ _ (omega int_laws)) in
    rw (differ, below, difference, pow10_pos (suc k) h)
