-- ===== src/Money/Product.antt =====
-- The product of a price and a quantity, as rescaled before it is multiplied and as rescaled after.
use native.Mathlib.Nat.{
  mul-pos, zero-add, one-mul, pow-suc, pow-zero, mul-div-mul_right, div-add-mod',
}
use pdv.Base.{
  ℕ, zero, suc, ◌+◌, ◌*◌, ◌/◌, ◌%◌, ◌^◌, ◌≤◌, ◌<◌, ◌≡◌, arith, ap, sym, ◌∙◌, inl, inr, ℤ, pos,
  negsuc, neg, ◌*ℤ◌, ◌+ℤ◌, ◌-ℤ◌, int32, int32_of_small, int_laws, -ℤ_bounds, mul_signs, mul_mul_pos,
  mul_pos_assoc, mul_one, sign_cases, ltb, Bool-cases, lt→ltb, ltb→lt, le→ltb,
}
use pdv.Money.{rescale, round_quo}
use pdv.Money.Rounding.{rounded, round_quo_pos, round_quo-neg}
use pdv.Money.Scaled.{rescale_up, rescale_down}

pub pow_add : (b m n : ℕ) → b ^ (m + n) ≡ b ^ m * b ^ n
pow_add b zero n = simp (zero-add, pow-zero, one-mul)
pow_add b (suc m) n =
    let split : suc m + n ≡ suc (m + n) = omega arith in
    rw (split, pow-suc b (m + n), pow-suc b m, pow_add b m n) (omega arith)

mod-mul : (n d c : ℕ) → 0 < d → 0 < c → (n * c) % (d * c) ≡ n % d * c
mod-mul n d c h k =
    let whole : n * c / (d * c) ≡ n / d = mul-div-mul_right n d k in
    let scaled : (n / d * d + n % d) * c ≡ n * c = ap (λ (t : ℕ). t * c) (div-add-mod' n d) in
    let parts : n / d * (d * c) + n * c % (d * c) ≡ n * c =
      rw whole at (div-add-mod' (n * c) (d * c)) in
    omega arith

lt_mul : (a b c : ℕ) → 0 < c → a < b → a * c < b * c
lt_mul a b c h k = grind arith

le_mul : (a b c : ℕ) → a ≤ b → a * c ≤ b * c
le_mul a b c k = grind arith

ltb-mul : (a b c : ℕ) → 0 < c → ltb (a * c) (b * c) ≡ ltb a b
ltb-mul a b c h = elim (Bool-cases (ltb a b)) [
  | inl e ↦ rw (e, lt→ltb (a * c) (b * c) (lt_mul a b c h (ltb→lt a b e)))
  | inr e ↦ rw (e, le→ltb (a * c) (b * c) (le_mul b a c (ground (arith, e))))
]

rounded-mul : (n d c : ℕ) → 0 < d → 0 < c → rounded (n * c) (d * c) ≡ rounded n d
rounded-mul n d c h k =
    let twice : n % d * c * 2 ≡ n % d * 2 * c = omega arith in
    rw (mod-mul n d c h k, mul-div-mul_right n d k, twice, ltb-mul (n % d * 2) d c k)

-- A factor that both the value and the divisor have does not matter.
pub round_quo-mul :
    (x : ℤ) (d c : ℕ) → 0 < d → 0 < c → round_quo (x *ℤ pos c) (d * c) ≡ round_quo x d
round_quo-mul x d c h k = elim (sign_cases x) [
  | inl (n, e) ↦
      simp (e, mul_signs)
        (round_quo_pos (n * c) (d * c) (mul-pos h k)
          ∙ ap pos (rounded-mul n d c h k)
          ∙ sym (round_quo_pos n d h))
  | inr (n, e) ↦
      simp (e, mul_signs)
        (round_quo-neg (n * c) (d * c) (mul-pos h k)
          ∙ ap neg (mul-div-mul_right n d k)
          ∙ sym (round_quo-neg n d h))
]

round_quo_one : (x : ℤ) → round_quo x 1 ≡ x
round_quo_one x = elim (sign_cases x) [
  | inl (n, e) ↦ rw (e, round_quo_pos n 1 (omega arith)) (ap pos (grind arith))
  | inr (n, e) ↦ rw (e, round_quo-neg n 1 (omega arith)) (ap neg (omega arith))
]

-- A product with five places or fewer, from which the excess is dropped at once, or which is first
-- brought to five places: `u` of the five places are not there.
reduce_places :
    (x e : ℤ) (u : ℕ)
    → u ≤ 32
    → e ≡ pos u -ℤ pos 5
    → rescale x e 2 ≡ round_quo (x *ℤ pos (10 ^ u)) 1000
reduce_places x e zero small h =
    rw (mul_one x) (rescale_down x e 2 2 (omega arith) (rw h (omega int_laws)))
reduce_places x e (suc zero) small h =
    rescale_down x e 2 1 (omega arith) (rw h (omega int_laws))
    ∙ sym (round_quo-mul x 100 10 (omega arith) (omega arith))
reduce_places x e (suc (suc zero)) small h =
    rescale_down x e 2 0 (omega arith) (rw h (omega int_laws))
    ∙ sym (round_quo-mul x 10 100 (omega arith) (omega arith))
reduce_places x e (suc (suc (suc k))) small h =
    let split : 10 ^ suc (suc (suc k)) ≡ 10 ^ k * 1000 =
      rw (pow-suc 10 (suc (suc k)), pow-suc 10 (suc k), pow-suc 10 k) (omega arith) in
    rescale_up x e 2 k (omega arith) (rw h (omega int_laws))
    ∙ sym (
        rw (split, mul_pos_assoc x (10 ^ k) 1000)
          (round_quo-mul (x *ℤ pos (10 ^ k)) 1 1000 (omega arith) (omega arith)
            ∙ round_quo_one (x *ℤ pos (10 ^ k))))

-- The two products agree on a price with `u` of its two places missing and a quantity with `v` of its
-- three places missing.
pub product_places :
    (p q e : ℤ) (u v : ℕ)
    → u ≤ 16
    → v ≤ 16
    → e ≡ pos u -ℤ pos 2 +ℤ (pos v -ℤ pos 3)
    → rescale (p *ℤ q) (int32 e) 2
      ≡ rescale ((p *ℤ pos (10 ^ u)) *ℤ (q *ℤ pos (10 ^ v))) (negsuc 4) 2
product_places p q e u v hu hv h =
    let sum : e ≡ pos (u + v) -ℤ pos 5 = h ∙ omega int_laws in
    let same : int32 e ≡ e = rw sum (
      int32_of_small (pos (u + v) -ℤ pos 5) (omega (int_laws, -ℤ_bounds (pos (u + v)) (pos 5)))
        (omega (int_laws, -ℤ_bounds (pos (u + v)) (pos 5)))) in
    rw
      (
        same,
        reduce_places (p *ℤ q) e (u + v) (omega arith) sum,
        mul_mul_pos p q (10 ^ u) (10 ^ v),
        pow_add 10 u v,
      )
      (sym (rescale_down _ (negsuc 4) 2 2 (omega arith) (omega int_laws)))
