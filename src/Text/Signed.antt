-- ===== src/Text/Signed.antt =====
-- The text of an int: it is read back.
use pdv.Base.{
  ℕ, suc, ◌+◌, ◌<◌, ◌≡◌, refl, ◌∙◌, sym, ap, arith, true, false, ◌==◌, [], ◌∷◌, ◌++◌, Option, none,
  some, if◌then◌else◌, ℤ, pos, negsuc, neg, neg_part, int64_half, int64, int64_of_small, int_laws,
  ◌-ℤ◌, ltb, eqb_ℤ, ltb_ℤ,
}
use pdv.Errors.{Text}
use pdv.Text.{
  is_empty, all_digits, every_digit, digits_reversed, reverse_onto, decimal, int_to_string,
  value_of,
}
use pdv.Text.Decimal.{value-decimal, every_digit-decimal}

-- What a text stands for: digits, behind a sign or not.
unfoldable pub read_int : Text → Option ℤ
read_int [] = none
read_int (c ∷ t) =
    if c == b'-'
    then (if all_digits t then some (neg (value_of t)) else none)
    else (if all_digits (c ∷ t) then some (pos (value_of (c ∷ t))) else none)

zero_is : {n : ℕ} → n ≡ 0 → decimal n ≡ [] → ⊥
unfolding decimal
zero_is e h = cc (rw e at h)

all_digits-decimal : (n : ℕ) → all_digits (decimal n) ≡ true
unfolding all_digits
all_digits-decimal n = rw (not_empty (decimal n) refl) (every_digit-decimal n)
  where
    not_empty : (t : Text) → decimal n ≡ t → is_empty t ≡ false
    not_empty (c ∷ t) h = refl
    not_empty [] h = absurd (zero_is (sym (value-decimal n) ∙ ap value_of h) h)

read-digits : (t : Text) → all_digits t ≡ true → read_int t ≡ some (pos (value_of t))
unfolding read_int all_digits every_digit
read-digits [] h = cc h
read-digits (c ∷ t) h = ground (arith, h)

append_nil : (t : Text) → t ++ [] ≡ t
append_nil [] = refl
append_nil (c ∷ t) = ap (λ (s : Text). c ∷ s) (append_nil t)

reverse_onto-append :
    (s : Text) (c : ℕ) (t : Text) → reverse_onto (s ++ c ∷ []) t ≡ c ∷ reverse_onto s t
unfolding reverse_onto
reverse_onto-append [] c t = refl
reverse_onto-append (d ∷ s) c t = reverse_onto-append s c (d ∷ t)

pub int_to_string-pos : (n : ℕ) → int_to_string (pos n) ≡ decimal n
unfolding int_to_string decimal
int_to_string-pos n =
    let same : (n + 0 == 0) ≡ (n == 0) = ground arith in
    let positive : ltb (n + 0) 0 ≡ false = ground arith in
    rw (same, positive, append_nil (digits_reversed n n)) refl

decimal-suc : (n : ℕ) → decimal (suc n) ≡ reverse_onto (digits_reversed (suc n) (suc n)) []
unfolding decimal
decimal-suc n = let some_value : (suc n == 0) ≡ false = ground arith in rw some_value refl

int_to_string-negsuc :
    (n : ℕ) → n + 1 < int64_half → int_to_string (negsuc n) ≡ b'-' ∷ decimal (suc n)
unfolding int_to_string
int_to_string-negsuc n h =
    let magnitude : int64 (pos 0 -ℤ negsuc n) ≡ pos (suc n) =
      ap int64 (omega int_laws) ∙ int64_of_small (suc n) (omega arith) in
    let other : eqb_ℤ (negsuc n) (pos 0) ≡ false = ground arith in
    let negative : ltb_ℤ (negsuc n) (pos 0) ≡ true = ground arith in
    rw (other, negative, magnitude)
      (reverse_onto-append (digits_reversed (suc n) (suc n)) b'-' []
        ∙ ap (λ (t : Text). b'-' ∷ t) (sym (decimal-suc n)))

-- The text that intToString makes of an int but the least one is digits, behind a sign where the
-- int is negative, and stands for that int.
pub read-int_to_string : (v : ℤ) → neg_part v < int64_half → read_int (int_to_string v) ≡ some v
unfolding read_int
read-int_to_string (pos n) h =
    rw (int_to_string-pos n) (read-digits (decimal n) (all_digits-decimal n))
    ∙ ap (λ (k : ℕ). some (pos k)) (value-decimal n)
read-int_to_string (negsuc n) h =
    rw (int_to_string-negsuc n (omega arith))
      (rw (all_digits-decimal (suc n), value-decimal (suc n)) refl)
