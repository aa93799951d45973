-- ===== src/Text.antt =====
-- What the services use of the packages strings, unicode and math/big on texts: lists of code points.
pub mod Decimal
pub mod Signed
use pdv.Base.{
  ℕ, zero, suc, ◌+◌, ◌-◌, ◌*◌, ◌/◌, ◌%◌, ◌==◌, leb, ltb, Bool, true, false, ◌&&◌, ◌||◌, not, List,
  [], ◌∷◌, if◌then◌else◌, ℤ, pos, negsuc, length, ◌++◌, ltb_ℤ, eqb_ℤ, ◌-ℤ◌, pos_part, int64,
}
use pdv.Errors.{Text}

abbrev pub is_empty : Text → Bool
is_empty [] = true
is_empty (_ ∷ _) = false

-- unicode.IsSpace
unfoldable pub is_space : ℕ → Bool
is_space c =
    leb 9 c && leb c 13
    || (c == 32
        || (c == 0x85
            || (c == 0xa0
                || (c == 0x1680
                    || (leb 0x2000 c && leb c 0x200a
                        || (c == 0x2028
                            || (c == 0x2029 || (c == 0x202f || (c == 0x205f || c == 0x3000)))))))))

trim_left : Text → Text
trim_left [] = []
trim_left (c ∷ t) = let rest = trim_left t in if is_space c then rest else c ∷ t

unfoldable pub trim_right : (ℕ → Bool) → Text → Text
trim_right cut_off [] = []
trim_right cut_off (c ∷ t) =
    let rest = trim_right cut_off t in if cut_off c && is_empty rest then [] else c ∷ rest

-- strings.TrimSpace
unfoldable pub trim_space : Text → Text
unfolding trim_left trim_right is_space
trim_space t = trim_right is_space (trim_left t)

-- strings.TrimRight(t, "0")
unfoldable pub trim_zeros : Text → Text
unfolding trim_right
trim_zeros t = trim_right (λ c. c == b'0') t

-- strings.HasPrefix with a text of one character
abbrev pub starts_with : ℕ → Text → Bool
starts_with d [] = false
starts_with d (c ∷ _) = c == d

-- strings.Cut at a character: the parts before and after it, and whether it is there.
unfoldable pub cut : ℕ → Text → Text × Text × Bool
cut d [] = ([], [], false)
cut d (c ∷ t) =
    let (before, after, found) = cut d t in
    if c == d then ([], t, true) else (c ∷ before, after, found)

abbrev pub is_digit : ℕ → Bool
is_digit c = leb b'0' c && leb c b'9'

-- The loops of allDigits and hasPositiveDigit.
unfoldable pub every_digit : Text → Bool
every_digit [] = true
every_digit (c ∷ t) = let rest = every_digit t in if is_digit c then rest else false

unfoldable pub all_digits : Text → Bool
unfolding every_digit
all_digits t = if is_empty t then false else every_digit t

unfoldable pub has_positive_digit : Text → Bool
has_positive_digit [] = false
has_positive_digit (c ∷ t) =
    let rest = has_positive_digit t in if leb b'1' c && leb c b'9' then true else rest

-- `for value > 0`: the digits, last one first. Each round divides by ten, so the value is fuel enough.
digits_reversed : ℕ → ℕ → Text
digits_reversed zero value = []
digits_reversed (suc fuel) value =
    let rest = digits_reversed fuel (value / 10) in
    if value == 0 then [] else (value % 10 + b'0') ∷ rest

reverse_onto : Text → Text → Text
reverse_onto [] t = t
reverse_onto (c ∷ s) t = reverse_onto s (c ∷ t)

-- String of a big.Int that is not negative.
unfoldable pub decimal : ℕ → Text
unfolding digits_reversed reverse_onto
decimal value = if value == 0 then b'0' ∷ [] else reverse_onto (digits_reversed value value) []

-- intToString: the negation of the least int is that int again, so its loop has no round.
unfoldable pub int_to_string : ℤ → Text
unfolding digits_reversed reverse_onto
int_to_string value =
    let negative = ltb_ℤ value (pos 0) in
    let magnitude = pos_part (if negative then int64 (pos 0 -ℤ value) else value) in
    if eqb_ℤ value (pos 0)
    then b'0' ∷ []
    else reverse_onto (digits_reversed magnitude magnitude ++ (if negative then b'-' ∷ [] else []))
        []

-- strings.Repeat("0", n)
abbrev pub zeros : ℕ → Text
zeros zero = []
zeros (suc n) = b'0' ∷ zeros n

abbrev pub take : ℕ → Text → Text
take zero t = []
take (suc n) [] = []
take (suc n) (c ∷ t) = c ∷ take n t

abbrev pub drop : ℕ → Text → Text
drop zero t = t
drop (suc n) [] = []
drop (suc n) (c ∷ t) = drop n t

-- The number that a text of digits stands for.
abbrev pub value_from : ℕ → Text → ℕ
value_from n [] = n
value_from n (c ∷ t) = value_from (n * 10 + (c - b'0')) t

abbrev pub value_of : Text → ℕ
value_of = value_from 0
