-- ===== src/Money/Print.antt =====
-- The text of an amount: scaledIntToString of the two packages.
use pdv.Base.{
  ℕ, ◌+◌, ◌-◌, ◌==◌, leb, [], ◌∷◌, ◌++◌, length, if◌then◌else◌, ℤ, pos, ltb_ℤ, pos_part, neg_part,
}
use pdv.Errors.{Text}
use pdv.Text.{decimal, zeros, take, drop}

-- The digits, with zeros in front where there are no more of them than places.
unfoldable pub padded : Text → ℕ → Text
padded digits scale =
    if leb (length digits) scale then zeros (scale - length digits + 1) ++ digits else digits

unfoldable pub with_point : Text → ℕ → Text
with_point digits scale = let at = length digits - scale in take at digits ++ b'.' ∷ drop at digits

-- The absolute value is the sum of the two parts, one of which is zero.
unfoldable pub scaled_int_to_string : ℤ → ℕ → Text
unfolding padded with_point
scaled_int_to_string value scale =
    let sign : Text = if ltb_ℤ value (pos 0) then b'-' ∷ [] else [] in
    let digits = decimal (pos_part value + neg_part value) in
    if scale == 0 then sign ++ digits else sign ++ with_point (padded digits scale) scale
