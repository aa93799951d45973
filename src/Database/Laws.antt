-- ===== src/Database/Laws.antt =====
-- What the services rely on in the driver and the server: a number column gives back numbers of its
-- scale, with the value that was written; and digits around a point are scanned as they stand.
use pdv.Base.{◌+ℤ◌, ◌-ℤ◌, ltb_ℤ, ℕ, ◌≤◌, ◌≡◌, true, ◌∷◌, ◌++◌, length, some, pos}
use pdv.Errors.{Text}
use pdv.Text.{all_digits, value_of}
use pdv.Money.{Numeric, numeric_from_scaled_int}
use pdv.Money.Columns.{amount, IsColumn}
use pdv.Database.Store.{Environment}

pub record NumericLaws (env : Environment) : Type 0 where
  -- NUMERIC(15, places) holds finite numbers with at most so many places …
  pub column_IsColumn :
      (places : ℕ) (n m : Numeric) → places ≤ 3 → env.column places n ≡ some m → IsColumn places m
  -- … and keeps the value of a number that has at most so many.
  pub column_exact :
      (places : ℕ) (n m : Numeric)
      → places ≤ 3
      → IsColumn places n
      → env.column places n ≡ some m
      → amount places m ≡ amount places n
  -- Sums and differences of quantities, with at most three places, are exact, and `<` compares values.
  pub add_exact :
      (a b : Numeric)
      → IsColumn 3 a
      → IsColumn 3 b
      → IsColumn 3 (env.add_numeric a b)
        × (amount 3 (env.add_numeric a b) ≡ amount 3 a +ℤ amount 3 b)
  pub subtract_exact :
      (a b : Numeric)
      → IsColumn 3 a
      → IsColumn 3 b
      → IsColumn 3 (env.subtract_numeric a b)
        × (amount 3 (env.subtract_numeric a b) ≡ amount 3 a -ℤ amount 3 b)
  pub less_exact :
      (a b : Numeric)
      → IsColumn 3 a
      → IsColumn 3 b
      → env.less_numeric a b ≡ ltb_ℤ (amount 3 a) (amount 3 b)
  -- Numeric.ScanScientific of digits, a point and digits.
  pub scan_digits :
      (whole fraction : Text)
      → all_digits whole ≡ true
      → all_digits fraction ≡ true
      → env.scan_scientific (whole ++ b'.' ∷ fraction)
        ≡ some (numeric_from_scaled_int (pos (value_of (whole ++ fraction))) (length fraction))
