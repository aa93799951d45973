-- ===== src/Errors.antt =====
-- The error values of the services: a package's own sentinel errors, its ValidationError
-- (backend/internal/sales/errors.go and its twins), errors made by fmt.Errorf, and those of the driver.
use Prim.Native.Char.{code}
use text.Mathlib.Text.{◌==◌ as str_eq}
use pdv.Base.{ℕ, String, Bool, true, false, ◌&&◌, ◌||◌, List, [], ◌∷◌, Option, none, some}

-- Texts that the program walks are lists of code points.
abbrev pub Text : Type 0
Text = List ℕ

abbrev pub codes : String → Text
codes String.[] = []
codes (String.◌∷◌ c s) = code c ∷ codes s

-- `S` is the package's list of sentinels, `var ErrX = fmt.Errorf(…)`.
pub data Error (S : Type 0) : Type 0 where
  sentinel : S → Error S
  validation : Text → String → Error S
  -- `fmt.Errorf(text)` and `fmt.Errorf(text + ": %w", err)`
  message : String → Error S
  wrap : String → Error S → Error S
  -- `fmt.Errorf("%w" + text + "%w", a, b)`, and errors.Join(a, b), whose text is a line break
  both : String → Error S → Error S → Error S
  -- pgx.ErrNoRows, and a *pgconn.PgError by its code and constraint
  no_rows : Error S
  pg_error : String → String → Error S

abbrev first_pg : Option (String × String) → Option (String × String) → Option (String × String)
first_pg none o = o
first_pg (some x) o = some x

module _ {S : Type 0} where
  -- errors.Is(err, pgx.ErrNoRows)
  abbrev pub is_no_rows : Error S → Bool
  is_no_rows no_rows = true
  is_no_rows (wrap t e) = is_no_rows e
  is_no_rows (both t a b) = is_no_rows a || is_no_rows b
  is_no_rows _ = false

  -- errors.As(err, &pgErr)
  abbrev pub as_pg_error : Error S → Option (String × String)
  as_pg_error (pg_error c n) = some (c, n)
  as_pg_error (wrap t e) = as_pg_error e
  as_pg_error (both t a b) = first_pg (as_pg_error a) (as_pg_error b)
  as_pg_error _ = none

  unfoldable pub is_unique_violation : Error S → String → Bool
  is_unique_violation e constraint = elim (as_pg_error e) [
    | none ↦ false
    | some (c, n) ↦ str_eq c "23505" && str_eq n constraint
  ]
