-- ===== src/Tests/Texts.antt =====
-- The theorem on printed amounts at 9.99.
use pdv.Base.{◌≡◌, some, ok, pos}
use pdv.Errors.{Text}
use pdv.Money.{numeric_from_scaled_int}
use pdv.Money.Columns.{numeric_from_scaled_int-IsColumn, amount-numeric_from_scaled_int}
use pdv.Sales.Mapper.{numeric_to_money_string}
use pdv.Sales.Printed.{numeric_to_money_string-scans}
use pdv.Tests.Samples.{calm, calm_laws, coffee}

numeric_to_money_string-scans_example :
    (t : Text) × (numeric_to_money_string coffee.price ≡ ok t)
    × (calm.scan_scientific t ≡ some (numeric_from_scaled_int (pos 999) 2))
numeric_to_money_string-scans_example =
    numeric_to_money_string-scans calm calm_laws coffee.price 999
      (numeric_from_scaled_int-IsColumn (pos 999) 2) (amount-numeric_from_scaled_int (pos 999) 2)
