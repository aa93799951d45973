-- ===== src/Inventory/Ledger.antt =====
-- The stock beside its movements: what is on hand is the sum of what has moved.
use pdv.Base.{
  ◌≡◌, Bool, ◌==◌, ◌&&◌, Option, none, some, List, [], ◌∷◌, ◌++◌, All, if◌then◌else◌, ℤ, pos, ◌+ℤ◌,
  ◌-ℤ◌, ◌≤ℤ◌, int_laws,
}
use pdv.Money.Columns.{amount, IsColumn}
use pdv.Database.Rows.{
  Uuid, Inventory, InventoryMovement, MovementType, purchase, sale, sale_cancellation,
  adjustment_in, adjustment_out,
}
use pdv.Database.Tables.{find}
use pdv.Database.Store.{Db}
use pdv.Database.Inventory.{stock_at}

-- The thousandths that a movement adds to the stock.
abbrev pub signed : MovementType → ℤ → ℤ
signed purchase q = q
signed sale q = pos 0 -ℤ q
signed sale_cancellation q = q
signed adjustment_in q = q
signed adjustment_out q = pos 0 -ℤ q

abbrev pub moves : Uuid → Uuid → Uuid → InventoryMovement → Bool
moves org store product m =
    m.organization_id == org && m.store_id == store && m.product_id == product

abbrev pub moved_by : Uuid → Uuid → Uuid → InventoryMovement → ℤ
moved_by org store product m =
    if moves org store product m then signed m.movement_type (amount 3 m.quantity) else pos 0

abbrev pub moved : Uuid → Uuid → Uuid → List InventoryMovement → ℤ
moved org store product [] = pos 0
moved org store product (m ∷ ms) = moved_by org store product m +ℤ moved org store product ms

abbrev pub quantity_of : Option Inventory → ℤ
quantity_of none = pos 0
quantity_of (some r) = amount 3 r.quantity

abbrev pub on_hand : Uuid → Uuid → Uuid → List Inventory → ℤ
on_hand org store product rows = quantity_of (find (stock_at org store product) rows)

abbrev pub this_stock : Uuid → Uuid → Uuid → Uuid → Uuid → Uuid → Bool
this_stock org store product o s p = o == org && s == store && p == product

-- A stock row has a quantity with three places that is not negative.
pub record IsStocked (r : Inventory) : Type 0 where
  pub column : IsColumn 3 r.quantity
  pub enough : pos 0 ≤ℤ amount 3 r.quantity

-- A movement says what the stock was before it and after it.
pub record IsMoved (m : InventoryMovement) : Type 0 where
  pub quantity_column : IsColumn 3 m.quantity
  pub after :
      amount 3 m.current_quantity
      ≡ amount 3 m.previous_quantity +ℤ signed m.movement_type (amount 3 m.quantity)

-- The books, where one stock may be ahead of its movements.
pub record Balanced (ahead : Uuid → Uuid → Uuid → ℤ) (rows : List Inventory)
    (ms : List InventoryMovement) : Type 0 where
  pub stocked : All IsStocked rows
  pub movements : All IsMoved ms
  pub balance : (o s p : Uuid) → on_hand o s p rows ≡ moved o s p ms +ℤ ahead o s p

abbrev pub Books : (Uuid → Uuid → Uuid → ℤ) → Db → Type 0
Books ahead db = Balanced ahead db.inventory db.inventory_movements

abbrev pub settled : Uuid → Uuid → Uuid → ℤ
settled _ _ _ = pos 0

abbrev pub only : Uuid → Uuid → Uuid → ℤ → Uuid → Uuid → Uuid → ℤ
only org store product d o s p = if this_stock org store product o s p then d else pos 0

-- Between transactions the stock is what the movements make it.
abbrev pub IsBooked : Db → Type 0
IsBooked = Books settled

pub moved-append :
    (o s p : Uuid) (ms : List InventoryMovement) (m : InventoryMovement)
    → moved o s p (ms ++ m ∷ []) ≡ moved o s p ms +ℤ moved_by o s p m
moved-append o s p [] m = omega int_laws
moved-append o s p (x ∷ ms) m = rw (moved-append o s p ms m) (omega int_laws)
