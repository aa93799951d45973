-- ===== src/Sales/Consistency.antt =====
-- Between commands every item is priced, and every header adds up the items of its sale.
use pdv.Base.{◌≡◌, Bool, false, true, ◌==◌, ◌&&◌, none, some, List, [], All}
use pdv.Money.Columns.{IsColumn}
use pdv.Database.Rows.{Uuid, Sale, SaleItem, Product}
use pdv.Database.Tables.{find}
use pdv.Database.Store.{Db}
use pdv.Database.Sales.{is_open, sale_at, items_of_sale}
use pdv.Sales.Spec.{IsPriced, TotalsMatch}

-- The keys of sales on which a statement about all sales is made.
abbrev pub Headers : (Uuid → Uuid → Uuid → Bool) → List SaleItem → List Sale → Type 0
Headers besides items sales =
    (org store id : Uuid) (sale : Sale)
    → besides org store id ≡ false
    → find (sale_at org store id) sales ≡ some sale
    → TotalsMatch (items_of_sale org store id items) sale

-- The foreign key: no sale, no items.
abbrev pub Owned : (Uuid → Uuid → Uuid → Bool) → List SaleItem → List Sale → Type 0
Owned besides items sales =
    (org store id : Uuid)
    → besides org store id ≡ false
    → find (sale_at org store id) sales ≡ none
    → items_of_sale org store id items ≡ []

pub record ConsistentRows (besides : Uuid → Uuid → Uuid → Bool) (priced : List Product)
    (lines : List SaleItem) (sales : List Sale) : Type 0 where
  pub prices : All (λ (p : Product). IsColumn 2 p.price) priced
  pub items : All IsPriced lines
  pub headers : Headers besides lines sales
  pub owned : Owned besides lines sales

abbrev pub Consistent : (Uuid → Uuid → Uuid → Bool) → Db → Type 0
Consistent besides db = ConsistentRows besides db.products db.sale_items db.sales

abbrev pub nowhere : Uuid → Uuid → Uuid → Bool
nowhere _ _ _ = false

abbrev pub IsConsistent : Db → Type 0
IsConsistent = Consistent nowhere

-- While a command changes the items of one sale, its header is behind.
abbrev pub this_sale : Uuid → Uuid → Uuid → Uuid → Uuid → Uuid → Bool
this_sale org store id o s i = o == org && s == store && i == id

pub record IsPending (org store id : Uuid) (db : Db) : Type 0 where
  pub others : Consistent (this_sale org store id) db
  pub header : Sale
  pub present : find (sale_at org store id) db.sales ≡ some header
  pub unfinished : is_open header.status ≡ true
