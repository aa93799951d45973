-- ===== src/Histories.antt =====
-- The requests on sales one after another: the commands of backend/internal/sales/service_commands.go and the
-- checkout of backend/internal/checkout/service_commands.go, by any actors, whether they succeed or fail.
use pdv.Base.{List}
use pdv.Errors.{Text}
use pdv.Database.Store.{Db, Environment}
use pdv.Database.Laws.{NumericLaws}
use pdv.Sales.Consistency.{IsConsistent}
use pdv.Sales.Input.{AddItemInput, UpdateItemInput}
use pdv.Sales.Service.{StoreActor, create, add_item, update_item, remove_item, cancel}
use pdv.Sales.Service.Commands.{
  add_item-IsConsistent, update_item-IsConsistent, remove_item-IsConsistent,
}
use pdv.Sales.Service.Lifecycle.{create-IsConsistent, cancel-IsConsistent}
use pdv.Checkout.Input.{CheckoutPaymentInput}
use pdv.Checkout.Service.{Provider, checkout}
use pdv.Checkout.Keeps.{checkout-IsConsistent}

-- The tables before and after one request.
pub data Step (env : Environment) : Db → Db → Type 0 where
  creates : (actor : StoreActor) (key : Text) (db : Db) → Step env db (create env actor key db).1
  adds :
      (actor : StoreActor) (id : Text) (input : AddItemInput) (db : Db)
      → Step env db (add_item env actor id input db).1
  updates :
      (actor : StoreActor) (id item : Text) (input : UpdateItemInput) (db : Db)
      → Step env db (update_item env actor id item input db).1
  removes :
      (actor : StoreActor) (id item : Text) (db : Db)
      → Step env db (remove_item env actor id item db).1
  cancels : (actor : StoreActor) (id : Text) (db : Db) → Step env db (cancel env actor id db).1
  checks_out :
      (actor : StoreActor) (provider : Provider) (id : Text) (input : List CheckoutPaymentInput)
      (db : Db)
      → Step env db (checkout env actor provider id input db).1

-- The tables that requests lead to.
pub data Reach (env : Environment) (start : Db) : Db → Type 0 where
  here : Reach env start start
  next : {db db' : Db} → Reach env start db → Step env db db' → Reach env start db'

Step-IsConsistent :
    {env : Environment} {db db' : Db}
    → NumericLaws env
    → Step env db db'
    → IsConsistent db
    → IsConsistent db'
Step-IsConsistent {env} laws (creates actor key db) c = create-IsConsistent env laws actor key db c
Step-IsConsistent {env} laws (adds actor id input db) c =
    add_item-IsConsistent env laws actor id input db c
Step-IsConsistent {env} laws (updates actor id item input db) c =
    update_item-IsConsistent env laws actor id item input db c
Step-IsConsistent {env} laws (removes actor id item db) c =
    remove_item-IsConsistent env laws actor id item db c
Step-IsConsistent {env} laws (cancels actor id db) c = cancel-IsConsistent env laws actor id db c
Step-IsConsistent {env} laws (checks_out actor provider id input db) c =
    checkout-IsConsistent env laws actor provider id input db c

-- Whatever requests on sales are made one after another, by any actors and with any success,
-- Create, AddItem, UpdateItem, RemoveItem, Cancel and Checkout, every item stays priced and every
-- header the sum of its items, where the environment keeps the laws on numbers, where the
-- environment keeps the laws on numbers and the database was so before. The environment keeps the
-- laws on numbers, and the database was consistent before: every item priced as its rounded
-- product less its discount, every header the sum of its items.
pub Reach-IsConsistent :
    {env : Environment} {start db : Db}
    → NumericLaws env
    → IsConsistent start
    → Reach env start db
    → IsConsistent db
Reach-IsConsistent laws c here = c
Reach-IsConsistent laws c (next r s) = Step-IsConsistent laws s (Reach-IsConsistent laws c r)
