-- ===== src/Tests/Creations.antt =====
-- A sale that is created twice with one key.
use pdv.Base.{◌≡◌, refl, ◌∷◌, [], ◌++◌, ok}
use pdv.Errors.{codes}
use pdv.Money.{zero_money, rescale}
use pdv.Database.Rows.{Sale, ActorScope}
use pdv.Database.Store.{Db}
use pdv.Database.Sales.{new_sale, create_sale_for_store}
use pdv.Database.Idempotence.{create_sale_for_store-idempotent}
use pdv.Sales.Errors.{Sentinel}
use pdv.Sales.Service.{to_actor_scope}
use pdv.Tests.Samples.{calm, cashier, shop}

abbrev scope : ActorScope
scope = to_actor_scope cashier

abbrev first_sale : Sale
first_sale = new_sale calm scope (codes "b") 1 zero_money shop

abbrev with_first : Db
with_first = record shop {
  sales = shop.sales ++ first_sale ∷ [];
  sale_number_counters = record { organization_id = 1; store_id = 2; next_number = 2 } ∷ [];
}

first_created :
    create_sale_for_store {S = Sentinel} calm scope (codes "b") shop ≡ (ok first_sale, with_first)
unfolding create_sale_for_store rescale
first_created = refl

create_sale_for_store-idempotent_example :
    create_sale_for_store {S = Sentinel} calm scope (codes "b") with_first
    ≡ (ok first_sale, with_first)
create_sale_for_store-idempotent_example =
    create_sale_for_store-idempotent {S = Sentinel} calm scope (codes "b") shop with_first
      first_sale first_created refl
