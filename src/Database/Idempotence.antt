-- ===== src/Database/Idempotence.antt =====
-- A sale is created once for its key.
use mathlib.Core.Path.{subst}
use pdv.Base.{
  ◌≡◌, refl, ◌∙◌, ap, ℕ, arith, true, ◌==◌, none, some, [], ◌∷◌, ok, inl, inr, Option-cases,
}
use pdv.Errors.{Text}
use pdv.Money.{Numeric, zero_money}
use pdv.Database.Rows.{Sale, ActorScope}
use pdv.Database.Tables.{find}
use pdv.Database.Lookup.{find-append_none}
use pdv.Database.Store.{Db, Environment, statement}
use pdv.Database.Ensures.{overflow_step, ok_pair, settle_ok}
use pdv.Database.Sales.{
  text_eq, sale_by_key, new_sale, allocate_number, insert_sale, create_sale_for_store,
}

text_eq_refl : (t : Text) → text_eq t t ≡ true
text_eq_refl [] = refl
text_eq_refl (c ∷ t) = ground (arith, text_eq_refl t)

has_key :
    (env : Environment) (scope : ActorScope) (key : Text) (number : ℕ) (zero : Numeric) (db : Db)
    → sale_by_key scope key (new_sale env scope key number zero db) ≡ true
unfolding new_sale
has_key env scope key number zero db = ground (arith, text_eq_refl key)

module _ {S : Type 0} (env : Environment) (scope : ActorScope) (key : Text) where
  -- After an insertion the row is found by its key.
  insert_sale-found :
      (zero : Numeric) (db db' : Db) (sale : Sale)
      → find (sale_by_key scope key) db.sales ≡ none
      → insert_sale {S = S} env scope key zero db ≡ ok (sale, db')
      → find (sale_by_key scope key) db'.sales ≡ some sale
  unfolding insert_sale
  insert_sale-found zero db db' sale unknown e =
      elim (Option-cases (find (λ (s : Sale). s.id == env.new_id db) db.sales)) [
        | inr (s, taken) ↦ cc (rw (taken, insert_sale) at e)
        | inl free ↦
            let row =
              new_sale env scope key (allocate_number scope db.sale_number_counters).0 zero db in
            let (same, there) = ok_pair (rw (free, insert_sale) at e) in
            subst (λ (d : Db). find (sale_by_key scope key) d.sales ≡ some sale) there
              (find-append_none (sale_by_key scope key) db.sales row unknown
                ∙ rw
                    (has_key env scope key (allocate_number scope db.sale_number_counters).0 zero
                      db)
                    (ap some same))
      ]

  created-found :
      (db db' : Db) (sale : Sale)
      → create_sale_for_store {S = S} env scope key db ≡ (ok sale, db')
      → find (sale_by_key scope key) db'.sales ≡ some sale
  unfolding create_sale_for_store statement
  created-found db db' sale e = elim (Option-cases (env.fault "CreateSaleForStore" db)) [
    | inr (fault, loud) ↦ cc (rw (loud, create_sale_for_store, statement) at e)
    | inl quiet ↦ elim (Option-cases (find (sale_by_key scope key) db.sales)) [
      | inr (old, known) ↦
          let (same, there) =
            ok_pair (settle_ok db _ (rw (quiet, known, create_sale_for_store, statement) at e)) in
          subst (λ (d : Db). find (sale_by_key scope key) d.sales ≡ some sale) there
            (known ∙ ap some same)
      | inl unknown ↦
          let (zero, written, e1) =
            overflow_step (env.column 2 zero_money)
              (λ zero. insert_sale {S = S} env scope key zero db)
              (settle_ok db _ (rw (quiet, unknown, create_sale_for_store, statement) at e)) in
          insert_sale-found zero db db' sale unknown e1
    ]
  ]

-- A creation that succeeded and is sent again with the same key, where the server reports no
-- fault, answers the same sale and changes no table, so it makes no second row and takes no second
-- number.
pub create_sale_for_store-idempotent :
    {S : Type 0} (env : Environment) (scope : ActorScope) (key : Text) (db db' : Db) (sale : Sale)
    → create_sale_for_store {S = S} env scope key db ≡ (ok sale, db')
    → env.fault "CreateSaleForStore" db' ≡ none
    → create_sale_for_store {S = S} env scope key db' ≡ (ok sale, db')
unfolding create_sale_for_store statement
create_sale_for_store-idempotent {S} env scope key db db' sale e quiet =
    rw (quiet, created-found {S = S} env scope key db db' sale e)
