-- ===== src/Database/Tables.antt =====
-- A table as a list of rows: the first row for which a WHERE clause holds, the replacement and the
-- removal of that row, and the rows in an order. The clauses of the UPDATE and DELETE statements name
-- the whole primary key, so they concern at most one row.
use pdv.Base.{Bool, List, [], ◌∷◌, Option, none, some, if◌then◌else◌}

module _ {ℓ} {A : Type ℓ} where
  abbrev pub find : (A → Bool) → List A → Option A
  find p [] = none
  find p (x ∷ xs) = if p x then some x else find p xs

  abbrev pub replace : (A → Bool) → (A → A) → List A → List A
  replace p f [] = []
  replace p f (x ∷ xs) = if p x then f x ∷ xs else x ∷ replace p f xs

  -- An UPDATE of every row for which the clause holds.
  abbrev pub update_all : (A → Bool) → (A → A) → List A → List A
  update_all p f [] = []
  update_all p f (x ∷ xs) = (if p x then f x else x) ∷ update_all p f xs

  abbrev pub remove : (A → Bool) → List A → List A
  remove p [] = []
  remove p (x ∷ xs) = if p x then xs else x ∷ remove p xs

  -- ORDER BY, by insertion: `before` is the order, and ties keep the order of the table.
  abbrev pub insert_by : (A → A → Bool) → A → List A → List A
  insert_by before x [] = x ∷ []
  insert_by before x (y ∷ ys) = if before y x then y ∷ insert_by before x ys else x ∷ y ∷ ys

  abbrev pub order_by : (A → A → Bool) → List A → List A
  order_by before [] = []
  order_by before (x ∷ xs) = insert_by before x (order_by before xs)
