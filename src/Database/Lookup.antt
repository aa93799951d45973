-- ===== src/Database/Lookup.antt =====
-- How the first row for a clause, and the rows for a clause, change with an insertion, a replacement
-- and a removal; and predicates on every row.
use pdv.Base.{
  ◌≡◌, refl, sym, Bool, true, false, List, [], ◌∷◌, ◌++◌, none, some, if◌then◌else◌, arith, All,
  select, Bool-cases, some_injective, inl, inr,
}
use mathlib.Core.Path.{subst}
use pdv.Database.Tables.{find, replace, remove, insert_by, order_by}

module _ {A : Type 0} (q : A → Bool) where
  pub find_holds : (xs : List A) {s : A} → find q xs ≡ some s → q s ≡ true
  find_holds [] h = cc
  find_holds (x ∷ xs) {s} h = elim (Bool-cases (q x)) [
    | inl e ↦ subst (λ (y : A). q y ≡ true) (some_injective (rw e at h)) e
    | inr e ↦ find_holds xs (rw e at h)
  ]

  pub find-append_some :
      (xs : List A) (x : A) {s : A} → find q xs ≡ some s → find q (xs ++ x ∷ []) ≡ some s
  find-append_some [] x h = cc
  find-append_some (y ∷ xs) x {s} h = ground (arith, find-append_some xs x {s = s})

  pub find-append_none :
      (xs : List A) (x : A)
      → find q xs ≡ none
      → find q (xs ++ x ∷ []) ≡ (if q x then some x else none)
  find-append_none [] x h = refl
  find-append_none (y ∷ xs) x h = ground (arith, find-append_none xs x)

  pub select-append_out :
      (xs : List A) (x : A) → q x ≡ false → select q (xs ++ x ∷ []) ≡ select q xs
  select-append_out [] x h = rw h
  select-append_out (y ∷ xs) x h = rw (select-append_out xs x h)

-- A clause `p` of a statement beside a clause `q` that excludes it: `q` sees no difference.
module _ {A : Type 0} (p q : A → Bool) (apart : (x : A) → p x ≡ true → q x ≡ false) where
  pub find-replace_out :
      (f : A → A)
      → ((x : A) → p x ≡ true → q (f x) ≡ false)
      → (xs : List A) → find q (replace p f xs) ≡ find q xs
  find-replace_out f keeps [] = refl
  find-replace_out f keeps (x ∷ xs) = ground (arith, apart x, keeps x, find-replace_out f keeps xs)

  pub select-replace_out :
      (f : A → A)
      → ((x : A) → p x ≡ true → q (f x) ≡ false)
      → (xs : List A) → select q (replace p f xs) ≡ select q xs
  select-replace_out f keeps [] = refl
  select-replace_out f keeps (x ∷ xs) =
      ground (arith, apart x, keeps x, select-replace_out f keeps xs)

  pub select-remove_out : (xs : List A) → select q (remove p xs) ≡ select q xs
  select-remove_out [] = refl
  select-remove_out (x ∷ xs) = ground (arith, apart x, select-remove_out xs)

-- The row that a statement finds is the row that it replaces.
pub find-replace_in :
    {A : Type 0} (p q : A → Bool) (f : A → A)
    → ((x : A) → p x ≡ true → q x ≡ true)
    → ((x : A) → p x ≡ true → q (f x) ≡ true)
    → (xs : List A) {s : A} → find q xs ≡ some s
    → p s ≡ true
    → find q (replace p f xs) ≡ some (f s)
find-replace_in p q f sub keeps [] h k = cc
find-replace_in p q f sub keeps (x ∷ xs) {s} h k =
    ground (arith, sub x, keeps x, find-replace_in p q f sub keeps xs {s = s})

pub find-none_sub :
    {A : Type 0} (p q : A → Bool)
    → ((x : A) → p x ≡ true → q x ≡ true)
    → (xs : List A) → find q xs ≡ none
    → find p xs ≡ none
find-none_sub p q sub [] h = refl
find-none_sub p q sub (x ∷ xs) h = ground (arith, sub x, find-none_sub p q sub xs)

module _ {A : Type 0} (P : A → Type 0) where
  pub All-find : (p : A → Bool) (xs : List A) {s : A} → All P xs → find p xs ≡ some s → P s
  All-find p [] all h = cc
  All-find p (x ∷ xs) {s} all h = elim (Bool-cases (p x)) [
    | inl e ↦ subst P (some_injective (rw e at h)) all.0
    | inr e ↦ All-find p xs all.1 (rw e at h)
  ]

  pub All-select : (p : A → Bool) (xs : List A) → All P xs → All P (select p xs)
  All-select p [] all = tt
  All-select p (x ∷ xs) all = ground (arith, All-select p xs all.1)

  pub All-insert_by :
      (before : A → A → Bool) (x : A) (xs : List A) → P x → All P xs → All P (insert_by before x xs)
  All-insert_by before x [] px all = (px, tt)
  All-insert_by before x (y ∷ ys) px all = ground (arith, All-insert_by before x ys px all.1)

  pub All-order_by : (before : A → A → Bool) (xs : List A) → All P xs → All P (order_by before xs)
  All-order_by before [] all = tt
  All-order_by before (x ∷ xs) all =
      All-insert_by before x (order_by before xs) all.0 (All-order_by before xs all.1)

  pub All-remove : (p : A → Bool) (xs : List A) → All P xs → All P (remove p xs)
  All-remove p [] all = tt
  All-remove p (x ∷ xs) all = ground (arith, All-remove p xs all.1)

  pub All-replace :
      (p : A → Bool) (f : A → A) (xs : List A) {s : A}
      → find p xs ≡ some s
      → P (f s)
      → All P xs
      → All P (replace p f xs)
  All-replace p f [] h pf all = tt
  All-replace p f (x ∷ xs) {s} h pf all = elim (Bool-cases (p x)) [
    | inl e ↦ rw e (subst (λ (y : A). P (f y)) (sym (some_injective (rw e at h))) pf, all.1)
    | inr e ↦ rw e (all.0, All-replace p f xs (rw e at h) pf all.1)
  ]
