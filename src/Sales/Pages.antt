-- ===== src/Sales/Pages.antt =====
-- The pages of a list of sales.
use native.Mathlib.Nat.{div-add-mod', mod-lt}
use pdv.Base.{
  ℕ, suc, ◌/◌, neg, ◌+◌, ◌-◌, ◌*◌, ◌≤◌, ◌<◌, ◌≡◌, arith, some, pos, negsuc, ◌-ℤ◌, mul_pos_pos,
  mul_one, int32, int_laws, int32_of_small, ℤ, ◌+ℤ◌, ltb_ℤ, int64, int64_of_small, quo,
  int64_of_small_negative, int64-wraps, true, ap, refl, ◌∙◌, ok, Bool-cases, inl, inr,
}
use pdv.Sales.Paging.{normalize_pagination, page_offset, total_pages}

sum_fits :
    (total size : ℕ)
    → 0 < total
    → total + size ≤ 9223372036854775807
    → int64 (int64 (pos total +ℤ pos size) -ℤ pos 1) ≡ pos (total + size - 1)
sum_fits total size some_rows fits =
    let whole : int64 (pos total +ℤ pos size) ≡ pos (total + size) =
      ap int64 (omega int_laws) ∙ int64_of_small (total + size) (omega arith) in
    ap (λ (z : ℤ). int64 (z -ℤ pos 1)) whole
    ∙ ap int64 (omega (int_laws, some_rows))
    ∙ int64_of_small (total + size - 1) (omega arith)

-- For a count and a positive page size whose sum an int64 holds, the number of pages is not
-- negative, so many pages hold all rows, and they hold fewer than one page more than the rows.
pub total_pages-least :
    (total size : ℕ)
    → 0 < size
    → total + size ≤ 9223372036854775807
    → (pages : ℕ) × (total_pages (pos total) size ≡ pos pages)
      × (total ≤ pages * size)
      × (pages * size < total + size)
unfolding total_pages quo
total_pages-least total size h fits = elim (Bool-cases (ltb_ℤ (pos 0) (pos total))) [
  | inl some_rows ↦ (
    (total + size - 1) / size,
    rw (some_rows, sum_fits total size (ground (arith, some_rows)) fits) refl,
    grind (arith, div-add-mod' (total + size - 1) size, mod-lt (total + size - 1) h),
    grind (arith, div-add-mod' (total + size - 1) size, mod-lt (total + size - 1) h),
  )
  | inr none_at_all ↦
      (0, rw none_at_all refl, ground (arith, none_at_all), ground (arith, none_at_all))
]

sum_wraps :
    (total size : ℕ)
    → total ≤ 9223372036854775807
    → size ≤ 100
    → 9223372036854775809 ≤ total + size
    → int64 (int64 (pos total +ℤ pos size) -ℤ pos 1)
      ≡ negsuc (18446744073709551616 - (total + size))
sum_wraps total size h k over =
    let whole : int64 (pos total +ℤ pos size) ≡ negsuc (18446744073709551615 - (total + size)) =
      ap int64 (omega int_laws) ∙ int64-wraps (total + size) (omega arith) (omega arith) in
    ap (λ (z : ℤ). int64 (z -ℤ pos 1)) whole
    ∙ ap int64 (omega (int_laws, h, k))
    ∙ int64_of_small_negative (18446744073709551616 - (total + size)) (omega arith)

-- For a count that an int64 holds and a page size of at most 100 whose sum less one it does not
-- hold, the number of pages is zero or negative: the sum wraps.
pub total_pages-wraps :
    (total size : ℕ)
    → total ≤ 9223372036854775807
    → size ≤ 100
    → 9223372036854775809 ≤ total + size
    → total_pages (pos total) size ≡ neg ((18446744073709551617 - (total + size)) / size)
unfolding total_pages quo
total_pages-wraps total size h k over =
    let some_rows : ltb_ℤ (pos 0) (pos total) ≡ true = ground arith in
    let shift : suc (18446744073709551616 - (total + size))
        ≡ 18446744073709551617 - (total + size) =
      omega arith in
    rw (some_rows, sum_wraps total size h k over) (ap (λ (n : ℕ). neg (n / size)) shift)

before : (n : ℕ) → pos (n + 1) -ℤ pos 1 ≡ pos n
before n = omega int_laws

int32-wraps : (n : ℕ) → 2147483648 ≤ n → n < 4294967296 → int32 (pos n) ≡ negsuc (4294967295 - n)
unfolding int32
int32-wraps n h k = ground arith

-- With one row on a page, a page number that comes after at least 2147483648 and fewer than
-- 4294967296 rows is accepted, and its offset is negative.
pub page_offset-wraps :
    (n : ℕ)
    → 2147483648 ≤ n
    → n < 4294967296
    → (normalize_pagination (some (pos (n + 1))) (some (pos 1)) ≡ ok (pos (n + 1), pos 1))
      × (page_offset (pos (n + 1)) (pos 1) ≡ negsuc (4294967295 - n))
unfolding normalize_pagination page_offset
page_offset-wraps n h k = (ground arith, rw (before n, mul_one (pos n)) (int32-wraps n h k))

-- For a page number of at least one and a page size, where the rows on the pages before are fewer
-- than 2147483648, the offset is their number.
pub page_offset-small :
    (page size : ℕ)
    → page * size < 2147483648
    → page_offset (pos (page + 1)) (pos size) ≡ pos (page * size)
unfolding page_offset
page_offset-small page size h =
    rw (before page, mul_pos_pos page size) (int32_of_small (pos (page * size)) h (omega arith))
