-- ===== src/Sales/Paging.antt =====
-- Pages of a list: normalizePagination, the offset that List sends, and paginationResponse.
use pdv.Base.{
  ℕ, Option, none, some, if◌then◌else◌, ℤ, pos, ltb_ℤ, int32, int64, quo, ◌+ℤ◌, ◌-ℤ◌, ◌*ℤ◌, Result,
  ok, ◌>>=◌, ◌>>◌, fail_if,
}
use pdv.Errors.{codes, validation}
use pdv.Sales.Errors.{SalesError}

unfoldable pub resolve_page : Option ℤ → Result SalesError ℤ
resolve_page none = ok (pos 1)
resolve_page (some page) = do
  fail_if (ltb_ℤ page (pos 1)) (validation (codes "page") "must be greater than zero")
  ok page

unfoldable pub resolve_page_size : Option ℤ → Result SalesError ℤ
resolve_page_size none = ok (pos 20)
resolve_page_size (some size) = do
  fail_if (ltb_ℤ size (pos 1)) (validation (codes "pageSize") "must be greater than zero")
  fail_if (ltb_ℤ (pos 100) size) (validation (codes "pageSize") "must be at most 100")
  ok size

unfoldable pub normalize_pagination : Option ℤ → Option ℤ → Result SalesError (ℤ × ℤ)
unfolding resolve_page resolve_page_size
normalize_pagination page page_size = do
  resolved_page ← resolve_page page
  resolved_page_size ← resolve_page_size page_size
  ok (resolved_page, resolved_page_size)

-- int32((page - 1) * pageSize): what 64 bits would drop, 32 bits drop too.
unfoldable pub page_offset : ℤ → ℤ → ℤ
page_offset page page_size = int32 ((page -ℤ pos 1) *ℤ page_size)

-- The number of pages of paginationResponse for a count of int64 and a page size that is positive.
unfoldable pub total_pages : ℤ → ℕ → ℤ
total_pages total page_size =
    if ltb_ℤ (pos 0) total
    then quo (int64 (int64 (total +ℤ pos page_size) -ℤ pos 1)) page_size
    else pos 0
