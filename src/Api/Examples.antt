-- ===== src/Api/Examples.antt =====
-- A list of five items on pages of two.
use mediamtx.Base.{ℕ, ◌^◌, ◌≡◌, ◌≢◌, refl, List, [], ◌∷◌, some, none, length, arith}
use mediamtx.Base.Text.{codes}
use mediamtx.Api.{
  paginate, paginate2, paged, panics, parse_or, parse_uint31, parse_digits, slice, page_items,
  clamp,
}
use mediamtx.Api.Pages.{pages, page_count, pages-page_count}
use mediamtx.Api.Panics.{paginate_panics}

abbrev items : List ℕ
items = 1 ∷ 2 ∷ 3 ∷ 4 ∷ 5 ∷ []

second_page : paginate (2 ^ 63) items [] (codes "2") (codes "1") ≡ paged 3 (3 ∷ 4 ∷ [])
unfolding paginate paginate2 parse_or parse_uint31 parse_digits slice page_items clamp
second_page = refl

-- With an int of 32 bits, the last page number that is read makes the product negative.
last_page_of_small_int : paginate (2 ^ 31) items [] (codes "") (codes "2147483647") ≡ panics
unfolding paginate paginate2 parse_or parse_uint31 parse_digits slice page_items clamp
last_page_of_small_int = refl

pages-page_count_example :
    pages (2 ^ 31) items (6 ∷ []) 2 (page_count (paginate2 (2 ^ 31) items (6 ∷ []) 2 0)) ≡ items
pages-page_count_example =
    pages-page_count (2 ^ 31) items (6 ∷ []) 2 0 (omega arith) (omega arith) (omega arith)

paginate_panics_example :
    (paginate (2 ^ 63) items [] (codes "0") (codes "7") ≡ panics
      → (length items ≢ 0)
        × ((parse_uint31 (codes "0") ≡ some 0) × (parse_or 0 (codes "7") ≢ none)))
    × ((length items ≢ 0)
        → parse_uint31 (codes "0") ≡ some 0
        → parse_or 0 (codes "7") ≢ none
        → paginate (2 ^ 63) items [] (codes "0") (codes "7") ≡ panics)
paginate_panics_example = paginate_panics items [] (codes "0") (codes "7") (omega arith)
