-- ===== src/Api.antt =====
-- paginate of internal/api/api.go.
pub mod Pages
pub mod Panics
mod Examples
use mediamtx.Base.{
  ℕ, zero, suc, ◌+◌, ◌-◌, ◌*◌, ◌/◌, ◌%◌, ◌^◌, min, ltb, leb, ◌==◌, Bool, true, false, ◌&&◌, not,
  List, [], ◌∷◌, Option, none, some, if◌then◌else◌, is_empty, length, take, drop, ◌||◌, ◌++◌,
}
use mediamtx.Base.Text.{Text}

-- A panic of Go is a result of its own.
pub data Paged {ℓ} (A : Type ℓ) : Type ℓ where
  panics : Paged A
  parse_error : Paged A
  paged : ℕ → List A → Paged A

-- The digits of `strconv.ParseUint` in base 10.
unfoldable pub parse_digits : Text → ℕ → Option ℕ
parse_digits [] n = some n
parse_digits (c ∷ cs) n = elim (leb b'0' c && leb c b'9') [
  | true ↦ parse_digits cs (n * 10 + (c - b'0'))
  | false ↦ none
]

-- `strconv.ParseUint(s, 10, 31)`
unfoldable pub parse_uint31 : Text → Option ℕ
parse_uint31 [] = none
parse_uint31 (c ∷ cs) = elim (parse_digits (c ∷ cs) 0) [
  | none ↦ none
  | some n ↦ if ltb n (2 ^ 31) then some n else none
]

-- The value of a parameter that may be left out.
unfoldable pub parse_or : ℕ → Text → Option ℕ
parse_or default [] = some default
parse_or default (c ∷ cs) = parse_uint31 (c ∷ cs)

-- An int as a number below twice `limit`, in two's complement: the limit is 2 ^ 31 where an int
-- has 32 bits, and 2 ^ 63 where it has 64.
abbrev pub wrap : ℕ → ℕ → ℕ
wrap limit n = n % (2 * limit)

abbrev pub is_negative : ℕ → ℕ → Bool
is_negative limit n = leb limit n

-- `if n > itemsLen { n = itemsLen }`
unfoldable pub clamp : ℕ → ℕ → ℕ → ℕ
clamp limit items_len n = if not (is_negative limit n) && ltb items_len n then items_len else n

abbrev pub count_pages : ℕ → ℕ → ℕ
count_pages items_len items_per_page =
    if not (items_len % items_per_page == 0)
    then suc (items_len / items_per_page)
    else items_len / items_per_page

module _ {ℓ} {A : Type ℓ} where
  -- `Slice(a, b)` of a slice with spare capacity; `none` is a panic.
  unfoldable pub slice : ℕ → ℕ → ℕ → List A → List A → Option (List A)
  slice limit a b items spare =
      if is_negative limit a
        || (is_negative limit b || (ltb b a || ltb (length items + length spare) b))
      then none
      else some (take (b - a) (drop a (items ++ spare)))

  unfoldable pub page_items : ℕ → List A → List A → ℕ → ℕ → Option (List A)
  page_items limit items spare items_per_page page =
      slice limit (clamp limit (length items) (wrap limit (page * items_per_page)))
        (clamp limit (length items) (wrap limit (wrap limit (page + 1) * items_per_page))) items
        spare

  unfoldable pub paginate2 : ℕ → List A → List A → ℕ → ℕ → Paged A
  paginate2 limit items spare items_per_page page =
      if length items == 0
      then paged 0 items
      else if items_per_page == 0
      then panics
      else elim (page_items limit items spare items_per_page page) [
        | none ↦ panics
        | some xs ↦ paged (count_pages (length items) items_per_page) xs
      ]

  unfoldable pub paginate : ℕ → List A → List A → Text → Text → Paged A
  paginate limit items spare items_per_page_str page_str = elim (parse_or 100 items_per_page_str) [
    | none ↦ parse_error
    | some items_per_page ↦ elim (parse_or 0 page_str) [
      | none ↦ parse_error
      | some page ↦ paginate2 limit items spare items_per_page page
    ]
  ]
