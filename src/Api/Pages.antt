-- ===== src/Api/Pages.antt =====
-- What the pages of paginate2 of internal/api/api.go hold.
use mediamtx.Base.{
  ℕ, zero, suc, ◌+◌, ◌-◌, ◌*◌, ◌/◌, ◌%◌, ◌<◌, ◌≤◌, ◌≡◌, ◌≢◌, refl, sym, ap, ◌∙◌, min, ◌==◌, List,
  [], ◌∷◌, ◌++◌, length, take, drop, take-all, arith, Bool-cases, some, none, inl, inr, length-drop,
  false, ltb, ◌||◌, if◌then◌else◌,
}
use mediamtx.Api.{
  Paged, is_negative, panics, parse_error, paged, wrap, clamp, slice, page_items, count_pages,
  paginate2,
}
use native.Mathlib.Nat.{
  div-add-mod', mod-lt, add-mul, mod-eq_of_lt, mul-le-mul, le-mul_of_pos_right,
}

wrap_small : (limit n : ℕ) → n < limit → wrap limit n ≡ n
wrap_small limit n h = mod-eq_of_lt (omega (arith, h))

clamp_small : (limit len n : ℕ) → n < limit → clamp limit len n ≡ min n len
unfolding clamp
clamp_small limit len n h = ground (arith, h)

in_range :
    (limit a b len spare : ℕ)
    → a ≤ b
    → b ≤ len
    → len < limit
    → (is_negative limit a || (is_negative limit b || (ltb b a || ltb (len + spare) b))) ≡ false
in_range limit a b len spare ha hb hl = ground (arith, ha, hb, hl)

-- More pages would not be counted.
count_pages_le : (len per : ℕ) → zero < per → count_pages len per * per < len + per
count_pages_le len per h = elim (Bool-cases (len % per == 0)) [
  | inl e ↦ ground (arith, e, div-add-mod' len per, h)
  | inr e ↦ ground (
    arith,
    e,
    div-add-mod' len per,
    mod-lt len h,
    add-mul (len / per) 1 per,
    ap (λ k. k * per) {x = suc (len / per)} {y = len / per + 1},
  )
]

count_pages_lem : (len per : ℕ) → zero < per → len ≤ count_pages len per * per
count_pages_lem len per h = elim (Bool-cases (len % per == 0)) [
  | inl e ↦ ground (arith, e, div-add-mod' len per)
  | inr e ↦ ground (
    arith,
    e,
    div-add-mod' len per,
    mod-lt len h,
    add-mul (len / per) 1 per,
    ap (λ k. k * per) {x = suc (len / per)} {y = len / per + 1},
  )
]

module _ {ℓ} {A : Type ℓ} where
  -- The items from the index `a` up to `b`.
  abbrev part : ℕ → ℕ → List A → List A
  part a b items = take (b - a) (drop a items)

  take_eq : (m n : ℕ) (items : List A) → m ≡ n → take m items ≡ take n items
  take_eq m n items e = ap (λ k. take k items) e

  take-nil : (n : ℕ) → take {A = A} n [] ≡ []
  take-nil zero = refl
  take-nil (suc n) = refl

  take-slice : (a b : ℕ) (items : List A) → a ≤ b → take a items ++ part a b items ≡ take b items
  take-slice zero b items h = take_eq (b - 0) b items (omega arith)
  take-slice (suc a) zero items h = absurd (omega (arith, h))
  take-slice (suc a) (suc b) [] h = take-nil (suc b - suc a)
  take-slice (suc a) (suc b) (x ∷ items) h = ap (◌∷◌ x) (
      ap (λ k. take a items ++ k) (take_eq (suc b - suc a) (b - a) (drop a items) (omega arith))
      ∙ take-slice a b items (omega (arith, h)))

  take-min : (n : ℕ) (items : List A) → take (min n (length items)) items ≡ take n items
  take-min zero items = take_eq (min 0 (length items)) 0 items (omega arith)
  take-min (suc n) [] = take-nil (min (suc n) 0)
  take-min (suc n) (x ∷ items) =
      take_eq (min (suc n) (suc (length items))) (suc (min n (length items))) (x ∷ items)
        (omega arith)
      ∙ ap (◌∷◌ x) (take-min n items)

  drop-append :
      (a : ℕ) (items spare : List A)
      → a ≤ length items
      → drop a (items ++ spare) ≡ drop a items ++ spare
  drop-append zero items spare h = refl
  drop-append (suc a) [] spare h = absurd (omega (arith, h))
  drop-append (suc a) (x ∷ items) spare h = drop-append a items spare (omega (arith, h))

  take-append :
      (n : ℕ) (items spare : List A) → n ≤ length items → take n (items ++ spare) ≡ take n items
  take-append zero items spare h = refl
  take-append (suc n) [] spare h = absurd (omega (arith, h))
  take-append (suc n) (x ∷ items) spare h =
      ap (◌∷◌ x) (take-append n items spare (omega (arith, h)))

  slice_lem :
      (limit a b : ℕ) (items spare : List A)
      → a ≤ b
      → b ≤ length items
      → length items < limit
      → slice limit a b items spare ≡ some (part a b items)
  unfolding slice
  slice_lem limit a b items spare ha hb hl =
      let e : take (b - a) (drop a (items ++ spare)) ≡ part a b items =
        ap (take (b - a)) (drop-append a items spare (omega (arith, ha, hb)))
        ∙ take-append (b - a) (drop a items) spare (omega (arith, length-drop a items, ha, hb)) in
      ap (λ c. if c then none else some (take (b - a) (drop a (items ++ spare))))
        (in_range limit a b (length items) (length spare) ha hb hl)
      ∙ ap some e

  -- A page between indexes that do not overflow.
  page_items_lem :
      (limit : ℕ) (items spare : List A) (per n : ℕ)
      → zero < per
      → suc n * per < limit
      → length items < limit
      → page_items limit items spare per n
        ≡ some (part (min (n * per) (length items)) (min (suc n * per) (length items)) items)
  unfolding page_items
  page_items_lem limit items spare per n hp hn hl =
      let len = length items in
      let grows : n * per ≤ suc n * per = mul-le-mul (omega arith) (omega arith) in
      let next : suc n < limit = omega (arith, hn, le-mul_of_pos_right (suc n) hp) in
      let e₀ : clamp limit len (wrap limit (n * per)) ≡ min (n * per) len =
        ap (clamp limit len) (wrap_small limit (n * per) (omega (arith, grows, hn)))
        ∙ clamp_small limit len (n * per) (omega (arith, grows, hn)) in
      let e₁ : wrap limit (n + 1) ≡ suc n =
        wrap_small limit (n + 1) (omega (arith, next)) ∙ omega arith in
      let e₂ : clamp limit len (wrap limit (wrap limit (n + 1) * per)) ≡ min (suc n * per) len =
        ap (λ k. clamp limit len (wrap limit (k * per))) e₁
        ∙ ap (clamp limit len) (wrap_small limit (suc n * per) hn)
        ∙ clamp_small limit len (suc n * per) hn in
      ap (λ a. slice limit a (clamp limit len (wrap limit (wrap limit (n + 1) * per))) items spare)
        e₀
      ∙ ap (λ b. slice limit (min (n * per) len) b items spare) e₂
      ∙ slice_lem limit (min (n * per) len) (min (suc n * per) len) items spare
          (omega (arith, grows)) (omega arith) hl

  -- The items of the result of a page.
  abbrev pub items_of : Paged A → List A
  items_of panics = []
  items_of parse_error = []
  items_of (paged n items) = items

  abbrev pub page_count : Paged A → ℕ
  page_count panics = 0
  page_count parse_error = 0
  page_count (paged n items) = n

  -- The first pages, one after the other.
  abbrev pub pages : ℕ → List A → List A → ℕ → ℕ → List A
  pages limit items spare per zero = []
  pages limit items spare per (suc n) =
      pages limit items spare per n ++ items_of (paginate2 limit items spare per n)

  pub paginate2_lem :
      (limit : ℕ) (items spare : List A) (per n : ℕ)
      → length items ≢ 0
      → zero < per
      → suc n * per < limit
      → length items < limit
      → paginate2 limit items spare per n
        ≡ paged
            (count_pages (length items) per)
            (part (min (n * per) (length items)) (min (suc n * per) (length items)) items)
  unfolding paginate2
  paginate2_lem limit items spare per n h hp hn hl =
      ground (arith, h, hp, page_items_lem limit items spare per n hp hn hl)

  pages_lem :
      (limit : ℕ) (items spare : List A) (per n : ℕ)
      → length items ≢ 0
      → zero < per
      → n * per < limit
      → length items < limit
      → pages limit items spare per n ≡ take (n * per) items
  pages_lem limit items spare per zero h hp hn hl = sym (take_eq (0 * per) 0 items (omega arith))
  pages_lem limit items spare per (suc n) h hp hn hl =
      let grows : n * per ≤ suc n * per = mul-le-mul (omega arith) (omega arith) in
      let len = length items in
      let next = part (min (n * per) len) (min (suc n * per) len) items in
      ap (λ k. k ++ items_of (paginate2 limit items spare per n))
        (pages_lem limit items spare per n h hp (omega (arith, grows, hn)) hl)
      ∙ ap (λ k. take (n * per) items ++ items_of k)
          (paginate2_lem limit items spare per n h hp hn hl)
      ∙ ap (λ k. k ++ next) (sym (take-min (n * per) items))
      ∙ take-slice (min (n * per) len) (min (suc n * per) len) items (omega (arith, grows))
      ∙ take-min (suc n * per) items

  -- The pages that paginate2 counts, one after the other, are all the items, where the size of a
  -- page is not 0, and neither that size with the number of items nor the end of the page that is
  -- asked for reaches the limit of an int; so none of these pages panics.
  pub pages-page_count :
      (limit : ℕ) (items spare : List A) (per page : ℕ)
      → zero < per
      → length items + per < limit
      → suc page * per < limit
      → pages limit items spare per (page_count (paginate2 limit items spare per page)) ≡ items
  unfolding paginate2
  pages-page_count limit [] spare per page h hl hn = refl
  pages-page_count limit (x ∷ xs) spare per page h hl hn =
      let items = x ∷ xs in
      let count = count_pages (length items) per in
      let ne : length items ≢ 0 = λ e. omega (arith, e) in
      let len : length items < limit = omega (arith, hl) in
      ap (λ r. pages limit items spare per (page_count r))
        (paginate2_lem limit items spare per page ne h hn len)
      ∙ pages_lem limit items spare per count ne h
          (omega (arith, hl, count_pages_le (length items) per h)) len
      ∙ take-all (count * per) items (count_pages_lem (length items) per h)
