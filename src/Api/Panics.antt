-- ===== src/Api/Panics.antt =====
-- When paginate of internal/api/api.go panics, where an int has 64 bits.
use mediamtx.Base.{
  ℕ, zero, suc, ◌*◌, ◌^◌, ◌<◌, ◌≤◌, ◌≡◌, ◌≢◌, refl, sym, ap, ◌∙◌, List, [], ◌∷◌, length, arith,
  Option, some, none, ◌==◌, if◌then◌else◌, false,
}
use mediamtx.Base.Text.{Text}
use mediamtx.Api.{Paged, panics, paginate2, paginate, parse_or, parse_uint31, parse_error, paged}
use mediamtx.Api.Pages.{paginate2_lem}
use native.Mathlib.Nat.{mul-le-mul}

parse_uint31_lt : (s : Text) (n : ℕ) → parse_uint31 s ≡ some n → n < 2 ^ 31
unfolding parse_uint31
parse_uint31_lt [] n e = cc
parse_uint31_lt (c ∷ cs) n e = ground (arith, e)

parse_or_lt : (d : ℕ) (s : Text) (n : ℕ) → d < 2 ^ 31 → parse_or d s ≡ some n → n < 2 ^ 31
unfolding parse_or
parse_or_lt d [] n h e = ground (arith, h, e)
parse_or_lt d (c ∷ cs) n h e = parse_uint31_lt (c ∷ cs) n e

parse_or-zero : (s : Text) → parse_or 100 s ≡ some 0 → parse_uint31 s ≡ some 0
unfolding parse_or
parse_or-zero [] e = ground (arith, e)
parse_or-zero (c ∷ cs) e = e

zero-parse_or : (d : ℕ) (s : Text) → parse_uint31 s ≡ some 0 → parse_or d s ≡ some 0
unfolding parse_or parse_uint31
zero-parse_or d [] e = cc
zero-parse_or d (c ∷ cs) e = e

fits : (per page : ℕ) → per < 2 ^ 31 → page < 2 ^ 31 → suc page * per < 2 ^ 63
fits per page h k =
    let le : suc page * per ≤ 2 ^ 31 * 2 ^ 31 =
      mul-le-mul {n₂ = 2 ^ 31} {m₂ = 2 ^ 31} (omega (arith, k)) (omega (arith, h)) in
    omega (arith, le)

module _ {ℓ} {A : Type ℓ} where
  paged-panics : (n : ℕ) (xs : List A) → paged n xs ≢ panics
  paged-panics n xs e = cc

  -- What makes a page of a size panic.
  paginate2-zero :
      (items spare : List A) (page : ℕ)
      → length items ≢ 0
      → paginate2 (2 ^ 63) items spare 0 page ≡ panics
  unfolding paginate2
  paginate2-zero [] spare page h = absurd (h refl)
  paginate2-zero (x ∷ xs) spare page h =
      ap (λ c. if c then paged 0 (x ∷ xs) else panics) (nonzero (length xs))
    where
      nonzero : (n : ℕ) → (suc n == 0) ≡ false
      nonzero n = ground arith

  paginate2_panics :
      (items spare : List A) (per page : ℕ)
      → per < 2 ^ 31
      → page < 2 ^ 31
      → length items < 2 ^ 63
      → paginate2 (2 ^ 63) items spare per page ≡ panics
      → (length items ≢ 0) × (per ≡ 0)
  unfolding paginate2
  paginate2_panics [] spare per page h k hl e = absurd (paged-panics 0 [] e)
  paginate2_panics (x ∷ xs) spare zero page h k hl e = (λ z. omega (arith, z), refl)
  paginate2_panics (x ∷ xs) spare (suc per) page h k hl e = absurd (
      paged-panics _ _ (
        sym (
          paginate2_lem (2 ^ 63) (x ∷ xs) spare (suc per) page (λ z. omega (arith, z)) (omega arith)
            (fits (suc per) page h k) hl)
        ∙ e))

  -- Where an int has 64 bits, paginate panics exactly when the list has items, the text for the
  -- size of a page is a number that is 0, and the one for the page is empty or a number; so no
  -- other size, and no page that is out of range, makes it panic.
  pub paginate_panics :
      (items spare : List A) (items_per_page_str page_str : Text)
      → length items < 2 ^ 63
      → (paginate (2 ^ 63) items spare items_per_page_str page_str ≡ panics
          → (length items ≢ 0)
            × ((parse_uint31 items_per_page_str ≡ some 0) × (parse_or 0 page_str ≢ none)))
        × ((length items ≢ 0)
            → parse_uint31 items_per_page_str ≡ some 0
            → parse_or 0 page_str ≢ none
            → paginate (2 ^ 63) items spare items_per_page_str page_str ≡ panics)
  unfolding paginate
  paginate_panics items spare s t hl = (
    λ e. only (parse_or 100 s) refl (parse_or 0 t) refl e,
    λ h z k. always (parse_or 0 t) refl (zero-parse_or 100 s z) h k,
  )
    where
      body : Option ℕ → Option ℕ → Paged A
      body o q = elim o [
        | none ↦ parse_error
        | some per ↦ elim q [
          | none ↦ parse_error
          | some page ↦ paginate2 (2 ^ 63) items spare per page
        ]
      ]

      none_some : (page : ℕ) → none ≢ some page
      none_some page e = cc

      only :
          (o : Option ℕ)
          → parse_or 100 s ≡ o
          → (q : Option ℕ) → parse_or 0 t ≡ q
          → body o q ≡ panics
          → (length items ≢ 0) × ((parse_uint31 s ≡ some 0) × (parse_or 0 t ≢ none))
      only none eo q eq e = cc
      only (some per) eo none eq e = cc
      only (some per) eo (some page) eq e =
          let (h, z) =
            paginate2_panics items spare per page (parse_or_lt 100 s per (omega arith) eo)
              (parse_or_lt 0 t page (omega arith) eq) hl e in
          (h, (parse_or-zero s (eo ∙ ap some z), λ n. none_some page (sym n ∙ eq)))

      always :
          (q : Option ℕ)
          → parse_or 0 t ≡ q
          → parse_or 100 s ≡ some 0
          → length items ≢ 0
          → parse_or 0 t ≢ none
          → body (parse_or 100 s) (parse_or 0 t) ≡ panics
      always none eq z h k = absurd (k eq)
      always (some page) eq z h k =
          ap (λ o. body o (parse_or 0 t)) z
          ∙ (ap (body (some 0)) eq ∙ paginate2-zero items spare page h)
