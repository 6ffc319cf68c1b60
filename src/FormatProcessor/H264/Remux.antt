-- ===== src/FormatProcessor/H264/Remux.antt =====
-- remuxAccessUnit of internal/formatprocessor/h264.go: its count and its indexes.
use mediamtx.Base.{
  ℕ, zero, suc, ◌+◌, ◌%◌, ◌≡◌, refl, sym, ap, ◌∙◌, ◌==◌, Bool, true, false, ◌&&◌, ◌||◌, not, List,
  [], ◌∷◌, ◌++◌, append_assoc, Option, none, some, if◌then◌else◌, is_empty, length, replicate, All,
  arith, length-append,
}
use mediamtx.FormatProcessor.H264.{
  Nalu, NaluTypes, Params, nalu_type, set_at, is_removed, count_loop, fill_loop, prepend_params,
  remux_access_unit,
}

abbrev pub IsUnit : List Nalu → Type 0
IsUnit au = All (λ nalu. is_empty nalu ≡ false) au

set_at-append :
    (pre : List Nalu) (x y : Nalu) (ys : List Nalu)
    → set_at (length pre) x (pre ++ (y ∷ ys)) ≡ some (pre ++ (x ∷ ys))
unfolding set_at
set_at-append [] x y ys = refl
set_at-append (p ∷ ps) x y ys = ground (arith, set_at-append ps x y ys)

nothing_left : (xs ys : List Nalu) → length xs + length ys ≡ 0 → [] ≡ xs ++ ys
nothing_left [] [] e = refl
nothing_left [] (y ∷ ys) e = absurd (omega arith)
nothing_left (x ∷ xs) ys e = absurd (omega arith)

module _ (types : NaluTypes) where
  -- What stays of an access unit: all but parameters and delimiters, in their order.
  abbrev pub kept : List Nalu → List Nalu
  kept [] = []
  kept ([] ∷ au) = kept au
  kept ((b ∷ bs) ∷ au) =
      let rest = kept au in if is_removed types (b % 32) then rest else (b ∷ bs) ∷ rest

  -- Whether a NAL unit that stays is one of a key frame.
  abbrev pub has_key_frame : List Nalu → Bool
  has_key_frame [] = false
  has_key_frame ([] ∷ au) = has_key_frame au
  has_key_frame ((b ∷ bs) ∷ au) =
      (not (is_removed types (b % 32)) && (b % 32 == types.type_idr)) || has_key_frame au

  abbrev pub params_list : Params → List Nalu
  params_list format = elim (format.sps) [
    | none ↦ []
    | some sps ↦ elim (format.pps) [ none ↦ [] | some pps ↦ sps ∷ (pps ∷ []) ]
  ]

  abbrev pub new_params : Params → Bool → Bool → ℕ
  new_params format k found = if not k && found then length (params_list format) else 0

  count_loop_lem :
      (format : Params) (au : List Nalu) (k : Bool) (n : ℕ)
      → IsUnit au
      → count_loop types format au k n
        ≡ some
            (k || has_key_frame au, n + (length (kept au) + new_params format k (has_key_frame au)))
  unfolding count_loop nalu_type
  count_loop_lem format [] k n u = ground arith
  count_loop_lem format ([] ∷ au) k n (e, u) = cc
  count_loop_lem format ((b ∷ bs) ∷ au) k n (e, u) = ground (
    arith,
    count_loop_lem format au k n u,
    count_loop_lem format au true (suc (n + 2)) u,
    count_loop_lem format au true (suc n) u,
    count_loop_lem format au k (suc n) u,
  )

  -- The slots that are left to fill.
  abbrev blank : List Nalu → List Nalu
  blank au = replicate (length (kept au)) []

  write_next :
      (pre : List Nalu) (x : Nalu) (ys : List Nalu)
      → set_at (length pre) x (pre ++ ([] ∷ ys)) ≡ some ((pre ++ (x ∷ [])) ++ ys)
  write_next pre x ys = set_at-append pre x [] ys ∙ ap some (sym (append_assoc pre (x ∷ []) ys))

  fill_loop_lem :
      (au pre : List Nalu) (i : ℕ)
      → IsUnit au
      → i ≡ length pre
      → fill_loop types au i (pre ++ blank au) ≡ some (pre ++ kept au)
  unfolding fill_loop nalu_type
  fill_loop_lem [] pre i u e = refl
  fill_loop_lem ([] ∷ au) pre i (e, u) ei = cc
  fill_loop_lem ((b ∷ bs) ∷ au) pre i (e, u) ei = ground (
    arith,
    fill_loop_lem au pre i u ei,
    fill_loop_lem au (pre ++ ((b ∷ bs) ∷ [])) (suc i) u
        (omega (arith, length-append pre ((b ∷ bs) ∷ []))),
    write_next pre (b ∷ bs) (blank au),
    append_assoc pre ((b ∷ bs) ∷ []) (kept au),
  )

  -- The parameters that go first, if the access unit has a key frame.
  abbrev pub head_list : Params → Bool → List Nalu
  head_list format k = if k then params_list format else []

  prepend_params_lem :
      (format : Params) (k : Bool) (n m : ℕ)
      → m ≡ length (head_list format k) + n
      → prepend_params types format k (replicate m [])
        ≡ some (length (head_list format k), head_list format k ++ replicate n [])
  unfolding prepend_params set_at
  prepend_params_lem format k n m e = go format.sps format.pps k m e
    where
      go :
          (sps pps : Option Nalu) (k : Bool) (m : ℕ)
          → m ≡ length (head_list (record { sps = sps; pps = pps }) k) + n
          → prepend_params types (record { sps = sps; pps = pps }) k (replicate m [])
            ≡ some (
              length (head_list (record { sps = sps; pps = pps }) k),
              head_list (record { sps = sps; pps = pps }) k ++ replicate n [],
            )
      go none pps true m e = ap (λ j. some (0, replicate j [])) (omega (arith, e))
      go none pps false m e = ap (λ j. some (0, replicate j [])) (omega (arith, e))
      go (some x) none true m e = ap (λ j. some (0, replicate j [])) (omega (arith, e))
      go (some x) none false m e = ap (λ j. some (0, replicate j [])) (omega (arith, e))
      go (some x) (some y) false m e = ap (λ j. some (0, replicate j [])) (omega (arith, e))
      go (some x) (some y) true zero e = absurd (omega (arith, e))
      go (some x) (some y) true (suc zero) e = absurd (omega (arith, e))
      go (some x) (some y) true (suc (suc m)) e =
          ap (λ j. some (2, x ∷ (y ∷ replicate j []))) (omega (arith, e))

  count_is_length :
      (format : Params) (au : List Nalu)
      → IsUnit au
      → count_loop types format au false 0
        ≡ some (has_key_frame au, length (head_list format (has_key_frame au)) + length (kept au))
  count_is_length format au u = ground (arith, count_loop_lem format au false 0 u)

  -- An access unit of NAL units that are not empty is remuxed without a panic: the result is the
  -- units that are neither parameters nor delimiters, in their order, after the parameters of the
  -- track if one of them is of a key frame and the track has both parameters.
  pub remux_access_unit_lem :
      (format : Params) (au : List Nalu)
      → IsUnit au
      → remux_access_unit types format au ≡ some (head_list format (has_key_frame au) ++ kept au)
  unfolding remux_access_unit
  remux_access_unit_lem format au u =
      ap continue (count_is_length format au u)
      ∙ go (length (head_list format (has_key_frame au)) + length (kept au)) refl
    where
      continue : Option (Bool × ℕ) → Option (List Nalu)
      continue none = none
      continue (some (k, n)) =
          if n == 0 then some [] else elim (prepend_params types format k (replicate n [])) [
            | none ↦ none
            | some (i, filtered) ↦ fill_loop types au i filtered
          ]

      go :
          (n : ℕ)
          → n ≡ length (head_list format (has_key_frame au)) + length (kept au)
          → continue (some (has_key_frame au, n))
            ≡ some (head_list format (has_key_frame au) ++ kept au)
      go zero e = ap some (nothing_left (head_list format (has_key_frame au)) (kept au) (sym e))
      go (suc n) e = ground (
        arith,
        prepend_params_lem format (has_key_frame au) (length (kept au)) (suc n) e,
        fill_loop_lem au (head_list format (has_key_frame au)) _ u refl,
      )
