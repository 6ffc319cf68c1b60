-- ===== src/FormatProcessor/H265/Parameters.antt =====
-- The parameters that internal/formatprocessor/h265.go finds in packets and access units.
use mediamtx.Base.{
  ℕ, zero, suc, ◌+◌, ◌*◌, ◌≡◌, ◌≢◌, refl, ap, ◌∙◌, ltb, ◌==◌, Bool, false, ◌&&◌, not, List, [], ◌∷◌,
  Option, none, some, if◌then◌else◌, length, take, drop, arith, Bool-cases, inl, inr,
}
use mediamtx.FormatProcessor.H264.{Nalu, bytes_equal}
use mediamtx.FormatProcessor.H264.Parameters.{cut_fitting}
use mediamtx.FormatProcessor.H264.Remux.{IsUnit}
use mediamtx.FormatProcessor.H265.{
  H265Types, H265Params, no_h265_params, type_of_byte, h265_nalu_type, take_h265_params,
  extract_h265_loop, rtp_h265_extract_params, update_h265_params, update_h265_loop,
  update_h265_from_au,
}

next_total :
    (o : Option ℕ) (f : ℕ → Option H265Params)
    → o ≢ none
    → ((t : ℕ) → f t ≢ none)
    → (elim o as (λ x. Option H265Params) [ none ↦ none | some t ↦ f t ]) ≢ none
next_total none f h k e = h refl
next_total (some t) f h k e = k t e

module _ (types : H265Types) where
  h265_nalu_type-take :
      (n : ℕ) (xs : List ℕ)
      → (n == 0) ≡ false
      → ltb (length xs) n ≡ false
      → h265_nalu_type (take n xs) ≢ none
  unfolding h265_nalu_type
  h265_nalu_type-take zero xs e h q = cc
  h265_nalu_type-take (suc n) [] e h q = ground arith
  h265_nalu_type-take (suc n) (x ∷ xs) e h q = cc

  extract_h265_loop-total :
      (n : ℕ) (payload : List ℕ) (p : H265Params) → extract_h265_loop types n payload p ≢ none
  unfolding extract_h265_loop
  extract_h265_loop-total zero payload p e = cc
  extract_h265_loop-total (suc n) [] p e = cc
  extract_h265_loop-total (suc n) (a ∷ []) p e = cc
  extract_h265_loop-total (suc n) (a ∷ (b ∷ rest)) p e =
      let size = a * 256 + b in
      elim (Bool-cases (size == 0)) [
        | inl z ↦ ground arith
        | inr z ↦ elim (Bool-cases (ltb (length rest) size)) [
          | inl l ↦ ground arith
          | inr l ↦
              next_total (h265_nalu_type (take size rest))
                (λ t.
                  extract_h265_loop types n (drop size rest)
                    (take_h265_params types t (take size rest) p))
                (h265_nalu_type-take size rest z l)
                (λ t.
                  extract_h265_loop-total n (drop size rest)
                    (take_h265_params types t (take size rest) p))
                (ground (arith, e, cut_fitting size rest l))
        ]
      ]

  -- The search for H265 parameters in the payload of an RTP packet does not panic, whatever bytes
  -- the payload has.
  pub rtp_h265_extract_params_total :
      (payload : List ℕ) → rtp_h265_extract_params types payload ≢ none
  unfolding rtp_h265_extract_params
  rtp_h265_extract_params_total [] e = cc
  rtp_h265_extract_params_total (a ∷ []) e = cc
  rtp_h265_extract_params_total (a ∷ (b ∷ bs)) e =
      ground (arith, extract_h265_loop-total (length bs) bs no_h265_params)

  -- The last of some NAL units that has a type and differs from a parameter, or else `found`.
  abbrev pub last_change : ℕ → Option Nalu → List Nalu → Option Nalu → Option Nalu
  last_change typ old [] found = found
  last_change typ old ([] ∷ nalus) found = last_change typ old nalus found
  last_change typ old ((b ∷ bs) ∷ nalus) found =
      last_change typ old nalus
        (if type_of_byte b == typ && not (bytes_equal (b ∷ bs) old) then some (b ∷ bs) else found)

  abbrev pub changed_params : H265Params → List Nalu → H265Params → H265Params
  changed_params format nalus p = record {
    vps = last_change types.type_vps format.vps nalus p.vps;
    sps = last_change types.type_sps format.sps nalus p.sps;
    pps = last_change types.type_pps format.pps nalus p.pps;
  }

  -- The constants of a switch are different.
  pub record AreDistinct : Type 0 where
    pub vps_sps : types.type_vps ≢ types.type_sps
    pub vps_pps : types.type_vps ≢ types.type_pps
    pub sps_pps : types.type_sps ≢ types.type_pps

  update_h265_params_lem :
      (format : H265Params) (b : ℕ) (bs : List ℕ) (p : H265Params) (u : Bool)
      → AreDistinct
      → (update_h265_params types format (type_of_byte b) (b ∷ bs) (p, u)).0
        ≡ changed_params format ((b ∷ bs) ∷ []) p
  unfolding update_h265_params
  update_h265_params_lem format b bs p u d = ground (arith, d.vps_sps, d.vps_pps, d.sps_pps)

  update_h265_params-unchanged :
      (format : H265Params) (b : ℕ) (bs : List ℕ) (p : H265Params) (u : Bool)
      → (update_h265_params types format (type_of_byte b) (b ∷ bs) (p, u)).1 ≡ false
      → (u ≡ false) × ((update_h265_params types format (type_of_byte b) (b ∷ bs) (p, u)).0 ≡ p)
  unfolding update_h265_params
  update_h265_params-unchanged format b bs p u e = ground arith

  abbrev IsUpdated : H265Params → List Nalu → H265Params × Bool → H265Params × Bool → Type 0
  IsUpdated format au (p, u) (q, v) =
      (q ≡ changed_params format au p) × (v ≡ false → (u ≡ false) × (q ≡ p))

  update_h265_loop_lem :
      (format : H265Params) (au : List Nalu) (s : H265Params × Bool)
      → AreDistinct
      → IsUnit au
      → (r : H265Params × Bool) × ((update_h265_loop types format au s ≡ some r)
          × IsUpdated format au s r)
  unfolding update_h265_loop h265_nalu_type
  update_h265_loop_lem format [] (p, u) d h = ((p, u), (refl, (refl, λ e. (e, refl))))
  update_h265_loop_lem format ([] ∷ au) (p, u) d (e, h) = cc
  update_h265_loop_lem format ((b ∷ bs) ∷ au) (p, u) d (e, h) =
      let (r, (er, (eq, ev))) =
        update_h265_loop_lem format au
          (update_h265_params types format (type_of_byte b) (b ∷ bs) (p, u)) d h in
      (
        r,
        (
          er,
          (
            eq ∙ ap (changed_params format au) (update_h265_params_lem format b bs p u d),
            λ v. ground (arith, ev v, update_h265_params-unchanged format b bs p u),
          ),
        ),
      )

  -- After an access unit whose NAL units are not empty, each parameter of an H265 track is the last
  -- one of the access unit that differs from the old one, or the old one where there is none;
  -- the three types are assumed to be different numbers.
  pub update_h265_from_au_lem :
      (au : List Nalu) (format : H265Params)
      → AreDistinct
      → IsUnit au
      → update_h265_from_au types au format ≡ some (changed_params format au format)
  unfolding update_h265_from_au
  update_h265_from_au_lem au format d h =
      let ((q, v), (er, (eq, ev))) = update_h265_loop_lem format au (format, false) d h in
      ground (arith, er, eq, ev)
