-- ===== src/FormatProcessor/H264/Parameters.antt =====
-- The parameters that internal/formatprocessor/h264.go finds in packets and access units.
use mediamtx.Base.{
  ℕ, zero, suc, ◌+◌, ◌*◌, ◌/◌, ◌%◌, ◌<◌, ◌≤◌, ◌≡◌, ◌≢◌, refl, ap, ◌∙◌, ltb, ◌==◌, Bool, true, false,
  List, [], ◌∷◌, ◌++◌, Option, none, some, if◌then◌else◌, is_empty, length, take, drop, All, arith,
  Bool-cases, length-append, take-length_append, drop-length_append, inl, inr,
}
use mediamtx.FormatProcessor.H264.{
  Nalu, NaluTypes, Params, no_params, nalu_type, take_params, extract_loop, cut,
  rtp_h264_extract_params, update_params, update_loop, update_track_parameters_from_au, bytes_equal,
}
use mediamtx.FormatProcessor.H264.Remux.{IsUnit}

next_total :
    (o : Option ℕ) (f : ℕ → Option Params)
    → o ≢ none
    → ((t : ℕ) → f t ≢ none)
    → (elim o as (λ x. Option Params) [ none ↦ none | some t ↦ f t ]) ≢ none
next_total none f h k e = h refl
next_total (some t) f h k e = k t e

-- A NAL unit that equals a parameter is the parameter.
bytes_equal-is_old :
    (b : ℕ) (bs : List ℕ) (o : Option Nalu) → bytes_equal (b ∷ bs) o ≡ true → o ≡ some (b ∷ bs)
bytes_equal-is_old b bs none e = cc
bytes_equal-is_old b bs (some y) e = ground arith

pub cut_fitting :
    (size : ℕ) (payload : List ℕ)
    → ltb (length payload) size ≡ false
    → cut size payload ≡ some (take size payload, drop size payload)
unfolding cut
cut_fitting size payload h = ground arith

module _ (types : NaluTypes) where
  nalu_type-take :
      (n : ℕ) (xs : List ℕ)
      → (n == 0) ≡ false
      → ltb (length xs) n ≡ false
      → nalu_type (take n xs) ≢ none
  unfolding nalu_type
  nalu_type-take zero xs e h q = cc
  nalu_type-take (suc n) [] e h q = ground arith
  nalu_type-take (suc n) (x ∷ xs) e h q = cc

  extract_loop-total :
      (n : ℕ) (payload : List ℕ) (p : Params) → extract_loop types n payload p ≢ none
  unfolding extract_loop
  extract_loop-total zero payload p e = cc
  extract_loop-total (suc n) [] p e = cc
  extract_loop-total (suc n) (a ∷ []) p e = cc
  extract_loop-total (suc n) (a ∷ (b ∷ rest)) p e =
      let size = a * 256 + b in
      elim (Bool-cases (size == 0)) [
        | inl z ↦ ground arith
        | inr z ↦ elim (Bool-cases (ltb (length rest) size)) [
          | inl l ↦ ground arith
          | inr l ↦
              next_total (nalu_type (take size rest))
                (λ t.
                  extract_loop types n (drop size rest) (take_params types t (take size rest) p))
                (nalu_type-take size rest z l)
                (λ t.
                  extract_loop-total n (drop size rest) (take_params types t (take size rest) p))
                (ground (arith, e, cut_fitting size rest l))
        ]
      ]

  -- The search for parameters in the payload of an RTP packet does not panic, whatever bytes the
  -- payload has.
  pub rtp_h264_extract_params_total :
      (payload : List ℕ) → rtp_h264_extract_params types payload ≢ none
  unfolding rtp_h264_extract_params
  rtp_h264_extract_params_total [] e = cc
  rtp_h264_extract_params_total (b ∷ bs) e =
      ground (arith, extract_loop-total (length bs) bs no_params)

  -- The last of some NAL units that has a type, or else an old one.
  abbrev pub last_of : ℕ → List Nalu → Option Nalu → Option Nalu
  last_of typ [] old = old
  last_of typ ([] ∷ nalus) old = last_of typ nalus old
  last_of typ ((b ∷ bs) ∷ nalus) old =
      last_of typ nalus (if b % 32 == typ then some (b ∷ bs) else old)

  -- The last parameters of some NAL units.
  abbrev pub last_params : List Nalu → Params → Params
  last_params nalus old = record {
    sps = last_of types.type_sps nalus old.sps;
    pps = last_of types.type_pps nalus old.pps;
  }

  -- What a STAP-A packet carries: each NAL unit behind its length in two bytes.
  abbrev pub aggregated : List Nalu → List ℕ
  aggregated [] = []
  aggregated (nalu ∷ nalus) =
      (length nalu / 256) ∷ ((length nalu % 256) ∷ (nalu ++ aggregated nalus))

  abbrev pub IsShort : List Nalu → Type 0
  IsShort nalus = All (λ nalu. (is_empty nalu ≡ false) × (length nalu < 65536)) nalus

  take_params-last :
      (b : ℕ) (bs : List ℕ) (nalus : List Nalu) (p : Params)
      → types.type_sps ≢ types.type_pps
      → last_params nalus (take_params types (b % 32) (b ∷ bs) p) ≡ last_params ((b ∷ bs) ∷ nalus) p
  unfolding take_params
  take_params-last b bs nalus p d = ground arith

  joined : (v : ℕ) → v / 256 * 256 + v % 256 ≡ v
  joined v = omega arith

  extract_round :
      (n : ℕ) (b : ℕ) (bs rest : List ℕ) (p : Params)
      → extract_loop types
          (suc n)
          ((length (b ∷ bs) / 256) ∷ ((length (b ∷ bs) % 256) ∷ ((b ∷ bs) ++ rest)))
          p
        ≡ extract_loop types n rest (take_params types (b % 32) (b ∷ bs) p)
  unfolding extract_loop nalu_type cut
  extract_round n b bs rest p = ground (
    arith,
    joined (length (b ∷ bs)),
    take-length_append (b ∷ bs) rest,
    drop-length_append (b ∷ bs) rest,
    length-append bs rest,
  )

  extract_loop-aggregated :
      (n : ℕ) (nalus : List Nalu) (p : Params)
      → types.type_sps ≢ types.type_pps
      → IsShort nalus
      → length (aggregated nalus) ≤ n
      → extract_loop types n (aggregated nalus) p ≡ some (last_params nalus p)
  unfolding extract_loop
  extract_loop-aggregated zero [] p d s h = refl
  extract_loop-aggregated (suc n) [] p d s h = refl
  extract_loop-aggregated n ([] ∷ nalus) p d ((e, l), s) h = cc
  extract_loop-aggregated zero ((b ∷ bs) ∷ nalus) p d s h = absurd (omega (arith, h))
  extract_loop-aggregated (suc n) ((b ∷ bs) ∷ nalus) p d (sh, s) h =
      extract_round n b bs (aggregated nalus) p
      ∙ extract_loop-aggregated n nalus (take_params types (b % 32) (b ∷ bs) p) d s
          (omega (arith, h, length-append bs (aggregated nalus)))
      ∙ ap some (take_params-last b bs nalus p d)

  -- In the payload of a STAP-A packet that carries NAL units of 1 to 65535 bytes, the search finds
  -- the last SPS and the last PPS of them; the three types are assumed to be different numbers.
  pub rtp_h264_extract_params-aggregated :
      (b : ℕ) (nalus : List Nalu)
      → types.type_sps ≢ types.type_pps
      → b % 32 ≡ types.type_stap_a
      → types.type_stap_a ≢ types.type_sps
      → types.type_stap_a ≢ types.type_pps
      → IsShort nalus
      → rtp_h264_extract_params types (b ∷ aggregated nalus) ≡ some (last_params nalus no_params)
  unfolding rtp_h264_extract_params
  rtp_h264_extract_params-aggregated b nalus d t k l s =
      ground (arith, extract_loop-aggregated (length (aggregated nalus)) nalus no_params d s)

  -- One round of the loop over an access unit sets a parameter, or finds the NAL unit there.
  update_params_lem :
      (b : ℕ) (bs : List ℕ) (p : Params) (u : Bool)
      → types.type_sps ≢ types.type_pps
      → (update_params types (b % 32) (b ∷ bs) (p, u)).0 ≡ last_params ((b ∷ bs) ∷ []) p
  unfolding update_params
  update_params_lem b bs p u d =
      ground (arith, bytes_equal-is_old b bs p.sps, bytes_equal-is_old b bs p.pps)

  update_params-unchanged :
      (b : ℕ) (bs : List ℕ) (p : Params) (u : Bool)
      → (update_params types (b % 32) (b ∷ bs) (p, u)).1 ≡ false
      → (u ≡ false) × ((update_params types (b % 32) (b ∷ bs) (p, u)).0 ≡ p)
  unfolding update_params
  update_params-unchanged b bs p u e = ground arith

  -- What the loop over an access unit ends with.
  abbrev IsUpdated : List Nalu → Params × Bool → Params × Bool → Type 0
  IsUpdated au (p, u) (q, v) = (q ≡ last_params au p) × (v ≡ false → (u ≡ false) × (q ≡ p))

  update_loop_lem :
      (au : List Nalu) (s : Params × Bool)
      → types.type_sps ≢ types.type_pps
      → IsUnit au
      → (r : Params × Bool) × ((update_loop types au s ≡ some r) × IsUpdated au s r)
  unfolding update_loop nalu_type
  update_loop_lem [] (p, u) d h = ((p, u), (refl, (refl, λ e. (e, refl))))
  update_loop_lem ([] ∷ au) (p, u) d (e, h) = cc
  update_loop_lem ((b ∷ bs) ∷ au) (p, u) d (e, h) =
      let (r, (er, (eq, ev))) =
        update_loop_lem au (update_params types (b % 32) (b ∷ bs) (p, u)) d h in
      (
        r,
        (
          er,
          (
            eq ∙ ap (last_params au) (update_params_lem b bs p u d),
            λ v. ground (arith, ev v, update_params-unchanged b bs p u),
          ),
        ),
      )

  -- After an access unit whose NAL units are not empty, the parameters of the track are the last
  -- SPS and the last PPS of the access unit, or the old ones where it has none; the two types are assumed to be
  -- different numbers.
  pub update_track_parameters_from_au_lem :
      (au : List Nalu) (format : Params)
      → types.type_sps ≢ types.type_pps
      → IsUnit au
      → update_track_parameters_from_au types au format ≡ some (last_params au format)
  unfolding update_track_parameters_from_au
  update_track_parameters_from_au_lem au format d h =
      let ((q, v), (er, (eq, ev))) = update_loop_lem au (format, false) d h in
      ground (arith, er, eq, ev)
