-- ===== src/FormatProcessor/H265.antt =====
-- internal/formatprocessor/h265.go: the parameters of an H265 track, and access units.
pub mod Parameters
mod Examples
use mediamtx.Base.{
  ℕ, zero, suc, ◌+◌, ◌*◌, ◌/◌, ◌%◌, ltb, ◌==◌, Bool, true, false, ◌&&◌, ◌||◌, not, List, [], ◌∷◌,
  Option, none, some, if◌then◌else◌, is_some, is_none, is_empty, length, take, drop, replicate,
}
use mediamtx.FormatProcessor.H264.{Nalu, cut, bytes_equal, differs, or_old, set_at}

-- The constants of the H265 library.
pub record H265Types : Type 0 where
  pub type_vps : ℕ
  pub type_sps : ℕ
  pub type_pps : ℕ
  pub type_aggregation_unit : ℕ

-- Parameters of a track; `none` is nil.
pub record H265Params : Type 0 where
  pub vps : Option Nalu
  pub sps : Option Nalu
  pub pps : Option Nalu

abbrev pub no_h265_params : H265Params
no_h265_params = record { vps = none; sps = none; pps = none }

-- `NALUType((b >> 1) & 0b111111)`
abbrev pub type_of_byte : ℕ → ℕ
type_of_byte b = b / 2 % 64

-- Of the first byte. Here and below, `none` is a panic.
unfoldable pub h265_nalu_type : Nalu → Option ℕ
h265_nalu_type [] = none
h265_nalu_type (b ∷ bs) = some (type_of_byte b)

module _ (types : H265Types) where
  -- The switch of the loop over an aggregated packet.
  unfoldable pub take_h265_params : ℕ → Nalu → H265Params → H265Params
  take_h265_params typ nalu p =
      if typ == types.type_vps
      then record p { vps = some nalu }
      else if typ == types.type_sps
      then record p { sps = some nalu }
      else if typ == types.type_pps
      then record p { pps = some nalu }
      else p

  -- The loop over an aggregated packet, on fuel.
  unfoldable pub extract_h265_loop : ℕ → List ℕ → H265Params → Option H265Params
  extract_h265_loop zero payload p = some p
  extract_h265_loop (suc n) [] p = some p
  extract_h265_loop (suc n) (a ∷ []) p = some p
  extract_h265_loop (suc n) (a ∷ (b ∷ rest)) p =
      let size = a * 256 + b in
      if size == 0
      then some p
      else if ltb (length rest) size
      then some no_h265_params
      else elim (cut size rest) [
        | none ↦ none
        | some (nalu, payload) ↦ elim (h265_nalu_type nalu) [
          | none ↦ none
          | some typ ↦ extract_h265_loop n payload (take_h265_params typ nalu p)
        ]
      ]

  unfoldable pub rtp_h265_extract_params : List ℕ → Option H265Params
  rtp_h265_extract_params [] = some no_h265_params
  rtp_h265_extract_params (a ∷ []) = some no_h265_params
  rtp_h265_extract_params (a ∷ (b ∷ bs)) =
      let typ = type_of_byte a in
      if typ == types.type_vps
      then some (record no_h265_params { vps = some (a ∷ (b ∷ bs)) })
      else if typ == types.type_sps
      then some (record no_h265_params { sps = some (a ∷ (b ∷ bs)) })
      else if typ == types.type_pps
      then some (record no_h265_params { pps = some (a ∷ (b ∷ bs)) })
      else if typ == types.type_aggregation_unit
      then extract_h265_loop (length bs) bs no_h265_params
      else some no_h265_params

  unfoldable pub update_h265_from_rtp_packet : List ℕ → H265Params → Option H265Params
  update_h265_from_rtp_packet payload format = elim (rtp_h265_extract_params payload) [
    | none ↦ none
    | some p ↦
        if differs p.vps format.vps || (differs p.sps format.sps || differs p.pps format.pps)
        then some (record {
          vps = or_old p.vps format.vps;
          sps = or_old p.sps format.sps;
          pps = or_old p.pps format.pps;
        })
        else some format
  ]

  -- One round of the loop over an access unit. It compares with the parameters of the format, not
  -- with those that the loop has found.
  unfoldable pub update_h265_params : H265Params → ℕ → Nalu → H265Params × Bool → H265Params × Bool
  update_h265_params format typ nalu (p, update) =
      if typ == types.type_vps
      then if not (bytes_equal nalu format.vps)
        then (record p { vps = some nalu }, true)
        else (p, update)
      else if typ == types.type_sps
      then if not (bytes_equal nalu format.sps)
        then (record p { sps = some nalu }, true)
        else (p, update)
      else if typ == types.type_pps
      then if not (bytes_equal nalu format.pps)
        then (record p { pps = some nalu }, true)
        else (p, update)
      else (p, update)

  unfoldable pub update_h265_loop :
      H265Params → List Nalu → H265Params × Bool → Option (H265Params × Bool)
  update_h265_loop format [] s = some s
  update_h265_loop format (nalu ∷ au) s = elim (h265_nalu_type nalu) [
    | none ↦ none
    | some typ ↦ update_h265_loop format au (update_h265_params format typ nalu s)
  ]

  unfoldable pub update_h265_from_au : List Nalu → H265Params → Option H265Params
  update_h265_from_au au format = elim (update_h265_loop format au (format, false)) [
    | none ↦ none
    | some (p, update) ↦ some (if update then p else format)
  ]
