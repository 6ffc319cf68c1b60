-- ===== src/FormatProcessor/H264.antt =====
-- internal/formatprocessor/h264.go: the parameters of an H264 track, and access units.
pub mod Remux
pub mod Parameters
use mediamtx.Base.{
  ℕ, zero, suc, ◌+◌, ◌*◌, ◌%◌, ltb, ◌==◌, Bool, true, false, ◌&&◌, ◌||◌, not, List, [], ◌∷◌, Option,
  none, some, if◌then◌else◌, is_some, is_none, is_empty, length, take, drop, replicate,
}
use mediamtx.Base.Text.{Text, same}

-- The bytes of a NAL unit.
abbrev pub Nalu : Type 0
Nalu = Text

-- The constants of the H264 library.
pub record NaluTypes : Type 0 where
  pub type_idr : ℕ
  pub type_sps : ℕ
  pub type_pps : ℕ
  pub type_access_unit_delimiter : ℕ
  pub type_stap_a : ℕ

-- Parameters of a track; `none` is nil.
pub record Params : Type 0 where
  pub sps : Option Nalu
  pub pps : Option Nalu

abbrev pub no_params : Params
no_params = record { sps = none; pps = none }

-- `NALUType(nalu[0] & 0x1F)`. Here and below, `none` is a panic.
unfoldable pub nalu_type : Nalu → Option ℕ
nalu_type [] = none
nalu_type (b ∷ bs) = some (b % 32)

-- `payload[:size]` and `payload[size:]`
unfoldable pub cut : ℕ → List ℕ → Option (Nalu × List ℕ)
cut size payload =
    if ltb (length payload) size then none else some (take size payload, drop size payload)

-- `bytes.Equal`
abbrev pub bytes_equal : Nalu → Option Nalu → Bool
bytes_equal x none = is_empty x
bytes_equal x (some y) = same x y

abbrev pub differs : Option Nalu → Option Nalu → Bool
differs none old = false
differs (some x) old = not (bytes_equal x old)

abbrev pub or_old : Option Nalu → Option Nalu → Option Nalu
or_old none old = old
or_old (some x) old = some x

-- `s[i] = x`
unfoldable pub set_at : ℕ → Nalu → List Nalu → Option (List Nalu)
set_at i x [] = none
set_at zero x (y ∷ ys) = some (x ∷ ys)
set_at (suc i) x (y ∷ ys) = elim (set_at i x ys) [ none ↦ none | some zs ↦ some (y ∷ zs) ]

module _ (types : NaluTypes) where
  -- The switch of the loop over an aggregated packet.
  unfoldable pub take_params : ℕ → Nalu → Params → Params
  take_params typ nalu p =
      if typ == types.type_sps
      then record p { sps = some nalu }
      else if typ == types.type_pps
      then record p { pps = some nalu }
      else p

  -- The loop over an aggregated packet, on fuel.
  unfoldable pub extract_loop : ℕ → List ℕ → Params → Option Params
  extract_loop zero payload p = some p
  extract_loop (suc n) [] p = some p
  extract_loop (suc n) (a ∷ []) p = some p
  extract_loop (suc n) (a ∷ (b ∷ rest)) p =
      let size = a * 256 + b in
      if size == 0
      then some p
      else if ltb (length rest) size
      then some no_params
      else elim (cut size rest) [
        | none ↦ none
        | some (nalu, payload) ↦ elim (nalu_type nalu) [
          | none ↦ none
          | some typ ↦ extract_loop n payload (take_params typ nalu p)
        ]
      ]

  unfoldable pub rtp_h264_extract_params : List ℕ → Option Params
  rtp_h264_extract_params [] = some no_params
  rtp_h264_extract_params (b ∷ bs) =
      let typ = b % 32 in
      if typ == types.type_sps
      then some (record { sps = some (b ∷ bs); pps = none })
      else if typ == types.type_pps
      then some (record { sps = none; pps = some (b ∷ bs) })
      else if typ == types.type_stap_a
      then extract_loop (length bs) bs no_params
      else some no_params

  unfoldable pub update_track_parameters_from_rtp_packet : List ℕ → Params → Option Params
  update_track_parameters_from_rtp_packet payload format = elim (rtp_h264_extract_params payload) [
    | none ↦ none
    | some p ↦
        if differs p.sps format.sps || differs p.pps format.pps
        then some (record { sps = or_old p.sps format.sps; pps = or_old p.pps format.pps })
        else some format
  ]

  -- One round of the loop over an access unit.
  unfoldable pub update_params : ℕ → Nalu → Params × Bool → Params × Bool
  update_params typ nalu (p, update) =
      if typ == types.type_sps
      then if not (bytes_equal nalu p.sps)
        then (record p { sps = some nalu }, true)
        else (p, update)
      else if typ == types.type_pps
      then if not (bytes_equal nalu p.pps)
        then (record p { pps = some nalu }, true)
        else (p, update)
      else (p, update)

  unfoldable pub update_loop : List Nalu → Params × Bool → Option (Params × Bool)
  update_loop [] s = some s
  update_loop (nalu ∷ au) s = elim (nalu_type nalu) [
    | none ↦ none
    | some typ ↦ update_loop au (update_params typ nalu s)
  ]

  unfoldable pub update_track_parameters_from_au : List Nalu → Params → Option Params
  update_track_parameters_from_au au format = elim (update_loop au (format, false)) [
    | none ↦ none
    | some (p, update) ↦ some (if update then p else format)
  ]

  -- Parameters and delimiters.
  abbrev pub is_removed : ℕ → Bool
  is_removed typ =
      typ == types.type_sps || (typ == types.type_pps || typ == types.type_access_unit_delimiter)

  abbrev pub has_params : Params → Bool
  has_params format = is_some format.sps && is_some format.pps

  -- The first loop of remuxAccessUnit, from whether it has seen a key frame and its count.
  unfoldable pub count_loop : Params → List Nalu → Bool → ℕ → Option (Bool × ℕ)
  count_loop format [] is_key_frame n = some (is_key_frame, n)
  count_loop format (nalu ∷ au) is_key_frame n = elim (nalu_type nalu) [
    | none ↦ none
    | some typ ↦ elim (is_removed typ) [
      | true ↦ count_loop format au is_key_frame n
      | false ↦ elim (typ == types.type_idr && not is_key_frame) [
        | true ↦ count_loop format au true (suc (if has_params format then n + 2 else n))
        | false ↦ count_loop format au is_key_frame (suc n)
      ]
    ]
  ]

  -- The second loop, from the index that it writes to next.
  unfoldable pub fill_loop : List Nalu → ℕ → List Nalu → Option (List Nalu)
  fill_loop [] i filtered = some filtered
  fill_loop (nalu ∷ au) i filtered = elim (nalu_type nalu) [
    | none ↦ none
    | some typ ↦ elim (is_removed typ) [
      | true ↦ fill_loop au i filtered
      | false ↦ elim (set_at i nalu filtered) [
        | none ↦ none
        | some filtered' ↦ fill_loop au (suc i) filtered'
      ]
    ]
  ]

  -- The parameters that go first.
  unfoldable pub prepend_params : Params → Bool → List Nalu → Option (ℕ × List Nalu)
  prepend_params format is_key_frame filtered = elim (format.sps) [
    | none ↦ some (0, filtered)
    | some sps ↦ elim (format.pps) [
      | none ↦ some (0, filtered)
      | some pps ↦
          if is_key_frame
          then elim (set_at 0 sps filtered) [
            | none ↦ none
            | some f ↦ elim (set_at 1 pps f) [ none ↦ none | some g ↦ some (2, g) ]
          ]
          else some (0, filtered)
    ]
  ]

  -- No access unit left is `[]`.
  unfoldable pub remux_access_unit : Params → List Nalu → Option (List Nalu)
  remux_access_unit format au = elim (count_loop format au false 0) [
    | none ↦ none
    | some (is_key_frame, n) ↦
        if n == 0 then some [] else elim (prepend_params format is_key_frame (replicate n [])) [
          | none ↦ none
          | some (i, filtered) ↦ fill_loop au i filtered
        ]
  ]
