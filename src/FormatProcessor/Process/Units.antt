-- ===== src/FormatProcessor/Process/Units.antt =====
-- ProcessUnit of internal/formatprocessor/h264.go.
use mediamtx.Base.{
  ℕ, ◌%◌, ◌^◌, ◌≡◌, ◌≢◌, refl, sym, ap, ◌∙◌, Bool, true, false, List, ◌++◌, Option, none, some,
  if◌then◌else◌, is_empty, arith,
}
use mathlib.Core.Path.{subst}
use mediamtx.FormatProcessor.H264.{Nalu, NaluTypes, Params, remux_access_unit}
use mediamtx.FormatProcessor.H264.Remux.{
  IsUnit, remux_access_unit_lem, head_list, has_key_frame, kept,
}
use mediamtx.FormatProcessor.H264.Parameters.{last_params, update_track_parameters_from_au_lem}
use mediamtx.FormatProcessor.Process.{
  Packet, RtpLibrary, H264Unit, add_timestamp, Processor, Processed, encode_unit,
  multiply_and_divide, second, process_remuxed, process_unit,
}

module _ (types : NaluTypes) (lib : RtpLibrary) where
  -- The access unit that a unit has in the end, with the parameters that it brings itself.
  abbrev pub remuxed : List Nalu → Params → List Nalu
  remuxed au format =
      head_list types (last_params types au format) (has_key_frame types au) ++ kept types au

  abbrev pub HasAu : List Nalu → Option H264Unit → Type 0
  HasAu au none = Unit
  HasAu au (some u) = u.au ≡ au

  -- No panic; the track has parameters `format`, and the unit, if there is one, the access unit.
  abbrev pub IsProcessed : Params → List Nalu → Option (Processed types lib) → Type 0
  IsProcessed format au none = ⊥
  IsProcessed format au (some (t, r)) = (t.format ≡ format) × HasAu au r

  process_remuxed-IsProcessed :
      (u : H264Unit) (t : Processor types lib) (e : lib.Encoder)
      → t.encoder ≡ some e
      → IsProcessed t.format u.au (process_remuxed types lib u t)
  unfolding process_remuxed encode_unit
  process_remuxed-IsProcessed u t e he = go (is_empty u.au)
    where
      ts : ℕ
      ts = multiply_and_divide u.pts t.clock_rate second % 2 ^ 32

      encoded :
          (o : Option lib.Encoder)
          → o ≢ none
          → IsProcessed t.format u.au (elim o as (λ x. Option (Processed types lib)) [
            | none ↦ none
            | some encoder ↦ some (encode_unit types lib (add_timestamp ts) encoder u t)
          ])
      encoded none k = absurd (k refl)
      encoded (some encoder) k = packets (lib.encode encoder u.au).1
        where
          packets :
              (r : Option (List Packet))
              → IsProcessed t.format u.au (
                  some (elim r as (λ x. Processed types lib) [
                    | none ↦ (record t { encoder = some (lib.encode encoder u.au).0 }, none)
                    | some pkts ↦ (
                      record t { encoder = some (lib.encode encoder u.au).0 },
                      some (record u { rtp_packets = add_timestamp ts pkts }),
                    )
                  ]))
          packets none = (refl, tt)
          packets (some pkts) = (refl, refl)

      go :
          (b : Bool)
          → IsProcessed t.format u.au (
              if b
              then some (t, some u)
              else elim (t.encoder) as (λ x. Option (Processed types lib)) [
                | none ↦ none
                | some encoder ↦ some (encode_unit types lib (add_timestamp ts) encoder u t)
              ])
      go true = (refl, refl)
      go false = encoded t.encoder (λ n. ground (arith, n, he))

  -- A unit whose NAL units are not empty is processed without a panic where there is an encoder.
  -- Afterwards the parameters of the track are the last ones of the access unit, or the old ones;
  -- if a unit comes out, its access unit has those parameters first if it has a key frame and the
  -- track has both of them then, and no other parameters or delimiters. The types of the two parameters are assumed to be different
  -- numbers.
  pub process_unit-IsProcessed :
      (u : H264Unit) (t : Processor types lib) (e : lib.Encoder)
      → types.type_sps ≢ types.type_pps
      → IsUnit u.au
      → t.encoder ≡ some e
      → IsProcessed
          (last_params types u.au t.format)
          (remuxed u.au t.format)
          (process_unit types lib u t)
  unfolding process_unit
  process_unit-IsProcessed u t e d h he =
      subst (IsProcessed (last_params types u.au t.format) (remuxed u.au t.format))
        (sym (
          ap next (update_track_parameters_from_au_lem types u.au t.format d h)
          ∙ ap last (remux_access_unit_lem types (last_params types u.au t.format) u.au h)))
        (process_remuxed-IsProcessed (record u { au = remuxed u.au t.format })
          (record t { format = last_params types u.au t.format }) e he)
    where
      next : Option Params → Option (Processed types lib)
      next none = none
      next (some format) =
          elim (remux_access_unit types format u.au) as (λ x. Option (Processed types lib)) [
            | none ↦ none
            | some au ↦
                process_remuxed types lib (record u { au = au }) (record t { format = format })
          ]

      last : Option (List Nalu) → Option (Processed types lib)
      last none = none
      last (some au) =
          process_remuxed types lib (record u { au = au })
            (record t { format = last_params types u.au t.format })
