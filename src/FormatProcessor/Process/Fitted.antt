-- ===== src/FormatProcessor/Process/Fitted.antt =====
-- How internal/formatprocessor/h264.go decodes and encodes packets of a bounded size.
use mediamtx.Base.{
  ℕ, ◌+◌, ◌-◌, ◌≤◌, ◌≡◌, ◌≢◌, refl, sym, ◌∙◌, Bool, true, false, List, [], ◌∷◌, Option, none, some,
  if◌then◌else◌, is_some, is_empty, All, arith,
}
use mathlib.Core.Path.{subst}
use mediamtx.FormatProcessor.H264.{Nalu, NaluTypes, remux_access_unit}
use mediamtx.FormatProcessor.H264.Remux.{IsUnit, remux_access_unit_lem}
use mediamtx.FormatProcessor.Process.{
  Packet, EncoderOptions, Decoded, decoded, more_packets_needed, decode_error, RtpLibrary, H264Unit,
  set_timestamp, Processor, Processed, encode_unit, route, decode_packet,
}

-- What the source relies on: an encoder that was made for payloads of a maximum size, with room for
-- a fragment, whose header takes 2 bytes, makes packets with at most that payload after a header of
-- 12 bytes; a timestamp has a fixed size; and no decoded NAL unit is empty. For a maximum of 0 the
-- library takes another one.
pub record RtpLaws (lib : RtpLibrary) : Type 0 where
  pub max_of : lib.Encoder → ℕ
  pub max_of-init :
      (o : EncoderOptions) → 3 ≤ o.payload_max_size → max_of (lib.init o).0 ≡ o.payload_max_size
  pub max_of-encode : (e : lib.Encoder) (au : List Nalu) → max_of (lib.encode e au).0 ≡ max_of e
  pub encode_small :
      (e : lib.Encoder) (au : List Nalu) (pkts : List Packet)
      → 3 ≤ max_of e
      → (lib.encode e au).1 ≡ some pkts
      → All (λ pkt. lib.marshal_size pkt ≤ max_of e + 12) pkts
  pub marshal_size-timestamp :
      (pkt : Packet) (ts : ℕ)
      → lib.marshal_size (record pkt { timestamp = ts }) ≡ lib.marshal_size pkt
  pub decode-IsUnit :
      (d : lib.Decoder) (pkt : Packet) (au : List Nalu)
      → (lib.decode d pkt).1 ≡ decoded au
      → IsUnit au

module _ (types : NaluTypes) (lib : RtpLibrary) (laws : RtpLaws lib) where
  abbrev pub AreSmall : ℕ → List Packet → Type 0
  AreSmall max pkts = All (λ pkt. lib.marshal_size pkt ≤ max) pkts

  abbrev pub IsFitted : ℕ → Option lib.Encoder → Type 0
  IsFitted max none = Unit
  IsFitted max (some e) = laws.max_of e ≡ max - 12

  abbrev pub IsSmallUnit : ℕ → Option H264Unit → Type 0
  IsSmallUnit max none = Unit
  IsSmallUnit max (some u) = AreSmall max u.rtp_packets

  -- No panic, and neither the unit nor the encoder has packets that are too large.
  abbrev pub IsBounded : ℕ → Option (Processed types lib) → Type 0
  IsBounded max none = ⊥
  IsBounded max (some (t, r)) =
      (t.udp_max_payload_size ≡ max) × (IsFitted max t.encoder × IsSmallUnit max r)

  AreSmall-le : (m n : ℕ) (pkts : List Packet) → m ≡ n → AreSmall m pkts → AreSmall n pkts
  AreSmall-le m n pkts e h = subst (λ k. AreSmall k pkts) e h

  set_timestamp-AreSmall :
      (max ts : ℕ) (pkts : List Packet) → AreSmall max pkts → AreSmall max (set_timestamp ts pkts)
  unfolding set_timestamp
  set_timestamp-AreSmall max ts [] h = tt
  set_timestamp-AreSmall max ts (pkt ∷ pkts) (h, hs) =
      (omega (arith, h, laws.marshal_size-timestamp pkt ts), set_timestamp-AreSmall max ts pkts hs)

  encode_unit-IsBounded :
      (max ts : ℕ) (e : lib.Encoder) (u : H264Unit) (t : Processor types lib)
      → 15 ≤ max
      → t.udp_max_payload_size ≡ max
      → laws.max_of e ≡ max - 12
      → IsBounded max (some (encode_unit types lib (set_timestamp ts) e u t))
  unfolding encode_unit
  encode_unit-IsBounded max ts e u t h eu em = go (lib.encode e u.au).1 refl
    where
      go :
          (r : Option (List Packet))
          → (lib.encode e u.au).1 ≡ r
          → IsBounded max (
              some (elim r as (λ x. Processed types lib) [
                | none ↦ (record t { encoder = some (lib.encode e u.au).0 }, none)
                | some pkts ↦ (
                  record t { encoder = some (lib.encode e u.au).0 },
                  some (record u { rtp_packets = set_timestamp ts pkts }),
                )
              ]))
      go none er = (eu, (laws.max_of-encode e u.au ∙ em, tt))
      go (some pkts) er = (
        eu,
        (
          laws.max_of-encode e u.au ∙ em,
          set_timestamp-AreSmall max ts pkts (
              AreSmall-le (laws.max_of e + 12) max pkts (omega (arith, h, em))
                (laws.encode_small e u.au pkts (omega (arith, h, em)) er)),
        ),
      )

  pub route-IsBounded :
      (max : ℕ) (pkt : Packet) (u : H264Unit) (t : Processor types lib)
      → 15 ≤ max
      → t.udp_max_payload_size ≡ max
      → IsFitted max t.encoder
      → AreSmall max u.rtp_packets
      → IsBounded max (some (route types lib pkt u t))
  unfolding route
  route-IsBounded max pkt u t h eu f s = go t.encoder f refl (is_empty u.au)
    where
      go :
          (o : Option lib.Encoder)
          → IsFitted max o
          → t.encoder ≡ o
          → (b : Bool)
          → IsBounded max (
              some (elim o as (λ x. Processed types lib) [
                | none ↦ (t, some u)
                | some e ↦
                    if b
                    then (t, some u)
                    else encode_unit types lib (set_timestamp pkt.timestamp) e u t
              ]))
      go none f eo b = (eu, (subst (IsFitted max) (sym eo) f, s))
      go (some e) f eo true = (eu, (subst (IsFitted max) (sym eo) f, s))
      go (some e) f eo false = encode_unit-IsBounded max pkt.timestamp e u t h eu f

  pub decode_packet-IsBounded :
      (max : ℕ) (pkt : Packet) (u : H264Unit) (d : lib.Decoder) (t : Processor types lib)
      → 15 ≤ max
      → t.udp_max_payload_size ≡ max
      → IsFitted max t.encoder
      → (t.encoder ≡ none → AreSmall max u.rtp_packets)
      → IsBounded max (decode_packet types lib pkt u d t)
  unfolding decode_packet
  decode_packet-IsBounded max pkt u d t h eu f s = go (lib.decode d pkt).1 refl
    where
      t' : Processor types lib
      t' = record t { decoder = some (lib.decode d pkt).0 }

      u' : H264Unit
      u' = record u { rtp_packets = if is_some t.encoder then [] else u.rtp_packets }

      small :
          (o : Option lib.Encoder)
          → (o ≡ none → AreSmall max u.rtp_packets)
          → AreSmall max (if is_some o then [] else u.rtp_packets)
      small none k = k refl
      small (some e) k = tt

      remuxed :
          (au : List Nalu) (o : Option (List Nalu))
          → o ≢ none
          → IsBounded max (elim o as (λ x. Option (Processed types lib)) [
            | none ↦ none
            | some au' ↦ some (route types lib pkt (record u' { au = au' }) t')
          ])
      remuxed au none k = absurd (k refl)
      remuxed au (some au') k =
          route-IsBounded max pkt (record u' { au = au' }) t' h eu f (small t.encoder s)

      go :
          (r : Decoded)
          → (lib.decode d pkt).1 ≡ r
          → IsBounded max (elim r as (λ x. Option (Processed types lib)) [
            | decode_error ↦ some (t', none)
            | more_packets_needed ↦ some (t', some u')
            | decoded au ↦
                elim (remux_access_unit types t.format au) as (λ x. Option (Processed types lib)) [
                  | none ↦ none
                  | some au' ↦ some (route types lib pkt (record u' { au = au' }) t')
                ]
          ])
      go decode_error e = (eu, (f, tt))
      go more_packets_needed e = (eu, (f, small t.encoder s))
      go (decoded au) e = remuxed au (remux_access_unit types t.format au) (λ n.
          ground
            (arith, n, remux_access_unit_lem types t.format au (laws.decode-IsUnit d pkt au e)))
