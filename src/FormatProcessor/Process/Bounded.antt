-- ===== src/FormatProcessor/Process/Bounded.antt =====
-- The sizes of the packets that internal/formatprocessor/h264.go passes on.
use mediamtx.Base.{
  ℕ, ◌-◌, ◌≤◌, ◌≡◌, ◌≢◌, refl, ap, ◌∙◌, ltb, Bool, true, false, ◌||◌, List, [], ◌∷◌, Option, none,
  some, if◌then◌else◌, is_some, arith,
}
use mediamtx.FormatProcessor.H264.{NaluTypes, Params, update_track_parameters_from_rtp_packet}
use mediamtx.FormatProcessor.H264.Parameters.{rtp_h264_extract_params_total}
use mediamtx.FormatProcessor.Process.{
  Packet, RtpLibrary, H264Unit, Processor, Processed, create_encoder, without_padding, prepare,
  started, route, decode_packet, or_new, process_prepared, process_rtp_packet,
}
use mediamtx.FormatProcessor.Process.Fitted.{
  RtpLaws, IsFitted, IsBounded, decode_packet-IsBounded, route-IsBounded,
}

module _ (types : NaluTypes) (lib : RtpLibrary) (laws : RtpLaws lib) where
  process_prepared-IsBounded :
      (max : ℕ) (b : Bool) (pts : ℕ) (pkt : Packet) (t : Processor types lib)
      → 15 ≤ max
      → t.udp_max_payload_size ≡ max
      → IsFitted types lib laws max t.encoder
      → (t.encoder ≡ none → lib.marshal_size pkt ≤ max)
      → IsBounded types lib laws max (process_prepared types lib b pts pkt t)
  unfolding process_prepared
  process_prepared-IsBounded max b pts pkt t h eu f s =
      go (b || (is_some t.decoder || is_some t.encoder)) (λ c. is_alone t.encoder (ground arith))
    where
      u : H264Unit
      u = record { rtp_packets = pkt ∷ []; pts = pts; au = [] }

      is_alone : (o : Option lib.Encoder) → is_some o ≡ false → o ≡ none
      is_alone none e = refl
      is_alone (some x) e = cc

      decoding :
          (o : Option lib.Decoder)
          → IsBounded types lib laws max (elim o as (λ x. Option (Processed types lib)) [
            | none ↦ some (t, none)
            | some decoder ↦ decode_packet types lib pkt u decoder t
          ])
      decoding none = (eu, (f, tt))
      decoding (some d) =
          decode_packet-IsBounded types lib laws max pkt u d t h eu f (λ e. (s e, tt))

      go :
          (c : Bool)
          → (c ≡ false → t.encoder ≡ none)
          → IsBounded types lib laws max (
              if c
              then (elim (or_new types lib t.decoder) as (λ x. Option (Processed types lib)) [
                | none ↦ some (t, none)
                | some decoder ↦ decode_packet types lib pkt u decoder t
              ])
              else some (route types lib pkt u t))
      go true k = decoding (or_new types lib t.decoder)
      go false k = route-IsBounded types lib laws max pkt u t h eu f (s (k refl), tt)

  -- What is known of a packet and an encoder that are ready.
  abbrev IsReady : ℕ → Packet × (Option lib.Encoder × Bool) → Type 0
  IsReady max (pkt, (o, is_ok)) =
      IsFitted types lib laws max o × (o ≡ none → lib.marshal_size pkt ≤ max)

  prepare-IsReady :
      (max : ℕ) (pkt : Packet) (t : Processor types lib)
      → 15 ≤ max
      → t.udp_max_payload_size ≡ max
      → IsFitted types lib laws max t.encoder
      → IsReady max (prepare types lib pkt t)
  unfolding prepare create_encoder
  prepare-IsReady max pkt t h eu f = go t.encoder f
    where
      checked :
          (b : Bool)
          → (b ≡ false → lib.marshal_size (without_padding types lib pkt) ≤ max)
          → IsReady max (
              if b
              then started types lib
                  (without_padding types lib pkt)
                  (create_encoder types lib (some pkt.ssrc) (some pkt.sequence_number) t)
              else (without_padding types lib pkt, (none, true)))
      checked true k = (laws.max_of-init _ (omega (arith, h, eu)) ∙ ap (λ m. m - 12) eu, λ e. cc)
      checked false k = (tt, λ e. k refl)

      go :
          (o : Option lib.Encoder)
          → IsFitted types lib laws max o
          → IsReady max (elim o as (λ x. Packet × (Option lib.Encoder × Bool)) [
            | some e ↦ (pkt, (some e, true))
            | none ↦
                if ltb t.udp_max_payload_size (lib.marshal_size (without_padding types lib pkt))
                then started types lib
                    (without_padding types lib pkt)
                    (create_encoder types lib (some pkt.ssrc) (some pkt.sequence_number) t)
                else (without_padding types lib pkt, (none, true))
          ])
      go (some e) f = (f, λ n. cc)
      go none f =
          checked (ltb t.udp_max_payload_size (lib.marshal_size (without_padding types lib pkt)))
            (λ e. ground arith)

  update_total :
      (payload : List ℕ) (format : Params)
      → update_track_parameters_from_rtp_packet types payload format ≢ none
  unfolding update_track_parameters_from_rtp_packet
  update_total payload format e = ground (arith, rtp_h264_extract_params_total types payload, e)

  -- An RTP packet of any size and with any bytes is processed without a panic, and if a unit comes
  -- out of it, each of the unit's packets has at most the size that the processor allows, which is
  -- at least 15; an encoder that there is then keeps to that size too. The libraries are assumed to
  -- make packets that fit an encoder's maximum, which leaves room for a fragment, and to decode no
  -- empty NAL unit.
  pub process_rtp_packet-IsBounded :
      (b : Bool) (pts : ℕ) (pkt : Packet) (t : Processor types lib)
      → 15 ≤ t.udp_max_payload_size
      → IsFitted types lib laws t.udp_max_payload_size t.encoder
      → IsBounded types lib laws t.udp_max_payload_size (process_rtp_packet types lib b pts pkt t)
  unfolding process_rtp_packet
  process_rtp_packet-IsBounded b pts pkt t h f =
      go (update_track_parameters_from_rtp_packet types pkt.payload t.format)
        (update_total pkt.payload t.format)
    where
      next : Params → Processor types lib
      next format = record t {
        format = format;
        encoder = (prepare types lib pkt (record t { format = format })).1.0;
      }

      finish :
          (format : Params) (c : Bool)
          → IsBounded types lib laws t.udp_max_payload_size (
              if c
              then process_prepared types lib b pts
                  (prepare types lib pkt (record t { format = format })).0
                  (next format)
              else some (next format, none))
      finish format true =
          let (fitted, small) =
            prepare-IsReady t.udp_max_payload_size pkt (record t { format = format }) h refl f in
          process_prepared-IsBounded t.udp_max_payload_size b pts _ (next format) h refl fitted
            small
      finish format false =
          let (fitted, small) =
            prepare-IsReady t.udp_max_payload_size pkt (record t { format = format }) h refl f in
          (refl, (fitted, tt))

      go :
          (o : Option Params)
          → o ≢ none
          → IsBounded types lib laws t.udp_max_payload_size
              (elim o as (λ x. Option (Processed types lib)) [
                | none ↦ none
                | some format ↦
                    if (prepare types lib pkt (record t { format = format })).1.1
                    then process_prepared types lib b pts
                        (prepare types lib pkt (record t { format = format })).0
                        (next format)
                    else some (next format, none)
              ])
      go none k = absurd (k refl)
      go (some format) k = finish format (prepare types lib pkt (record t { format = format })).1.1
