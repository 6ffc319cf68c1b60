-- ===== src/FormatProcessor/Process.antt =====
-- ProcessUnit and ProcessRTPPacket of internal/formatprocessor/h264.go, and multiplyAndDivide of
-- internal/formatprocessor/processor.go.
pub mod Fitted
pub mod Bounded
pub mod Scaling
pub mod Units
use mediamtx.Base.{
  ℕ, zero, suc, ◌+◌, ◌-◌, ◌*◌, ◌/◌, ◌%◌, ◌^◌, ltb, Bool, true, false, ◌||◌, List, [], ◌∷◌, Option,
  none, some, if◌then◌else◌, is_some, is_none, is_empty,
}
use mediamtx.FormatProcessor.H264.{
  Nalu, NaluTypes, Params, update_track_parameters_from_rtp_packet, update_track_parameters_from_au,
  remux_access_unit,
}

pub record Packet : Type 0 where
  pub padding : Bool
  pub padding_size : ℕ
  pub sequence_number : ℕ
  pub timestamp : ℕ
  pub ssrc : ℕ
  pub payload : List ℕ

pub record EncoderOptions : Type 0 where
  pub payload_max_size : ℕ
  pub ssrc : Option ℕ
  pub initial_sequence_number : Option ℕ

pub data Decoded : Type 0 where
  decoded : List Nalu → Decoded
  more_packets_needed : Decoded
  decode_error : Decoded

-- The RTP and H264 libraries. `none` is an error; `init` says whether it succeeds, and changes its
-- encoder either way.
pub record RtpLibrary : Type 1 where
  pub Encoder : Type 0
  pub Decoder : Type 0
  pub init : EncoderOptions → Encoder × Bool
  pub encode : Encoder → List Nalu → Encoder × Option (List Packet)
  pub new_decoder : Option Decoder
  pub decode : Decoder → Packet → Decoder × Decoded
  pub marshal_size : Packet → ℕ

-- An int64 as a number below 2 ^ 64, in two's complement; the divisors are positive.
unfoldable pub mul_int64 : ℕ → ℕ → ℕ
mul_int64 a b = a * b % 2 ^ 64

unfoldable pub div_int64 : ℕ → ℕ → ℕ
div_int64 a d = if ltb a (2 ^ 63) then a / d else (2 ^ 64 - (2 ^ 64 - a) / d) % 2 ^ 64

unfoldable pub mod_int64 : ℕ → ℕ → ℕ
mod_int64 a d = if ltb a (2 ^ 63) then a % d else (2 ^ 64 - (2 ^ 64 - a) % d) % 2 ^ 64

unfoldable pub multiply_and_divide : ℕ → ℕ → ℕ → ℕ
multiply_and_divide v m d =
    let secs = div_int64 v d in
    let dec = mod_int64 v d in (mul_int64 secs m + div_int64 (mul_int64 dec m) d) % 2 ^ 64

abbrev pub second : ℕ
second = 1000000000

pub record H264Unit : Type 0 where
  pub rtp_packets : List Packet
  pub pts : ℕ
  pub au : List Nalu

unfoldable pub add_timestamp : ℕ → List Packet → List Packet
add_timestamp ts [] = []
add_timestamp ts (pkt ∷ pkts) =
    record pkt { timestamp = (pkt.timestamp + ts) % 2 ^ 32 } ∷ add_timestamp ts pkts

unfoldable pub set_timestamp : ℕ → List Packet → List Packet
set_timestamp ts [] = []
set_timestamp ts (pkt ∷ pkts) = record pkt { timestamp = ts } ∷ set_timestamp ts pkts

module _ (types : NaluTypes) (lib : RtpLibrary) where
  pub record Processor : Type 0 where
    pub udp_max_payload_size : ℕ
    pub clock_rate : ℕ
    pub format : Params
    pub encoder : Option lib.Encoder
    pub decoder : Option lib.Decoder

  -- The state afterwards, and the unit, or `none` for an error.
  abbrev pub Processed : Type 0
  Processed = Processor × Option H264Unit

  unfoldable pub create_encoder : Option ℕ → Option ℕ → Processor → lib.Encoder × Bool
  create_encoder ssrc initial_sequence_number t = lib.init (record {
    payload_max_size = t.udp_max_payload_size - 12;
    ssrc = ssrc;
    initial_sequence_number = initial_sequence_number;
  })

  -- Encodes an access unit into packets, whose timestamps `stamp` changes.
  unfoldable pub encode_unit :
      (List Packet → List Packet) → lib.Encoder → H264Unit → Processor → Processed
  encode_unit stamp encoder u t =
      let (encoder', r) = lib.encode encoder u.au in
      let t' = record t { encoder = some encoder' } in
      elim r [ none ↦ (t', none) | some pkts ↦ (t', some (record u { rtp_packets = stamp pkts })) ]

  -- The outer `none` is a panic, here and below.
  unfoldable pub process_remuxed : H264Unit → Processor → Option Processed
  process_remuxed u t = if is_empty u.au then some (t, some u) else elim (t.encoder) [
    | none ↦ none
    | some encoder ↦
        let ts = multiply_and_divide u.pts t.clock_rate second % 2 ^ 32 in
        some (encode_unit (add_timestamp ts) encoder u t)
  ]

  unfoldable pub process_unit : H264Unit → Processor → Option Processed
  process_unit u t = elim (update_track_parameters_from_au types u.au t.format) [
    | none ↦ none
    | some format ↦ elim (remux_access_unit types format u.au) [
      | none ↦ none
      | some au ↦ process_remuxed (record u { au = au }) (record t { format = format })
    ]
  ]

  abbrev pub without_padding : Packet → Packet
  without_padding pkt = record pkt { padding = false; padding_size = 0 }

  abbrev pub started : Packet → lib.Encoder × Bool → Packet × (Option lib.Encoder × Bool)
  started pkt (encoder, is_ok) = (pkt, (some encoder, is_ok))

  -- The packet and the encoder to go on with, and whether there is no error.
  unfoldable pub prepare : Packet → Processor → Packet × (Option lib.Encoder × Bool)
  prepare pkt t = elim (t.encoder) [
    | some encoder ↦ (pkt, (some encoder, true))
    | none ↦
        let pkt' = without_padding pkt in
        if ltb t.udp_max_payload_size (lib.marshal_size pkt')
        then started pkt' (create_encoder (some pkt'.ssrc) (some pkt'.sequence_number) t)
        else (pkt', (none, true))
  ]

  -- Once the packet is decoded, or need not be.
  unfoldable pub route : Packet → H264Unit → Processor → Processed
  route pkt u t = elim (t.encoder) [
    | none ↦ (t, some u)
    | some encoder ↦
        if is_empty u.au then (t, some u) else encode_unit (set_timestamp pkt.timestamp) encoder u t
  ]

  unfoldable pub decode_packet : Packet → H264Unit → lib.Decoder → Processor → Option Processed
  decode_packet pkt u decoder t =
      let (decoder', r) = lib.decode decoder pkt in
      let t' = record t { decoder = some decoder' } in
      let u' = record u { rtp_packets = if is_some t.encoder then [] else u.rtp_packets } in
      elim r [
        | decode_error ↦ some (t', none)
        | more_packets_needed ↦ some (t', some u')
        | decoded au ↦ elim (remux_access_unit types t.format au) [
          | none ↦ none
          | some au' ↦ some (route pkt (record u' { au = au' }) t')
        ]
      ]

  abbrev pub or_new : Option lib.Decoder → Option lib.Decoder
  or_new none = lib.new_decoder
  or_new (some d) = some d

  unfoldable pub process_prepared : Bool → ℕ → Packet → Processor → Option Processed
  process_prepared has_non_rtsp_readers pts pkt t =
      let u : H264Unit = record { rtp_packets = pkt ∷ []; pts = pts; au = [] } in
      if has_non_rtsp_readers || (is_some t.decoder || is_some t.encoder)
      then elim (or_new t.decoder) [
        | none ↦ some (t, none)
        | some decoder ↦ decode_packet pkt u decoder t
      ]
      else some (route pkt u t)

  unfoldable pub process_rtp_packet : Bool → ℕ → Packet → Processor → Option Processed
  process_rtp_packet has_non_rtsp_readers pts pkt t =
      elim (update_track_parameters_from_rtp_packet types pkt.payload t.format) [
        | none ↦ none
        | some format ↦
            let (pkt', (encoder, is_ok)) = prepare pkt (record t { format = format }) in
            let t' = record t { format = format; encoder = encoder } in
            if is_ok then process_prepared has_non_rtsp_readers pts pkt' t' else some (t', none)
      ]
