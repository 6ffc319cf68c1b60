-- ===== src/FormatProcessor/Examples.antt =====
-- A track whose access units and packets hold NAL units of two bytes.
use mediamtx.Base.{
  ℕ, All, ap, ◌+◌, ◌≤◌, ◌≡◌, ◌≢◌, refl, List, [], ◌∷◌, Option, none, some, true, false, length,
  arith, ◌*◌, ◌/◌, Option-cases, if◌then◌else◌, inl, leb, ◌==◌, inr,
}
use mediamtx.FormatProcessor.H264.{
  Nalu, NaluTypes, Params, no_params, rtp_h264_extract_params, update_track_parameters_from_au,
  remux_access_unit,
}
use mathlib.Core.Path.{subst}
use mediamtx.FormatProcessor.H264.Remux.{IsUnit, remux_access_unit_lem}
use mediamtx.FormatProcessor.H264.Parameters.{
  aggregated, rtp_h264_extract_params_total, rtp_h264_extract_params-aggregated,
  update_track_parameters_from_au_lem,
}
use mediamtx.FormatProcessor.Process.{
  Packet, Decoded, decoded, more_packets_needed, decode_error, RtpLibrary, Processor,
  process_rtp_packet, process_unit, multiply_and_divide, second,
}
use mediamtx.FormatProcessor.Process.Fitted.{RtpLaws, IsBounded}
use mediamtx.FormatProcessor.Process.Bounded.{process_rtp_packet-IsBounded}
use mediamtx.FormatProcessor.Process.Units.{IsProcessed, process_unit-IsProcessed}
use mediamtx.FormatProcessor.Process.Scaling.{multiply_and_divide_lem}

abbrev types : NaluTypes
types = record {
  type_idr = 5;
  type_sps = 7;
  type_pps = 8;
  type_access_unit_delimiter = 9;
  type_stap_a = 24;
}

abbrev old_params : Params
old_params = record { sps = some (7 ∷ (1 ∷ [])); pps = some (8 ∷ (1 ∷ [])) }

abbrev new_sps : Nalu
new_sps = 7 ∷ (2 ∷ [])

abbrev delimiter : Nalu
delimiter = 9 ∷ []

abbrev key : Nalu
key = 5 ∷ (3 ∷ [])

abbrev access_unit : List Nalu
access_unit = delimiter ∷ (new_sps ∷ (key ∷ []))

remux_access_unit_lem_example :
    remux_access_unit types old_params access_unit
    ≡ some ((7 ∷ (1 ∷ [])) ∷ ((8 ∷ (1 ∷ [])) ∷ (key ∷ [])))
remux_access_unit_lem_example =
    remux_access_unit_lem types old_params access_unit (refl, (refl, (refl, tt)))

update_track_parameters_from_au_lem_example :
    update_track_parameters_from_au types access_unit old_params
    ≡ some (record { sps = some new_sps; pps = some (8 ∷ (1 ∷ [])) })
update_track_parameters_from_au_lem_example =
    update_track_parameters_from_au_lem types access_unit old_params (λ e. omega (arith, e))
      (refl, (refl, (refl, tt)))

rtp_h264_extract_params_total_example : rtp_h264_extract_params types (24 ∷ (0 ∷ (9 ∷ []))) ≢ none
rtp_h264_extract_params_total_example = rtp_h264_extract_params_total types (24 ∷ (0 ∷ (9 ∷ [])))

rtp_h264_extract_params-aggregated_example :
    rtp_h264_extract_params types (24 ∷ aggregated types (new_sps ∷ (key ∷ [])))
    ≡ some (record { sps = some new_sps; pps = none })
rtp_h264_extract_params-aggregated_example =
    rtp_h264_extract_params-aggregated types 24 (new_sps ∷ (key ∷ [])) (λ e. omega (arith, e)) refl
      (λ e. omega (arith, e)) (λ e. omega (arith, e))
      ((refl, omega arith), ((refl, omega arith), tt))

-- The product of this duration and the rate does not fit in an int64.
multiply_and_divide_lem_example :
    multiply_and_divide 200000000000000 90000 second ≡ 200000000000000 * 90000 / second
multiply_and_divide_lem_example =
    multiply_and_divide_lem 200000000000000 90000 second (omega arith) (omega arith) (omega arith)
      (omega arith)

-- A library that sends one NAL unit in a packet, and fails where one is too large.
abbrev single : Nalu → Packet
single nalu = record {
  padding = false;
  padding_size = 0;
  sequence_number = 0;
  timestamp = 0;
  ssrc = 1;
  payload = nalu;
}

abbrev packetize : ℕ → List Nalu → Option (List Packet)
packetize max [] = some []
packetize max (nalu ∷ au) =
    let rest = packetize max au in
    if leb (length nalu) max
    then elim rest [ none ↦ none | some pkts ↦ some (single nalu ∷ pkts) ]
    else none

abbrev depacketize : List ℕ → Decoded
depacketize [] = decode_error
depacketize (b ∷ bs) = decoded ((b ∷ bs) ∷ [])

abbrev size : Packet → ℕ
size pkt = 12 + length pkt.payload + pkt.padding_size

abbrev library : RtpLibrary
library = record {
  Encoder = ℕ;
  Decoder = Unit;
  init = λ o. (if o.payload_max_size == 0 then 1460 else o.payload_max_size, true);
  encode = λ e au. (e, packetize e au);
  new_decoder = some tt;
  decode = λ d pkt. (tt, depacketize pkt.payload);
  marshal_size = size;
}

packetize-none :
    (max : ℕ) (nalu : Nalu) (au : List Nalu) (pkts : List Packet)
    → packetize max au ≡ none
    → packetize max (nalu ∷ au) ≢ some pkts
packetize-none max nalu au pkts o e = ground (arith, o, e)

packetize-some :
    (max : ℕ) (nalu : Nalu) (au : List Nalu) (pkts ps : List Packet)
    → packetize max au ≡ some ps
    → packetize max (nalu ∷ au) ≡ some pkts
    → (length nalu ≤ max) × (single nalu ∷ ps ≡ pkts)
packetize-some max nalu au pkts ps o e = ground (arith, o, e)

packetize_small :
    (max : ℕ) (au : List Nalu) (pkts : List Packet)
    → packetize max au ≡ some pkts
    → All (λ pkt. size pkt ≤ max + 12) pkts
packetize_small max [] [] e = tt
packetize_small max [] (pkt ∷ pkts) e = cc
packetize_small max (nalu ∷ au) pkts e = elim (Option-cases (packetize max au)) [
  | inl o ↦ absurd (packetize-none max nalu au pkts o e)
  | inr (ps, o) ↦
      let (l, q) = packetize-some max nalu au pkts ps o e in
      subst (λ qs. All (λ pkt. size pkt ≤ max + 12) qs) q
        (omega (arith, l), packetize_small max au ps o)
]

init_keeps : (n : ℕ) → 3 ≤ n → (if n == 0 then 1460 else n) ≡ n
init_keeps n h = ground (arith, h)

abbrev access_unit_of : Decoded → List Nalu
access_unit_of (decoded au) = au
access_unit_of more_packets_needed = []
access_unit_of decode_error = []

depacketize-IsUnit :
    (payload : List ℕ) (au : List Nalu) → depacketize payload ≡ decoded au → IsUnit au
depacketize-IsUnit [] au e = cc
depacketize-IsUnit (b ∷ bs) au e = subst IsUnit (ap access_unit_of e) (refl, tt)

abbrev laws : RtpLaws library
laws = record {
  max_of = λ e. e;
  max_of-init = λ o h. init_keeps o.payload_max_size h;
  max_of-encode = λ e au. refl;
  encode_small = λ e au pkts h q. packetize_small e au pkts q;
  marshal_size-timestamp = λ pkt ts. refl;
  decode-IsUnit = λ d pkt au q. depacketize-IsUnit pkt.payload au q;
}

abbrev packet : Packet
packet = record {
  padding = true;
  padding_size = 4;
  sequence_number = 65535;
  timestamp = 9;
  ssrc = 1;
  payload = 5 ∷ (3 ∷ []);
}

abbrev processor : Processor types library
processor = record {
  udp_max_payload_size = 1472;
  clock_rate = 90000;
  format = no_params;
  encoder = none;
  decoder = none;
}

process_rtp_packet-IsBounded_example :
    IsBounded types library laws 1472 (process_rtp_packet types library true 0 packet processor)
process_rtp_packet-IsBounded_example =
    process_rtp_packet-IsBounded types library laws true 0 packet processor (omega arith) tt

process_unit-IsProcessed_example :
    IsProcessed types library
      (record { sps = some new_sps; pps = some (8 ∷ (1 ∷ [])) })
      (new_sps ∷ ((8 ∷ (1 ∷ [])) ∷ (key ∷ [])))
      (process_unit types library
        (record { rtp_packets = []; pts = 1000000000; au = access_unit })
        (record processor { format = old_params; encoder = some 1460 }))
process_unit-IsProcessed_example =
    process_unit-IsProcessed types library
      (record { rtp_packets = []; pts = 1000000000; au = access_unit })
      (record processor { format = old_params; encoder = some 1460 }) 1460 (λ e. omega (arith, e))
      (refl, (refl, (refl, tt))) refl
