-- ===== src/Rtmp/Extended.antt =====
-- The extended video messages of internal/protocols/rtmp/message, and its constants for codecs.
use mediamtx.Base.{
  ℕ, ◌+◌, ◌*◌, ◌||◌, ◌/◌, ◌%◌, ◌^◌, Bool, List, [], ◌∷◌, ◌==◌, ltb, not, if◌then◌else◌, ◌⊎◌, inl,
  inr, length, drop,
}
use mediamtx.Rtmp.Bytes.{byte_at, be24, be32, put_be24, put_be32, copied}
use mediamtx.Rtmp.Error.{Error, not_enough_bytes, invalid_body_size, not_implemented}
use mediamtx.Rtmp.RawMessage.Message.{Message, millisecond}
use Prim.Native.Nat.{bit_or}
pub mod RoundTrip

-- `'a'<<24 | 'v'<<16 | '0'<<8 | '1'`, and so on: the codes have no bit in common.
abbrev pub four_cc_av1 : ℕ
four_cc_av1 = b'a' * 16777216 + b'v' * 65536 + b'0' * 256 + b'1'

abbrev pub four_cc_vp9 : ℕ
four_cc_vp9 = b'v' * 16777216 + b'p' * 65536 + b'0' * 256 + b'9'

abbrev pub four_cc_hevc : ℕ
four_cc_hevc = b'h' * 16777216 + b'v' * 65536 + b'c' * 256 + b'1'

pub record SequenceStart : Type 0 where
  pub chunk_stream_id : ℕ
  pub message_stream_id : ℕ
  pub four_cc : ℕ
  pub config : List ℕ

unfoldable pub unmarshal_sequence_start : Message → Error ⊎ SequenceStart
unmarshal_sequence_start raw =
    if ltb (length raw.body) 6
    then inl not_enough_bytes
    else inr (record {
      chunk_stream_id = raw.chunk_stream_id;
      message_stream_id = raw.message_stream_id;
      four_cc = be32 raw.body 1;
      config = drop 5 raw.body;
    })

unfoldable pub sequence_start_body_size : SequenceStart → ℕ
sequence_start_body_size m = 5 + length m.config

unfoldable pub marshal_sequence_start : SequenceStart → Message
marshal_sequence_start m = record {
  chunk_stream_id = m.chunk_stream_id;
  timestamp = 0;
  type = 9;
  message_stream_id = m.message_stream_id;
  body = copied (sequence_start_body_size m) (bit_or 0x80 0 ∷ put_be32 m.four_cc m.config);
}

pub record CodedFrames : Type 0 where
  pub chunk_stream_id : ℕ
  pub dts : ℕ
  pub message_stream_id : ℕ
  pub four_cc : ℕ
  pub pts_delta : ℕ
  pub payload : List ℕ

unfoldable pub unmarshal_coded_frames : Message → Error ⊎ CodedFrames
unmarshal_coded_frames raw =
    let f = be32 raw.body 1 in
    let hevc = f == four_cc_hevc in
    if ltb (length raw.body) 8
    then inl not_enough_bytes
    else inr (record {
      chunk_stream_id = raw.chunk_stream_id;
      dts = raw.timestamp;
      message_stream_id = raw.message_stream_id;
      four_cc = f;
      pts_delta = if hevc then be24 raw.body 5 * millisecond else 0;
      payload = if hevc then drop 8 raw.body else drop 5 raw.body;
    })

unfoldable pub coded_frames_body_size : CodedFrames → ℕ
coded_frames_body_size m =
    if m.four_cc == four_cc_hevc then 8 + length m.payload else 5 + length m.payload

unfoldable pub marshal_coded_frames : CodedFrames → Message
marshal_coded_frames m = record {
  chunk_stream_id = m.chunk_stream_id;
  timestamp = m.dts;
  type = 9;
  message_stream_id = m.message_stream_id;
  body = copied (coded_frames_body_size m) (
      bit_or 0x80 1
      ∷ put_be32 m.four_cc (
          if m.four_cc == four_cc_hevc
          then put_be24 (m.pts_delta / millisecond % 2 ^ 32) m.payload
          else m.payload));
}

pub record FramesX : Type 0 where
  pub chunk_stream_id : ℕ
  pub dts : ℕ
  pub message_stream_id : ℕ
  pub four_cc : ℕ
  pub payload : List ℕ

unfoldable pub unmarshal_frames_x : Message → Error ⊎ FramesX
unmarshal_frames_x raw =
    if ltb (length raw.body) 6
    then inl not_enough_bytes
    else inr (record {
      chunk_stream_id = raw.chunk_stream_id;
      dts = raw.timestamp;
      message_stream_id = raw.message_stream_id;
      four_cc = be32 raw.body 1;
      payload = drop 5 raw.body;
    })

unfoldable pub frames_x_body_size : FramesX → ℕ
frames_x_body_size m = 5 + length m.payload

unfoldable pub marshal_frames_x : FramesX → Message
marshal_frames_x m = record {
  chunk_stream_id = m.chunk_stream_id;
  timestamp = m.dts;
  type = 9;
  message_stream_id = m.message_stream_id;
  body = copied (frames_x_body_size m) (bit_or 0x80 3 ∷ put_be32 m.four_cc m.payload);
}

-- A sequence end has its codec alone, and no `Marshal`.
unfoldable pub unmarshal_sequence_end : Message → Error ⊎ ℕ
unmarshal_sequence_end raw =
    if not (length raw.body == 5) then inl invalid_body_size else inr (be32 raw.body 1)

-- Metadata and the start of an MPEG-2 TS sequence are refused in any case.
unfoldable pub unmarshal_metadata : Message → Error ⊎ ℕ
unmarshal_metadata raw =
    if not (length raw.body == 5) then inl invalid_body_size else inl not_implemented

unfoldable pub unmarshal_mpeg2ts_sequence_start : Message → Error ⊎ ℕ
unmarshal_mpeg2ts_sequence_start raw =
    if not (length raw.body == 5) then inl invalid_body_size else inl not_implemented
