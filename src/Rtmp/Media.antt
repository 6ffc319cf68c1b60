-- ===== src/Rtmp/Media.antt =====
-- internal/protocols/rtmp/message/audio.go and video.go.
pub mod RoundTrip
use mediamtx.Base.{
  ℕ, ◌+◌, ◌*◌, ◌||◌, ◌/◌, ◌%◌, ◌^◌, Bool, true, false, List, [], ◌∷◌, ◌==◌, ltb, not, if◌then◌else◌,
  ◌⊎◌, inl, inr, length, drop,
}
use mediamtx.Rtmp.Bytes.{byte_at, be24, put_be24, copied}
use mediamtx.Rtmp.Error.{
  Error, invalid_body_size, unsupported_audio_codec, unsupported_audio_type,
  unsupported_video_codec, unsupported_video_type,
}
use mediamtx.Rtmp.RawMessage.Message.{Message, millisecond}
use Prim.Native.Nat.{bit_and, bit_or}

pub record Audio : Type 0 where
  pub chunk_stream_id : ℕ
  pub dts : ℕ
  pub message_stream_id : ℕ
  pub codec : ℕ
  pub rate : ℕ
  pub depth : ℕ
  pub is_stereo : Bool
  pub aac_type : ℕ
  pub payload : List ℕ

abbrev pub codec_mpeg1_audio : ℕ
codec_mpeg1_audio = 2

abbrev pub codec_lpcm : ℕ
codec_lpcm = 3

abbrev pub codec_pcma : ℕ
codec_pcma = 7

abbrev pub codec_pcmu : ℕ
codec_pcmu = 8

abbrev pub codec_mpeg4_audio : ℕ
codec_mpeg4_audio = 10

abbrev pub is_audio_codec : ℕ → Bool
is_audio_codec c =
    c == codec_mpeg4_audio
    || (c == codec_mpeg1_audio || (c == codec_pcma || (c == codec_pcmu || c == codec_lpcm)))

-- The fields of the first byte and the first ones of the raw message.
abbrev pub audio_of : Message → ℕ → List ℕ → Audio
audio_of raw aac_type payload =
    let b = byte_at raw.body 0 in
    record {
      chunk_stream_id = raw.chunk_stream_id;
      dts = raw.timestamp;
      message_stream_id = raw.message_stream_id;
      codec = b / 16;
      rate = bit_and (b / 4) 0x03;
      depth = bit_and (b / 2) 0x01;
      is_stereo = not (bit_and b 0x01 == 0);
      aac_type = aac_type;
      payload = payload;
    }

unfoldable pub unmarshal_audio : Message → Error ⊎ Audio
unmarshal_audio raw =
    let b = byte_at raw.body 0 in
    let t = byte_at raw.body 1 in
    if ltb (length raw.body) 2
    then inl invalid_body_size
    else if not (is_audio_codec (b / 16))
    then inl unsupported_audio_codec
    else if b / 16 == codec_mpeg4_audio
    then if not (t == 0 || t == 1)
      then inl unsupported_audio_type
      else inr (audio_of raw t (drop 2 raw.body))
    else inr (audio_of raw 0 (drop 1 raw.body))

unfoldable pub audio_body_size : Audio → ℕ
audio_body_size m =
    if m.codec == codec_mpeg1_audio then 1 + length m.payload else 2 + length m.payload

-- `Codec<<4 | Rate<<2 | Depth<<1` on bytes, and `|= 1` for stereo.
unfoldable pub audio_first_byte : Audio → ℕ
audio_first_byte m =
    let b = bit_or (bit_or (m.codec * 16 % 256) (m.rate * 4 % 256)) (m.depth * 2 % 256) in
    if m.is_stereo then bit_or b 1 else b

unfoldable pub marshal_audio : Audio → Message
marshal_audio m = record {
  chunk_stream_id = m.chunk_stream_id;
  timestamp = m.dts;
  type = 8;
  message_stream_id = m.message_stream_id;
  body = copied (audio_body_size m) (
      audio_first_byte m
      ∷ (if m.codec == codec_mpeg4_audio then m.aac_type ∷ m.payload else m.payload));
}

pub record Video : Type 0 where
  pub chunk_stream_id : ℕ
  pub dts : ℕ
  pub message_stream_id : ℕ
  pub codec : ℕ
  pub is_key_frame : Bool
  pub type : ℕ
  pub pts_delta : ℕ
  pub payload : List ℕ

abbrev pub codec_h264 : ℕ
codec_h264 = 7

unfoldable pub unmarshal_video : Message → Error ⊎ Video
unmarshal_video raw =
    let b = byte_at raw.body 0 in
    let t = byte_at raw.body 1 in
    if ltb (length raw.body) 5
    then inl invalid_body_size
    else if not (bit_and b 0x0f == codec_h264)
    then inl unsupported_video_codec
    else if not (t == 0 || (t == 1 || t == 2))
    then inl unsupported_video_type
    else inr (record {
      chunk_stream_id = raw.chunk_stream_id;
      dts = raw.timestamp;
      message_stream_id = raw.message_stream_id;
      codec = bit_and b 0x0f;
      is_key_frame = b / 16 == 1;
      type = t;
      pts_delta = be24 raw.body 2 * millisecond;
      payload = drop 5 raw.body;
    })

unfoldable pub video_body_size : Video → ℕ
video_body_size m = 5 + length m.payload

unfoldable pub marshal_video : Video → Message
marshal_video m = record {
  chunk_stream_id = m.chunk_stream_id;
  timestamp = m.dts;
  type = 9;
  message_stream_id = m.message_stream_id;
  body = copied (video_body_size m) (
      bit_or (if m.is_key_frame then 16 else 32) m.codec
      ∷ m.type
      ∷ put_be24 (m.pts_delta / millisecond % 2 ^ 32) m.payload);
}
