-- ===== src/Rtmp/Media/RoundTrip.antt =====
-- Audio and video messages are read as they were written; uncompressed audio gets a byte more.
use mediamtx.Base.{
  ℕ, ◌+◌, ◌*◌, ◌/◌, ◌%◌, ◌<◌, ◌≡◌, ◌⊎◌, inl, inr, refl, ap, sym, ◌∙◌, Bool, true, false, List, [],
  ◌∷◌, ◌++◌, ◌==◌, if◌then◌else◌, arith, length, ◌≢◌, ◌^◌, length-append, ◌||◌,
}
use mediamtx.Rtmp.Bytes.{
  same_below, same_below→eq, be24_split, put_be24, copied-whole, copied-short,
}
use mediamtx.Rtmp.RawMessage.Message.{Message, millisecond}
use mediamtx.Rtmp.Media.{
  Audio, Video, codec_mpeg4_audio, codec_mpeg1_audio, codec_lpcm, codec_pcma, codec_pcmu,
  codec_h264, unmarshal_audio, marshal_audio, audio_body_size, audio_first_byte, unmarshal_video,
  marshal_video, video_body_size, is_audio_codec,
}
use Prim.Native.Nat.{bit_and, bit_or}

bit_and-0x03 : (b : ℕ) → b < 64 → bit_and b 0x03 ≡ b % 4
unfolding same_below
bit_and-0x03 = same_below→eq _ _ 64 refl

bit_and-0x01 : (b : ℕ) → b < 256 → bit_and b 0x01 ≡ b % 2
unfolding same_below
bit_and-0x01 = same_below→eq _ _ 256 refl

bit_and-0x0f : (b : ℕ) → b < 256 → bit_and b 0x0f ≡ b % 16
unfolding same_below
bit_and-0x0f = same_below→eq _ _ 256 refl

bit_or-16 : (i : ℕ) → i < 16 → bit_or 16 i ≡ 16 + i
unfolding same_below
bit_or-16 = same_below→eq _ _ 16 refl

bit_or-32 : (i : ℕ) → i < 16 → bit_or 32 i ≡ 32 + i
unfolding same_below
bit_or-32 = same_below→eq _ _ 16 refl

-- `| 1` on an even byte.
bit_or-1 : (i : ℕ) → i < 128 → bit_or (i * 2) 1 ≡ i * 2 + 1
unfolding same_below
bit_or-1 = same_below→eq _ _ 128 refl

-- A codec, a rate and a depth in one number.
bit_or-fields :
    (i : ℕ)
    → i < 128
    → bit_or (bit_or (i / 8 * 16 % 256) (i / 2 % 4 * 4 % 256)) (i % 2 * 2 % 256) ≡ i * 2
unfolding same_below
bit_or-fields = same_below→eq _ _ 128 refl

-- The fields fit the first byte.
pub record IsAudio (m : Audio) : Type 0 where
  pub codec : m.codec < 16
  pub rate : m.rate < 4
  pub depth : m.depth < 2

abbrev stereo_bit : Bool → ℕ
stereo_bit true = 1
stereo_bit false = 0

audio_first_byte_lem :
    (m : Audio)
    → IsAudio m
    → audio_first_byte m ≡ m.codec * 16 + m.rate * 4 + m.depth * 2 + stereo_bit m.is_stereo
unfolding audio_first_byte
audio_first_byte_lem m v =
    let i : ℕ = m.codec * 8 + m.rate * 2 + m.depth in
    let c : i / 8 * 16 % 256 ≡ m.codec * 16 % 256 = omega (arith, v.codec, v.rate, v.depth) in
    let r : i / 2 % 4 * 4 % 256 ≡ m.rate * 4 % 256 = omega (arith, v.codec, v.rate, v.depth) in
    let d : i % 2 * 2 % 256 ≡ m.depth * 2 % 256 = omega (arith, v.codec, v.rate, v.depth) in
    let low : i < 128 = omega (arith, v.codec, v.rate, v.depth) in
    let e : bit_or (bit_or (m.codec * 16 % 256) (m.rate * 4 % 256)) (m.depth * 2 % 256) ≡ i * 2 =
      ap (λ x. bit_or (bit_or x (m.rate * 4 % 256)) (m.depth * 2 % 256)) (sym c)
      ∙ ap (λ x. bit_or (bit_or (i / 8 * 16 % 256) x) (m.depth * 2 % 256)) (sym r)
      ∙ ap (λ x. bit_or (bit_or (i / 8 * 16 % 256) (i / 2 % 4 * 4 % 256)) x) (sym d)
      ∙ bit_or-fields i low in
    ground (arith, e, ap (λ x. bit_or x 1) e, bit_or-1 i)

-- The message with a given body.
abbrev with_body : Audio → List ℕ → Message
with_body m body = record {
  chunk_stream_id = m.chunk_stream_id;
  timestamp = m.dts;
  type = 8;
  message_stream_id = m.message_stream_id;
  body = body;
}

module _ (m : Audio) (v : IsAudio m) where
  first_byte_masks :
      (bit_and (audio_first_byte m / 4) 0x03 ≡ m.rate)
      × (bit_and (audio_first_byte m / 2) 0x01 ≡ m.depth)
      × (bit_and (audio_first_byte m) 0x01 ≡ stereo_bit m.is_stereo)
      × (audio_first_byte m / 16 ≡ m.codec)
  first_byte_masks =
      let b = audio_first_byte m in
      let e = audio_first_byte_lem m v in
      elim m.is_stereo
          as (λ x.
            b ≡ m.codec * 16 + m.rate * 4 + m.depth * 2 + stereo_bit x
            → (bit_and (b / 4) 0x03 ≡ m.rate)
              × (bit_and (b / 2) 0x01 ≡ m.depth)
              × (bit_and b 0x01 ≡ stereo_bit x)
              × (b / 16 ≡ m.codec)) [
                | true ↦ λ e. omega (
                  arith,
                  v.codec,
                  v.rate,
                  v.depth,
                  bit_and-0x03 (b / 4),
                  bit_and-0x01 (b / 2),
                  bit_and-0x01 b,
                )
                | false ↦ λ e. omega (
                  arith,
                  v.codec,
                  v.rate,
                  v.depth,
                  bit_and-0x03 (b / 4),
                  bit_and-0x01 (b / 2),
                  bit_and-0x01 b,
                )
              ]
        e

  -- A compressed message: MPEG-1 or MPEG-4 audio.
  mpeg4_body :
      m.codec ≡ codec_mpeg4_audio
      → marshal_audio m ≡ with_body m (audio_first_byte m ∷ m.aac_type ∷ m.payload)
  unfolding marshal_audio audio_body_size
  mpeg4_body h = ground (
    arith,
    copied-whole (2 + length m.payload) (audio_first_byte m ∷ m.aac_type ∷ m.payload) (omega arith),
  )

  plain_body :
      m.codec ≢ codec_mpeg4_audio
      → marshal_audio m
        ≡ with_body m (
            audio_first_byte m
            ∷ (if m.codec == codec_mpeg1_audio then m.payload else m.payload ++ (0 ∷ [])))
  unfolding marshal_audio audio_body_size
  plain_body h = ground (
    arith,
    copied-whole (1 + length m.payload) (audio_first_byte m ∷ m.payload) (omega arith),
    copied-short (2 + length m.payload) (audio_first_byte m ∷ m.payload) (omega arith),
  )

  unmarshal-mpeg4 :
      m.codec ≡ codec_mpeg4_audio → m.aac_type < 2 → unmarshal_audio (marshal_audio m) ≡ inr m
  unfolding unmarshal_audio
  unmarshal-mpeg4 h t =
      let (r, d, s, c) = first_byte_masks in
      ap unmarshal_audio (mpeg4_body h) ∙ ground (arith, r, d, s, c)

  unmarshal-plain :
      (payload : List ℕ)
      → is_audio_codec m.codec ≡ true
      → m.codec ≢ codec_mpeg4_audio
      → m.aac_type ≡ 0
      → 0 < length payload
      → unmarshal_audio (with_body m (audio_first_byte m ∷ payload))
        ≡ inr (record m { payload = payload })
  unfolding unmarshal_audio
  unmarshal-plain payload k n t l =
      let (r, d, s, c) = first_byte_masks in ground (arith, r, d, s, c)

-- What is read back from a compressed message: MPEG-4 audio of a known type, or MPEG-1 audio that
-- is not empty.
pub record IsCompressed (m : Audio) : Type 0 where
  pub first_byte : IsAudio m
  pub kind :
      ((m.codec ≡ codec_mpeg4_audio) × (m.aac_type < 2))
      ⊎ ((m.codec ≡ codec_mpeg1_audio) × (m.aac_type ≡ 0) × (0 < length m.payload))

-- A compressed audio message is read as it was marshalled.
pub unmarshal_audio-marshal_audio :
    (m : Audio) → IsCompressed m → unmarshal_audio (marshal_audio m) ≡ inr m
unmarshal_audio-marshal_audio m v = elim v.kind [
  | inl (h, t) ↦ unmarshal-mpeg4 m v.first_byte h t
  | inr (h, t, l) ↦
      ap unmarshal_audio (plain_body m v.first_byte (ground (arith, h)) ∙ ground (arith, h))
      ∙ unmarshal-plain m v.first_byte m.payload (ground (arith, h)) (ground (arith, h)) t l
]

-- Uncompressed audio: LPCM, PCMA and PCMU.
pub record IsUncompressed (m : Audio) : Type 0 where
  pub first_byte : IsAudio m
  pub codec : (m.codec == codec_lpcm || (m.codec == codec_pcma || m.codec == codec_pcmu)) ≡ true
  pub aac_type : m.aac_type ≡ 0

-- An uncompressed audio message is read with one zero byte more than its payload had.
pub unmarshal_audio-marshal_audio_uncompressed :
    (m : Audio)
    → IsUncompressed m
    → unmarshal_audio (marshal_audio m) ≡ inr (record m { payload = m.payload ++ (0 ∷ []) })
unmarshal_audio-marshal_audio_uncompressed m v =
    ap unmarshal_audio
      (plain_body m v.first_byte (ground (arith, v.codec)) ∙ ground (arith, v.codec))
    ∙ unmarshal-plain m v.first_byte (m.payload ++ (0 ∷ [])) (ground (arith, v.codec))
        (ground (arith, v.codec)) v.aac_type (omega (arith, length-append m.payload (0 ∷ [])))

-- The fields of a video message fit the format, and its delta counts whole milliseconds.
pub record IsVideo (m : Video) : Type 0 where
  pub codec : m.codec ≡ codec_h264
  pub type : m.type < 3
  pub whole : m.pts_delta / millisecond * millisecond ≡ m.pts_delta
  pub pts_delta : m.pts_delta / millisecond < 2 ^ 24

video_first_byte_lem :
    (k : Bool) (c : ℕ) → c < 16 → bit_or (if k then 16 else 32) c ≡ (if k then 16 else 32) + c
video_first_byte_lem true c h = bit_or-16 c h
video_first_byte_lem false c h = bit_or-32 c h

video_first_byte-lt : (k : Bool) (c : ℕ) → c < 16 → bit_or (if k then 16 else 32) c < 256
video_first_byte-lt true c h = omega (arith, bit_or-16 c h)
video_first_byte-lt false c h = omega (arith, bit_or-32 c h)

pub video_body :
    (m : Video)
    → (marshal_video m).body
      ≡ bit_or (if m.is_key_frame then 16 else 32) m.codec
        ∷ m.type
        ∷ put_be24 (m.pts_delta / millisecond % 2 ^ 32) m.payload
unfolding marshal_video video_body_size
video_body m = copied-whole (5 + length m.payload) _ (omega arith)

-- A video message is read as it was marshalled.
pub unmarshal_video-marshal_video :
    (m : Video) → IsVideo m → unmarshal_video (marshal_video m) ≡ inr m
unfolding unmarshal_video marshal_video video_body_size
unmarshal_video-marshal_video m v =
    let t : ℕ = m.pts_delta / millisecond % 2 ^ 32 in
    let b : ℕ = bit_or (if m.is_key_frame then 16 else 32) m.codec in
    rw (copied-whole (5 + length m.payload) (b ∷ m.type ∷ put_be24 t m.payload) (omega arith)) (
      ground (
        arith,
        video_first_byte_lem m.is_key_frame m.codec (omega (arith, v.codec)),
        bit_and-0x0f b (video_first_byte-lt m.is_key_frame m.codec (omega (arith, v.codec))),
        be24_split t,
      ))
