-- ===== src/Rtmp/Extended/RoundTrip.antt =====
-- Extended video messages are read as they were written.
use mediamtx.Base.{
  ℕ, ◌+◌, ◌*◌, ◌/◌, ◌%◌, ◌^◌, ◌<◌, ◌≡◌, ◌⊎◌, inl, inr, ◌∷◌, ◌==◌, false, if◌then◌else◌, arith,
  length,
}
use mediamtx.Rtmp.Bytes.{IsU32, be24_split, be32_split, put_be24, put_be32, copied-whole}
use mediamtx.Rtmp.RawMessage.Message.{millisecond}
use mediamtx.Rtmp.Extended.{
  SequenceStart, CodedFrames, FramesX, four_cc_hevc, unmarshal_sequence_start,
  marshal_sequence_start, sequence_start_body_size, unmarshal_coded_frames, marshal_coded_frames,
  coded_frames_body_size, unmarshal_frames_x, marshal_frames_x, frames_x_body_size,
}

pub sequence_start_body :
    (m : SequenceStart) → (marshal_sequence_start m).body ≡ 0x80 ∷ put_be32 m.four_cc m.config
unfolding marshal_sequence_start sequence_start_body_size
sequence_start_body m = copied-whole (5 + length m.config) _ (omega arith)

pub frames_x_body : (m : FramesX) → (marshal_frames_x m).body ≡ 0x83 ∷ put_be32 m.four_cc m.payload
unfolding marshal_frames_x frames_x_body_size
frames_x_body m = copied-whole (5 + length m.payload) _ (omega arith)

pub coded_frames_body :
    (m : CodedFrames)
    → (marshal_coded_frames m).body
      ≡ 0x81
        ∷ put_be32 m.four_cc (
            if m.four_cc == four_cc_hevc
            then put_be24 (m.pts_delta / millisecond % 2 ^ 32) m.payload
            else m.payload)
unfolding marshal_coded_frames coded_frames_body_size
coded_frames_body m = copied-whole _ _ (ground arith)

-- A sequence start whose configuration is not empty is read as it was marshalled.
pub unmarshal_sequence_start-marshal_sequence_start :
    (m : SequenceStart)
    → IsU32 m.four_cc
    → 0 < length m.config
    → unmarshal_sequence_start (marshal_sequence_start m) ≡ inr m
unfolding unmarshal_sequence_start marshal_sequence_start sequence_start_body_size
unmarshal_sequence_start-marshal_sequence_start m f l = ground (
  arith,
  copied-whole (5 + length m.config) (0x80 ∷ put_be32 m.four_cc m.config) (omega arith),
  be32_split m.four_cc,
)

-- So is a message of frames whose payload is not empty.
pub unmarshal_frames_x-marshal_frames_x :
    (m : FramesX)
    → IsU32 m.four_cc
    → 0 < length m.payload
    → unmarshal_frames_x (marshal_frames_x m) ≡ inr m
unfolding unmarshal_frames_x marshal_frames_x frames_x_body_size
unmarshal_frames_x-marshal_frames_x m f l = ground (
  arith,
  copied-whole (5 + length m.payload) (0x83 ∷ put_be32 m.four_cc m.payload) (omega arith),
  be32_split m.four_cc,
)

-- What is read back: with HEVC, a delta of whole milliseconds that fits; with another codec no delta
-- and at least three bytes.
pub record IsCodedFrames (m : CodedFrames) : Type 0 where
  pub four_cc : IsU32 m.four_cc
  pub kind :
      ((m.four_cc ≡ four_cc_hevc)
        × (m.pts_delta / millisecond * millisecond ≡ m.pts_delta)
        × (m.pts_delta / millisecond < 2 ^ 24))
      ⊎ (((m.four_cc == four_cc_hevc) ≡ false) × (m.pts_delta ≡ 0) × (2 < length m.payload))

-- Coded frames are read as they were marshalled.
pub unmarshal_coded_frames-marshal_coded_frames :
    (m : CodedFrames) → IsCodedFrames m → unmarshal_coded_frames (marshal_coded_frames m) ≡ inr m
unfolding unmarshal_coded_frames marshal_coded_frames coded_frames_body_size
unmarshal_coded_frames-marshal_coded_frames m v =
    let t : ℕ = m.pts_delta / millisecond % 2 ^ 32 in
    elim v.kind [
      | inl (h, w, l) ↦ ground (
        arith,
        copied-whole (8 + length m.payload) (0x81 ∷ put_be32 m.four_cc (put_be24 t m.payload))
            (omega arith),
        be32_split m.four_cc,
        be24_split t,
      )
      | inr (h, w, l) ↦ ground (
        arith,
        copied-whole (5 + length m.payload) (0x81 ∷ put_be32 m.four_cc m.payload) (omega arith),
        be32_split m.four_cc,
      )
    ]
