-- ===== src/Rtmp/Codec.antt =====
-- internal/protocols/rtmp/message: all messages, and allocateMessage of reader.go.
use mediamtx.Base.{
  ℕ, ◌+◌, ◌*◌, ◌||◌, Bool, List, [], ◌∷◌, ◌==◌, ltb, not, if◌then◌else◌, ◌⊎◌, inl, inr, length,
}
use mediamtx.Rtmp.Bytes.{byte_at, be32}
use mediamtx.Rtmp.Error.{
  Error, not_enough_bytes, invalid_four_cc, invalid_extended_type, not_implemented,
}
use mediamtx.Rtmp.RawMessage.Message.{Message}
use mediamtx.Rtmp.Control as C
use mediamtx.Rtmp.Control.{ControlMessage}
use mediamtx.Rtmp.Media.{
  Audio, Video, unmarshal_audio, marshal_audio, unmarshal_video, marshal_video,
}
use mediamtx.Rtmp.Extended.{
  SequenceStart, CodedFrames, FramesX, four_cc_av1, four_cc_vp9, four_cc_hevc,
  unmarshal_sequence_start, marshal_sequence_start, unmarshal_coded_frames, marshal_coded_frames,
  unmarshal_frames_x, marshal_frames_x, unmarshal_sequence_end, unmarshal_metadata,
  unmarshal_mpeg2ts_sequence_start,
}
use mediamtx.Rtmp.Amf.{
  Amf, Command, DataMessage, unmarshal_command, marshal_command, unmarshal_data, marshal_data,
}
use Prim.Native.Nat.{bit_and}
pub mod RoundTrip

module _ (amf : Amf) where
  pub data Packet : Type 0 where
    control : ControlMessage → Packet
    command : Command amf → Packet
    data_message : DataMessage amf → Packet
    audio : Audio → Packet
    video : Video → Packet
    sequence_start : SequenceStart → Packet
    coded_frames : CodedFrames → Packet
    sequence_end : ℕ → Packet
    frames_x : FramesX → Packet
    metadata : ℕ → Packet
    mpeg2ts_sequence_start : ℕ → Packet

abbrev pub mapped : {A B : Type 0} → (A → B) → Error ⊎ A → Error ⊎ B
mapped f (inl e) = inl e
mapped f (inr a) = inr (f a)

abbrev pub is_four_cc : ℕ → Bool
is_four_cc f = f == four_cc_av1 || (f == four_cc_vp9 || f == four_cc_hevc)

module _ (amf : Amf) where
  unfoldable pub unmarshal_extended : ℕ → Message → Error ⊎ Packet amf
  unmarshal_extended type raw =
      if type == 0
      then mapped sequence_start (unmarshal_sequence_start raw)
      else if type == 1
      then mapped coded_frames (unmarshal_coded_frames raw)
      else if type == 2
      then mapped sequence_end (unmarshal_sequence_end raw)
      else if type == 3
      then mapped frames_x (unmarshal_frames_x raw)
      else if type == 4
      then mapped metadata (unmarshal_metadata raw)
      else if type == 5
      then mapped mpeg2ts_sequence_start (unmarshal_mpeg2ts_sequence_start raw)
      else inl invalid_extended_type

  unfoldable pub unmarshal_any_video : Message → Error ⊎ Packet amf
  unmarshal_any_video raw =
      let b = byte_at raw.body 0 in
      if ltb (length raw.body) 5
      then inl not_enough_bytes
      else if not (bit_and b 0x80 == 0)
      then if not (is_four_cc (be32 raw.body 1))
        then inl invalid_four_cc
        else unmarshal_extended (bit_and b 0x0f) raw
      else mapped video (unmarshal_video raw)

  -- `allocateMessage`, and the `Unmarshal` of what it allocates.
  unfoldable pub unmarshal : Message → Error ⊎ Packet amf
  unmarshal raw =
      if raw.type == 20
      then mapped command (unmarshal_command amf raw)
      else if raw.type == 18
      then mapped data_message (unmarshal_data amf raw)
      else if raw.type == 8
      then mapped audio (unmarshal_audio raw)
      else if raw.type == 9
      then unmarshal_any_video raw
      else mapped control (C.read_control raw)

  -- The three without a `Marshal` give an error.
  unfoldable pub marshal : Packet amf → Error ⊎ Message
  marshal (control m) = inr (C.marshal m)
  marshal (command m) = inr (marshal_command amf m)
  marshal (data_message m) = inr (marshal_data amf m)
  marshal (audio m) = inr (marshal_audio m)
  marshal (video m) = inr (marshal_video m)
  marshal (sequence_start m) = inr (marshal_sequence_start m)
  marshal (coded_frames m) = inr (marshal_coded_frames m)
  marshal (sequence_end f) = inl not_implemented
  marshal (frames_x m) = inr (marshal_frames_x m)
  marshal (metadata f) = inl not_implemented
  marshal (mpeg2ts_sequence_start f) = inl not_implemented
