-- ===== src/Rtmp/Codec/RoundTrip.antt =====
-- Messages of every kind are read as they were written.
use mathlib.Core.Path.{subst}
use mediamtx.Base.{
  Bool, String, ℕ, ◌/◌, ◌%◌, ◌<◌, ◌≡◌, ◌∙◌, ap, ◌⊎◌, inl, inr, refl, List, [], ◌∷◌, ◌==◌, true,
  false, if◌then◌else◌, arith, length, some,
}
use mediamtx.Rtmp.Bytes.{IsU32, byte_at, be32_split}
use mediamtx.Rtmp.Error.{Error}
use mediamtx.Rtmp.RawMessage.Message.{Message}
use mediamtx.Rtmp.Control as C
use mediamtx.Rtmp.Control.RoundTrip.{IsControl, read_control-marshal}
use mediamtx.Rtmp.Media.{Audio, Video, marshal_audio, marshal_video, unmarshal_video}
use mediamtx.Rtmp.Media.RoundTrip.{
  IsCompressed, IsVideo, unmarshal_audio-marshal_audio, unmarshal_video-marshal_video, video_body,
}
use mediamtx.Rtmp.Extended.{
  SequenceStart, CodedFrames, FramesX, marshal_sequence_start, marshal_coded_frames,
  marshal_frames_x,
}
use mediamtx.Rtmp.Extended.RoundTrip.{
  IsCodedFrames, sequence_start_body, frames_x_body, coded_frames_body,
  unmarshal_sequence_start-marshal_sequence_start, unmarshal_frames_x-marshal_frames_x,
  unmarshal_coded_frames-marshal_coded_frames,
}
use mediamtx.Rtmp.Amf.{
  Amf, Command, DataMessage, command_values, command_parts, marshal_command, unmarshal_command,
  marshal_data, unmarshal_data,
}
use mediamtx.Rtmp.Codec.{
  Packet, control, command, data_message, audio, video, sequence_start, coded_frames, sequence_end,
  frames_x, metadata, mpeg2ts_sequence_start, mapped, is_four_cc, unmarshal_extended,
  unmarshal_any_video, unmarshal, marshal,
}
use Prim.Native.Nat.{bit_and, bit_or}

audio_type : (m : Audio) → (marshal_audio m).type ≡ 8
unfolding marshal_audio
audio_type m = refl

-- The first byte of a message that is not extended.
no_extension : (k : Bool) → bit_and (bit_or (if k then 16 else 32) 7) 0x80 ≡ 0
no_extension true = refl
no_extension false = refl

module _ (amf : Amf) where
  -- The AMF library reads the values of the message as it wrote them.
  pub record IsCommand (m : Command amf) : Type 0 where
    pub values : amf.parse (amf.fill (command_values amf m)) ≡ some (command_values amf m)
    pub name : amf.as_text (amf.text m.name) ≡ some m.name
    pub command_id : amf.as_number (amf.number m.command_id) ≡ some m.command_id
    pub arguments : 0 < length m.arguments

  -- The fields fit the format of the kind. Audio is compressed, since other audio is not read as it
  -- was written, and a command has an argument.
  abbrev pub IsPacket : Packet amf → Type 0
  IsPacket (control m) = IsControl m
  IsPacket (command m) = IsCommand m
  IsPacket (data_message m) = amf.parse (amf.fill m.payload) ≡ some m.payload
  IsPacket (audio m) = IsCompressed m
  IsPacket (video m) = IsVideo m
  IsPacket (sequence_start m) = (is_four_cc m.four_cc ≡ true) × (0 < length m.config)
  IsPacket (coded_frames m) = (is_four_cc m.four_cc ≡ true) × IsCodedFrames m
  IsPacket (frames_x m) = (is_four_cc m.four_cc ≡ true) × (0 < length m.payload)
  IsPacket _ = Unit

  command_parts_lem :
      (name : String) (id : ℕ) (vs : List amf.Value)
      → amf.as_text (amf.text name) ≡ some name
      → amf.as_number (amf.number id) ≡ some id
      → 0 < length vs
      → command_parts amf (amf.text name ∷ amf.number id ∷ vs) ≡ some (name, id, vs)
  unfolding command_parts
  command_parts_lem name id [] h k l = absurd (omega arith)
  command_parts_lem name id (v ∷ vs) h k l = ground (arith, h, k)

  unmarshal-command :
      (m : Command amf) → IsCommand m → unmarshal amf (marshal_command amf m) ≡ inr (command m)
  unfolding unmarshal unmarshal_command marshal_command
  unmarshal-command m v = ground (
    arith,
    v.values,
    command_parts_lem m.name m.command_id m.arguments v.name v.command_id v.arguments,
  )

  unmarshal-data :
      (m : DataMessage amf)
      → amf.parse (amf.fill m.payload) ≡ some m.payload
      → unmarshal amf (marshal_data amf m) ≡ inr (data_message m)
  unfolding unmarshal unmarshal_data marshal_data
  unmarshal-data m v = ground (arith, v)

  unmarshal-video : (raw : Message) → raw.type ≡ 9 → unmarshal amf raw ≡ unmarshal_any_video amf raw
  unfolding unmarshal
  unmarshal-video raw h = ground (arith, h)

  unmarshal_any_video-plain :
      (raw : Message) (m : Video)
      → raw.type ≡ 9
      → 4 < length raw.body
      → bit_and (byte_at raw.body 0) 0x80 ≡ 0
      → unmarshal_video raw ≡ inr m
      → unmarshal amf raw ≡ inr (video m)
  unfolding unmarshal_any_video
  unmarshal_any_video-plain raw m t l b e = unmarshal-video raw t ∙ ground arith

  unmarshal_any_video-extended :
      (raw : Message) (b f : ℕ) (rest : List ℕ)
      → raw.type ≡ 9
      → raw.body ≡ b ∷ f / 16777216 % 256 ∷ f / 65536 % 256 ∷ f / 256 % 256 ∷ f % 256 ∷ rest
      → IsU32 f
      → is_four_cc f ≡ true
      → (bit_and b 0x80 == 0) ≡ false
      → unmarshal amf raw ≡ unmarshal_extended amf (bit_and b 0x0f) raw
  unfolding unmarshal_any_video
  unmarshal_any_video-extended raw b f rest t e u c g =
      unmarshal-video raw t ∙ ground (arith, be32_split f)

  four_cc-IsU32 : (f : ℕ) → is_four_cc f ≡ true → IsU32 f
  four_cc-IsU32 f h = ground (arith, h)

  control_type : (m : C.ControlMessage) → (C.marshal m).type < 7
  unfolding C.marshal C.marshal_set_chunk_size C.marshal_acknowledge C.marshal_set_window_ack_size
      C.marshal_set_peer_bandwidth C.marshal_stream_begin C.marshal_stream_eof C.marshal_stream_dry
      C.marshal_stream_is_recorded C.marshal_ping_request C.marshal_ping_response
      C.marshal_set_buffer_length
  control_type (C.set_chunk_size v) = omega arith
  control_type _ = omega arith

  reads_control :
      (m : C.ControlMessage) → IsControl m → unmarshal amf (C.marshal m) ≡ inr (control m)
  unfolding unmarshal
  reads_control m v = ground (arith, control_type m, read_control-marshal m v)

  reads_audio : (m : Audio) → IsCompressed m → unmarshal amf (marshal_audio m) ≡ inr (audio m)
  unfolding unmarshal
  reads_audio m v = ground (arith, audio_type m, unmarshal_audio-marshal_audio m v)

  reads_video : (m : Video) → IsVideo m → unmarshal amf (marshal_video m) ≡ inr (video m)
  unfolding marshal_video
  reads_video m v =
      unmarshal_any_video-plain (marshal_video m) m refl (omega (arith, ap length (video_body m)))
        (ap (λ b. bit_and (byte_at b 0) 0x80) (video_body m)
          ∙ ap (λ c. bit_and (bit_or (if m.is_key_frame then 16 else 32) c) 0x80) v.codec
          ∙ no_extension m.is_key_frame)
        (unmarshal_video-marshal_video m v)

  reads_start :
      (m : SequenceStart)
      → is_four_cc m.four_cc ≡ true
      → 0 < length m.config
      → unmarshal amf (marshal_sequence_start m) ≡ inr (sequence_start m)
  unfolding unmarshal_extended marshal_sequence_start
  reads_start m c l =
      unmarshal_any_video-extended (marshal_sequence_start m) 0x80 m.four_cc m.config refl
        (sequence_start_body m) (four_cc-IsU32 _ c) c refl
      ∙ ap (mapped sequence_start)
          (unmarshal_sequence_start-marshal_sequence_start m (four_cc-IsU32 _ c) l)

  reads_frames_x :
      (m : FramesX)
      → is_four_cc m.four_cc ≡ true
      → 0 < length m.payload
      → unmarshal amf (marshal_frames_x m) ≡ inr (frames_x m)
  unfolding unmarshal_extended marshal_frames_x
  reads_frames_x m c l =
      unmarshal_any_video-extended (marshal_frames_x m) 0x83 m.four_cc m.payload refl
        (frames_x_body m) (four_cc-IsU32 _ c) c refl
      ∙ ap (mapped frames_x) (unmarshal_frames_x-marshal_frames_x m (four_cc-IsU32 _ c) l)

  reads_frames :
      (m : CodedFrames)
      → is_four_cc m.four_cc ≡ true
      → IsCodedFrames m
      → unmarshal amf (marshal_coded_frames m) ≡ inr (coded_frames m)
  unfolding unmarshal_extended marshal_coded_frames
  reads_frames m c l =
      unmarshal_any_video-extended (marshal_coded_frames m) 0x81 m.four_cc _ refl
        (coded_frames_body m) (four_cc-IsU32 _ c) c refl
      ∙ ap (mapped coded_frames) (unmarshal_coded_frames-marshal_coded_frames m l)

  -- What was marshalled, if anything, is read as the message.
  abbrev Reads : Error ⊎ Message → Packet amf → Type 0
  Reads (inl e) m = Unit
  Reads (inr raw) m = unmarshal amf raw ≡ inr m

  reads : (m : Packet amf) → IsPacket m → Reads (marshal amf m) m
  unfolding marshal
  reads (control m) v = reads_control m v
  reads (command m) v = unmarshal-command m v
  reads (data_message m) v = unmarshal-data m v
  reads (audio m) v = reads_audio m v
  reads (video m) v = reads_video m v
  reads (sequence_start m) v = reads_start m v.0 v.1
  reads (coded_frames m) v = reads_frames m v.0 v.1
  reads (sequence_end f) v = tt
  reads (frames_x m) v = reads_frames_x m v.0 v.1
  reads (metadata f) v = tt
  reads (mpeg2ts_sequence_start f) v = tt

  -- A message whose fields fit, and that can be marshalled, is read as it was marshalled. Audio is
  -- MPEG-1 or MPEG-4 audio, and a command has an argument. The AMF library is assumed to read the
  -- values of the message as it wrote them.
  pub unmarshal-marshal :
      (m : Packet amf) (raw : Message)
      → IsPacket m
      → marshal amf m ≡ inr raw
      → unmarshal amf raw ≡ inr m
  unmarshal-marshal m raw v e = subst (λ x. Reads x m) e (reads m v)
