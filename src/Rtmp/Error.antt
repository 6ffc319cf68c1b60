-- ===== src/Rtmp/Error.antt =====
-- The errors of internal/protocols/rtmp/message.

-- `other_codec` stands for a message that is none of the kind that is being read. `invalid_amf` is
-- an error of the AMF library, `raw` one of the transport.
pub data Error : Type 0 where
  unexpected_chunk_stream_id invalid_body_size : Error
  not_enough_bytes invalid_user_control_type invalid_message_type : Error
  unsupported_audio_codec unsupported_audio_type : Error
  unsupported_video_codec unsupported_video_type : Error
  invalid_four_cc invalid_extended_type : Error
  not_implemented : Error
  invalid_amf invalid_command_payload : Error
  other_codec : Error
