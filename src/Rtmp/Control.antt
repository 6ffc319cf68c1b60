-- ===== src/Rtmp/Control.antt =====
-- internal/protocols/rtmp/message: the control messages, and their part of reader.go.
use mediamtx.Base.{
  ℕ, ◌+◌, ◌*◌, ◌||◌, ◌/◌, ◌%◌, List, [], ◌∷◌, ◌==◌, ltb, not, if◌then◌else◌, ◌⊎◌, inl, inr, length,
}
use mediamtx.Rtmp.Bytes.{byte_at, be32, put_be32}
use mediamtx.Rtmp.Error.{
  Error, unexpected_chunk_stream_id, invalid_body_size, not_enough_bytes, invalid_user_control_type,
  invalid_message_type, other_codec,
}
use mediamtx.Rtmp.RawMessage.Message.{Message}
pub mod RoundTrip
pub mod Accepted
mod Examples

pub data ControlMessage : Type 0 where
  set_chunk_size : ℕ → ControlMessage
  acknowledge : ℕ → ControlMessage
  set_window_ack_size : ℕ → ControlMessage
  set_peer_bandwidth : ℕ → ℕ → ControlMessage
  user_control_stream_begin : ℕ → ControlMessage
  user_control_stream_eof : ℕ → ControlMessage
  user_control_stream_dry : ℕ → ControlMessage
  user_control_stream_is_recorded : ℕ → ControlMessage
  user_control_ping_request : ℕ → ControlMessage
  user_control_ping_response : ℕ → ControlMessage
  user_control_set_buffer_length : ℕ → ℕ → ControlMessage

-- `uint16` in front of what follows.
abbrev pub put_be16 : ℕ → List ℕ → List ℕ
put_be16 v l = (v / 256 % 256) ∷ (v % 256) ∷ l

-- A raw message on the chunk stream of control messages.
abbrev pub control_message : ℕ → List ℕ → Message
control_message type body = record {
  chunk_stream_id = 2;
  timestamp = 0;
  type = type;
  message_stream_id = 0;
  body = body;
}

-- The checks that each `Unmarshal` starts with.
abbrev pub guarded : Message → ℕ → ControlMessage → Error ⊎ ControlMessage
guarded raw size m =
    if not (raw.chunk_stream_id == 2)
    then inl unexpected_chunk_stream_id
    else if not (length raw.body == size)
    then inl invalid_body_size
    else inr m

unfoldable pub unmarshal_set_chunk_size : Message → Error ⊎ ControlMessage
unmarshal_set_chunk_size raw = guarded raw 4 (set_chunk_size (be32 raw.body 0))

unfoldable pub marshal_set_chunk_size : ℕ → Message
marshal_set_chunk_size value = control_message 1 (put_be32 value [])

unfoldable pub unmarshal_acknowledge : Message → Error ⊎ ControlMessage
unmarshal_acknowledge raw = guarded raw 4 (acknowledge (be32 raw.body 0))

unfoldable pub marshal_acknowledge : ℕ → Message
marshal_acknowledge value = control_message 3 (put_be32 value [])

unfoldable pub unmarshal_set_window_ack_size : Message → Error ⊎ ControlMessage
unmarshal_set_window_ack_size raw = guarded raw 4 (set_window_ack_size (be32 raw.body 0))

unfoldable pub marshal_set_window_ack_size : ℕ → Message
marshal_set_window_ack_size value = control_message 5 (put_be32 value [])

unfoldable pub unmarshal_set_peer_bandwidth : Message → Error ⊎ ControlMessage
unmarshal_set_peer_bandwidth raw =
    guarded raw 5 (set_peer_bandwidth (be32 raw.body 0) (byte_at raw.body 4))

unfoldable pub marshal_set_peer_bandwidth : ℕ → ℕ → Message
marshal_set_peer_bandwidth value type = control_message 6 (put_be32 value (type ∷ []))

unfoldable pub unmarshal_stream_begin : Message → Error ⊎ ControlMessage
unmarshal_stream_begin raw = guarded raw 6 (user_control_stream_begin (be32 raw.body 2))

unfoldable pub marshal_stream_begin : ℕ → Message
marshal_stream_begin stream_id = control_message 4 (put_be16 0 (put_be32 stream_id []))

unfoldable pub unmarshal_stream_eof : Message → Error ⊎ ControlMessage
unmarshal_stream_eof raw = guarded raw 6 (user_control_stream_eof (be32 raw.body 2))

unfoldable pub marshal_stream_eof : ℕ → Message
marshal_stream_eof stream_id = control_message 4 (put_be16 1 (put_be32 stream_id []))

unfoldable pub unmarshal_stream_dry : Message → Error ⊎ ControlMessage
unmarshal_stream_dry raw = guarded raw 6 (user_control_stream_dry (be32 raw.body 2))

unfoldable pub marshal_stream_dry : ℕ → Message
marshal_stream_dry stream_id = control_message 4 (put_be16 2 (put_be32 stream_id []))

unfoldable pub unmarshal_stream_is_recorded : Message → Error ⊎ ControlMessage
unmarshal_stream_is_recorded raw = guarded raw 6 (user_control_stream_is_recorded (be32 raw.body 2))

unfoldable pub marshal_stream_is_recorded : ℕ → Message
marshal_stream_is_recorded stream_id = control_message 4 (put_be16 4 (put_be32 stream_id []))

unfoldable pub unmarshal_ping_request : Message → Error ⊎ ControlMessage
unmarshal_ping_request raw = guarded raw 6 (user_control_ping_request (be32 raw.body 2))

unfoldable pub marshal_ping_request : ℕ → Message
marshal_ping_request server_time = control_message 4 (put_be16 6 (put_be32 server_time []))

unfoldable pub unmarshal_ping_response : Message → Error ⊎ ControlMessage
unmarshal_ping_response raw = guarded raw 6 (user_control_ping_response (be32 raw.body 2))

unfoldable pub marshal_ping_response : ℕ → Message
marshal_ping_response server_time = control_message 4 (put_be16 7 (put_be32 server_time []))

unfoldable pub unmarshal_set_buffer_length : Message → Error ⊎ ControlMessage
unmarshal_set_buffer_length raw =
    guarded raw 10 (user_control_set_buffer_length (be32 raw.body 2) (be32 raw.body 6))

unfoldable pub marshal_set_buffer_length : ℕ → ℕ → Message
marshal_set_buffer_length stream_id buffer_length =
    control_message 4 (put_be16 3 (put_be32 stream_id (put_be32 buffer_length [])))

unfoldable pub marshal : ControlMessage → Message
marshal (set_chunk_size v) = marshal_set_chunk_size v
marshal (acknowledge v) = marshal_acknowledge v
marshal (set_window_ack_size v) = marshal_set_window_ack_size v
marshal (set_peer_bandwidth v t) = marshal_set_peer_bandwidth v t
marshal (user_control_stream_begin v) = marshal_stream_begin v
marshal (user_control_stream_eof v) = marshal_stream_eof v
marshal (user_control_stream_dry v) = marshal_stream_dry v
marshal (user_control_stream_is_recorded v) = marshal_stream_is_recorded v
marshal (user_control_ping_request v) = marshal_ping_request v
marshal (user_control_ping_response v) = marshal_ping_response v
marshal (user_control_set_buffer_length v l) = marshal_set_buffer_length v l

-- The message that `allocateMessage` chooses by the user control type, and its `Unmarshal`.
unfoldable pub read_user_control : ℕ → Message → Error ⊎ ControlMessage
read_user_control type raw =
    if type == 0
    then unmarshal_stream_begin raw
    else if type == 1
    then unmarshal_stream_eof raw
    else if type == 2
    then unmarshal_stream_dry raw
    else if type == 3
    then unmarshal_set_buffer_length raw
    else if type == 4
    then unmarshal_stream_is_recorded raw
    else if type == 6
    then unmarshal_ping_request raw
    else if type == 7
    then unmarshal_ping_response raw
    else inl invalid_user_control_type

-- Likewise by the message type.
unfoldable pub read_control : Message → Error ⊎ ControlMessage
read_control raw =
    if raw.type == 1
    then unmarshal_set_chunk_size raw
    else if raw.type == 3
    then unmarshal_acknowledge raw
    else if raw.type == 5
    then unmarshal_set_window_ack_size raw
    else if raw.type == 6
    then unmarshal_set_peer_bandwidth raw
    else if raw.type == 4
    then if ltb (length raw.body) 2
      then inl not_enough_bytes
      else read_user_control (byte_at raw.body 0 * 256 + byte_at raw.body 1) raw
    else if raw.type == 20 || (raw.type == 18 || (raw.type == 8 || raw.type == 9))
    then inl other_codec
    else inl invalid_message_type
