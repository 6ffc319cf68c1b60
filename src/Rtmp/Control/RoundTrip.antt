-- ===== src/Rtmp/Control/RoundTrip.antt =====
-- Control messages are read as they were written, and only well-formed ones are read.
use mediamtx.Base.{ℕ, ◌≡◌, refl, ◌<◌, inr, arith, length, List}
use mediamtx.Rtmp.Bytes.{IsByte, IsU32, be32_split}
use mediamtx.Rtmp.RawMessage.Synced.{IsSendable}
use mediamtx.Rtmp.Control.{
  ControlMessage, control_message, set_chunk_size, acknowledge, set_window_ack_size,
  set_peer_bandwidth, user_control_stream_begin, user_control_stream_eof, user_control_stream_dry,
  user_control_stream_is_recorded, user_control_ping_request, user_control_ping_response,
  user_control_set_buffer_length, marshal, read_control, read_user_control,
  unmarshal_set_chunk_size, unmarshal_acknowledge, unmarshal_set_window_ack_size,
  unmarshal_set_peer_bandwidth, unmarshal_stream_begin, unmarshal_stream_eof, unmarshal_stream_dry,
  unmarshal_stream_is_recorded, unmarshal_ping_request, unmarshal_ping_response,
  unmarshal_set_buffer_length, marshal_set_chunk_size, marshal_acknowledge,
  marshal_set_window_ack_size, marshal_set_peer_bandwidth, marshal_stream_begin, marshal_stream_eof,
  marshal_stream_dry, marshal_stream_is_recorded, marshal_ping_request, marshal_ping_response,
  marshal_set_buffer_length,
}

-- The values fit their fields.
abbrev pub IsControl : ControlMessage → Type 0
IsControl (set_chunk_size v) = IsU32 v
IsControl (acknowledge v) = IsU32 v
IsControl (set_window_ack_size v) = IsU32 v
IsControl (set_peer_bandwidth v t) = IsU32 v × IsByte t
IsControl (user_control_stream_begin v) = IsU32 v
IsControl (user_control_stream_eof v) = IsU32 v
IsControl (user_control_stream_dry v) = IsU32 v
IsControl (user_control_stream_is_recorded v) = IsU32 v
IsControl (user_control_ping_request v) = IsU32 v
IsControl (user_control_ping_response v) = IsU32 v
IsControl (user_control_set_buffer_length v l) = IsU32 v × IsU32 l

-- A control message whose values fit is read as it was marshalled.
pub read_control-marshal : (m : ControlMessage) → IsControl m → read_control (marshal m) ≡ inr m
unfolding read_control read_user_control marshal unmarshal_set_chunk_size unmarshal_acknowledge
    unmarshal_set_window_ack_size unmarshal_set_peer_bandwidth unmarshal_stream_begin
    unmarshal_stream_eof unmarshal_stream_dry unmarshal_stream_is_recorded unmarshal_ping_request
    unmarshal_ping_response unmarshal_set_buffer_length marshal_set_chunk_size marshal_acknowledge
    marshal_set_window_ack_size marshal_set_peer_bandwidth marshal_stream_begin marshal_stream_eof
    marshal_stream_dry marshal_stream_is_recorded marshal_ping_request marshal_ping_response
    marshal_set_buffer_length
read_control-marshal (set_chunk_size v) h = ground (arith, be32_split v)
read_control-marshal (acknowledge v) h = ground (arith, be32_split v)
read_control-marshal (set_window_ack_size v) h = ground (arith, be32_split v)
read_control-marshal (set_peer_bandwidth v t) h = ground (arith, be32_split v)
read_control-marshal (user_control_stream_begin v) h = ground (arith, be32_split v)
read_control-marshal (user_control_stream_eof v) h = ground (arith, be32_split v)
read_control-marshal (user_control_stream_dry v) h = ground (arith, be32_split v)
read_control-marshal (user_control_stream_is_recorded v) h = ground (arith, be32_split v)
read_control-marshal (user_control_ping_request v) h = ground (arith, be32_split v)
read_control-marshal (user_control_ping_response v) h = ground (arith, be32_split v)
read_control-marshal (user_control_set_buffer_length v l) h =
    ground (arith, be32_split v, be32_split l)

sendable :
    (type : ℕ) (body : List ℕ)
    → type < 256
    → length body < 11
    → IsSendable (control_message type body)
sendable type body t b = record {
  id_low = omega arith;
  id_high = omega arith;
  whole = refl;
  timestamp = omega arith;
  type = t;
  message_stream_id = omega arith;
  body = omega arith;
}

-- A marshalled control message fits the format of raw messages.
pub marshal-IsSendable : (m : ControlMessage) → IsControl m → IsSendable (marshal m)
unfolding marshal marshal_set_chunk_size marshal_acknowledge marshal_set_window_ack_size
    marshal_set_peer_bandwidth marshal_stream_begin marshal_stream_eof marshal_stream_dry
    marshal_stream_is_recorded marshal_ping_request marshal_ping_response marshal_set_buffer_length
marshal-IsSendable (set_chunk_size v) h = sendable _ _ (omega arith) (omega arith)
marshal-IsSendable (acknowledge v) h = sendable _ _ (omega arith) (omega arith)
marshal-IsSendable (set_window_ack_size v) h = sendable _ _ (omega arith) (omega arith)
marshal-IsSendable (set_peer_bandwidth v l) h = sendable _ _ (omega arith) (omega arith)
marshal-IsSendable (user_control_stream_begin v) h = sendable _ _ (omega arith) (omega arith)
marshal-IsSendable (user_control_stream_eof v) h = sendable _ _ (omega arith) (omega arith)
marshal-IsSendable (user_control_stream_dry v) h = sendable _ _ (omega arith) (omega arith)
marshal-IsSendable (user_control_stream_is_recorded v) h = sendable _ _ (omega arith) (omega arith)
marshal-IsSendable (user_control_ping_request v) h = sendable _ _ (omega arith) (omega arith)
marshal-IsSendable (user_control_ping_response v) h = sendable _ _ (omega arith) (omega arith)
marshal-IsSendable (user_control_set_buffer_length v l) h = sendable _ _ (omega arith) (omega arith)
