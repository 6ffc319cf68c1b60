-- ===== src/Rtmp/Control/Examples.antt =====
-- Control messages at concrete inputs.
use mediamtx.Rtmp.RawMessage.Message.{Message}
use mediamtx.Rtmp.Control.Accepted.{read_control-accepted}
use mediamtx.Base.{length, refl, [], ◌∷◌, ◌≡◌, arith, inr}
use mediamtx.Rtmp.Control.{
  ControlMessage, user_control_ping_request, marshal, read_control, read_user_control,
  unmarshal_ping_request,
}
use mediamtx.Rtmp.Control.RoundTrip.{read_control-marshal}

abbrev ping : ControlMessage
ping = user_control_ping_request 123456

read_control-marshal_example : read_control (marshal ping) ≡ inr ping
read_control-marshal_example = read_control-marshal ping (omega arith)

-- It arrives with a timestamp and a message stream.
abbrev raw_ping : Message
raw_ping = record {
  chunk_stream_id = 2;
  timestamp = 5000000;
  type = 4;
  message_stream_id = 7;
  body = 0 ∷ 6 ∷ 0 ∷ 1 ∷ 226 ∷ 64 ∷ [];
}

raw_ping_read : read_control raw_ping ≡ inr ping
unfolding read_control read_user_control unmarshal_ping_request
raw_ping_read = refl

read_control-accepted_example :
    (2 ≡ (marshal ping).chunk_stream_id)
    × (4 ≡ (marshal ping).type)
    × (6 ≡ length (marshal ping).body)
read_control-accepted_example = read_control-accepted raw_ping ping raw_ping_read
