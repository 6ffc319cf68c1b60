-- ===== src/Rtmp/Link/Examples.antt =====
-- Messages at concrete inputs.
use mediamtx.Base.{
  ℕ, ◌*◌, ◌≡◌, ◌⊎◌, inl, inr, refl, List, [], ◌∷◌, ◌++◌, arith, true, false, some, none, String,
}
use mediamtx.Rtmp.RawMessage.Message.{Message, millisecond}
use mediamtx.Rtmp.RawMessage.Reader.{Reader, new_reader}
use mediamtx.Rtmp.RawMessage.Writer.{Writer, new_writer}
use mediamtx.Rtmp.RawMessage.RoundTrip.{IsConnected, Follows, fresh}
use mediamtx.Rtmp.Control as C
use mediamtx.Rtmp.Control.{ControlMessage, user_control_ping_request}
use mediamtx.Rtmp.Media.{Audio, unmarshal_audio, marshal_audio}
use mediamtx.Rtmp.Media.RoundTrip.{unmarshal_audio-marshal_audio_uncompressed}
use mediamtx.Rtmp.Control.RoundTrip.{marshal-IsSendable}
use mediamtx.Rtmp.Amf.{Amf, Command, marshal_command}
use mediamtx.Rtmp.Codec.{Packet, control, command, unmarshal, marshal}
use mediamtx.Rtmp.Codec.RoundTrip.{unmarshal-marshal}
use mediamtx.Rtmp.Link.{LinkError, read, write, ReadWriter}
use mediamtx.Rtmp.RawMessage.Reader as R
use mediamtx.Rtmp.Link.Delivery.{read-write_packet}

abbrev values : List (String ⊎ ℕ)
values = inl "connect" ∷ inr 1 ∷ inl "live" ∷ []

-- A library that knows one message.
abbrev amf : Amf
amf = record {
  Value = String ⊎ ℕ;
  parse = λ body. some values;
  fill = λ vs. 2 ∷ [];
  text = inl;
  number = inr;
  as_text = λ v. elim v [ inl s ↦ some s | inr n ↦ none ];
  as_number = λ v. elim v [ inl s ↦ none | inr n ↦ some n ];
}

abbrev connect : Command amf
connect = record {
  chunk_stream_id = 3;
  message_stream_id = 0;
  name = "connect";
  command_id = 1;
  arguments = inl "live" ∷ [];
}

unmarshal-marshal_example : unmarshal amf (marshal_command amf connect) ≡ inr (command connect)
unfolding marshal
unmarshal-marshal_example =
    unmarshal-marshal amf (command connect) (marshal_command amf connect)
      (record { values = refl; name = refl; command_id = refl; arguments = omega arith }) refl

abbrev pcm : Audio
pcm = record {
  chunk_stream_id = 4;
  dts = 20 * millisecond;
  message_stream_id = 1;
  codec = 7;
  rate = 1;
  depth = 1;
  is_stereo = false;
  aac_type = 0;
  payload = 9 ∷ 8 ∷ [];
}

unmarshal_audio-marshal_audio_uncompressed_example :
    unmarshal_audio (marshal_audio pcm) ≡ inr (record pcm { payload = 9 ∷ 8 ∷ 0 ∷ [] })
unmarshal_audio-marshal_audio_uncompressed_example =
    unmarshal_audio-marshal_audio_uncompressed pcm (record {
      first_byte = record { codec = omega arith; rate = omega arith; depth = omega arith };
      codec = refl;
      aac_type = refl;
    })

abbrev writer : Writer
writer = new_writer (λ bw. 0) false

abbrev reader : Reader
reader = new_reader [] (λ br. 0) (λ count. true)

IsConnected-new : IsConnected writer reader
IsConnected-new = record {
  no_checks = refl;
  no_acks = refl;
  chunk_size = omega arith;
  same_size = refl;
  streams = λ id. fresh refl refl;
}

Follows-new : (m : Message) → Follows writer m
Follows-new m = record {
  message_stream_id = λ wc e. ground arith;
  timestamp = λ wc t e. ground arith;
}

abbrev new_size : ControlMessage
new_size = C.set_chunk_size 4096

read-write_packet_example :
    (w' : Writer) × (b : List ℕ) × (r' : Reader) × (write amf (control new_size) writer ≡ inr w')
    × (w'.bw ≡ writer.bw ++ b)
    × (read amf (record reader { br = b ++ (9 ∷ []) }) ≡ inr (control new_size, r'))
    × (r'.br ≡ 9 ∷ [])
    × IsConnected w' r'
unfolding marshal
read-write_packet_example =
    read-write_packet amf (control new_size) (C.marshal new_size) writer reader (9 ∷ [])
      (omega arith) (omega arith, omega arith) refl (marshal-IsSendable new_size (omega arith))
      IsConnected-new (Follows-new (C.marshal new_size))

abbrev ping : ControlMessage
ping = user_control_ping_request 5

-- A ping as it comes to a reader, in a chunk of type 0.
abbrev pair : ReadWriter amf
pair = record {
  r = record reader {
    br = 2 ∷ 0 ∷ 0 ∷ 0 ∷ 0 ∷ 0 ∷ 6 ∷ 4 ∷ 0 ∷ 0 ∷ 0 ∷ 0 ∷ 0 ∷ 6 ∷ 0 ∷ 0 ∷ 0 ∷ 5 ∷ [];
  };
  w = writer;
}

reader_of : LinkError ⊎ (Packet amf × Reader) → Reader
reader_of (inl e) = reader
reader_of (inr (m, r)) = r

abbrev pinged : Reader
pinged = reader_of (read amf pair.r)
