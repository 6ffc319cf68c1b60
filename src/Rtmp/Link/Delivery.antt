-- ===== src/Rtmp/Link/Delivery.antt =====
-- Messages pass from a writer to a reader, and chunk sizes stay in step.
use mathlib.Core.Path.{subst}
use mediamtx.Base.{ℕ, ◌<◌, ◌≤◌, ◌≡◌, ◌∙◌, ap, sym, refl, ◌⊎◌, inr, List, ◌++◌, arith}
use mediamtx.Rtmp.Control.{ControlMessage, set_chunk_size, set_window_ack_size, acknowledge}
use mediamtx.Rtmp.Control as C
use mediamtx.Rtmp.RawMessage.Message.{Message}
use mediamtx.Rtmp.RawMessage.Reader as R
use mediamtx.Rtmp.RawMessage.Reader.{Reader, max_body_size}
use mediamtx.Rtmp.RawMessage.Writer as W
use mediamtx.Rtmp.RawMessage.Writer.{Writer}
use mediamtx.Rtmp.RawMessage.Synced.{IsSendable}
use mediamtx.Rtmp.RawMessage.RoundTrip.{IsConnected, Follows, read-write}
use mediamtx.Rtmp.Amf.{Amf}
use mediamtx.Rtmp.Codec.{
  Packet, control, command, data_message, audio, video, sequence_start, coded_frames, sequence_end,
  frames_x, metadata, mpeg2ts_sequence_start, marshal,
}
use mediamtx.Rtmp.Codec.RoundTrip.{IsPacket, unmarshal-marshal}
use mediamtx.Rtmp.Link.{LinkError, lifted, decoded, ◌>>=◌, after_read, read, after_write, write}

link-bind :
    {A B : Type 0} (x : LinkError ⊎ A) (a : A) (f : A → LinkError ⊎ B) → x ≡ inr a → (x >>= f) ≡ f a
link-bind x a f e = ap (λ y. y >>= f) e

module _ (amf : Amf) where
  -- A new chunk size is possible, and acknowledgements are not switched on.
  abbrev pub KeepsLink : Packet amf → Type 0
  KeepsLink (control (set_chunk_size v)) = (0 < v) × (v ≤ max_body_size)
  KeepsLink (control (set_window_ack_size v)) = v ≡ 0
  KeepsLink _ = Unit

  -- Both sides change alike.
  record Adjusted (m : Packet amf) (w : Writer) (r : Reader) : Type 0 where
    reader : Reader
    done : after_read amf m r ≡ inr reader
    connected : IsConnected (after_write amf m w) reader
    br : reader.br ≡ r.br
    bw : (after_write amf m w).bw ≡ w.bw

  Adjusted-same :
      (m : Packet amf) (w : Writer) (r : Reader)
      → IsConnected w r
      → after_read amf m r ≡ inr r
      → after_write amf m w ≡ w
      → Adjusted m w r
  Adjusted-same m w r c e f = record {
    reader = r;
    done = e;
    connected = subst (λ w'. IsConnected w' r) (sym f) c;
    br = refl;
    bw = ap (λ w'. w'.bw) f;
  }

  Adjusted-control :
      (m : ControlMessage) (w : Writer) (r : Reader)
      → IsConnected w r
      → KeepsLink (control m)
      → Adjusted (control m) w r
  unfolding after_read after_write R.set_chunk_size W.set_chunk_size R.set_window_ack_size
      W.set_window_ack_size
  Adjusted-control (set_chunk_size v) w r c k = record {
    reader = record r { chunk_size = v };
    done = ground (arith, k.1);
    connected = record {
      no_checks = c.no_checks;
      no_acks = c.no_acks;
      chunk_size = k.0;
      same_size = refl;
      streams = c.streams;
    };
    br = refl;
    bw = refl;
  }
  Adjusted-control (set_window_ack_size v) w r c k = record {
    reader = record r { ack_window_size = v };
    done = refl;
    connected = record {
      no_checks = c.no_checks;
      no_acks = k;
      chunk_size = c.chunk_size;
      same_size = c.same_size;
      streams = c.streams;
    };
    br = refl;
    bw = refl;
  }
  Adjusted-control (acknowledge v) w r c k = Adjusted-same (control (acknowledge v)) w r c refl refl
  Adjusted-control m w r c k = Adjusted-same (control m) w r c refl refl

  adjusted :
      (m : Packet amf) (w : Writer) (r : Reader) → IsConnected w r → KeepsLink m → Adjusted m w r
  unfolding after_read after_write
  adjusted (control m) w r c k = Adjusted-control m w r c k
  adjusted (command m) w r c k = Adjusted-same (command m) w r c refl refl
  adjusted (data_message m) w r c k = Adjusted-same (data_message m) w r c refl refl
  adjusted (audio m) w r c k = Adjusted-same (audio m) w r c refl refl
  adjusted (video m) w r c k = Adjusted-same (video m) w r c refl refl
  adjusted (sequence_start m) w r c k = Adjusted-same (sequence_start m) w r c refl refl
  adjusted (coded_frames m) w r c k = Adjusted-same (coded_frames m) w r c refl refl
  adjusted (sequence_end m) w r c k = Adjusted-same (sequence_end m) w r c refl refl
  adjusted (frames_x m) w r c k = Adjusted-same (frames_x m) w r c refl refl
  adjusted (metadata m) w r c k = Adjusted-same (metadata m) w r c refl refl
  adjusted (mpeg2ts_sequence_start m) w r c k =
      Adjusted-same (mpeg2ts_sequence_start m) w r c refl refl

  -- A message whose fields fit, that is marshalled to a raw message which the transport carries, and
  -- that does not switch acknowledgements on, is read by the peer as it was written, and what comes
  -- after it is left; audio is MPEG-1 or MPEG-4 audio, and a command has an argument. Both sides are
  -- connected afterwards, also where the message changes the chunk size.
  pub read-write_packet :
      (m : Packet amf) (raw : Message) (w : Writer) (r : Reader) (rest : List ℕ)
      → IsPacket amf m
      → KeepsLink m
      → marshal amf m ≡ inr raw
      → IsSendable raw
      → IsConnected w r
      → Follows w raw
      → (w' : Writer) × (b : List ℕ) × (r' : Reader) × (write amf m w ≡ inr w')
        × (w'.bw ≡ w.bw ++ b)
        × (read amf (record r { br = b ++ rest }) ≡ inr (m, r'))
        × (r'.br ≡ rest)
        × IsConnected w' r'
  unfolding write read
  read-write_packet m raw w r rest p k e s c f =
      let (w', b, r', ew, eb, er, erest, c') = read-write w r raw rest s c f in
      let a = adjusted m w' r' c' k in
      (
        after_write amf m w',
        b,
        a.reader,
        link-bind _ raw _ (ap decoded e) ∙ link-bind _ w' _ (ap lifted ew),
        a.bw ∙ eb,
        link-bind _ (raw, r') _ (ap lifted er)
            ∙ link-bind _ m _ (ap decoded (unmarshal-marshal amf m raw p e))
            ∙ link-bind _ a.reader _ a.done,
        a.br ∙ erest,
        a.connected,
      )
