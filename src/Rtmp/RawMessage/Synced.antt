-- ===== src/Rtmp/RawMessage/Synced.antt =====
-- What the writer remembers of a chunk stream and what the reader does agree.
use mediamtx.Base.{
  ◌≤◌, ◌-◌, ◌%◌, ◌^◌, ◌+◌, ◌/◌, ◌*◌, if◌then◌else◌, ltb, ℕ, ◌<◌, ◌≡◌, refl, sym, ap, ◌∙◌, Bool,
  true, Option, none, some, List, ◌++◌, arith, length, take, length-take-drop, length-drop, leb,
}
use mathlib.Core.Path.{subst}
use mediamtx.Rtmp.Chunk.{Chunk0, Chunk1, Chunk2, Chunk3, marshal0, marshal1, marshal2, marshal3}
use mediamtx.Rtmp.RawMessage.Message.{Message, millisecond}
use mediamtx.Rtmp.RawMessage.Reader.{Reader, ReaderChunkStream, max_body_size, chunk_body_len}
use mediamtx.Rtmp.RawMessage.Writer.{WriterChunkStream}
use mediamtx.Rtmp.RawMessage.First.{
  IsReady, Begins, stream_of_type0, stream_of_type1, after_delta, after_same_delta, round-type0,
  round-type1, round-type2, round-type3,
}

-- The fields of the message fit the format, and its timestamp counts whole milliseconds.
pub record IsSendable (msg : Message) : Type 0 where
  pub id_low : 2 ≤ msg.chunk_stream_id
  pub id_high : msg.chunk_stream_id < 64
  pub whole : msg.timestamp / millisecond * millisecond ≡ msg.timestamp
  pub timestamp : msg.timestamp / millisecond < 2 ^ 32
  pub type : msg.type < 256
  pub message_stream_id : msg.message_stream_id < 2 ^ 32
  pub body : length msg.body ≤ max_body_size

abbrev pub delta_of : ReaderChunkStream → Option ℕ
delta_of rc = if rc.cur_timestamp_delta_available then some rc.cur_timestamp_delta else none

-- Both sides have seen the same last message.
pub record IsSynced (wc : WriterChunkStream) (rc : ReaderChunkStream) : Type 0 where
  pub message_stream_id : wc.last_message_stream_id ≡ some rc.cur_message_stream_id
  pub type : wc.last_type ≡ some rc.cur_type
  pub body_len : wc.last_body_len ≡ some rc.cur_body_len
  pub timestamp : wc.last_timestamp ≡ some rc.cur_timestamp
  pub available : rc.cur_timestamp_available ≡ true
  pub delta : wc.last_timestamp_delta ≡ delta_of rc
  pub extended : wc.has_extended_timestamp ≡ rc.has_extended_timestamp

-- The stream is ready to give the message, once its body is there, and to be synced then.
pub record IsAnnounced (msg : Message) (ext : Bool) (last_delta : Option ℕ) (rc : ReaderChunkStream)
    : Type 0 where
  pub type : rc.cur_type ≡ msg.type
  pub message_stream_id : rc.cur_message_stream_id ≡ msg.message_stream_id
  pub timestamp : rc.cur_timestamp ≡ msg.timestamp / millisecond
  pub body_len : rc.cur_body_len ≡ length msg.body
  pub available : rc.cur_timestamp_available ≡ true
  pub extended : rc.has_extended_timestamp ≡ ext
  pub delta : last_delta ≡ delta_of rc

-- The first chunk, as given, announces the message to the reader.
abbrev pub Opens : Message → Reader → List ℕ × Bool → Option ℕ → Type 0
Opens msg r x delta =
    (more : List ℕ)
    → r.br ≡ x.0 ++ more
    → (rc : ReaderChunkStream) × Begins msg.chunk_stream_id rc (take r.chunk_size msg.body) more r
      × IsAnnounced msg x.1 delta rc

pub Opens-eq :
    (msg : Message) (r : Reader) (x y : List ℕ × Bool) (d : Option ℕ)
    → x ≡ y
    → Opens msg r y d
    → Opens msg r x d
Opens-eq msg r x y d p h = subst (λ z. Opens msg r z d) (sym p) h

length-take_eq :
    (n : ℕ) (xs : List ℕ) → length (take n xs) ≡ (if ltb n (length xs) then n else length xs)
length-take_eq n xs = ground (arith, length-take-drop n xs, length-drop n xs)

module _ (rc : ReaderChunkStream) (msg : Message) (r : Reader)
    (v : IsReady msg.chunk_stream_id rc r) (s : IsSendable msg) where
  abbrev pub t : ℕ
  t = msg.timestamp / millisecond

  abbrev pub part : List ℕ
  part = take r.chunk_size msg.body

  abbrev pub chunk0 : Chunk0
  chunk0 = record {
    chunk_stream_id = msg.chunk_stream_id;
    timestamp = t % 2 ^ 32;
    body_len = length msg.body;
    type = msg.type;
    message_stream_id = msg.message_stream_id;
    body = part;
  }

  pub Opens-type0 : Opens msg r (marshal0 chunk0, leb 0xffffff (t % 2 ^ 32)) none
  Opens-type0 more e = (
    stream_of_type0 msg.chunk_stream_id rc r more v chunk0,
    round-type0 msg.chunk_stream_id rc r more v chunk0 e refl
        (record {
          id = s.id_high;
          timestamp = omega arith;
          body_len = omega (arith, s.body);
          type = s.type;
          message_stream_id = s.message_stream_id;
          body = length-take_eq r.chunk_size msg.body;
        })
        s.body,
    record {
      type = refl;
      message_stream_id = refl;
      timestamp = omega (arith, s.timestamp);
      body_len = refl;
      available = refl;
      extended = refl;
      delta = refl;
    },
  )

  module _ (a : rc.cur_timestamp_available ≡ true)
      (m : rc.cur_message_stream_id ≡ msg.message_stream_id) (l : rc.cur_timestamp ≤ t) where
    abbrev pub delta : ℕ
    delta = t - rc.cur_timestamp

    abbrev pub chunk1 : Chunk1
    chunk1 = record {
      chunk_stream_id = msg.chunk_stream_id;
      timestamp_delta = delta % 2 ^ 32;
      body_len = length msg.body;
      type = msg.type;
      body = part;
    }

    new_timestamp : (rc.cur_timestamp + delta % 2 ^ 32) % 2 ^ 32 ≡ t
    new_timestamp = omega (arith, s.timestamp, l)

    same_delta : delta % 2 ^ 32 ≡ delta
    same_delta = omega (arith, s.timestamp)

    pub Opens-type1 : Opens msg r (marshal1 chunk1, leb 0xffffff (delta % 2 ^ 32)) (some delta)
    Opens-type1 more e = (
      stream_of_type1 msg.chunk_stream_id rc r more v chunk1,
      round-type1 msg.chunk_stream_id rc r more v chunk1 e refl
          (record {
            id = s.id_high;
            timestamp_delta = omega arith;
            body_len = omega (arith, s.body);
            type = s.type;
            body = length-take_eq r.chunk_size msg.body;
          })
          a s.body,
      record {
        type = refl;
        message_stream_id = m;
        timestamp = new_timestamp;
        body_len = refl;
        available = a;
        extended = refl;
        delta = ap some (sym same_delta);
      },
    )

    module _ (ty : rc.cur_type ≡ msg.type) (n : rc.cur_body_len ≡ length msg.body) where
      abbrev pub chunk2 : Chunk2
      chunk2 = record {
        chunk_stream_id = msg.chunk_stream_id;
        timestamp_delta = delta % 2 ^ 32;
        body = part;
      }

      length-part :
          length (take r.chunk_size msg.body) ≡ chunk_body_len rc.cur_body_len r.chunk_size
      length-part =
          length-take_eq r.chunk_size msg.body ∙ ap (λ k. chunk_body_len k r.chunk_size) (sym n)

      pub Opens-type2 : Opens msg r (marshal2 chunk2, leb 0xffffff (delta % 2 ^ 32)) (some delta)
      Opens-type2 more e = (
        after_delta msg.chunk_stream_id rc r more v rc (delta % 2 ^ 32),
        round-type2 msg.chunk_stream_id rc r more v chunk2 e refl
            (record { id = s.id_high; timestamp_delta = omega arith; body = length-part }) a,
        record {
          type = ty;
          message_stream_id = m;
          timestamp = new_timestamp;
          body_len = n;
          available = a;
          extended = refl;
          delta = ap some (sym same_delta);
        },
      )

      abbrev pub chunk3 : Chunk3
      chunk3 = record { chunk_stream_id = msg.chunk_stream_id; body = part }

      pub Opens-type3 :
          rc.cur_timestamp_delta_available ≡ true
          → rc.cur_timestamp_delta ≡ delta
          → Opens msg r
              (marshal3 rc.has_extended_timestamp chunk3, rc.has_extended_timestamp)
              (some delta)
      Opens-type3 b d more e = (
        after_same_delta msg.chunk_stream_id rc r more v,
        round-type3 msg.chunk_stream_id rc r more v chunk3 e refl
            (record { id = s.id_high; body = length-part }) b,
        record {
          type = ty;
          message_stream_id = m;
          timestamp = omega (arith, d, l, s.timestamp);
          body_len = n;
          available = a;
          extended = refl;
          delta = ground (arith, b, d);
        },
      )
