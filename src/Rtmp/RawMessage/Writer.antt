-- ===== src/Rtmp/RawMessage/Writer.antt =====
-- internal/protocols/rtmp/rawmessage/writer.go. The writes to the connection do not fail.
use mediamtx.Base.{
  ℕ, zero, suc, ◌+◌, ◌-◌, ◌*◌, ◌/◌, ◌%◌, ◌^◌, Bool, false, Option, none, some, List, [], ◌∷◌, ◌++◌,
  ◌==◌, leb, ltb, not, ◌&&◌, ◌||◌, if◌then◌else◌, length, take, drop,
}
use mediamtx.Rtmp.Bytes.{no_acknowledge, stuck, Result, ok, err, ◌>>=◌}
use mediamtx.Rtmp.Chunk.{marshal0, marshal1, marshal2, marshal3}
use mediamtx.Rtmp.RawMessage.Message.{Message, millisecond, update}

pub record WriterChunkStream : Type 0 where
  pub last_message_stream_id : Option ℕ
  pub last_type : Option ℕ
  pub last_body_len : Option ℕ
  pub last_timestamp : Option ℕ
  pub last_timestamp_delta : Option ℕ
  pub has_extended_timestamp : Bool

abbrev pub new_chunk_stream : WriterChunkStream
new_chunk_stream = record {
  last_message_stream_id = none;
  last_type = none;
  last_body_len = none;
  last_timestamp = none;
  last_timestamp_delta = none;
  has_extended_timestamp = false;
}

-- `bw` is all that was written. `bcw` gives the count of the byte counter below the buffer then.
pub record Writer : Type 0 where
  pub bcw : List ℕ → ℕ
  pub bw : List ℕ
  pub check_acknowledge : Bool
  pub chunk_size : ℕ
  pub ack_window_size : ℕ
  pub ack_value : ℕ
  pub chunk_streams : ℕ → Option WriterChunkStream

abbrev pub new_writer : (List ℕ → ℕ) → Bool → Writer
new_writer bcw check_acknowledge = record {
  bcw = bcw;
  bw = [];
  check_acknowledge = check_acknowledge;
  chunk_size = 128;
  ack_window_size = 0;
  ack_value = 0;
  chunk_streams = λ id. none;
}

-- The difference and the bound are uint32.
unfoldable pub write_chunk : List ℕ → Writer → Result Writer
write_chunk buf w =
    let diff = (w.bcw w.bw % 2 ^ 32 + 2 ^ 32 - w.ack_value) % 2 ^ 32 in
    if w.check_acknowledge
      && (not (w.ack_window_size == 0) && ltb (w.ack_window_size * 3 % 2 ^ 32 / 2) diff)
    then err no_acknowledge
    else ok (record w { bw = w.bw ++ buf })

-- `nil` is equal to no value.
abbrev pub is_value : Option ℕ → ℕ → Bool
is_value none n = false
is_value (some m) n = m == n

-- A delta is used only if it is not negative.
abbrev pub delta_from : Option ℕ → ℕ → Option ℕ
delta_from none t = none
delta_from (some last) t = if leb last t then some (t - last) else none

-- The first chunk of a message, and whether it has an extended timestamp. The last argument is the
-- delta; the body is the first part of the message's.
unfoldable pub first_chunk : WriterChunkStream → Message → ℕ → List ℕ → Option ℕ → List ℕ × Bool
first_chunk wc msg timestamp body none =
    let ts = timestamp % 2 ^ 32 in
    (
      marshal0 (record {
        chunk_stream_id = msg.chunk_stream_id;
        timestamp = ts;
        body_len = length msg.body;
        type = msg.type;
        message_stream_id = msg.message_stream_id;
        body = body;
      }),
      leb 0xffffff ts,
    )
first_chunk wc msg timestamp body (some delta) =
    let ts = timestamp % 2 ^ 32 in
    let td = delta % 2 ^ 32 in
    if not (is_value wc.last_message_stream_id msg.message_stream_id)
    then (
      marshal0 (record {
        chunk_stream_id = msg.chunk_stream_id;
        timestamp = ts;
        body_len = length msg.body;
        type = msg.type;
        message_stream_id = msg.message_stream_id;
        body = body;
      }),
      leb 0xffffff ts,
    )
    else if not (is_value wc.last_type msg.type)
        || not (is_value wc.last_body_len (length msg.body))
    then (
      marshal1 (record {
        chunk_stream_id = msg.chunk_stream_id;
        timestamp_delta = td;
        body_len = length msg.body;
        type = msg.type;
        body = body;
      }),
      leb 0xffffff td,
    )
    else if not (is_value wc.last_timestamp_delta delta)
    then (
      marshal2
          (record { chunk_stream_id = msg.chunk_stream_id; timestamp_delta = td; body = body }),
      leb 0xffffff td,
    )
    else (
      marshal3 wc.has_extended_timestamp
          (record { chunk_stream_id = msg.chunk_stream_id; body = body }),
      wc.has_extended_timestamp,
    )

-- The rounds of the loop after the first: type 3 chunks, until the body is used up.
unfoldable pub write_rest : ℕ → ℕ → Bool → List ℕ → Writer → Result Writer
write_rest fuel id ext [] w = ok w
write_rest zero id ext (b ∷ bs) w = err stuck
write_rest (suc fuel) id ext (b ∷ bs) w = do
  w' ←
      write_chunk
        (marshal3 ext (record { chunk_stream_id = id; body = take w.chunk_size (b ∷ bs) })) w
  write_rest fuel id ext (drop w.chunk_size (b ∷ bs)) w'

-- The last delta that was computed is kept.
abbrev pub next_delta : WriterChunkStream → Option ℕ → Option ℕ
next_delta wc none = wc.last_timestamp_delta
next_delta wc (some d) = some d

-- What the stream keeps of a message that was sent.
abbrev pub remember : WriterChunkStream → Message → ℕ → Option ℕ → Bool → WriterChunkStream
remember wc msg timestamp delta ext = record {
  last_message_stream_id = some msg.message_stream_id;
  last_type = some msg.type;
  last_body_len = some (length msg.body);
  last_timestamp = some timestamp;
  last_timestamp_delta = next_delta wc delta;
  has_extended_timestamp = ext;
}

unfoldable pub write_message : WriterChunkStream → Message → Writer → Result Writer
write_message wc msg w = do
  let timestamp = msg.timestamp / millisecond
  let delta = delta_from wc.last_timestamp timestamp
  let (buf, ext) = first_chunk wc msg timestamp (take w.chunk_size msg.body) delta
  w' ← write_chunk buf w
  let wc' = remember wc msg timestamp delta ext
  write_rest (length msg.body) msg.chunk_stream_id ext (drop w.chunk_size msg.body)
      (record w' { chunk_streams = update w'.chunk_streams msg.chunk_stream_id (some wc') })

abbrev pub stream_of : Option WriterChunkStream → WriterChunkStream
stream_of none = new_chunk_stream
stream_of (some wc) = wc

unfoldable pub write : Message → Writer → Result Writer
write msg w = write_message (stream_of (w.chunk_streams msg.chunk_stream_id)) msg w

unfoldable pub set_acknowledge_value : ℕ → Writer → Writer
set_acknowledge_value v w = record w { ack_value = v }

unfoldable pub set_chunk_size : ℕ → Writer → Writer
set_chunk_size v w = record w { chunk_size = v }

unfoldable pub set_window_ack_size : ℕ → Writer → Writer
set_window_ack_size v w = record w { ack_window_size = v }
