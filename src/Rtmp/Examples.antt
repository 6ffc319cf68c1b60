-- ===== src/Rtmp/Examples.antt =====
-- Chunks and messages written and read, and the theorems at concrete inputs.
use mediamtx.Rtmp.Bytes.{◌>>=◌, read_full, Result, err, without_previous_chunk}
use mediamtx.Rtmp.Chunk.{read_timestamp, skip_timestamp}
use mediamtx.Rtmp.RawMessage.Reader.{
  read_loop, round, read_message, read_type0, read_type1, read_type2, read_type3_first,
  read_type3_more, finish_first, begin, continue, check_ack, send_ack,
}
use mediamtx.Base.{zero, suc}
use mediamtx.Rtmp.RawMessage.Message.{Message, millisecond}
use mediamtx.Base.{◌+◌, ◌≡◌, ◌<◌, refl, true, [], ◌∷◌, ◌++◌, length, arith, false, List, ℕ}
use mediamtx.Rtmp.Bytes.{ok}
use mediamtx.Rtmp.Chunk.{
  Chunk0, Chunk1, Chunk2, Chunk3, read0, read1, read2, read3, marshal0, marshal1, marshal2,
  marshal3, marshal_size0, marshal_size1, marshal_size2, marshal_size3,
}
use mediamtx.Rtmp.Chunk.RoundTrip.{
  IsChunk0, IsChunk1, read0-marshal0, read1-marshal1, read2-marshal2, read3-marshal3,
  length-marshal,
}
use mediamtx.Rtmp.RawMessage.Reader.{Reader, new_reader, read}
use mediamtx.Rtmp.Chunk.Progress.{Good}
use mediamtx.Rtmp.RawMessage.Progress.{read-Good}
use mediamtx.Rtmp.RawMessage.Writer.{
  Writer, new_writer, write, write_message, first_chunk, write_chunk, write_rest,
}
use mediamtx.Rtmp.RawMessage.Synced.{IsSendable}
use mediamtx.Rtmp.RawMessage.RoundTrip.{IsConnected, Follows, fresh, read-write}
use mediamtx.Base.{replicate, ◌*◌}

-- The extended timestamp is used.
abbrev chunk0 : Chunk0
chunk0 = record {
  chunk_stream_id = 25;
  timestamp = 0xffffff + 5;
  body_len = 300;
  type = 6;
  message_stream_id = 3;
  body = 1 ∷ 2 ∷ 3 ∷ [];
}

abbrev chunk1 : Chunk1
chunk1 = record {
  chunk_stream_id = 25;
  timestamp_delta = 40;
  body_len = 2;
  type = 9;
  body = 7 ∷ 8 ∷ [];
}

abbrev chunk2 : Chunk2
chunk2 = record { chunk_stream_id = 25; timestamp_delta = 40; body = 7 ∷ 8 ∷ [] }

abbrev chunk3 : Chunk3
chunk3 = record { chunk_stream_id = 25; body = 7 ∷ 8 ∷ [] }

chunk0-IsChunk0 : IsChunk0 3 chunk0
chunk0-IsChunk0 = record {
  id = omega arith;
  timestamp = omega arith;
  body_len = omega arith;
  type = omega arith;
  message_stream_id = omega arith;
  body = refl;
}

chunk1-IsChunk1 : IsChunk1 128 chunk1
chunk1-IsChunk1 = record {
  id = omega arith;
  timestamp_delta = omega arith;
  body_len = omega arith;
  type = omega arith;
  body = refl;
}

read0-marshal0_example : read0 3 (marshal0 chunk0 ++ (9 ∷ [])) ≡ ok (chunk0, 9 ∷ [])
read0-marshal0_example = read0-marshal0 3 chunk0 (9 ∷ []) chunk0-IsChunk0

read1-marshal1_example : read1 128 (marshal1 chunk1 ++ (9 ∷ [])) ≡ ok (chunk1, 9 ∷ [])
read1-marshal1_example = read1-marshal1 128 chunk1 (9 ∷ []) chunk1-IsChunk1

read2-marshal2_example : read2 2 (marshal2 chunk2 ++ (9 ∷ [])) ≡ ok (chunk2, 9 ∷ [])
read2-marshal2_example =
    read2-marshal2 2 chunk2 (9 ∷ [])
      (record { id = omega arith; timestamp_delta = omega arith; body = refl })

read3-marshal3_example : read3 2 true (marshal3 true chunk3 ++ (9 ∷ [])) ≡ ok (chunk3, 9 ∷ [])
read3-marshal3_example =
    read3-marshal3 2 true chunk3 (9 ∷ []) (record { id = omega arith; body = refl })

length-marshal_example :
    (length (marshal0 chunk0) ≡ marshal_size0 chunk0)
    × (length (marshal1 chunk1) ≡ marshal_size1 chunk1)
    × (length (marshal2 chunk2) ≡ marshal_size2 chunk2)
    × (length (marshal3 true chunk3) ≡ marshal_size3 true chunk3)
length-marshal_example = length-marshal chunk0 chunk1 chunk2 chunk3 true

abbrev reader : Reader
reader = new_reader (marshal0 chunk0 ++ (9 ∷ [])) (λ br. 0) (λ count. true)

read-Good_example : Good (λ x. length x.1.br < length reader.br) (read reader)
read-Good_example = read-Good reader

-- A message that does not fit in one chunk.
abbrev long_message : Message
long_message = record {
  chunk_stream_id = 6;
  timestamp = 40 * millisecond;
  type = 9;
  message_stream_id = 1;
  body = replicate 300 7;
}

abbrev writer : Writer
writer = new_writer (λ bw. 0) false

abbrev empty_reader : Reader
empty_reader = new_reader [] (λ br. 0) (λ count. true)

IsSendable-long_message : IsSendable long_message
IsSendable-long_message = record {
  id_low = omega arith;
  id_high = omega arith;
  whole = refl;
  timestamp = omega arith;
  type = omega arith;
  message_stream_id = omega arith;
  body = omega arith;
}

IsConnected-new : IsConnected writer empty_reader
IsConnected-new = record {
  no_checks = refl;
  no_acks = refl;
  chunk_size = omega arith;
  same_size = refl;
  streams = λ id. fresh refl refl;
}

Follows-new : Follows writer long_message
Follows-new = record {
  message_stream_id = λ wc e. ground arith;
  timestamp = λ wc t e. ground arith;
}

read-write_example :
    (w' : Writer) × (b : List ℕ) × (r' : Reader) × (write long_message writer ≡ ok w')
    × (w'.bw ≡ writer.bw ++ b)
    × (read (record empty_reader { br = b ++ (9 ∷ []) }) ≡ ok (long_message, r'))
    × (r'.br ≡ 9 ∷ [])
    × IsConnected w' r'
read-write_example =
    read-write writer empty_reader long_message (9 ∷ []) IsSendable-long_message IsConnected-new
      Follows-new

abbrev small : ℕ → ℕ → Message
small t stream = record {
  chunk_stream_id = 6;
  timestamp = t * millisecond;
  type = 8;
  message_stream_id = stream;
  body = 5 ∷ [];
}

send : List Message → Writer → Result Writer
send [] w = ok w
send (m ∷ ms) w = write m w >>= send ms

receive : ℕ → Reader → Result Reader
receive zero r = ok r
receive (suc n) r = read r >>= λ x. receive n x.1

-- After a change of the message stream, the same delta as before: a type 3 chunk is sent and
-- refused.
refused_after_change :
    (send (small 0 1 ∷ small 10 1 ∷ small 20 2 ∷ small 30 2 ∷ []) writer >>= λ w.
    receive 4 (record empty_reader { br = w.bw }))
    ≡ err without_previous_chunk
unfolding send receive write write_message first_chunk write_chunk write_rest marshal0 marshal1
    marshal2 marshal3 read read_loop round read_message read_type0 read_type1 read_type2
    read_type3_first read_type3_more finish_first begin continue check_ack send_ack read0 read1
    read2 read3 read_timestamp skip_timestamp read_full
refused_after_change = refl
