-- ===== src/Rtmp/Chunk.antt =====
-- internal/protocols/rtmp/chunk: the four kinds of chunks, read and marshalled.
pub mod RoundTrip
pub mod Progress
use mediamtx.Base.{
  ℕ, ◌+◌, ◌*◌, ◌/◌, ◌%◌, Bool, List, [], ◌∷◌, ◌++◌, leb, ltb, length, if◌then◌else◌,
}
use mediamtx.Rtmp.Bytes.{Result, ok, ◌>>=◌, read_full, byte_at, be24, be32, put_be24, put_be32}
use Prim.Native.Nat.{bit_and, bit_or}

pub record Chunk0 : Type 0 where
  pub chunk_stream_id : ℕ
  pub timestamp : ℕ
  pub body_len : ℕ
  pub type : ℕ
  pub message_stream_id : ℕ
  pub body : List ℕ

pub record Chunk1 : Type 0 where
  pub chunk_stream_id : ℕ
  pub timestamp_delta : ℕ
  pub body_len : ℕ
  pub type : ℕ
  pub body : List ℕ

pub record Chunk2 : Type 0 where
  pub chunk_stream_id : ℕ
  pub timestamp_delta : ℕ
  pub body : List ℕ

pub record Chunk3 : Type 0 where
  pub chunk_stream_id : ℕ
  pub body : List ℕ

-- A timestamp that does not fit 24 bits follows the header in four bytes.
unfoldable pub read_timestamp : ℕ → List ℕ → Result (ℕ × List ℕ)
read_timestamp t input =
    if leb 0xffffff t
    then (do (h, rest) ← read_full 4 input; ok (be32 h 0, rest))
    else ok (t, input)

unfoldable pub read0 : ℕ → List ℕ → Result (Chunk0 × List ℕ)
unfolding read_timestamp
read0 max_body_len input = do
  (header, rest0) ← read_full 12 input
  (timestamp, rest1) ← read_timestamp (be24 header 1) rest0
  let body_len = be24 header 4
  (body, rest2) ← read_full (if ltb max_body_len body_len then max_body_len else body_len) rest1
  ok (
    record {
      chunk_stream_id = bit_and (byte_at header 0) 0x3f;
      timestamp = timestamp;
      body_len = body_len;
      type = byte_at header 7;
      message_stream_id = be32 header 8;
      body = body;
    },
    rest2,
  )

unfoldable pub marshal0 : Chunk0 → List ℕ
marshal0 c =
    if leb 0xffffff c.timestamp
    then c.chunk_stream_id
      ∷ 0xff
      ∷ 0xff
      ∷ 0xff
      ∷ put_be24 c.body_len (c.type ∷ put_be32 c.message_stream_id (put_be32 c.timestamp c.body))
    else c.chunk_stream_id
      ∷ put_be24 c.timestamp (put_be24 c.body_len (c.type ∷ put_be32 c.message_stream_id c.body))

unfoldable pub read1 : ℕ → List ℕ → Result (Chunk1 × List ℕ)
unfolding read_timestamp
read1 max_body_len input = do
  (header, rest0) ← read_full 8 input
  (timestamp_delta, rest1) ← read_timestamp (be24 header 1) rest0
  let body_len = be24 header 4
  (body, rest2) ← read_full (if ltb max_body_len body_len then max_body_len else body_len) rest1
  ok (
    record {
      chunk_stream_id = bit_and (byte_at header 0) 0x3f;
      timestamp_delta = timestamp_delta;
      body_len = body_len;
      type = byte_at header 7;
      body = body;
    },
    rest2,
  )

unfoldable pub marshal1 : Chunk1 → List ℕ
marshal1 c =
    if leb 0xffffff c.timestamp_delta
    then bit_or 64 c.chunk_stream_id
      ∷ 0xff
      ∷ 0xff
      ∷ 0xff
      ∷ put_be24 c.body_len (c.type ∷ put_be32 c.timestamp_delta c.body)
    else bit_or 64 c.chunk_stream_id
      ∷ put_be24 c.timestamp_delta (put_be24 c.body_len (c.type ∷ c.body))

unfoldable pub read2 : ℕ → List ℕ → Result (Chunk2 × List ℕ)
unfolding read_timestamp
read2 body_len input = do
  (header, rest0) ← read_full 4 input
  (timestamp_delta, rest1) ← read_timestamp (be24 header 1) rest0
  (body, rest2) ← read_full body_len rest1
  ok (
    record {
      chunk_stream_id = bit_and (byte_at header 0) 0x3f;
      timestamp_delta = timestamp_delta;
      body = body;
    },
    rest2,
  )

unfoldable pub marshal2 : Chunk2 → List ℕ
marshal2 c =
    if leb 0xffffff c.timestamp_delta
    then bit_or 128 c.chunk_stream_id ∷ 0xff ∷ 0xff ∷ 0xff ∷ put_be32 c.timestamp_delta c.body
    else bit_or 128 c.chunk_stream_id ∷ put_be24 c.timestamp_delta c.body

unfoldable pub skip_timestamp : Bool → List ℕ → Result (List ℕ)
skip_timestamp has_extended_timestamp input =
    if has_extended_timestamp then (do (h, rest) ← read_full 4 input; ok rest) else ok input

unfoldable pub read3 : ℕ → Bool → List ℕ → Result (Chunk3 × List ℕ)
unfolding skip_timestamp
read3 body_len has_extended_timestamp input = do
  (header, rest0) ← read_full 1 input
  rest1 ← skip_timestamp has_extended_timestamp rest0
  (body, rest2) ← read_full body_len rest1
  ok (record { chunk_stream_id = bit_and (byte_at header 0) 0x3f; body = body }, rest2)

-- The four bytes of an extended timestamp stay zero.
unfoldable pub marshal3 : Bool → Chunk3 → List ℕ
marshal3 has_extended_timestamp c =
    bit_or 192 c.chunk_stream_id
    ∷ (if has_extended_timestamp then 0 ∷ 0 ∷ 0 ∷ 0 ∷ c.body else c.body)

pub marshal_size0 : Chunk0 → ℕ
marshal_size0 c = 12 + length c.body + (if leb 0xffffff c.timestamp then 4 else 0)

pub marshal_size1 : Chunk1 → ℕ
marshal_size1 c = 8 + length c.body + (if leb 0xffffff c.timestamp_delta then 4 else 0)

pub marshal_size2 : Chunk2 → ℕ
marshal_size2 c = 4 + length c.body + (if leb 0xffffff c.timestamp_delta then 4 else 0)

pub marshal_size3 : Bool → Chunk3 → ℕ
marshal_size3 has_extended_timestamp c =
    1 + length c.body + (if has_extended_timestamp then 4 else 0)
