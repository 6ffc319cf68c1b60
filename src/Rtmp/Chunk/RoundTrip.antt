-- ===== src/Rtmp/Chunk/RoundTrip.antt =====
-- Reading a marshalled chunk gives the chunk back.
use mediamtx.Base.{
  ◌+◌, Bool, true, false, ℕ, ◌<◌, ◌≡◌, refl, arith, List, [], ◌∷◌, ◌++◌, length, ltb, if◌then◌else◌,
}
use mediamtx.Rtmp.Bytes.{
  put_be24, put_be32, IsByte, IsU24, IsU32, ok, read_full_eq, be24_split, be32_split, bit_and-0x3f,
  bit_or-64, bit_or-128, bit_or-192,
}
use mediamtx.Rtmp.Chunk.{
  Chunk0, read0, marshal0, marshal1, Chunk2, Chunk1, read2, read3, Chunk3, read1, marshal2,
  marshal3, marshal_size0, marshal_size1, marshal_size2, marshal_size3,
}
use Prim.Native.Nat.{bit_or}

pub record IsChunk0 (max_body_len : ℕ) (c : Chunk0) : Type 0 where
  pub id : c.chunk_stream_id < 64
  pub timestamp : IsU32 c.timestamp
  pub body_len : IsU24 c.body_len
  pub type : IsByte c.type
  pub message_stream_id : IsU32 c.message_stream_id
  pub body : length c.body ≡ (if ltb max_body_len c.body_len then max_body_len else c.body_len)

-- The header that `marshal0` writes, its timestamp field as given.
abbrev header0 : Chunk0 → ℕ → List ℕ
header0 c t =
    c.chunk_stream_id ∷ put_be24 t (put_be24 c.body_len (c.type ∷ put_be32 c.message_stream_id []))

-- A type 0 chunk whose fields fit their widths, and whose body is the whole message or a full
-- chunk of it, is read back as it was, and what follows is left.
pub read0-marshal0 :
    (m : ℕ) (c : Chunk0) (rest : List ℕ)
    → IsChunk0 m c
    → read0 m (marshal0 c ++ rest) ≡ ok (c, rest)
unfolding read0 marshal0
read0-marshal0 m c rest v = ground (
  arith,
  read_full_eq 12 (header0 c c.timestamp) (c.body ++ rest) refl,
  read_full_eq 12 (header0 c 0xffffff) (put_be32 c.timestamp (c.body ++ rest)) refl,
  read_full_eq 4 (put_be32 c.timestamp []) (c.body ++ rest) refl,
  read_full_eq _ c.body rest v.body,
  bit_and-0x3f c.chunk_stream_id,
  be24_split c.timestamp,
  be24_split c.body_len,
  be32_split c.message_stream_id,
  be32_split c.timestamp,
)

pub record IsChunk1 (max_body_len : ℕ) (c : Chunk1) : Type 0 where
  pub id : c.chunk_stream_id < 64
  pub timestamp_delta : IsU32 c.timestamp_delta
  pub body_len : IsU24 c.body_len
  pub type : IsByte c.type
  pub body : length c.body ≡ (if ltb max_body_len c.body_len then max_body_len else c.body_len)

abbrev header1 : Chunk1 → ℕ → List ℕ
header1 c t = bit_or 64 c.chunk_stream_id ∷ put_be24 t (put_be24 c.body_len (c.type ∷ []))

-- A type 1 chunk whose fields fit their widths, and whose body is the whole message or a full
-- chunk of it, is read back as it was, and what follows is left.
pub read1-marshal1 :
    (m : ℕ) (c : Chunk1) (rest : List ℕ)
    → IsChunk1 m c
    → read1 m (marshal1 c ++ rest) ≡ ok (c, rest)
unfolding read1 marshal1
read1-marshal1 m c rest v = ground (
  arith,
  read_full_eq 8 (header1 c c.timestamp_delta) (c.body ++ rest) refl,
  read_full_eq 8 (header1 c 0xffffff) (put_be32 c.timestamp_delta (c.body ++ rest)) refl,
  read_full_eq 4 (put_be32 c.timestamp_delta []) (c.body ++ rest) refl,
  read_full_eq _ c.body rest v.body,
  bit_or-64 c.chunk_stream_id,
  bit_and-0x3f (64 + c.chunk_stream_id),
  be24_split c.timestamp_delta,
  be24_split c.body_len,
  be32_split c.timestamp_delta,
)

pub record IsChunk2 (body_len : ℕ) (c : Chunk2) : Type 0 where
  pub id : c.chunk_stream_id < 64
  pub timestamp_delta : IsU32 c.timestamp_delta
  pub body : length c.body ≡ body_len

abbrev header2 : Chunk2 → ℕ → List ℕ
header2 c t = bit_or 128 c.chunk_stream_id ∷ put_be24 t []

-- A type 2 chunk whose fields fit their widths is read back as it was, by a reader that is told
-- the length of its body, and what follows is left.
pub read2-marshal2 :
    (m : ℕ) (c : Chunk2) (rest : List ℕ)
    → IsChunk2 m c
    → read2 m (marshal2 c ++ rest) ≡ ok (c, rest)
unfolding read2 marshal2
read2-marshal2 m c rest v = ground (
  arith,
  read_full_eq 4 (header2 c c.timestamp_delta) (c.body ++ rest) refl,
  read_full_eq 4 (header2 c 0xffffff) (put_be32 c.timestamp_delta (c.body ++ rest)) refl,
  read_full_eq 4 (put_be32 c.timestamp_delta []) (c.body ++ rest) refl,
  read_full_eq m c.body rest v.body,
  bit_or-128 c.chunk_stream_id,
  bit_and-0x3f (128 + c.chunk_stream_id),
  be24_split c.timestamp_delta,
  be32_split c.timestamp_delta,
)

pub record IsChunk3 (body_len : ℕ) (c : Chunk3) : Type 0 where
  pub id : c.chunk_stream_id < 64
  pub body : length c.body ≡ body_len

-- A type 3 chunk whose ID fits is read back as it was, by a reader that is told the length of its
-- body and that agrees on whether there is an extended timestamp; what follows is left.
pub read3-marshal3 :
    (m : ℕ) (b : Bool) (c : Chunk3) (rest : List ℕ)
    → IsChunk3 m c
    → read3 m b (marshal3 b c ++ rest) ≡ ok (c, rest)
unfolding read3 marshal3
read3-marshal3 m true c rest v = ground (
  arith,
  read_full_eq 1 (bit_or 192 c.chunk_stream_id ∷ []) (0 ∷ 0 ∷ 0 ∷ 0 ∷ (c.body ++ rest)) refl,
  read_full_eq 4 (0 ∷ 0 ∷ 0 ∷ 0 ∷ []) (c.body ++ rest) refl,
  read_full_eq m c.body rest v.body,
  bit_or-192 c.chunk_stream_id,
  bit_and-0x3f (192 + c.chunk_stream_id),
)
read3-marshal3 m false c rest v = ground (
  arith,
  read_full_eq 1 (bit_or 192 c.chunk_stream_id ∷ []) (c.body ++ rest) refl,
  read_full_eq m c.body rest v.body,
  bit_or-192 c.chunk_stream_id,
  bit_and-0x3f (192 + c.chunk_stream_id),
)

-- Each marshalled chunk fills its buffer: its length is what `marshalSize` computes.
pub length-marshal :
    (c0 : Chunk0) (c1 : Chunk1) (c2 : Chunk2) (c3 : Chunk3) (b : Bool)
    → (length (marshal0 c0) ≡ marshal_size0 c0)
      × (length (marshal1 c1) ≡ marshal_size1 c1)
      × (length (marshal2 c2) ≡ marshal_size2 c2)
      × (length (marshal3 b c3) ≡ marshal_size3 b c3)
unfolding marshal0 marshal1 marshal2 marshal3 marshal_size0 marshal_size1 marshal_size2
    marshal_size3
length-marshal c0 c1 c2 c3 b = (ground arith, ground arith, ground arith, ground arith)
