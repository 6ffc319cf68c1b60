-- ===== src/Rtmp/RawMessage/First.antt =====
-- The reader on the first chunk of a message.
use mediamtx.Base.{
  ◌≤◌, ◌%◌, ◌^◌, ◌+◌, ℕ, ◌<◌, ◌≡◌, refl, ap, ◌∙◌, true, false, some, List, ◌∷◌, ◌++◌, arith, drop,
  leb,
}
use mediamtx.Rtmp.Bytes.{ok, bind-ok, bit_or-64, bit_or-128, bit_or-192}
use mediamtx.Rtmp.Chunk.{
  Chunk0, Chunk1, Chunk2, Chunk3, marshal0, marshal1, marshal2, marshal3, read0, read1, read2,
  read3,
}
use mediamtx.Rtmp.Chunk.RoundTrip.{
  IsChunk0, IsChunk1, IsChunk2, IsChunk3, read0-marshal0, read1-marshal1, read2-marshal2,
  read3-marshal3,
}
use mediamtx.Rtmp.RawMessage.Message.{update}
use mediamtx.Rtmp.RawMessage.Reader.{
  Reader, ReaderChunkStream, begin, finish_first, max_body_size, chunk_body_len, read_message,
  read_type0, read_type1, read_type2, read_type3_first, round, stream_of,
}
use mediamtx.Rtmp.RawMessage.Rounds.{
  check_ack_eq, round_eq, id_of_type0, id_of_type1, id_of_type2, id_of_type3,
}
use mediamtx.Rtmp.RawMessage.Delivery.{idle}
use Prim.Native.Nat.{bit_and, bit_or}

-- A reader that waits for a message on stream `id`, and waits for no acknowledgement.
pub record IsReady (id : ℕ) (rc : ReaderChunkStream) (r : Reader) : Type 0 where
  pub stream : stream_of (r.chunk_streams id) ≡ idle rc
  pub no_acks : r.ack_window_size ≡ 0
  pub chunk_size : 0 < r.chunk_size
  pub id_low : 2 ≤ id
  pub id_high : id < 64

-- The round has read a part of a message, and the stream is then as given.
abbrev pub Begins : ℕ → ReaderChunkStream → List ℕ → List ℕ → Reader → Type 0
Begins id rc part more r =
    round r.br r
    ≡ ok (
      id,
      record r {
        br = more;
        chunk_streams = update r.chunk_streams id (some (begin (idle rc) part).0);
      },
      (begin (idle rc) part).1,
    )

marshal0_head : (c : Chunk0) → marshal0 c ≡ c.chunk_stream_id ∷ drop 1 (marshal0 c)
unfolding marshal0
marshal0_head c = ground arith

marshal1_head : (c : Chunk1) → marshal1 c ≡ bit_or 64 c.chunk_stream_id ∷ drop 1 (marshal1 c)
unfolding marshal1
marshal1_head c = ground arith

marshal2_head : (c : Chunk2) → marshal2 c ≡ bit_or 128 c.chunk_stream_id ∷ drop 1 (marshal2 c)
unfolding marshal2
marshal2_head c = ground arith

module _ (id : ℕ) (rc : ReaderChunkStream) (r : Reader) (more : List ℕ) (v : IsReady id rc r) where
  abbrev pub stream_of_type0 : Chunk0 → ReaderChunkStream
  stream_of_type0 c = record rc {
    cur_message_stream_id = c.message_stream_id;
    cur_type = c.type;
    cur_timestamp = c.timestamp;
    cur_timestamp_available = true;
    cur_timestamp_delta_available = false;
    cur_body_len = c.body_len;
    has_extended_timestamp = leb 0xffffff c.timestamp;
  }

  read_type0_eq :
      (c : Chunk0)
      → read0 r.chunk_size r.br ≡ ok (c, more)
      → c.body_len ≤ max_body_size
      → read_type0 (idle rc) r
        ≡ finish_first (idle (stream_of_type0 c)) (record r { br = more }) c.body
  unfolding read_type0
  read_type0_eq c e h =
      bind-ok _ (c, more) _ e
      ∙ bind-ok _ (record r { br = more }) _ (check_ack_eq more r v.no_acks)
      ∙ ground arith

  pub round-type0 :
      (c : Chunk0)
      → r.br ≡ marshal0 c ++ more
      → c.chunk_stream_id ≡ id
      → IsChunk0 r.chunk_size c
      → c.body_len ≤ max_body_size
      → Begins id (stream_of_type0 c) c.body more r
  unfolding read_message finish_first
  round-type0 c e i w h =
      ap (λ x. round x r) (e ∙ ap (λ b. b ++ more) (marshal0_head c))
      ∙ round_eq c.chunk_stream_id id 0 _ (r.chunk_streams id) r
          (
            (begin (idle (stream_of_type0 c)) c.body).0,
            record r { br = more },
            (begin (idle (stream_of_type0 c)) c.body).1,
          )
          (ap (λ b. bit_and b 0x3f) i ∙ id_of_type0 id v.id_high) (omega (arith, w.id)) v.id_low
          refl
          (ap (λ s. read_message 0 s r) v.stream
            ∙ read_type0_eq c
                (ap (λ br. read0 r.chunk_size br) e ∙ read0-marshal0 r.chunk_size c more w) h)

  -- The reader's view of a delta.
  abbrev pub after_delta : ReaderChunkStream → ℕ → ReaderChunkStream
  after_delta rc delta = record rc {
    cur_timestamp = (rc.cur_timestamp + delta) % 2 ^ 32;
    cur_timestamp_delta = delta;
    cur_timestamp_delta_available = true;
    has_extended_timestamp = leb 0xffffff delta;
  }

  abbrev pub stream_of_type1 : Chunk1 → ReaderChunkStream
  stream_of_type1 c = record (after_delta rc c.timestamp_delta) {
    cur_type = c.type;
    cur_body_len = c.body_len;
  }

  read_type1_eq :
      (c : Chunk1)
      → read1 r.chunk_size r.br ≡ ok (c, more)
      → rc.cur_timestamp_available ≡ true
      → c.body_len ≤ max_body_size
      → read_type1 (idle rc) r
        ≡ finish_first (idle (stream_of_type1 c)) (record r { br = more }) c.body
  unfolding read_type1
  read_type1_eq c e t h = ground (arith, check_ack_eq more r v.no_acks)

  pub round-type1 :
      (c : Chunk1)
      → r.br ≡ marshal1 c ++ more
      → c.chunk_stream_id ≡ id
      → IsChunk1 r.chunk_size c
      → rc.cur_timestamp_available ≡ true
      → c.body_len ≤ max_body_size
      → Begins id (stream_of_type1 c) c.body more r
  unfolding read_message finish_first
  round-type1 c e i w t h =
      ap (λ x. round x r) (e ∙ ap (λ b. b ++ more) (marshal1_head c))
      ∙ round_eq (bit_or 64 c.chunk_stream_id) id 1 _ (r.chunk_streams id) r
          (
            (begin (idle (stream_of_type1 c)) c.body).0,
            record r { br = more },
            (begin (idle (stream_of_type1 c)) c.body).1,
          )
          (ap (λ b. bit_and (bit_or 64 b) 0x3f) i ∙ id_of_type1 id v.id_high)
          (omega (arith, w.id, bit_or-64 c.chunk_stream_id)) v.id_low refl
          (ap (λ s. read_message 1 s r) v.stream
            ∙ read_type1_eq c
                (ap (λ br. read1 r.chunk_size br) e ∙ read1-marshal1 r.chunk_size c more w) t h)

  read_type2_eq :
      (c : Chunk2)
      → read2 (chunk_body_len rc.cur_body_len r.chunk_size) r.br ≡ ok (c, more)
      → rc.cur_timestamp_available ≡ true
      → read_type2 (idle rc) r
        ≡ finish_first (idle (after_delta rc c.timestamp_delta)) (record r { br = more }) c.body
  unfolding read_type2
  read_type2_eq c e t = ground (arith, check_ack_eq more r v.no_acks)

  pub round-type2 :
      (c : Chunk2)
      → r.br ≡ marshal2 c ++ more
      → c.chunk_stream_id ≡ id
      → IsChunk2 (chunk_body_len rc.cur_body_len r.chunk_size) c
      → rc.cur_timestamp_available ≡ true
      → Begins id (after_delta rc c.timestamp_delta) c.body more r
  unfolding read_message finish_first
  round-type2 c e i w t =
      let n = chunk_body_len rc.cur_body_len r.chunk_size in
      let rc' = idle (after_delta rc c.timestamp_delta) in
      ap (λ x. round x r) (e ∙ ap (λ b. b ++ more) (marshal2_head c))
      ∙ round_eq (bit_or 128 c.chunk_stream_id) id 2 _ (r.chunk_streams id) r
          ((begin rc' c.body).0, record r { br = more }, (begin rc' c.body).1)
          (ap (λ b. bit_and (bit_or 128 b) 0x3f) i ∙ id_of_type2 id v.id_high)
          (omega (arith, w.id, bit_or-128 c.chunk_stream_id)) v.id_low refl
          (ap (λ s. read_message 2 s r) v.stream
            ∙ read_type2_eq c (ap (λ br. read2 n br) e ∙ read2-marshal2 n c more w) t)

  abbrev pub after_same_delta : ReaderChunkStream
  after_same_delta = record rc {
    cur_timestamp = (rc.cur_timestamp + rc.cur_timestamp_delta) % 2 ^ 32;
  }

  read_type3_first_eq :
      (c : Chunk3)
      → read3 (chunk_body_len rc.cur_body_len r.chunk_size) rc.has_extended_timestamp r.br
        ≡ ok (c, more)
      → rc.cur_timestamp_delta_available ≡ true
      → read_type3_first (idle rc) r
        ≡ finish_first (idle after_same_delta) (record r { br = more }) c.body
  unfolding read_type3_first
  read_type3_first_eq c e t = ground (arith, check_ack_eq more r v.no_acks)

  pub round-type3 :
      (c : Chunk3)
      → r.br ≡ marshal3 rc.has_extended_timestamp c ++ more
      → c.chunk_stream_id ≡ id
      → IsChunk3 (chunk_body_len rc.cur_body_len r.chunk_size) c
      → rc.cur_timestamp_delta_available ≡ true
      → Begins id after_same_delta c.body more r
  unfolding read_message finish_first marshal3
  round-type3 c e i w t =
      let n = chunk_body_len rc.cur_body_len r.chunk_size in
      let x = rc.has_extended_timestamp in
      let rc' = idle after_same_delta in
      ap (λ x. round x r) e
      ∙ round_eq (bit_or 192 c.chunk_stream_id) id 3 _ (r.chunk_streams id) r
          ((begin rc' c.body).0, record r { br = more }, (begin rc' c.body).1)
          (ap (λ b. bit_and (bit_or 192 b) 0x3f) i ∙ id_of_type3 id v.id_high)
          (omega (arith, w.id, bit_or-192 c.chunk_stream_id)) v.id_low refl
          (ap (λ s. read_message 3 s r) v.stream
            ∙ read_type3_first_eq c (ap (λ br. read3 n x br) e ∙ read3-marshal3 n x c more w) t)
