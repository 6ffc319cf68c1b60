-- ===== src/Rtmp/RawMessage/Rounds.antt =====
-- Rounds of the reader where no acknowledgements are due.
use mediamtx.Base.{
  refl, ap, ◌<◌, ◌≤◌, ◌-◌, ◌%◌, ◌^◌, ◌+◌, ◌/◌, ℕ, suc, ◌≡◌, ◌∙◌, Option, none, some, List, ◌∷◌,
  arith, ap,
}
use mediamtx.Rtmp.Bytes.{ok, bind-ok, bit_and-0x3f, bit_or-64, bit_or-128, bit_or-192}
use mediamtx.Rtmp.Chunk.{Chunk3, read3}
use mediamtx.Rtmp.RawMessage.Message.{Message, update}
use mediamtx.Rtmp.RawMessage.Reader.{
  Reader, ReaderChunkStream, continue, check_ack, read_type3_more, chunk_body_len, read_message,
  round, read_loop, stream_of,
}
use Prim.Native.Nat.{bit_and, bit_or}

-- The first byte of a chunk carries its type and the chunk stream ID.
masked : (f id : ℕ) → f < 192 + 1 → f % 64 ≡ 0 → id < 64 → bit_and (f + id) 0x3f ≡ id
masked f id h m l = bit_and-0x3f (f + id) (omega arith) ∙ omega arith

pub id_of_type0 : (id : ℕ) → id < 64 → bit_and id 0x3f ≡ id
id_of_type0 id h = bit_and-0x3f id (omega arith) ∙ omega arith

pub id_of_type1 : (id : ℕ) → id < 64 → bit_and (bit_or 64 id) 0x3f ≡ id
id_of_type1 id h = ap (λ b. bit_and b 0x3f) (bit_or-64 id h) ∙ masked 64 id (omega arith) refl h

pub id_of_type2 : (id : ℕ) → id < 64 → bit_and (bit_or 128 id) 0x3f ≡ id
id_of_type2 id h = ap (λ b. bit_and b 0x3f) (bit_or-128 id h) ∙ masked 128 id (omega arith) refl h

pub id_of_type3 : (id : ℕ) → id < 64 → bit_and (bit_or 192 id) 0x3f ≡ id
id_of_type3 id h = ap (λ b. bit_and b 0x3f) (bit_or-192 id h) ∙ masked 192 id (omega arith) refl h

pub check_ack_eq :
    (br : List ℕ) (r : Reader) → r.ack_window_size ≡ 0 → check_ack br r ≡ ok (record r { br = br })
unfolding check_ack
check_ack_eq br r h = ground arith

-- How much the next type 3 chunk of a message takes.
abbrev pub next_len : ReaderChunkStream → Reader → ℕ
next_len rc r = chunk_body_len ((rc.cur_body_len + 2 ^ 32 - rc.cur_body_recv) % 2 ^ 32) r.chunk_size

pub read_type3_more_eq :
    (rc : ReaderChunkStream) (r : Reader) (c : Chunk3) (more : List ℕ)
    → read3 (next_len rc r) rc.has_extended_timestamp r.br ≡ ok (c, more)
    → r.ack_window_size ≡ 0
    → read_type3_more rc r
      ≡ ok ((continue rc c.body).0, record r { br = more }, (continue rc c.body).1)
unfolding read_type3_more
read_type3_more_eq rc r c more e h =
    bind-ok _ (c, more) _ e ∙ bind-ok _ (record r { br = more }) _ (check_ack_eq more r h)

pub round_eq :
    (b id typ : ℕ) (bs : List ℕ) (o : Option ReaderChunkStream) (r : Reader)
    (x : ReaderChunkStream × Reader × Option Message)
    → bit_and b 0x3f ≡ id
    → b / 64 ≡ typ
    → 2 ≤ id
    → r.chunk_streams id ≡ o
    → read_message typ (stream_of o) r ≡ ok x
    → round (b ∷ bs) r
      ≡ ok (id, record x.1 { chunk_streams = update x.1.chunk_streams id (some x.0) }, x.2)
unfolding round
round_eq b id typ bs o r x i t h s e = ground arith

pub read_loop-none :
    (fuel id : ℕ) (r r' : Reader)
    → round r.br r ≡ ok (id, r', none)
    → read_loop (suc fuel) r ≡ read_loop fuel r'
unfolding read_loop
read_loop-none fuel id r r' e = bind-ok _ (id, r', none) _ e

pub read_loop-some :
    (fuel id : ℕ) (r r' : Reader) (m : Message)
    → round r.br r ≡ ok (id, r', some m)
    → read_loop (suc fuel) r ≡ ok (record m { chunk_stream_id = id }, r')
unfolding read_loop
read_loop-some fuel id r r' m e = bind-ok _ (id, r', some m) _ e
