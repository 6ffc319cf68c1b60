-- ===== src/Rtmp/RawMessage/Progress.antt =====
-- The reader's loop ends on every input: each round takes a byte at least.
use mediamtx.Base.{
  ◌==◌, ◌+◌, ◌-◌, ◌^◌, ◌%◌, ◌/◌, ltb, not, ℕ, zero, suc, ◌<◌, refl, Option, none, some, List, [],
  ◌∷◌, arith, length, not, ltb,
}
use mediamtx.Rtmp.Bytes.{
  expected_type_3, body_too_large, without_previous_chunk, extended_chunk_stream_id, Result, ok,
  err,
}
use mediamtx.Rtmp.Chunk.{read0, read1, read2, read3}
use mediamtx.Rtmp.RawMessage.Message.{Message}
use mediamtx.Rtmp.RawMessage.Reader.{
  max_body_size, chunk_body_len, stream_of, Reader, ReaderChunkStream, send_ack, check_ack,
  read_type0, read_type1, read_type2, read_type3_more, read_type3_first, read_message, round,
  read_loop, read, chunk_body_len,
}
use Prim.Native.Nat.{bit_and}
use mediamtx.Rtmp.Chunk.Progress.{
  Good, Good-bind, Good-if, Good-guard, Leaves, read0-Leaves, read1-Leaves, read2-Leaves,
  read3-Leaves,
}

check_ack-Leaves :
    (br : List ℕ) (r : Reader) (k : ℕ)
    → length br < k
    → Good (λ r'. length r'.br < k) (check_ack br r)
unfolding check_ack send_ack
check_ack-Leaves br r k h = ground arith

abbrev StepLeaves : ℕ → ReaderChunkStream × Reader × Option Message → Type 0
StepLeaves n x = length x.1.br < n

module _ (rc : ReaderChunkStream) (r : Reader) where
  read_type0-StepLeaves : Good (StepLeaves (length r.br)) (read_type0 rc r)
  unfolding read_type0
  read_type0-StepLeaves =
      Good-guard (StepLeaves (length r.br)) expected_type_3 (not (rc.cur_body_recv == 0)) _ refl (
        Good-bind (Leaves (length r.br)) _ (read0 r.chunk_size r.br) _
          (read0-Leaves r.chunk_size r.br)
          λ x h.
            Good-bind (λ r'. length r'.br < length r.br) _ (check_ack x.1 r) _
              (check_ack-Leaves x.1 r _ h)
              (λ r' k.
                Good-guard (StepLeaves (length r.br)) body_too_large
                  (ltb max_body_size x.0.body_len) _ refl k))

  read_type1-StepLeaves : Good (StepLeaves (length r.br)) (read_type1 rc r)
  unfolding read_type1
  read_type1-StepLeaves =
      Good-guard (StepLeaves (length r.br)) without_previous_chunk (not rc.cur_timestamp_available)
        _ refl
        (Good-guard (StepLeaves (length r.br)) expected_type_3 (not (rc.cur_body_recv == 0)) _ refl
          (Good-bind (Leaves (length r.br)) _ (read1 r.chunk_size r.br) _
            (read1-Leaves r.chunk_size r.br)
            λ x h.
              Good-bind (λ r'. length r'.br < length r.br) _ (check_ack x.1 r) _
                (check_ack-Leaves x.1 r _ h)
                (λ r' k.
                  Good-guard (StepLeaves (length r.br)) body_too_large
                    (ltb max_body_size x.0.body_len) _ refl k)))

  read_type2-StepLeaves : Good (StepLeaves (length r.br)) (read_type2 rc r)
  unfolding read_type2
  read_type2-StepLeaves =
      Good-guard (StepLeaves (length r.br)) without_previous_chunk (not rc.cur_timestamp_available)
        _ refl
        (Good-guard (StepLeaves (length r.br)) expected_type_3 (not (rc.cur_body_recv == 0)) _ refl
          (Good-bind (Leaves (length r.br)) _
            (read2 (chunk_body_len rc.cur_body_len r.chunk_size) r.br) _
            (read2-Leaves (chunk_body_len rc.cur_body_len r.chunk_size) r.br)
            λ x h.
              Good-bind (λ r'. length r'.br < length r.br) _ (check_ack x.1 r) _
                (check_ack-Leaves x.1 r _ h) (λ r' k. k)))

  read_type3_more-StepLeaves : Good (StepLeaves (length r.br)) (read_type3_more rc r)
  unfolding read_type3_more
  read_type3_more-StepLeaves =
      Good-bind (Leaves (length r.br)) _
        (read3
          (chunk_body_len ((rc.cur_body_len + 2 ^ 32 - rc.cur_body_recv) % 2 ^ 32) r.chunk_size)
          rc.has_extended_timestamp r.br)
        _
        (read3-Leaves
          (chunk_body_len ((rc.cur_body_len + 2 ^ 32 - rc.cur_body_recv) % 2 ^ 32) r.chunk_size)
          r.br rc.has_extended_timestamp)
        λ x h.
          Good-bind (λ r'. length r'.br < length r.br) _ (check_ack x.1 r) _
            (check_ack-Leaves x.1 r _ h) (λ r' k. k)

  read_type3_first-StepLeaves : Good (StepLeaves (length r.br)) (read_type3_first rc r)
  unfolding read_type3_first
  read_type3_first-StepLeaves =
      Good-guard (StepLeaves (length r.br)) without_previous_chunk
        (not rc.cur_timestamp_delta_available) _ refl
        (Good-bind (Leaves (length r.br)) _
          (read3 (chunk_body_len rc.cur_body_len r.chunk_size) rc.has_extended_timestamp r.br) _
          (read3-Leaves (chunk_body_len rc.cur_body_len r.chunk_size) r.br
            rc.has_extended_timestamp)
          λ x h.
            Good-bind (λ r'. length r'.br < length r.br) _ (check_ack x.1 r) _
              (check_ack-Leaves x.1 r _ h) (λ r' k. k))

  read_message-StepLeaves : (typ : ℕ) → Good (StepLeaves (length r.br)) (read_message typ rc r)
  unfolding read_message
  read_message-StepLeaves typ =
      Good-if (StepLeaves (length r.br)) (typ == 0) _ _ read_type0-StepLeaves (
        Good-if (StepLeaves (length r.br)) (typ == 1) _ _ read_type1-StepLeaves (
          Good-if (StepLeaves (length r.br)) (typ == 2) _ _ read_type2-StepLeaves (
            Good-if (StepLeaves (length r.br)) (not (rc.cur_body_recv == 0)) _ _
              read_type3_more-StepLeaves read_type3_first-StepLeaves)))

abbrev RoundLeaves : ℕ → ℕ × Reader × Option Message → Type 0
RoundLeaves n x = length x.1.br < n

round-RoundLeaves : (br : List ℕ) (r : Reader) → Good (RoundLeaves (length r.br)) (round br r)
unfolding round
round-RoundLeaves [] r = refl
round-RoundLeaves (b ∷ bs) r =
    Good-guard (RoundLeaves (length r.br)) extended_chunk_stream_id (ltb (bit_and b 0x3f) 2) _ refl
      (Good-bind (StepLeaves (length r.br)) _
        (read_message (b / 64) (stream_of (r.chunk_streams (bit_and b 0x3f))) r) _
        (read_message-StepLeaves (stream_of (r.chunk_streams (bit_and b 0x3f))) r (b / 64))
        (λ x h. h))

Good-map :
    {A : Type 0} (P Q : A → Type 0) (m : Result A) → ((a : A) → P a → Q a) → Good P m → Good Q m
Good-map P Q (ok a) k h = k a h
Good-map P Q (err e) k h = h

read_loop-Good :
    (fuel : ℕ) (r : Reader)
    → length r.br < fuel
    → Good (λ x. length x.1.br < length r.br) (read_loop fuel r)
unfolding read_loop
read_loop-Good zero r h = absurd (omega arith)
read_loop-Good (suc fuel) r h =
    Good-bind (RoundLeaves (length r.br)) _ (round r.br r) _ (round-RoundLeaves r.br r)
      (λ x k. go (read_loop-Good fuel) x.2 x.0 x.1 k)
  where
    go :
        ((q : Reader)
          → length q.br < fuel
          → Good (λ x. length x.1.br < length q.br) (read_loop fuel q))
        → (o : Option Message) (id : ℕ) (q : Reader) → length q.br < length r.br
        → Good
            (λ x. length x.1.br < length r.br)
            (elim o [
              | none ↦ read_loop fuel q
              | some m ↦ ok (record m { chunk_stream_id = id }, q)
            ])
    go ih none id q k =
        Good-map (λ x. length x.1.br < length q.br) _ (read_loop fuel q) (λ x l. omega arith)
          (ih q (omega arith))
    go ih (some m) id q k = k

-- On every input `Read` ends, with a message and fewer bytes left, or with one of Go's errors: the
-- fuel of the loop suffices.
pub read-Good : (r : Reader) → Good (λ x. length x.1.br < length r.br) (read r)
unfolding read
read-Good r = read_loop-Good (suc (length r.br)) r (omega arith)
