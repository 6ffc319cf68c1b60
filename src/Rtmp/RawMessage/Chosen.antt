-- ===== src/Rtmp/RawMessage/Chosen.antt =====
-- The writer's choice of the first chunk's type suits the reader.
use mediamtx.Base.{
  inl, inr, Bool-cases, ◌≤◌, ◌%◌, ◌^◌, ◌/◌, ◌&&◌, ℕ, ◌≡◌, sym, ap, ◌∙◌, Bool, true, false, none,
  some, List, arith, length, take, leb,
}
use mathlib.Core.Path.{subst}
use mediamtx.Rtmp.Chunk.{marshal0}
use mediamtx.Rtmp.RawMessage.Message.{Message, millisecond}
use mediamtx.Rtmp.RawMessage.Reader.{Reader, ReaderChunkStream}
use mediamtx.Rtmp.RawMessage.Writer.{
  WriterChunkStream, first_chunk, delta_from, is_value, next_delta,
}
use mediamtx.Rtmp.RawMessage.First.{IsReady}
use mediamtx.Rtmp.RawMessage.Synced.{
  IsSendable, IsSynced, Opens, Opens-eq, chunk0, delta, Opens-type0, Opens-type1, Opens-type2,
  Opens-type3,
}

abbrev pub ts : Message → ℕ
ts msg = msg.timestamp / millisecond

-- The first chunk that the writer sends to this reader.
abbrev pub opening : WriterChunkStream → Message → Reader → List ℕ × Bool
opening wc msg r =
    first_chunk wc msg (ts msg) (take r.chunk_size msg.body) (delta_from wc.last_timestamp (ts msg))

abbrev pub Announces : WriterChunkStream → Message → Reader → Type 0
Announces wc msg r =
    Opens msg r (opening wc msg r) (next_delta wc (delta_from wc.last_timestamp (ts msg)))

module _ (wc : WriterChunkStream) (rc : ReaderChunkStream) (msg : Message) (r : Reader)
    (v : IsReady msg.chunk_stream_id rc r) (s : IsSendable msg) where
  pub Announces-fresh :
      wc.last_timestamp ≡ none → wc.last_timestamp_delta ≡ none → Announces wc msg r
  unfolding first_chunk
  Announces-fresh t d =
      subst
        (λ o.
          Opens msg r
            (first_chunk wc msg (ts msg) (take r.chunk_size msg.body) (delta_from o (ts msg)))
            (next_delta wc (delta_from o (ts msg))))
        (sym t)
        (subst (λ o. Opens msg r (marshal0 (chunk0 rc msg r v s), leb 0xffffff (ts msg % 2 ^ 32)) o)
          (sym d) (Opens-type0 rc msg r v s))

  module _ (y : IsSynced wc rc) (m : rc.cur_message_stream_id ≡ msg.message_stream_id)
      (l : rc.cur_timestamp ≤ ts msg) where
    delta_from_eq :
        delta_from wc.last_timestamp (ts msg) ≡ some (delta rc msg r v s y.available m l)
    delta_from_eq = ap (λ o. delta_from o (ts msg)) y.timestamp ∙ ground arith

    abbrev d : ℕ
    d = delta rc msg r v s y.available m l

    abbrev chosen : List ℕ × Bool
    chosen = first_chunk wc msg (ts msg) (take r.chunk_size msg.body) (some d)

    -- The type and the length are those of the last message.
    abbrev is_alike : Bool
    is_alike = is_value wc.last_type msg.type && is_value wc.last_body_len (length msg.body)

    same_stream : is_value wc.last_message_stream_id msg.message_stream_id ≡ true
    same_stream = ground (arith, y.message_stream_id, m)

    Opens-unlike : is_alike ≡ false → Opens msg r chosen (some d)
    unfolding first_chunk
    Opens-unlike e =
        Opens-eq msg r _ _ _ (ground (arith, same_stream))
          (Opens-type1 rc msg r v s y.available m l)

    Opens-alike : is_alike ≡ true → Opens msg r chosen (some d)
    unfolding first_chunk
    Opens-alike e =
        let ty : rc.cur_type ≡ msg.type = ground (arith, y.type) in
        let n : rc.cur_body_len ≡ length msg.body = ground (arith, y.body_len) in
        elim (Bool-cases (is_value wc.last_timestamp_delta d)) [
          | inl h ↦ Opens-eq msg r _ _ _ (ground (arith, same_stream, y.extended)) (
              Opens-type3 rc msg r v s y.available m l ty n (ground (arith, y.delta))
                (ground (arith, y.delta)))
          | inr h ↦
              Opens-eq msg r _ _ _ (ground (arith, same_stream))
                (Opens-type2 rc msg r v s y.available m l ty n)
        ]

    pub Announces-synced : Announces wc msg r
    Announces-synced =
        subst
          (λ o.
            Opens msg r (first_chunk wc msg (ts msg) (take r.chunk_size msg.body) o)
              (next_delta wc o))
          (sym delta_from_eq)
          (elim (Bool-cases is_alike) [ inl h ↦ Opens-alike h | inr h ↦ Opens-unlike h ])
