-- ===== src/Rtmp/RawMessage/Begun.antt =====
-- A message whose first chunk was read is delivered.
use mediamtx.Base.{
  inl, inr, ◌≤◌, ◌^◌, ℕ, suc, ◌<◌, ◌≡◌, sym, ap, ◌∙◌, Option, none, some, List, [], ◌∷◌, ◌++◌,
  arith, length, take, drop, drop-all, take-all, length-take-drop, take-append-drop, length-drop,
  append-nil,
}
use mediamtx.Rtmp.Bytes.{ok}
use mediamtx.Rtmp.RawMessage.Message.{Message, update}
use mediamtx.Rtmp.RawMessage.Reader.{Reader, ReaderChunkStream, begin, message_of, round}
use mediamtx.Rtmp.RawMessage.Written.{rest_chunks}
use mediamtx.Rtmp.RawMessage.Rounds.{read_loop-none, read_loop-some}
use mediamtx.Rtmp.RawMessage.Receiving.{IsReceiving}
use mediamtx.Rtmp.RawMessage.Delivery.{
  IsUpdated-step, IsUpdated-trans, IsUpdated-rest, idle, Delivers, receive, rest_chunks-[],
  le-cases,
}
use mediamtx.Rtmp.RawMessage.First.{IsReady, Begins}

begin-whole :
    (rc : ReaderChunkStream) (body : List ℕ)
    → rc.cur_body_len ≡ length body
    → begin rc body ≡ (rc, some (message_of rc body))
unfolding begin
begin-whole rc body h = ground arith

begin-part :
    (rc : ReaderChunkStream) (part : List ℕ)
    → length part < rc.cur_body_len
    → begin (idle rc) part
      ≡ (record rc { cur_body_fragments = part ∷ []; cur_body_recv = length part }, none)
unfolding begin
begin-part rc part h = ground arith

module _ (wf fuel id : ℕ) (rc rc₀ : ReaderChunkStream) (r : Reader) (body more rest : List ℕ)
    (v : IsReady id rc₀ r) (b : Begins id rc (take r.chunk_size body) more r)
    (n : rc.cur_body_len ≡ length body) (l : length body < 2 ^ 32)
    (e : more
      ≡ rest_chunks wf r.chunk_size id rc.has_extended_timestamp (drop r.chunk_size body)
        ++ rest) where
  after : ReaderChunkStream → Reader
  after rc' = record r { br = more; chunk_streams = update r.chunk_streams id (some rc') }

  begun :
      (x : ReaderChunkStream × Option Message)
      → begin (idle rc) (take r.chunk_size body) ≡ x
      → round r.br r ≡ ok (id, after x.0, x.1)
  unfolding after
  begun x c = b ∙ ap (λ y. ok (id, after y.0, y.1)) c

  begun_whole : length body ≤ r.chunk_size → Delivers (suc fuel) id rc body rest r
  unfolding after
  begun_whole h = (
    after (idle rc),
    read_loop-some fuel id r (after (idle rc)) _ (
          begun _ (
            begin-whole (idle rc) (take r.chunk_size body)
              (n ∙ ap length (sym (take-all r.chunk_size body h)))))
        ∙ ap (λ b. ok (record (message_of rc b) { chunk_stream_id = id }, after (idle rc)))
            (take-all r.chunk_size body h),
    IsUpdated-rest id (idle rc) more rest r (after (idle rc)) (IsUpdated-step id (idle rc) more r) (
        e
        ∙ ap (λ t. rest_chunks wf r.chunk_size id rc.has_extended_timestamp t ++ rest)
            (drop-all r.chunk_size body h)
        ∙ ap (λ c. c ++ rest) (rest_chunks-[] wf r.chunk_size id rc.has_extended_timestamp)),
  )

  abbrev begun_stream : ReaderChunkStream
  begun_stream = record rc {
    cur_body_fragments = take r.chunk_size body ∷ [];
    cur_body_recv = length (take r.chunk_size body);
  }

  IsReceiving-begun :
      r.chunk_size < length body
      → IsReceiving id (drop r.chunk_size body) begun_stream (after begun_stream)
  unfolding after
  IsReceiving-begun h = record {
    stream = ground arith;
    no_acks = v.no_acks;
    chunk_size = v.chunk_size;
    id_low = v.id_low;
    id_high = v.id_high;
    recv = ap length (sym (append-nil (take r.chunk_size body)));
    begun =
        omega
          (arith, v.chunk_size, length-take-drop r.chunk_size body, length-drop r.chunk_size body);
    body_len = omega (arith, n, length-take-drop r.chunk_size body);
    fits = omega (arith, n, l);
  }

  begun_part :
      r.chunk_size < length body
      → length (drop r.chunk_size body) ≤ wf
      → length (drop r.chunk_size body) ≤ fuel
      → Delivers (suc fuel) id rc body rest r
  unfolding after
  begun_part h k f =
      let (r', p, u) =
        receive wf fuel id begun_stream (after begun_stream) (drop r.chunk_size body) rest
          (IsReceiving-begun h) (omega (arith, length-drop r.chunk_size body)) k f e in
      (
        r',
        read_loop-none fuel id r (after begun_stream) (
              begun _ (
                begin-part rc (take r.chunk_size body) (
                  omega
                    (arith, n, length-take-drop r.chunk_size body, length-drop r.chunk_size body))))
            ∙ p
            ∙ ap (λ b. ok (record (message_of rc b) { chunk_stream_id = id }, r'))
                (ap (λ b. b ++ drop r.chunk_size body) (append-nil (take r.chunk_size body))
                  ∙ take-append-drop r.chunk_size body),
        IsUpdated-trans id begun_stream (idle rc) more rest r r' u,
      )

  -- However long the body is.
  pub begun-Delivers :
      length (drop r.chunk_size body) ≤ wf
      → length (drop r.chunk_size body) ≤ fuel
      → Delivers (suc fuel) id rc body rest r
  begun-Delivers k f = elim (le-cases (length body) r.chunk_size) [
    | inl h ↦ begun_whole h
    | inr h ↦ begun_part h k f
  ]
