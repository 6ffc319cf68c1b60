-- ===== src/Rtmp/RawMessage/Delivery.antt =====
-- A body that arrives in type 3 chunks becomes a message.
use mediamtx.Base.{
  sym, drop-all, Bool, ◌⊎◌, inl, inr, zero, length-drop, take-all, ◌≤◌, ◌≢◌, ℕ, suc, ◌<◌, ◌≡◌, refl,
  ap, ◌∙◌, Option, some, List, [], ◌∷◌, ◌++◌, arith, length, take, drop, length-take-drop,
  take-append-drop, length-drop, length-append, flatten, append_assoc,
}
use mediamtx.Rtmp.RawMessage.Written.{rest_chunks}
use mediamtx.Rtmp.Bytes.{ok}
use mediamtx.Rtmp.Chunk.{marshal3}
use mediamtx.Rtmp.RawMessage.Message.{Message, update}
use mediamtx.Rtmp.RawMessage.Reader.{
  Reader, ReaderChunkStream, continue, message_of, round, read_loop,
}
use mediamtx.Rtmp.RawMessage.Rounds.{next_len, read_loop-none, read_loop-some}
use mediamtx.Rtmp.RawMessage.Receiving.{
  flatten-snoc, IsReceiving, more_received, all_received, continue-more, continue-last,
  round-continue,
}

-- The reader has changed only in its input and in the stream `id`.
pub record IsUpdated (id : ℕ) (rc : ReaderChunkStream) (rest : List ℕ) (r r' : Reader)
    : Type 0 where
  pub br : r'.br ≡ rest
  pub stream : r'.chunk_streams id ≡ some rc
  pub others : (j : ℕ) → id ≢ j → r'.chunk_streams j ≡ r.chunk_streams j
  pub chunk_size : r'.chunk_size ≡ r.chunk_size
  pub ack_window_size : r'.ack_window_size ≡ r.ack_window_size

-- A stream between two messages.
abbrev pub idle : ReaderChunkStream → ReaderChunkStream
idle rc = record rc { cur_body_fragments = []; cur_body_recv = 0 }

-- `read_loop` gives the message that stream `id` has been waiting for.
abbrev pub Delivers : ℕ → ℕ → ReaderChunkStream → List ℕ → List ℕ → Reader → Type 0
Delivers fuel id rc body rest r =
    (r' : Reader) × (read_loop fuel r
      ≡ ok (record (message_of rc body) { chunk_stream_id = id }, r'))
    × IsUpdated id (idle rc) rest r r'

-- A change of the input and of the stream `id` before the rest.
pub IsUpdated-trans :
    (id : ℕ) (rc rc' : ReaderChunkStream) (more rest : List ℕ) (r r' : Reader)
    → IsUpdated id rc' rest
        (record r { br = more; chunk_streams = update r.chunk_streams id (some rc) })
        r'
    → IsUpdated id rc' rest r r'
IsUpdated-trans id rc rc' more rest r r' u = record {
  br = u.br;
  stream = u.stream;
  others = λ j h. ground (arith, u.others j h);
  chunk_size = u.chunk_size;
  ack_window_size = u.ack_window_size;
}

pub IsUpdated-step :
    (id : ℕ) (rc : ReaderChunkStream) (more : List ℕ) (r : Reader)
    → IsUpdated id rc more r
        (record r { br = more; chunk_streams = update r.chunk_streams id (some rc) })
IsUpdated-step id rc more r = record {
  br = refl;
  stream = ground arith;
  others = λ j h. ground arith;
  chunk_size = refl;
  ack_window_size = refl;
}

flatten-parts :
    (xss : List (List ℕ)) (n : ℕ) (body : List ℕ)
    → flatten (xss ++ (take n body ∷ [])) ++ drop n body ≡ flatten xss ++ body
flatten-parts xss n body =
    ap (λ b. b ++ drop n body) (flatten-snoc xss (take n body))
    ∙ append_assoc (flatten xss) (take n body) (drop n body)
    ∙ ap (λ b. flatten xss ++ b) (take-append-drop n body)

pub IsUpdated-rest :
    (id : ℕ) (rc : ReaderChunkStream) (more rest : List ℕ) (r r' : Reader)
    → IsUpdated id rc more r r'
    → more ≡ rest
    → IsUpdated id rc rest r r'
IsUpdated-rest id rc more rest r r' u e = record {
  br = u.br ∙ e;
  stream = u.stream;
  others = u.others;
  chunk_size = u.chunk_size;
  ack_window_size = u.ack_window_size;
}

module _ (id : ℕ) (rc : ReaderChunkStream) (r : Reader) (body more : List ℕ)
    (v : IsReceiving id body rc r)
    (e : r.br
      ≡ marshal3 rc.has_extended_timestamp
          (record { chunk_stream_id = id; body = take r.chunk_size body })
        ++ more) where
  length-part : length (take r.chunk_size body) ≡ next_len rc r
  length-part =
      ground (
        arith,
        length-take-drop r.chunk_size body,
        length-drop r.chunk_size body,
        v.body_len,
        v.fits,
      )

  after : ReaderChunkStream → Reader
  after rc' = record r { br = more; chunk_streams = update r.chunk_streams id (some rc') }

  round-part :
      (x : ReaderChunkStream × Option Message)
      → continue rc (take r.chunk_size body) ≡ x
      → round r.br r ≡ ok (id, after x.0, x.1)
  unfolding after
  round-part x c =
      round-continue id rc r (take r.chunk_size body) body more v length-part e
      ∙ ap (λ y. ok (id, after y.0, y.1)) c

  receive-last :
      (fuel : ℕ)
      → length body ≤ r.chunk_size
      → Delivers (suc fuel) id rc (flatten rc.cur_body_fragments ++ body) more r
  unfolding after
  receive-last fuel h =
      let whole = take-all r.chunk_size body h in
      let rc' = all_received rc (take r.chunk_size body) in
      (
        after rc',
        read_loop-some fuel id r (after rc') _ (
              round-part _ (
                continue-last rc (take r.chunk_size body) v.fits
                  (omega (arith, v.body_len, ap length whole)) v.recv))
            ∙ ap
                (λ b. ok (
                  record (message_of rc (flatten rc.cur_body_fragments ++ b)) {
                    chunk_stream_id = id;
                  },
                  after rc',
                ))
                whole,
        IsUpdated-step id rc' more r,
      )

  IsReceiving-more :
      r.chunk_size < length body
      → IsReceiving id
          (drop r.chunk_size body)
          (more_received rc (take r.chunk_size body))
          (after (more_received rc (take r.chunk_size body)))
  unfolding after
  IsReceiving-more h = record {
    stream = ground arith;
    no_acks = v.no_acks;
    chunk_size = v.chunk_size;
    id_low = v.id_low;
    id_high = v.id_high;
    recv = omega (
      arith,
      v.recv,
      ap length (flatten-snoc rc.cur_body_fragments (take r.chunk_size body)),
      length-append (flatten rc.cur_body_fragments) (take r.chunk_size body),
    );
    begun = omega (arith, v.begun);
    body_len = omega (arith, v.body_len, length-take-drop r.chunk_size body);
    fits = v.fits;
  }

  receive-more :
      (fuel : ℕ) (rest : List ℕ)
      → r.chunk_size < length body
      → ((r' : Reader)
          → IsReceiving id (drop r.chunk_size body) (more_received rc (take r.chunk_size body)) r'
          → r'.br ≡ more
          → r'.chunk_size ≡ r.chunk_size
          → Delivers fuel id rc
              (flatten (rc.cur_body_fragments ++ (take r.chunk_size body ∷ []))
                ++ drop r.chunk_size body)
              rest
              r')
      → Delivers (suc fuel) id rc (flatten rc.cur_body_fragments ++ body) rest r
  unfolding after
  receive-more fuel rest h k =
      let rc' = more_received rc (take r.chunk_size body) in
      let (r', p, u) = k (after rc') (IsReceiving-more h) refl refl in
      (
        r',
        read_loop-none fuel id r (after rc') (
              round-part _ (
                continue-more rc (take r.chunk_size body) v.fits (
                  omega (
                    arith,
                    v.body_len,
                    length-take-drop r.chunk_size body,
                    length-drop r.chunk_size body,
                  ))))
            ∙ p
            ∙ ap (λ b. ok (record (message_of rc b) { chunk_stream_id = id }, r'))
                (flatten-parts rc.cur_body_fragments r.chunk_size body),
        IsUpdated-trans id rc' (idle rc) more rest r r' u,
      )

pub le-cases : (m n : ℕ) → (m ≤ n) ⊎ (n < m)
le-cases zero n = inl (omega arith)
le-cases (suc m) zero = inr (omega arith)
le-cases (suc m) (suc n) = elim (le-cases m n) [
  | inl h ↦ inl (omega (arith, h))
  | inr h ↦ inr (omega (arith, h))
]

pub rest_chunks-[] : (wf n id : ℕ) (ext : Bool) → rest_chunks wf n id ext [] ≡ []
unfolding rest_chunks
rest_chunks-[] zero n id ext = refl
rest_chunks-[] (suc wf) n id ext = refl

-- The rest of a body is received, however many chunks it takes.
pub receive :
    (wf fuel id : ℕ) (rc : ReaderChunkStream) (r : Reader) (body rest : List ℕ)
    → IsReceiving id body rc r
    → 0 < length body
    → length body ≤ wf
    → length body ≤ fuel
    → r.br ≡ rest_chunks wf r.chunk_size id rc.has_extended_timestamp body ++ rest
    → Delivers fuel id rc (flatten rc.cur_body_fragments ++ body) rest r
unfolding rest_chunks
receive wf fuel id rc r [] rest v p l f e = absurd (omega arith)
receive zero fuel id rc r (b ∷ bs) rest v p l f e = absurd (omega arith)
receive (suc wf) zero id rc r (b ∷ bs) rest v p l f e = absurd (omega arith)
receive (suc wf) (suc fuel) id rc r (b ∷ bs) rest v p l f e =
    let ih = receive wf fuel id (more_received rc (take r.chunk_size (b ∷ bs))) in
    elim (le-cases (length (b ∷ bs)) r.chunk_size) [
      | inl h ↦
          (let (r', p, u) = receive-last id rc r (b ∷ bs) _ v (e ∙ append_assoc _ _ rest) fuel h in
            (
              r',
              p,
              IsUpdated-rest id (idle rc) _ rest r r' u (
                  ap (λ t. rest_chunks wf r.chunk_size id rc.has_extended_timestamp t ++ rest)
                    (drop-all r.chunk_size (b ∷ bs) h)
                  ∙ ap (λ c. c ++ rest)
                      (rest_chunks-[] wf r.chunk_size id rc.has_extended_timestamp)),
            ))
      | inr h ↦
          receive-more id rc r (b ∷ bs) _ v (e ∙ append_assoc _ _ rest) fuel rest h λ r' v' e' n.
            ih r' (drop r.chunk_size (b ∷ bs)) rest v'
              (omega (arith, length-drop r.chunk_size (b ∷ bs)))
              (omega (arith, length-drop r.chunk_size (b ∷ bs), v.chunk_size))
              (omega (arith, length-drop r.chunk_size (b ∷ bs), v.chunk_size))
              (e'
                ∙ ap
                    (λ n.
                      rest_chunks wf n id rc.has_extended_timestamp (drop r.chunk_size (b ∷ bs))
                      ++ rest)
                    (sym n))
    ]
