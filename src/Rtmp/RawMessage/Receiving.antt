-- ===== src/Rtmp/RawMessage/Receiving.antt =====
-- The reader joins a body that arrives in type 3 chunks.
use mediamtx.Base.{
  replicate, take-length_append, ◌≤◌, ◌^◌, ◌+◌, ℕ, ◌<◌, ◌≡◌, sym, ap, ◌∙◌, none, some, List, [],
  ◌∷◌, ◌++◌, arith, length, take, length-append, flatten, append-nil, append_assoc,
}
use mediamtx.Rtmp.Bytes.{ok, bit_or-192}
use mediamtx.Rtmp.Chunk.{marshal3, read3}
use mediamtx.Rtmp.Chunk.RoundTrip.{read3-marshal3}
use mediamtx.Rtmp.RawMessage.Message.{update}
use mediamtx.Rtmp.RawMessage.Reader.{
  Reader, ReaderChunkStream, continue, join_fragments, message_of, read_message, round,
}
use mediamtx.Rtmp.RawMessage.Rounds.{next_len, read_type3_more_eq, round_eq, id_of_type3}
use Prim.Native.Nat.{bit_or}

pub flatten-snoc :
    (xss : List (List ℕ)) (xs : List ℕ) → flatten (xss ++ (xs ∷ [])) ≡ flatten xss ++ xs
flatten-snoc [] xs = append-nil xs
flatten-snoc (ys ∷ xss) xs =
    ap (λ zs. ys ++ zs) (flatten-snoc xss xs) ∙ sym (append_assoc ys (flatten xss) xs)

join_fragments-flatten :
    (xss : List (List ℕ)) (n : ℕ) → n ≡ length (flatten xss) → join_fragments xss n ≡ flatten xss
unfolding join_fragments
join_fragments-flatten xss n e =
    ap (λ k. take k (flatten xss ++ replicate n 0)) e ∙ take-length_append (flatten xss) _

-- A reader whose stream `id` has received the part of a body before the given one.
pub record IsReceiving (id : ℕ) (body : List ℕ) (rc : ReaderChunkStream) (r : Reader) : Type 0 where
  pub stream : r.chunk_streams id ≡ some rc
  pub no_acks : r.ack_window_size ≡ 0
  pub chunk_size : 0 < r.chunk_size
  pub id_low : 2 ≤ id
  pub id_high : id < 64
  pub recv : rc.cur_body_recv ≡ length (flatten rc.cur_body_fragments)
  pub begun : 0 < rc.cur_body_recv
  pub body_len : rc.cur_body_len ≡ rc.cur_body_recv + length body
  pub fits : rc.cur_body_len < 2 ^ 32

module _ (rc : ReaderChunkStream) (part : List ℕ) where
  abbrev pub more_received : ReaderChunkStream
  more_received = record rc {
    cur_body_fragments = rc.cur_body_fragments ++ (part ∷ []);
    cur_body_recv = rc.cur_body_recv + length part;
  }

  pub continue-more :
      rc.cur_body_len < 2 ^ 32
      → rc.cur_body_recv + length part < rc.cur_body_len
      → continue rc part ≡ (more_received, none)
  unfolding continue
  continue-more l h = ground arith

  abbrev pub all_received : ReaderChunkStream
  all_received = record rc { cur_body_fragments = []; cur_body_recv = 0 }

  pub continue-last :
      rc.cur_body_len < 2 ^ 32
      → rc.cur_body_len ≡ rc.cur_body_recv + length part
      → rc.cur_body_recv ≡ length (flatten rc.cur_body_fragments)
      → continue rc part
        ≡ (all_received, some (message_of rc (flatten rc.cur_body_fragments ++ part)))
  unfolding continue
  continue-last l h e = ground (
    arith,
    join_fragments-flatten (rc.cur_body_fragments ++ (part ∷ [])) (rc.cur_body_recv + length part),
    flatten-snoc rc.cur_body_fragments part,
    length-append (flatten rc.cur_body_fragments) part,
  )

-- A round on a type 3 chunk.
pub round-continue :
    (id : ℕ) (rc : ReaderChunkStream) (r : Reader) (part body more : List ℕ)
    → IsReceiving id body rc r
    → length part ≡ next_len rc r
    → r.br
      ≡ marshal3 rc.has_extended_timestamp (record { chunk_stream_id = id; body = part }) ++ more
    → round r.br r
      ≡ ok (
        id,
        record r {
          br = more;
          chunk_streams = update r.chunk_streams id (some (continue rc part).0);
        },
        (continue rc part).1,
      )
unfolding read_message marshal3
round-continue id rc r part body more v n e =
    ap (λ x. round x r) e
    ∙ round_eq (bit_or 192 id) id 3 _ (some rc) r
        ((continue rc part).0, record r { br = more }, (continue rc part).1)
        (id_of_type3 id v.id_high) (omega (arith, bit_or-192 id)) v.id_low v.stream
        (ground (
          arith,
          read_type3_more_eq rc r (record { chunk_stream_id = id; body = part }) more
              (ap (λ br. read3 (next_len rc r) rc.has_extended_timestamp br) e
                ∙ read3-marshal3 (next_len rc r) rc.has_extended_timestamp
                    (record { chunk_stream_id = id; body = part }) more
                    (record { id = v.id_high; body = n }))
              v.no_acks,
        ))
