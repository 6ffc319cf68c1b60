-- ===== src/Rtmp/RawMessage/RoundTrip.antt =====
-- Messages written by the writer and read by the reader.
use mathlib.Core.Path.{subst}
use mediamtx.Base.{
  inl, inr, Bool-cases, ◌≤◌, ◌==◌, ℕ, ◌<◌, ◌≡◌, refl, sym, ap, ◌∙◌, Bool, false, Option, none, some,
  List, ◌++◌, arith, length, drop, length-append, append_assoc, length-drop,
}
use mediamtx.Rtmp.Bytes.{ok}
use mediamtx.Rtmp.RawMessage.Message.{Message}
use mediamtx.Rtmp.RawMessage.Reader.{
  Reader, ReaderChunkStream, message_of, read, read_loop, max_body_size,
}
use mediamtx.Rtmp.RawMessage.Writer.{
  Writer, WriterChunkStream, first_chunk, remember, delta_from, next_delta, write,
}
use mediamtx.Rtmp.RawMessage.Written.{rest_chunks, sent, written, write_eq, length-rest_chunks}
use mediamtx.Rtmp.RawMessage.Delivery.{idle, IsUpdated}
use mediamtx.Rtmp.RawMessage.First.{IsReady}
use mediamtx.Rtmp.RawMessage.Begun.{begun-Delivers}
use mediamtx.Rtmp.RawMessage.Synced.{IsSendable, IsSynced, IsAnnounced}
use mediamtx.Rtmp.RawMessage.Chosen.{Announces, Announces-fresh, Announces-synced, opening, ts}
use mediamtx.Rtmp.RawMessage.Reader as R
use mediamtx.Rtmp.RawMessage.Writer as W

-- A chunk stream is new to both sides, or both have seen the same last message.
pub data IsLinked (o : Option WriterChunkStream) (p : Option ReaderChunkStream) : Type 0 where
  fresh : o ≡ none → p ≡ none → IsLinked o p
  linked :
      (wc : WriterChunkStream) (rc : ReaderChunkStream)
      → o ≡ some wc
      → p ≡ some (idle rc)
      → IsSynced wc rc
      → IsLinked o p

-- No acknowledgements are asked for, the chunk sizes agree, and all streams are linked.
pub record IsConnected (w : Writer) (r : Reader) : Type 0 where
  pub no_checks : w.check_acknowledge ≡ false
  pub no_acks : r.ack_window_size ≡ 0
  pub chunk_size : 0 < w.chunk_size
  pub same_size : w.chunk_size ≡ r.chunk_size
  pub streams : (id : ℕ) → IsLinked (w.chunk_streams id) (r.chunk_streams id)

-- The message is of the same message stream as the last one on its chunk stream, and not older.
pub record Follows (w : Writer) (msg : Message) : Type 0 where
  pub message_stream_id :
      (wc : WriterChunkStream)
      → w.chunk_streams msg.chunk_stream_id ≡ some wc
      → wc.last_message_stream_id ≡ some msg.message_stream_id
  pub timestamp :
      (wc : WriterChunkStream) (t : ℕ)
      → w.chunk_streams msg.chunk_stream_id ≡ some wc
      → wc.last_timestamp ≡ some t
      → t ≤ ts msg

message_of_eq :
    (ext : Bool) (d : Option ℕ) (msg : Message) (rc : ReaderChunkStream)
    → IsAnnounced msg ext d rc
    → IsSendable msg
    → record (message_of rc msg.body) { chunk_stream_id = msg.chunk_stream_id } ≡ msg
message_of_eq ext d msg rc n s = ground (arith, n.timestamp, s.whole, n.type, n.message_stream_id)

IsLinked-eq :
    (o o' : Option WriterChunkStream) (p p' : Option ReaderChunkStream)
    → o' ≡ o
    → p' ≡ p
    → IsLinked o p
    → IsLinked o' p'
IsLinked-eq o o' p p' e f (fresh h k) = fresh (e ∙ h) (f ∙ k)
IsLinked-eq o o' p p' e f (linked wc rc h k y) = linked wc rc (e ∙ h) (f ∙ k) y

IsSynced-IsAnnounced :
    (wc : WriterChunkStream) (msg : Message) (ext : Bool) (d : Option ℕ) (rc : ReaderChunkStream)
    → IsAnnounced msg ext (next_delta wc d) rc
    → IsSynced (remember wc msg (ts msg) d ext) (idle rc)
IsSynced-IsAnnounced wc msg ext d rc n = record {
  message_stream_id = ap some (sym n.message_stream_id);
  type = ap some (sym n.type);
  body_len = ap some (sym n.body_len);
  timestamp = ap some (sym n.timestamp);
  available = n.available;
  delta = n.delta;
  extended = sym n.extended;
}

module _ (w : Writer) (r : Reader) (msg : Message) (s : IsSendable msg) (v : IsConnected w r) where
  abbrev wc : WriterChunkStream
  wc = W.stream_of (w.chunk_streams msg.chunk_stream_id)

  IsReady-stream :
      (rc : ReaderChunkStream)
      → R.stream_of (r.chunk_streams msg.chunk_stream_id) ≡ idle rc
      → IsReady msg.chunk_stream_id rc r
  IsReady-stream rc e = record {
    stream = e;
    no_acks = v.no_acks;
    chunk_size = omega (arith, v.chunk_size, v.same_size);
    id_low = s.id_low;
    id_high = s.id_high;
  }

  -- The reader waits on the stream, and the first chunk suits it.
  ready :
      Follows w msg
      → (rc : ReaderChunkStream) × IsReady msg.chunk_stream_id rc r × Announces wc msg r
  ready f = elim (v.streams msg.chunk_stream_id) [
    | fresh h k ↦
        (let y = IsReady-stream R.new_chunk_stream (ap R.stream_of k) in
          (
            R.new_chunk_stream,
            y,
            Announces-fresh wc R.new_chunk_stream msg r y s
                (ap (λ o. (W.stream_of o).last_timestamp) h)
                (ap (λ o. (W.stream_of o).last_timestamp_delta) h),
          ))
    | linked wc' rc h k y ↦
        (let z = IsReady-stream rc (ap R.stream_of k) in
          (
            rc,
            z,
            subst (λ c. Announces c msg r) (sym (ap W.stream_of h))
                (Announces-synced wc' rc msg r z s y
                  (ground (arith, f.message_stream_id wc' h, y.message_stream_id))
                  (f.timestamp wc' rc.cur_timestamp h y.timestamp)),
          ))
  ]

  -- The reader after the message, and what it remembers.
  read-sent :
      (rest : List ℕ)
      → r.br ≡ sent wc msg r.chunk_size (opening wc msg r) ++ rest
      → Follows w msg
      → (rc : ReaderChunkStream) × (r' : Reader) × (read r ≡ ok (msg, r'))
        × IsUpdated msg.chunk_stream_id (idle rc) rest r r'
        × IsAnnounced msg
            (opening wc msg r).1
            (next_delta wc (delta_from wc.last_timestamp (ts msg)))
            rc
  unfolding read
  read-sent rest e f =
      let (rc₀, y, a) = ready f in
      let tail =
        rest_chunks (length msg.body) r.chunk_size msg.chunk_stream_id (opening wc msg r).1
          (drop r.chunk_size msg.body) in
      let e' = e ∙ append_assoc (opening wc msg r).0 tail rest in
      let (rc, b, n) = a (tail ++ rest) e' in
      let (r', p, u) =
        begun-Delivers (length msg.body) (length r.br) msg.chunk_stream_id rc rc₀ r msg.body
          (tail ++ rest) rest y b n.body_len (omega (arith, s.body))
          (ap
            (λ x.
              rest_chunks (length msg.body) r.chunk_size msg.chunk_stream_id x
                (drop r.chunk_size msg.body)
              ++ rest)
            (sym n.extended))
          (omega (arith, length-drop r.chunk_size msg.body))
          (omega (
            arith,
            ap length e',
            length-append (opening wc msg r).0 (tail ++ rest),
            length-append tail rest,
            length-rest_chunks (length msg.body) r.chunk_size msg.chunk_stream_id
                (opening wc msg r).1 (drop r.chunk_size msg.body) y.chunk_size
                (omega (arith, length-drop r.chunk_size msg.body)),
          )) in
      (rc, r', p ∙ ap (λ m. ok (m, r')) (message_of_eq _ _ msg rc n s), u, n)

  IsConnected-sent :
      (rest : List ℕ) (rc : ReaderChunkStream) (r' : Reader)
      → IsUpdated msg.chunk_stream_id (idle rc) rest r r'
      → IsAnnounced msg
          (opening wc msg r).1
          (next_delta wc (delta_from wc.last_timestamp (ts msg)))
          rc
      → IsConnected (written msg w v.no_checks v.chunk_size r.chunk_size (opening wc msg r)) r'
  IsConnected-sent rest rc r' u n = record {
    no_checks = v.no_checks;
    no_acks = u.ack_window_size ∙ v.no_acks;
    chunk_size = v.chunk_size;
    same_size = v.same_size ∙ sym u.chunk_size;
    streams = λ j. elim (Bool-cases (msg.chunk_stream_id == j)) [
      | inl h ↦
          linked _ (idle rc) (ground (arith, h))
            (ap r'.chunk_streams (ground (arith, h)) ∙ u.stream)
            (IsSynced-IsAnnounced wc msg _ _ rc n)
      | inr h ↦
          IsLinked-eq _ _ _ _ (ground (arith, h)) (u.others j (ground (arith, h))) (v.streams j)
    ];
  }

-- A message that the writer sends is the one that the reader reads, its body in one chunk or in
-- many, and both are connected afterwards: where they were before, the message fits the format, and
-- it follows the last one on its chunk stream. What comes after it is left.
pub read-write :
    (w : Writer) (r : Reader) (msg : Message) (rest : List ℕ)
    → IsSendable msg
    → IsConnected w r
    → Follows w msg
    → (w' : Writer) × (b : List ℕ) × (r' : Reader) × (write msg w ≡ ok w')
      × (w'.bw ≡ w.bw ++ b)
      × (read (record r { br = b ++ rest }) ≡ ok (msg, r'))
      × (r'.br ≡ rest)
      × IsConnected w' r'
read-write w r msg rest s v f =
    let c = W.stream_of (w.chunk_streams msg.chunk_stream_id) in
    let b = sent c msg r.chunk_size (opening c msg r) in
    let r₀ : Reader = record r { br = b ++ rest } in
    let v₀ : IsConnected w r₀ = record {
      no_checks = v.no_checks;
      no_acks = v.no_acks;
      chunk_size = v.chunk_size;
      same_size = v.same_size;
      streams = v.streams;
    } in
    let (rc, r', p, u, n) = read-sent w r₀ msg s v₀ rest refl f in
    (
      written msg w v.no_checks v.chunk_size r.chunk_size (opening c msg r),
      b,
      r',
      write_eq msg w v.no_checks v.chunk_size r.chunk_size v.same_size,
      refl,
      p,
      u.br,
      IsConnected-sent w r₀ msg s v₀ rest rc r' u n,
    )
