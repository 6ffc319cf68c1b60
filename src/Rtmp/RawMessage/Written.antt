-- ===== src/Rtmp/RawMessage/Written.antt =====
-- What the writer sends, where it does not wait for acknowledgements.
use mathlib.Core.Path.{subst}
use mediamtx.Base.{◌/◌, some, true, length-append, length-take-drop}
use mediamtx.Rtmp.RawMessage.Message.{millisecond, update, Message}
use mediamtx.Rtmp.RawMessage.Writer.{
  WriterChunkStream, first_chunk, remember, delta_from, stream_of, write, write_message,
}
use mediamtx.Rtmp.Chunk.{Chunk3}
use mediamtx.Base.{
  append-nil, append_assoc, ◌≤◌, ℕ, zero, suc, ◌<◌, ◌≡◌, sym, ap, ◌∙◌, Bool, false, List, [], ◌∷◌,
  ◌++◌, arith, length, take, drop, length-drop,
}
use mediamtx.Rtmp.Bytes.{ok, bind-ok}
use mediamtx.Rtmp.Chunk.{marshal3}
use mediamtx.Rtmp.RawMessage.Writer.{Writer, write_chunk, write_rest}

-- A body in type 3 chunks of n bytes.
unfoldable pub rest_chunks : ℕ → ℕ → ℕ → Bool → List ℕ → List ℕ
rest_chunks fuel n id ext [] = []
rest_chunks zero n id ext (b ∷ bs) = []
rest_chunks (suc fuel) n id ext (b ∷ bs) =
    marshal3 ext (record { chunk_stream_id = id; body = take n (b ∷ bs) })
    ++ rest_chunks fuel n id ext (drop n (b ∷ bs))

length-marshal3 : (ext : Bool) (c : Chunk3) → length c.body ≤ length (marshal3 ext c)
unfolding marshal3
length-marshal3 true c = omega arith
length-marshal3 false c = omega arith

write_chunk_eq :
    (buf : List ℕ) (w : Writer)
    → w.check_acknowledge ≡ false
    → write_chunk buf w ≡ ok (record w { bw = w.bw ++ buf })
unfolding write_chunk
write_chunk_eq buf w h = ground arith

write_rest_eq :
    (fuel id : ℕ) (ext : Bool) (body : List ℕ) (w : Writer)
    → w.check_acknowledge ≡ false
    → 0 < w.chunk_size
    → length body ≤ fuel
    → write_rest fuel id ext body w
      ≡ ok (record w { bw = w.bw ++ rest_chunks fuel w.chunk_size id ext body })
unfolding write_rest rest_chunks
write_rest_eq fuel id ext [] w c n h = ap (λ x. ok (record w { bw = x })) (sym (append-nil w.bw))
write_rest_eq zero id ext (b ∷ bs) w c n h = absurd (omega arith)
write_rest_eq (suc fuel) id ext (b ∷ bs) w c n h =
    bind-ok _ w' _ (write_chunk_eq part w c)
    ∙ write_rest_eq fuel id ext (drop w.chunk_size (b ∷ bs)) w' c n
        (omega (arith, length-drop w.chunk_size (b ∷ bs)))
    ∙ ap (λ x. ok (record w { bw = x })) (append_assoc w.bw part _)
  where
    part : List ℕ
    part = marshal3 ext (record { chunk_stream_id = id; body = take w.chunk_size (b ∷ bs) })

    w' : Writer
    w' = record w { bw = w.bw ++ part }

-- What is sent of a message with chunks of n bytes.
abbrev pub sent : WriterChunkStream → Message → ℕ → List ℕ × Bool → List ℕ
sent wc msg n x = x.0 ++ rest_chunks (length msg.body) n msg.chunk_stream_id x.1 (drop n msg.body)

module _ (msg : Message) (w : Writer) (c : w.check_acknowledge ≡ false) (p : 0 < w.chunk_size) where
  abbrev t : ℕ
  t = msg.timestamp / millisecond

  abbrev wc : WriterChunkStream
  wc = stream_of (w.chunk_streams msg.chunk_stream_id)

  -- The writer after a message, its first chunk given.
  abbrev pub written : ℕ → List ℕ × Bool → Writer
  written n x = record w {
    bw = w.bw ++ sent wc msg n x;
    chunk_streams =
        update w.chunk_streams msg.chunk_stream_id
          (some (remember wc msg t (delta_from wc.last_timestamp t) x.1));
  }

  abbrev first : ℕ → List ℕ × Bool
  first n = first_chunk wc msg t (take n msg.body) (delta_from wc.last_timestamp t)

  pub write_eq : (n : ℕ) → w.chunk_size ≡ n → write msg w ≡ ok (written n (first n))
  unfolding write write_message
  write_eq n h =
      subst (λ n. write msg w ≡ ok (written n (first n))) h
        (bind-ok _ (record w { bw = w.bw ++ (first w.chunk_size).0 }) _
            (write_chunk_eq (first w.chunk_size).0 w c)
          ∙ write_rest_eq (length msg.body) msg.chunk_stream_id (first w.chunk_size).1
              (drop w.chunk_size msg.body)
              (record w {
                bw = w.bw ++ (first w.chunk_size).0;
                chunk_streams = (written w.chunk_size (first w.chunk_size)).chunk_streams;
              })
              c p (omega (arith, length-drop w.chunk_size msg.body))
          ∙ ap (λ b. ok (record (written w.chunk_size (first w.chunk_size)) { bw = b }))
              (append_assoc w.bw (first w.chunk_size).0 _))

pub length-rest_chunks :
    (fuel n id : ℕ) (ext : Bool) (body : List ℕ)
    → 0 < n
    → length body ≤ fuel
    → length body ≤ length (rest_chunks fuel n id ext body)
unfolding rest_chunks
length-rest_chunks fuel n id ext [] p h = omega arith
length-rest_chunks zero n id ext (b ∷ bs) p h = absurd (omega arith)
length-rest_chunks (suc fuel) n id ext (b ∷ bs) p h =
    let c : Chunk3 = record { chunk_stream_id = id; body = take n (b ∷ bs) } in
    let rest = rest_chunks fuel n id ext (drop n (b ∷ bs)) in
    omega (
      arith,
      length-append (marshal3 ext c) rest,
      length-marshal3 ext c,
      length-rest_chunks fuel n id ext (drop n (b ∷ bs)) p (omega (arith, length-drop n (b ∷ bs))),
      length-take-drop n (b ∷ bs),
    )
