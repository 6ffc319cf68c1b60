-- ===== src/Rtmp/RawMessage/Reader.antt =====
-- internal/protocols/rtmp/rawmessage/reader.go.
use mediamtx.Base.{
  ℕ, zero, suc, ◌+◌, ◌-◌, ◌*◌, ◌/◌, ◌%◌, ◌^◌, Bool, true, false, Option, none, some, List, [], ◌∷◌,
  ◌++◌, ◌==◌, leb, ltb, not, ◌&&◌, if◌then◌else◌, length, take,
}
use mediamtx.Rtmp.Bytes.{
  eof, expected_type_3, without_previous_chunk, body_too_large, chunk_size_too_large,
  extended_chunk_stream_id, ack_failed, stuck, Result, ok, err, ◌>>=◌,
}
use mediamtx.Rtmp.Chunk.{read0, read1, read2, read3}
use mediamtx.Rtmp.RawMessage.Message.{Message, millisecond, update}
use mediamtx.Base.{flatten, replicate}
use Prim.Native.Nat.{bit_and}

abbrev pub max_body_size : ℕ
max_body_size = 10 * 1024 * 1024

-- `copy` into a buffer of the given size, which starts as zeros.
unfoldable pub join_fragments : List (List ℕ) → ℕ → List ℕ
join_fragments fragments size = take size (flatten fragments ++ replicate size 0)

pub record ReaderChunkStream : Type 0 where
  pub cur_timestamp : ℕ
  pub cur_timestamp_available : Bool
  pub cur_type : ℕ
  pub cur_message_stream_id : ℕ
  pub cur_body_len : ℕ
  pub cur_body_fragments : List (List ℕ)
  pub cur_body_recv : ℕ
  pub cur_timestamp_delta : ℕ
  pub cur_timestamp_delta_available : Bool
  pub has_extended_timestamp : Bool

abbrev pub new_chunk_stream : ReaderChunkStream
new_chunk_stream = record {
  cur_timestamp = 0;
  cur_timestamp_available = false;
  cur_type = 0;
  cur_message_stream_id = 0;
  cur_body_len = 0;
  cur_body_fragments = [];
  cur_body_recv = 0;
  cur_timestamp_delta = 0;
  cur_timestamp_delta_available = false;
  has_extended_timestamp = false;
}

-- `br` is what is still to be read. `bcr` gives the count of the byte counter below the buffer when
-- that much is left; `on_ack_needed` says whether the callback succeeds. `acks` are its arguments.
pub record Reader : Type 0 where
  pub bcr : List ℕ → ℕ
  pub on_ack_needed : ℕ → Bool
  pub br : List ℕ
  pub chunk_size : ℕ
  pub ack_window_size : ℕ
  pub last_ack_count : ℕ
  pub chunk_streams : ℕ → Option ReaderChunkStream
  pub acks : List ℕ

abbrev pub new_reader : List ℕ → (List ℕ → ℕ) → (ℕ → Bool) → Reader
new_reader input bcr on_ack_needed = record {
  bcr = bcr;
  on_ack_needed = on_ack_needed;
  br = input;
  chunk_size = 128;
  ack_window_size = 0;
  last_ack_count = 0;
  chunk_streams = λ id. none;
  acks = [];
}

unfoldable pub set_chunk_size : ℕ → Reader → Result Reader
set_chunk_size v r =
    if ltb max_body_size v then err chunk_size_too_large else ok (record r { chunk_size = v })

unfoldable pub send_ack : ℕ → Reader → Result Reader
send_ack count r =
    if r.on_ack_needed count
    then ok (record r {
      last_ack_count = (r.last_ack_count + r.ack_window_size) % 2 ^ 32;
      acks = r.acks ++ (count ∷ []);
    })
    else err ack_failed

-- The end of `readChunk`: `br` is what the chunk's `Read` left. Counts are uint32.
unfoldable pub check_ack : List ℕ → Reader → Result Reader
unfolding send_ack
check_ack br r =
    let r' = record r { br = br } in
    let count = r.bcr br % 2 ^ 32 in
    if not (r.ack_window_size == 0)
      && ltb r.ack_window_size ((count + 2 ^ 32 - r.last_ack_count) % 2 ^ 32)
    then send_ack count r'
    else ok r'

-- The parts of a message that has arrived whole.
abbrev pub message_of : ReaderChunkStream → List ℕ → Message
message_of rc body = record {
  chunk_stream_id = 0;
  timestamp = rc.cur_timestamp * millisecond;
  type = rc.cur_type;
  message_stream_id = rc.cur_message_stream_id;
  body = body;
}

-- After the first chunk of a message: it is the whole message, or `errMoreChunksNeeded`, here
-- `none`.
unfoldable pub begin : ReaderChunkStream → List ℕ → ReaderChunkStream × Option Message
begin rc body =
    if not (rc.cur_body_len == length body)
    then (
      record rc {
        cur_body_fragments = rc.cur_body_fragments ++ (body ∷ []);
        cur_body_recv = length body;
      },
      none,
    )
    else (rc, some (message_of rc body))

abbrev pub Step : Type 0
Step = Result (ReaderChunkStream × Reader × Option Message)

unfoldable pub finish_first : ReaderChunkStream → Reader → List ℕ → Step
finish_first rc r body = let (rc', m) = begin rc body in ok (rc', r, m)

unfoldable pub read_type0 : ReaderChunkStream → Reader → Step
unfolding finish_first
read_type0 rc r = if not (rc.cur_body_recv == 0) then err expected_type_3 else (do
  (c, br) ← read0 r.chunk_size r.br
  r' ← check_ack br r
  if ltb max_body_size c.body_len
      then err body_too_large
      else finish_first
          (record rc {
            cur_message_stream_id = c.message_stream_id;
            cur_type = c.type;
            cur_timestamp = c.timestamp;
            cur_timestamp_available = true;
            cur_timestamp_delta_available = false;
            cur_body_len = c.body_len;
            has_extended_timestamp = leb 0xffffff c.timestamp;
          })
          r' c.body)

unfoldable pub read_type1 : ReaderChunkStream → Reader → Step
unfolding finish_first
read_type1 rc r =
    if not rc.cur_timestamp_available
    then err without_previous_chunk
    else if not (rc.cur_body_recv == 0)
    then err expected_type_3
    else (do
      (c, br) ← read1 r.chunk_size r.br
      r' ← check_ack br r
      if ltb max_body_size c.body_len
          then err body_too_large
          else finish_first
              (record rc {
                cur_type = c.type;
                cur_timestamp = (rc.cur_timestamp + c.timestamp_delta) % 2 ^ 32;
                cur_timestamp_delta = c.timestamp_delta;
                cur_timestamp_delta_available = true;
                cur_body_len = c.body_len;
                has_extended_timestamp = leb 0xffffff c.timestamp_delta;
              })
              r' c.body)

-- At most a chunk is read at once.
abbrev pub chunk_body_len : ℕ → ℕ → ℕ
chunk_body_len n chunk_size = if ltb chunk_size n then chunk_size else n

unfoldable pub read_type2 : ReaderChunkStream → Reader → Step
unfolding finish_first
read_type2 rc r =
    if not rc.cur_timestamp_available
    then err without_previous_chunk
    else if not (rc.cur_body_recv == 0)
    then err expected_type_3
    else (do
      (c, br) ← read2 (chunk_body_len rc.cur_body_len r.chunk_size) r.br
      r' ← check_ack br r
      finish_first
          (record rc {
            cur_timestamp = (rc.cur_timestamp + c.timestamp_delta) % 2 ^ 32;
            cur_timestamp_delta = c.timestamp_delta;
            cur_timestamp_delta_available = true;
            has_extended_timestamp = leb 0xffffff c.timestamp_delta;
          })
          r' c.body)

-- A further chunk of a message that has begun. Lengths are uint32.
unfoldable pub continue : ReaderChunkStream → List ℕ → ReaderChunkStream × Option Message
continue rc body =
    let fragments = rc.cur_body_fragments ++ (body ∷ []) in
    let recv = (rc.cur_body_recv + length body) % 2 ^ 32 in
    if not (rc.cur_body_len == recv)
    then (record rc { cur_body_fragments = fragments; cur_body_recv = recv }, none)
    else (
      record rc { cur_body_fragments = []; cur_body_recv = 0 },
      some (message_of rc (join_fragments fragments recv)),
    )

unfoldable pub read_type3_more : ReaderChunkStream → Reader → Step
read_type3_more rc r = do
  (c, br) ←
      read3 (chunk_body_len ((rc.cur_body_len + 2 ^ 32 - rc.cur_body_recv) % 2 ^ 32) r.chunk_size)
        rc.has_extended_timestamp r.br
  r' ← check_ack br r
  let (rc', m) = continue rc c.body
  ok (rc', r', m)

unfoldable pub read_type3_first : ReaderChunkStream → Reader → Step
unfolding finish_first
read_type3_first rc r =
    if not rc.cur_timestamp_delta_available then err without_previous_chunk else (do
      (c, br) ← read3 (chunk_body_len rc.cur_body_len r.chunk_size) rc.has_extended_timestamp r.br
      r' ← check_ack br r
      finish_first
          (record rc { cur_timestamp = (rc.cur_timestamp + rc.cur_timestamp_delta) % 2 ^ 32 }) r'
          c.body)

unfoldable pub read_message : ℕ → ReaderChunkStream → Reader → Step
read_message typ rc r =
    if typ == 0
    then read_type0 rc r
    else if typ == 1
    then read_type1 rc r
    else if typ == 2
    then read_type2 rc r
    else if not (rc.cur_body_recv == 0)
    then read_type3_more rc r
    else read_type3_first rc r

abbrev pub stream_of : Option ReaderChunkStream → ReaderChunkStream
stream_of none = new_chunk_stream
stream_of (some rc) = rc

-- One round of the loop of `Read`; the byte is read and put back.
unfoldable pub round : List ℕ → Reader → Result (ℕ × Reader × Option Message)
round [] r = err eof
round (b ∷ bs) r =
    let id = bit_and b 0x3f in
    if ltb id 2 then err extended_chunk_stream_id else (do
      (rc, r', m) ← read_message (b / 64) (stream_of (r.chunk_streams id)) r
      ok (id, record r' { chunk_streams = update r'.chunk_streams id (some rc) }, m))

-- `Read`, on fuel: each round takes a byte at least.
unfoldable pub read_loop : ℕ → Reader → Result (Message × Reader)
read_loop zero r = err stuck
read_loop (suc fuel) r = round r.br r >>= λ x. elim x.2 [
  | none ↦ read_loop fuel x.1
  | some m ↦ ok (record m { chunk_stream_id = x.0 }, x.1)
]

unfoldable pub read : Reader → Result (Message × Reader)
read r = read_loop (suc (length r.br)) r

unfoldable pub set_window_ack_size : ℕ → Reader → Reader
set_window_ack_size v r = record r { ack_window_size = v }
