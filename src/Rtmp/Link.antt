-- ===== src/Rtmp/Link.antt =====
-- internal/protocols/rtmp/message: reader.go, writer.go and readwriter.go.
use mediamtx.Base.{ℕ, Bool, List, [], ◌∷◌, length, drop, ◌⊎◌, inl, inr, ◌∷◌, drop, length}
use mediamtx.Rtmp.Bytes as Bytes
use mediamtx.Rtmp.Bytes.{ok, err}
use mediamtx.Rtmp.Error.{Error}
use mediamtx.Rtmp.Control.{
  set_chunk_size, set_window_ack_size, acknowledge, user_control_ping_request,
  user_control_ping_response,
}
use mediamtx.Rtmp.RawMessage.Message.{Message}
use mediamtx.Rtmp.RawMessage.Reader as R
use mediamtx.Rtmp.RawMessage.Reader.{Reader}
use mediamtx.Rtmp.RawMessage.Writer as W
use mediamtx.Rtmp.RawMessage.Writer.{Writer}
use mediamtx.Rtmp.Amf.{Amf}
use mediamtx.Rtmp.Codec.{Packet, control, unmarshal, marshal}
pub mod Delivery
mod Examples

pub data LinkError : Type 0 where
  transport : Bytes.Error → LinkError
  codec : Error → LinkError

abbrev pub lifted : {A : Type 0} → Bytes.Result A → LinkError ⊎ A
lifted (ok a) = inr a
lifted (err e) = inl (transport e)

abbrev pub decoded : {A : Type 0} → Error ⊎ A → LinkError ⊎ A
decoded (inl e) = inl (codec e)
decoded (inr a) = inr a

infixl 5 ◌>>=◌
abbrev pub ◌>>=◌ : {A B : Type 0} → LinkError ⊎ A → (A → LinkError ⊎ B) → LinkError ⊎ B
inl e >>= f = inl e
inr a >>= f = f a

module _ (amf : Amf) where
  -- What the reader does after it has read a message.
  unfoldable pub after_read : Packet amf → Reader → LinkError ⊎ Reader
  after_read (control (set_chunk_size v)) r = lifted (R.set_chunk_size v r)
  after_read (control (set_window_ack_size v)) r = inr (R.set_window_ack_size v r)
  after_read m r = inr r

  unfoldable pub read : Reader → LinkError ⊎ (Packet amf × Reader)
  read r = do
    (raw, r') ← lifted (R.read r)
    m ← decoded (unmarshal amf raw)
    r'' ← after_read m r'
    inr (m, r'')

  unfoldable pub after_write : Packet amf → Writer → Writer
  after_write (control (set_chunk_size v)) w = W.set_chunk_size v w
  after_write (control (set_window_ack_size v)) w = W.set_window_ack_size v w
  after_write m w = w

  unfoldable pub write : Packet amf → Writer → LinkError ⊎ Writer
  write m w = do raw ← decoded (marshal amf m); w' ← lifted (W.write raw w); inr (after_write m w')

  -- A reader and a writer on one connection. The reader's callback writes acknowledgements through
  -- the pair's writer, so it does not fail by itself.
  pub record ReadWriter : Type 0 where
    pub r : Reader
    pub w : Writer

  -- What the callback of the pair's reader writes, one after the other.
  unfoldable pub write_acks : List ℕ → Writer → LinkError ⊎ Writer
  write_acks [] w = inr w
  write_acks (count ∷ counts) w = do
    w' ← write (control (acknowledge count)) w
    write_acks counts w'

  -- What the pair does after its reader has read a message.
  unfoldable pub react : Packet amf → Writer → LinkError ⊎ Writer
  react (control (acknowledge v)) w = inr (W.set_acknowledge_value v w)
  react (control (user_control_ping_request t)) w = write (control (user_control_ping_response t)) w
  react m w = inr w

  -- The reader keeps the counts of its callback's calls in their order, so those after the old ones
  -- are written first. The reader does not see what the writer does.
  unfoldable pub read_both : ReadWriter → LinkError ⊎ (Packet amf × ReadWriter)
  read_both rw = do
    (m, r') ← read rw.r
    w' ← write_acks (drop (length rw.r.acks) r'.acks) rw.w
    w'' ← react m w'
    inr (m, record { r = r'; w = w'' })

  unfoldable pub write_both : Packet amf → ReadWriter → LinkError ⊎ ReadWriter
  write_both m rw = do w' ← write m rw.w; inr (record rw { w = w' })
