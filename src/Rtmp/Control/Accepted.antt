-- ===== src/Rtmp/Control/Accepted.antt =====
-- What the reader accepts as a control message.
use mediamtx.Base.{
  ℕ, if◌then◌else◌, ltb, ◌||◌, ◌≡◌, refl, ◌⊎◌, inl, inr, arith, length, ◌==◌, Bool, true, false,
}
use mathlib.Core.Path.{subst}
use mediamtx.Rtmp.RawMessage.Message.{Message}
use mediamtx.Rtmp.Error.{Error}
use mediamtx.Rtmp.Control.{
  ControlMessage, guarded, marshal, read_control, read_user_control, unmarshal_set_chunk_size,
  unmarshal_acknowledge, unmarshal_set_window_ack_size, unmarshal_set_peer_bandwidth,
  unmarshal_stream_begin, unmarshal_stream_eof, unmarshal_stream_dry, unmarshal_stream_is_recorded,
  unmarshal_ping_request, unmarshal_ping_response, unmarshal_set_buffer_length,
  marshal_set_chunk_size, marshal_acknowledge, marshal_set_window_ack_size,
  marshal_set_peer_bandwidth, marshal_stream_begin, marshal_stream_eof, marshal_stream_dry,
  marshal_stream_is_recorded, marshal_ping_request, marshal_ping_response,
  marshal_set_buffer_length,
}

-- The stream, the type and the body's length of the raw message are those of the message.
abbrev pub Fits : Message → Error ⊎ ControlMessage → Type 0
Fits raw (inl e) = Unit
Fits raw (inr m) =
    (raw.chunk_stream_id ≡ (marshal m).chunk_stream_id)
    × (raw.type ≡ (marshal m).type)
    × (length raw.body ≡ length (marshal m).body)

guarded-Fits :
    (raw : Message) (n : ℕ) (m : ControlMessage)
    → (marshal m).chunk_stream_id ≡ 2
    → length (marshal m).body ≡ n
    → raw.type ≡ (marshal m).type
    → Fits raw (guarded raw n m)
guarded-Fits raw n m c l t = ground arith

Fits-if :
    (raw : Message) (b : Bool) (x y : Error ⊎ ControlMessage)
    → (b ≡ true → Fits raw x)
    → (b ≡ false → Fits raw y)
    → Fits raw (if b then x else y)
Fits-if raw true x y h k = h refl
Fits-if raw false x y h k = k refl

read_user_control-Fits : (t : ℕ) (raw : Message) → raw.type ≡ 4 → Fits raw (read_user_control t raw)
unfolding read_user_control unmarshal_stream_begin unmarshal_stream_eof unmarshal_stream_dry
    unmarshal_stream_is_recorded unmarshal_ping_request unmarshal_ping_response
    unmarshal_set_buffer_length marshal marshal_stream_begin marshal_stream_eof marshal_stream_dry
    marshal_stream_is_recorded marshal_ping_request marshal_ping_response marshal_set_buffer_length
read_user_control-Fits t raw h =
    Fits-if raw (t == 0) _ _ (λ e. guarded-Fits raw 6 _ refl refl h)
      λ e.
        Fits-if raw (t == 1) _ _ (λ e. guarded-Fits raw 6 _ refl refl h)
          λ e.
            Fits-if raw (t == 2) _ _ (λ e. guarded-Fits raw 6 _ refl refl h)
              λ e.
                Fits-if raw (t == 3) _ _ (λ e. guarded-Fits raw 10 _ refl refl h)
                  λ e.
                    Fits-if raw (t == 4) _ _ (λ e. guarded-Fits raw 6 _ refl refl h)
                      λ e.
                        Fits-if raw (t == 6) _ _ (λ e. guarded-Fits raw 6 _ refl refl h)
                          λ e.
                            Fits-if raw (t == 7) _ _ (λ e. guarded-Fits raw 6 _ refl refl h) λ e. tt

read_control-Fits : (raw : Message) → Fits raw (read_control raw)
unfolding read_control unmarshal_set_chunk_size unmarshal_acknowledge unmarshal_set_window_ack_size
    unmarshal_set_peer_bandwidth marshal marshal_set_chunk_size marshal_acknowledge
    marshal_set_window_ack_size marshal_set_peer_bandwidth
read_control-Fits raw =
    Fits-if raw (raw.type == 1) _ _ (λ e. guarded-Fits raw 4 _ refl refl (ground (arith, e)))
      λ e.
        Fits-if raw (raw.type == 3) _ _ (λ e. guarded-Fits raw 4 _ refl refl (ground (arith, e)))
          λ e.
            Fits-if raw (raw.type == 5) _ _
              (λ e. guarded-Fits raw 4 _ refl refl (ground (arith, e)))
              λ e.
                Fits-if raw (raw.type == 6) _ _
                  (λ e. guarded-Fits raw 5 _ refl refl (ground (arith, e)))
                  λ e.
                    Fits-if raw (raw.type == 4) _ _
                      (λ e.
                        Fits-if raw (ltb (length raw.body) 2) _ _ (λ k. tt)
                          (λ k. read_user_control-Fits _ raw (ground (arith, e))))
                      λ e.
                        Fits-if raw
                          (raw.type == 20 || (raw.type == 18 || (raw.type == 8 || raw.type == 9))) _
                          _ (λ k. tt) (λ k. tt)

-- Whatever raw message is read as a control message, its chunk stream, its type and the length of
-- its body are those that the control message is marshalled to.
pub read_control-accepted :
    (raw : Message) (m : ControlMessage)
    → read_control raw ≡ inr m
    → (raw.chunk_stream_id ≡ (marshal m).chunk_stream_id)
      × (raw.type ≡ (marshal m).type)
      × (length raw.body ≡ length (marshal m).body)
read_control-accepted raw m e = subst (Fits raw) e (read_control-Fits raw)
