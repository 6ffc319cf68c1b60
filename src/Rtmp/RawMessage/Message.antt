-- ===== src/Rtmp/RawMessage/Message.antt =====
-- internal/protocols/rtmp/rawmessage/message.go. Timestamps are nanoseconds, and not negative.
use mediamtx.Base.{ℕ, List, ◌==◌, if◌then◌else◌}

pub record Message : Type 0 where
  pub chunk_stream_id : ℕ
  pub timestamp : ℕ
  pub type : ℕ
  pub message_stream_id : ℕ
  pub body : List ℕ

abbrev pub millisecond : ℕ
millisecond = 1000000

-- The chunk streams are a map from chunk stream IDs.
abbrev pub update : {A : Type 0} → (ℕ → A) → ℕ → A → ℕ → A
update f k v j = if k == j then v else f j
