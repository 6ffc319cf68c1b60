-- ===== src/Rtmp/Amf.antt =====
-- internal/protocols/rtmp/message/command_amf0.go and data_amf0.go.
use mediamtx.Base.{ℕ, List, ◌∷◌, Option, none, some, String, ◌⊎◌, inl, inr}
use mediamtx.Rtmp.Error.{Error, invalid_amf, invalid_command_payload}
use mediamtx.Rtmp.RawMessage.Message.{Message}

-- The library of AMF values. `as_text` and `as_number` are the assertions to `string` and to
-- `float64`, the latter converted to `int`; command IDs are not negative.
pub record Amf : Type 1 where
  pub Value : Type 0
  pub parse : List ℕ → Option (List Value)
  pub fill : List Value → List ℕ
  pub text : String → Value
  pub number : ℕ → Value
  pub as_text : Value → Option String
  pub as_number : Value → Option ℕ

module _ (amf : Amf) where
  pub record Command : Type 0 where
    pub chunk_stream_id : ℕ
    pub message_stream_id : ℕ
    pub name : String
    pub command_id : ℕ
    pub arguments : List amf.Value

  -- The name, the ID and the arguments.
  unfoldable pub command_parts : List amf.Value → Option (String × ℕ × List amf.Value)
  command_parts (a ∷ b ∷ c ∷ vs) = elim (amf.as_text a) [
    | none ↦ none
    | some name ↦ elim (amf.as_number b) [ none ↦ none | some id ↦ some (name, id, c ∷ vs) ]
  ]
  command_parts _ = none

  unfoldable pub unmarshal_command : Message → Error ⊎ Command
  unmarshal_command raw = elim (amf.parse raw.body) [
    | none ↦ inl invalid_amf
    | some vs ↦ elim (command_parts vs) [
      | none ↦ inl invalid_command_payload
      | some (name, id, arguments) ↦ inr (record {
        chunk_stream_id = raw.chunk_stream_id;
        message_stream_id = raw.message_stream_id;
        name = name;
        command_id = id;
        arguments = arguments;
      })
    ]
  ]

  abbrev pub command_values : Command → List amf.Value
  command_values m = amf.text m.name ∷ amf.number m.command_id ∷ m.arguments

  unfoldable pub marshal_command : Command → Message
  marshal_command m = record {
    chunk_stream_id = m.chunk_stream_id;
    timestamp = 0;
    type = 20;
    message_stream_id = m.message_stream_id;
    body = amf.fill (command_values m);
  }

  pub record DataMessage : Type 0 where
    pub chunk_stream_id : ℕ
    pub message_stream_id : ℕ
    pub payload : List amf.Value

  unfoldable pub unmarshal_data : Message → Error ⊎ DataMessage
  unmarshal_data raw = elim (amf.parse raw.body) [
    | none ↦ inl invalid_amf
    | some vs ↦ inr (record {
      chunk_stream_id = raw.chunk_stream_id;
      message_stream_id = raw.message_stream_id;
      payload = vs;
    })
  ]

  unfoldable pub marshal_data : DataMessage → Message
  marshal_data m = record {
    chunk_stream_id = m.chunk_stream_id;
    timestamp = 0;
    type = 18;
    message_stream_id = m.message_stream_id;
    body = amf.fill m.payload;
  }
