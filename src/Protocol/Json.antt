-- ===== src/Protocol/Json.antt =====
-- protocol/json.go. The encoder of encoding/json is a parameter of the model: `Codec` is what the
-- protocol asks of it, and `IsLawful` what the protocol relies on.
use mydrive.Base.{◌≡◌, ◌≢◌, Option, some, [], Text, Result, ok, err}
use mydrive.Protocol.Message.{
  FileEntry, FileDataChunk, HelloPayload, HelloAckPayload, AckPayload, SyncTree, SyncDiff,
  SyncApply, ErrorPayload, FileMoveData,
}

-- The Go types that travel as payloads.
pub data Kind : Type 0 where
  hello_payload hello_ack_payload sync_tree file_entry file_data_chunk path : Kind
  file_move_data ack_payload sync_diff sync_apply error_payload : Kind

abbrev pub Value : Kind → Type 0
Value hello_payload = HelloPayload
Value hello_ack_payload = HelloAckPayload
Value sync_tree = SyncTree
Value file_entry = FileEntry
Value file_data_chunk = FileDataChunk
Value path = Text
Value file_move_data = FileMoveData
Value ack_payload = AckPayload
Value sync_diff = SyncDiff
Value sync_apply = SyncApply
Value error_payload = ErrorPayload

-- An interface{} value: nil, or a type with a pointer to a value of it that may be nil.
pub data Payload : Type 0 where
  nil : Payload
  typed : (k : Kind) → Option (Value k) → Payload

-- json.Marshal and json.Unmarshal; their errors are their texts.
pub record Codec : Type 1 where
  pub marshal : Payload → Result Text Text
  pub unmarshal : (k : Kind) → Text → Result Text (Value k)
  -- The values whose strings are UTF-8 and whose numbers are in the range of their types.
  pub IsPlain : (k : Kind) → Value k → Type 0

-- What is documented of encoding/json: an encoding is not empty, and decoding it gives back the
-- value that was encoded.
pub record IsLawful (j : Codec) : Type 0 where
  pub marshal-ne-nil : (p : Payload) (t : Text) → j.marshal p ≡ ok t → t ≢ []
  pub unmarshal-marshal :
      (k : Kind) (v : Value k) (t : Text)
      → j.IsPlain k v
      → j.marshal (typed k (some v)) ≡ ok t
      → j.unmarshal k t ≡ ok v

pub data JsonError : Type 0 where
  json_marshal json_unmarshal : Text → JsonError

module _ (j : Codec) where
  -- jsonMarshal
  unfoldable pub marshal_json : Payload → Result JsonError Text
  marshal_json v = elim (j.marshal v) [ ok t ↦ ok t | err e ↦ err (json_marshal e) ]

  -- jsonUnmarshal
  unfoldable pub unmarshal_json : (k : Kind) → Text → Result JsonError (Value k)
  unmarshal_json k t = elim (j.unmarshal k t) [ ok v ↦ ok v | err e ↦ err (json_unmarshal e) ]
