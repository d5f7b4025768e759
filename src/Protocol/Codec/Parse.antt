-- ===== src/Protocol/Codec/Parse.antt =====
-- protocol/codec.go: the payload of a message, and the message of a payload.
use mydrive.Base.{
  ℕ, some, [], ◌∷◌, ◌&&◌, ◌||◌, not, Text, Result, ok, err, ◌==◌, nat_eq, if◌then◌else◌,
}
use mydrive.Protocol.Msg
use mydrive.Protocol.Message.{Message, bare}
use mydrive.Protocol.Json.{
  Kind, hello_payload, hello_ack_payload, sync_tree, file_entry, file_data_chunk, path,
  file_move_data, ack_payload, sync_diff, sync_apply, error_payload, Value, Payload, nil, typed,
  Codec, JsonError, unmarshal_json,
}

pub data IoError : Type 0 where
  eof unexpected_eof : IoError

pub data Error : Type 0 where
  encode_payload : JsonError → Error
  frame_too_large : ℕ → Error
  read_header read_payload : IoError → Error
  empty_payload : ℕ → Error
  decode_payload : JsonError → Error
  invalid_type : ℕ → Error

-- (*Message).payload. The path of a deletion is a plain string, so it is never nil.
unfoldable pub payload : Message → Payload
payload m =
    if m.msg_type == Msg.hello
    then typed hello_payload m.hello
    else if m.msg_type == Msg.hello_ack
    then typed hello_ack_payload m.hello_ack
    else if m.msg_type == Msg.sync_init
    then typed sync_tree m.sync_init
    else if m.msg_type == Msg.sync_init_ack
    then typed sync_tree m.sync_init_ack
    else if m.msg_type == Msg.file_create
    then typed file_entry m.file_create
    else if m.msg_type == Msg.file_data
    then typed file_data_chunk m.file_data
    else if m.msg_type == Msg.file_modify
    then typed file_entry m.file_modify
    else if m.msg_type == Msg.file_delete
    then typed path (some m.file_delete)
    else if m.msg_type == Msg.file_move
    then typed file_move_data m.file_move
    else if m.msg_type == Msg.ack
    then typed ack_payload m.ack
    else if m.msg_type == Msg.sync_diff
    then typed sync_diff m.sync_diff
    else if m.msg_type == Msg.sync_apply
    then typed sync_apply m.sync_apply
    else if m.msg_type == Msg.error
    then typed error_payload m.error
    else nil

module _ (j : Codec) where
  -- `p := &T{}; if err := jsonUnmarshal(payload, p); err != nil { return nil, err }; msg.F = p`
  unfoldable pub parse_as : (k : Kind) → Text → (Value k → Message) → Result Error Message
  unfolding unmarshal_json
  parse_as k t field = elim (unmarshal_json j k t) [
    | ok v ↦ ok (field v)
    | err e ↦ err (decode_payload e)
  ]

  -- parseMessage
  unfoldable pub parse_message : ℕ → Text → Result Error Message
  parse_message t b =
      if t == Msg.hello
      then parse_as hello_payload b (λ p. record (bare t) { hello = some p })
      else if t == Msg.hello_ack
      then parse_as hello_ack_payload b (λ p. record (bare t) { hello_ack = some p })
      else if t == Msg.sync_init
      then parse_as sync_tree b (λ p. record (bare t) { sync_init = some p })
      else if t == Msg.sync_init_ack
      then parse_as sync_tree b (λ p. record (bare t) { sync_init_ack = some p })
      else if t == Msg.file_create
      then parse_as file_entry b (λ p. record (bare t) { file_create = some p })
      else if t == Msg.file_data
      then parse_as file_data_chunk b (λ p. record (bare t) { file_data = some p })
      else if t == Msg.file_modify
      then parse_as file_entry b (λ p. record (bare t) { file_modify = some p })
      else if t == Msg.file_delete
      then parse_as path b (λ p. record (bare t) { file_delete = p })
      else if t == Msg.file_move
      then parse_as file_move_data b (λ p. record (bare t) { file_move = some p })
      else if t == Msg.ack
      then parse_as ack_payload b (λ p. record (bare t) { ack = some p })
      else if t == Msg.sync_diff
      then parse_as sync_diff b (λ p. record (bare t) { sync_diff = some p })
      else if t == Msg.sync_apply
      then parse_as sync_apply b (λ p. record (bare t) { sync_apply = some p })
      else if t == Msg.error
      then parse_as error_payload b (λ p. record (bare t) { error = some p })
      else if t == Msg.ping || t == Msg.pong
      then ok (bare t)
      else err (invalid_type t)

  -- DecodeFromBytes
  unfoldable pub decode_from_bytes : ℕ → Text → Result Error Message
  decode_from_bytes t [] =
      if not (t == Msg.ping) && not (t == Msg.pong) then err (empty_payload t) else ok (bare t)
  decode_from_bytes t (x ∷ b) = parse_message t (x ∷ b)
