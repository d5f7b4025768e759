-- ===== src/Protocol/Message.antt =====
-- protocol/message.go: the data structures and the message union.
-- A Go string or byte slice is the list of its bytes, an unsigned integer a natural number, an
-- int64 an integer, and a pointer that may be nil an `Option`. The strings by which changes and
-- operations are told apart are the constructors of a data type, with `other` for the rest.
use mydrive.Base.{ℕ, Option, none, some, List, [], ◌∷◌, Text}
use mydrive.Base.Int.{ℤ}
use mydrive.Protocol.Msg

pub record FileEntry : Type 0 where
  pub path : Text
  pub entry_type : ℕ
  pub mode : ℕ
  pub uid : ℕ
  pub gid : ℕ
  pub mtime : ℤ
  pub atime : ℤ
  pub size : ℕ
  pub content_hash : Text
  pub seq : ℕ

pub record FileDataChunk : Type 0 where
  pub path : Text
  pub flags : ℕ
  pub offset : ℕ
  pub bytes : Text

pub data ChangeType : Type 0 where
  create modify delete move : ChangeType
  other : Text → ChangeType

pub record ChangeEvent : Type 0 where
  pub change_type : ChangeType
  pub entry : Option FileEntry
  pub path : Text
  pub old_path : Text
  pub new_path : Text

pub data OpType : Type 0 where
  create_dir create_file write_file set_attrs delete move : OpType
  other : Text → OpType

pub record SyncOp : Type 0 where
  pub op_type : OpType
  pub entry : Option FileEntry
  pub path : Text
  pub old_path : Text
  pub new_path : Text
  pub chunk : Text
  pub chunk_off : ℕ
  pub chunk_len : ℕ
  pub chunk_flags : ℕ

pub record HelloPayload : Type 0 where
  pub client_id : Text
  pub sync_dir : Text
  pub version : Text

pub record HelloAckPayload : Type 0 where
  pub server_id : Text
  pub client_id : ℕ
  pub status : ℕ

pub record AckPayload : Type 0 where
  pub seq : ℕ
  pub status : ℕ

-- A list of pointers, each of which may be nil: JSON has null there.
pub record SyncTree : Type 0 where
  pub entries : List (Option FileEntry)

pub record SyncDiff : Type 0 where
  pub changes : List (Option ChangeEvent)

pub record SyncApply : Type 0 where
  pub ops : List (Option SyncOp)

-- What a list of pointers points to, if none of them is nil
abbrev pub pointed : {A : Type 0} → List (Option A) → Option (List A)
pointed [] = some []
pointed (none ∷ l) = none
pointed (some a ∷ l) = elim (pointed l) [ none ↦ none | some l' ↦ some (a ∷ l') ]

pub record ErrorPayload : Type 0 where
  pub code : ℕ
  pub message : Text

pub record FileMoveData : Type 0 where
  pub old_path : Text
  pub new_path : Text
  pub entry : Option FileEntry

-- The top-level union: a type byte, and one field for each kind of payload.
pub record Message : Type 0 where
  pub msg_type : ℕ
  pub hello : Option HelloPayload
  pub hello_ack : Option HelloAckPayload
  pub sync_init : Option SyncTree
  pub sync_init_ack : Option SyncTree
  pub file_create : Option FileEntry
  pub file_data : Option FileDataChunk
  pub file_modify : Option FileEntry
  pub file_delete : Text
  pub file_move : Option FileMoveData
  pub ack : Option AckPayload
  pub sync_diff : Option SyncDiff
  pub sync_apply : Option SyncApply
  pub error : Option ErrorPayload

-- &Message{Type: t}
abbrev pub bare : ℕ → Message
bare t = record {
  msg_type = t;
  hello = none;
  hello_ack = none;
  sync_init = none;
  sync_init_ack = none;
  file_create = none;
  file_data = none;
  file_modify = none;
  file_delete = [];
  file_move = none;
  ack = none;
  sync_diff = none;
  sync_apply = none;
  error = none;
}

-- What a message says: its kind with the payload that belongs to it.
pub data Content : Type 0 where
  hello : HelloPayload → Content
  hello_ack : HelloAckPayload → Content
  sync_init : SyncTree → Content
  sync_init_ack : SyncTree → Content
  file_create : FileEntry → Content
  file_data : FileDataChunk → Content
  file_modify : FileEntry → Content
  file_delete : Text → Content
  file_move : FileMoveData → Content
  ack : AckPayload → Content
  sync_diff : SyncDiff → Content
  sync_apply : SyncApply → Content
  error : ErrorPayload → Content
  ping pong : Content

-- The struct by which the program carries a content.
abbrev pub message_of : Content → Message
message_of (hello p) = record (bare Msg.hello) { hello = some p }
message_of (hello_ack p) = record (bare Msg.hello_ack) { hello_ack = some p }
message_of (sync_init p) = record (bare Msg.sync_init) { sync_init = some p }
message_of (sync_init_ack p) = record (bare Msg.sync_init_ack) { sync_init_ack = some p }
message_of (file_create p) = record (bare Msg.file_create) { file_create = some p }
message_of (file_data p) = record (bare Msg.file_data) { file_data = some p }
message_of (file_modify p) = record (bare Msg.file_modify) { file_modify = some p }
message_of (file_delete p) = record (bare Msg.file_delete) { file_delete = p }
message_of (file_move p) = record (bare Msg.file_move) { file_move = some p }
message_of (ack p) = record (bare Msg.ack) { ack = some p }
message_of (sync_diff p) = record (bare Msg.sync_diff) { sync_diff = some p }
message_of (sync_apply p) = record (bare Msg.sync_apply) { sync_apply = some p }
message_of (error p) = record (bare Msg.error) { error = some p }
message_of ping = bare Msg.ping
message_of pong = bare Msg.pong
