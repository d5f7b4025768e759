-- ===== src/Cmd/FileData.antt =====
-- cmd/server/main.go and cmd/client/main.go: the content of files over a connection. The regular
-- files below the directory of a side are a map from their paths, relative and clean, to their
-- contents; directories are there already.
use mydrive.Base.{
  ℕ, zero, suc, ◌%◌, ◌^◌, Option, none, some, List, [], ◌∷◌, Bool, true, false, Text, Result, ok,
  err, ltb, ◌==◌, nat_eq, text_eq, if◌then◌else◌,
}
use mydrive.Base.Dict
use mydrive.Base.Dict.{Dict}
use mydrive.Protocol.Msg
use mydrive.Protocol.FileType.{flag_final_chunk}
use mydrive.Protocol.Message.{Message, Content, FileDataChunk, message_of, file_data}
use mydrive.Protocol.Json.{Codec}
use mydrive.Protocol.Codec.Parse.{Error}
use mydrive.Netlayer.Stream.{Conn, WriteError, read_message, write_message}
use mydrive.Utils.Content.{overwrite}
use mydrive.Utils.Chunks.{read_file_chunked}
pub mod Messages
pub mod Handling
pub mod Transfer
pub mod Total
pub mod Refinement

abbrev pub Files : Type 0
Files = Dict Text Text

-- The content of a file, of no bytes if there is none yet.
abbrev pub content_of : Files → Text → Text
content_of files path = elim (Dict.get files path) [ none ↦ [] | some c ↦ c ]

-- The message for a chunk.
abbrev pub chunk_content : Text → ℕ → Text → Bool → Content
chunk_content path offset chunk final = file_data (record {
  path = path;
  flags = if final then flag_final_chunk else 0;
  offset = offset;
  bytes = chunk;
})

-- utils.WriteChunkAt with int64(offset). The file is there once it was opened; a negative offset is
-- an error.
unfoldable pub write_chunk_at : Text → Text → ℕ → Files → Result ℕ (Unit {0}) × Files
write_chunk_at path chunk offset files =
    let old = content_of files path in
    if ltb offset (2 ^ 63)
    then (ok tt, Dict.insert files path (overwrite old chunk offset))
    else (err offset, Dict.insert files path old)

-- The case of FILE_DATA in handleMessage and handleServerMessage, on the files. The message has a
-- chunk, as every one that is read.
unfoldable pub handle_file_data : Message → Files → Result ℕ (Unit {0}) × Files
handle_file_data m files = elim m.file_data [
  | none ↦ (ok tt, files)
  | some chunk ↦ write_chunk_at chunk.path chunk.bytes chunk.offset files
]

module _ (j : Codec) where
  -- The streaming of a file that can be read: in handleClient, in handleMonitorEvent, and for the
  -- client in SendFileContent.
  unfoldable pub stream_file : Text → Text → Conn → Result WriteError (Unit {0}) × Conn
  stream_file path content =
      read_file_chunked
        (λ offset chunk final c.
          write_message j (message_of (chunk_content path offset chunk final)) c)
        content

  -- The loop of runSession for the contents of the initial sync, up to an ACK. An error of a chunk
  -- is only printed, as is a message of any other type. On fuel: `none` when it runs out.
  unfoldable pub receive_data : ℕ → Conn → Files → Option (Result Error (Unit {0})) × Conn × Files
  receive_data zero c files = (none, c, files)
  receive_data (suc fuel) c files =
      let (got, c') = read_message j c in
      elim got [
        | err e ↦ (some (err e), c', files)
        | ok m ↦
            let files' =
              if m.msg_type == Msg.file_data then (handle_file_data m files).1 else files in
            let rest = receive_data fuel c' files' in
            if m.msg_type == Msg.ack then (some (ok tt), c', files) else rest
      ]
