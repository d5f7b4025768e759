-- ===== src/Cmd/Session.antt =====
-- cmd/server/main.go: the conversation of handleClient up to its main loop. `found` is what the walk
-- of the scan finds, and `disk` has the contents of the files below the server's directory that can
-- be read.
use mydrive.Base.{
  ℕ, Option, none, some, List, [], ◌∷◌, ◌++◌, Bool, true, false, not, ◌&&◌, ◌||◌, Text, bytes,
  Result, ok, err, map, ◌==◌, nat_eq, if◌then◌else◌,
}
use mydrive.Protocol.Msg
use mydrive.Protocol.FileType
use mydrive.Protocol.Message.{
  Message, FileEntry, ChangeEvent, ChangeType, SyncTree, pointed, message_of, hello_ack, sync_init,
  sync_apply, ack,
}
use mydrive.Protocol.Json.{Codec}
use mydrive.Protocol.Codec.Parse.{Error}
use mydrive.Netlayer.Stream.{Conn, WriteError, read_message, write_message}
use mydrive.Netlayer.Server.{ClientSession}
use mydrive.Sync.Engine.{Engine, scan_local, build_sync_tree, clear_tombstones}
use mydrive.Cmd.SyncOps.{build_sync_ops}
use mydrive.Cmd.Server.{learn_tree, initial_changes}
use mydrive.Cmd.FileData.{stream_file}
pub mod Safety
pub mod Tombstones

-- How the conversation ends: with the main loop running, `synced` behind an initial sync and
-- `running` without one, or on an error. `nil_pointer` stands for a read through a nil pointer, which
-- would stop the program.
pub data Outcome : Type 0 where
  synced running nil_pointer : Outcome
  read_hello read_sync_init : Error → Outcome
  expected_hello : ℕ → Outcome
  send_hello_ack send_sync_init send_sync_apply send_complete : WriteError → Outcome

module _ (j : Codec) (disk : Text → Option Text) where
  -- Whether the content of a file belongs to a change, and of which.
  unfoldable pub file_of : ChangeEvent → Option FileEntry
  file_of c =
      let regular : Option FileEntry = elim c.entry [
        | none ↦ none
        | some e ↦ if e.entry_type == FileType.regular_file then some e else none
      ] in
      elim c.change_type [ ChangeType.create ↦ regular | ChangeType.modify ↦ regular | _ ↦ none ]

  -- The loop that streams contents; its errors are dropped.
  unfoldable pub stream_changes : List ChangeEvent → Conn → Conn
  stream_changes [] c = c
  stream_changes (change ∷ changes) c =
      let c' : Conn = elim (file_of change) [
        | none ↦ c
        | some e ↦ elim (disk e.path) [
          | none ↦ c
          | some content ↦ (stream_file j e.path content c).1
        ]
      ] in
      stream_changes changes c'

  -- The initial sync, from the tree of the client without a nil entry.
  unfoldable pub send_initial : List FileEntry → Engine → Conn → Outcome × Conn × Engine
  send_initial tree e c =
      let e' = learn_tree tree e in
      let changes = initial_changes tree e' in
      let (applied, c₁) =
        write_message j
          (message_of (sync_apply (record { ops = map some (build_sync_ops changes) }))) c in
      let c₂ = stream_changes changes c₁ in
      let (acked, c₃) = write_message j (message_of (ack (record { seq = 0; status = 0 }))) c₂ in
      elim applied [
        | err x ↦ (send_sync_apply x, c₁, e')
        | ok _ ↦ elim acked [
          | err x ↦ (send_complete x, c₃, e')
          | ok _ ↦ (synced, c₃, clear_tombstones e')
        ]
      ]

  -- The exchange of the trees. A client that answers with any other message has no initial sync.
  unfoldable pub exchange_trees : Engine → Conn → Outcome × Conn × Engine
  exchange_trees e c =
      let (sent, c₁) = write_message j (message_of (sync_init (build_sync_tree e))) c in
      let (got, c₂) = read_message j c₁ in
      elim sent [
        | err x ↦ (send_sync_init x, c₁, e)
        | ok _ ↦ elim got [
          | err x ↦ (read_sync_init x, c₂, e)
          | ok m ↦
              let replied : Outcome × Conn × Engine = elim m.sync_init [
                | none ↦ (nil_pointer, c₂, e)
                | some tree ↦ elim (pointed tree.entries) [
                  | none ↦ (nil_pointer, c₂, e)
                  | some entries ↦ send_initial entries e c₂
                ]
              ] in
              if m.msg_type == Msg.sync_init then replied else (running, c₂, e)
        ]
      ]

  -- The answer to a HELLO, and what follows it.
  unfoldable pub greet : Engine → ℕ → Conn → Outcome × Conn × Engine
  greet e id c =
      let (acked, c₁) =
        write_message j
          (message_of (
            hello_ack
              (record { server_id = bytes "file-sync-server-1.0"; client_id = id; status = 0 })))
          c in
      let rest = exchange_trees e c₁ in
      elim acked [ err x ↦ (send_hello_ack x, c₁, e) | ok _ ↦ rest ]

  -- handleClient behind its scan, up to its main loop
  unfoldable pub converse : ClientSession → Engine → Outcome × ClientSession × Engine
  converse session e =
      let (got, c₁) = read_message j session.conn in
      let s₁ = record session { conn = c₁ } in
      elim got [
        | err x ↦ (read_hello x, s₁, e)
        | ok m ↦
            let greeted : Outcome × ClientSession × Engine = elim m.hello [
              | none ↦ (nil_pointer, s₁, e)
              | some h ↦
                  let (outcome, c₂, e₂) = greet e session.id c₁ in
                  (outcome, record session { conn = c₂; sync_dir = h.sync_dir }, e₂)
            ] in
            if not (m.msg_type == Msg.hello) then (expected_hello m.msg_type, s₁, e) else greeted
      ]

  -- handleClient, up to its main loop
  unfoldable pub start_session :
      List FileEntry → ClientSession → Engine → Outcome × ClientSession × Engine
  start_session found session e = converse session (scan_local found e)
