-- ===== src/Cmd/Serve/Events.antt =====
-- cmd/server/main.go: handleMonitorEvent, and a tick of monitorClientChanges on the whole state.
use mydrive.Base.{
  ℕ, ◌*◌, Option, none, some, [], ◌∷◌, Text, Result, ok, err, ltb, length, map, ◌==◌, nat_eq,
  text_eq, if◌then◌else◌,
}
use mydrive.Base.Dict.{Dict}
use mydrive.Protocol.FileType
use mydrive.Protocol.Message.{
  FileEntry, ChangeEvent, ChangeType, message_of, file_modify, file_delete, sync_apply,
}
use mydrive.Protocol.Json.{Codec}
use mydrive.Netlayer.Stream.{Conn, WriteError, write_message}
use mydrive.Netlayer.Server.{ClientSession, get_clients}
use mydrive.Os.{Disk, node_at, readable}
use mydrive.Sync.State.{stamp}
use mydrive.Sync.Diff.{diff}
use mydrive.Sync.Engine.{Engine, tombstone_file}
use mydrive.Sync.OnDisk.{path_in, persist}
use mydrive.Cmd.SyncOps.{build_sync_ops}
use mydrive.Cmd.FileData.{stream_file}
use mydrive.Cmd.Serve.{World, set_remote, remove_remote, ignoring, rescan, write_to}

abbrev millisecond : ℕ
millisecond = 1000000

-- The content that goes with an entry: that of a regular file which can be read.
unfoldable pub content_for : Engine → FileEntry → Disk → Option Text
content_for e entry d =
    if entry.entry_type == FileType.regular_file
    then readable (node_at d (path_in e entry.path))
    else none

module _ (j : Codec) (sha256 : Text → Text) where
  -- The body of the loop over the clients for a creation or a modification: a client that cannot be
  -- written to gets no content.
  unfoldable pub upload : FileEntry → Option Text → Conn → Conn
  upload entry content c =
      let (sent, c') = write_message j (message_of (file_modify entry)) c in
      elim sent [
        | err x ↦ c'
        | ok _ ↦ elim content [ none ↦ c' | some t ↦ (stream_file j entry.path t c').1 ]
      ]

  -- A change of every connection of the registry, in the order of the loop over GetClients
  unfoldable pub each_conn : (Conn → Conn) → Dict ℕ ClientSession → Dict ℕ ClientSession
  each_conn f [] = []
  each_conn f ((id, session) ∷ rest) =
      (id, record session { conn = f session.conn }) ∷ each_conn f rest

  abbrev to_clients : (Conn → Conn) → World → World
  to_clients f w = record w { server = record w.server { clients = each_conn f w.server.clients } }

  -- The branch for a creation or a modification. Set writes its number into the entry that is sent.
  unfoldable pub announce_entry : ChangeEvent → ℕ → World → World
  announce_entry event now w =
      let w₁ = rescan sha256 w in
      elim event.entry [
        | none ↦ w₁
        | some entry ↦
            let w₂ = record w₁ { engine = set_remote entry w₁.engine } in
            let w₃ = ignoring event.path (500 * millisecond) now w₂ in
            let numbered = stamp w₁.engine.remote_tree entry in
            to_clients (upload numbered (content_for w₃.engine entry w₃.disk)) w₃
      ]

  -- The branch for a deletion: without a client it is kept for a restart.
  unfoldable pub announce_delete : ChangeEvent → World → World
  announce_delete event w =
      let w₁ = rescan sha256 w in
      let w₂ = record w₁ { engine = remove_remote event.path w₁.engine } in
      let told = to_clients (λ c. (write_message j (message_of (file_delete event.path)) c).1) w₂ in
      if event.path == []
      then w₁
      else if length (get_clients w₂.server) == 0
      then record w₂ { disk = (persist w₂.engine w₂.disk).1 }
      else told

  -- handleMonitorEvent
  unfoldable pub handle_monitor_event : ChangeEvent → ℕ → World → World
  handle_monitor_event event now w =
      let acted : World = elim event.change_type [
        | ChangeType.create ↦ announce_entry event now w
        | ChangeType.modify ↦ announce_entry event now w
        | ChangeType.delete ↦ announce_delete event w
        | _ ↦ w
      ] in
      if event.path == tombstone_file then w else acted

  -- A tick of monitorClientChanges for a session; a failed write ends its loop.
  unfoldable pub tick : ℕ → World → Result WriteError (Unit {0}) × World
  tick id w =
      let w₁ = rescan sha256 w in
      let changes = diff w₁.engine.local_tree w₁.engine.remote_tree in
      let m = message_of (sync_apply (record { ops = map some (build_sync_ops changes) })) in
      let (sent, s) = write_to j id m w₁.server in
      if ltb 0 (length changes) then (sent, record w₁ { server = s }) else (ok tt, w₁)
