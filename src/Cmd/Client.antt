-- ===== src/Cmd/Client.antt =====
-- cmd/client/main.go: what the client does with a local change and with a message of the server, on
-- its whole state. `now` is the time of the step.
pub mod Run
pub mod Steps
pub mod Contents
pub mod Received
pub mod Total
pub mod Boot
use mydrive.Base.{
  ℕ, ◌*◌, Option, none, some, List, [], ◌∷◌, Bool, true, false, Text, Result, ok, err, ◌==◌, nat_eq,
  if◌then◌else◌,
}
use mydrive.Protocol.Msg
use mydrive.Protocol.FileType
use mydrive.Protocol.Message.{Message, FileEntry, FileDataChunk, ChangeEvent, ChangeType, SyncApply}
use mydrive.Protocol.Json.{Codec}
use mydrive.Netlayer.Stream.{WriteError}
use mydrive.Netlayer.Client.{
  Client, second, send_pong, send_file_create, send_file_modify, send_file_delete,
  send_file_content,
}
use mydrive.Os.{Disk, OsError, nil_pointer, node_at, readable}
use mydrive.Utils.Fs.{ensure_dir, delete_entry, write_chunk}
use mydrive.Sync.State.{remove}
use mydrive.Sync.Engine.{Engine}
use mydrive.Sync.OnDisk.{path_in, scan}
use mydrive.Sync.OnDisk.Apply.{apply_changes}
use mydrive.Sync.Monitor.{Monitor, ignore}

-- The monitor is there once the initial sync is over.
pub record World : Type 0 where
  pub disk : Disk
  pub engine : Engine
  pub client : Client
  pub monitor : Option Monitor

-- The errors of handleServerMessage; `no_payload` is a read through a nil pointer.
pub data HandleError : Type 0 where
  write_failed delete_file apply_failed : OsError → HandleError
  send_failed : WriteError → HandleError
  no_payload : HandleError

module _ (j : Codec) where
  -- SendFileContent for a regular file; a file that cannot be opened is only reported.
  unfoldable pub upload_content : FileEntry → Engine → Disk → Client → Client
  upload_content entry e d c = elim (readable (node_at d (path_in e entry.path))) [
    | none ↦ c
    | some content ↦
        if entry.entry_type == FileType.regular_file
        then (send_file_content j entry.path content c).1
        else c
  ]

  -- A creation or a modification, by the function that sends the entry: a failure sends no content.
  unfoldable pub upload :
      (FileEntry → Client → Result WriteError (Unit {0}) × Client)
      → Option FileEntry
      → Engine
      → Disk
      → Client
      → Client
  upload send_entry none e d c = c
  upload send_entry (some entry) e d c =
      let (sent, c') = send_entry entry c in
      elim sent [ err x ↦ c' | ok _ ↦ upload_content entry e d c' ]

  -- handleLocalEvent
  unfoldable pub handle_local_event : ChangeEvent → Engine → Disk → Client → Client
  handle_local_event event e d c = elim event.change_type [
    | ChangeType.create ↦ upload (send_file_create j) event.entry e d c
    | ChangeType.modify ↦ upload (send_file_modify j) event.entry e d c
    | ChangeType.delete ↦ (send_file_delete j event.path c).1
    | _ ↦ c
  ]

-- `if monitor != nil { monitor.Ignore(path, 2*time.Second) }`
unfoldable pub ignoring : Text → ℕ → World → World
ignoring path now w = elim w.monitor [
  | none ↦ w
  | some m ↦ record w { monitor = some (ignore path (2 * second) now m) }
]

-- The case of FILE_DATA; the error of EnsureDir is dropped.
unfoldable pub receive_chunk : FileDataChunk → ℕ → World → Result HandleError (Unit {0}) × World
receive_chunk chunk now w =
    let p = path_in w.engine chunk.path in
    let (written, d) = write_chunk p chunk.bytes chunk.offset (ensure_dir p w.disk).1 in
    let result : Result HandleError (Unit {0}) = elim written [
      | err x ↦ err (write_failed x)
      | ok _ ↦ ok tt
    ] in
    (result, record (ignoring chunk.path now w) { disk = d })

-- A case that reads its payload through a pointer.
abbrev on_payload :
    {A : Type 0}
    → Option A
    → (A → World → Result HandleError (Unit {0}) × World)
    → World
    → Result HandleError (Unit {0}) × World
on_payload none next w = (err no_payload, w)
on_payload (some a) next w = next a w

module _ (sha256 : Text → Text) where
  -- engine.ScanLocal(), whose error is dropped
  abbrev pub rescan : World → World
  rescan w = let (r, e, d) = scan sha256 w.engine w.disk in record w { engine = e; disk = d }

  -- The case of FILE_DELETE
  unfoldable pub receive_delete : Text → ℕ → World → Result HandleError (Unit {0}) × World
  receive_delete path now w =
      let w₁ = ignoring path now w in
      let (removed, d) = delete_entry (path_in w.engine path) w.disk in
      let e = record w.engine { remote_tree = remove w.engine.remote_tree path } in
      elim removed [
        | err x ↦ (err (delete_file x), record w₁ { disk = d })
        | ok _ ↦ (ok tt, rescan (record w₁ { disk = d; engine = e }))
      ]

  -- The case of SYNC_APPLY
  unfoldable pub receive_ops : SyncApply → World → Result HandleError (Unit {0}) × World
  receive_ops ops w =
      let (applied, e, d) = apply_changes sha256 ops.ops w.engine w.disk in
      let result : Result HandleError (Unit {0}) = elim applied [
        | err nil_pointer ↦ err no_payload
        | err x ↦ err (apply_failed x)
        | ok _ ↦ ok tt
      ] in
      (result, record w { engine = e; disk = d })

module _ (j : Codec) where
  abbrev answer_ping : World → Result HandleError (Unit {0}) × World
  answer_ping w =
      let (sent, c) = send_pong j w.client in
      let result : Result HandleError (Unit {0}) = elim sent [
        | err x ↦ err (send_failed x)
        | ok _ ↦ ok tt
      ] in
      (result, record w { client = c })

module _ (j : Codec) (sha256 : Text → Text) where
  -- handleServerMessage. A creation and a modification are not made on the disk.
  unfoldable pub handle_server_message : Message → ℕ → World → Result HandleError (Unit {0}) × World
  handle_server_message m now w =
      if m.msg_type == Msg.file_create
      then on_payload m.file_create (λ entry w. (ok tt, ignoring entry.path now w)) w
      else if m.msg_type == Msg.file_modify
      then on_payload m.file_modify (λ entry w. (ok tt, ignoring entry.path now w)) w
      else if m.msg_type == Msg.file_data
      then on_payload m.file_data (λ chunk. receive_chunk chunk now) w
      else if m.msg_type == Msg.file_delete
      then receive_delete sha256 m.file_delete now w
      else if m.msg_type == Msg.sync_apply
      then on_payload m.sync_apply (receive_ops sha256) w
      else if m.msg_type == Msg.ping
      then answer_ping j w
      else (ok tt, w)
