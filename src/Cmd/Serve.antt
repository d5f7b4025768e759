-- ===== src/Cmd/Serve.antt =====
-- cmd/server/main.go: what the server does with the messages of a client and with the events of its
-- monitor, on its whole state. The handler of a message is one step: the lock of each part is held
-- for an operation only, so an interleaving of handlers may be finer. `now` is the time of the step.
pub mod Events
pub mod Boot
pub mod Conversation
pub mod Deletion
pub mod Safety
pub mod Lost
pub mod Deleting
pub mod Progress
use mydrive.Base.{
  ℕ, zero, suc, ◌*◌, Option, none, some, List, [], ◌∷◌, Bool, true, false, Text, Result, ok, err,
  ◌==◌, nat_eq, if◌then◌else◌,
}
use mydrive.Base.Dict
use mydrive.Base.Dict.{Dict}
use mydrive.Protocol.Msg
use mydrive.Protocol.FileType
use mydrive.Protocol.Message.{Message, FileEntry, FileDataChunk, message_of, pong}
use mydrive.Protocol.Json.{Codec}
use mydrive.Protocol.Codec.Parse.{Error}
use mydrive.Netlayer.Stream.{Conn, WriteError, read_message, write_message}
use mydrive.Netlayer.Client.{second}
use mydrive.Netlayer.Server.{ClientSession, Server, broadcast}
use mydrive.Os.{FilePath, Disk, OsError, Io}
use mydrive.Os.Paths.{join}
use mydrive.Os.Files.{mkdir_all}
use mydrive.Utils.Fs.{ensure_dir, delete_entry, write_chunk, apply_attrs}
use mydrive.Sync.State.{set, remove}
use mydrive.Sync.Engine.{Engine, clear_tombstone, add_tombstone}
use mydrive.Sync.OnDisk.{root_of, path_in, scan}
use mydrive.Sync.OnDisk.Apply.{make_file}
use mydrive.Sync.Monitor.{Monitor, ignore}

pub record World : Type 0 where
  pub disk : Disk
  pub engine : Engine
  pub server : Server
  pub monitor : Monitor

-- The errors of handleMessage. A read through a nil pointer, which would stop the program, is
-- `no_payload`.
pub data HandleError : Type 0 where
  create_file modify_file delete_file write_failed : OsError → HandleError
  send_failed : WriteError → HandleError
  no_payload : HandleError

-- applyFileCreate
unfoldable pub apply_file_create : FilePath → FileEntry → Io (Unit {0})
apply_file_create base entry =
    if entry.entry_type == FileType.directory
    then mkdir_all (join base entry.path) entry.mode
    else make_file (join base entry.path) entry

-- applyFileModify
unfoldable pub apply_file_modify : FilePath → FileEntry → Io (Unit {0})
apply_file_modify base entry = apply_attrs (join base entry.path) entry

abbrev pub ignoring : Text → ℕ → ℕ → World → World
ignoring path duration now w = record w { monitor = ignore path duration now w.monitor }

-- engine.RemoteTree().Set(entry)
abbrev pub set_remote : FileEntry → Engine → Engine
set_remote entry e = record e { remote_tree = set e.remote_tree entry }

-- engine.RemoteTree().Remove(path)
abbrev pub remove_remote : Text → Engine → Engine
remove_remote path e = record e { remote_tree = remove e.remote_tree path }

abbrev pub remove_local : Text → Engine → Engine
remove_local path e = record e { local_tree = remove e.local_tree path }

-- A case that reads its payload through a pointer.
abbrev on_payload :
    {A : Type 0}
    → Option A
    → (A → World → Result HandleError (Unit {0}) × World)
    → World
    → Result HandleError (Unit {0}) × World
on_payload none next w = (err no_payload, w)
on_payload (some a) next w = next a w

module _ (sha256 : Text → Text) where
  -- engine.ScanLocal(), whose error is dropped
  abbrev pub rescan : World → World
  rescan w = let (r, e, d) = scan sha256 w.engine w.disk in record w { engine = e; disk = d }

  -- The case of FILE_CREATE
  unfoldable pub handle_create : FileEntry → ℕ → World → Result HandleError (Unit {0}) × World
  handle_create entry now w =
      let w₁ = ignoring entry.path (2 * second) now w in
      let (made, d) = apply_file_create (root_of w.engine) entry w.disk in
      elim made [
        | err x ↦ (err (create_file x), record w₁ { disk = d })
        | ok _ ↦ (
          ok tt,
          rescan (record w₁ {
            disk = d;
            engine = set_remote entry (clear_tombstone entry.path w.engine);
          }),
        )
      ]

  -- The case of FILE_MODIFY
  unfoldable pub handle_modify : FileEntry → ℕ → World → Result HandleError (Unit {0}) × World
  handle_modify entry now w =
      let w₁ = ignoring entry.path (2 * second) now w in
      let (changed, d) = apply_file_modify (root_of w.engine) entry w.disk in
      elim changed [
        | err x ↦ (err (modify_file x), record w₁ { disk = d })
        | ok _ ↦ (ok tt, rescan (record w₁ { disk = d; engine = set_remote entry w.engine }))
      ]

module _ (j : Codec) where
  -- The case of FILE_DATA; the error of EnsureDir is dropped.
  unfoldable pub handle_data :
      ℕ → Message → FileDataChunk → World → Result HandleError (Unit {0}) × World
  handle_data sender m chunk w =
      let p = path_in w.engine chunk.path in
      let (written, d) = write_chunk p chunk.bytes chunk.offset (ensure_dir p w.disk).1 in
      elim written [
        | err x ↦ (err (write_failed x), record w { disk = d })
        | ok _ ↦ (ok tt, record w { disk = d; server = broadcast j sender m w.server })
      ]

  -- A message to the client of a session. A session that has left the registry has a closed
  -- connection.
  unfoldable pub write_to : ℕ → Message → Server → Result WriteError (Unit {0}) × Server
  write_to id m s = elim (Dict.get s.clients id) [
    | none ↦ (err WriteError.closed, s)
    | some session ↦
        let (sent, c) = write_message j m session.conn in
        (sent, record s { clients = Dict.insert s.clients id (record session { conn = c }) })
  ]

  abbrev pub answer_ping : ℕ → World → Result HandleError (Unit {0}) × World
  answer_ping id w =
      let (sent, s) = write_to id (message_of pong) w.server in
      let result : Result HandleError (Unit {0}) = elim sent [
        | err x ↦ err (send_failed x)
        | ok _ ↦ ok tt
      ] in
      (result, record w { server = s })

  -- ReadMessage on the connection of a session, `none` if it has left the registry
  unfoldable pub read_from : ℕ → Server → Option (Result Error Message) × Server
  read_from id s = elim (Dict.get s.clients id) [
    | none ↦ (none, s)
    | some session ↦
        let (got, c) = read_message j session.conn in
        (some got, record s { clients = Dict.insert s.clients id (record session { conn = c }) })
  ]

module _ (j : Codec) (sha256 : Text → Text) where
  -- The case of FILE_DELETE
  unfoldable pub handle_delete : ℕ → Message → ℕ → World → Result HandleError (Unit {0}) × World
  handle_delete sender m now w =
      let path = m.file_delete in
      let w₁ = ignoring path (2 * second) now w in
      let (removed, d) = delete_entry (path_in w.engine path) w.disk in
      let e = add_tombstone path (remove_local path (remove_remote path w.engine)) in
      let w₂ = rescan sha256 (record w₁ { disk = d; engine = e }) in
      elim removed [
        | err x ↦ (err (delete_file x), record w₁ { disk = d })
        | ok _ ↦ (ok tt, record w₂ { server = broadcast j sender m w₂.server })
      ]

  -- handleMessage
  unfoldable pub handle_message : ℕ → Message → ℕ → World → Result HandleError (Unit {0}) × World
  handle_message id m now w =
      if m.msg_type == Msg.file_create
      then on_payload m.file_create (λ entry. handle_create sha256 entry now) w
      else if m.msg_type == Msg.file_modify
      then on_payload m.file_modify (λ entry. handle_modify sha256 entry now) w
      else if m.msg_type == Msg.file_delete
      then handle_delete id m now w
      else if m.msg_type == Msg.file_data
      then on_payload m.file_data (handle_data j id m) w
      else if m.msg_type == Msg.ping
      then answer_ping j id w
      else (ok tt, w)

  -- What a round of the main loop does with what was read, before the rest of the rounds
  abbrev pub after_reading :
      (World → Option Error × World)
      → ℕ
      → ℕ
      → World
      → Option (Result Error Message) × Server
      → Option Error × World
  after_reading rest id now w (none, s) = (none, record w { server = s })
  after_reading rest id now w (some (err x), s) = (some x, record w { server = s })
  after_reading rest id now w (some (ok m), s) =
      rest (handle_message id m now (record w { server = s })).1

  -- The main loop of handleClient. Its context is done before round number `rounds`: then the loop
  -- ends with `none`, else with the error of a read. An error of a handler is only printed.
  unfoldable pub serve : ℕ → ℕ → ℕ → World → Option Error × World
  serve zero id now w = (none, w)
  serve (suc rounds) id now w =
      after_reading (serve rounds id now) id now w (read_from j id w.server)
