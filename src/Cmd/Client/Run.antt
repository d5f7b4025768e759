-- ===== src/Cmd/Client/Run.antt =====
-- cmd/client/main.go: runSession up to its main loop. Each step either goes on or ends the session
-- with an error, behind which the connection is closed.
use mydrive.Base.{
  ℕ, zero, suc, Option, none, some, List, [], ◌∷◌, Bool, Text, bytes, text_eq, Result, ok, err, ltb,
  length, ◌==◌, nat_eq, if◌then◌else◌,
}
use mydrive.Base.Dict
use mydrive.Base.Dict.{Dict}
use mydrive.Config.{ClientConfig}
use mydrive.Protocol.Msg
use mydrive.Protocol.Message.{Message, ChangeEvent, SyncTree, SyncApply, pointed}
use mydrive.Protocol.Json.{Codec}
use mydrive.Protocol.Codec.Parse.{Error}
use mydrive.Netlayer.Stream.{WriteError}
use mydrive.Netlayer.Client.{
  Client, Attempt, Connected, connected, HelloError, connect, close_client, send_hello_message,
  send_sync_init, send_file_delete, receive,
}
use mydrive.Os.{OsError, nil_pointer}
use mydrive.Sync.State.{paths}
use mydrive.Sync.Diff.{diff_initial}
use mydrive.Sync.Engine.{flag, set_remote_tree, build_sync_tree}
use mydrive.Sync.OnDisk.{scan, clear_persisted}
use mydrive.Sync.OnDisk.Apply.{apply_changes}
use mydrive.Sync.Monitor.Lifecycle
use mydrive.Sync.Monitor.Lifecycle.{made}
use mydrive.Cmd.Client.{World, rescan, handle_local_event, handle_server_message}

-- How a session ends: `clean` without an error, `no_payload` on a read through a nil pointer, which
-- would stop the program, and `unfinished` if a loop has no fuel left.
pub data End : Type 0 where
  clean no_payload unfinished create_monitor : End
  initial_scan : OsError → End
  connect_ended : Connected → End
  handshake : HelloError → End
  sync_init_failed : WriteError → End
  receive_sync_init receive_sync_apply receive_sync_data read_failed : Error → End

abbrev pub Step : Type 0 → Type 0
Step A = World → Result End A × World

abbrev pub pure : {A : Type 0} → A → Step A
pure a w = (ok a, w)

infixl 5 ◌>>=◌ ◌>>◌
abbrev pub ◌>>=◌ : {A B : Type 0} → Step A → (A → Step B) → Step B
◌>>=◌ step next w = let (r, w') = step w in elim r [ err e ↦ (err e, w') | ok a ↦ next a w' ]

abbrev pub ◌>>◌ : {B : Type 0} → Step (Unit {0}) → Step B → Step B
step >> next = step >>= λ _. next

-- A change that cannot fail
abbrev pub doing : (World → World) → Step (Unit {0})
doing f w = (ok tt, f w)

-- An operation of the client; behind its error the connection is closed.
abbrev pub on_client : {E A : Type 0} → (Client → Result E A × Client) → (E → End) → Step A
on_client operation ended w =
    let (r, c) = operation w.client in
    elim r [
      | err e ↦ (err (ended e), record w { client = close_client c })
      | ok a ↦ (ok a, record w { client = c })
    ]

-- A payload that is read through its pointer
abbrev pub payload : {A : Type 0} → Option A → Step A
payload none w = (err no_payload, w)
payload (some a) w = (ok a, w)

-- client.Connect
unfoldable pub connecting : List Attempt → Step (Unit {0})
connecting attempts w =
    let o = connect attempts w.client in
    let w' = record w { client = o.client } in
    elim o.result [ connected ↦ (ok tt, w') | r ↦ (err (connect_ended r), w') ]

-- NewMonitor, with the directories that its walk finds if the watching succeeds, and its start
unfoldable pub monitoring : Option (List Text) → Step (Unit {0})
monitoring none w = (err create_monitor, record w { client = close_client w.client })
monitoring (some directories) w =
    (ok tt, record w { monitor = some (Lifecycle.start (made directories)).monitor })

module _ (sha256 : Text → Text) where
  -- The initial scan
  unfoldable pub scanning : Step (Unit {0})
  scanning w =
      let (r, e, d) = scan sha256 w.engine w.disk in
      let w' = record w { engine = e; disk = d } in
      elim r [ err x ↦ (err (initial_scan x), w') | ok _ ↦ (ok tt, w') ]

  -- The operations of a SYNC_APPLY; an error is only printed, as is a message of another type.
  unfoldable pub applying : Message → Step (Unit {0})
  applying m =
      let apply : SyncApply → Step (Unit {0}) = λ s w.
        let (r, e, d) = apply_changes sha256 s.ops w.engine w.disk in
        let result : Result End (Unit {0}) = elim r [
          | err nil_pointer ↦ err no_payload
          | _ ↦ ok tt
        ] in
        if ltb 0 (length s.ops) then (result, record w { engine = e; disk = d }) else (ok tt, w) in
      if m.msg_type == Msg.sync_apply then payload m.sync_apply >>= apply else pure tt

module _ (j : Codec) where
  -- What the server has not
  unfoldable pub upload_all : List ChangeEvent → World → World
  upload_all [] w = w
  upload_all (c ∷ changes) w =
      upload_all changes (record w { client = handle_local_event j c w.engine w.disk w.client })

  -- The loop over the tombstones: those that the server still has are sent.
  unfoldable pub send_deletes : List Text → Dict Text Bool → Client → Client
  send_deletes [] server_paths c = c
  send_deletes (path ∷ tombstones) server_paths c =
      send_deletes tombstones server_paths
        (if flag server_paths path then (send_file_delete j path c).1 else c)

  -- The tombstones are told, and forgotten.
  unfoldable pub tell_tombstones : World → World
  tell_tombstones w =
      let c = send_deletes (Dict.keys w.engine.tombstones) (paths w.engine.remote_tree) w.client in
      let (e, d) = clear_persisted w.engine w.disk in
      if ltb 0 (length w.engine.tombstones)
      then record w { client = c; engine = e; disk = d }
      else w

module _ (j : Codec) (sha256 : Text → Text) where
  -- The body of the loop that receives contents, behind the reading of a message: an ACK ends it.
  -- Errors of a chunk, and messages of another type, are only printed.
  unfoldable pub take_message : Step (Unit {0}) → ℕ → Message → Step (Unit {0})
  take_message rest now m w =
      if m.msg_type == Msg.ack
      then (ok tt, w)
      else if m.msg_type == Msg.file_data
      then rest (handle_server_message j sha256 m now w).1
      else rest w

  -- The loop, on fuel
  unfoldable pub receive_contents : ℕ → ℕ → Step (Unit {0})
  receive_contents zero now w = (err unfinished, w)
  receive_contents (suc fuel) now w =
      let rest = receive_contents fuel now in
      (on_client (receive j) receive_sync_data >>= take_message rest now) w

  -- The part of runSession for the tree of the server
  unfoldable pub sync_with : SyncTree → ℕ → ℕ → Step (Unit {0})
  sync_with tree fuel now = do
    entries ← payload (pointed tree.entries)
    doing (λ w. record w { engine = set_remote_tree entries w.engine })
    m ← on_client (receive j) receive_sync_apply
    applying sha256 m
    receive_contents fuel now
    doing (rescan sha256)
    doing (λ w. upload_all j (diff_initial w.engine.local_tree w.engine.remote_tree) w)
    doing (tell_tombstones j)

  -- runSession behind the making of the engine and up to the main loop. A server that answers with
  -- another message has no initial sync.
  unfoldable pub start : ClientConfig → List Attempt → Option (List Text) → ℕ → ℕ → Step (Unit {0})
  start cfg attempts watched fuel now = do
    scanning sha256
    connecting attempts
    a ← on_client (send_hello_message j cfg.client_id cfg.local_dir (bytes "1.0.0")) handshake
    (λ w. on_client (send_sync_init j (build_sync_tree w.engine)) sync_init_failed w)
    m ← on_client (receive j) receive_sync_init
    (if m.msg_type == Msg.sync_init
        then payload m.sync_init >>= (λ tree. sync_with tree fuel now)
        else pure tt)
    monitoring watched
