-- ===== src/Cmd/Server.antt =====
-- cmd/server/main.go: the start of a session in handleClient, and the rounds of
-- monitorClientChanges. What the walk of a scan finds, and the contents of the files below the
-- server's directory, are arguments.
pub mod InitialSync
pub mod Rounds
use mydrive.Base.{
  ℕ, Option, none, some, List, [], ◌∷◌, ◌++◌, Bool, true, false, not, ◌&&◌, ◌||◌, Text, bytes,
  Result, ok, err, map, ltb, length, ◌==◌, nat_eq, text_eq, if◌then◌else◌,
}
use mydrive.Base.Dict
use mydrive.Base.Dict.{Dict}
use mydrive.Protocol.Msg
use mydrive.Protocol.FileType
use mydrive.Protocol.Message.{
  Message, FileEntry, ChangeEvent, ChangeType, SyncOp, SyncTree, message_of, hello_ack, sync_init,
  sync_apply, file_data, ack,
}
use mydrive.Sync.State.{FileTree, paths}
use mydrive.Sync.Diff.{diff, diff_initial, delete_event}
use mydrive.Sync.Engine.{
  Engine, flag, scan_local, set_remote_tree, add_to_previous_paths, clear_tombstones,
  build_sync_tree,
}
use mydrive.Cmd.SyncOps.{build_sync_ops}

-- The loop that adds the deletions: a path that the client has, that the server has not, and that
-- is tombstoned.
unfoldable pub explicit_deletes :
    List FileEntry → Dict Text Bool → Dict Text Bool → List ChangeEvent
explicit_deletes [] local tombstones = []
explicit_deletes (entry ∷ l) local tombstones =
    let rest = explicit_deletes l local tombstones in
    if not (flag local entry.path) && flag tombstones entry.path
    then delete_event entry.path ∷ rest
    else rest

-- What the engine learns from the tree of a client, which has no nil entry.
unfoldable pub learn_tree : List FileEntry → Engine → Engine
learn_tree tree e = add_to_previous_paths (map (λ entry. entry.path) tree) (set_remote_tree tree e)

-- The changes for the client, from the engine that has learnt its tree.
unfoldable pub initial_changes : List FileEntry → Engine → List ChangeEvent
initial_changes tree e =
    diff_initial e.local_tree e.remote_tree
    ++ explicit_deletes tree (paths e.local_tree) e.tombstones

-- The part of handleClient for the tree of the client: the operations that are sent, and the engine
-- once everything was.
unfoldable pub initial_sync : List FileEntry → Engine → List SyncOp × Engine
initial_sync tree e =
    let e' = learn_tree tree e in (build_sync_ops (initial_changes tree e'), clear_tombstones e')

-- One tick of monitorClientChanges: the operations for the message, if one is sent.
unfoldable pub monitor_round : List FileEntry → Engine → Option (List SyncOp) × Engine
monitor_round found e =
    let e' = scan_local found e in
    let changes = diff e'.local_tree e'.remote_tree in
    (if ltb 0 (length changes) then some (build_sync_ops changes) else none, e')
