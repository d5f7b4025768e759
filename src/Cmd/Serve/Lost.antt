-- ===== src/Cmd/Serve/Lost.antt =====
-- handleMonitorEvent of cmd/server/main.go, the tick behind it, and handleServerMessage of
-- cmd/client/main.go, for a new or a changed entry.
use mydrive.Base.{
  ℕ, ◌≡◌, refl, ◌∙◌, some, [], false, Text, arith, nat_eq, text_eq, Option-cases, inl, inr,
}
use mydrive.Base.Int.{int_eq}
use mydrive.Base.Dict.{NodupKeys}
use mydrive.Protocol.Message.{FileEntry, ChangeEvent, message_of, file_modify}
use mydrive.Protocol.Json.{Codec}
use mydrive.Os.{path_eq, Attrs, dir, node_at}
use mydrive.Sync.State.{FileTree, get, stamp, get-set, IsValid, set-IsValid}
use mydrive.Sync.Diff.{entry_changed}
use mydrive.Sync.Diff.Merge.{entry_changed-eq-agree}
use mydrive.Sync.Engine.{scan_local}
use mydrive.Sync.OnDisk.{root_of}
use mydrive.Sync.OnDisk.Scanned.{found_by, scanned, scan-eq-scan_local}
use mydrive.Cmd.Server.{monitor_round}
use mydrive.Cmd.Server.InitialSync.{at_path, wanted}
use mydrive.Cmd.Server.Rounds.{ops_or_none, at_path-monitor_round}
use mydrive.Cmd.Serve.{World, set_remote}
use mydrive.Cmd.Serve.Events.{announce_entry}
use mydrive.Cmd.Client
use mydrive.Cmd.Client.{handle_server_message, ignoring}

-- Set changes a number that is not compared.
entry_changed-stamp :
    (t : FileTree) (l entry : FileEntry) → entry_changed l (stamp t entry) ≡ entry_changed l entry
unfolding entry_changed stamp
entry_changed-stamp t l entry = ground arith

disk-ignoring : (path : Text) (now : ℕ) (c : Client.World) → (ignoring path now c).disk ≡ c.disk
unfolding ignoring
disk-ignoring path now c = elim (Option-cases c.monitor) [
  | inl e ↦ rw (ignoring, e) refl
  | inr (m, e) ↦ rw (ignoring, e) refl
]

wanted_same : (l r : FileEntry) → entry_changed l r ≡ false → wanted (some l) (some r) ≡ []
wanted_same l r h = ground (arith, entry_changed-eq-agree l r)

module _ (j : Codec) (sha256 : Text → Text) where
  announce_entry-engine :
      (event : ChangeEvent) (entry : FileEntry) (now : ℕ) (w : World) (a : Attrs)
      → event.entry ≡ some entry
      → NodupKeys w.disk.nodes
      → node_at w.disk (root_of w.engine) ≡ some (dir a)
      → (announce_entry j sha256 event now w).engine
        ≡ set_remote entry (scan_local (found_by sha256 w.engine w.disk) w.engine)
  unfolding announce_entry
  announce_entry-engine event entry now w a h nodup there =
      rw (announce_entry, h, scan-eq-scan_local sha256 w.engine w.disk (dir a) nodup there) refl

  -- The monitor reports a new or a changed entry, which is as the scan finds it. The server enters it
  -- into the tree that it keeps of its clients, with a number of its own, so that the next tick, if nothing
  -- happens before, has no operation at its path; and a client on which the FILE_MODIFY with that entry is
  -- handled changes nothing on its disk. The base directory is there, and the tree of the clients is valid.
  pub tick-announce_entry :
      (event : ChangeEvent) (entry local : FileEntry) (now : ℕ) (w : World) (a : Attrs)
      → event.entry ≡ some entry
      → NodupKeys w.disk.nodes
      → node_at w.disk (root_of w.engine) ≡ some (dir a)
      → IsValid w.engine.remote_tree
      → get (scanned sha256 w.engine w.disk).local_tree entry.path ≡ some local
      → entry_changed local entry ≡ false
      → let e = (announce_entry j sha256 event now w).engine in
        let found = found_by sha256 w.engine w.disk in
        (get e.remote_tree entry.path ≡ some (stamp w.engine.remote_tree entry))
        × (at_path entry.path (ops_or_none (monitor_round found e).0) ≡ [])
        × ((c : Client.World)
            → (handle_server_message j sha256
                (message_of (file_modify (stamp w.engine.remote_tree entry)))
                now
                c).1.disk
              ≡ c.disk)
  unfolding scan_local handle_server_message
  tick-announce_entry event entry local now w a h nodup there valid seen same =
      let found = found_by sha256 w.engine w.disk in
      let e = set_remote entry (scan_local found w.engine) in
      let known : get e.remote_tree entry.path ≡ some (stamp w.engine.remote_tree entry) =
        get-set w.engine.remote_tree entry entry.path
        ∙ ground (arith, text_eq.beq_iff entry.path entry.path) in
      let ticked =
        (at_path-monitor_round entry.path found e
          (set-IsValid w.engine.remote_tree entry valid)).0 in
      (
        rw (announce_entry-engine event entry now w a h nodup there) known,
        rw (announce_entry-engine event entry now w a h nodup there) (
            ticked
            ∙ rw (seen, known)
                (wanted_same local (stamp w.engine.remote_tree entry)
                  (entry_changed-stamp w.engine.remote_tree local entry ∙ same))),
        λ c. disk-ignoring (stamp w.engine.remote_tree entry).path now c,
      )
