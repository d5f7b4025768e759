-- ===== src/Cmd/Serve/Deletion.antt =====
-- handleMonitorEvent of cmd/server/main.go, for a deletion while no client is connected.
use mydrive.Base.{
  ℕ, ◌≡◌, refl, sym, ap, ◌∙◌, some, [], true, false, Text, All, length, ◌==◌, nat_eq, text_eq,
  arith, Option-cases, inl, inr,
}
use mydrive.Base.Dict
use mydrive.Base.Dict.{NodupKeys}
use mydrive.Protocol.Message.{ChangeEvent, ChangeType}
use mydrive.Protocol.Json.{Codec}
use mydrive.Netlayer.Server.{get_clients}
use mydrive.Os.{path_eq, Attrs, dir, node_at, is_dir_node}
use mydrive.Os.Files.{has_below}
use mydrive.Utils.Fs.Listing.{holds}
use mydrive.Sync.Engine.{Engine, is_tombstoned, tombstone_file, scan_local}
use mydrive.Sync.Tombstones.RoundTrip.{IsClean}
use mydrive.Sync.OnDisk.{root_of, path_in, load_engine, persist}
use mydrive.Sync.OnDisk.Scanned.{found_by, scanned, scan-eq-scan_local, scan_lem}
use mydrive.Sync.OnDisk.Restart.{is_tombstoned-load_engine}
use mydrive.Cmd.Serve.{World, remove_remote}
use mydrive.Cmd.Serve.Events.{announce_delete, handle_monitor_event}

has-tombstoned :
    (e : Engine) (path : Text) → is_tombstoned e path ≡ true → Dict.has e.tombstones path ≡ true
unfolding is_tombstoned Dict.has
has-tombstoned e path h = elim (Option-cases (Dict.get e.tombstones path)) [
  | inl k ↦ absurd (ground (arith, k, h))
  | inr (b, k) ↦ rw k refl
]

module _ (j : Codec) (sha256 : Text → Text) where
  -- Without a client the engine of the scan is saved.
  announce_delete_alone :
      (event : ChangeEvent) (w : World) (a : Attrs)
      → NodupKeys w.disk.nodes
      → node_at w.disk (root_of w.engine) ≡ some (dir a)
      → (event.path == []) ≡ false
      → (length (get_clients w.server) == 0) ≡ true
      → let e = scan_local (found_by sha256 w.engine w.disk) w.engine in
        (announce_delete j sha256 event w).disk ≡ (persist (remove_remote event.path e) w.disk).1
  unfolding announce_delete
  announce_delete_alone event w a nodup there named alone =
      rw
        (
          announce_delete,
          scan-eq-scan_local sha256 w.engine w.disk (dir a) nodup there,
          named,
          alone,
        )
        refl

  -- While no client is connected, the monitor reports that a path is deleted which the server knew
  -- and which is not on its disk any more. Then the server saves it: an engine that is made from the
  -- disk after a restart has it tombstoned. The base directory is there, and at the path of the
  -- tombstone file no directory and nothing below; the path is not that of the tombstone file and not
  -- empty; and all paths that the scan leaves known or tombstoned have no newline, no white space at
  -- their end, and fit into the scanner's buffer.
  pub handle_monitor_event-restart :
      (event : ChangeEvent) (now : ℕ) (w : World) (a : Attrs)
      → event.change_type ≡ ChangeType.delete
      → (event.path == tombstone_file) ≡ false
      → (event.path == []) ≡ false
      → (length (get_clients w.server) == 0) ≡ true
      → NodupKeys w.disk.nodes
      → node_at w.disk (root_of w.engine) ≡ some (dir a)
      → is_dir_node (node_at w.disk (path_in w.engine tombstone_file)) ≡ false
      → has_below (path_in w.engine tombstone_file) w.disk.nodes ≡ false
      → Dict.has w.engine.previous_paths event.path ≡ true
      → holds (root_of w.engine) w.disk.nodes event.path ≡ false
      → All IsClean (Dict.keys (scanned sha256 w.engine w.disk).tombstones)
      → All IsClean (Dict.keys (scanned sha256 w.engine w.disk).previous_paths)
      → is_tombstoned
          (load_engine w.engine.base_dir (handle_monitor_event j sha256 event now w).disk)
          event.path
        ≡ true
  unfolding handle_monitor_event scan_local
  handle_monitor_event-restart event now w a deleted own named alone nodup there free below known
        gone clean clean' =
      let e = scan_local (found_by sha256 w.engine w.disk) w.engine in
      let same = scan-eq-scan_local sha256 w.engine w.disk (dir a) nodup there in
      let tombstoned : is_tombstoned e event.path ≡ true =
        ap (λ o. is_tombstoned o.1 event.path) (sym same)
        ∙ (scan_lem sha256 w.engine w.disk (dir a) event.path nodup there).4
        ∙ ground (arith, known, gone) in
      rw
        (
          handle_monitor_event,
          own,
          deleted,
          announce_delete_alone event w a nodup there named alone,
        )
        (is_tombstoned-load_engine (remove_remote event.path e) w.disk event.path (rw there refl)
            free below clean clean'
          ∙ has-tombstoned e event.path tombstoned)
