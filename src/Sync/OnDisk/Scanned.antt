-- ===== src/Sync/OnDisk/Scanned.antt =====
-- ScanLocal of sync/engine.go on the disk.
use mydrive.Base.{
  ◌≡◌, refl, ap, ◌∙◌, some, List, [], ◌&&◌, ◌||◌, not, Text, Result, ok, err, ◌==◌, text_eq,
}
use mydrive.Base.Dict
use mydrive.Base.Dict.{NodupKeys}
use mydrive.Protocol.Message.{FileEntry}
use mydrive.Os.{path_eq, Node, Disk, OsError, node_at}
use mydrive.Os.Walk.{visits}
use mydrive.Utils.Fs.Listing.{listing, holds, walk_directory_lem}
use mydrive.Sync.State.{contains, IsValid}
use mydrive.Sync.Engine.{Engine, is_tombstoned, tombstone_file, scan_local}
use mydrive.Sync.Engine.Scan.{on_disk, is_tombstoned-scan_local, scan_local-IsValid}
use mydrive.Sync.OnDisk.{root_of, scan}

module _ (sha256 : Text → Text) where
  abbrev pub found_by : Engine → Disk → List FileEntry
  found_by e d = listing sha256 (root_of e) d (visits (root_of e) d.nodes) 0

  abbrev pub scanned : Engine → Disk → Engine
  scanned e d = scan_local (found_by e d) e

  pub scan-eq-scan_local :
      (e : Engine) (d : Disk) (n : Node)
      → NodupKeys d.nodes
      → node_at d (root_of e) ≡ some n
      → scan sha256 e d ≡ (ok tt, scan_local (found_by e d) e, d)
  unfolding scan
  scan-eq-scan_local e d n nodup there =
      let walked = (walk_directory_lem sha256 (root_of e) n d [] nodup there).0 in
      ap
        (λ o. elim o.0 as (λ _. Result OsError (Unit {0}) × Engine × Disk) [
          | err x ↦ (err x, e, o.1)
          | ok entries ↦ (ok tt, scan_local entries e, o.1)
        ])
        walked

  -- If the base directory is there, ScanLocal succeeds and changes nothing on the disk. The tree is
  -- valid then and has exactly the paths that lead to something below the directory, but for files
  -- that are named like the tombstone file; and a path is tombstoned exactly if it was before, or was
  -- known and has nothing there.
  pub scan_lem :
      (e : Engine) (d : Disk) (n : Node) (path : Text)
      → NodupKeys d.nodes
      → node_at d (root_of e) ≡ some n
      → let (r, e', d') = scan sha256 e d in
        let seen = holds (root_of e) d.nodes path && not (path == tombstone_file) in
        (r ≡ ok tt)
        × (d' ≡ d)
        × IsValid e'.local_tree
        × (contains e'.local_tree path ≡ seen)
        × (is_tombstoned e' path
            ≡ (is_tombstoned e path || (Dict.has e.previous_paths path && not seen)))
  scan_lem e d n path nodup there =
      let found = found_by e d in
      let same = scan-eq-scan_local e d n nodup there in
      let listed : on_disk found path
          ≡ (holds (root_of e) d.nodes path && not (path == tombstone_file)) =
        ap (λ b. b && not (path == tombstone_file))
          (walk_directory_lem sha256 (root_of e) n d path nodup there).1 in
      let (valid, paths, own) = scan_local-IsValid found e in
      rw same (
        refl,
        refl,
        valid,
        paths path ∙ listed,
        is_tombstoned-scan_local found e path
            ∙ ap (λ b. is_tombstoned e path || (Dict.has e.previous_paths path && not b)) listed,
      )
