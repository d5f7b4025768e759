-- ===== src/Sync/OnDisk.antt =====
-- sync/engine.go: the operations of an engine that read or write the disk. The base directory is an
-- absolute path. The texts by which errors are wrapped are left out.
pub mod Apply
pub mod Scanned
pub mod Restart
pub mod Failing
pub mod Times
use mydrive.Base.{Option, none, some, List, [], ◌∷◌, Text, Result, ok, err}
use mydrive.Os.{FilePath, Disk, OsError, node_at, readable}
use mydrive.Os.Paths.{join}
use mydrive.Os.Files.{create, write_at, remove_file}
use mydrive.Utils.Fs.{walk_directory}
use mydrive.Sync.Engine.{Engine, tombstone_file, scan_local, clear_tombstones}
use mydrive.Sync.Tombstones.{save_tombstones, new_engine}

-- e.baseDir, which is clean
abbrev pub root_of : Engine → FilePath
root_of e = join [] e.base_dir

-- filepath.Join(e.baseDir, path)
abbrev pub path_in : Engine → Text → FilePath
path_in e path = join (root_of e) path

-- NewEngine, for a clean directory
unfoldable pub load_engine : Text → Disk → Engine
load_engine base_dir d =
    new_engine base_dir (readable (node_at d (join (join [] base_dir) tombstone_file)))

module _ (sha256 : Text → Text) where
  -- (*Engine).ScanLocal
  unfoldable pub scan : Engine → Disk → Result OsError (Unit {0}) × Engine × Disk
  scan e d =
      let (found, d') = walk_directory sha256 (root_of e) d in
      elim found [ err x ↦ (err x, e, d') | ok entries ↦ (ok tt, scan_local entries e, d') ]

-- (*Engine).ClearTombstones; an error of os.Remove is dropped.
unfoldable pub clear_persisted : Engine → Disk → Engine × Disk
clear_persisted e d = (clear_tombstones e, (remove_file (path_in e tombstone_file) d).1)

-- (*Engine).SaveTombstones; the errors of fmt.Fprintf are dropped.
unfoldable pub persist : Engine → Disk → Result OsError (Unit {0}) × Disk
persist e d =
    let path = path_in e tombstone_file in
    let (made, d') = create path d in
    elim (save_tombstones e) [
      | none ↦ (ok tt, (remove_file path d).1)
      | some content ↦ elim made [
        | err x ↦ (err x, d')
        | ok _ ↦ (ok tt, (write_at path content 0 d').1)
      ]
    ]
