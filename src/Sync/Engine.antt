-- ===== src/Sync/Engine.antt =====
-- sync/engine.go: the state of an engine and the operations that do not touch the disk. The sets
-- of paths are maps to Bool, as in the source. The locks keep the operations apart, so each is one
-- step on the engine. What ScanLocal finds on the disk is its argument.
pub mod Scan
use mydrive.Base.{
  ℕ, Option, none, some, List, [], ◌∷◌, Bool, true, false, not, Text, bytes, ltb, length, map, ◌==◌,
  text_eq, if◌then◌else◌,
}
use mydrive.Base.Dict
use mydrive.Base.Dict.{Dict}
use mydrive.Protocol.Message.{FileEntry, ChangeEvent, SyncTree}
use mydrive.Sync.State.{FileTree, new_file_tree, set_all, entries}
use mydrive.Sync.Diff.{diff}

-- TombstoneFile
abbrev pub tombstone_file : Text
tombstone_file = bytes ".sync-tombstones"

pub record Engine : Type 0 where
  pub base_dir : Text
  pub local_tree : FileTree
  pub remote_tree : FileTree
  pub tombstones : Dict Text Bool
  pub previous_paths : Dict Text Bool

-- m[path] for a map[string]bool: false for a missing key.
abbrev pub flag : Dict Text Bool → Text → Bool
flag m path = elim (Dict.get m path) [ none ↦ false | some b ↦ b ]

-- NewEngine, before the persisted tombstones are loaded; the directory is clean already.
unfoldable pub fresh_engine : Text → Engine
fresh_engine base_dir = record {
  base_dir = base_dir;
  local_tree = new_file_tree base_dir;
  remote_tree = new_file_tree base_dir;
  tombstones = [];
  previous_paths = [];
}

-- The entries that ScanLocal keeps: all but the tombstone file.
unfoldable pub visible : List FileEntry → List FileEntry
visible [] = []
visible (entry ∷ l) =
    let rest = visible l in if entry.path == tombstone_file then rest else entry ∷ rest

-- The loop of ScanLocal over previousPaths: a path that is not there any more is tombstoned.
unfoldable pub mark_missing : List Text → Dict Text Bool → Dict Text Bool → Dict Text Bool
mark_missing [] current tombstones = tombstones
mark_missing (path ∷ previous) current tombstones =
    mark_missing previous current
      (if not (flag current path) then Dict.insert tombstones path true else tombstones)

-- (*Engine).ScanLocal behind the walk, with the entries that it found.
unfoldable pub scan_local : List FileEntry → Engine → Engine
scan_local found e =
    let current : Dict Text Bool =
      Dict.insert_all [] (map (λ entry. entry.path) (visible found)) true in
    record e {
      local_tree = set_all (new_file_tree e.base_dir) (visible found);
      tombstones = mark_missing (Dict.keys e.previous_paths) current e.tombstones;
      previous_paths = current;
    }

-- (*Engine).SetRemoteTree, for a tree without a nil entry; Set would read through one.
unfoldable pub set_remote_tree : List FileEntry → Engine → Engine
set_remote_tree tree e = record e { remote_tree = set_all (new_file_tree e.base_dir) tree }

-- (*Engine).ComputeDiff
unfoldable pub compute_diff : Engine → List ChangeEvent
compute_diff e = diff e.local_tree e.remote_tree

-- (*Engine).BuildSyncTree
unfoldable pub build_sync_tree : Engine → SyncTree
build_sync_tree e = record { entries = map some (entries e.local_tree) }

-- (*Engine).IsTombstoned
unfoldable pub is_tombstoned : Engine → Text → Bool
is_tombstoned e path = flag e.tombstones path

-- (*Engine).ClearTombstones, but for the file that it removes
unfoldable pub clear_tombstones : Engine → Engine
clear_tombstones e = record e { tombstones = [] }

-- (*Engine).ClearTombstone
unfoldable pub clear_tombstone : Text → Engine → Engine
clear_tombstone path e = record e { tombstones = Dict.erase e.tombstones path }

-- (*Engine).AddTombstone
unfoldable pub add_tombstone : Text → Engine → Engine
add_tombstone path e = record e { tombstones = Dict.insert e.tombstones path true }

-- (*Engine).AddToPreviousPaths
unfoldable pub add_to_previous_paths : List Text → Engine → Engine
add_to_previous_paths paths e = record e {
  previous_paths = Dict.insert_all e.previous_paths paths true;
}

-- (*Engine).HasTombstones
unfoldable pub has_tombstones : Engine → Bool
has_tombstones e = ltb 0 (length e.tombstones)
