-- ===== src/Sync/Engine/Scan.antt =====
-- ScanLocal of sync/engine.go: which paths it tombstones.
use mydrive.Base.{
  ◌≡◌, refl, ◌∙◌, List, [], ◌∷◌, Bool, true, false, not, ◌&&◌, ◌||◌, Text, map, arith, ◌==◌,
  text_eq,
}
use mydrive.Base.Dict
use mydrive.Base.Dict.{Dict, get-insert, get-insert_all, elem-keys}
use mydrive.Protocol.Message.{FileEntry}
use mydrive.Sync.State.{
  new_file_tree, set_all, contains, contains-set_all, IsValid, set_all-IsValid,
  new_file_tree-IsValid, contains-new_file_tree,
}
use mydrive.Sync.Engine.{
  Engine, flag, visible, mark_missing, scan_local, is_tombstoned, tombstone_file,
  add_to_previous_paths,
}

-- Whether the disk holds a path, other than the engine's own file.
abbrev pub on_disk : List FileEntry → Text → Bool
on_disk found path =
    Dict.elem (map (λ entry. entry.path) found) path && not (path == tombstone_file)

elem-visible :
    (found : List FileEntry) (path : Text)
    → Dict.elem (map (λ entry. entry.path) (visible found)) path ≡ on_disk found path
unfolding visible Dict.elem
elem-visible [] path = refl
elem-visible (entry ∷ found) path = ground (
  arith,
  text_eq.beq_iff entry.path path,
  text_eq.beq_iff entry.path tombstone_file,
  text_eq.beq_iff path tombstone_file,
  elem-visible found path,
)

flag-mark_missing :
    (previous : List Text) (current tombstones : Dict Text Bool) (path : Text)
    → flag (mark_missing previous current tombstones) path
      ≡ (flag tombstones path || (Dict.elem previous path && not (flag current path)))
unfolding mark_missing Dict.elem
flag-mark_missing [] current tombstones path = ground arith
flag-mark_missing (p ∷ previous) current tombstones path = ground (
  arith,
  text_eq.beq_iff p path,
  flag-mark_missing previous current (Dict.insert tombstones p true) path,
  flag-mark_missing previous current tombstones path,
  get-insert tombstones p true path,
)

flag-current :
    (paths : List Text) (path : Text)
    → flag (Dict.insert_all [] paths true) path ≡ Dict.elem paths path
unfolding Dict.get
flag-current paths path = ground (arith, get-insert_all {V = Bool} [] paths true path)

-- After a scan a path is tombstoned exactly if it was before, or was known and is not on the disk.
pub is_tombstoned-scan_local :
    (found : List FileEntry) (e : Engine) (path : Text)
    → is_tombstoned (scan_local found e) path
      ≡ (is_tombstoned e path || (Dict.has e.previous_paths path && not (on_disk found path)))
unfolding is_tombstoned scan_local
is_tombstoned-scan_local found e path =
    let current : Dict Text Bool =
      Dict.insert_all [] (map (λ entry. entry.path) (visible found)) true in
    ground (
      arith,
      flag-mark_missing (Dict.keys e.previous_paths) current e.tombstones path,
      flag-current (map (λ entry. entry.path) (visible found)) path,
      elem-visible found path,
      elem-keys e.previous_paths path,
    )

-- The known paths after a scan are those on the disk.
has-scan_local :
    (found : List FileEntry) (e : Engine) (path : Text)
    → Dict.has (scan_local found e).previous_paths path ≡ on_disk found path
unfolding scan_local Dict.has Dict.get
has-scan_local found e path = ground (
  arith,
  get-insert_all {V = Bool} [] (map (λ entry. entry.path) (visible found)) true path,
  elem-visible found path,
)

-- A file that one scan sees and the next does not is a deletion; a file that no scan has seen,
-- and of which the engine was not told, is none.
pub is_tombstoned-scan_twice :
    (before after : List FileEntry) (e : Engine) (path : Text)
    → is_tombstoned (scan_local after (scan_local before e)) path ≡ (
        is_tombstoned e path
        || (Dict.has e.previous_paths path && not (on_disk before path))
        || (on_disk before path && not (on_disk after path)))
is_tombstoned-scan_twice before after e path = rw (
  is_tombstoned-scan_local after (scan_local before e) path,
  is_tombstoned-scan_local before e path,
  has-scan_local before e path,
)

contains-visible :
    (base_dir : Text) (found : List FileEntry) (path : Text)
    → contains (set_all (new_file_tree base_dir) (visible found)) path ≡ on_disk found path
contains-visible base_dir found path =
    contains-set_all (new_file_tree base_dir) (visible found) path
    ∙ ground (arith, contains-new_file_tree base_dir path, elem-visible found path)

-- The tree after a scan is valid, and holds exactly the paths on the disk but for the tombstone
-- file.
pub scan_local-IsValid :
    (found : List FileEntry) (e : Engine)
    → IsValid (scan_local found e).local_tree
      × ((path : Text) → contains (scan_local found e).local_tree path ≡ on_disk found path)
      × (contains (scan_local found e).local_tree tombstone_file ≡ false)
unfolding scan_local
scan_local-IsValid found e = (
  set_all-IsValid (new_file_tree e.base_dir) (visible found) (new_file_tree-IsValid e.base_dir),
  λ path. contains-visible e.base_dir found path,
  contains-visible e.base_dir found tombstone_file
      ∙ ground (arith, text_eq.beq_iff tombstone_file tombstone_file),
)

-- A path that an engine learnt from its peer only, and that its own disk does not hold, is
-- tombstoned by the next scan, as if it had been deleted here.
pub is_tombstoned-add_to_previous_paths :
    (paths : List Text) (found : List FileEntry) (e : Engine) (path : Text)
    → Dict.elem paths path ≡ true
    → on_disk found path ≡ false
    → is_tombstoned (scan_local found (add_to_previous_paths paths e)) path ≡ true
unfolding add_to_previous_paths Dict.has
is_tombstoned-add_to_previous_paths paths found e path learnt absent =
    is_tombstoned-scan_local found (add_to_previous_paths paths e) path
    ∙ ground (arith, get-insert_all e.previous_paths paths true path)

-- No scan takes a tombstone away, also where the path is on the disk again.
pub is_tombstoned-scan_local_mono :
    (found : List FileEntry) (e : Engine) (path : Text)
    → is_tombstoned e path ≡ true
    → is_tombstoned (scan_local found e) path ≡ true
is_tombstoned-scan_local_mono found e path h = is_tombstoned-scan_local found e path ∙ rw h
