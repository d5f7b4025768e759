-- ===== src/Tests/DiskTests.antt =====
-- The theorems about the disk at concrete inputs.
use mydrive.Base.{
  ◌≡◌, refl, [], ◌∷◌, ◌++◌, bytes, none, some, true, not, ◌&&◌, ◌||◌, ok, err, ◌==◌, text_eq,
  nat_eq, text_beq, if◌then◌else◌,
}
use mydrive.Base.Int.{pos}
use mydrive.Base.Dict
use mydrive.Base.Dict.{NodupKeys}
use mydrive.Protocol.Message.{SyncOp, OpType}
use mydrive.Os.{path_eq, path_beq, Attrs, file, dir, missing, node_at, unknown_op}
use mydrive.Os.Files.{attrs_of, with_attrs}
use mydrive.Os.Laws.{with_node}
use mydrive.Os.Paths.{join, split, enter, enter_all}
use mydrive.Utils.Content.{overwrite}
use mydrive.Utils.Fs.{apply_attrs, write_chunk}
use mydrive.Utils.Fs.Attributes.{asked, apply_attrs_lem}
use mydrive.Utils.Fs.Listing.{holds}
use mydrive.Sync.State.{contains, IsValid}
use mydrive.Sync.Engine.{is_tombstoned, tombstone_file}
use mydrive.Sync.OnDisk.{root_of, scan}
use mydrive.Sync.OnDisk.Apply.{apply_op, apply_ops, apply_changes, make_file}
use mydrive.Sync.OnDisk.Scanned.{scan_lem}
use mydrive.Sync.OnDisk.Failing.{apply_changes-append}
use mydrive.Sync.OnDisk.Times.{write_chunk-make_file}
use mydrive.Cmd.SyncOps.{bare_op}
use mydrive.Tests.Worlds.{ours, base, file_a, nodes, disk, engine, entry_of_file, digest}

apply_attrs_lem_example :
    apply_attrs file_a (entry_of_file (bytes "a")) disk ≡ elim (node_at disk file_a) [
      | none ↦ (err (missing disk file_a), disk)
      | some n ↦
          if (attrs_of n).owned
          then (
            ok tt,
            with_node file_a (with_attrs (asked (entry_of_file (bytes "a")) (attrs_of n)) n) disk,
          )
          else (ok tt, disk)
    ]
apply_attrs_lem_example = apply_attrs_lem file_a (entry_of_file (bytes "a")) disk

root-engine : root_of engine ≡ base
unfolding join split enter enter_all text_beq
root-engine = refl

pub base_there : node_at disk (root_of engine) ≡ some (dir ours)
unfolding join split enter enter_all text_beq path_beq Dict.get
base_there = refl

pub nodes-NodupKeys : NodupKeys nodes
unfolding Dict.get path_beq text_beq
nodes-NodupKeys = (refl, (refl, (refl, tt)))

scan_lem_example :
    let (r, e', d') = scan digest engine disk in
    let seen = holds (root_of engine) disk.nodes (bytes "b") && not (bytes "b" == tombstone_file) in
    (r ≡ ok tt)
    × (d' ≡ disk)
    × IsValid e'.local_tree
    × (contains e'.local_tree (bytes "b") ≡ seen)
    × (is_tombstoned e' (bytes "b") ≡ (
        is_tombstoned engine (bytes "b")
        || (Dict.has engine.previous_paths (bytes "b") && not seen)))
scan_lem_example = scan_lem digest engine disk (dir ours) (bytes "b") nodes-NodupKeys base_there

abbrev strange : SyncOp
strange = bare_op (OpType.other (bytes "copy"))

strange_fails : apply_op (root_of engine) strange disk ≡ (err (unknown_op (bytes "copy")), disk)
unfolding apply_op
strange_fails = refl

none_applied : apply_ops (root_of engine) [] disk ≡ (ok tt, disk)
unfolding apply_ops
none_applied = refl

apply_changes-append_example :
    apply_changes digest ([] ++ some strange ∷ some strange ∷ []) engine disk
    ≡ (err (unknown_op (bytes "copy")), engine, disk)
apply_changes-append_example =
    apply_changes-append digest engine [] strange (some strange ∷ []) disk disk disk
      (unknown_op (bytes "copy")) none_applied strange_fails

base_is_dir : node_at disk base ≡ some (dir ours)
unfolding path_beq text_beq Dict.get
base_is_dir = refl

b_absent : node_at disk (bytes "b" ∷ base) ≡ none
unfolding path_beq text_beq Dict.get
b_absent = refl

write_chunk-make_file_example :
    let entry = entry_of_file (bytes "b") in
    let created = make_file (bytes "b" ∷ base) entry disk in
    let written =
      write_chunk (bytes "b" ∷ base) (bytes "x") 0 (record created.1 { now = pos 12 }) in
    let kept : Attrs = record { mode = 0o600; mtime = pos 3; owned = true } in
    (created.0 ≡ ok tt)
    × (node_at created.1 (bytes "b" ∷ base) ≡ some (file kept []))
    × (written.0 ≡ ok tt)
    × (node_at written.1 (bytes "b" ∷ base)
        ≡ some (file (record kept { mtime = pos 12 }) (overwrite [] (bytes "x") 0)))
write_chunk-make_file_example =
    write_chunk-make_file (bytes "b") base (entry_of_file (bytes "b")) b'x' [] 0 (pos 12) disk ours
      base_is_dir b_absent refl
