-- ===== src/Sync/OnDisk/Apply.antt =====
-- ApplyChanges of sync/engine.go: the operations of a peer on the disk.
use mydrive.Base.{Option, none, some, List, [], ◌∷◌, Text, Result, ok, err}
use mydrive.Protocol.Message.{FileEntry, OpType, SyncOp}
use mydrive.Os.{FilePath, Disk, OsError, unknown_op, nil_pointer, Io, pure, fail, ◌>>◌}
use mydrive.Os.Paths.{join}
use mydrive.Os.Files.{create, open_write, write_at, mkdir_all, rename}
use mydrive.Utils.Fs.{ensure_dir, apply_attrs, delete_entry}
use mydrive.Sync.Engine.{Engine}
use mydrive.Sync.OnDisk.{root_of, scan}

-- The field Entry of an operation, which is read through its pointer.
abbrev with_entry : Option FileEntry → (FileEntry → Io (Unit {0})) → Io (Unit {0})
with_entry none use_entry = fail nil_pointer
with_entry (some entry) use_entry = use_entry entry

-- A new or an emptied file with the attributes of an entry
unfoldable pub make_file : FilePath → FileEntry → Io (Unit {0})
make_file p entry = do ensure_dir p; create p; apply_attrs p entry

-- The words of the types that the protocol does not know are kept by `OpType.other`.
unfoldable pub apply_op : FilePath → SyncOp → Io (Unit {0})
apply_op base op = elim op.op_type [
  | OpType.create_dir ↦ with_entry op.entry (λ entry. mkdir_all (join base entry.path) entry.mode)
  | OpType.create_file ↦ with_entry op.entry (λ entry. make_file (join base entry.path) entry)
  | OpType.write_file ↦
      let p = join base op.path in
      do ensure_dir p; open_write p 0o644; write_at p op.chunk op.chunk_off
  | OpType.set_attrs ↦ with_entry op.entry (λ entry. apply_attrs (join base op.path) entry)
  | OpType.delete ↦ delete_entry (join base op.path)
  | OpType.move ↦ do
    ensure_dir (join base op.new_path)
    rename (join base op.old_path) (join base op.new_path)
  | OpType.other name ↦ fail (unknown_op name)
]

-- The loop of ApplyChanges, which the first error ends. A read through a nil pointer, which would stop
-- the program, is an error here, and the callers tell it from the others.
unfoldable pub apply_ops : FilePath → List (Option SyncOp) → Io (Unit {0})
apply_ops base [] = pure tt
apply_ops base (none ∷ ops) = fail nil_pointer
apply_ops base (some op ∷ ops) = let rest = apply_ops base ops in do apply_op base op; rest

module _ (sha256 : Text → Text) where
  -- (*Engine).ApplyChanges
  unfoldable pub apply_changes :
      List (Option SyncOp) → Engine → Disk → Result OsError (Unit {0}) × Engine × Disk
  apply_changes ops e d =
      let (applied, d') = apply_ops (root_of e) ops d in
      let rescanned = scan sha256 e d' in elim applied [ err x ↦ (err x, e, d') | ok _ ↦ rescanned ]
