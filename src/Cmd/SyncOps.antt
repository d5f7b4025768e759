-- ===== src/Cmd/SyncOps.antt =====
-- buildSyncOps, of cmd/server/main.go and in the same words of cmd/client/main.go.
pub mod Inside
use mydrive.Base.{◌++◌, none, some, List, [], ◌∷◌, ◌==◌, nat_eq, if◌then◌else◌}
use mydrive.Protocol.FileType
use mydrive.Protocol.Message.{ChangeEvent, ChangeType, OpType, SyncOp}

-- &protocol.SyncOp{Type: t}
abbrev pub bare_op : OpType → SyncOp
bare_op t = record {
  op_type = t;
  entry = none;
  path = [];
  old_path = [];
  new_path = [];
  chunk = [];
  chunk_off = 0;
  chunk_len = 0;
  chunk_flags = 0;
}

-- The operations for one change.
unfoldable pub ops_of : ChangeEvent → List SyncOp
ops_of c = elim c.change_type [
  | ChangeType.create ↦ elim c.entry [
    | none ↦ []
    | some entry ↦
        if entry.entry_type == FileType.directory
        then record (bare_op OpType.create_dir) { entry = some entry } ∷ []
        else record (bare_op OpType.create_file) { entry = some entry } ∷ []
  ]
  | ChangeType.modify ↦ elim c.entry [
    | none ↦ []
    | some entry ↦ record (bare_op OpType.set_attrs) { path = entry.path; entry = some entry } ∷ []
  ]
  | ChangeType.delete ↦ record (bare_op OpType.delete) { path = c.path } ∷ []
  | _ ↦ []
]

-- buildSyncOps
unfoldable pub build_sync_ops : List ChangeEvent → List SyncOp
build_sync_ops [] = []
build_sync_ops (c ∷ changes) = ops_of c ++ build_sync_ops changes
