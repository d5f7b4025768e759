-- ===== src/Sync/Diff.antt =====
-- sync/diff.go: the changes between two file trees. The loops range over Go maps, whose order is
-- open: here it is the order of the association lists, and the theorems hold for every order.
pub mod Merge
pub mod Winner
pub mod Empty
use mydrive.Base.{
  ℕ, Option, none, some, List, [], ◌∷◌, ◌++◌, Bool, true, false, not, ◌&&◌, Text, Eq, ◌==◌, nat_eq,
  text_eq, if◌then◌else◌,
}
use mydrive.Base.Int.{ℤ, int_leb, int_eq}
use mydrive.Base.Dict
use mydrive.Base.Dict.{Dict}
use mydrive.Protocol.FileType
use mydrive.Protocol.Message.{FileEntry, ChangeEvent, ChangeType, create, modify, delete}
use mydrive.Sync.State.{FileTree, snapshot}

abbrev pub create_event : FileEntry → ChangeEvent
create_event entry = record {
  change_type = create;
  entry = some entry;
  path = [];
  old_path = [];
  new_path = [];
}

abbrev pub modify_event : FileEntry → ChangeEvent
modify_event entry = record {
  change_type = modify;
  entry = some entry;
  path = [];
  old_path = [];
  new_path = [];
}

abbrev pub delete_event : Text → ChangeEvent
delete_event path = record {
  change_type = delete;
  entry = none;
  path = path;
  old_path = [];
  new_path = [];
}

-- entryChanged
unfoldable pub entry_changed : FileEntry → FileEntry → Bool
entry_changed a b =
    if not (a.entry_type == b.entry_type)
    then true
    else if not (a.mtime == b.mtime)
    then true
    else if a.entry_type == FileType.regular_file && not (a.content_hash == b.content_hash)
    then true
    else if not (a.mode == b.mode)
    then true
    else false

-- pickWinner
unfoldable pub pick_winner : FileEntry → FileEntry → FileEntry
pick_winner local remote = if int_leb local.mtime remote.mtime then remote else local

-- The first loop of Diff, and the loop of DiffInitial.
unfoldable pub created_or_modified : Dict Text FileEntry → Dict Text FileEntry → List ChangeEvent
created_or_modified [] remote = []
created_or_modified ((path, l) ∷ local) remote =
    let rest = created_or_modified local remote in
    elim (Dict.get remote path) [
      | none ↦ create_event l ∷ rest
      | some r ↦ if entry_changed l r then modify_event (pick_winner l r) ∷ rest else rest
    ]

-- The second loop of Diff.
unfoldable pub deleted : Dict Text FileEntry → Dict Text FileEntry → List ChangeEvent
deleted local [] = []
deleted local ((path, r) ∷ remote) =
    let rest = deleted local remote in
    if Dict.has local path then rest else delete_event path ∷ rest

-- Diff
unfoldable pub diff : FileTree → FileTree → List ChangeEvent
diff local remote =
    created_or_modified (snapshot local) (snapshot remote)
    ++ deleted (snapshot local) (snapshot remote)

-- DiffInitial
unfoldable pub diff_initial : FileTree → FileTree → List ChangeEvent
diff_initial local remote = created_or_modified (snapshot local) (snapshot remote)
