-- ===== src/Tests/SyncTests.antt =====
-- Runs of the sync package, and its theorems at concrete inputs.
use mydrive.Base.{
  ◌≡◌, ◌↔◌, ◌⊎◌, inl, inr, refl, ℕ, [], ◌∷◌, ◌++◌, Text, bytes, true, false, ◌||◌, ◌&&◌, not, List,
  some, text_eq, arith, text_beq,
}
use mydrive.Base.Int.{pos, ◌≤ℤ◌}
use mydrive.Base.Dict
use mydrive.Protocol.Message.{FileEntry}
use mydrive.Sync.State.{
  FileTree, new_file_tree, set, set_all, stamp, get, contains, snapshot, IsValid, set_all-IsValid,
  new_file_tree-IsValid,
}
use mydrive.Sync.Diff.{
  entry_changed, pick_winner, created_or_modified, deleted, diff, diff_initial, create_event,
  modify_event, delete_event,
}
use mydrive.Sync.Diff.Merge.{after, merge, mirror, after-diff_initial, after-diff}
use mydrive.Sync.Diff.Winner.{
  pick_winner_last, InSync, after-diff_initial-InSync, after-diff_initial-IsTie,
}
use mydrive.Sync.Diff.Empty.{diff-eq-nil_iff}
use mydrive.Sync.Engine.{
  Engine, fresh_engine, scan_local, visible, mark_missing, is_tombstoned, add_tombstone,
  add_to_previous_paths, tombstone_file,
}
use mydrive.Sync.Engine.Scan.{
  on_disk, is_tombstoned-scan_twice, scan_local-IsValid, is_tombstoned-add_to_previous_paths,
}
use mydrive.Sync.Tombstones.{save_tombstones, new_engine, lines_of}
use mydrive.Sync.Tombstones.Trim.{trim_space, space_len_reversed}
use mydrive.Sync.Tombstones.RoundTrip.{
  IsClean, new_engine-save_tombstones, is_tombstoned-scan_local_restart,
}

-- A regular file with a time and a hash.
abbrev pub file : Text → ℕ → ℕ → FileEntry
file path time hash = record {
  path = path;
  entry_type = 1;
  mode = 0o644;
  uid = 0;
  gid = 0;
  mtime = pos time;
  atime = pos time;
  size = 1;
  content_hash = hash ∷ [];
  seq = 7;
}

abbrev tree_of : List FileEntry → FileTree
tree_of l = set_all (new_file_tree []) l

tree_of-IsValid : (l : List FileEntry) → IsValid (tree_of l)
tree_of-IsValid l = set_all-IsValid (new_file_tree []) l (new_file_tree-IsValid [])

abbrev pub a : Text
a = bytes "a"

abbrev pub b : Text
b = bytes "b"

abbrev pub c : Text
c = bytes "c"

abbrev here : FileTree
here = tree_of (file a 1 1 ∷ file b 5 2 ∷ [])

abbrev there : FileTree
there = tree_of (file b 4 3 ∷ file c 1 4 ∷ [])

here-IsValid : IsValid here
here-IsValid = tree_of-IsValid (file a 1 1 ∷ file b 5 2 ∷ [])

there-IsValid : IsValid there
there-IsValid = tree_of-IsValid (file b 4 3 ∷ file c 1 4 ∷ [])

diff-here :
    diff here there ≡ create_event (file a 1 1) ∷ modify_event (file b 5 2) ∷ delete_event c ∷ []
unfolding diff set_all new_file_tree set stamp snapshot created_or_modified deleted Dict.get
    Dict.insert Dict.has entry_changed pick_winner text_beq
diff-here = refl

diff_initial-here :
    diff_initial here there ≡ create_event (file a 1 1) ∷ modify_event (file b 5 2) ∷ []
unfolding diff_initial set_all new_file_tree set stamp snapshot created_or_modified Dict.get
    Dict.insert entry_changed pick_winner text_beq
diff_initial-here = refl

after-diff_initial_example :
    after b (get there b) (diff_initial here there) ≡ merge (get here b) (get there b)
after-diff_initial_example = after-diff_initial b here there here-IsValid there-IsValid

after-diff_example : after c (get there c) (diff here there) ≡ mirror (get here c) (get there c)
after-diff_example = after-diff c here there here-IsValid there-IsValid

-- The same path, changed at the same time on both sides.
abbrev tied : FileTree
tied = tree_of (file b 5 9 ∷ [])

tied-IsValid : IsValid tied
tied-IsValid = tree_of-IsValid (file b 5 9 ∷ [])

pick_winner_last_run :
    ((pick_winner (file b 5 2) (file b 4 3) ≡ file b 5 2)
      ⊎ (pick_winner (file b 5 2) (file b 4 3) ≡ file b 4 3))
    × (pos 5 ≤ℤ (pick_winner (file b 5 2) (file b 4 3)).mtime)
    × (pos 4 ≤ℤ (pick_winner (file b 5 2) (file b 4 3)).mtime)
    × (pos 5 ≡ pos 4 → pick_winner (file b 5 2) (file b 4 3) ≡ file b 4 3)
pick_winner_last_run = pick_winner_last (file b 5 2) (file b 4 3)

after-diff_initial-InSync_example :
    InSync
      (after b (get there b) (diff_initial here there))
      (after b (get here b) (diff_initial there here))
unfolding get set_all new_file_tree set stamp Dict.get Dict.insert text_beq
after-diff_initial-InSync_example =
    after-diff_initial-InSync b here there here-IsValid there-IsValid (λ t. ground (arith, t.0))

after-diff_initial-IsTie_example :
    (after b (get tied b) (diff_initial here tied) ≡ get tied b)
    × (after b (get here b) (diff_initial tied here) ≡ get here b)
unfolding get set_all new_file_tree set stamp Dict.get Dict.insert text_beq entry_changed
after-diff_initial-IsTie_example =
    after-diff_initial-IsTie b here tied here-IsValid tied-IsValid (refl, refl)

diff-eq-nil_iff_run : (diff here there ≡ []) ↔ ((p : Text) → InSync (get here p) (get there p))
diff-eq-nil_iff_run = diff-eq-nil_iff here there here-IsValid

abbrev engine : Engine
engine = scan_local (file a 1 1 ∷ []) (add_tombstone c (fresh_engine []))

scan_finds_deletion : is_tombstoned (scan_local [] engine) a ≡ true
unfolding is_tombstoned scan_local visible mark_missing add_tombstone fresh_engine new_file_tree
    set_all Dict.get Dict.insert Dict.insert_all Dict.keys text_beq
scan_finds_deletion = refl

is_tombstoned-scan_twice_run :
    is_tombstoned (scan_local [] (scan_local (file a 1 1 ∷ []) (fresh_engine []))) a ≡ (
      is_tombstoned (fresh_engine []) a
      || (Dict.has (fresh_engine []).previous_paths a && not (on_disk (file a 1 1 ∷ []) a))
      || (on_disk (file a 1 1 ∷ []) a && not (on_disk [] a)))
is_tombstoned-scan_twice_run = is_tombstoned-scan_twice (file a 1 1 ∷ []) [] (fresh_engine []) a

scan_local-IsValid_run :
    IsValid (scan_local (file a 1 1 ∷ []) (fresh_engine [])).local_tree
    × ((path : Text)
        → contains (scan_local (file a 1 1 ∷ []) (fresh_engine [])).local_tree path
          ≡ on_disk (file a 1 1 ∷ []) path)
    × (contains (scan_local (file a 1 1 ∷ []) (fresh_engine [])).local_tree tombstone_file ≡ false)
scan_local-IsValid_run = scan_local-IsValid (file a 1 1 ∷ []) (fresh_engine [])

is_tombstoned-add_to_previous_paths_example :
    is_tombstoned (scan_local [] (add_to_previous_paths (b ∷ []) engine)) b ≡ true
unfolding Dict.elem text_beq
is_tombstoned-add_to_previous_paths_example =
    is_tombstoned-add_to_previous_paths (b ∷ []) [] engine b refl refl

-- "D:c\n" and "K:a\n"
saved-engine : save_tombstones engine ≡ some (bytes "D:c" ++ 10 ∷ bytes "K:a" ++ 10 ∷ [])
unfolding save_tombstones lines_of scan_local visible mark_missing add_tombstone fresh_engine
    new_file_tree set_all Dict.get Dict.insert Dict.insert_all Dict.keys text_beq
saved-engine = refl

trim_space-spaces : trim_space (bytes " a b  ") ≡ bytes "a b"
unfolding trim_space
trim_space-spaces = refl

clean : (x : ℕ) → x ≡ b'a' ⊎ x ≡ b'c' → IsClean (x ∷ [])
unfolding space_len_reversed
clean x h = record {
  one_line = (ground arith, tt);
  no_trailing_space = ground arith;
  fits = omega arith;
}

new_engine-save_tombstones_run :
    (is_tombstoned (new_engine [] (save_tombstones engine)) c ≡ Dict.has engine.tombstones c)
    × (Dict.has (new_engine [] (save_tombstones engine)).previous_paths c
        ≡ (Dict.has engine.tombstones c || Dict.has engine.previous_paths c))
unfolding scan_local visible mark_missing add_tombstone fresh_engine Dict.get Dict.insert
    Dict.insert_all Dict.keys text_beq
new_engine-save_tombstones_run =
    new_engine-save_tombstones [] engine c (clean b'c' (inr refl), tt) (clean b'a' (inl refl), tt)

is_tombstoned-scan_local_restart_example :
    is_tombstoned (scan_local [] (new_engine [] (save_tombstones engine))) a
    ≡ (Dict.has engine.tombstones a || (Dict.has engine.previous_paths a && not (on_disk [] a)))
unfolding scan_local visible mark_missing add_tombstone fresh_engine Dict.get Dict.insert
    Dict.insert_all Dict.keys text_beq
is_tombstoned-scan_local_restart_example =
    is_tombstoned-scan_local_restart [] engine [] a (clean b'c' (inr refl), tt)
      (clean b'a' (inl refl), tt)
