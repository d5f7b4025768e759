-- ===== src/Sync/OnDisk/Restart.antt =====
-- The tombstone file of sync/engine.go on the disk, over a restart.
use mydrive.Base.{
  ℕ, zero, suc, ◌+◌, drop, length, ◌≡◌, refl, ap, ◌∙◌, none, some, [], ◌∷◌, ◌++◌, true, false, Text,
  ok, All, append-nil, text_eq, text_beq, Option-cases, inl, inr,
}
use mydrive.Base.Dict
use mydrive.Base.Dict.{get-erase}
use mydrive.Utils.Content.{overwrite}
use mydrive.Os.{FilePath, path_eq, Disk, node_at, is_dir_node, readable}
use mydrive.Os.Paths.{join, split, enter, enter_all}
use mydrive.Os.Files.{create, write_at, remove_file, has_below}
use mydrive.Os.Writes.{create_lem, write_at_lem, remove_file_lem}
use mydrive.Sync.Engine.{Engine, is_tombstoned, tombstone_file, fresh_engine}
use mydrive.Sync.Tombstones.{load_tombstones, save_tombstones, new_engine}
use mydrive.Sync.Tombstones.RoundTrip.{IsClean, new_engine-save_tombstones}
use mydrive.Sync.OnDisk.{root_of, path_in, load_engine, persist, clear_persisted}

-- The tombstone file stands in the base directory.
join-tombstone_file : (base : FilePath) → join base tombstone_file ≡ tombstone_file ∷ base
unfolding join split enter enter_all text_beq
join-tombstone_file base = refl

drop-nil : (n : ℕ) → drop {A = ℕ} n [] ≡ []
drop-nil zero = refl
drop-nil (suc n) = refl

overwrite-nil : (t : Text) → overwrite [] t 0 ≡ t
unfolding overwrite
overwrite-nil [] = refl
overwrite-nil (x ∷ b) =
    ap (λ t. x ∷ t) (ap (λ t. b ++ t) (drop-nil (0 + length (x ∷ b))) ∙ append-nil b)

persist-none :
    (e : Engine) (d : Disk)
    → save_tombstones e ≡ none
    → persist e d ≡ (ok tt, (remove_file (path_in e tombstone_file) d).1)
unfolding persist
persist-none e d s = rw (persist, s) refl

persist-some :
    (e : Engine) (d : Disk) (t : Text)
    → save_tombstones e ≡ some t
    → (create (path_in e tombstone_file) d).0 ≡ ok tt
    → persist e d
      ≡ (ok tt, (write_at (path_in e tombstone_file) t 0 (create (path_in e tombstone_file) d).1).1)
unfolding persist
persist-some e d t s made = rw (persist, s, made) refl

-- In a base directory that is there, with no directory at the path of the tombstone file,
-- SaveTombstones succeeds, and an engine that is made behind it is made from what was saved.
pub load_engine-persist :
    (e : Engine) (d : Disk)
    → is_dir_node (node_at d (root_of e)) ≡ true
    → is_dir_node (node_at d (path_in e tombstone_file)) ≡ false
    → has_below (path_in e tombstone_file) d.nodes ≡ false
    → ((persist e d).0 ≡ ok tt)
      × (load_engine e.base_dir (persist e d).1 ≡ new_engine e.base_dir (save_tombstones e))
unfolding load_engine
load_engine-persist e d base free alone =
    let p : FilePath = tombstone_file ∷ root_of e in
    let same : path_in e tombstone_file ≡ p = join-tombstone_file (root_of e) in
    let free' : is_dir_node (node_at d p) ≡ false = rw same at free in
    let alone' : has_below p d.nodes ≡ false = rw same at alone in
    elim (Option-cases (save_tombstones e)) [
      | inl s ↦
          rw (persist-none e d s, s, same)
            (refl, ap (new_engine e.base_dir) (remove_file_lem tombstone_file (root_of e) d alone'))
      | inr (t, s) ↦
          let (made, kept) = create_lem tombstone_file (root_of e) d base free' in
          let (wrote, result) = write_at_lem p [] t 0 (create p d).1 kept.content in
          rw (persist-some e d t s (rw same made), s, same)
            (refl, ap (new_engine e.base_dir) (wrote.content ∙ ap some (overwrite-nil t)))
    ]

-- The tombstones of an engine are there after a restart, and no others, if the base directory is
-- there, no directory stands at the path of the tombstone file, and nothing below it. The paths have
-- no newline, no white space at their end, and fit into the scanner's buffer.
pub is_tombstoned-load_engine :
    (e : Engine) (d : Disk) (path : Text)
    → is_dir_node (node_at d (root_of e)) ≡ true
    → is_dir_node (node_at d (path_in e tombstone_file)) ≡ false
    → has_below (path_in e tombstone_file) d.nodes ≡ false
    → All IsClean (Dict.keys e.tombstones)
    → All IsClean (Dict.keys e.previous_paths)
    → is_tombstoned (load_engine e.base_dir (persist e d).1) path ≡ Dict.has e.tombstones path
is_tombstoned-load_engine e d path base free alone deleted known =
    ap (λ e'. is_tombstoned e' path) (load_engine-persist e d base free alone).1
    ∙ (new_engine-save_tombstones e.base_dir e path deleted known).0

untold : (base_dir path : Text) → is_tombstoned (new_engine base_dir none) path ≡ false
unfolding is_tombstoned new_engine load_tombstones fresh_engine Dict.get
untold base_dir path = refl

-- Behind ClearTombstones a restarted engine has no tombstones.
pub is_tombstoned-clear_persisted :
    (e : Engine) (d : Disk) (path : Text)
    → has_below (path_in e tombstone_file) d.nodes ≡ false
    → is_tombstoned (load_engine e.base_dir (clear_persisted e d).1) path ≡ false
unfolding load_engine clear_persisted
is_tombstoned-clear_persisted e d path h =
    let same : path_in e tombstone_file ≡ tombstone_file ∷ root_of e =
      join-tombstone_file (root_of e) in
    let gone : readable
          (node_at (remove_file (path_in e tombstone_file) d).1 (path_in e tombstone_file))
        ≡ none =
      rw same (remove_file_lem tombstone_file (root_of e) d (rw same at h)) in
    ap (λ o. is_tombstoned (new_engine e.base_dir o) path) gone ∙ untold e.base_dir path
