-- ===== src/Cmd/Serve/Deleting.antt =====
-- The case of FILE_DELETE in handleMessage of cmd/server/main.go.
use mydrive.Base.{
  ℕ, ◌≡◌, refl, ap, ◌∙◌, none, some, ◌∷◌, true, not, ◌&&◌, Text, ok, nat_eq, text_eq, if◌then◌else◌,
  arith, Result-cases, inl, inr,
}
use mydrive.Base.Dict.{get-insert, is_some}
use mydrive.Protocol.Message.{Message}
use mydrive.Protocol.Json.{Codec}
use mydrive.Os.{FilePath, path_eq, Node, Disk, node_at, readable}
use mydrive.Os.Files.{is_under}
use mydrive.Os.Laws.{touch_ok}
use mydrive.Os.Writes.{erased, remove_all-eq-touch, readable-remove_all, is_some-remove_all}
use mydrive.Utils.Fs.{delete_entry, walk_directory}
use mydrive.Utils.Fs.Kept.{Reads-walk_directory}
use mydrive.Sync.State.{get, get-remove}
use mydrive.Sync.Engine.{Engine, is_tombstoned, add_tombstone, scan_local}
use mydrive.Sync.Engine.Scan.{is_tombstoned-scan_local_mono}
use mydrive.Sync.OnDisk.{root_of, path_in, scan}
use mydrive.Cmd.Serve.{World, remove_local, remove_remote, handle_delete}

-- What a scan leaves, whether it succeeds or not
scan_keeps :
    (sha256 : Text → Text) (e : Engine) (d : Disk) (path : Text)
    → is_tombstoned e path ≡ true
    → ((scan sha256 e d).2 ≡ d)
      × ((scan sha256 e d).1.remote_tree ≡ e.remote_tree)
      × (is_tombstoned (scan sha256 e d).1 path ≡ true)
unfolding scan scan_local
scan_keeps sha256 e d path h =
    let kept = Reads-walk_directory sha256 (root_of e) d in
    elim (Result-cases (walk_directory sha256 (root_of e) d).0) [
      | inl (found, k) ↦ rw (scan, k) (kept, refl, is_tombstoned-scan_local_mono found e path h)
      | inr (x, k) ↦ rw (scan, k) (kept, refl, h)
    ]

is_tombstoned-add_tombstone :
    (path : Text) (e : Engine) → is_tombstoned (add_tombstone path e) path ≡ true
unfolding is_tombstoned add_tombstone
is_tombstoned-add_tombstone path e =
    ground (arith, get-insert e.tombstones path true path, text_eq.beq_iff path path)

module _ (j : Codec) (sha256 : Text → Text) where
  -- A client deletes a path at which something stands on the server's disk. The handler succeeds; no
  -- file or directory is left there or below, every other one is still there, and every other file has its
  -- content; the path is tombstoned, and it
  -- is not in the tree that the server keeps of its clients.
  pub handle_delete_lem :
      (id now : ℕ) (m : Message) (w : World) (name : Text) (q : FilePath) (n : Node)
      → path_in w.engine m.file_delete ≡ name ∷ q
      → node_at w.disk (name ∷ q) ≡ some n
      → let (r, w') = handle_delete j sha256 id m now w in
        (r ≡ ok tt)
        × ((x : FilePath)
            → readable (node_at w'.disk x)
              ≡ (if is_under (name ∷ q) x then none else readable (node_at w.disk x)))
        × ((x : FilePath)
            → is_some (node_at w'.disk x)
              ≡ (not (is_under (name ∷ q) x) && is_some (node_at w.disk x)))
        × (is_tombstoned w'.engine m.file_delete ≡ true)
        × (get w'.engine.remote_tree m.file_delete ≡ none)
  unfolding handle_delete delete_entry add_tombstone
  handle_delete_lem id now m w name q n place there =
      let p : FilePath = name ∷ q in
      let removed = remove_all-eq-touch name q n w.disk there in
      let done : (delete_entry (path_in w.engine m.file_delete) w.disk).0 ≡ ok tt =
        ap (λ x. (delete_entry x w.disk).0) place
        ∙ ap (λ o. o.0) removed
        ∙ touch_ok q (erased p w.disk) in
      let path = m.file_delete in
      let d' = (delete_entry (path_in w.engine path) w.disk).1 in
      let e' = add_tombstone path (remove_local path (remove_remote path w.engine)) in
      let (disk, remote, tombstoned) =
        scan_keeps sha256 e' d' path
          (is_tombstoned-add_tombstone path (remove_local path (remove_remote path w.engine))) in
      rw (handle_delete, done)
        (
          refl,
          λ x.
              ap (λ d. readable (node_at d x)) disk
              ∙ ap (λ y. readable (node_at (delete_entry y w.disk).1 x)) place
              ∙ readable-remove_all name q n w.disk x there,
          λ x.
              ap (λ d. is_some (node_at d x)) disk
              ∙ ap (λ y. is_some (node_at (delete_entry y w.disk).1 x)) place
              ∙ is_some-remove_all name q n w.disk x there,
          tombstoned,
          ap (λ t. get t path) remote
              ∙ get-remove w.engine.remote_tree path path
              ∙ ground (arith, text_eq.beq_iff path path),
        )
