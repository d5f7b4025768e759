-- ===== src/Sync/OnDisk/Times.antt =====
-- The times of a file that is created and then written to: applyOp of sync/engine.go with
-- ApplyAttrs and WriteChunkAt of utils/fs.go. The server's applyFileCreate has the same calls.
use mydrive.Base.{
  ℕ, ◌^◌, ◌%◌, ◌≡◌, refl, ap, ◌∙◌, none, some, [], ◌∷◌, true, false, Text, text_beq, ok, ltb, ◌==◌,
  nat_eq, text_eq, arith,
}
use mydrive.Base.Int.{ℤ}
use mydrive.Protocol.Message.{FileEntry}
use mydrive.Utils.Content.{overwrite}
use mydrive.Os.{FilePath, path_eq, Attrs, Node, file, dir, Disk, ◌>>◌, node_at, touch}
use mydrive.Os.Files.{create, new_file, new_attrs, open_write, write_at}
use mydrive.Os.Laws.{
  bind_ok, with_result, with_node, node_at-with_node, node_at-touch, add_node-eq-touch, touch_ok,
  is_under_refl, not-above, is_under_ne,
}
use mydrive.Os.Dirs.{mkdir_all_done}
use mydrive.Utils.Fs.{ensure_dir, apply_attrs, write_chunk}
use mydrive.Utils.Fs.Attributes.{asked, apply_attrs_lem}
use mydrive.Sync.OnDisk.Apply.{make_file}

self-apart : (name : Text) (q : FilePath) → (q == name ∷ q) ≡ false
self-apart name q = is_under_ne q (name ∷ q) q (is_under_refl q) (not-above name q)

-- Writing to a file that is there sets its time.
write_chunk-node :
    (p : FilePath) (a : Attrs) (c : Text) (x : ℕ) (b : Text) (offset : ℕ) (d : Disk)
    → node_at d p ≡ some (file a c)
    → ltb offset (2 ^ 63) ≡ true
    → write_chunk p (x ∷ b) offset d
      ≡ (ok tt, with_node p (file (record a { mtime = d.now }) (overwrite c (x ∷ b) offset)) d)
unfolding write_chunk open_write write_at text_beq
write_chunk-node p a c x b offset d e small =
    let opened : open_write p 0o644 d ≡ (ok tt, d) = rw (open_write, e) refl in
    bind_ok (open_write p 0o644) (write_at p (x ∷ b) offset) d d opened
    ∙ rw (write_at, small, e) refl

make_file-node :
    (name : Text) (q : FilePath) (entry : FileEntry) (d : Disk) (a : Attrs)
    → node_at d q ≡ some (dir a)
    → node_at d (name ∷ q) ≡ none
    → (make_file (name ∷ q) entry d).0 ≡ ok tt
      × (node_at (make_file (name ∷ q) entry d).1 (name ∷ q)
          ≡ some (file (asked entry (new_attrs 0o666 d)) []))
unfolding make_file create ensure_dir
make_file-node name q entry d a above free =
    let p : FilePath = name ∷ q in
    let fresh : Node = file (new_attrs 0o666 d) [] in
    let d₀ = with_node p fresh d in
    let d₁ = (touch q d₀).1 in
    let made : create p d ≡ (ok tt, d₁) =
      rw (create, free)
        (add_node-eq-touch name q (new_file 0o666) d a above
          ∙ with_result (touch q d₀) (ok tt) (touch_ok q d₀)) in
    let found : node_at d₁ p ≡ some fresh =
      node_at-touch q d₀ p
      ∙ rw (self-apart name q)
          (node_at-with_node p fresh d p ∙ ground (arith, path_eq.beq_iff p p)) in
    let final : Node = file (asked entry (new_attrs 0o666 d)) [] in
    let changed : apply_attrs p entry d₁ ≡ (ok tt, with_node p final d₁) =
      apply_attrs_lem p entry d₁ ∙ rw found refl in
    let there : ensure_dir p d ≡ (ok tt, d) = mkdir_all_done q 0o755 d (rw above refl) in
    let whole : make_file p entry d ≡ (ok tt, with_node p final d₁) =
      bind_ok (ensure_dir p) (create p >> apply_attrs p entry) d d there
      ∙ bind_ok (create p) (apply_attrs p entry) d d₁ made
      ∙ changed in
    rw whole (refl, node_at-with_node p final d₁ p ∙ ground (arith, path_eq.beq_iff p p))

-- A file of an entry is created where nothing stands, in a directory that is there: it has the
-- mode and the modification time of the entry. Then, at a later time, a chunk of one byte at least is
-- written to it, at an offset that fits into an int64: the time of the file is then that of the
-- writing, and no longer that of the entry.
pub write_chunk-make_file :
    (name : Text) (q : FilePath) (entry : FileEntry) (x : ℕ) (b : Text) (offset : ℕ) (later : ℤ)
    (d : Disk) (a : Attrs)
    → node_at d q ≡ some (dir a)
    → node_at d (name ∷ q) ≡ none
    → ltb offset (2 ^ 63) ≡ true
    → let created = make_file (name ∷ q) entry d in
      let written = write_chunk (name ∷ q) (x ∷ b) offset (record created.1 { now = later }) in
      let kept : Attrs = record { mode = entry.mode % 0o1000; mtime = entry.mtime; owned = true } in
      (created.0 ≡ ok tt)
      × (node_at created.1 (name ∷ q) ≡ some (file kept []))
      × (written.0 ≡ ok tt)
      × (node_at written.1 (name ∷ q)
          ≡ some (file (record kept { mtime = later }) (overwrite [] (x ∷ b) offset)))
write_chunk-make_file name q entry x b offset later d a above free small =
    let p : FilePath = name ∷ q in
    let (made, node) = make_file-node name q entry d a above free in
    let kept : Attrs = asked entry (new_attrs 0o666 d) in
    let d₂ : Disk = record (make_file p entry d).1 { now = later } in
    let final : Node = file (record kept { mtime = later }) (overwrite [] (x ∷ b) offset) in
    let wrote = write_chunk-node p kept [] x b offset d₂ node small in
    (
      made,
      node,
      ap (λ o. o.0) wrote,
      ap (λ o. node_at o.1 p) wrote
          ∙ node_at-with_node p final d₂ p
          ∙ ground (arith, path_eq.beq_iff p p),
    )
