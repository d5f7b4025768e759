-- ===== src/Utils/Fs/Chunk.antt =====
-- WriteChunkAt of utils/fs.go on the disk.
use mydrive.Base.{
  ℕ, ◌^◌, ◌≡◌, sym, ap, ◌∙◌, ◌∷◌, true, false, Text, ok, err, ltb, nat_eq, if◌then◌else◌,
}
use mathlib.Core.Path.{subst}
use mydrive.Utils.Content.{overwrite}
use mydrive.Os.{FilePath, path_eq, Disk, invalid, node_at, readable, is_dir_node}
use mydrive.Os.Files.{open_write, write_at}
use mydrive.Os.Laws.{bind_ok, with_result}
use mydrive.Os.Writes.{Wrote, text_of, Wrote-trans, open_write_lem, write_at_lem}
use mydrive.Utils.Fs.{write_chunk}

-- In a directory that is there, a chunk is written over the old content of the file, or over nothing
-- where there is no file yet; an offset that is too large for an int64 is an error, and leaves the
-- file with its old content, or empty.
pub write_chunk_lem :
    (name : Text) (q : FilePath) (chunk : Text) (offset : ℕ) (d : Disk)
    → is_dir_node (node_at d q) ≡ true
    → is_dir_node (node_at d (name ∷ q)) ≡ false
    → Wrote
        (name ∷ q)
        (if ltb offset (2 ^ 63)
          then overwrite (text_of (readable (node_at d (name ∷ q)))) chunk offset
          else text_of (readable (node_at d (name ∷ q))))
        d
        (write_chunk (name ∷ q) chunk offset d).1
      × ((write_chunk (name ∷ q) chunk offset d).0
          ≡ (if ltb offset (2 ^ 63) then ok tt else err invalid))
unfolding write_chunk
write_chunk_lem name q chunk offset d above free =
    let old = text_of (readable (node_at d (name ∷ q))) in
    let d₁ = (open_write (name ∷ q) 0o644 d).1 in
    let (opened, kept) = open_write_lem name q 0o644 d above free in
    let (wrote, result) = write_at_lem (name ∷ q) old chunk offset d₁ kept.content in
    let whole : write_chunk (name ∷ q) chunk offset d ≡ write_at (name ∷ q) chunk offset d₁ =
      bind_ok (open_write (name ∷ q) 0o644) (write_at (name ∷ q) chunk offset) d d₁
        (with_result (open_write (name ∷ q) 0o644 d) (ok tt) opened) in
    let final = if ltb offset (2 ^ 63) then overwrite old chunk offset else old in
    (
      subst (λ o. Wrote (name ∷ q) final d o.1) (sym whole)
          (Wrote-trans (name ∷ q) old final d d₁ (write_at (name ∷ q) chunk offset d₁).1 kept
            wrote),
      ap (λ o. o.0) whole ∙ result,
    )
