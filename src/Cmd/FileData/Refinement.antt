-- ===== src/Cmd/FileData/Refinement.antt =====
-- The map of Cmd/FileData from paths to contents, against the disk.
use mydrive.Base.{
  ℕ, ◌^◌, ◌≡◌, ◌⊎◌, refl, sym, ap, ◌∙◌, some, List, ◌∷◌, ◌++◌, true, false, Text, ok, err, ltb,
  reverse, reverse-reverse, All, ◌==◌, nat_eq, text_eq, if◌then◌else◌, arith, Bool-cases, inl, inr,
}
use mathlib.Core.List.{append_cancel_right}
use mydrive.Base.Dict
use mydrive.Base.Dict.{get-insert}
use mydrive.Utils.Content.{overwrite}
use mydrive.Os.{FilePath, path_eq, Disk, invalid, node_at, readable, is_dir_node}
use mydrive.Os.Paths.{split, with_slashes, IsName, split-with_slashes, join, join-with_slashes}
use mydrive.Os.Writes.{text_of}
use mydrive.Utils.Fs.{write_chunk}
use mydrive.Utils.Fs.Chunk.{write_chunk_lem}
use mydrive.Cmd.FileData.{Files, content_of, write_chunk_at}

-- The path on the disk that some names lead to from a directory
abbrev pub under : FilePath → List Text → FilePath
under root names = reverse names ++ root

-- The map has, at every clean path, what can be read there below the directory.
abbrev pub Refines : FilePath → Disk → Files → Type 0
Refines root d files =
    (n : Text) (ns : List Text)
    → All IsName (n ∷ ns)
    → Dict.get files (with_slashes (n ∷ ns)) ≡ readable (node_at d (under root (n ∷ ns)))

-- Clean paths are read as the names that they were made of.
with_slashes-inj :
    (n m : Text) (ns ms : List Text)
    → All IsName (n ∷ ns)
    → All IsName (m ∷ ms)
    → with_slashes (n ∷ ns) ≡ with_slashes (m ∷ ms)
    → n ∷ ns ≡ m ∷ ms
with_slashes-inj n m ns ms h k e =
    sym (split-with_slashes n ns h) ∙ ap split e ∙ split-with_slashes m ms k

under-inj : (root : FilePath) (l m : List Text) → under root l ≡ under root m → l ≡ m
under-inj root l m e =
    sym (reverse-reverse l)
    ∙ ap reverse (append_cancel_right (reverse l) (reverse m) root e)
    ∙ reverse-reverse m

-- The written content, in both worlds
abbrev pub written : Text → Text → ℕ → Text
written old chunk offset = if ltb offset (2 ^ 63) then overwrite old chunk offset else old

get-write_chunk_at :
    (path chunk : Text) (offset : ℕ) (files : Files) (p : Text)
    → Dict.get (write_chunk_at path chunk offset files).1 p ≡ (
        if path == p then some (written (content_of files path) chunk offset) else Dict.get files p)
unfolding write_chunk_at
get-write_chunk_at path chunk offset files p = elim (Bool-cases (ltb offset (2 ^ 63))) [
  | inl e ↦
      rw (write_chunk_at, e)
        (get-insert files path (overwrite (content_of files path) chunk offset) p)
  | inr e ↦ rw (write_chunk_at, e) (get-insert files path (content_of files path) p)
]

-- Different clean paths lead to different places.
not-same :
    (root p : FilePath) (n m : Text) (ns ms : List Text)
    → under root (n ∷ ns) ≡ p
    → (with_slashes (n ∷ ns) == with_slashes (m ∷ ms)) ≡ false
    → (p == under root (m ∷ ms)) ≡ false
not-same root p n m ns ms here e = elim (Bool-cases (p == under root (m ∷ ms))) [
  | inr k ↦ k
  | inl k ↦
      let names : n ∷ ns ≡ m ∷ ms =
        under-inj root (n ∷ ns) (m ∷ ms) (here ∙ (path_eq.beq_iff p (under root (m ∷ ms))).0 k) in
      let texts : with_slashes (n ∷ ns) ≡ with_slashes (m ∷ ms) = ap with_slashes names in
      absurd
        (ground (arith, text_eq.beq_iff (with_slashes (n ∷ ns)) (with_slashes (m ∷ ms)), texts, e))
]

-- The map of files is refined by the disk: where it has, at every clean path, what can be read there
-- below the base directory, a chunk that is written to a clean path, in a directory that is there and
-- not over a directory, keeps that so, and fails on the map exactly if it fails on the disk.
pub write_chunk-Refines :
    (root : FilePath) (n : Text) (ns : List Text) (name : Text) (q : FilePath) (chunk : Text)
    (offset : ℕ) (d : Disk) (files : Files)
    → All IsName (n ∷ ns)
    → join root (with_slashes (n ∷ ns)) ≡ name ∷ q
    → is_dir_node (node_at d q) ≡ true
    → is_dir_node (node_at d (name ∷ q)) ≡ false
    → Refines root d files
    → let path = with_slashes (n ∷ ns) in
      let (r, files') = write_chunk_at path chunk offset files in
      let (s, d') = write_chunk (join root path) chunk offset d in
      Refines root d' files' × ((r ≡ ok tt) × (s ≡ ok tt) ⊎ (r ≡ err offset) × (s ≡ err invalid))
unfolding write_chunk_at
write_chunk-Refines root n ns name q chunk offset d files clean place above free h =
    let path = with_slashes (n ∷ ns) in
    let p : FilePath = name ∷ q in
    let here : under root (n ∷ ns) ≡ p = sym (join-with_slashes root n ns clean) ∙ place in
    let (wrote, result) = write_chunk_lem name q chunk offset d above free in
    let old : content_of files path ≡ text_of (readable (node_at d p)) =
      ap text_of (h n ns clean ∙ ap (λ x. readable (node_at d x)) here) in
    let d' : Disk = (write_chunk p chunk offset d).1 in
    let get' = get-write_chunk_at path chunk offset files in
    rw place (
      λ m ms k. elim (Bool-cases (path == with_slashes (m ∷ ms))) [
        | inl e ↦
            let names : n ∷ ns ≡ m ∷ ms =
              with_slashes-inj n m ns ms clean k
                ((text_eq.beq_iff path (with_slashes (m ∷ ms))).0 e) in
            let same : p ≡ under root (m ∷ ms) = sym here ∙ ap (under root) names in
            get' (with_slashes (m ∷ ms))
            ∙ rw e (
                ap (λ o. some (written o chunk offset)) old
                ∙ sym wrote.content
                ∙ ap (λ x. readable (node_at d' x)) same)
        | inr e ↦
            let apart : (p == under root (m ∷ ms)) ≡ false = not-same root p n m ns ms here e in
            get' (with_slashes (m ∷ ms))
            ∙ rw e (h m ms k ∙ sym (wrote.others (under root (m ∷ ms)) apart))
      ],
      elim (Bool-cases (ltb offset (2 ^ 63))) [
        | inl e ↦ inl (rw (write_chunk_at, e) refl, result ∙ rw e refl)
        | inr e ↦ inr (rw (write_chunk_at, e) refl, result ∙ rw e refl)
      ],
    )
