-- ===== src/Cmd/Client/Contents.antt =====
-- What the chunks of a streamed file do to the disk of the client.
use mydrive.Base.{
  ℕ, ◌^◌, ◌<◌, ◌≡◌, sym, ap, ◌∙◌, List, [], ◌∷◌, ◌++◌, true, false, Text, ok, ltb, length, drop,
  All, nat_eq, text_eq, if◌then◌else◌, arith, lt→ltb,
}
use mathlib.Core.Path.{subst}
use mydrive.Utils.Content.{overwrite}
use mydrive.Utils.Chunks.Transfer
use mydrive.Utils.Chunks.Transfer.{read_file_chunked-write}
use mydrive.Utils.Chunks.Calls.{Call, calls_of, run_calls, read_file_chunked-run_calls}
use mydrive.Os.{FilePath, path_eq, Disk, node_at, readable, is_dir_node}
use mydrive.Os.Dirs.{mkdir_all_done}
use mydrive.Os.Writes.{Wrote, Wrote-trans, text_of}
use mydrive.Utils.Fs.{ensure_dir, write_chunk}
use mydrive.Utils.Fs.Chunk.{write_chunk_lem}
use mydrive.Cmd.FileData.Handling.{calls_of-cons, calls_of_small}

-- The case of FILE_DATA on the disk
abbrev pub chunk_on_disk : FilePath → Text → ℕ → Disk → Disk
chunk_on_disk p chunk offset d = (write_chunk p chunk offset (ensure_dir p d).1).1

abbrev pub calls_on_disk : FilePath → List Call → Disk → Disk
calls_on_disk p [] d = d
calls_on_disk p ((offset, chunk, final) ∷ l) d = calls_on_disk p l (chunk_on_disk p chunk offset d)

ensure_dir_done :
    (name : Text) (q : FilePath) (d : Disk)
    → is_dir_node (node_at d q) ≡ true
    → ensure_dir (name ∷ q) d ≡ (ok tt, d)
unfolding ensure_dir
ensure_dir_done name q d h = mkdir_all_done q 0o755 d h

-- A chunk in a directory that is there, at an offset that an int64 can hold
chunk_on_disk-Wrote :
    (name : Text) (q : FilePath) (chunk : Text) (offset : ℕ) (d : Disk)
    → is_dir_node (node_at d q) ≡ true
    → is_dir_node (node_at d (name ∷ q)) ≡ false
    → offset < 2 ^ 63
    → Wrote
        (name ∷ q)
        (overwrite (text_of (readable (node_at d (name ∷ q)))) chunk offset)
        d
        (chunk_on_disk (name ∷ q) chunk offset d)
chunk_on_disk-Wrote name q chunk offset d above free small =
    let p : FilePath = name ∷ q in
    let old = text_of (readable (node_at d p)) in
    let wrote = (write_chunk_lem name q chunk offset d above free).0 in
    let fits : ltb offset (2 ^ 63) ≡ true = lt→ltb offset (2 ^ 63) small in
    rw (chunk_on_disk, ensure_dir_done name q d above)
      (subst
        (λ b.
          Wrote p (if b then overwrite old chunk offset else old) d
            (write_chunk p chunk offset d).1)
        fits wrote)

-- The calls of a file, one behind the other
calls_on_disk-Wrote :
    (name : Text) (q : FilePath) (l : List Call) (c : Text) (d d' : Disk)
    → is_dir_node (node_at d q) ≡ true
    → is_dir_node (node_at d (name ∷ q)) ≡ false
    → All (λ call. call.0 < 2 ^ 63) l
    → Wrote (name ∷ q) c d d'
    → Wrote (name ∷ q) (run_calls Transfer.write_chunk l c).1 d (calls_on_disk (name ∷ q) l d')
calls_on_disk-Wrote name q [] c d d' above free small h = h
calls_on_disk-Wrote name q ((offset, chunk, final) ∷ l) c d d' above free small h =
    let p : FilePath = name ∷ q in
    let old : text_of (readable (node_at d' p)) ≡ c = ap text_of h.content in
    let one =
      chunk_on_disk-Wrote name q chunk offset d' (h.dirs q ∙ above) (h.dirs p ∙ free) small.0 in
    let one' : Wrote p (overwrite c chunk offset) d' (chunk_on_disk p chunk offset d') =
      subst (λ o. Wrote p (overwrite o chunk offset) d' (chunk_on_disk p chunk offset d')) old
        one in
    calls_on_disk-Wrote name q l (overwrite c chunk offset) d (chunk_on_disk p chunk offset d')
      above free small.1
      (Wrote-trans p c (overwrite c chunk offset) d d' (chunk_on_disk p chunk offset d') h one')

-- From a disk on which there is no file yet, or some file
calls_on_disk-first :
    (name : Text) (q : FilePath) (call : Call) (l : List Call) (d : Disk)
    → is_dir_node (node_at d q) ≡ true
    → is_dir_node (node_at d (name ∷ q)) ≡ false
    → All (λ call. call.0 < 2 ^ 63) (call ∷ l)
    → Wrote
        (name ∷ q)
        (run_calls Transfer.write_chunk (call ∷ l) (text_of (readable (node_at d (name ∷ q))))).1
        d
        (calls_on_disk (name ∷ q) (call ∷ l) d)
calls_on_disk-first name q (offset, chunk, final) l d above free small =
    let p : FilePath = name ∷ q in
    calls_on_disk-Wrote name q l (overwrite (text_of (readable (node_at d p))) chunk offset) d
      (chunk_on_disk p chunk offset d) above free small.1
      (chunk_on_disk-Wrote name q chunk offset d above free small.0)

-- A file that is streamed stands on the disk, with what the old file had behind its length.
pub calls_on_disk-calls_of :
    (name : Text) (q : FilePath) (content : Text) (d : Disk)
    → is_dir_node (node_at d q) ≡ true
    → is_dir_node (node_at d (name ∷ q)) ≡ false
    → length content < 2 ^ 63
    → Wrote
        (name ∷ q)
        (content ++ drop (length content) (text_of (readable (node_at d (name ∷ q)))))
        d
        (calls_on_disk (name ∷ q) (calls_of content) d)
calls_on_disk-calls_of name q content d above free room =
    let p : FilePath = name ∷ q in
    let old = text_of (readable (node_at d p)) in
    let written =
      sym (read_file_chunked-run_calls Transfer.write_chunk content old (omega arith))
      ∙ read_file_chunked-write content old (omega arith) in
    let (call, l, e) = calls_of-cons content in
    let first =
      calls_on_disk-first name q call l d above free (rw e at (calls_of_small content room)) in
    subst (λ c. Wrote p c d (calls_on_disk p (calls_of content) d)) (ap (λ o. o.1) written)
      (subst (λ cs. Wrote p (run_calls Transfer.write_chunk cs old).1 d (calls_on_disk p cs d))
        (sym e) first)
