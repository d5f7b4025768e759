-- ===== src/Tests/TransferTests.antt =====
-- The theorems about chunks on a disk at concrete inputs.
use mydrive.Base.{
  suc, ◌≡◌, ◌⊎◌, refl, sym, ap, [], ◌∷◌, ◌++◌, Text, bytes, some, true, false, ok, err, length,
  drop, ◌==◌, text_eq, nat_eq, text_beq, arith, Bool-cases, inl, inr,
}
use mydrive.Base.Dict
use mydrive.Netlayer.Stream.{new_conn}
use mydrive.Utils.Chunks.Calls.{calls_of}
use mydrive.Os.{path_eq, path_beq, dir, Disk, invalid, node_at, readable, is_dir_node}
use mydrive.Os.Paths.{join, split, enter, enter_all, IsName}
use mydrive.Os.Writes.{Wrote, text_of}
use mydrive.Utils.Fs.{write_chunk}
use mydrive.Sync.OnDisk.{path_in}
use mydrive.Cmd.FileData.{write_chunk_at}
use mydrive.Cmd.FileData.Refinement.{under, Refines, write_chunk-Refines}
use mydrive.Base.Dict.{NodupKeys}
use mydrive.Cmd.Client.Run.{receive_contents}
use mydrive.Cmd.Client.Received.{receive_contents-stream_file}
use mydrive.Tests.Codecs.{chunking, chunking-IsLawful}
use mydrive.Tests.CmdTests.{done, receiver, contents-IsPlain, streamed, stream_file-frames}
use mydrive.Tests.Worlds.{ours, base, file_a, disk, engine, client_world, digest}

abbrev pub path_a : Text
path_a = bytes "a"

pub a_in_base : path_in engine path_a ≡ file_a
unfolding join split enter enter_all text_beq
a_in_base = refl

pub base_is_dir : is_dir_node (node_at disk base) ≡ true
unfolding path_beq text_beq Dict.get
base_is_dir = refl

a_is_file : is_dir_node (node_at disk file_a) ≡ false
unfolding path_beq text_beq Dict.get
a_is_file = refl

receive_contents-stream_file_example :
    let (r', w') =
      receive_contents chunking digest (suc (length (calls_of (bytes "new")))) 0 client_world in
    (r' ≡ ok tt)
    × (w'.client.conn ≡ some (record receiver { input = 7 ∷ [] }))
    × Wrote file_a (bytes "new" ++ drop 3 (text_of (readable (node_at disk file_a)))) disk w'.disk
unfolding new_conn
receive_contents-stream_file_example =
    receive_contents-stream_file chunking digest chunking-IsLawful path_a (bytes "new") (7 ∷ [])
      done (new_conn []) receiver 0 client_world path_a base a_in_base base_is_dir a_is_file
      (omega arith) (contents-IsPlain path_a (calls_of (bytes "new"))) refl streamed
      (ap (λ o. o.0) stream_file-frames) refl
      (ap (λ o. o.1.output ++ 7 ∷ []) (sym stream_file-frames))

pub a-IsName : IsName path_a
a-IsName = record {
  one_part = (refl, tt);
  not_empty = λ e. absurd (ground arith);
  not_dot = λ e. absurd (ground arith);
  not_dot_dot = λ e. absurd (ground arith);
}

-- A disk with no file, and no files
abbrev bare_disk : Disk
bare_disk = record disk { nodes = (base, dir ours) ∷ [] }

bare-Refines : Refines base bare_disk []
unfolding Dict.get
bare-Refines n ns clean = elim (Bool-cases (base == under base (n ∷ ns))) [
  | inl e ↦ rw e refl
  | inr e ↦ rw e refl
]

bare_place : join base path_a ≡ file_a
unfolding join split enter enter_all text_beq
bare_place = refl

bare_is_dir : is_dir_node (node_at bare_disk base) ≡ true
unfolding path_beq text_beq Dict.get
bare_is_dir = refl

bare_free : is_dir_node (node_at bare_disk file_a) ≡ false
unfolding path_beq text_beq Dict.get
bare_free = refl

write_chunk-Refines_example :
    let (r, files') = write_chunk_at path_a (bytes "x") 0 [] in
    let (s, d') = write_chunk (join base path_a) (bytes "x") 0 bare_disk in
    Refines base d' files' × ((r ≡ ok tt) × (s ≡ ok tt) ⊎ (r ≡ err 0) × (s ≡ err invalid))
write_chunk-Refines_example =
    write_chunk-Refines base path_a [] path_a base (bytes "x") 0 bare_disk [] (a-IsName, tt)
      bare_place bare_is_dir bare_free bare-Refines
