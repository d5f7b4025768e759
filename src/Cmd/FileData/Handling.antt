-- ===== src/Cmd/FileData/Handling.antt =====
-- What the messages of a streamed file do to the files of the receiver.
use mydrive.Base.{
  ℕ, zero, suc, ◌+◌, ◌^◌, ◌<◌, ◌≡◌, refl, sym, ap, ◌∙◌, List, [], ◌∷◌, ◌++◌, Bool, true, Text,
  length, drop, map, All, ◌==◌, nat_eq, text_eq, if◌then◌else◌, arith, lt→ltb, take, length-take,
  length-drop,
}
use mathlib.Core.List.{foldl}
use mydrive.Base.Dict
use mydrive.Base.Dict.{Dict, get-insert, insert-insert}
use mydrive.Protocol.Msg
use mydrive.Protocol.Message.{Message, message_of}
use mydrive.Utils.Content.{overwrite}
use mydrive.Utils.Chunks.{chunk_size}
use mydrive.Utils.Chunks.Transfer.{write_chunk, read_file_chunked-write}
use mydrive.Utils.Chunks.Calls.{Call, calls_from, calls_of, run_calls, read_file_chunked-run_calls}
use mydrive.Cmd.FileData.{Files, content_of, chunk_content, write_chunk_at, handle_file_data}
use mydrive.Cmd.FileData.Messages.{contents}

-- What a message does to the files, an error left out.
abbrev pub step : Files → Message → Files
step files m = if m.msg_type == Msg.file_data then (handle_file_data m files).1 else files

step-chunk_content :
    (path : Text) (offset : ℕ) (chunk : Text) (final : Bool) (files : Files)
    → offset < 2 ^ 63
    → step files (message_of (chunk_content path offset chunk final))
      ≡ Dict.insert files path (overwrite (content_of files path) chunk offset)
unfolding handle_file_data write_chunk_at
step-chunk_content path offset chunk final files small =
    ground (arith, lt→ltb offset (2 ^ 63) small)

step-insert :
    (path : Text) (offset : ℕ) (chunk : Text) (final : Bool) (old : Text) (files : Files)
    → offset < 2 ^ 63
    → step (Dict.insert files path old) (message_of (chunk_content path offset chunk final))
      ≡ Dict.insert files path (overwrite old chunk offset)
step-insert path offset chunk final old files small =
    let found : content_of (Dict.insert files path old) path ≡ old =
      ground (arith, get-insert files path old path, text_eq.beq_iff path path) in
    step-chunk_content path offset chunk final (Dict.insert files path old) small
    ∙ ap (λ c. Dict.insert (Dict.insert files path old) path (overwrite c chunk offset)) found
    ∙ insert-insert files path old (overwrite old chunk offset)

-- The chunks of one file change that file alone.
foldl-step-contents :
    (path : Text) (l : List Call) (old : Text) (files : Files)
    → All (λ call. call.0 < 2 ^ 63) l
    → foldl step (Dict.insert files path old) (map message_of (contents path l))
      ≡ Dict.insert files path (run_calls write_chunk l old).1
foldl-step-contents path [] old files small = refl
foldl-step-contents path ((offset, chunk, final) ∷ l) old files small =
    ap (λ f. foldl step f (map message_of (contents path l)))
      (step-insert path offset chunk final old files small.0)
    ∙ foldl-step-contents path l (overwrite old chunk offset) files small.1

foldl-step-calls :
    (path : Text) (call : Call) (l : List Call) (files : Files)
    → All (λ call. call.0 < 2 ^ 63) (call ∷ l)
    → foldl step files (map message_of (contents path (call ∷ l)))
      ≡ Dict.insert files path (run_calls write_chunk (call ∷ l) (content_of files path)).1
foldl-step-calls path (offset, chunk, final) l files small =
    ap (λ f. foldl step f (map message_of (contents path l)))
      (step-chunk_content path offset chunk final files small.0)
    ∙ foldl-step-contents path l (overwrite (content_of files path) chunk offset) files small.1

calls_from_small :
    (size fuel : ℕ) (r : Text) (offset : ℕ)
    → offset + length r < 2 ^ 63
    → All (λ call. call.0 < 2 ^ 63) (calls_from size fuel r offset)
calls_from_small size zero r offset room = tt
calls_from_small size (suc fuel) [] offset room = tt
calls_from_small size (suc fuel) (x ∷ r) offset room =
    let n : ℕ = length (take size (x ∷ r)) in
    (
      omega arith,
      calls_from_small size fuel (drop n (x ∷ r)) (offset + n)
          (omega (arith, length-take size (x ∷ r), length-drop n (x ∷ r), room)),
    )

pub calls_of_small :
    (content : Text) → length content < 2 ^ 63 → All (λ call. call.0 < 2 ^ 63) (calls_of content)
calls_of_small [] room = (omega arith, tt)
calls_of_small (x ∷ r) room =
    calls_from_small chunk_size (length (x ∷ r) + 1) (x ∷ r) 0 (omega arith)

pub calls_of-cons :
    (content : Text) → (call : Call) × (l : List Call) × (calls_of content ≡ call ∷ l)
calls_of-cons [] = ((0, [], true), [], refl)
calls_of-cons (x ∷ r) =
    let e : length (x ∷ r) + 1 ≡ suc (length (x ∷ r)) = omega arith in
    (_, _, ap (λ (n : ℕ). calls_from chunk_size n (x ∷ r) 0) e)

-- A file that is streamed makes of the receiver's files those with its content, with what the old
-- content had behind it.
pub foldl-step-calls_of :
    (path content : Text) (files : Files)
    → length content < 2 ^ 63
    → foldl step files (map message_of (contents path (calls_of content)))
      ≡ Dict.insert files path (content ++ drop (length content) (content_of files path))
foldl-step-calls_of path content files room =
    let written =
      sym (read_file_chunked-run_calls write_chunk content (content_of files path) (omega arith))
      ∙ read_file_chunked-write content (content_of files path) (omega arith) in
    let (call, l, e) = calls_of-cons content in
    ap (λ cs. foldl step files (map message_of (contents path cs))) e
    ∙ foldl-step-calls path call l files (rw e at (calls_of_small content room))
    ∙ ap (λ cs. Dict.insert files path (run_calls write_chunk cs (content_of files path)).1) (sym e)
    ∙ ap (λ o. Dict.insert files path o.1) written
