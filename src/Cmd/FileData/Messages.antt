-- ===== src/Cmd/FileData/Messages.antt =====
-- The messages by which a file is streamed, as one sequence that is written.
use mydrive.Base.{
  ◌^◌, ◌<◌, ◌≡◌, refl, ◌∙◌, List, [], ◌∷◌, ◌++◌, Text, ok, length, nat_eq, text_eq, arith,
  Result-cases, inl, inr,
}
use mydrive.Protocol.Message.{Content, message_of}
use mydrive.Protocol.Json.{Codec}
use mydrive.Netlayer.Stream.{Conn, write_message}
use mydrive.Netlayer.Stream.Transfer.{write_all}
use mydrive.Utils.Chunks.Calls.{Call, calls_of, run_calls, read_file_chunked-run_calls}
use mydrive.Cmd.FileData.{chunk_content, stream_file}

-- The messages for some calls.
abbrev pub contents : Text → List Call → List Content
contents path [] = []
contents path ((offset, chunk, final) ∷ l) = chunk_content path offset chunk final ∷ contents path l

module _ (j : Codec) where
  run_calls-write_all :
      (path : Text) (l : List Call) (c : Conn)
      → run_calls
          (λ offset chunk final c.
            write_message j (message_of (chunk_content path offset chunk final)) c)
          l
          c
        ≡ write_all j (contents path l) c
  unfolding write_all
  run_calls-write_all path [] c = refl
  run_calls-write_all path ((offset, chunk, final) ∷ l) c =
      let m = chunk_content path offset chunk final in
      let rest = run_calls-write_all path l (write_message j (message_of m) c).1 in
      elim (Result-cases (write_message j (message_of m) c).0) [
        | inl (u, e) ↦ ground (arith, rest)
        | inr (x, e) ↦ ground arith
      ]

  pub stream_file-write_all :
      (path content : Text) (c : Conn)
      → length content < 2 ^ 64
      → stream_file j path content c ≡ write_all j (contents path (calls_of content)) c
  unfolding stream_file
  stream_file-write_all path content c room =
      read_file_chunked-run_calls
        (λ offset chunk final c.
          write_message j (message_of (chunk_content path offset chunk final)) c)
        content c room
      ∙ run_calls-write_all path (calls_of content) c

  pub write_all-append_one :
      (ms : List Content) (m : Content) (c : Conn)
      → (write_all j ms c).0 ≡ ok tt
      → write_all j (ms ++ m ∷ []) c ≡ write_message j (message_of m) (write_all j ms c).1
  unfolding write_all
  write_all-append_one [] m c h = elim (Result-cases (write_message j (message_of m) c).0) [
    | inl (u, e) ↦ ground arith
    | inr (x, e) ↦ ground arith
  ]
  write_all-append_one (n ∷ ms) m c h = elim (Result-cases (write_message j (message_of n) c).0) [
    | inl (u, e) ↦ ground (arith, write_all-append_one ms m (write_message j (message_of n) c).1)
    | inr (x, e) ↦ absurd (ground arith)
  ]
