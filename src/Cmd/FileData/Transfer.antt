-- ===== src/Cmd/FileData/Transfer.antt =====
-- The transfer of the content of a file: what one side streams, the other has.
use mydrive.Base.{
  ℕ, suc, ◌^◌, ◌<◌, ◌≡◌, refl, sym, ap, ◌∙◌, some, List, [], ◌∷◌, ◌++◌, true, false, Text, ok,
  length, drop, map, All, ◌==◌, nat_eq, text_eq, arith, Result-cases, inl, inr,
}
use mathlib.Core.List.{foldl}
use mydrive.Base.Dict
use mydrive.Base.Dict.{Dict, get-insert, insert-insert}
use mydrive.Protocol.Msg
use mydrive.Protocol.Message.{Message, Content, AckPayload, message_of, ack}
use mydrive.Protocol.Json.{Codec, IsLawful}
use mydrive.Protocol.Codec.RoundTrip.{IsPlain}
use mydrive.Netlayer.Stream.{Conn, read_message, write_message}
use mydrive.Netlayer.Stream.Transfer.{write_all, read_all, read_all-write_all}
use mydrive.Utils.Chunks.Calls.{Call, calls_of}
use mydrive.Cmd.FileData.{Files, content_of, stream_file, receive_data}
use mydrive.Cmd.FileData.Messages.{contents, stream_file-write_all, write_all-append_one}
use mydrive.Cmd.FileData.Handling.{step, foldl-step-calls_of}

module _ (j : Codec) where
  pub read_all-eq-cons :
      (n : ℕ) (m : Message) (ms : List Message) (d d' : Conn)
      → read_all j (suc n) d ≡ (ok (m ∷ ms), d')
      → ((read_message j d).0 ≡ ok m) × (read_all j n (read_message j d).1 ≡ (ok ms, d'))
  unfolding read_all
  read_all-eq-cons n m ms d d' h = elim (Result-cases (read_message j d).0) [
    | inr (x, e) ↦ absurd (ground arith)
    | inl (m', e) ↦ elim (Result-cases (read_all j n (read_message j d).1).0) [
      | inr (x, e') ↦ absurd (ground arith)
      | inl (ms', e') ↦ ground arith
    ]
  ]

  pub read_all-zero : (ms : List Message) (d d' : Conn) → read_all j 0 d ≡ (ok ms, d') → d ≡ d'
  unfolding read_all
  read_all-zero ms d d' h = ap (λ o. o.1) h

  -- Messages before an acknowledgement are all handled, and it ends the loop.
  receive_data-read_all :
      (front : List Message) (a : Message) (d d' : Conn) (files : Files)
      → All (λ m. (m.msg_type == Msg.ack) ≡ false) front
      → (a.msg_type == Msg.ack) ≡ true
      → read_all j (suc (length front)) d ≡ (ok (front ++ a ∷ []), d')
      → receive_data j (suc (length front)) d files ≡ (some (ok tt), d', foldl step files front)
  unfolding receive_data
  receive_data-read_all [] a d d' files plain last h =
      let (got, done) = read_all-eq-cons 0 a [] d d' h in
      let stays : (read_message j d).1 ≡ d' = read_all-zero [] (read_message j d).1 d' done in
      ground arith
  receive_data-read_all (m ∷ front) a d d' files plain last h =
      let (got, later) = read_all-eq-cons (suc (length front)) m (front ++ a ∷ []) d d' h in
      let rest =
        receive_data-read_all front a (read_message j d).1 d' (step files m) plain.1 last later in
      ground (arith, plain.0)

not-ack-contents :
    (path : Text) (l : List Call)
    → All (λ m. (m.msg_type == Msg.ack) ≡ false) (map message_of (contents path l))
not-ack-contents path [] = tt
not-ack-contents path (call ∷ l) = (refl, not-ack-contents path l)

pub map-append_one :
    (ms : List Content) (m : Content)
    → map message_of (ms ++ m ∷ []) ≡ map message_of ms ++ message_of m ∷ []
map-append_one [] m = refl
map-append_one (n ∷ ms) m = ap (λ l. message_of n ∷ l) (map-append_one ms m)

pub length-contents :
    (path : Text) (l : List Call) → length (map message_of (contents path l)) ≡ length l
length-contents path [] = refl
length-contents path (call ∷ l) = ap (λ (n : ℕ). suc n) (length-contents path l)

pub length-append_one :
    (ms : List Content) (m : Content) → length (ms ++ m ∷ []) ≡ suc (length (map message_of ms))
length-append_one [] m = refl
length-append_one (n ∷ ms) m = ap (λ (k : ℕ). suc k) (length-append_one ms m)

module _ (j : Codec) where
  -- With a lawful codec, a file of fewer than 2 ^ 63 bytes and plain payloads: one side streams
  -- the file on a fresh connection and sends an acknowledgement behind it, all without an error,
  -- and the other reads those bytes. Its loop ends with success, with the bytes behind them
  -- unread, and of its files that at the path has the content of the streamed one, with what its
  -- old content had behind that length. A message for each call of ReadFileChunked and one more
  -- are read.
  pub receive_data-stream_file :
      IsLawful j
      → (path content r : Text) (a : AckPayload) (c d : Conn) (files : Files)
      → length content < 2 ^ 63
      → All (IsPlain j) (contents path (calls_of content) ++ ack a ∷ [])
      → c.output ≡ []
      → (stream_file j path content c).0 ≡ ok tt
      → (write_message j (message_of (ack a)) (stream_file j path content c).1).0 ≡ ok tt
      → d.input
        ≡ (write_message j (message_of (ack a)) (stream_file j path content c).1).1.output ++ r
      → receive_data j (suc (length (calls_of content))) d files ≡ (
        some (ok tt),
        record d { input = r },
        Dict.insert files path (content ++ drop (length content) (content_of files path)),
      )
  receive_data-stream_file L path content r a c d files room plain fresh streamed acked e =
      let ms = contents path (calls_of content) in
      let all : stream_file j path content c ≡ write_all j ms c =
        stream_file-write_all j path content c (omega arith) in
      let last = write_all-append_one j ms (ack a) c (sym (ap (λ o. o.0) all) ∙ streamed) in
      let whole = last ∙ ap (λ o. write_message j (message_of (ack a)) o.1) (sym all) in
      let got =
        read_all-write_all j L (ms ++ ack a ∷ []) c d r plain fresh (ap (λ o. o.0) whole ∙ acked)
          (e ∙ ap (λ o. o.1.output ++ r) (sym whole)) in
      let got' =
        ap (λ (n : ℕ). read_all j n d) (sym (length-append_one ms (ack a)))
        ∙ got
        ∙ ap (λ l. (ok l, record d { input = r })) (map-append_one ms (ack a)) in
      ap (λ (n : ℕ). receive_data j (suc n) d files) (sym (length-contents path (calls_of content)))
      ∙ receive_data-read_all j (map message_of ms) (message_of (ack a)) d (record d { input = r })
          files (not-ack-contents path (calls_of content)) refl got'
      ∙ ap (λ f. (some (ok tt), record d { input = r }, f))
          (foldl-step-calls_of path content files room)
