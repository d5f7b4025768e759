-- ===== src/Cmd/Client/Received.antt =====
-- The loop of runSession for the contents of the initial sync, on the whole state of the client.
use mydrive.Base.{
  ℕ, suc, ◌^◌, ◌<◌, ◌≡◌, refl, sym, ap, ◌∙◌, none, some, List, [], ◌∷◌, ◌++◌, Bool, true, false,
  Text, Result, ok, err, length, drop, map, All, ◌==◌, nat_eq, text_eq, arith, Option-cases, inl,
  inr,
}
use mathlib.Core.Path.{subst}
use mydrive.Protocol.Msg
use mydrive.Protocol.Message.{Message, AckPayload, message_of, ack}
use mydrive.Protocol.Json.{Codec, IsLawful}
use mydrive.Protocol.Codec.Parse.{Error, read_header, eof}
use mydrive.Protocol.Codec.RoundTrip.{IsPlain}
use mydrive.Netlayer.Stream.{Conn, read_message, write_message}
use mydrive.Netlayer.Stream.Transfer.{read_all, write_all, read_all-write_all}
use mydrive.Netlayer.Client.{Client, receive}
use mydrive.Utils.Chunks.Calls.{Call, calls_of}
use mydrive.Os.{FilePath, path_eq, node_at, is_dir_node, readable}
use mydrive.Os.Writes.{Wrote, text_of}
use mydrive.Sync.OnDisk.{path_in}
use mydrive.Cmd.FileData.{chunk_content, stream_file}
use mydrive.Cmd.FileData.Messages.{contents, stream_file-write_all, write_all-append_one}
use mydrive.Cmd.FileData.Transfer.{
  read_all-eq-cons, read_all-zero, map-append_one, length-contents, length-append_one,
}
use mydrive.Cmd.Client.{World, ignoring, receive_chunk, handle_server_message}
use mydrive.Cmd.Client.Run.{
  receive_sync_data, Step, ◌>>=◌, on_client, take_message, receive_contents,
}
use mydrive.Cmd.Client.Contents.{chunk_on_disk, calls_on_disk, calls_on_disk-calls_of}

-- A world with some connection
abbrev pub with_conn : Conn → World → World
with_conn c w = record w { client = record w.client { conn = some c } }

pub ignoring_keeps :
    (path : Text) (now : ℕ) (w : World)
    → ((ignoring path now w).engine ≡ w.engine) × ((ignoring path now w).client ≡ w.client)
unfolding ignoring
ignoring_keeps path now w = elim (Option-cases w.monitor) [
  | inl e ↦ rw (ignoring, e) (refl, refl)
  | inr (m, e) ↦ rw (ignoring, e) (refl, refl)
]

module _ (j : Codec) (sha256 : Text → Text) where
  -- A message of FILE_DATA changes the disk, and neither the engine nor the client.
  handle_server_message-chunk :
      (path : Text) (offset : ℕ) (chunk : Text) (final : Bool) (now : ℕ) (w : World)
      → let w' =
          (handle_server_message j sha256
            (message_of (chunk_content path offset chunk final))
            now
            w).1 in
        (w'.disk ≡ chunk_on_disk (path_in w.engine path) chunk offset w.disk)
        × (w'.engine ≡ w.engine)
        × (w'.client ≡ w.client)
  unfolding handle_server_message receive_chunk
  handle_server_message-chunk path offset chunk final now w =
      let (engine, client) = ignoring_keeps path now w in (refl, engine, client)

  pub receive_lem :
      (c : Client) (d d' : Conn) (r : Result Error Message)
      → c.conn ≡ some d
      → read_message j d ≡ (r, d')
      → receive j c ≡ (r, record c { conn = some d' })
  unfolding receive
  receive_lem c d d' r e h =
      subst
        (λ o.
          (elim o as (λ _. Result Error Message × Client) [
            | none ↦ (err (read_header eof), c)
            | some conn ↦
                let (r, conn') = read_message j conn in (r, record c { conn = some conn' })
          ])
          ≡ (r, record c { conn = some d' }))
        (sym e) (ap (λ o. (o.0, record c { conn = some o.1 })) h)

  -- The next message, if it can be read
  on_client-receive :
      (w : World) (d d' : Conn) (m : Message)
      → w.client.conn ≡ some d
      → read_message j d ≡ (ok m, d')
      → on_client (receive j) receive_sync_data w ≡ (ok m, with_conn d' w)
  on_client-receive w d d' m e h =
      ap (λ o. on_client (λ _. o) receive_sync_data w) (receive_lem w.client d d' (ok m) e h)

  pub receive_contents-suc :
      (fuel now : ℕ) (w : World) (d d' : Conn) (m : Message)
      → w.client.conn ≡ some d
      → read_message j d ≡ (ok m, d')
      → receive_contents j sha256 (suc fuel) now w
        ≡ take_message j sha256 (receive_contents j sha256 fuel now) now m (with_conn d' w)
  unfolding receive_contents
  receive_contents-suc fuel now w d d' m e h =
      ap (λ o. ((λ _. o) >>= take_message j sha256 (receive_contents j sha256 fuel now) now) w)
        (on_client-receive w d d' m e h)

  pub take_message-ack :
      (rest : Step (Unit {0})) (now : ℕ) (m : Message) (w : World)
      → (m.msg_type == Msg.ack) ≡ true
      → take_message j sha256 rest now m w ≡ (ok tt, w)
  unfolding take_message
  take_message-ack rest now m w h = rw (take_message, h) refl

  -- Chunks of one file before an acknowledgement are all written, and it ends the loop.
  receive_contents-read_all :
      (path : Text) (l : List Call) (a : Message) (d d' : Conn) (now : ℕ) (w : World)
      → (a.msg_type == Msg.ack) ≡ true
      → w.client.conn ≡ some d
      → read_all j (suc (length l)) d ≡ (ok (map message_of (contents path l) ++ a ∷ []), d')
      → let (r, w') = receive_contents j sha256 (suc (length l)) now w in
        (r ≡ ok tt)
        × (w'.client.conn ≡ some d')
        × (w'.disk ≡ calls_on_disk (path_in w.engine path) l w.disk)
  unfolding take_message receive_contents
  receive_contents-read_all path [] a d d' now w last conn h =
      let (got, done) = read_all-eq-cons j 0 a [] d d' h in
      let read : read_message j d ≡ (ok a, d') =
        ap (λ r. (r, (read_message j d).1)) got
        ∙ ap (λ x. (ok a, x)) (read_all-zero j [] (read_message j d).1 d' done) in
      rw
        (
          receive_contents-suc 0 now w d d' a conn read,
          take_message-ack (receive_contents j sha256 0 now) now a (with_conn d' w) last,
        )
        (refl, refl, refl)
  receive_contents-read_all path ((offset, chunk, final) ∷ l) a d d' now w last conn h =
      let m = message_of (chunk_content path offset chunk final) in
      let (got, later) =
        read_all-eq-cons j (suc (length l)) m (map message_of (contents path l) ++ a ∷ []) d d' h in
      let d₁ = (read_message j d).1 in
      let w₁ = with_conn d₁ w in
      let w₂ = (handle_server_message j sha256 m now w₁).1 in
      let (disk, engine, client) = handle_server_message-chunk path offset chunk final now w₁ in
      let conn' : w₂.client.conn ≡ some d₁ = ap (λ c. c.conn) client in
      let (r, c, written) = receive_contents-read_all path l a d₁ d' now w₂ last conn' later in
      let first = receive_contents-suc (suc (length l)) now w d d₁ m conn (ap (λ r. (r, d₁)) got) in
      rw first (
        r,
        c,
        written
            ∙ ap (λ e. calls_on_disk (path_in e path) l w₂.disk) engine
            ∙ ap (calls_on_disk (path_in w.engine path) l) disk,
      )

  -- With a lawful codec, a file of fewer than 2 ^ 63 bytes and plain payloads: the server streams the
  -- file on a fresh connection and sends an acknowledgement behind it, all without an error, and
  -- the client reads those bytes. In the client's base directory the directory of the file is there,
  -- and the path is not one of a directory. Then the loop of the client ends without an error and
  -- leaves the bytes behind unread, and on its disk the file has the content of the streamed one, with
  -- what its old content had behind that length; every other file keeps its
  -- content, and the same paths are directories; attributes and times are not spoken of.
  pub receive_contents-stream_file :
      IsLawful j
      → (path content r : Text) (a : AckPayload) (c d : Conn) (now : ℕ) (w : World) (name : Text)
        (q : FilePath)
      → path_in w.engine path ≡ name ∷ q
      → is_dir_node (node_at w.disk q) ≡ true
      → is_dir_node (node_at w.disk (name ∷ q)) ≡ false
      → length content < 2 ^ 63
      → All (IsPlain j) (contents path (calls_of content) ++ ack a ∷ [])
      → c.output ≡ []
      → (stream_file j path content c).0 ≡ ok tt
      → (write_message j (message_of (ack a)) (stream_file j path content c).1).0 ≡ ok tt
      → w.client.conn ≡ some d
      → d.input
        ≡ (write_message j (message_of (ack a)) (stream_file j path content c).1).1.output ++ r
      → let (r', w') = receive_contents j sha256 (suc (length (calls_of content))) now w in
        (r' ≡ ok tt)
        × (w'.client.conn ≡ some (record d { input = r }))
        × Wrote
            (name ∷ q)
            (content ++ drop (length content) (text_of (readable (node_at w.disk (name ∷ q)))))
            w.disk
            w'.disk
  receive_contents-stream_file L path content r a c d now w name q place above free room plain fresh
        streamed acked conn e =
      let ms = contents path (calls_of content) in
      let all : stream_file j path content c ≡ write_all j ms c =
        stream_file-write_all j path content c (omega arith) in
      let last = write_all-append_one j ms (ack a) c (sym (ap (λ o. o.0) all) ∙ streamed) in
      let whole = last ∙ ap (λ o. write_message j (message_of (ack a)) o.1) (sym all) in
      let got =
        read_all-write_all j L (ms ++ ack a ∷ []) c d r plain fresh (ap (λ o. o.0) whole ∙ acked)
          (e ∙ ap (λ o. o.1.output ++ r) (sym whole)) in
      let count =
        length-append_one ms (ack a)
        ∙ ap (λ (n : ℕ). suc n) (length-contents path (calls_of content)) in
      let got' =
        ap (λ (n : ℕ). read_all j n d) (sym count)
        ∙ got
        ∙ ap (λ l. (ok l, record d { input = r })) (map-append_one ms (ack a)) in
      let (done, left, disk) =
        receive_contents-read_all path (calls_of content) (message_of (ack a)) d
          (record d { input = r }) now w refl conn got' in
      let wrote = calls_on_disk-calls_of name q content w.disk above free room in
      (
        done,
        left,
        subst
            (λ d'.
              Wrote (name ∷ q)
                (content ++ drop (length content) (text_of (readable (node_at w.disk (name ∷ q)))))
                w.disk d')
            (sym (disk ∙ ap (λ p. calls_on_disk p (calls_of content) w.disk) place)) wrote,
      )
