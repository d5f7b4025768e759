-- ===== src/Cmd/Serve/Progress.antt =====
-- The main loop of handleClient, of cmd/server/main.go: each round takes bytes away from the
-- connection of its session, and no handler gives any back.
use mydrive.Base.{
  ℕ, zero, suc, ◌<◌, ◌≡◌, ◌≢◌, refl, ap, ◌∙◌, Option, none, some, [], ◌∷◌, Bool, true, false, Text,
  Result, ok, length, arith, ◌==◌, nat_eq, if◌then◌else◌, Option-cases, Result-cases, Bool-cases,
  inl, inr,
}
use mydrive.Base.Dict
use mydrive.Base.Dict.{Dict, get-insert}
use mydrive.Protocol.Msg
use mydrive.Protocol.Message.{Message, FileEntry, FileDataChunk, message_of, pong}
use mydrive.Protocol.Json.{Codec}
use mydrive.Protocol.Codec.Parse.{Error}
use mydrive.Protocol.Codec.Frame.{encode, decode_frame}
use mydrive.Netlayer.Stream.{Conn, read_message, write_message}
use mydrive.Netlayer.Stream.Transfer.{read_message-eq-decode_frame}
use mydrive.Netlayer.Server.{ClientSession, Server, send, send_others, broadcast}
use mydrive.Cmd.FileData.Total.{decode_frame_progress}
use mydrive.Utils.Fs.{delete_entry, write_chunk, ensure_dir}
use mydrive.Sync.OnDisk.{root_of, path_in}
use mydrive.Cmd.Serve.{
  World, HandleError, on_payload, answer_ping, apply_file_create, apply_file_modify, handle_create,
  handle_modify, handle_delete, handle_data, handle_message, write_to, read_from, after_reading,
  serve,
}

-- What a client has sent and was not read yet, if its session is registered.
abbrev pub input_of : Option ClientSession → Option Text
input_of none = none
input_of (some x) = some x.conn.input

abbrev pub pending : ℕ → Dict ℕ ClientSession → Option Text
pending id clients = input_of (Dict.get clients id)

-- A session that is put back under its number with the same input
pending-insert :
    (clients : Dict ℕ ClientSession) (to : ℕ) (x x' : ClientSession) (id : ℕ)
    → Dict.get clients to ≡ some x
    → x'.conn.input ≡ x.conn.input
    → pending id (Dict.insert clients to x') ≡ pending id clients
pending-insert clients to x x' id e same = elim (Bool-cases (to == id)) [
  | inr k ↦ ap input_of (get-insert clients to x' id ∙ rw k refl)
  | inl k ↦
      let found : Dict.get clients id ≡ some x = rw ((nat_eq.beq_iff to id).0 k) at e in
      ap input_of (get-insert clients to x' id) ∙ rw (k, found) (ap some same)
]

module _ (j : Codec) where
  pub input-write_message : (m : Message) (c : Conn) → (write_message j m c).1.input ≡ c.input
  unfolding write_message
  input-write_message m c = elim (Result-cases (encode j m)) [
    | inr (x, e) ↦ rw (write_message, e) refl
    | inl (b, e) ↦ elim (Bool-cases c.is_open) [
      | inl o ↦ rw (write_message, e, o) refl
      | inr o ↦ rw (write_message, e, o) refl
    ]
  ]

  pending-send_others :
      (sender : ℕ) (m : Message) (clients : Dict ℕ ClientSession) (id : ℕ)
      → pending id (send_others j sender m clients) ≡ pending id clients
  unfolding send_others Dict.get send
  pending-send_others sender m [] id = refl
  pending-send_others sender m ((k, x) ∷ clients) id = elim (Bool-cases (k == id)) [
    | inr e ↦ rw (pending, send_others, e) (pending-send_others sender m clients id)
    | inl e ↦ elim (Bool-cases (x.id == sender)) [
      | inl s ↦ rw (pending, send_others, e, s) refl
      | inr s ↦ rw (pending, send_others, e, s) (ap some (input-write_message m x.conn))
    ]
  ]

  pending-write_to :
      (to : ℕ) (m : Message) (s : Server) (id : ℕ)
      → pending id (write_to j to m s).1.clients ≡ pending id s.clients
  unfolding write_to
  pending-write_to to m s id = elim (Option-cases (Dict.get s.clients to)) [
    | inl e ↦ rw (write_to, e) refl
    | inr (x, e) ↦
        let x' : ClientSession = record x { conn = (write_message j m x.conn).1 } in
        rw (write_to, e) (pending-insert s.clients to x x' id e (input-write_message m x.conn))
  ]

module _ (j : Codec) where
  read_from_lem :
      (id : ℕ) (s : Server) (x : ClientSession) (got : Result Error Message) (c : Conn)
      → Dict.get s.clients id ≡ some x
      → read_message j x.conn ≡ (got, c)
      → read_from j id s
        ≡ (some got, record s { clients = Dict.insert s.clients id (record x { conn = c }) })
  unfolding read_from
  read_from_lem id s x got c e h = rw (read_from, e, h) refl

-- A handler that keeps what is pending, for every session
abbrev Keeps : World → Result HandleError (Unit {0}) × World → Type 0
Keeps w o = (id : ℕ) → pending id o.1.server.clients ≡ pending id w.server.clients

-- Both branches of a test keep it.
if-Keeps :
    (b : Bool) (w : World) (x y : Result HandleError (Unit {0}) × World)
    → Keeps w x
    → Keeps w y
    → Keeps w (if b then x else y)
if-Keeps true w x y h k = h
if-Keeps false w x y h k = k

on_payload-Keeps :
    {A : Type 0} (o : Option A) (next : A → World → Result HandleError (Unit {0}) × World)
    (w : World)
    → ((a : A) → Keeps w (next a w))
    → Keeps w (on_payload o next w)
on_payload-Keeps none next w h = λ id. refl
on_payload-Keeps (some a) next w h = h a

module _ (j : Codec) (sha256 : Text → Text) where
  handle_create-Keeps :
      (entry : FileEntry) (now : ℕ) (w : World) → Keeps w (handle_create sha256 entry now w)
  unfolding handle_create
  handle_create-Keeps entry now w =
      elim (Result-cases (apply_file_create (root_of w.engine) entry w.disk).0) [
        | inl (u, e) ↦ rw (handle_create, e) (λ id. refl)
        | inr (x, e) ↦ rw (handle_create, e) (λ id. refl)
      ]

  handle_modify-Keeps :
      (entry : FileEntry) (now : ℕ) (w : World) → Keeps w (handle_modify sha256 entry now w)
  unfolding handle_modify
  handle_modify-Keeps entry now w =
      elim (Result-cases (apply_file_modify (root_of w.engine) entry w.disk).0) [
        | inl (u, e) ↦ rw (handle_modify, e) (λ id. refl)
        | inr (x, e) ↦ rw (handle_modify, e) (λ id. refl)
      ]

  handle_delete-Keeps :
      (sender : ℕ) (m : Message) (now : ℕ) (w : World)
      → Keeps w (handle_delete j sha256 sender m now w)
  unfolding handle_delete broadcast
  handle_delete-Keeps sender m now w =
      elim (Result-cases (delete_entry (path_in w.engine m.file_delete) w.disk).0) [
        | inl (u, e) ↦ rw (handle_delete, e) (pending-send_others j sender m w.server.clients)
        | inr (x, e) ↦ rw (handle_delete, e) (λ id. refl)
      ]

  handle_data-Keeps :
      (sender : ℕ) (m : Message) (chunk : FileDataChunk) (w : World)
      → Keeps w (handle_data j sender m chunk w)
  unfolding handle_data broadcast
  handle_data-Keeps sender m chunk w =
      let p = path_in w.engine chunk.path in
      elim (Result-cases (write_chunk p chunk.bytes chunk.offset (ensure_dir p w.disk).1).0) [
        | inl (u, e) ↦ rw (handle_data, e) (pending-send_others j sender m w.server.clients)
        | inr (x, e) ↦ rw (handle_data, e) (λ id. refl)
      ]

  -- Handling a message leaves what the clients have sent, and which sessions there are.
  handle_message-Keeps :
      (id : ℕ) (m : Message) (now : ℕ) (w : World) → Keeps w (handle_message j sha256 id m now w)
  unfolding handle_message
  handle_message-Keeps id m now w =
      if-Keeps (m.msg_type == Msg.file_create) w
        (on_payload m.file_create (λ entry. handle_create sha256 entry now) w) _
        (on_payload-Keeps m.file_create (λ entry. handle_create sha256 entry now) w
          (λ entry. handle_create-Keeps entry now w))
        (if-Keeps (m.msg_type == Msg.file_modify) w
          (on_payload m.file_modify (λ entry. handle_modify sha256 entry now) w) _
          (on_payload-Keeps m.file_modify (λ entry. handle_modify sha256 entry now) w
            (λ entry. handle_modify-Keeps entry now w))
          (if-Keeps (m.msg_type == Msg.file_delete) w (handle_delete j sha256 id m now w) _
            (handle_delete-Keeps id m now w)
            (if-Keeps (m.msg_type == Msg.file_data) w
              (on_payload m.file_data (handle_data j id m) w) _
              (on_payload-Keeps m.file_data (handle_data j id m) w
                (λ chunk. handle_data-Keeps id m chunk w))
              (if-Keeps (m.msg_type == Msg.ping) w (answer_ping j id w) (ok tt, w)
                (pending-write_to j id (message_of pong) w.server) (λ id. refl)))))

  abbrev after_read : ℕ → ClientSession → Conn → World → World
  after_read id x c w = record w {
    server = record w.server { clients = Dict.insert w.server.clients id (record x { conn = c }) };
  }

  -- A round of the loop, by what is read
  serve-suc :
      (rounds id now : ℕ) (w : World) (x : ClientSession) (got : Result Error Message) (c : Conn)
      → Dict.get w.server.clients id ≡ some x
      → read_message j x.conn ≡ (got, c)
      → serve j sha256 (suc rounds) id now w
        ≡ after_reading j sha256
            (serve j sha256 rounds id now)
            id
            now
            w
            (some got, (after_read id x c w).server)
  unfolding serve
  serve-suc rounds id now w x got c e h =
      ap (after_reading j sha256 (serve j sha256 rounds id now) id now w)
        (read_from_lem j id w.server x got c e h)

  -- A session that is registered: with more rounds than bytes that its client has sent and the server
  -- has not read, the main loop ends with an error of the reading.
  pub serve_total :
      (rounds id now : ℕ) (w : World) (t : Text)
      → pending id w.server.clients ≡ some t
      → length t < rounds
      → (serve j sha256 rounds id now w).0 ≢ none
  unfolding serve
  serve_total zero id now w t h enough = absurd (omega arith)
  serve_total (suc rounds) id now w t h enough =
      elim (Option-cases (Dict.get w.server.clients id)) [
        | inl e ↦ absurd (ground (arith, e, h))
        | inr (x, e) ↦
            let input : x.conn.input ≡ t = ground (arith, e, h) in
            let got = (decode_frame j x.conn.input).0 in
            let r = (decode_frame j x.conn.input).1 in
            let c : Conn = record x.conn { input = r } in
            let round =
              serve-suc rounds id now w x got c e (read_message-eq-decode_frame j x.conn) in
            elim (Result-cases (decode_frame j x.conn.input).0) [
              | inr (y, k) ↦ rw (round, k) (λ n. absurd (ground arith))
              | inl (m, k) ↦
                  let w' = after_read id x c w in
                  let left : pending id w'.server.clients ≡ some r =
                    ap input_of (get-insert w.server.clients id (record x { conn = c }) id)
                    ∙ ground (arith, nat_eq.beq_iff id id) in
                  let less = decode_frame_progress j x.conn.input m k in
                  rw (round, k)
                    (serve_total rounds id now (handle_message j sha256 id m now w').1 r
                      (handle_message-Keeps id m now w' id ∙ left)
                      (omega (arith, less, ap length input, enough)))
            ]
      ]
