-- ===== src/Netlayer/Server/Broadcast.antt =====
-- netlayer/server.go: whom a broadcast reaches.
use mydrive.Base.{
  ℕ, ◌≡◌, ap, ◌∙◌, some, [], ◌∷◌, ◌++◌, not, ◌||◌, Text, ok, arith, ◌==◌, nat_eq, if◌then◌else◌,
  append-nil, Bool-cases, inl, inr,
}
use mydrive.Base.Dict
use mydrive.Base.Dict.{Dict}
use mydrive.Protocol.Message.{Message}
use mydrive.Protocol.Json.{Codec}
use mydrive.Protocol.Codec.Frame.{encode}
use mydrive.Netlayer.Stream.{write_message}
use mydrive.Netlayer.Server.{Server, ClientSession, get_client, send, send_others, broadcast}
use mydrive.Netlayer.Server.Registry.{HasIds, IsValid}

-- The session with more bytes written to it.
abbrev pub with_output : Text → ClientSession → ClientSession
with_output b x = record x { conn = record x.conn { output = x.conn.output ++ b } }

module _ (j : Codec) (sender : ℕ) (m : Message) (b : Text) (frame : encode j m ≡ ok b) where
  -- What a broadcast writes to a session.
  abbrev reached : ClientSession → Text
  reached x = if (x.id == sender) || not x.conn.is_open then [] else b

  send-reached :
      (x : ClientSession)
      → (if not (x.id == sender) then send j m x else x) ≡ with_output (reached x) x
  unfolding send write_message
  send-reached x = ground (arith, append-nil x.conn.output)

  get-send_others :
      (clients : Dict ℕ ClientSession) (id : ℕ) (x : ClientSession)
      → Dict.get clients id ≡ some x
      → Dict.get (send_others j sender m clients) id ≡ some (with_output (reached x) x)
  unfolding send_others Dict.get
  get-send_others [] id x h = absurd (ground arith)
  get-send_others ((k, y) ∷ clients) id x h = elim (Bool-cases (k == id)) [
    | inl e ↦ let y_eq : y ≡ x = ground arith in rw e (rw (send-reached y, y_eq))
    | inr e ↦ rw e (get-send_others clients id x (ground arith))
  ]

  id-get :
      (clients : Dict ℕ ClientSession) (id : ℕ) (x : ClientSession)
      → HasIds clients
      → Dict.get clients id ≡ some x
      → x.id ≡ id
  unfolding Dict.get
  id-get [] id x h e = absurd (ground arith)
  id-get ((k, y) ∷ clients) id x h e = ground (arith, id-get clients id x h.1)

  -- In a valid registry, and for a message that can be encoded, a broadcast writes the frame to
  -- every connected client but the sender whose connection is open, one time each, and changes
  -- nothing else of any session: a client that cannot be written to does not keep the message from
  -- the others.
  pub get_client-broadcast :
      (s : Server) (id : ℕ) (x : ClientSession)
      → IsValid s
      → get_client id s ≡ some x
      → get_client id (broadcast j sender m s)
        ≡ some (with_output (if (id == sender) || not x.conn.is_open then [] else b) x)
  unfolding get_client broadcast
  get_client-broadcast s id x valid h =
      get-send_others s.clients id x h
      ∙ ap (λ (k : ℕ). some (with_output (if (k == sender) || not x.conn.is_open then [] else b) x))
          (id-get s.clients id x valid.ids h)
