-- ===== src/Netlayer/Server.antt =====
-- netlayer/server.go: the registry of connected clients. Its lock makes each operation one step; a
-- broadcast picks the sessions under the lock and writes to them behind it, which is one step here.
-- The handler of a session runs between `accept` and `disconnect`.
pub mod Registry
pub mod Broadcast
use mydrive.Base.{
  ℕ, ◌+◌, ◌%◌, ◌^◌, Option, none, some, List, [], ◌∷◌, Bool, true, false, not, Text, Result, ok,
  err, ◌==◌, nat_eq, if◌then◌else◌,
}
use mydrive.Base.Dict
use mydrive.Base.Dict.{Dict}
use mydrive.Protocol.Message.{Message}
use mydrive.Protocol.Json.{Codec}
use mydrive.Netlayer.Stream.{Conn, WriteError, new_conn, close, write_message}

pub record ClientSession : Type 0 where
  pub id : ℕ
  pub conn : Conn
  pub sync_dir : Text

pub record Server : Type 0 where
  pub addr : Text
  pub clients : Dict ℕ ClientSession
  pub next_id : ℕ
  -- whether there is a listener that is open
  pub listening : Bool

-- NewServer
unfoldable pub new_server : Text → Server
new_server addr = record { addr = addr; clients = []; next_id = 1; listening = false }

-- The start of ListenAndServe, once the socket is open.
unfoldable pub listen : Server → Server
listen s = record s { listening = true }

abbrev pub new_session : ℕ → Text → ClientSession
new_session id input = record { id = id; conn = new_conn input; sync_dir = [] }

-- The loop of ListenAndServe, for a connection that was accepted: what its peer sends is `input`.
-- nextID is a uint32.
unfoldable pub accept : Text → Server → Server
accept input s = record s {
  clients = Dict.insert s.clients s.next_id (new_session s.next_id input);
  next_id = (s.next_id + 1) % 2 ^ 32;
}

-- What ListenAndServe does when the handler of a session returns: the connection is closed, and the
-- session leaves the registry.
unfoldable pub disconnect : ClientSession → Server → ClientSession × Server
disconnect session s = (
  record session { conn = close session.conn },
  record s { clients = Dict.erase s.clients session.id },
)

-- (*Server).Close
unfoldable pub close_server : Server → Server
close_server s = record s { listening = false }

-- (*Server).GetClients
unfoldable pub get_clients : Server → List ClientSession
get_clients s = Dict.values s.clients

-- (*Server).GetClient
unfoldable pub get_client : ℕ → Server → Option ClientSession
get_client id s = Dict.get s.clients id

module _ (j : Codec) where
  -- A message to one session; the error is only printed.
  unfoldable pub send : Message → ClientSession → ClientSession
  send m session = record session { conn = (write_message j m session.conn).1 }

  -- The sessions after a message was written to all of them but that of the sender. The sessions
  -- are shared by pointer, so the registry sees the writes.
  unfoldable pub send_others : ℕ → Message → Dict ℕ ClientSession → Dict ℕ ClientSession
  send_others sender m [] = []
  send_others sender m ((k, session) ∷ rest) =
      (k, if not (session.id == sender) then send m session else session)
      ∷ send_others sender m rest

  -- (*Server).Broadcast
  unfoldable pub broadcast : ℕ → Message → Server → Server
  broadcast sender m s = record s { clients = send_others sender m s.clients }
