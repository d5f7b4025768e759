-- ===== src/Netlayer/Client.antt =====
-- netlayer/client.go: the client's end of a connection. What the network and the cancelling of the
-- context do while Connect tries is a list of attempts. Times are in nanoseconds.
pub mod Backoff
pub mod Hello
use mydrive.Base.{
  ℕ, ◌+◌, ◌*◌, ◌%◌, ◌^◌, Option, none, some, List, [], ◌∷◌, Bool, true, false, not, Text, Result,
  ok, err, ltb, ◌==◌, nat_eq, if◌then◌else◌,
}
use mydrive.Protocol.Msg
use mydrive.Protocol.Message.{
  Message, HelloAckPayload, SyncTree, FileEntry, FileDataChunk, message_of, hello, ping, pong, ack,
  sync_init, file_create, file_modify, file_delete, file_data,
}
use mydrive.Protocol.FileType.{flag_final_chunk}
use mydrive.Utils.Chunks.{read_file_chunked}
use mydrive.Protocol.Json.{Codec}
use mydrive.Protocol.Codec.Parse.{Error, read_header, eof}
use mydrive.Netlayer.Stream.{Conn, WriteError, new_conn, close, write_message, read_message}

abbrev pub second : ℕ
second = 1000000000

pub record Client : Type 0 where
  pub addr : Text
  pub conn : Option Conn
  pub reconnect : Bool
  pub max_delay : ℕ

-- NewClient
unfoldable pub new_client : Text → Client
new_client addr = record { addr = addr; conn = none; reconnect = true; max_delay = 60 * second }

-- One round of the loop of Connect: the context is done at its start, the dialling succeeds to a
-- peer that will send some bytes, or it fails; then the wait runs out, or the context ends it.
pub data Attempt : Type 0 where
  cancelled : Attempt
  dialled : Text → Attempt
  refused : Attempt
  refused_cancelled : Attempt

-- How Connect ended: `trying` if the attempts ran out before it did.
pub data Connected : Type 0 where
  connected context_done connect_failed trying : Connected

pub record Connecting : Type 0 where
  pub client : Client
  pub result : Connected
  pub waits : List ℕ

-- `delay = delay * 2; if delay > c.maxDelay { delay = c.maxDelay }`
unfoldable pub next_delay : ℕ → ℕ → ℕ
next_delay max_delay delay = if ltb max_delay (delay * 2) then max_delay else delay * 2

abbrev ended : Client → Connected → Connecting
ended c r = record { client = c; result = r; waits = [] }

abbrev waited : ℕ → Connecting → Connecting
waited delay o = record o { waits = delay ∷ o.waits }

-- The loop of Connect, with the delays that it waits for
unfoldable pub connect_loop : ℕ → List Attempt → Client → Connecting
connect_loop delay [] c = ended c trying
connect_loop delay (cancelled ∷ attempts) c = ended c context_done
connect_loop delay (dialled input ∷ attempts) c =
    ended (record c { conn = some (new_conn input) }) connected
connect_loop delay (refused ∷ attempts) c =
    let rest = connect_loop (next_delay c.max_delay delay) attempts c in
    if c.reconnect then waited delay rest else ended c connect_failed
connect_loop delay (refused_cancelled ∷ attempts) c =
    if c.reconnect then waited delay (ended c context_done) else ended c connect_failed

-- (*Client).Connect
unfoldable pub connect : List Attempt → Client → Connecting
connect attempts c = connect_loop second attempts (record c { conn = none })

-- (*Client).Close
unfoldable pub close_client : Client → Client
close_client c = record c { conn = none }

-- (*Client).IsConnected
unfoldable pub is_connected : Client → Bool
is_connected c = elim c.conn [ none ↦ false | some _ ↦ true ]

pub data HelloError : Type 0 where
  send_hello : WriteError → HelloError
  read_hello_ack : Error → HelloError
  unexpected_type : ℕ → HelloError
  bad_status : ℕ → HelloError
  no_ack : HelloError

module _ (j : Codec) where
  -- (*Client).Send. It is called on a connected client only; without a connection the program
  -- would stop, which is not modelled: the client is left as it is.
  unfoldable pub send : Message → Client → Result WriteError (Unit {0}) × Client
  send m c = elim c.conn [
    | none ↦ (err WriteError.closed, c)
    | some conn ↦ let (r, conn') = write_message j m conn in (r, record c { conn = some conn' })
  ]

  -- (*Client).Receive, likewise
  unfoldable pub receive : Client → Result Error Message × Client
  receive c = elim c.conn [
    | none ↦ (err (read_header eof), c)
    | some conn ↦ let (r, conn') = read_message j conn in (r, record c { conn = some conn' })
  ]

  -- The tests of SendHello on the reply
  unfoldable pub check_ack : Message → Result HelloError HelloAckPayload
  check_ack m =
      if not (m.msg_type == Msg.hello_ack)
      then err (unexpected_type m.msg_type)
      else elim m.hello_ack [
        | none ↦ err no_ack
        | some a ↦ if not (a.status == 0) then err (bad_status a.status) else ok a
      ]

  -- (*Client).SendHello. `no_ack` stands for the read of a nil pointer.
  unfoldable pub send_hello_message :
      Text → Text → Text → Client → Result HelloError HelloAckPayload × Client
  send_hello_message client_id sync_dir version c =
      let (sent, c₁) =
        send
          (message_of
            (hello (record { client_id = client_id; sync_dir = sync_dir; version = version })))
          c in
      elim sent [
        | err e ↦ (err (send_hello e), c₁)
        | ok _ ↦
            let (got, c₂) = receive c₁ in
            elim got [ err e ↦ (err (read_hello_ack e), c₂) | ok m ↦ (check_ack m, c₂) ]
      ]

  -- (*Client).SendPing, SendPong and SendAck
  unfoldable pub send_ping : Client → Result WriteError (Unit {0}) × Client
  send_ping = send (message_of ping)

  unfoldable pub send_pong : Client → Result WriteError (Unit {0}) × Client
  send_pong = send (message_of pong)

  unfoldable pub send_ack : ℕ → ℕ → Client → Result WriteError (Unit {0}) × Client
  send_ack seq status = send (message_of (ack (record { seq = seq; status = status })))

  -- (*Client).SendSyncInit, SendFileCreate, SendFileModify, SendFileDelete and SendFileData
  unfoldable pub send_sync_init : SyncTree → Client → Result WriteError (Unit {0}) × Client
  send_sync_init tree = send (message_of (sync_init tree))

  unfoldable pub send_file_create : FileEntry → Client → Result WriteError (Unit {0}) × Client
  send_file_create entry = send (message_of (file_create entry))

  unfoldable pub send_file_modify : FileEntry → Client → Result WriteError (Unit {0}) × Client
  send_file_modify entry = send (message_of (file_modify entry))

  unfoldable pub send_file_delete : Text → Client → Result WriteError (Unit {0}) × Client
  send_file_delete path = send (message_of (file_delete path))

  unfoldable pub send_file_data : FileDataChunk → Client → Result WriteError (Unit {0}) × Client
  send_file_data chunk = send (message_of (file_data chunk))

  -- (*Client).SendFileContent, for a file that can be read
  unfoldable pub send_file_content : Text → Text → Client → Result WriteError (Unit {0}) × Client
  send_file_content path content =
      read_file_chunked
        (λ offset chunk final. send_file_data (record {
          path = path;
          flags = if final then flag_final_chunk else 0;
          offset = offset;
          bytes = chunk;
        }))
        content
