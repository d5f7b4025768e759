-- ===== src/Netlayer/Stream.antt =====
-- netlayer/stream.go: a connection that reads and writes messages. The connection of package net
-- is its two streams of bytes: `input` is what is still to be read, `output` what was written, and
-- a write fails once the connection is closed, by either end. The lock on writes makes a message
-- one step. The buffer of the reader, and deadlines, do not change what is read.
pub mod Transfer
use mydrive.Base.{
  ℕ, ◌&&◌, not, Bool, true, false, [], ◌∷◌, ◌++◌, Text, Result, ok, err, drop, ltb, ◌==◌, nat_eq,
  if◌then◌else◌,
}
use mydrive.Protocol.Msg
use mydrive.Protocol.Message.{Message, bare}
use mydrive.Protocol.Json.{Codec}
use mydrive.Protocol.Codec.Bytes.{uint32}
use mydrive.Protocol.Codec.Parse.{
  Error, frame_too_large, read_header, read_payload, empty_payload, decode_from_bytes,
}
use mydrive.Protocol.Codec.Frame.{read_full, encode, header_size, max_frame_size, byte_at}

pub record Conn : Type 0 where
  pub input : Text
  pub output : Text
  pub is_open : Bool

-- NewConn
unfoldable pub new_conn : Text → Conn
new_conn input = record { input = input; output = []; is_open = true }

pub data WriteError : Type 0 where
  encode_message : Error → WriteError
  closed : WriteError

-- (*Conn).Close
unfoldable pub close : Conn → Conn
close c = record c { input = []; is_open = false }

module _ (j : Codec) where
  -- (*Conn).ReadMessage, behind the header
  unfoldable pub read_payload_of : ℕ → ℕ → Conn → Result Error Message × Conn
  read_payload_of t n c =
      if ltb max_frame_size n
      then (err (frame_too_large n), c)
      else if n == 0 && not (t == Msg.ping) && not (t == Msg.pong)
      then (err (empty_payload t), c)
      else if ltb 0 n
      then (let (got, r) = read_full n c.input in
          elim got [
            | err e ↦ (err (read_payload e), record c { input = r })
            | ok p ↦ (decode_from_bytes j t p, record c { input = r })
          ])
      else (ok (bare t), c)

  -- (*Conn).ReadMessage
  unfoldable pub read_message : Conn → Result Error Message × Conn
  read_message c =
      let (got, r) = read_full header_size c.input in
      elim got [
        | err e ↦ (err (read_header e), record c { input = r })
        | ok h ↦ read_payload_of (byte_at 0 h) (uint32 (drop 1 h)) (record c { input = r })
      ]

  -- (*Conn).WriteMessage
  unfoldable pub write_message : Message → Conn → Result WriteError (Unit {0}) × Conn
  write_message m c = elim (encode j m) [
    | err e ↦ (err (encode_message e), c)
    | ok b ↦ if c.is_open then (ok tt, record c { output = c.output ++ b }) else (err closed, c)
  ]
