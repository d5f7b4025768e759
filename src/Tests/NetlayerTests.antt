-- ===== src/Tests/NetlayerTests.antt =====
-- Runs of the server's registry, of its broadcast and of the client's Connect, and their theorems
-- at concrete inputs.
use mydrive.Base.{
  ◌*◌, ◌≡◌, ◌≢◌, ◌++◌, refl, [], ◌∷◌, Text, bytes, none, some, true, ok, err, length, arith,
  replicate, nat_eq,
}
use mydrive.Base.Dict
use mydrive.Protocol.Message.{message_of, ping}
use mydrive.Protocol.Codec.Frame.{encode}
use mydrive.Protocol.Codec.Parse.{payload}
use mydrive.Protocol.Codec.Bytes.{put_uint32}
use mydrive.Netlayer.Stream.{new_conn}
use mydrive.Netlayer.Server.{
  Server, new_server, new_session, accept, disconnect, get_client, broadcast,
}
use mydrive.Netlayer.Server.Registry.{
  IsValid, accepted, disconnected, Reach, here, next, new_server-IsValid, Reach-IsValid,
  get_client-accept, accept_all, length-accept_all_new,
}
use mydrive.Netlayer.Server.Broadcast.{with_output, get_client-broadcast}
use mydrive.Netlayer.Client.{Client, dialled, refused, connected, connect, new_client, second}
use mydrive.Netlayer.Client.Backoff.{backoffs, connect-refused}
use mydrive.Tests.Codecs.{quoting, acking, acking-IsLawful}
use mydrive.Netlayer.Client.{no_ack, send_hello_message}
use mydrive.Netlayer.Client.Hello.{send_hello_message_safe, send_hello_message-hello_ack}
use mydrive.Protocol.Json.{marshal_json}
use mydrive.Protocol.Message.{HelloAckPayload, hello, hello_ack}

abbrev empty : Server
empty = new_server (bytes ":9000")

abbrev two : Server
two = accept [] (accept [] empty)

abbrev run : Reach empty (accept [] (disconnect (new_session 1 []) two).1)
unfolding new_server accept disconnect
run =
    next
      (next
        (next (next here (accepted [] empty (omega arith)))
          (accepted [] (accept [] empty) (omega arith)))
        (disconnected (new_session 1 []) two))
      (accepted [] (disconnect (new_session 1 []) two).1 (omega arith))

Reach-IsValid_example : IsValid (accept [] (disconnect (new_session 1 []) two).1)
Reach-IsValid_example = Reach-IsValid run (new_server-IsValid (bytes ":9000"))

two-IsValid : IsValid two
unfolding new_server accept
two-IsValid =
    Reach-IsValid
      (next (next here (accepted [] empty (omega arith)))
        (accepted [] (accept [] empty) (omega arith)))
      (new_server-IsValid (bytes ":9000"))

get_client-accept_run :
    (get_client two.next_id two ≡ none)
    × (get_client two.next_id (accept [] two) ≡ some (new_session two.next_id []))
    × (1 ≢ two.next_id → get_client 1 (accept [] two) ≡ get_client 1 two)
get_client-accept_run = get_client-accept [] two 1 two-IsValid

length-accept_all_new_run :
    length (accept_all (replicate 60 []) (new_server (bytes ":9000"))).clients ≡ 60
length-accept_all_new_run = length-accept_all_new (bytes ":9000") (replicate 60 []) (omega arith)

ping_frame : encode quoting (message_of ping) ≡ ok (13 ∷ 0 ∷ 0 ∷ 0 ∷ 0 ∷ [])
unfolding encode payload put_uint32
ping_frame = refl

two-has_2 : get_client 2 two ≡ some (new_session 2 [])
unfolding new_server accept get_client Dict.get Dict.insert
two-has_2 = refl

get_client-broadcast_example :
    get_client 2 (broadcast quoting 1 (message_of ping) two)
    ≡ some (with_output (13 ∷ 0 ∷ 0 ∷ 0 ∷ 0 ∷ []) (new_session 2 []))
unfolding new_conn
get_client-broadcast_example =
    get_client-broadcast quoting 1 (message_of ping) (13 ∷ 0 ∷ 0 ∷ 0 ∷ 0 ∷ []) ping_frame two 2
      (new_session 2 []) two-IsValid two-has_2

abbrev fresh : Client
fresh = new_client (bytes "host")

connect-refused_example : connect (replicate 8 refused ++ dialled (bytes "x") ∷ []) fresh ≡ record {
  client = record fresh { conn = some (new_conn (bytes "x")) };
  result = connected;
  waits = backoffs (60 * second) 0 8;
}
unfolding new_client
connect-refused_example = connect-refused 8 (bytes "x") [] fresh refl (omega arith)

abbrev acked : HelloAckPayload
acked = record { server_id = bytes "s"; client_id = 5; status = 0 }

abbrev reply : Text
reply = 2 ∷ 0 ∷ 0 ∷ 0 ∷ 3 ∷ 0 ∷ 5 ∷ bytes "s"

abbrev greeting : Text
greeting = 1 ∷ 0 ∷ 0 ∷ 0 ∷ 2 ∷ 1 ∷ bytes "c"

encode-greeting :
    encode acking (
      message_of
        (hello (record { client_id = bytes "c"; sync_dir = bytes "d"; version = bytes "1" })))
    ≡ ok greeting
unfolding encode payload marshal_json put_uint32
encode-greeting = refl

encode-reply : encode acking (message_of (hello_ack acked)) ≡ ok reply
unfolding encode payload marshal_json put_uint32
encode-reply = refl

abbrev dialled_client : Client
dialled_client = record fresh {
  conn = some (record { input = reply; output = []; is_open = true });
}

send_hello_message-hello_ack_example :
    send_hello_message acking (bytes "c") (bytes "d") (bytes "1") dialled_client ≡ (
      ok acked,
      record dialled_client {
        conn = some (record { input = []; output = greeting; is_open = true });
      },
    )
send_hello_message-hello_ack_example =
    send_hello_message-hello_ack acking acking-IsLawful (bytes "c") (bytes "d") (bytes "1") greeting
      [] reply acked (record { input = reply; output = []; is_open = true }) dialled_client refl
      refl tt encode-greeting encode-reply refl refl

send_hello_message_safe_run :
    (send_hello_message acking (bytes "c") (bytes "d") (bytes "1") dialled_client).0 ≢ err no_ack
send_hello_message_safe_run =
    send_hello_message_safe acking (bytes "c") (bytes "d") (bytes "1") dialled_client
