-- ===== src/Netlayer/Client/Hello.antt =====
-- netlayer/client.go: the handshake.
use mydrive.Base.{
  ◌≡◌, ◌≢◌, sym, ap, ◌∙◌, some, ◌++◌, true, Text, Option-cases, Result-cases, inl, inr, ok, err,
  arith, nat_eq,
}
use mydrive.Protocol.Message.{
  Message, Content, HelloAckPayload, message_of, hello, hello_ack, sync_init, sync_init_ack,
  file_create, file_data, file_modify, file_delete, file_move, ack, sync_diff, sync_apply, error,
  ping, pong,
}
use mydrive.Protocol.Json.{Codec, IsLawful}
use mydrive.Protocol.Codec.Frame.{encode}
use mydrive.Protocol.Codec.RoundTrip.{IsPlain, decode_frame-encode}
use mydrive.Protocol.Codec.Safety.{IsContent, decode_frame-IsContent}
use mydrive.Netlayer.Stream.{Conn, write_message}
use mydrive.Netlayer.Stream.Transfer.{read_message-eq-decode_frame}
use mydrive.Netlayer.Client.{Client, no_ack, check_ack, send, receive, send_hello_message}

module _ (j : Codec) where
  check_ack-message_of : (c : Content) → check_ack j (message_of c) ≢ err no_ack
  unfolding check_ack
  check_ack-message_of (hello p) e = ground arith
  check_ack-message_of (hello_ack p) e = ground arith
  check_ack-message_of (sync_init p) e = ground arith
  check_ack-message_of (sync_init_ack p) e = ground arith
  check_ack-message_of (file_create p) e = ground arith
  check_ack-message_of (file_data p) e = ground arith
  check_ack-message_of (file_modify p) e = ground arith
  check_ack-message_of (file_delete p) e = ground arith
  check_ack-message_of (file_move p) e = ground arith
  check_ack-message_of (ack p) e = ground arith
  check_ack-message_of (sync_diff p) e = ground arith
  check_ack-message_of (sync_apply p) e = ground arith
  check_ack-message_of (error p) e = ground arith
  check_ack-message_of ping e = ground arith
  check_ack-message_of pong e = ground arith

  receive-IsContent : (c : Client) (m : Message) → (receive j c).0 ≡ ok m → IsContent m
  unfolding receive
  receive-IsContent c m h = elim (Option-cases c.conn) [
    | inl none_h ↦ absurd (ground arith)
    | inr (conn, e) ↦
        let read = read_message-eq-decode_frame j conn in
        decode_frame-IsContent j conn.input m (ground arith)
  ]

  check_ack_safe : (m : Message) → IsContent m → check_ack j m ≢ err no_ack
  check_ack_safe m (content, e) h = check_ack-message_of content (ap (check_ack j) (sym e) ∙ h)

  -- Whatever bytes the server sends, SendHello never reads the acknowledgement through a nil
  -- pointer: a message of that type that could be read carries one.
  pub send_hello_message_safe :
      (client_id sync_dir version : Text) (c : Client)
      → (send_hello_message j client_id sync_dir version c).0 ≢ err no_ack
  unfolding send_hello_message
  send_hello_message_safe client_id sync_dir version c e =
      let m =
        message_of
          (hello (record { client_id = client_id; sync_dir = sync_dir; version = version })) in
      elim (Result-cases (send j m c).0) [
        | inr (x, failed) ↦ absurd (ground arith)
        | inl (u, sent) ↦ elim (Result-cases (receive j (send j m c).1).0) [
          | inr (x, failed) ↦ absurd (ground arith)
          | inl (r, got) ↦ check_ack_safe r (receive-IsContent (send j m c).1 r got) (ground arith)
        ]
      ]

  -- Over an open connection and with a lawful codec, a server that answers with an acknowledgement
  -- of status 0, whose payload is plain, makes SendHello succeed with it; the HELLO is all that
  -- was written, and what follows the acknowledgement is left to read.
  pub send_hello_message-hello_ack :
      IsLawful j
      → (client_id sync_dir version b r reply : Text) (a : HelloAckPayload) (conn : Conn)
        (c : Client)
      → c.conn ≡ some conn
      → conn.is_open ≡ true
      → IsPlain j (hello_ack a)
      → encode j (
          message_of
            (hello (record { client_id = client_id; sync_dir = sync_dir; version = version })))
        ≡ ok b
      → encode j (message_of (hello_ack a)) ≡ ok reply
      → conn.input ≡ reply ++ r
      → a.status ≡ 0
      → send_hello_message j client_id sync_dir version c
        ≡ (ok a, record c { conn = some (record conn { input = r; output = conn.output ++ b }) })
  unfolding send_hello_message send receive check_ack write_message
  send_hello_message-hello_ack L client_id sync_dir version b r reply a conn c h opened plain e₁ e₂
        e₃ z =
      let read = read_message-eq-decode_frame j (record conn { output = conn.output ++ b }) in
      let front = decode_frame-encode j L (hello_ack a) reply r plain e₂ in
      ground (arith, read, front)
