-- ===== src/Cmd/Client/Total.antt =====
-- The loop of runSession for the contents of the initial sync comes to an end: each round takes a frame
-- off the connection, and no chunk gives one back.
use mydrive.Base.{
  ok, ℕ, zero, suc, ◌<◌, ◌≡◌, ◌⊎◌, refl, sym, ap, ◌∙◌, some, true, Text, err, length, arith, ◌==◌,
  nat_eq, Option-cases, Result-cases, Bool-cases, inl, inr,
}
use mydrive.Protocol.Msg
use mydrive.Protocol.Codec.Parse.{Error}
use mydrive.Protocol.Message.{Message}
use mydrive.Protocol.Json.{Codec}
use mydrive.Netlayer.Stream.{Conn, read_message}
use mydrive.Netlayer.Stream.Transfer.{read_message-eq-decode_frame}
use mydrive.Cmd.FileData.Total.{decode_frame_progress}
use mydrive.Cmd.Client.{World, receive_chunk, handle_server_message}
use mydrive.Cmd.Client.Run.{receive_sync_data, on_client, ◌>>=◌, take_message, receive_contents}
use mydrive.Cmd.Client.Received.{
  with_conn, ignoring_keeps, receive_lem, receive_contents-suc, take_message-ack,
}

module _ (j : Codec) (sha256 : Text → Text) where
  client-file_data :
      (m : Message) (now : ℕ) (w : World)
      → (m.msg_type == Msg.file_data) ≡ true
      → (handle_server_message j sha256 m now w).1.client ≡ w.client
  unfolding handle_server_message receive_chunk
  client-file_data m now w h =
      let t : m.msg_type ≡ Msg.file_data = (nat_eq.beq_iff m.msg_type Msg.file_data).0 h in
      elim (Option-cases m.file_data) [
        | inl e ↦ rw (handle_server_message, t, e) refl
        | inr (chunk, e) ↦ rw (handle_server_message, t, e) (ignoring_keeps chunk.path now w).1
      ]

  -- With more fuel than there are bytes to read on the connection, whatever the bytes are, the loop
  -- does not run out of it: it ends without an error, or with an error of the reading of a message, and
  -- with no other.
  pub receive_contents_total :
      (fuel now : ℕ) (w : World) (d : Conn)
      → w.client.conn ≡ some d
      → length d.input < fuel
      → ((receive_contents j sha256 fuel now w).0 ≡ ok tt)
        ⊎ ((x : Error) × ((receive_contents j sha256 fuel now w).0 ≡ err (receive_sync_data x)))
  unfolding receive_contents take_message
  receive_contents_total zero now w d e enough = absurd (omega arith)
  receive_contents_total (suc fuel) now w d e enough =
      let rest = receive_contents j sha256 fuel now in
      let d' = (read_message j d).1 in
      let w₁ = with_conn d' w in
      let read = read_message-eq-decode_frame j d in
      elim (Result-cases (read_message j d).0) [
        | inr (x, k) ↦
            let got = receive_lem j sha256 w.client d d' (err x) e (ap (λ r. (r, d')) k) in
            inr (
              x,
              ap
                  (λ o.
                    ((on_client (λ _. o) receive_sync_data >>= take_message j sha256 rest now) w).0)
                  got,
            )
        | inl (m, k) ↦
            let less = decode_frame_progress j d.input m (sym (ap (λ o. o.0) read) ∙ k) in
            let left : length d'.input < fuel =
              omega (arith, less, ap (λ o. length o.1.input) read, enough) in
            rw (receive_contents-suc j sha256 fuel now w d d' m e (ap (λ r. (r, d')) k))
              (elim (Bool-cases (m.msg_type == Msg.ack)) [
                | inl a ↦ rw (take_message-ack j sha256 rest now m w₁ a) (inl refl)
                | inr a ↦ elim (Bool-cases (m.msg_type == Msg.file_data)) [
                  | inl f ↦
                      let w₂ = (handle_server_message j sha256 m now w₁).1 in
                      rw (take_message, a, f)
                        (receive_contents_total fuel now w₂ d'
                          (ap (λ c. c.conn) (client-file_data m now w₁ f)) left)
                  | inr f ↦
                      rw (take_message, a, f) (receive_contents_total fuel now w₁ d' refl left)
                ]
              ])
      ]
