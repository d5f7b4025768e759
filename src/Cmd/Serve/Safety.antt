-- ===== src/Cmd/Serve/Safety.antt =====
-- handleMessage of cmd/server/main.go on every branch: which messages it may be given.
use mydrive.Base.{ℕ, ◌≡◌, ◌≢◌, sym, ap, ◌∙◌, Text, ok, err, arith, nat_eq, Result-cases, inl, inr}
use mydrive.Protocol.Message.{
  Message, Content, FileEntry, FileDataChunk, message_of, hello, hello_ack, sync_init,
  sync_init_ack, file_create, file_data, file_modify, file_delete, file_move, ack, sync_diff,
  sync_apply, error, ping, pong,
}
use mydrive.Protocol.Json.{Codec}
use mydrive.Protocol.Codec.Safety.{decode_frame-IsContent}
use mydrive.Netlayer.Stream.{Conn, read_message}
use mydrive.Netlayer.Stream.Transfer.{read_message-eq-decode_frame}
use mydrive.Utils.Fs.{delete_entry, write_chunk, ensure_dir}
use mydrive.Sync.OnDisk.{root_of, path_in}
use mydrive.Cmd.Serve.{
  World, no_payload, apply_file_create, apply_file_modify, handle_create, handle_modify,
  handle_delete, handle_data, handle_message, write_to, answer_ping,
}

module _ (j : Codec) (sha256 : Text → Text) where
  handle_create_safe :
      (entry : FileEntry) (now : ℕ) (w : World)
      → (handle_create sha256 entry now w).0 ≢ err no_payload
  unfolding handle_create
  handle_create_safe entry now w =
      elim (Result-cases (apply_file_create (root_of w.engine) entry w.disk).0) [
        | inl (u, e) ↦ rw (handle_create, e) (λ h. absurd (ground arith))
        | inr (x, e) ↦ rw (handle_create, e) (λ h. absurd (ground arith))
      ]

  handle_modify_safe :
      (entry : FileEntry) (now : ℕ) (w : World)
      → (handle_modify sha256 entry now w).0 ≢ err no_payload
  unfolding handle_modify
  handle_modify_safe entry now w =
      elim (Result-cases (apply_file_modify (root_of w.engine) entry w.disk).0) [
        | inl (u, e) ↦ rw (handle_modify, e) (λ h. absurd (ground arith))
        | inr (x, e) ↦ rw (handle_modify, e) (λ h. absurd (ground arith))
      ]

  handle_delete_safe :
      (id : ℕ) (m : Message) (now : ℕ) (w : World)
      → (handle_delete j sha256 id m now w).0 ≢ err no_payload
  unfolding handle_delete
  handle_delete_safe id m now w =
      elim (Result-cases (delete_entry (path_in w.engine m.file_delete) w.disk).0) [
        | inl (u, e) ↦ rw (handle_delete, e) (λ h. absurd (ground arith))
        | inr (x, e) ↦ rw (handle_delete, e) (λ h. absurd (ground arith))
      ]

  handle_data_safe :
      (id : ℕ) (m : Message) (chunk : FileDataChunk) (w : World)
      → (handle_data j id m chunk w).0 ≢ err no_payload
  unfolding handle_data
  handle_data_safe id m chunk w =
      let p = path_in w.engine chunk.path in
      elim (Result-cases (write_chunk p chunk.bytes chunk.offset (ensure_dir p w.disk).1).0) [
        | inl (u, e) ↦ rw (handle_data, e) (λ h. absurd (ground arith))
        | inr (x, e) ↦ rw (handle_data, e) (λ h. absurd (ground arith))
      ]

  answer_ping_safe : (id : ℕ) (w : World) → (answer_ping j id w).0 ≢ err no_payload
  answer_ping_safe id w = elim (Result-cases (write_to j id (message_of pong) w.server).0) [
    | inl (u, e) ↦ rw (answer_ping, e) (λ h. absurd (ground arith))
    | inr (x, e) ↦ rw (answer_ping, e) (λ h. absurd (ground arith))
  ]

  handle_message-content :
      (id : ℕ) (c : Content) (now : ℕ) (w : World)
      → (handle_message j sha256 id (message_of c) now w).0 ≢ err no_payload
  unfolding handle_message
  handle_message-content id (file_create entry) now w = handle_create_safe entry now w
  handle_message-content id (file_modify entry) now w = handle_modify_safe entry now w
  handle_message-content id (file_delete path) now w =
      handle_delete_safe id (message_of (file_delete path)) now w
  handle_message-content id (file_data chunk) now w =
      handle_data_safe id (message_of (file_data chunk)) chunk w
  handle_message-content id ping now w = answer_ping_safe id w
  handle_message-content id (hello p) now w = λ h. absurd (ground arith)
  handle_message-content id (hello_ack p) now w = λ h. absurd (ground arith)
  handle_message-content id (sync_init p) now w = λ h. absurd (ground arith)
  handle_message-content id (sync_init_ack p) now w = λ h. absurd (ground arith)
  handle_message-content id (file_move p) now w = λ h. absurd (ground arith)
  handle_message-content id (ack p) now w = λ h. absurd (ground arith)
  handle_message-content id (sync_diff p) now w = λ h. absurd (ground arith)
  handle_message-content id (sync_apply p) now w = λ h. absurd (ground arith)
  handle_message-content id (error p) now w = λ h. absurd (ground arith)
  handle_message-content id pong now w = λ h. absurd (ground arith)

  -- Whatever bytes a client sends, and whatever the state of the server, the handling of a message
  -- that could be read from them reads no payload through a nil pointer.
  pub handle_message_safe :
      (c : Conn) (m : Message) (id now : ℕ) (w : World)
      → (read_message j c).0 ≡ ok m
      → (handle_message j sha256 id m now w).0 ≢ err no_payload
  handle_message_safe c m id now w h =
      let read = ap (λ o. o.0) (read_message-eq-decode_frame j c) in
      let (content, same) = decode_frame-IsContent j c.input m (sym read ∙ h) in
      rw same (handle_message-content id content now w)
