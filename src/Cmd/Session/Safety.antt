-- ===== src/Cmd/Session/Safety.antt =====
-- cmd/server/main.go: the conversation of handleClient on every branch.
use mydrive.Base.{
  ℕ, ◌≡◌, ◌≢◌, sym, ap, ◌∙◌, Option, none, some, List, true, Text, bytes, ok, arith, ◌==◌, nat_eq,
  Option-cases, Bool-cases, Result-cases, inl, inr,
}
use mydrive.Protocol.Msg
use mydrive.Protocol.Message.{
  Message, Content, FileEntry, SyncTree, pointed, message_of, hello, hello_ack, sync_init,
  sync_init_ack, file_create, file_data, file_modify, file_delete, file_move, ack, sync_diff,
  sync_apply, error, ping, pong,
}
use mydrive.Protocol.Json.{Codec}
use mathlib.Core.Path.{subst}
use mydrive.Protocol.Codec.Frame.{decode_frame}
use mydrive.Protocol.Codec.Safety.{IsContent, decode_frame-IsContent}
use mydrive.Netlayer.Stream.{Conn, read_message, write_message}
use mydrive.Netlayer.Stream.Transfer.{read_message-eq-decode_frame}
use mydrive.Netlayer.Server.{ClientSession}
use mydrive.Sync.Engine.{Engine, scan_local, build_sync_tree}
use mydrive.Cmd.Serve.Progress.{input-write_message}
use mydrive.Cmd.Session.{nil_pointer, send_initial, exchange_trees, greet, converse, start_session}

hello-message_of :
    (c : Content) → ((message_of c).msg_type == Msg.hello) ≡ true → (message_of c).hello ≢ none
hello-message_of (hello p) hit = λ e. ground arith
hello-message_of (hello_ack p) hit = λ e. ground arith
hello-message_of (sync_init p) hit = λ e. ground arith
hello-message_of (sync_init_ack p) hit = λ e. ground arith
hello-message_of (file_create p) hit = λ e. ground arith
hello-message_of (file_data p) hit = λ e. ground arith
hello-message_of (file_modify p) hit = λ e. ground arith
hello-message_of (file_delete p) hit = λ e. ground arith
hello-message_of (file_move p) hit = λ e. ground arith
hello-message_of (ack p) hit = λ e. ground arith
hello-message_of (sync_diff p) hit = λ e. ground arith
hello-message_of (sync_apply p) hit = λ e. ground arith
hello-message_of (error p) hit = λ e. ground arith
hello-message_of ping hit = λ e. ground arith
hello-message_of pong hit = λ e. ground arith

sync_init-message_of :
    (c : Content)
    → ((message_of c).msg_type == Msg.sync_init) ≡ true
    → (message_of c).sync_init ≢ none
sync_init-message_of (hello p) hit = λ e. ground arith
sync_init-message_of (hello_ack p) hit = λ e. ground arith
sync_init-message_of (sync_init p) hit = λ e. ground arith
sync_init-message_of (sync_init_ack p) hit = λ e. ground arith
sync_init-message_of (file_create p) hit = λ e. ground arith
sync_init-message_of (file_data p) hit = λ e. ground arith
sync_init-message_of (file_modify p) hit = λ e. ground arith
sync_init-message_of (file_delete p) hit = λ e. ground arith
sync_init-message_of (file_move p) hit = λ e. ground arith
sync_init-message_of (ack p) hit = λ e. ground arith
sync_init-message_of (sync_diff p) hit = λ e. ground arith
sync_init-message_of (sync_apply p) hit = λ e. ground arith
sync_init-message_of (error p) hit = λ e. ground arith
sync_init-message_of ping hit = λ e. ground arith
sync_init-message_of pong hit = λ e. ground arith

has_hello : (m : Message) → IsContent m → (m.msg_type == Msg.hello) ≡ true → m.hello ≢ none
has_hello m (c, e) hit absent =
    hello-message_of c (sym (ap (λ (x : Message). x.msg_type == Msg.hello) e) ∙ hit)
      (sym (ap (λ (x : Message). x.hello) e) ∙ absent)

has_sync_init :
    (m : Message) → IsContent m → (m.msg_type == Msg.sync_init) ≡ true → m.sync_init ≢ none
has_sync_init m (c, e) hit absent =
    sync_init-message_of c (sym (ap (λ (x : Message). x.msg_type == Msg.sync_init) e) ∙ hit)
      (sym (ap (λ (x : Message). x.sync_init) e) ∙ absent)

module _ (j : Codec) where
  -- The next message is a tree with a nil entry.
  abbrev pub HasNilEntry : Text → Type 0
  HasNilEntry input =
      (m : Message) × (tree : SyncTree) × ((decode_frame j input).0 ≡ ok m)
      × (m.sync_init ≡ some tree)
      × (pointed tree.entries ≡ none)

module _ (j : Codec) (disk : Text → Option Text) where
  read_message-IsContent : (c : Conn) (m : Message) → (read_message j c).0 ≡ ok m → IsContent m
  read_message-IsContent c m h =
      decode_frame-IsContent j c.input m
        (sym (ap (λ o. o.0) (read_message-eq-decode_frame j c)) ∙ h)

  send_initial-nil_pointer :
      (tree : List FileEntry) (e : Engine) (c : Conn)
      → (send_initial j disk tree e c).0 ≢ nil_pointer
  unfolding send_initial
  send_initial-nil_pointer tree e c h = ground arith

  exchange_trees-nil_pointer :
      (e : Engine) (c : Conn) → (exchange_trees j disk e c).0 ≡ nil_pointer → HasNilEntry j c.input
  unfolding exchange_trees
  exchange_trees-nil_pointer e c h =
      let out = message_of (sync_init (build_sync_tree e)) in
      let c₁ = (write_message j out c).1 in
      let read = read_message-eq-decode_frame j c₁ in
      elim (Result-cases (read_message j c₁).0) [
        | inr (x, failed) ↦ absurd (ground arith)
        | inl (m, got) ↦
            let present = has_sync_init m (read_message-IsContent c₁ m got) in
            let decoded : (decode_frame j c.input).0 ≡ ok m =
              ap (λ r. (decode_frame j r).0) (sym (input-write_message j out c))
              ∙ sym (ap (λ o. o.0) read)
              ∙ got in
            elim (Option-cases m.sync_init) [
              | inl absent ↦ absurd (ground (arith, present))
              | inr (tree, found) ↦ elim (Option-cases (pointed tree.entries)) [
                | inl k ↦ (m, tree, decoded, found, k)
                | inr (entries, k) ↦
                    absurd
                      (ground (arith, send_initial-nil_pointer entries e (read_message j c₁).1))
              ]
            ]
      ]

  greet-nil_pointer :
      (e : Engine) (id : ℕ) (c : Conn)
      → (greet j disk e id c).0 ≡ nil_pointer
      → HasNilEntry j c.input
  unfolding greet
  greet-nil_pointer e id c h =
      let m = message_of (
        hello_ack
          (record { server_id = bytes "file-sync-server-1.0"; client_id = id; status = 0 })) in
      let c₁ = (write_message j m c).1 in
      let late : (exchange_trees j disk e c₁).0 ≡ nil_pointer → HasNilEntry j c.input = λ k.
        subst (HasNilEntry j) (input-write_message j m c) (exchange_trees-nil_pointer e c₁ k) in
      elim (Result-cases (write_message j m c).0) [
        | inr (x, failed) ↦ absurd (ground arith)
        | inl (u, acked) ↦ late (ground arith)
      ]

  pub converse-nil_pointer :
      (session : ClientSession) (e : Engine)
      → (converse j disk session e).0 ≡ nil_pointer
      → HasNilEntry j (decode_frame j session.conn.input).1
  unfolding converse
  converse-nil_pointer session e h =
      let c₁ = (read_message j session.conn).1 in
      let left : c₁.input ≡ (decode_frame j session.conn.input).1 =
        ap (λ o. o.1.input) (read_message-eq-decode_frame j session.conn) in
      elim (Result-cases (read_message j session.conn).0) [
        | inr (x, failed) ↦ absurd (ground arith)
        | inl (m, got) ↦
            let present = has_hello m (read_message-IsContent session.conn m got) in
            elim (Option-cases m.hello) [
              | inl absent ↦ absurd (ground (arith, present))
              | inr (p, some_e) ↦ elim (Bool-cases (m.msg_type == Msg.hello)) [
                | inr other ↦ absurd (ground arith)
                | inl greeting ↦
                    subst (HasNilEntry j) left
                      (greet-nil_pointer e session.id c₁ (ground (arith, got, some_e, greeting, h)))
              ]
            ]
      ]

  -- Whatever bytes a client sends: if the start of its session reads through a nil pointer, then the
  -- second message that they hold is a tree of which an entry is nil. No other payload makes it do so.
  pub start_session-nil_pointer :
      (found : List FileEntry) (session : ClientSession) (e : Engine)
      → (start_session j disk found session e).0 ≡ nil_pointer
      → HasNilEntry j (decode_frame j session.conn.input).1
  unfolding start_session
  start_session-nil_pointer found session e h = converse-nil_pointer session (scan_local found e) h
