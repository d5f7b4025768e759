-- ===== src/Cmd/Session/Tombstones.antt =====
-- cmd/server/main.go: what becomes of the tombstones when a session starts.
use mydrive.Base.{
  ℕ, ◌≡◌, Bool, Option, List, [], Text, bytes, arith, nat_eq, Option-cases, Result-cases, inl, inr,
}
use mydrive.Base.Dict.{Dict}
use mydrive.Protocol.Message.{FileEntry, pointed, message_of, hello_ack, sync_init}
use mydrive.Protocol.Json.{Codec}
use mydrive.Netlayer.Stream.{Conn, read_message, write_message}
use mydrive.Netlayer.Server.{ClientSession}
use mydrive.Sync.Engine.{
  Engine, scan_local, set_remote_tree, add_to_previous_paths, clear_tombstones, build_sync_tree,
}
use mydrive.Cmd.Server.{learn_tree}
use mydrive.Cmd.Session.{
  Outcome, synced, send_initial, exchange_trees, greet, converse, start_session,
}

-- What becomes of the tombstones: they are gone exactly behind an initial sync.
abbrev pub unless_synced : Outcome → Dict Text Bool → Dict Text Bool
unless_synced synced tombstones = []
unless_synced o tombstones = tombstones

abbrev pub KeepsTombstones : Engine → Outcome → Engine → Type 0
KeepsTombstones e o e' = e'.tombstones ≡ unless_synced o e.tombstones

module _ (j : Codec) (disk : Text → Option Text) where
  send_initial-KeepsTombstones :
      (tree : List FileEntry) (e : Engine) (c : Conn)
      → KeepsTombstones e (send_initial j disk tree e c).0 (send_initial j disk tree e c).2
  unfolding send_initial learn_tree set_remote_tree add_to_previous_paths clear_tombstones
  send_initial-KeepsTombstones tree e c = ground arith

  exchange_trees-KeepsTombstones :
      (e : Engine) (c : Conn)
      → KeepsTombstones e (exchange_trees j disk e c).0 (exchange_trees j disk e c).2
  unfolding exchange_trees
  exchange_trees-KeepsTombstones e c =
      let c₁ = (write_message j (message_of (sync_init (build_sync_tree e))) c).1 in
      elim (Result-cases (read_message j c₁).0) [
        | inr (x, failed) ↦ ground arith
        | inl (m, got) ↦ elim (Option-cases m.sync_init) [
          | inl absent ↦ ground arith
          | inr (tree, found) ↦ elim (Option-cases (pointed tree.entries)) [
            | inl broken ↦ ground (arith, found, broken)
            | inr (entries, whole) ↦
                ground (
                  arith,
                  found,
                  whole,
                  send_initial-KeepsTombstones entries e (read_message j c₁).1,
                )
          ]
        ]
      ]

  greet-KeepsTombstones :
      (e : Engine) (id : ℕ) (c : Conn)
      → KeepsTombstones e (greet j disk e id c).0 (greet j disk e id c).2
  unfolding greet
  greet-KeepsTombstones e id c =
      let m = message_of (
        hello_ack
          (record { server_id = bytes "file-sync-server-1.0"; client_id = id; status = 0 })) in
      ground (arith, exchange_trees-KeepsTombstones e (write_message j m c).1)

  pub converse-KeepsTombstones :
      (session : ClientSession) (e : Engine)
      → KeepsTombstones e (converse j disk session e).0 (converse j disk session e).2
  unfolding converse
  converse-KeepsTombstones session e = elim (Result-cases (read_message j session.conn).0) [
    | inr (x, failed) ↦ ground arith
    | inl (m, got) ↦ elim (Option-cases m.hello) [
      | inl absent ↦ ground arith
      | inr (p, some_p) ↦
          ground (arith, greet-KeepsTombstones e session.id (read_message j session.conn).1)
    ]
  ]

  -- However the start of a session goes, the tombstones that the scan at its beginning leaves stay
  -- in the engine, but if the initial sync is complete they are gone: a start that ends with an error
  -- loses none.
  pub start_session-KeepsTombstones :
      (found : List FileEntry) (session : ClientSession) (e : Engine)
      → KeepsTombstones
          (scan_local found e)
          (start_session j disk found session e).0
          (start_session j disk found session e).2
  unfolding start_session
  start_session-KeepsTombstones found session e =
      converse-KeepsTombstones session (scan_local found e)
