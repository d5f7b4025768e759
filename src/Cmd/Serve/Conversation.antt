-- ===== src/Cmd/Serve/Conversation.antt =====
-- cmd/server/main.go: handleClient as a whole, from its scan to the end of its main loop.
pub mod Tombstones
pub mod Progress
use mydrive.Base.{ℕ, Option, none, some, Text, nat_eq}
use mydrive.Base.Dict
use mydrive.Protocol.Json.{Codec}
use mydrive.Protocol.Codec.Parse.{Error, read_header, eof}
use mydrive.Netlayer.Server.{ClientSession}
use mydrive.Os.{Disk, node_at, readable}
use mydrive.Sync.Engine.{Engine}
use mydrive.Sync.OnDisk.{path_in, clear_persisted}
use mydrive.Cmd.Session.{Outcome, synced, running, read_hello, converse}
use mydrive.Cmd.Serve.{World, rescan, serve}

-- How handleClient returns: before its main loop, or with what ends the loop.
pub data ClientEnd : Type 0 where
  not_started : Outcome → ClientEnd
  ended : Option Error → ClientEnd

-- What os.Open finds at a path below the base directory, if it can be read as a file.
abbrev pub content_at : World → Text → Option Text
content_at w path = readable (node_at w.disk (path_in w.engine path))

-- The state behind the conversation: the tombstones are cleared at the end of an initial sync.
abbrev pub settled : ℕ → Outcome × ClientSession × Engine → World → World
settled id (outcome, session, e) w =
    let cleared : Disk = elim outcome [
      | synced ↦ (clear_persisted w.engine w.disk).1
      | _ ↦ w.disk
    ] in
    record w {
      server = record w.server { clients = Dict.insert w.server.clients id session };
      engine = e;
      disk = cleared;
    }

-- The main loop is entered if the conversation does not end with an error.
abbrev pub returned : Outcome → World → Option Error × World → ClientEnd × World
returned synced w (e, served) = (ended e, served)
returned running w (e, served) = (ended e, served)
returned o w loop = (not_started o, w)

module _ (j : Codec) (sha256 : Text → Text) where
  -- handleClient up to its main loop, for a session of the registry. One that has left it has a closed
  -- connection.
  unfoldable pub start_client : ℕ → World → Outcome × World
  start_client id w =
      let w₁ = rescan sha256 w in
      elim (Dict.get w₁.server.clients id) [
        | none ↦ (read_hello (read_header eof), w₁)
        | some session ↦
            let talk = converse j (content_at w₁) session w₁.engine in (talk.0, settled id talk w₁)
      ]

  -- handleClient
  unfoldable pub handle_client : ℕ → ℕ → ℕ → World → ClientEnd × World
  handle_client rounds id now w =
      let (outcome, w₁) = start_client id w in returned outcome w₁ (serve j sha256 rounds id now w₁)
