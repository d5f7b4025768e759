-- ===== src/Cmd/Client/Steps.antt =====
-- cmd/client/main.go: the main loop of runSession, the whole of runSession, and the loop of main
-- that reconnects. The local events and the messages come in any order, which is a list of steps.
use mydrive.Base.{
  ℕ, ◌*◌, Option, none, List, [], ◌∷◌, Bool, Text, ok, err, ◌==◌, nat_eq, if◌then◌else◌,
}
use mydrive.Config.{ClientConfig}
use mydrive.Protocol.Message.{ChangeEvent}
use mydrive.Protocol.Json.{Codec}
use mydrive.Netlayer.Client.{Client, Attempt, second, close_client, receive, next_delay}
use mydrive.Os.{Disk, OsError}
use mydrive.Sync.OnDisk.{load_engine, persist}
use mydrive.Cmd.Client.{World, HandleError, handle_local_event, handle_server_message}
use mydrive.Cmd.Client.Run.{End, clean, unfinished, read_failed, start}

-- An event of the monitor, the next message of the server, or the end of the context. If no message
-- can be read, the flag says whether the context is done by then.
pub data Turn : Type 0 where
  local_event : ChangeEvent → Turn
  next_message : Bool → Turn
  context_done : Turn

-- What a session meets.
pub record Surroundings : Type 0 where
  pub attempts : List Attempt
  pub watched : Option (List Text)
  pub turns : List Turn
  pub fuel : ℕ
  pub now : ℕ

abbrev closed : World → World
closed w = record w { client = close_client w.client }

module _ (j : Codec) (sha256 : Text → Text) where
  -- The main loop; `unfinished` if the turns run out before it ends.
  unfoldable pub main_loop : List Turn → ℕ → World → End × World
  main_loop [] now w = (unfinished, w)
  main_loop (local_event event ∷ turns) now w =
      main_loop turns now
        (record w { client = handle_local_event j event w.engine w.disk w.client })
  main_loop (context_done ∷ turns) now w = (clean, closed w)
  main_loop (next_message done ∷ turns) now w =
      let (got, c) = receive j w.client in
      let w₁ = record w { client = c } in
      elim got [
        | err e ↦ (if done then clean else read_failed e, closed w₁)
        | ok m ↦
            let (r, w₂) = handle_server_message j sha256 m now w₁ in
            let rest = main_loop turns now w₂ in
            elim r [ err HandleError.no_payload ↦ (End.no_payload, w₂) | _ ↦ rest ]
      ]

  -- runSession, from a new engine to the deferred calls: SaveTombstones, and the end of the monitor,
  -- which nothing else uses.
  unfoldable pub run_session : ClientConfig → Surroundings → Disk → Client → End × Disk × Client
  run_session cfg s d c =
      let w : World = record {
        disk = d;
        engine = load_engine cfg.local_dir d;
        client = c;
        monitor = none;
      } in
      let (started, w₁) = start j sha256 cfg s.attempts s.watched s.fuel s.now w in
      let (ended, w₂) = main_loop s.turns s.now w₁ in
      elim started [
        | err e ↦ (e, (persist w₁.engine w₁.disk).1, w₁.client)
        | ok _ ↦ (ended, (persist w₂.engine w₂.disk).1, w₂.client)
      ]

-- One round of the loop of main: the context is done at its start, or a session is run; when it has
-- failed, the context may be done at the next test, or during the wait.
pub data Round : Type 0 where
  done_before : Round
  session : Surroundings → Round
  session_done session_wait_done : Surroundings → Round

-- How main ends: by a shutdown, or without reconnection by the error of a session, or because there is
-- no directory to work in; `running` if the rounds run out before.
pub data Exit : Type 0 where
  create_sync_dir : OsError → Exit
  shut_down running : Exit
  session_error : End → Exit

pub record Ended : Type 0 where
  pub exit : Exit
  pub disk : Disk
  pub waits : List ℕ

-- maxReconnectDelay
unfoldable pub max_reconnect_delay : ClientConfig → ℕ
max_reconnect_delay cfg =
    if cfg.max_delay_sec * second == 0 then 60 * second else cfg.max_delay_sec * second

abbrev pub exiting : Exit → Disk → Ended
exiting x d = record { exit = x; disk = d; waits = [] }

abbrev pub waiting : ℕ → Ended → Ended
waiting delay o = record o { waits = delay ∷ o.waits }

-- What follows a session: the end of main, also by a read through a nil pointer, or one of the ways on from a failure.
abbrev pub after_session : ClientConfig → End → Disk → Ended → Ended
after_session cfg e d on_failure = elim e [
  | clean ↦ exiting shut_down d
  | End.no_payload ↦ exiting (session_error End.no_payload) d
  | failure ↦ if cfg.reconnect then on_failure else exiting (session_error failure) d
]

module _ (j : Codec) (sha256 : Text → Text) (cfg : ClientConfig) where
  -- The loop of main, with the delays that it waits for
  unfoldable pub reconnect_loop : ℕ → List Round → Disk → Client → Ended
  reconnect_loop delay [] d c = exiting running d
  reconnect_loop delay (done_before ∷ rounds) d c = exiting shut_down d
  reconnect_loop delay (session_done s ∷ rounds) d c =
      let (e, d', c') = run_session j sha256 cfg s d c in exiting shut_down d'
  reconnect_loop delay (session_wait_done s ∷ rounds) d c =
      let (e, d', c') = run_session j sha256 cfg s d c in
      after_session cfg e d' (waiting delay (exiting shut_down d'))
  reconnect_loop delay (session s ∷ rounds) d c =
      let (e, d', c') = run_session j sha256 cfg s d c in
      let rest = reconnect_loop (next_delay (max_reconnect_delay cfg) delay) rounds d' c' in
      after_session cfg e d' (waiting delay rest)
