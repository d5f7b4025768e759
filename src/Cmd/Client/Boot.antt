-- ===== src/Cmd/Client/Boot.antt =====
-- cmd/client/main.go: main, from its flags to its end.
use mydrive.Base.{
  ℕ, ◌*◌, ◌≤◌, List, [], ◌∷◌, Text, ok, err, All, nat_eq, arith, Bool-cases, Result-cases, inl, inr,
}
use mydrive.Config.{ClientConfig, default_client_config}
use mydrive.Protocol.Json.{Codec}
use mydrive.Netlayer.Client.{Client, second, new_client, next_delay}
use mydrive.Os.{Disk}
use mydrive.Os.Paths.{join}
use mydrive.Os.Files.{mkdir_all}
use mydrive.Cmd.Client.Run.{End, clean, no_payload}
use mydrive.Cmd.Client.Steps.{
  Round, done_before, session, session_done, session_wait_done, create_sync_dir, shut_down, Ended,
  exiting, waiting, after_session, max_reconnect_delay, run_session, reconnect_loop,
}

-- The configuration with the values of the flags
abbrev pub configured : Text → Text → Text → ClientConfig
configured addr dir id = record default_client_config {
  server_addr = addr;
  local_dir = dir;
  client_id = id;
}

module _ (j : Codec) (sha256 : Text → Text) where
  -- main, with the values of its flags
  unfoldable pub main : Text → Text → Text → List Round → Disk → Ended
  main addr dir id rounds d =
      let (made, d') = mkdir_all (join [] dir) 0o755 d in
      let cfg = configured addr dir id in
      let looped = reconnect_loop j sha256 cfg (1 * second) rounds d' (new_client addr) in
      elim made [ err x ↦ exiting (create_sync_dir x) d' | ok _ ↦ looped ]

  -- A delay between a second and the longest one
  abbrev InRange : ClientConfig → ℕ → Type 0
  InRange cfg delay = (1 * second ≤ delay) × (delay ≤ max_reconnect_delay cfg)

  next_delay-InRange :
      (cfg : ClientConfig) (delay : ℕ)
      → InRange cfg delay
      → InRange cfg (next_delay (max_reconnect_delay cfg) delay)
  unfolding next_delay
  next_delay-InRange cfg delay h = ground (arith, h)

  after_session-InRange :
      (cfg : ClientConfig) (delay : ℕ) (e : End) (d : Disk) (o : Ended)
      → InRange cfg delay
      → All (InRange cfg) o.waits
      → All (InRange cfg) (after_session cfg e d (waiting delay o)).waits
  unfolding max_reconnect_delay
  after_session-InRange cfg delay clean d o h k = tt
  after_session-InRange cfg delay no_payload d o h k = tt
  after_session-InRange cfg delay e d o h k = elim (Bool-cases cfg.reconnect) [
    | inl r ↦ rw r (h, k)
    | inr r ↦ rw r tt
  ]

  reconnect_loop-InRange :
      (cfg : ClientConfig) (delay : ℕ) (rounds : List Round) (d : Disk) (c : Client)
      → InRange cfg delay
      → All (InRange cfg) (reconnect_loop j sha256 cfg delay rounds d c).waits
  unfolding reconnect_loop
  reconnect_loop-InRange cfg delay [] d c h = tt
  reconnect_loop-InRange cfg delay (done_before ∷ rounds) d c h = tt
  reconnect_loop-InRange cfg delay (session_done s ∷ rounds) d c h = tt
  reconnect_loop-InRange cfg delay (session_wait_done s ∷ rounds) d c h =
      let (e, d', c') = run_session j sha256 cfg s d c in
      after_session-InRange cfg delay e d' (exiting shut_down d') h tt
  reconnect_loop-InRange cfg delay (session s ∷ rounds) d c h =
      let (e, d', c') = run_session j sha256 cfg s d c in
      let next = next_delay (max_reconnect_delay cfg) delay in
      after_session-InRange cfg delay e d' (reconnect_loop j sha256 cfg next rounds d' c') h
        (reconnect_loop-InRange cfg next rounds d' c' (next_delay-InRange cfg delay h))

  -- Whatever happens in the sessions of a client, each time that it waits before it connects again
  -- is a second at least, and a minute, the longest delay of its configuration, at most.
  pub main_waits :
      (addr dir id : Text) (rounds : List Round) (d : Disk)
      → All
          (λ delay. (1 * second ≤ delay) × (delay ≤ 60 * second))
          (main addr dir id rounds d).waits
  unfolding main max_reconnect_delay
  main_waits addr dir id rounds d =
      let (made, d') = mkdir_all (join [] dir) 0o755 d in
      let cfg = configured addr dir id in
      elim (Result-cases made) [
        | inr (x, e) ↦ rw (main, e) tt
        | inl (u, e) ↦
            rw (main, e)
              (reconnect_loop-InRange cfg (1 * second) rounds d' (new_client addr)
                (omega arith, omega arith))
      ]
