-- ===== src/Cmd/Serve/Boot.antt =====
-- cmd/server/main.go: main up to the listening, and its shutdown.
use mydrive.Base.{Option, none, some, List, [], Text, Result, ok, err}
use mydrive.Config.{ServerConfig, default_server_config}
use mydrive.Netlayer.Server.{new_server, listen, close_server}
use mydrive.Os.{Disk, OsError}
use mydrive.Os.Paths.{join}
use mydrive.Os.Files.{mkdir_all}
use mydrive.Sync.OnDisk.{load_engine, scan, persist}
use mydrive.Sync.Monitor.Lifecycle.{Running, made, start, stop}
use mydrive.Cmd.Serve.{World}

pub data BootError : Type 0 where
  create_sync_dir initial_scan : OsError → BootError
  create_monitor : BootError

-- The configuration with the values of the flags
abbrev pub configured : Text → Text → ServerConfig
configured addr dir = record default_server_config { listen_addr = addr; server_dir = dir }

module _ (sha256 : Text → Text) where
  -- The part of main behind the directory: the engine with its first scan, the monitor, with the
  -- directories that its walk finds if the watching succeeds, and the server.
  unfoldable pub boot_in : ServerConfig → Option (List Text) → Disk → Result BootError World × Disk
  boot_in cfg watched d =
      let (r, e, d') = scan sha256 (load_engine cfg.server_dir d) d in
      elim r [
        | err x ↦ (err (initial_scan x), d')
        | ok _ ↦ elim watched [
          | none ↦ (err create_monitor, d')
          | some directories ↦ (
            ok (record {
              disk = d';
              engine = e;
              server = listen (new_server cfg.listen_addr);
              monitor = (start (made directories)).monitor;
            }),
            d',
          )
        ]
      ]

  -- main, with the values of the flags
  unfoldable pub boot : Text → Text → Option (List Text) → Disk → Result BootError World × Disk
  boot addr dir watched d =
      let (made, d') = mkdir_all (join [] dir) 0o755 d in
      let booted = boot_in (configured addr dir) watched d' in
      elim made [ err x ↦ (err (create_sync_dir x), d') | ok _ ↦ booted ]

-- What is done on a signal, with the monitor as a thing that runs; an error of SaveTombstones is only
-- printed.
unfoldable pub shut_down : Running → World → Running × World
shut_down r w =
    (stop r, record w { disk = (persist w.engine w.disk).1; server = close_server w.server })
