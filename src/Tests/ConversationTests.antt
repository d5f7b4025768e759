-- ===== src/Tests/ConversationTests.antt =====
-- The theorems about whole sessions at concrete inputs.
use mydrive.Base.{
  ◌*◌, ◌≤◌, ◌∷◌, All, bytes, ◌≡◌, ◌≢◌, ◌⊎◌, refl, none, ok, err, [], false, Text, nat_eq, arith,
}
use mydrive.Base.Dict
use mydrive.Netlayer.Stream.{new_conn}
use mydrive.Protocol.Codec.Parse.{Error}
use mydrive.Sync.Engine.{is_tombstoned}
use mydrive.Sync.OnDisk.{scan, load_engine}
use mydrive.Cmd.Session.{synced}
use mydrive.Cmd.Serve.Conversation.{start_client}
use mydrive.Cmd.Serve.Conversation.Tombstones.{start_client-KeepsTombstones}
use mydrive.Cmd.Client.Run.{receive_sync_data, receive_contents}
use mydrive.Cmd.Client.Steps.{Surroundings, session}
use mydrive.Cmd.Client.Boot.{main, main_waits}
use mydrive.Netlayer.Client.{second}
use mydrive.Cmd.Client.Total.{receive_contents_total}
use mydrive.Tests.Codecs.{quoting, chunking}
use mydrive.Tests.CmdTests.{receiver}
use mydrive.Tests.HandlerTests.{tombstones_alone}
use mydrive.Tests.Worlds.{engine, disk, busy_world, client_world, digest}

start_client-KeepsTombstones_example :
    let (o, w') = start_client quoting digest 1 busy_world in
    ((o ≡ synced)
      × (w'.engine.tombstones ≡ [])
      × ((path : Text) → is_tombstoned (load_engine engine.base_dir w'.disk) path ≡ false))
    ⊎ ((o ≢ synced)
        × (w'.disk ≡ disk)
        × (w'.engine.tombstones ≡ (scan digest engine disk).1.tombstones))
start_client-KeepsTombstones_example =
    start_client-KeepsTombstones quoting digest 1 busy_world tombstones_alone

receive_contents_total_example :
    ((receive_contents chunking digest 100 0 client_world).0 ≡ ok tt)
    ⊎ ((x : Error) × ((receive_contents chunking digest 100 0 client_world).0
          ≡ err (receive_sync_data x)))
unfolding new_conn
receive_contents_total_example =
    receive_contents_total chunking digest 100 0 client_world receiver refl (omega arith)

-- A session that cannot connect
abbrev alone : Surroundings
alone = record { attempts = []; watched = none; turns = []; fuel = 0; now = 0 }

main_waits_example :
    All
      (λ delay. (1 * second ≤ delay) × (delay ≤ 60 * second))
      (main quoting digest
        (bytes "host")
        (bytes "/s")
        []
        (session alone ∷ session alone ∷ [])
        disk).waits
main_waits_example =
    main_waits quoting digest (bytes "host") (bytes "/s") [] (session alone ∷ session alone ∷ [])
      disk
