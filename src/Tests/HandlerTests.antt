-- ===== src/Tests/HandlerTests.antt =====
-- The theorems about the handlers of the server at concrete inputs.
use mydrive.Base.{
  ◌&&◌, ◌≡◌, ◌≢◌, refl, [], ◌∷◌, Text, bytes, none, some, true, false, ok, err, length, ◌==◌,
  text_eq, nat_eq, text_beq, arith, if◌then◌else◌,
}
use mydrive.Base.Int.{pos}
use mydrive.Base.Dict
use mydrive.Protocol.Message.{
  FileEntry, ChangeEvent, ChangeType, message_of, file_delete, file_modify,
}
use mydrive.Netlayer.Stream.{Conn, new_conn, read_message}
use mydrive.Os.{FilePath, path_eq, path_beq, file, dir, Disk, node_at, readable, is_dir_node}
use mydrive.Os.Files.{is_under, has_below}
use mydrive.Os.Paths.{join, split, enter, enter_all}
use mydrive.Os.Confined.{Within}
use mydrive.Utils.Fs.Listing.{holds}
use mydrive.Sync.State.{get, IsValid}
use mydrive.Sync.Diff.{create_event, delete_event, modify_event}
use mydrive.Base.{map, List, not}
use mydrive.Base.Dict.{is_some}
use mydrive.Sync.Diff.{entry_changed}
use mydrive.Sync.Engine.{is_tombstoned, tombstone_file}
use mydrive.Os.Paths.{below, rel}
use mydrive.Os.Walk.{visits, insert_visit, names_leb, text_leb}
use mydrive.Utils.Fs.Listing.{listing}
use mydrive.Sync.Engine.{scan_local, visible, mark_missing}
use mydrive.Sync.Tombstones.Trim.{space_len_reversed}
use mydrive.Sync.Tombstones.RoundTrip
use mydrive.Sync.OnDisk.Scanned.{scanned}
use mydrive.Netlayer.Server.{get_clients}
use mydrive.Netlayer.Stream.{read_payload_of}
use mydrive.Protocol.Codec.Frame.{read_full}
use mydrive.Protocol.Codec.Parse.{decode_from_bytes, parse_message, parse_as}
use mydrive.Protocol.Codec.Bytes.{uint32}
use mydrive.Protocol.Json.{unmarshal_json}
use mydrive.Sync.OnDisk.{root_of, path_in, load_engine}
use mydrive.Sync.OnDisk.Apply.{apply_ops}
use mydrive.Cmd.SyncOps.{build_sync_ops}
use mydrive.Cmd.SyncOps.Inside.{apply_ops-build_sync_ops}
use mydrive.Cmd.Serve.{World, no_payload, handle_message, handle_delete}
use mydrive.Cmd.Serve.Safety.{handle_message_safe}
use mydrive.Cmd.Serve.Deleting.{handle_delete_lem}
use mydrive.Cmd.Serve.Events.{handle_monitor_event}
use mydrive.Base.Dict.{NodupKeys}
use mydrive.Utils.Fs.{entry_type_of, no_hash}
use mydrive.Sync.State.{set_all, set, stamp, new_file_tree}
use mydrive.Sync.OnDisk.Scanned.{found_by}
use mydrive.Cmd.Server.{monitor_round}
use mydrive.Cmd.Server.InitialSync.{at_path}
use mydrive.Cmd.Server.Rounds.{ops_or_none}
use mydrive.Cmd.Serve.Events.{announce_entry}
use mydrive.Cmd.Serve.Lost.{tick-announce_entry}
use mydrive.Cmd.Client
use mydrive.Cmd.Client.{handle_server_message}
use mydrive.Cmd.Serve.Deletion.{handle_monitor_event-restart}
use mydrive.Tests.Codecs.{quoting}
use mydrive.Tests.DiskTests.{nodes-NodupKeys, base_there}
use mydrive.Tests.Worlds.{
  ours, base, file_a, nodes, disk, engine, deletion, no_clients, server_world, busy_world, digest,
}
use mydrive.Cmd.SyncOps.Inside.{IsRelPath}
use mydrive.Tests.Worlds.{entry_of_file}
use mydrive.Tests.TransferTests.{path_a, a_in_base, base_is_dir, a-IsName}

b_named : (bytes "b" == []) ≡ false
unfolding text_beq
b_named = refl

b_other : (bytes "b" == tombstone_file) ≡ false
unfolding text_beq
b_other = refl

nobody : (length (get_clients no_clients) == 0) ≡ true
unfolding get_clients Dict.values
nobody = refl

tombstones_free : is_dir_node (node_at disk (path_in engine tombstone_file)) ≡ false
unfolding join split enter enter_all text_beq path_beq Dict.get
tombstones_free = refl

pub tombstones_alone : has_below (path_in engine tombstone_file) nodes ≡ false
unfolding join split enter enter_all text_beq path_beq has_below is_under
tombstones_alone = refl

b_known : Dict.has engine.previous_paths (bytes "b") ≡ true
unfolding Dict.has Dict.get text_beq
b_known = refl

b_gone : holds (root_of engine) nodes (bytes "b") ≡ false
unfolding join split enter enter_all text_beq path_beq holds below rel
b_gone = refl

b-IsClean : RoundTrip.IsClean (bytes "b")
unfolding space_len_reversed
b-IsClean = record { one_line = (refl, tt); no_trailing_space = refl; fits = omega arith }

a-IsClean : RoundTrip.IsClean path_a
unfolding space_len_reversed
a-IsClean = record { one_line = (refl, tt); no_trailing_space = refl; fits = omega arith }

scanned_tombstones : Dict.keys (scanned digest engine disk).tombstones ≡ bytes "b" ∷ []
unfolding join split enter enter_all text_beq path_beq below rel visits insert_visit names_leb
    text_leb listing scan_local visible mark_missing Dict.insert_all Dict.insert Dict.get Dict.keys
scanned_tombstones = refl

scanned_paths : Dict.keys (scanned digest engine disk).previous_paths ≡ path_a ∷ []
unfolding join split enter enter_all text_beq path_beq below rel visits insert_visit names_leb
    text_leb listing scan_local visible mark_missing Dict.insert_all Dict.insert Dict.get Dict.keys
scanned_paths = refl

handle_monitor_event-restart_example :
    is_tombstoned
      (load_engine engine.base_dir
        (handle_monitor_event quoting digest (deletion (bytes "b")) 0 server_world).disk)
      (bytes "b")
    ≡ true
handle_monitor_event-restart_example =
    handle_monitor_event-restart quoting digest (deletion (bytes "b")) 0 server_world ours refl
      b_other b_named nobody nodes-NodupKeys base_there tombstones_free tombstones_alone b_known
      b_gone (rw scanned_tombstones (b-IsClean, tt)) (rw scanned_paths (a-IsClean, tt))

-- A creation, a modification and a deletion
abbrev three_changes : List ChangeEvent
three_changes =
    create_event (entry_of_file path_a)
    ∷ modify_event (entry_of_file path_a)
    ∷ delete_event path_a
    ∷ []

apply_ops-build_sync_ops_example :
    Within base disk (apply_ops base (map some (build_sync_ops three_changes)) disk).1
apply_ops-build_sync_ops_example =
    let clean : IsRelPath path_a = (path_a, [], (a-IsName, tt), refl) in
    apply_ops-build_sync_ops base three_changes disk base_is_dir (clean, (clean, (clean, tt)))

abbrev delete_b : Conn
delete_b = new_conn (8 ∷ 0 ∷ 0 ∷ 0 ∷ 3 ∷ 34 ∷ 97 ∷ 34 ∷ [])

delete_read : (read_message quoting delete_b).0 ≡ ok (message_of (file_delete path_a))
unfolding read_message read_payload_of read_full decode_from_bytes parse_message parse_as
    unmarshal_json uint32 new_conn
delete_read = refl

handle_message_safe_example :
    (handle_message quoting digest 1 (message_of (file_delete path_a)) 0 busy_world).0
    ≢ err no_payload
handle_message_safe_example =
    handle_message_safe quoting digest delete_b (message_of (file_delete path_a)) 1 0 busy_world
      delete_read

a_there : node_at disk file_a ≡ some (file ours (bytes "older"))
unfolding path_beq text_beq Dict.get
a_there = refl

handle_delete_lem_example :
    let (r, w') = handle_delete quoting digest 1 (message_of (file_delete path_a)) 0 busy_world in
    (r ≡ ok tt)
    × ((x : FilePath)
        → readable (node_at w'.disk x)
          ≡ (if is_under file_a x then none else readable (node_at disk x)))
    × ((x : FilePath)
        → is_some (node_at w'.disk x) ≡ (not (is_under file_a x) && is_some (node_at disk x)))
    × (is_tombstoned w'.engine path_a ≡ true)
    × (get w'.engine.remote_tree path_a ≡ none)
handle_delete_lem_example =
    handle_delete_lem quoting digest 1 0 (message_of (file_delete path_a)) busy_world path_a base
      (file ours (bytes "older")) a_in_base a_there

-- A disk with a new directory
abbrev path_d : Text
path_d = bytes "d"

abbrev with_dir : Disk
with_dir = record disk {
  nodes = ([], dir ours) ∷ (base, dir ours) ∷ (path_d ∷ base, dir ours) ∷ [];
}

abbrev world_d : World
world_d = record server_world { disk = with_dir }

abbrev entry_d : FileEntry
entry_d = record {
  path = path_d;
  entry_type = 2;
  mode = 0o644;
  uid = 0;
  gid = 0;
  mtime = pos 5;
  atime = pos 5;
  size = 64;
  content_hash = no_hash;
  seq = 0;
}

abbrev made_d : ChangeEvent
made_d = record {
  change_type = ChangeType.create;
  entry = some entry_d;
  path = path_d;
  old_path = [];
  new_path = [];
}

nodup_d : NodupKeys with_dir.nodes
unfolding Dict.get path_beq text_beq
nodup_d = (refl, (refl, (refl, tt)))

base_d : node_at with_dir (root_of engine) ≡ some (dir ours)
unfolding join split enter enter_all text_beq path_beq Dict.get
base_d = refl

seen_d : get (scanned digest engine with_dir).local_tree path_d ≡ some entry_d
unfolding join split enter enter_all text_beq path_beq below rel visits insert_visit names_leb
    text_leb listing entry_type_of scan_local visible set_all set stamp new_file_tree get
    Dict.insert Dict.get
seen_d = refl

same_d : entry_changed entry_d entry_d ≡ false
unfolding entry_changed text_beq
same_d = refl

remote-IsValid : IsValid engine.remote_tree
remote-IsValid = record { nodup = tt; keyed = tt }

tick-announce_entry_example :
    let e = (announce_entry quoting digest made_d 0 world_d).engine in
    let found = found_by digest engine with_dir in
    (get e.remote_tree path_d ≡ some (stamp engine.remote_tree entry_d))
    × (at_path path_d (ops_or_none (monitor_round found e).0) ≡ [])
    × ((c : Client.World)
        → (handle_server_message quoting digest
            (message_of (file_modify (stamp engine.remote_tree entry_d)))
            0
            c).1.disk
          ≡ c.disk)
tick-announce_entry_example =
    tick-announce_entry quoting digest made_d entry_d entry_d 0 world_d ours refl nodup_d base_d
      remote-IsValid seen_d same_d
