-- ===== src/Tests/CmdTests.antt =====
-- Runs of a server's session and of the transfer of a file, and their theorems at concrete inputs.
use mydrive.Base.{
  suc, ◌≡◌, ◌≢◌, ◌↔◌, ◌++◌, ◌&&◌, not, refl, sym, ap, [], ◌∷◌, List, Text, bytes, none, some, true,
  ok, length, drop, arith, All, if◌then◌else◌, nat_eq, text_eq, text_beq,
}
use mydrive.Base.Dict
use mydrive.Protocol.Msg
use mydrive.Protocol.Message.{FileEntry, AckPayload, message_of, ack}
use mydrive.Protocol.Json.{marshal_json, unmarshal_json}
use mydrive.Protocol.Codec.Frame.{encode, decode_frame, read_full}
use mydrive.Protocol.Codec.Parse.{payload, decode_from_bytes, parse_message, parse_as}
use mydrive.Protocol.Codec.Bytes.{put_uint32, uint32}
use mydrive.Protocol.Codec.RoundTrip.{IsPlain}
use mydrive.Netlayer.Stream.{Conn, new_conn, read_message, read_payload_of, write_message}
use mydrive.Utils.Chunks.{read_file_chunked, chunk_loop, read_buf, call_chunk}
use mydrive.Utils.Chunks.Calls.{Call, calls_of, run_calls, read_file_chunked-run_calls}
use mydrive.Utils.Chunks.Transfer.{keep_flag}
use mydrive.Sync.State.{
  get, contains, IsValid, new_file_tree, set_all, set, stamp, new_file_tree-IsValid,
}
use mydrive.Sync.Diff.Winner.{InSync}
use mydrive.Sync.Engine.{Engine, fresh_engine, visible, scan_local, is_tombstoned, add_tombstone}
use mydrive.Sync.Engine.Scan.{scan_local-IsValid}
use mydrive.Cmd.Server.{initial_sync, monitor_round}
use mydrive.Cmd.Server.InitialSync.{at_path, wanted, deletions, client_tree, at_path-initial_sync}
use mydrive.Cmd.Server.Rounds.{
  ops_or_none, mirrored, creates, monitor_round-eq-none_iff, at_path-monitor_round,
  creates-monitor_round,
}
use mydrive.Cmd.FileData.{content_of, stream_file, receive_data}
use mydrive.Cmd.FileData.Messages.{contents}
use mydrive.Cmd.FileData.Transfer.{receive_data-stream_file}
use mydrive.Cmd.FileData.Total.{receive_data_total}
use mydrive.Netlayer.Server.{ClientSession, new_session}
use mydrive.Cmd.Session.{nil_pointer, start_session, converse, greet, exchange_trees}
use mydrive.Protocol.Json.{Codec, Kind, Value, hello_payload, sync_tree}
use mydrive.Base.{Option, Result, err}
use mydrive.Cmd.Session.Safety.{HasNilEntry, start_session-nil_pointer}
use mydrive.Cmd.Session.Tombstones.{KeepsTombstones, start_session-KeepsTombstones}
use mydrive.Tests.Codecs.{quoting, chunking, chunking-IsLawful}
use mydrive.Tests.SyncTests.{file, a, b, c}

abbrev server : Engine
server = add_tombstone c (scan_local (file a 1 1 ∷ file b 5 2 ∷ []) (fresh_engine (bytes "/s")))

abbrev client : List FileEntry
client = file b 4 3 ∷ file c 1 4 ∷ []

at_path-initial_sync_example :
    at_path c (initial_sync client server).0
    ≡ wanted (get server.local_tree c) (get (client_tree client server) c)
      ++ (if not (contains server.local_tree c) && is_tombstoned server c
          then deletions c client
          else [])
unfolding add_tombstone
at_path-initial_sync_example =
    at_path-initial_sync c client server
      (scan_local-IsValid (file a 1 1 ∷ file b 5 2 ∷ []) (fresh_engine (bytes "/s"))).0

monitor_round-eq-none_iff_example : ((monitor_round (file a 1 1 ∷ []) server).0 ≡ none) ↔ (
    (p : Text)
    → InSync (get (scan_local (file a 1 1 ∷ []) server).local_tree p) (get server.remote_tree p))
monitor_round-eq-none_iff_example = monitor_round-eq-none_iff (file a 1 1 ∷ []) server

server-remote-IsValid : IsValid server.remote_tree
unfolding add_tombstone scan_local fresh_engine
server-remote-IsValid = new_file_tree-IsValid (bytes "/s")

at_path-monitor_round_example :
    (at_path a (ops_or_none (monitor_round (file a 1 1 ∷ []) server).0)
      ≡ mirrored a
          (get (scan_local (file a 1 1 ∷ []) server).local_tree a)
          (get server.remote_tree a))
    × ((monitor_round (file a 1 1 ∷ []) server).1.remote_tree ≡ server.remote_tree)
at_path-monitor_round_example =
    at_path-monitor_round a (file a 1 1 ∷ []) server server-remote-IsValid

found_a : get (scan_local (file a 1 1 ∷ []) server).local_tree a ≡ some (file a 1 1)
unfolding get scan_local add_tombstone visible set_all set stamp new_file_tree fresh_engine
    Dict.insert Dict.get text_beq
found_a = refl

client_lacks_a : get (client_tree client server) a ≡ none
unfolding get scan_local add_tombstone visible set_all set stamp new_file_tree fresh_engine
    Dict.insert Dict.get text_beq
client_lacks_a = refl

creates-monitor_round_example :
    (creates a (initial_sync client (scan_local (file a 1 1 ∷ []) server)).0 ≡ true)
    × (creates a (
          ops_or_none
            (monitor_round
              (file a 1 1 ∷ [])
              (initial_sync client (scan_local (file a 1 1 ∷ []) server)).1).0)
        ≡ true)
creates-monitor_round_example =
    creates-monitor_round client (file a 1 1 ∷ []) server a (file a 1 1) found_a refl client_lacks_a

read_file_chunked-run_calls_example :
    read_file_chunked keep_flag (bytes "new") [] ≡ run_calls keep_flag (calls_of (bytes "new")) []
read_file_chunked-run_calls_example =
    read_file_chunked-run_calls keep_flag (bytes "new") [] (omega arith)

receive_data_total_run :
    (receive_data quoting 9 (new_conn (8 ∷ 0 ∷ 0 ∷ 0 ∷ 3 ∷ 34 ∷ 97 ∷ 34 ∷ [])) []).0 ≢ none
unfolding new_conn
receive_data_total_run =
    receive_data_total quoting 9 (new_conn (8 ∷ 0 ∷ 0 ∷ 0 ∷ 3 ∷ 34 ∷ 97 ∷ 34 ∷ [])) [] (omega arith)

abbrev pub done : AckPayload
done = record { seq = 0; status = 0 }

pub contents-IsPlain :
    (path : Text) (l : List Call) → All (IsPlain chunking) (contents path l ++ ack done ∷ [])
contents-IsPlain path [] = (tt, tt)
contents-IsPlain path (call ∷ l) = (tt, contents-IsPlain path l)

abbrev pub frames : Text
frames =
    (Msg.file_data ∷ 0 ∷ 0 ∷ 0 ∷ 7 ∷ 0 ∷ 0 ∷ 1 ∷ (a ++ bytes "new"))
    ++ Msg.ack ∷ 0 ∷ 0 ∷ 0 ∷ 2 ∷ 0 ∷ 0 ∷ []

pub stream_file-frames :
    write_message chunking
      (message_of (ack done))
      (stream_file chunking a (bytes "new") (new_conn [])).1
    ≡ (ok tt, record (new_conn []) { output = frames })
unfolding stream_file read_file_chunked chunk_loop read_buf call_chunk write_message encode payload
    marshal_json put_uint32 new_conn
stream_file-frames = refl

pub streamed : (stream_file chunking a (bytes "new") (new_conn [])).0 ≡ ok tt
unfolding stream_file read_file_chunked chunk_loop read_buf call_chunk write_message encode payload
    marshal_json put_uint32 new_conn
streamed = refl

abbrev pub receiver : Conn
receiver = new_conn (frames ++ 7 ∷ [])

receive_data-stream_file_run :
    receive_data chunking (suc (length (calls_of (bytes "new")))) receiver ((a, bytes "older") ∷ [])
    ≡ (
      some (ok tt),
      record receiver { input = 7 ∷ [] },
      Dict.insert
          ((a, bytes "older") ∷ [])
          a
          (bytes "new" ++ drop 3 (content_of ((a, bytes "older") ∷ []) a)),
    )
unfolding new_conn
receive_data-stream_file_run =
    receive_data-stream_file chunking chunking-IsLawful a (bytes "new") (7 ∷ []) done (new_conn [])
      receiver ((a, bytes "older") ∷ []) (omega arith) (contents-IsPlain a (calls_of (bytes "new")))
      refl streamed (ap (λ o. o.0) stream_file-frames)
      (ap (λ o. o.1.output ++ 7 ∷ []) (sym stream_file-frames))

-- A codec that reads any HELLO and any tree.
abbrev unmarshal_any : (k : Kind) → Text → Result Text (Value k)
unmarshal_any hello_payload t = ok (record { client_id = t; sync_dir = t; version = t })
unmarshal_any sync_tree t = ok (record { entries = none ∷ [] })
unmarshal_any _ t = err (bytes "unsupported")

abbrev pub any_json : Codec
any_json = record {
  marshal = λ p. ok (bytes "{}");
  unmarshal = unmarshal_any;
  IsPlain = λ k v. Unit {0};
}

abbrev peer : ClientSession
peer = new_session 1 (Msg.hello ∷ 0 ∷ 0 ∷ 0 ∷ 1 ∷ 9 ∷ Msg.sync_init ∷ 0 ∷ 0 ∷ 0 ∷ 1 ∷ 9 ∷ [])

abbrev no_files : Text → Option Text
no_files path = none

-- A tree that is `[null]` stops the server.
attacked : (start_session any_json no_files [] peer server).0 ≡ nil_pointer
unfolding start_session converse greet exchange_trees read_message read_payload_of write_message
    encode read_full decode_from_bytes parse_message parse_as unmarshal_json marshal_json payload
    uint32 new_conn
attacked = refl

start_session-nil_pointer_example : HasNilEntry any_json (decode_frame any_json peer.conn.input).1
unfolding new_conn
start_session-nil_pointer_example =
    start_session-nil_pointer any_json no_files [] peer server attacked

start_session-KeepsTombstones_run :
    KeepsTombstones
      (scan_local [] server)
      (start_session any_json no_files [] peer server).0
      (start_session any_json no_files [] peer server).2
start_session-KeepsTombstones_run = start_session-KeepsTombstones any_json no_files [] peer server
