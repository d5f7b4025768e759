-- ===== src/Lib.antt =====
-- A verification library for file-sync, a program that keeps two directories on two machines the
-- same: a server and its clients talk over TCP, in frames that hold JSON.
--
-- The parts of the program, and the files that model them:
--
-- - protocol/message.go and protocol/json.go: the type bytes, the payload structs and the union
--   of all messages are Protocol/Msg, Protocol/FileType and Protocol/Message. encoding/json is
--   not in the repository: it is the parameter `Codec` of Protocol/Json, with the law that
--   decoding gives back a value that was encoded, where that value is plain. Tests/Codecs has
--   instances.
-- - protocol/codec.go: Protocol/Codec/Bytes, Parse and Frame have `encode`, `decode_frame`,
--   `decode_from_bytes`, `parse_message` and `payload` for Encode, DecodeFrame, DecodeFromBytes,
--   parseMessage and payload. Codec/RoundTrip and Codec/Safety are about them.
-- - netlayer/stream.go: Netlayer/Stream has the connection, with the bytes that are still to be
--   read and those that were written, and ReadMessage and WriteMessage on it.
-- - netlayer/server.go: Netlayer/Server has the registry of sessions and its operations, as
--   functions on a state; Server/Registry has a step relation for the connections and
--   disconnections of a run, Server/Broadcast what a broadcast writes.
-- - netlayer/client.go: Netlayer/Client has Connect over a list of attempts, SendHello and the
--   other senders; Client/Backoff and Client/Hello are about Connect and the handshake.
-- - sync/state.go: Sync/State has the file tree. sync/diff.go: Sync/Diff has Diff, DiffInitial,
--   pickWinner and entryChanged; Diff/Merge says what the changes amount to, Diff/Winner who
--   wins, Diff/Empty when there are none.
-- - packages os and path/filepath of Go's standard library, as far as the program uses them: Os
--   has the disk, a tree of directories and regular files, Os/Paths Join, Clean and Rel,
--   Os/Files the calls that read and change the disk, Os/Walk filepath.Walk; Os/Laws, Dirs,
--   Writes and Confined have the laws of the calls.
-- - sync/engine.go: Sync/Engine has the state of an engine and its operations behind the walk of
--   the disk, Engine/Scan what a scan makes of tombstones. Sync/OnDisk has NewEngine, ScanLocal,
--   ClearTombstones and SaveTombstones on the disk, OnDisk/Apply has ApplyChanges;
--   OnDisk/Scanned is about a scan, Restart about saving and loading, Failing about an operation
--   that fails, Times about the times of a file. Sync/Tombstones has SaveTombstones and
--   loadTombstones, down to the lines that bufio.Scanner cuts and the white space that
--   strings.TrimSpace takes off; Tombstones/RoundTrip is about a restart.
-- - sync/monitor.go: Sync/Monitor has the monitor as a state machine; Monitor/Burst is about a
--   burst of events and about ignored paths, Monitor/Invariant about any run, Monitor/Lifecycle
--   about its start and end.
-- - utils/fs.go and utils/hash.go: Utils/Content and Utils/Chunks have the writing of a chunk
--   and ReadFileChunked, on the content of a file; Utils/Fs has all other functions, on the
--   disk. Fs/Chunk is about WriteChunkAt, Fs/Attributes about ApplyAttrs, Fs/Listing and Kept
--   about WalkDirectory.
-- - config/config.go: Config.
-- - cmd/server/main.go and cmd/client/main.go: Cmd/SyncOps has buildSyncOps, and SyncOps/Inside
--   is about where its operations reach; Cmd/Server the part of handleClient for the tree of a
--   client, and a tick of monitorClientChanges, with Server/InitialSync and Server/Rounds about
--   them; Cmd/Session the conversation of handleClient up to its main loop, with Session/Safety
--   and Session/Tombstones about it; Cmd/FileData the streaming of a file, the case of FILE_DATA
--   in handleMessage and handleServerMessage, and the loop of runSession that receives the
--   contents, with FileData/Messages, Handling, Transfer and Total about them, and
--   FileData/Refinement about the disk that implements its files.
-- - cmd/server/main.go on the whole state of the server, the disk included: Cmd/Serve has
--   handleMessage and the main loop of handleClient, Serve/Events handleMonitorEvent and a tick,
--   Serve/Boot main, Serve/Conversation the whole of handleClient; Serve/Deleting, Deletion,
--   Lost, Safety and Progress, and Conversation/Progress and Tombstones, are about them.
-- - cmd/client/main.go on the whole state of the client: Cmd/Client has handleLocalEvent and
--   handleServerMessage, Client/Run runSession up to its main loop, Client/Steps the main loop,
--   runSession as a whole and the loop of main, Client/Boot main; Client/Contents, Received and
--   Total are about the contents that the client receives.
--
-- How they interact: an engine holds two file trees and the tombstones, and scans the disk; a
-- session of the server sends and receives messages through a connection, which uses the codec;
-- the changes between the trees of Sync/Diff become the operations that are sent, and that the
-- client applies to its disk; what a monitor reports is sent to the other side.
--
-- Conventions. A Go string or byte slice is the list of its bytes; an unsigned integer is a
-- natural number, with its wrap-around where it is added to; an int64 is an integer. A Go map is
-- an association list whose order is that of a `range` loop; a theorem about it holds for every
-- order. A mutex makes an operation one step on the state, and a handler of a message or an
-- event is one step of a program. A list of pointers in a message may hold nil. An error is the
-- constructor of a data type; the texts that wrap an error of the disk are left out. A read
-- through a nil pointer, which stops the program, is an error of its own. crypto/sha256 is a
-- parameter, as is the encoder of JSON.
--
-- The disk: base directories are absolute paths, there are no symbolic links or devices, the
-- process may create, read, write and remove everywhere, and the disk is never full. Attributes
-- may belong to someone else: then Chmod and Chtimes fail. Of a mode only the permission bits
-- are kept. The umask and the size of a directory are functions in the disk, and the time is a
-- field of it.
--
-- Fuel: `chunk_loop` has a round more than the file has bytes, and each round but the last reads
-- at least one; `receive_data` returns `none` when its fuel runs out, and each round but the
-- last reads a frame, so a round more than there are bytes to read is enough, as it is for
-- `receive_contents`, which ends with `unfinished` then. `serve` takes the number of rounds
-- after which its context is done; with more rounds than there are bytes to read it ends before.
-- `main_loop` and `reconnect_loop` take the list of what happens. The other loops recurse on
-- lists.
--
-- Not modelled: fsnotify and the sockets; the goroutines, so an interleaving of two handlers
-- between their operations; the delivery of signals, the flags and what is printed. The scripts
-- that test the programs are not modelled.
pub mod Base
pub mod Protocol
pub mod Sync
pub mod Netlayer
pub mod Os
pub mod Utils
pub mod Config
pub mod Cmd
mod Tests
