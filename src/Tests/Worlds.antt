-- ===== src/Tests/Worlds.antt =====
-- A small disk, and the states of a server and of a client on it.
use mydrive.Base.{[], ◌∷◌, Text, bytes, none, some, true}
use mydrive.Base.Int.{pos}
use mydrive.Base.Dict.{Dict}
use mydrive.Protocol.Message.{FileEntry, ChangeEvent, ChangeType}
use mydrive.Netlayer.Client.{new_client}
use mydrive.Netlayer.Server.{Server}
use mydrive.Os.{FilePath, Attrs, Node, file, dir, Disk}
use mydrive.Sync.Engine.{Engine}
use mydrive.Sync.State.{FileTree}
use mydrive.Sync.Monitor.{Monitor}
use mydrive.Cmd.Serve
use mydrive.Cmd.Client
use mydrive.Tests.CmdTests.{receiver}

abbrev pub ours : Attrs
ours = record { mode = 0o644; mtime = pos 5; owned = true }

abbrev pub base : FilePath
base = bytes "s" ∷ []

abbrev pub file_a : FilePath
file_a = bytes "a" ∷ base

abbrev pub nodes : Dict FilePath Node
nodes = ([], dir ours) ∷ (base, dir ours) ∷ (file_a, file ours (bytes "older")) ∷ []

abbrev pub disk : Disk
disk = record { nodes = nodes; now = pos 9; masked = λ m. m; dir_size = λ p. 64 }

abbrev pub empty_tree : FileTree
empty_tree = record { entries = []; next_seq = 0; base_dir = bytes "/s" }

-- An engine that knows a path which the disk has not.
abbrev pub engine : Engine
engine = record {
  base_dir = bytes "/s";
  local_tree = empty_tree;
  remote_tree = empty_tree;
  tombstones = [];
  previous_paths = (bytes "b", true) ∷ [];
}

abbrev pub monitor : Monitor
monitor = record { watched = []; ch = []; debounce = []; ignore_map = [] }

abbrev pub no_clients : Server
no_clients = record { addr = []; clients = []; next_id = 1; listening = true }

abbrev pub one_client : Server
one_client = record no_clients {
  clients = (1, record { id = 1; conn = receiver; sync_dir = [] }) ∷ [];
}

abbrev pub server_world : Serve.World
server_world = record { disk = disk; engine = engine; server = no_clients; monitor = monitor }

abbrev pub busy_world : Serve.World
busy_world = record server_world { server = one_client }

abbrev pub client_world : Client.World
client_world = record {
  disk = disk;
  engine = engine;
  client = record (new_client []) { conn = some receiver };
  monitor = none;
}

abbrev pub entry_of_file : Text → FileEntry
entry_of_file path = record {
  path = path;
  entry_type = 1;
  mode = 0o600;
  uid = 0;
  gid = 0;
  mtime = pos 3;
  atime = pos 3;
  size = 0;
  content_hash = [];
  seq = 0;
}

abbrev pub deletion : Text → ChangeEvent
deletion path = record {
  change_type = ChangeType.delete;
  entry = none;
  path = path;
  old_path = [];
  new_path = [];
}

-- A function of the type of sha256
abbrev pub digest : Text → Text
digest t = t
