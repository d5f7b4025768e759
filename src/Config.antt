-- ===== src/Config.antt =====
-- config/config.go: the configurations and their defaults. The program gives no negative number.
use mydrive.Base.{ℕ, [], Bool, true, Text, bytes}

pub record ServerConfig : Type 0 where
  pub listen_addr : Text
  pub server_dir : Text
  pub log_level : Text
  pub max_clients : ℕ

pub record ClientConfig : Type 0 where
  pub server_addr : Text
  pub local_dir : Text
  pub client_id : Text
  pub log_level : Text
  pub reconnect : Bool
  pub max_delay_sec : ℕ

-- DefaultServerConfig
abbrev pub default_server_config : ServerConfig
default_server_config = record {
  listen_addr = bytes ":8765";
  server_dir = bytes "/data/sync";
  log_level = bytes "info";
  max_clients = 50;
}

-- DefaultClientConfig
abbrev pub default_client_config : ClientConfig
default_client_config = record {
  server_addr = bytes "127.0.0.1:8765";
  local_dir = bytes "/home/user/sync";
  client_id = [];
  log_level = bytes "info";
  reconnect = true;
  max_delay_sec = 60;
}
