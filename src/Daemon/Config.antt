-- ===== src/Daemon/Config.antt =====
-- The configuration of the daemon: daemon/daemon/config.py, with the arguments of daemon/daemon/daemon.py
-- that override it. A section of the file is given by the keys that the code knows, none where one is
-- missing; the reading of TOML is left out.

pub mod Loader
pub mod Transport
use mathlib.Core.Option.{get_or}
use peerdup.Prelude.{
  ℕ, Text, codes, truthy, Bool, true, false, not, ◌&&◌, ◌||◌, Option, none, some, List, [], ◌∷◌,
  ◌++◌, map, if◌then◌else◌, ◌==◌, text_eq,
}
use peerdup.Prelude.Table.{is_some}
use peerdup.Daemon.Coordinator.{Reply, returns, raises, value_error}

-- The environment, and what the library makes of paths: `os.path.join`, `expanduser` of ~/.local/share, and
-- `expand` of a path.
pub record Environment : Type 0 where
  pub xdg_runtime_dir : Option Text
  pub xdg_data_home : Option Text
  pub home_share : Text
  pub is_root : Bool
  pub join : List Text → Text
  pub expand : Text → Text
  pub upper : Text → Text

pub record RawDaemon : Type 0 where
  pub name : Option Text
  pub data_dir : Option Text
  pub socket_path : Option Text
  pub listen_port : Option ℕ

pub record RawRegistry : Type 0 where
  pub address : Option Text
  pub tls : Option Bool
  pub ca_file : Option Text
  pub cert_file : Option Text
  pub key_file : Option Text

pub record RawIdentity : Type 0 where
  pub key_file : Option Text
  pub name : Option Text

pub record RawLibtorrent : Type 0 where
  pub listen_interfaces : Option Text
  pub upload_rate_limit : Option ℕ
  pub download_rate_limit : Option ℕ

pub record RawLan : Type 0 where
  pub enabled : Option Bool
  pub interface : Option Text
  pub announce_interval : Option ℕ
  pub multicast_group : Option Text
  pub multicast_port : Option ℕ

pub record RawRelay : Type 0 where
  pub enabled : Option Bool
  pub address : Option Text
  pub pair_timeout : Option ℕ

pub record RawShare : Type 0 where
  pub share_id : Text
  pub local_path : Text
  pub permission : Option Text

pub record Raw : Type 0 where
  pub daemon : RawDaemon
  pub registry : RawRegistry
  pub identity : RawIdentity
  pub libtorrent : RawLibtorrent
  pub lan : RawLan
  pub relay : RawRelay
  pub level : Option Text
  pub shares : List RawShare

pub record DaemonConfig : Type 0 where
  pub name : Text
  pub data_dir : Text
  pub socket_path : Text
  pub listen_port : ℕ

pub record RegistryConfig : Type 0 where
  pub address : Text
  pub tls : Bool
  pub ca_file : Option Text
  pub cert_file : Option Text
  pub key_file : Option Text

pub record IdentityConfig : Type 0 where
  pub key_file : Text
  pub name : Text

pub record LibtorrentConfig : Type 0 where
  pub listen_interfaces : Text
  pub upload_rate_limit : ℕ
  pub download_rate_limit : ℕ

pub record LanConfig : Type 0 where
  pub enabled : Bool
  pub interface : Text
  pub announce_interval : ℕ
  pub multicast_group : Text
  pub multicast_port : ℕ

pub record RelayConfig : Type 0 where
  pub enabled : Bool
  pub address : Text
  pub pair_timeout : ℕ

pub record ShareConfig : Type 0 where
  pub share_id : Text
  pub local_path : Text
  pub permission : Text

pub record Config : Type 0 where
  pub daemon : DaemonConfig
  pub registry : RegistryConfig
  pub identity : IdentityConfig
  pub libtorrent : LibtorrentConfig
  pub lan : LanConfig
  pub relay : RelayConfig
  pub level : Text
  pub shares : List ShareConfig
