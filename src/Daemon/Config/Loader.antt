-- ===== src/Daemon/Config/Loader.antt =====
-- `load_config` of daemon/daemon/config.py.
use mathlib.Core.Option
use mathlib.Core.Option.{get_or}
use peerdup.Prelude.{
  ℕ, Text, codes, truthy, Bool, true, false, not, ◌&&◌, ◌||◌, Option, none, some, List, [], ◌∷◌,
  ◌++◌, map, if◌then◌else◌, ◌==◌, text_eq,
}
use peerdup.Prelude.Table.{is_some}
use peerdup.Daemon.Coordinator.{Reply, returns, raises, value_error}
use peerdup.Daemon.Config.{
  Environment, RawRegistry, RawShare, Raw, DaemonConfig, RegistryConfig, IdentityConfig,
  LibtorrentConfig, LanConfig, RelayConfig, ShareConfig, Config,
}

abbrev pub given : Option Text → Bool
given none = false
given (some t) = truthy t

-- The registry's section: TLS is on by default if the file has an address and does not say.
unfoldable pub registry_from : RawRegistry → RegistryConfig
registry_from raw =
    let address = get_or raw.address [] in
    record {
      address = address;
      tls = if truthy address && not (is_some raw.tls) then true else get_or raw.tls false;
      ca_file = raw.ca_file;
      cert_file = raw.cert_file;
      key_file = raw.key_file;
    }

abbrev share_from : RawShare → ShareConfig
share_from s = record {
  share_id = s.share_id;
  local_path = s.local_path;
  permission = get_or s.permission (codes "rw");
}

-- The command line: `--log-level`, `--name`, `--registry` and `--socket`.
pub record Arguments : Type 0 where
  pub log_level : Option Text
  pub name : Option Text
  pub registry : Option Text
  pub socket : Option Text

-- A key of `_apply_overrides` with its value: an attribute of a section that `section_map` has, a whole
-- field of the configuration, or a key that there is not. A field of a data class is given a value of its
-- type; Python takes any.
pub data Override : Type 0 where
  daemon_name daemon_data_dir daemon_socket_path : Text → Override
  daemon_listen_port : ℕ → Override
  registry_address : Text → Override
  registry_tls : Bool → Override
  registry_ca_file registry_cert_file registry_key_file : Option Text → Override
  identity_key_file identity_name : Text → Override
  libtorrent_listen_interfaces : Text → Override
  libtorrent_upload_rate_limit libtorrent_download_rate_limit : ℕ → Override
  lan_enabled : Bool → Override
  lan_interface : Text → Override
  lan_announce_interval : ℕ → Override
  lan_multicast_group : Text → Override
  lan_multicast_port : ℕ → Override
  logging_level : Text → Override
  whole_daemon : DaemonConfig → Override
  whole_registry : RegistryConfig → Override
  whole_identity : IdentityConfig → Override
  whole_libtorrent : LibtorrentConfig → Override
  whole_lan : LanConfig → Override
  whole_relay : RelayConfig → Override
  whole_logging : Text → Override
  whole_shares : List ShareConfig → Override
  other_key : Text → Override

abbrev overriding : (Text → Override) → Option Text → List Override
overriding key value = if given value then key (get_or value []) ∷ [] else []

-- `setattr` on a section that `section_map` has.
unfoldable pub apply_override : Override → Config → Config
apply_override (daemon_name v) c = record c { daemon = record c.daemon { name = v } }
apply_override (daemon_data_dir v) c = record c { daemon = record c.daemon { data_dir = v } }
apply_override (daemon_socket_path v) c = record c { daemon = record c.daemon { socket_path = v } }
apply_override (daemon_listen_port v) c = record c { daemon = record c.daemon { listen_port = v } }
apply_override (registry_address v) c = record c { registry = record c.registry { address = v } }
apply_override (registry_tls v) c = record c { registry = record c.registry { tls = v } }
apply_override (registry_ca_file v) c = record c { registry = record c.registry { ca_file = v } }
apply_override (registry_cert_file v) c = record c {
  registry = record c.registry { cert_file = v };
}
apply_override (registry_key_file v) c = record c { registry = record c.registry { key_file = v } }
apply_override (identity_key_file v) c = record c { identity = record c.identity { key_file = v } }
apply_override (identity_name v) c = record c { identity = record c.identity { name = v } }
apply_override (libtorrent_listen_interfaces v) c = record c {
  libtorrent = record c.libtorrent { listen_interfaces = v };
}
apply_override (libtorrent_upload_rate_limit v) c = record c {
  libtorrent = record c.libtorrent { upload_rate_limit = v };
}
apply_override (libtorrent_download_rate_limit v) c = record c {
  libtorrent = record c.libtorrent { download_rate_limit = v };
}
apply_override (lan_enabled v) c = record c { lan = record c.lan { enabled = v } }
apply_override (lan_interface v) c = record c { lan = record c.lan { interface = v } }
apply_override (lan_announce_interval v) c = record c {
  lan = record c.lan { announce_interval = v };
}
apply_override (lan_multicast_group v) c = record c { lan = record c.lan { multicast_group = v } }
apply_override (lan_multicast_port v) c = record c { lan = record c.lan { multicast_port = v } }
apply_override (logging_level v) c = record c { level = v }
apply_override _ c = c

-- `setattr` on the configuration.
unfoldable pub replace_field : Override → Config → Config
replace_field (whole_daemon v) c = record c { daemon = v }
replace_field (whole_registry v) c = record c { registry = v }
replace_field (whole_identity v) c = record c { identity = v }
replace_field (whole_libtorrent v) c = record c { libtorrent = v }
replace_field (whole_lan v) c = record c { lan = v }
replace_field (whole_relay v) c = record c { relay = v }
replace_field (whole_logging v) c = record c { level = v }
replace_field (whole_shares v) c = record c { shares = v }
replace_field _ c = c

unfoldable pub apply_attributes : List Override → Config → Config
unfolding apply_override
apply_attributes [] c = c
apply_attributes (o ∷ os) c = apply_attributes os (apply_override o c)

unfoldable pub replace_fields : List Override → Config → Config
unfolding replace_field
replace_fields [] c = c
replace_fields (o ∷ os) c = replace_fields os (replace_field o c)

-- `_apply_overrides`: the attributes are set on the sections that were there at the start, whether or not a
-- field has been replaced in between, so that a replacement counts after them all.
unfoldable pub apply_overrides : List Override → Config → Config
unfolding apply_attributes replace_fields
apply_overrides os c = replace_fields os (apply_attributes os c)

abbrev is_permission : Text → Bool
is_permission p = (p == codes "rw") || ((p == codes "ro") || (p == codes "encrypted"))

unfoldable pub permissions_ok : List ShareConfig → Bool
permissions_ok [] = true
permissions_ok (s ∷ ss) = is_permission s.permission && permissions_ok ss

unfoldable pub is_level : Text → Bool
is_level t =
    (t == codes "DEBUG")
    || ((t == codes "INFO")
        || ((t == codes "WARNING") || ((t == codes "ERROR") || (t == codes "CRITICAL"))))

module _ (e : Environment) where
  -- `xdg or expanduser(...)`
  abbrev data_home : Text
  data_home = if given e.xdg_data_home then get_or e.xdg_data_home [] else e.home_share

  abbrev default_data_dir : Text
  default_data_dir =
      if e.is_root then codes "/var/lib/peerdup" else e.join (data_home ∷ codes "peerdup" ∷ [])

  abbrev default_socket_path : Text
  default_socket_path =
      if given e.xdg_runtime_dir
      then e.join (get_or e.xdg_runtime_dir [] ∷ codes "peerdup" ∷ codes "control.sock" ∷ [])
      else codes "/run/peerdup/control.sock"

  abbrev default_identity_key : Text
  default_identity_key =
      if e.is_root
      then codes "/var/lib/peerdup/identity.key"
      else e.join (data_home ∷ codes "peerdup" ∷ codes "identity.key" ∷ [])

  -- `_from_dict`
  unfoldable pub from_dict : Raw → Config
  unfolding registry_from
  from_dict raw = record {
    daemon = record {
      name = get_or raw.daemon.name (codes "peerdup-daemon");
      data_dir = get_or raw.daemon.data_dir default_data_dir;
      socket_path = get_or raw.daemon.socket_path default_socket_path;
      listen_port = get_or raw.daemon.listen_port 55_000;
    };
    registry = registry_from raw.registry;
    identity = record {
      key_file = get_or raw.identity.key_file default_identity_key;
      name = get_or raw.identity.name (codes "peerdup-node");
    };
    libtorrent = record {
      listen_interfaces = get_or raw.libtorrent.listen_interfaces (codes "0.0.0.0:55000");
      upload_rate_limit = get_or raw.libtorrent.upload_rate_limit 0;
      download_rate_limit = get_or raw.libtorrent.download_rate_limit 0;
    };
    lan = record {
      enabled = get_or raw.lan.enabled true;
      interface = get_or raw.lan.interface [];
      announce_interval = get_or raw.lan.announce_interval 30;
      multicast_group = get_or raw.lan.multicast_group (codes "239.193.0.0");
      multicast_port = get_or raw.lan.multicast_port 49_152;
    };
    relay = record {
      enabled = get_or raw.relay.enabled false;
      address = get_or raw.relay.address [];
      pair_timeout = get_or raw.relay.pair_timeout 120;
    };
    level = get_or raw.level (codes "INFO");
    shares = map share_from raw.shares;
  }

  -- The overrides that the command line gives.
  unfoldable pub overrides_of : Arguments → List Override
  overrides_of args =
      overriding (λ v. logging_level (e.upper v)) args.log_level
      ++ (overriding identity_name args.name
          ++ (overriding registry_address args.registry
              ++ overriding daemon_socket_path args.socket))

  abbrev expand_given : Option Text → Option Text
  expand_given file = if given file then Option.map e.expand file else file

  -- `_resolve_paths`
  unfoldable pub resolve_paths : Config → Config
  resolve_paths c = record c {
    daemon = record c.daemon {
      data_dir = e.expand c.daemon.data_dir;
      socket_path = e.expand c.daemon.socket_path;
    };
    identity = record c.identity { key_file = e.expand c.identity.key_file };
    registry = record c.registry {
      ca_file = expand_given c.registry.ca_file;
      cert_file = expand_given c.registry.cert_file;
      key_file = expand_given c.registry.key_file;
    };
    shares = map {A = ShareConfig} (λ s. record s { local_path = e.expand s.local_path }) c.shares;
  }

  -- `_validate`: whether it passes
  unfoldable pub validate : Config → Bool
  unfolding permissions_ok is_level
  validate c = permissions_ok c.shares && is_level (e.upper c.level)

  -- `load_config`
  unfoldable pub load_config : Raw → List Override → Reply Config
  unfolding from_dict apply_overrides resolve_paths validate
  load_config raw overrides =
      let c = resolve_paths (apply_overrides overrides (from_dict raw)) in
      if validate c then returns c else raises value_error
