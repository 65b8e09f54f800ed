-- ===== src/Daemon/Tests/Outer.antt =====
-- What the theorems say of the daemon's edges: daemon/daemon/watcher/fs.py, daemon/daemon/registry/client.py,
-- daemon/daemon/control/servicer.py, daemon/daemon/config.py, and the files and views of daemon/daemon/sync.
use mathlib.Core.Option.{get_or}
use peerdup.Prelude.{
  select, ◌≤◌, ◌⊎◌, ℕ, suc, ◌+◌, ◌++◌, truthy, leb, ltb, Text, Bytes, codes, true, false, ◌||◌, ◌≡◌,
  refl, none, some, Option, List, [], ◌∷◌, text_eq, arith, text_beq, inl, inr, map,
}
use peerdup.Prelude.Table
use peerdup.Daemon.Agreement.{Matches}
use peerdup.Relay.Hello.{body}
use peerdup.Relay.Server.{Relay, connect, steps}
use peerdup.Daemon.Bridge.{keys_of, hello_of, frames_to, is_paired, IsHello, bridges_meet}
use peerdup.Daemon.Tests.Sample.{you}
use peerdup.Registry.Messages.{SharePeer, read_write}
use peerdup.Registry.Auth.{authenticated_peer}
use peerdup.Daemon.State.{last_write_wins}
use peerdup.Daemon.World.{World, Daemon}
use peerdup.Daemon.Identity.{peer_id}
use peerdup.Daemon.Coordinator.{returns}
use peerdup.Daemon.Coordinator.Loops.{created, modified, deleted, moved}
use peerdup.Daemon.Watcher.{
  Turn, time_passes, notice, timer_fires, flush_gets_lock, timer_restarts, fresh, run, event_of,
  notices, file_created, file_deleted, file_moved, directory_moved, Change,
}
use peerdup.Daemon.Watcher.Summary.{told, due, left, view}
use peerdup.Daemon.Watcher.Reports.{run-Refines}
use peerdup.Daemon.Watcher.Measure.{is_quiet, elapsed, acts, work, round}
use peerdup.Daemon.Watcher.Quiet.{calm-Reports}
use peerdup.Daemon.Client
use peerdup.Daemon.Client.{insecure, RegistryClient, inject}
use peerdup.Daemon.Client.Token.{register_peer, registered_client_is_known}
use peerdup.Daemon.Client.Connecting.{
  registry_connect_loop, planned, is_running, activate_all, connects,
}
use peerdup.Daemon.Positions.{FilePath, File, file_path, preposition_files}
use peerdup.Daemon.Positions.Kept.{Kept, preposition_files-Keeps}
use peerdup.Daemon.Views.Roster.{RosterRow, row_key, granted_key, known_key, roster}
use peerdup.Daemon.Views.Complete.{roster-Complete}
use peerdup.Daemon.Views.Order.{IsOrdered}
use peerdup.Daemon.Servicer.Handlers.{serve}
use peerdup.Daemon.Servicer.{
  aborted, internal, answered, done, pause_share, grant_access, create_share, Outside,
}
use peerdup.Daemon.Config.{Environment, Raw, Config}
use peerdup.Daemon.Config.Loader.{
  resolve_paths, apply_overrides, from_dict, registry_from, load_config, overrides_of, Arguments,
}
use peerdup.Daemon.Config.Transport.{address_or, load_config-tls}
use peerdup.Daemon.Tests.Sample.{world, share, daemon, me, env, music, other, sevens, friend}
use peerdup.Daemon.Tests.Signing.{env-Matches, registry, caller}

-- A file is deleted and created again at once, and another one is moved.
abbrev turns : List Turn
turns =
    notice 0 (codes "a", (deleted, none))
    ∷ time_passes 100
    ∷ notice 20 (codes "a", (created, none))
    ∷ notice 0 (codes "b", (moved, some (codes "c")))
    ∷ time_passes 550
    ∷ timer_fires
    ∷ flush_gets_lock
    ∷ notice 0 (codes "b", (modified, none))
    ∷ []

run-Refines_example :
    (told (codes "a") (run turns fresh).0 ≡ due (codes "a") none (run turns fresh).0)
    × (left (codes "a") none (run turns fresh).0 ≡ view (codes "a") (run turns fresh).1.pending)
run-Refines_example = run-Refines (codes "a") turns

deletion_stays : told (codes "a") (run turns fresh).0 ≡ some (deleted, none) ∷ []
unfolding told run peerdup.Daemon.Watcher.take_turn peerdup.Daemon.Watcher.debounce
    peerdup.Daemon.Watcher.is_deleted Table.find text_beq peerdup.Daemon.Watcher.collect
    peerdup.Prelude.select
deletion_stays = refl

-- The timer fires and is started again before the last turns of the threads.
abbrev waiting : List Turn
waiting = time_passes 500 ∷ timer_restarts ∷ []

abbrev last_turns : List Turn
last_turns = time_passes 500 ∷ timer_fires ∷ flush_gets_lock ∷ []

calm-Reports_example :
    let e = (run waiting (run turns fresh).1).1 in
    let all = run (turns ++ waiting ++ last_turns) fresh in
    (acts last_turns e ≤ work e)
    × (((all.1.pending ≡ []) × ((q : Text) → left q none all.0 ≡ none)) ⊎ (1 ≤ acts round all.1))
unfolding is_quiet elapsed
calm-Reports_example = calm-Reports turns waiting last_turns refl (omega arith) refl

abbrev client : RegistryClient
client = record {
  address = codes "registry:50051";
  tls = false;
  ca_file = none;
  cert_file = none;
  key_file = none;
  token = none;
  channel = none;
  last_rpc_ok_at = none;
}

registered_client_is_known_example :
    let (after, server) = register_peer env (caller []) me (codes "me") 5 (client, registry) in
    authenticated_peer env
      (record { metadata = get_or (inject after.token none) []; peer = codes "ipv4:1.2.3.4:5000" })
      server.db
    ≡ some (peer_id me)
unfolding peerdup.Daemon.Identity.sign_register peerdup.Registry.Crypto.encode Table.find
registered_client_is_known_example =
    registered_client_is_known env (caller []) me env-Matches (codes "me")
      (codes "ipv4:1.2.3.4:5000") 5 sevens client registry none refl refl refl

-- A registry that takes the third attempt.
abbrev patient : World
patient = record world { registry_accepts = leb 2 }

abbrev here : Daemon
here = daemon (share last_write_wins)

connects_example :
    registry_connect_loop patient true 3 here
    ≡ some (
      planned 0 2,
      activate_all patient (select is_running here.db.shares) (record here { reads = 3 }),
    )
connects_example =
    connects patient 2 3 here (omega arith) (λ k less. ground (arith, less)) refl (λ n path. refl)
      (λ n path. refl)

abbrev song : File
song = record {
  path = codes "home" ∷ codes "music" ∷ codes "old" ∷ codes "song" ∷ [];
  size = 5;
  content = codes "la";
}

abbrev layout : List (FilePath × ℕ)
layout = ((codes "home" ∷ codes "music" ∷ codes "new" ∷ codes "song" ∷ []), 5) ∷ []

abbrev root : FilePath
root = codes "home" ∷ codes "music" ∷ []

preposition_files-Keeps_example :
    Kept song.path
      (map (λ t. t.0) layout)
      song
      (preposition_files (λ src dest. true) (λ p. true) root layout [] (song ∷ [])).1
unfolding peerdup.Daemon.Positions.mem_path peerdup.Daemon.Positions.same_parts text_beq Table.find
preposition_files-Keeps_example =
    preposition_files-Keeps (λ src dest. true) (λ p. true) root layout [] song.path song (song ∷ [])
      (refl, tt) refl refl refl

abbrev granted : List SharePeer
granted =
    record {
      peer_id = other;
      name = codes "friend";
      permission = read_write;
      online = true;
      addresses = [];
      last_seen = none;
      info_hash = [];
    }
    ∷ record {
      peer_id = peer_id me;
      name = codes "me";
      permission = read_write;
      online = true;
      addresses = [];
      last_seen = none;
      info_hash = [];
    }
    ∷ []

abbrev rows : List RosterRow
rows = roster (peer_id me) (λ t. t) (some (share last_write_wins)) granted (friend ∷ [])

roster-Complete_example :
    ((p : Text)
      → Table.has row_key p rows
        ≡ (Table.has granted_key p granted || Table.has known_key p (friend ∷ [])))
    × Table.IsUnique row_key rows
    × IsOrdered (peer_id me) rows
roster-Complete_example =
    roster-Complete (peer_id me) (λ t. t) (some (share last_write_wins)) granted (friend ∷ [])

abbrev outside : Outside
outside = record {
  torrent = λ t. none;
  registry = λ t. none;
  lower = λ t. t;
  own_name = codes "me";
}

abbrev environment : Environment
environment = record {
  xdg_runtime_dir = none;
  xdg_data_home = none;
  home_share = codes "/home/me/.local/share";
  is_root = false;
  join = λ parts. codes "/home/me/peerdup";
  expand = λ t. t;
  upper = λ t. t;
}

abbrev empty : Raw
empty = record {
  daemon = record { name = none; data_dir = none; socket_path = none; listen_port = none };
  registry = record {
    address = none;
    tls = none;
    ca_file = none;
    cert_file = none;
    key_file = none;
  };
  identity = record { key_file = none; name = none };
  libtorrent = record {
    listen_interfaces = none;
    upload_rate_limit = none;
    download_rate_limit = none;
  };
  lan = record {
    enabled = none;
    interface = none;
    announce_interval = none;
    multicast_group = none;
    multicast_port = none;
  };
  relay = record { enabled = none; address = none; pair_timeout = none };
  level = none;
  shares = [];
}

abbrev arguments : Arguments
arguments = record {
  log_level = none;
  name = none;
  registry = some (codes "registry:50051");
  socket = none;
}

-- The address of the command line alone: the registry is reached without TLS.
abbrev overridden : Config
overridden =
    resolve_paths environment
      (apply_overrides (overrides_of environment arguments) (from_dict environment empty))

load_config-tls_example :
    (overridden.registry.tls
      ≡ get_or empty.registry.tls (truthy (get_or empty.registry.address [])))
    × (overridden.registry.address
        ≡ address_or arguments.registry (get_or empty.registry.address []))
unfolding load_config text_beq overrides_of
load_config-tls_example = load_config-tls environment empty arguments overridden refl

overridden_is_plain : overridden.registry.tls ≡ false
unfolding resolve_paths apply_overrides from_dict overrides_of
overridden_is_plain = refl

from_file_is_secure :
    (registry_from (record empty.registry { address = some (codes "registry:50051") })).tls ≡ true
unfolding registry_from
from_file_is_secure = refl

-- The song goes to its new place, and the daemon is told to check the torrent again.
song_moves :
    preposition_files (λ src dest. true) (λ p. true) root layout (song.path ∷ []) (song ∷ []) ≡ (
      true,
      record song { path = codes "home" ∷ codes "music" ∷ codes "new" ∷ codes "song" ∷ [] } ∷ [],
    )
unfolding preposition_files peerdup.Daemon.Positions.place_file peerdup.Daemon.Positions.mem_path
    Table.find peerdup.Daemon.Positions.same_parts text_beq peerdup.Daemon.Positions.find_local
    peerdup.Daemon.Positions.rename peerdup.Prelude.select
song_moves = refl

abbrev twice : List (FilePath × ℕ)
twice = (song.path, 5) ∷ layout

-- A file that is in place is moved away when another place wants a file of its name and size.
in_place_is_moved : preposition_files (λ src dest. true) (λ p. true) root twice [] (song ∷ []) ≡ (
  true,
  record song { path = codes "home" ∷ codes "music" ∷ codes "new" ∷ codes "song" ∷ [] } ∷ [],
)
unfolding preposition_files peerdup.Daemon.Positions.place_file Table.find
    peerdup.Daemon.Positions.same_parts text_beq peerdup.Daemon.Positions.find_local
    peerdup.Daemon.Positions.rename peerdup.Prelude.select
in_place_is_moved = refl

-- A directory that was moved counts as the files in it.
directory_moves :
    notices (directory_moved ((codes "x/a", codes "y/a") ∷ (codes "x/b", codes "y/b") ∷ []))
    ≡ (codes "x/a", (moved, some (codes "y/a"))) ∷ (codes "x/b", (moved, some (codes "y/b"))) ∷ []
unfolding notices
directory_moves = refl

moved_event :
    event_of music
      (λ p. codes "rel" ++ p)
      (record { path = codes "a"; change = (moved, some (codes "b")); deadline = 1 })
    ≡ record {
      share_id = music;
      rel_path = codes "rela";
      change_type = moved;
      dest_path = some (codes "relb");
    }
moved_event = refl

-- A permission that there is not is an internal error, not an invalid argument.
bad_permission :
    (serve world outside (grant_access music other (codes "admin")) here).0 ≡ aborted internal
unfolding serve peerdup.Daemon.Coordinator.Control.grant_access Table.find text_beq
    peerdup.Daemon.Servicer.missing_or_denied peerdup.Daemon.Servicer.answer
bad_permission = refl

-- A share that there is not can be paused.
unknown_pauses : (serve world outside (pause_share (codes "none")) here).0 ≡ answered done
unfolding serve
unknown_pauses = refl

plain_channel :
    Client.connect (λ path. none) client ≡ some (record client { channel = some insecure })
unfolding Client.connect
plain_channel = refl

missing_authority :
    Client.connect (λ path. none) (record client { tls = true; ca_file = some (codes "ca.pem") })
    ≡ none
unfolding Client.connect
missing_authority = refl

you-Matches : Matches env you
unfolding text_beq
you-Matches = record { decodes = λ t. refl; own_key = refl; verifies = λ m. refl }

abbrev idle : Relay
idle = record { max_waiting = 2; waiting = []; pipes = []; woken = []; sent = []; closed = [] }

mine-IsHello : IsHello env me music (peer_id you) 1_000 1_000 300 sevens
unfolding peerdup.Daemon.Identity.sign_relay_hello peerdup.Relay.Hello.to_bytes_8
    peerdup.Relay.Hello.is_stale
mine-IsHello = record { signed = refl; bytes = ground arith; in_time = refl; small = refl }

yours-IsHello : IsHello env you music (peer_id me) 1_010 1_005 300 sevens
unfolding peerdup.Daemon.Identity.sign_relay_hello peerdup.Relay.Hello.to_bytes_8
    peerdup.Relay.Hello.is_stale
yours-IsHello = record { signed = refl; bytes = ground arith; in_time = refl; small = refl }

bridges_meet_example :
    let e = steps (keys_of env) idle (
      connect 1 1_000 (body 300 (hello_of me music (peer_id you) 1_000 sevens))
      ∷ connect 2 1_010 (body 300 (hello_of you music (peer_id me) 1_005 sevens))
      ∷ []) in
    (is_paired (frames_to 1 e.sent) ≡ true) × (is_paired (frames_to 2 e.sent) ≡ true)
unfolding Table.find frames_to
bridges_meet_example =
    bridges_meet env me you env-Matches you-Matches music 1_000 1_010 1_000 1_005 300 300 1 2 sevens
      sevens idle mine-IsHello yours-IsHello refl refl (omega arith) refl refl refl
