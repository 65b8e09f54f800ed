-- ===== src/Lib.antt =====
-- The registry of peerdup: the server that peers register with, that keeps who may take part in
-- which share, and that tells the members of a share where the others are; the relay, which pipes
-- two peers together that cannot reach each other; and the daemon, which each peer runs: it registers,
-- announces its shares, hears of others from the registry and on the local network, and has libtorrent
-- fetch and seed the files.
--
-- The parts, and the files that model them (paths from the root of the repository):
--   registry/registry/db/models.py         Registry/Models: the rows of the four tables, their keys
--   registry/registry/servicer/registry.py Registry/Service: the servicer's state, the actions, the
--                                            audit log, the metrics and the events it publishes
--     RateLimiter                          Registry/Limiter
--     _parse_peer_addr, _remote_ip         Registry/Address
--     _authenticated_peer, _require_*      Registry/Auth
--     _build_share_peer, _build_*          Registry/Views
--     RegisterPeer, GetPeer                Registry/Peers
--     CreateShare, GetShare,
--       SetSharePolicy                     Registry/Shares
--     AddPeerToShare, RemovePeerFromShare  Registry/Membership
--     Announce                             Registry/Announce
--     GetSharePeers, WatchSharePeers,
--       GetShareActivity                   Registry/Listing
--     Health                               Registry/Health
--   registry/registry/auth/crypto.py       Registry/Crypto
--   registry/registry/ttl.py               Registry/Ttl
--   registry/registry/audit.py, metrics.py Registry/Service: `log`, `metric`
--   registry/proto/registry.proto          Registry/Messages
--   registry/registry/events.py            Registry/Events
--   relay/relay/server.py                  Relay/Hello: `_read_hello`; Relay/Server: `_handle_client`
--   daemon/daemon/state/db.py              Daemon/State: the rows; State/Shares, State/Records
--   daemon/daemon/identity.py              Daemon/Identity; Daemon/Agreement and Daemon/Joining hold it
--                                            against the registry and the relay
--   daemon/daemon/lan/discovery.py         Daemon/Lan/Packet: pack_packet, unpack_packet;
--                                            Lan/Listener: _announce_loop, _on_datagram; Daemon/Utf8
--   daemon/daemon/torrent/session.py       Daemon/World: the daemon's state, the torrents and their calls
--   daemon/daemon/sync/torrent_mgr.py      Daemon/Torrents
--   daemon/daemon/sync/peer_handler.py     Daemon/Handler
--   daemon/daemon/sync/coordinator.py,
--     announce.py                          Daemon/Coordinator: from activation to removal
--     the control commands                 Daemon/Coordinator/Control
--     the background loops                 Daemon/Coordinator/Loops; `_registry_connect_loop` is in
--                                            Daemon/Client/Connecting
--     the views that commands show         Daemon/Views: the statuses; Views/Roster: list_share_peers
--   daemon/daemon/sync/torrent_mgr.py,
--     on_metadata_received                 Daemon/Positions
--   daemon/daemon/watcher/fs.py            Daemon/Watcher: the debounce of file events
--   daemon/daemon/registry/client.py       Daemon/Client; Client/Token, Client/Streams
--   daemon/daemon/control/servicer.py      Daemon/Servicer
--   daemon/daemon/relay/client.py          Daemon/Bridge: what `open_relay_bridge` sends and waits for
--   daemon/daemon/config.py, daemon.py     Daemon/Config: the sections; Config/Loader: load_config
-- The other modules of Daemon are named for what they prove: Admission, Revocation, Switch, Between,
-- Asking, Conflicts, Watches, Raising, Ownership, Limits, and below the parts Watcher/Reports (with Summary),
-- Watcher/Quiet (with Timely and Measure), Client/Token, Positions/Kept, Views/Complete (with Order),
-- Servicer/Errors (with Refused) and Config/Transport; Keeping does it for each step, and History for any sequence of steps.
-- Registry/Dispatch makes one step of each RPC and of the sweep, and a history of a list of steps.
--
-- A handler is an action on the servicer's state (`Server`): it returns a message or ends by an
-- error, and the state comes back either way, so that what a handler did before `context.abort` is
-- kept. Each handler runs as one step: the threads of the gRPC server are not interleaved. The
-- sessions of SQLAlchemy are functions on the tables, which are lists of rows, and a commit is a
-- `write`. A reading of a clock takes the next value of a stream of the environment (`Env`), which
-- holds for all that the source takes from elsewhere: base58, Ed25519, SHA-256, the token source,
-- both clocks and the configuration. Texts are lists of code points; `int` reads ASCII text.
-- The tokens of the rate limiter, floats in the source, are exact: one token is 60 * 10^9 units,
-- and a tick of 10^-9 s refills `rate_per_minute` units. Times of the database are microseconds.
-- `internal_addrs` is the list that its JSON text encodes.
--
-- The relay is a state that takes one event at a time: a connection with its hello, or a timeout; the
-- table is a list of sessions under unique keys.
--
-- The daemon's state (`Daemon`) is its database, its torrents, watches and tasks, and the record of what it
-- had others do: calls of libtorrent, requests to the registry, renamed files, control events. A coroutine
-- runs as one step, but the switch to a remote torrent as two, since other steps come between. What the
-- outer world answers is the next value of a stream of `World`, by the number of the reading; two looks at
-- one thing within a step, as at the cached torrent, are one reading. A directory that cannot be made, watched
-- or walked through raises where it is activated (`watch_fails`, `walk_fails`), and the exception goes where
-- the source lets it go. The file watcher is there, limits are not negative, and no database call raises.
-- A share's scan for the index and the calls of libtorrent outside the adding of a torrent do not raise. JSON and base64 columns are the values that they encode. The
-- numbers that `struct.pack` refuses make packing fail.
--
-- The watcher is a state of its own, whose threads take turns: a turn is a change that is noticed, the firing
-- of the timer, one of the two halves of a flush, or time that goes by. The files of a share are a list, and
-- what the operating system refuses is a parameter. The connect loop runs on fuel, one for each attempt, and
-- more fuel than attempts that fail is enough; the loop of a stream goes down the list of the streams.
-- An override of the configuration is a value of the type of the field that it sets.
--
-- The proofs go by cases on how a handler can end (Registry/Rules, Registry/Changes), which
-- Registry/Effects collects for all calls; Registry/Invariant, Atomic, Access, Readers,
-- Credentials and Discovery draw the theorems from that. In the registry only `decimal` of Registry/Crypto runs on
-- fuel: it has `n + 1` rounds for `n`, and each drops a digit.
--
-- Not modelled: the threads and queues behind the live part of WatchSharePeers (its filter and its
-- closing are), the coroutines that carry published events to the event bus, the log text, the files
-- and the Prometheus client behind the audit log and the metrics, the admin CLI and the start-up of
-- the server: threads, sockets and output. The bytes that the relay forwards and its sockets are input
-- and output too. Of the daemon: the sockets of the bridge to the relay, the alerts and settings of
-- libtorrent, the threads that carry file events and control events to the event loop, the reading of
-- TOML, the key file, the command line and start-up. The desktop extension is a program of its own.

pub mod Prelude
pub mod Registry
pub mod Relay
pub mod Daemon
