-- ===== src/Daemon/Handler.antt =====
-- daemon/daemon/sync/peer_handler.py: the events of the registry and the announcements of the network.
use mathlib.Core.Option.{get_or}
use peerdup.Prelude.{
  ℕ, suc, min, Text, Bytes, codes, take, truthy, Bool, true, false, not, ◌&&◌, ◌||◌, Option, none,
  some, List, [], ◌∷◌, ◌++◌, if◌then◌else◌, ltb, eqb, ◌==◌, text_eq, pair_eq,
}
use peerdup.Prelude.Table
use peerdup.Prelude.Table.{is_some}
use peerdup.Registry.Models.{PeerAddress}
use peerdup.Registry.Messages.{
  PeerEvent, EventType, online, offline, updated, removed, policy_updated, SharePeer, SharePolicy,
  unspecified,
}
use peerdup.Daemon.State.{
  paused, last_write_wins, rename_conflict, ask, LocalShare, LocalFile, known_peer_key, StateDb,
}
use peerdup.Daemon.State.Shares.{get_share, set_share_state, set_share_seq}
use peerdup.Daemon.State.Records.{get_files, upsert_peer, add_conflict, last_id}
use peerdup.Daemon.World.{
  World, Daemon, ControlEvent, conflict, peer_event, on_db, unwatch_files, publish, add_peer,
  set_rate_limit,
}
use peerdup.Daemon.Torrents.{switch_to_remote, add_peers}
use peerdup.Daemon.Lan.Packet.{Offer, Keys}
use peerdup.Daemon.Lan.Listener.{on_datagram}

-- 0 is no limit.
unfoldable pub effective_limit : ℕ → ℕ → ℕ
effective_limit registry local =
    if eqb registry 0 && eqb local 0
    then 0
    else if eqb registry 0
    then local
    else if eqb local 0
    then registry
    else min registry local

unfoldable pub apply_policy : Text → ℕ → ℕ → Daemon → Daemon
unfolding effective_limit
apply_policy share_id up down d = elim (get_share share_id d.db) [
  | none ↦ d
  | some s ↦
      if s.local_only
      then d
      else set_rate_limit share_id (effective_limit up s.upload_limit)
          (effective_limit down s.download_limit) d
]

-- The conflict is recorded, and the share waits for the user.
abbrev pub ask_user : Text → Text → Text → Option Text → Daemon → Daemon
ask_user share_id remote_ih remote_peer_id local_ih d =
    publish (conflict share_id (suc (last_id d.db.conflicts))) (
      unwatch_files share_id (
        on_db (set_share_state share_id paused none none)
          (on_db (add_conflict share_id remote_peer_id remote_ih local_ih) d)))

-- A text cut at the last code point `c`: what is before it, and from it on.
unfoldable pub cut_last : ℕ → Text → Option (Text × Text)
cut_last c [] = none
cut_last c (x ∷ xs) = elim (cut_last c xs) [
  | some (a, b) ↦ some (x ∷ a, b)
  | none ↦ if eqb x c then some ([], x ∷ xs) else none
]

-- `Path.stem` and `Path.suffix` of a name: a dot that begins or ends it makes no suffix.
abbrev pub stem_suffix : Text → Option (Text × Text) → Text × Text
stem_suffix name none = (name, [])
stem_suffix name (some ([], suffix)) = (name, [])
stem_suffix name (some (c ∷ cs, [])) = (name, [])
stem_suffix name (some (c ∷ cs, d ∷ [])) = (name, [])
stem_suffix name (some (c ∷ cs, d ∷ e ∷ es)) = (c ∷ cs, d ∷ e ∷ es)

abbrev pub mark : Text → Text → Text × Text → Text
mark ts peer_tag (stem, suffix) = stem ++ codes ".conflict." ++ ts ++ 46 ∷ peer_tag ++ suffix

-- The directory of a path with its slash, and the name.
abbrev pub dir_name : Text → Option (Text × Text) → Text × Text
dir_name path none = ([], path)
dir_name path (some (dir, [])) = (dir, [])
dir_name path (some (dir, c ∷ name)) = (dir ++ c ∷ [], name)

-- `conflict_name`, below its directory.
unfoldable pub conflict_path : Text → Text → Text → Text
unfolding cut_last
conflict_path ts peer_tag path =
    let (dir, name) = dir_name path (cut_last 47 path) in
    dir ++ mark ts peer_tag (stem_suffix name (cut_last 46 name))

-- The files that are there are renamed.
unfoldable pub renames :
    (Text → Bool) → Text → Text → Text → List LocalFile → List (Text × (Text × Text))
renames exists share_id ts peer_tag [] = []
renames exists share_id ts peer_tag (f ∷ fs) =
    let rest = renames exists share_id ts peer_tag fs in
    if exists f.rel_path
    then (share_id, (f.rel_path, conflict_path ts peer_tag f.rel_path)) ∷ rest
    else rest

abbrev pub differs : Text → Text → Bool
differs remote_ih local_ih = truthy remote_ih && truthy local_ih && not (remote_ih == local_ih)

abbrev pub no_peer : SharePeer
no_peer = record {
  peer_id = [];
  name = [];
  permission = unspecified;
  online = false;
  addresses = [];
  last_seen = none;
  info_hash = [];
}

abbrev policy_changed : Text → SharePolicy → Daemon → Daemon
policy_changed share_id p d =
    publish (ControlEvent.policy_updated share_id p.upload_limit_bps p.download_limit_bps)
      (apply_policy share_id p.upload_limit_bps p.download_limit_bps d)

-- A peer may take part in a share that is local only, or if the share has a row for it in the table of known
-- peers.
abbrev pub may_enter : Text → LocalShare → Offer → StateDb → Bool
may_enter peer_id local offer db =
    local.local_only || Table.has known_peer_key (offer.share_id, peer_id) db.known_peers

module _ (w : World) where
  -- `rename_conflict_files`: the names take the time and the first 8 characters of the peer.
  unfoldable pub rename_conflict_files : Text → Text → Text → Daemon → Daemon
  rename_conflict_files share_id local_path remote_peer_id d =
      let exists = λ (rel_path : Text). is_some (w.stat d.reads local_path rel_path) in
      record d {
        reads = suc d.reads;
        renamed =
            d.renamed
            ++ renames exists share_id (w.time_stamp d.reads) (take 8 remote_peer_id)
                (get_files share_id d.db);
      }

  unfoldable pub handle_remote_update : Text → Text → Text → LocalShare → Daemon → Daemon
  handle_remote_update share_id remote_ih remote_peer_id local d = elim local.conflict_strategy [
    | last_write_wins ↦ switch_to_remote w share_id remote_ih d
    | rename_conflict ↦
        switch_to_remote w share_id remote_ih
          (rename_conflict_files share_id local.local_path remote_peer_id d)
    | ask ↦ ask_user share_id remote_ih remote_peer_id local.info_hash d
  ]

  -- `upsert_peer` at the time of the next reading of the clock.
  abbrev pub see_peer : Text → Text → List PeerAddress → Bool → Text → Daemon → Daemon
  see_peer share_id peer_id addresses up name d =
      on_db (upsert_peer share_id peer_id addresses up name (w.clock d.reads))
        (record d { reads = suc d.reads })

  unfoldable pub come_online : Text → SharePeer → Daemon → Daemon
  come_online share_id peer d =
      let e = see_peer share_id peer.peer_id peer.addresses true [] d in
      let direct = add_peers share_id peer.addresses e in
      elim (get_share share_id e.db) [
        | none ↦ direct
        | some s ↦
            if differs peer.info_hash (get_or s.info_hash [])
            then handle_remote_update share_id peer.info_hash peer.peer_id s e
            else direct
      ]

  abbrev pub try_relay : Text → Text → Daemon → Daemon
  try_relay share_id peer_id d =
      if w.relay_enabled then record d { relays = d.relays ++ (share_id, peer_id) ∷ [] } else d

  -- The presence of a peer other than ourselves.
  unfoldable pub peer_changed : Text → EventType → SharePeer → Daemon → Daemon
  peer_changed share_id online peer d =
      publish (peer_event share_id peer.peer_id true)
        (try_relay share_id peer.peer_id (come_online share_id peer d))
  peer_changed share_id updated peer d =
      publish (peer_event share_id peer.peer_id false)
        (try_relay share_id peer.peer_id (come_online share_id peer d))
  peer_changed share_id offline peer d =
      publish (peer_event share_id peer.peer_id false)
        (see_peer share_id peer.peer_id peer.addresses false [] d)
  peer_changed share_id removed peer d =
      publish (peer_event share_id peer.peer_id false)
        (see_peer share_id peer.peer_id peer.addresses false [] d)
  peer_changed share_id policy_updated peer d = d

  -- The handler of a share's stream; a field that is not set reads as its default.
  unfoldable pub registry_event : Text → PeerEvent → Daemon → Daemon
  registry_event share_id event d =
      let peer = get_or event.peer no_peer in
      let policy = get_or event.policy (record { upload_limit_bps = 0; download_limit_bps = 0 }) in
      elim event.type [
        | policy_updated ↦ policy_changed share_id policy d
        | _ ↦ if peer.peer_id == w.own_id then d else peer_changed share_id event.type peer d
      ]

  -- One share of an announcement, known here: its peer may take part.
  unfoldable pub admitted : Text → Text → ℕ → Text → Offer → LocalShare → Daemon → Daemon
  admitted peer_id host port name offer local d =
      let here : PeerAddress = record { host = host; port = port; is_lan = true } in
      let e = see_peer offer.share_id peer_id (here ∷ []) true name d in
      let adopt = on_db (set_share_seq offer.share_id offer.seq) in
      let local_ih = get_or local.info_hash [] in
      let update = handle_remote_update offer.share_id offer.info_hash peer_id local in
      add_peer offer.share_id host port (
        if truthy offer.info_hash && not (truthy local_ih)
        then switch_to_remote w offer.share_id offer.info_hash (adopt e)
        else if differs offer.info_hash local_ih
        then (if ltb local.seq offer.seq
            then update (adopt e)
            else if eqb offer.seq local.seq
            then update e
            else e)
        else e)

  unfoldable pub handle_offer : Text → Text → ℕ → Text → Offer → Daemon → Daemon
  unfolding admitted
  handle_offer peer_id host port name offer d = elim (get_share offer.share_id d.db) [
    | none ↦ d
    | some local ↦
        if may_enter peer_id local offer d.db
        then admitted peer_id host port name offer local d
        else d
  ]

  -- `handle_lan_peer`
  unfoldable pub handle_lan_peer : Text → List Offer → Text → ℕ → Text → Daemon → Daemon
  handle_lan_peer peer_id [] host port name d = d
  handle_lan_peer peer_id (o ∷ os) host port name d =
      handle_lan_peer peer_id os host port name (handle_offer peer_id host port name o d)

  -- `_on_datagram` of daemon/daemon/lan/discovery.py, with the callback that the coordinator gives it.
  unfoldable pub datagram_received : Keys → Text → Bytes → Daemon → Daemon
  datagram_received keys host whole d = elim (on_datagram keys w.own_id whole) [
    | none ↦ d
    | some p ↦ handle_lan_peer p.peer_id p.shares host p.listen_port p.name d
  ]
