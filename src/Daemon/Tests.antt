-- ===== src/Daemon/Tests.antt =====
-- What the theorems say of the small daemon of Tests/Sample: daemon/daemon/sync/coordinator.py,
-- daemon/daemon/sync/peer_handler.py, daemon/daemon/lan/discovery.py and daemon/daemon/identity.py.
mod Sample
mod Signing
mod Outer
use peerdup.Prelude.{
  ℕ, ◌≤◌, codes, true, false, ◌≡◌, ◌≢◌, ◌⊎◌, ◌↔◌, inr, refl, none, some, List, [], ◌∷◌, text_eq,
  pair_eq, arith, text_beq,
}
use mathlib.Core.Option
use peerdup.Prelude.Table
use peerdup.Registry.Messages.{PeerEvent, removed, SharePeer, unspecified}
use peerdup.Daemon.State.{share_key, known_peer_key, last_write_wins, ask, syncing, LocalShare}
use peerdup.Daemon.State.Shares.{get_share, in_state}
use peerdup.Daemon.State.Records.{get_files, new_conflict}
use peerdup.Daemon.Identity.{peer_id}
use peerdup.Daemon.Lan.Packet.{Packet}
use peerdup.Daemon.Lan.Listener.{SignedBy}
use peerdup.Daemon.World.{Daemon, mem, watch_key, handle_key}
use peerdup.Daemon.Torrents.{hash_of, begin_switch, start_switch}
use peerdup.Daemon.Handler.{
  handle_offer, may_enter, registry_event, effective_limit, datagram_received,
}
use peerdup.Daemon.Coordinator.{returns, remove_share, resume_share, pause_share}
use peerdup.Daemon.Coordinator.Control.{grant_access, revoke_access}
use peerdup.Daemon.Coordinator.Loops.{FileChangedEvent, modified, handle_fs_event}
use peerdup.Daemon.Limits.{effective_limit-IsTightest}
use peerdup.Daemon.Admission.{LetsIn, datagram_received-LetsIn}
use peerdup.Daemon.Revocation.{removed_peer_may_enter, older_unchanged}
use peerdup.Daemon.Switch.{newer_switches, numbered}
use peerdup.Daemon.Between.{Act, file_event, switch_begins, acted, switching_is_quiet}
use peerdup.Daemon.Asking.{asks_again, answered, keep_remote_answers}
use peerdup.Daemon.Watches.{resumed_stays_stopped}
use peerdup.Daemon.Ownership.{IsOwned, access_needs_owner, remove_share-Forgets}
use peerdup.Prelude.Table.{IsUnique}
use peerdup.Daemon.History.{Step, pause, datagram, told, resume, add, remove, run, share_is_kept}
use peerdup.Daemon.Tests.Sample.{keys, music, other, world, share, friend, stream, daemon, offer}
use peerdup.Daemon.Tests.Sample.{sent}

abbrev hundred : ℕ
hundred = 100

abbrev fifty : ℕ
fifty = 50

effective_limit-IsTightest_example :
    ((effective_limit hundred fifty ≡ hundred) ⊎ (effective_limit hundred fifty ≡ fifty))
    × ((effective_limit hundred fifty ≡ 0) ↔ ((hundred ≡ 0) × (fifty ≡ 0)))
    × ((hundred ≡ 0) ⊎ (effective_limit hundred fifty ≤ hundred))
    × ((fifty ≡ 0) ⊎ (effective_limit hundred fifty ≤ fifty))
effective_limit-IsTightest_example = effective_limit-IsTightest hundred fifty

abbrev here : Daemon
here = daemon (share last_write_wins)

datagram_received-LetsIn_example :
    (datagram_received world keys (codes "h") sent here ≡ here)
    ⊎ ((p : Packet) × SignedBy keys sent p.peer_id
        × (p.peer_id ≢ world.own_id)
        × LetsIn p.peer_id p.shares here)
datagram_received-LetsIn_example = datagram_received-LetsIn world keys (codes "h") sent here

abbrev gone : SharePeer
gone = record {
  peer_id = other;
  name = [];
  permission = unspecified;
  online = false;
  addresses = [];
  last_seen = none;
  info_hash = [];
}

abbrev removal : PeerEvent
removal = record { type = removed; peer = some gone; occurred_at = 0; policy = none }

removed_peer_may_enter_example :
    may_enter other (share last_write_wins) (offer 2) (registry_event world music removal here).db
    ≡ true
removed_peer_may_enter_example =
    removed_peer_may_enter world removal gone (share last_write_wins) (offer 2) here refl refl
      (λ e. ground arith)

older_unchanged_example :
    ((handle_offer world other (codes "h") 1 [] (offer 0) here).db.shares ≡ here.db.shares)
    × ((handle_offer world other (codes "h") 1 [] (offer 0) here).handles ≡ here.handles)
    × ((handle_offer world other (codes "h") 1 [] (offer 0) here).watched ≡ here.watched)
unfolding Table.find text_beq
older_unchanged_example =
    older_unchanged world other (codes "h") 1 [] (offer 0) here (share last_write_wins)
      (codes "mine") refl refl refl (inr (omega arith))

abbrev asking : Daemon
asking = daemon (share ask)

newer_switches_example :
    get_share music (handle_offer world other (codes "h") 1 [] (offer 2) here).db
    ≡ some (
        in_state syncing none
          (some (codes "theirs"))
          (numbered world (offer 2) (share last_write_wins)))
unfolding Table.find text_beq mem
newer_switches_example =
    newer_switches world other (codes "h") 1 [] (offer 2) here (share last_write_wins)
      (codes "mine") refl refl refl refl refl (λ e. ground arith) (omega arith) refl refl

asks_again_example :
    (handle_offer world other (codes "h") 1 [] (offer 2) asking).db.conflicts
    ≡ new_conflict music other (codes "theirs") (some (codes "mine")) asking.db ∷ []
unfolding Table.find text_beq
asks_again_example =
    asks_again world other (codes "h") 1 [] (offer 2) asking (share ask) (codes "mine") refl refl
      refl refl refl (λ e. ground arith) (omega arith) refl

keep_remote_answers_example :
    ((answered world music (codes "theirs") other (share ask) asking).0 ≡ returns tt)
    × (get_share music (answered world music (codes "theirs") other (share ask) asking).1.db
        ≡ some (in_state syncing none (some (codes "theirs")) (share ask)))
    × ((answered world music (codes "theirs") other (share ask) asking).1.db.conflicts ≡ [])
unfolding Table.find text_beq mem
keep_remote_answers_example =
    keep_remote_answers world music (codes "theirs") other (share ask) asking refl refl

abbrev change : FileChangedEvent
change = record {
  share_id = music;
  rel_path = codes "a.mp3";
  change_type = modified;
  dest_path = none;
}

abbrev between : Daemon
between = begin_switch music (codes "theirs") here

-- A file of the share changes, and another switch is asked for.
abbrev meanwhile : List Act
meanwhile = file_event change ∷ switch_begins music (codes "third") ∷ []

switching_is_quiet_example :
    (get_share music (acted world meanwhile between).db
      ≡ some (in_state syncing none (some (codes "theirs")) (share last_write_wins)))
    × (handle_fs_event world change (acted world meanwhile between) ≡ acted world meanwhile between)
    × (start_switch music (codes "third") (acted world meanwhile between)
        ≡ (false, acted world meanwhile between))
unfolding Table.find text_beq
switching_is_quiet_example =
    switching_is_quiet world music (codes "theirs") (codes "third") (share last_write_wins) here
      meanwhile change refl refl refl

resumed_stays_stopped_example :
    Table.find watch_key music (resume_share world music (pause_share music here)).1.watches
    ≡ some (record { share_id = music; stopped = true })
unfolding Table.find text_beq
resumed_stays_stopped_example =
    resumed_stays_stopped world music (share last_write_wins) stream here refl refl

access_needs_owner_example :
    (((grant_access world music other (codes "rw") here).1 ≡ here)
      × ((revoke_access world music other here).1 ≡ here))
    ⊎ IsOwned music here
access_needs_owner_example = access_needs_owner world music other (codes "rw") here

remove_share-Forgets_example :
    (get_share music (remove_share music here).1.db ≡ none)
    × (Table.find handle_key music (remove_share music here).1.handles ≡ none)
    × (Table.find watch_key music (remove_share music here).1.watches ≡ none)
    × (mem music (remove_share music here).1.announcing ≡ false)
    × (mem music (remove_share music here).1.watched ≡ false)
    × (get_files music (remove_share music here).1.db ≡ [])
    × ((remove_share music here).1.db.known_peers ≡ friend ∷ [])
    × ((remove_share music here).1.db.conflicts ≡ [])
unfolding Table.find text_beq
remove_share-Forgets_example =
    remove_share-Forgets music (share last_write_wins) here refl (refl, tt) (refl, tt) (refl, tt)

-- The share is paused, heard of and resumed, and its owner adds it again.
abbrev story : List Step
story =
    pause music
    ∷ datagram (codes "h") sent
    ∷ told music removal
    ∷ resume music
    ∷ add music (codes "/music") (codes "ro") (codes "ask") true []
    ∷ remove other
    ∷ []

share_is_kept_example :
    ((t : LocalShare) × (get_share music (run world keys story here).db ≡ some t)
      × (t.local_only ≡ false)
      × ((true ≡ false) ⊎ (t.is_owner ≡ true)))
    × (Table.has known_peer_key (music, other) (run world keys story here).db.known_peers ≡ true)
    × IsUnique share_key (run world keys story here).db.shares
    × IsUnique known_peer_key (run world keys story here).db.known_peers
unfolding Table.find text_beq
share_is_kept_example =
    share_is_kept world keys music story here (share last_write_wins) (music, other)
      (tt, (tt, (tt, (tt, (tt, (λ e. ground arith, tt)))))) refl refl (refl, tt) (refl, tt)
