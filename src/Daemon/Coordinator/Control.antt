-- ===== src/Daemon/Coordinator/Control.antt =====
-- The commands of the control service in daemon/daemon/sync/coordinator.py.

use peerdup.Prelude.{
  length, ℕ, suc, Text, Bytes, codes, take, truthy, Bool, true, false, not, ◌||◌, Option, none,
  some, List, [], ◌∷◌, ◌++◌, if◌then◌else◌, eqb, ◌==◌, text_eq,
}
use peerdup.Registry.Messages.{SharePolicy}
use peerdup.Relay.Hello.{from_hex}
use peerdup.Daemon.State.{
  ConflictStrategy, last_write_wins, rename_conflict, ask, LocalShare, LocalConflict, StateDb,
}
use peerdup.Daemon.State.Shares
use peerdup.Daemon.State.Records.{list_conflicts, delete_conflict}
use peerdup.Daemon.World.{
  World, Daemon, Request, create_share, add_peer_to_share, remove_peer_from_share, on_db,
  set_rate_limit,
}
use peerdup.Daemon.Torrents.{switch_to_remote}
use peerdup.Daemon.Handler.{apply_policy}
use peerdup.Daemon.Coordinator.{
  key_error, permission_error, value_error, runtime_error, os_error, Reply, returns, raises, ended,
  activation,
}

-- `ConflictStrategy(text)`
abbrev pub strategy_of : Text → Option ConflictStrategy
strategy_of t =
    if t == codes "last_write_wins"
    then some last_write_wins
    else if t == codes "rename_conflict"
    then some rename_conflict
    else if t == codes "ask"
    then some ask
    else none

-- `perm_map`
abbrev pub permission_of : Text → Option Text
permission_of t =
    if t == codes "rw"
    then some (codes "PERMISSION_READ_WRITE")
    else if t == codes "ro"
    then some (codes "PERMISSION_READ_ONLY")
    else if t == codes "encrypted"
    then some (codes "PERMISSION_ENCRYPTED")
    else none

abbrev pub request : Request → Daemon → Daemon
request r d = record d { requests = d.requests ++ r ∷ []; reads = suc d.reads }

-- An imported key is 32 bytes.
abbrev pub imported : Option Bytes → Option Bytes
imported none = none
imported (some seed) = if eqb (length seed) 32 then some seed else none

-- What the owner of a registry share may do there.
abbrev pub as_owner :
    Text → (Daemon → Reply (Unit {0}) × Daemon) → Daemon → Reply (Unit {0}) × Daemon
as_owner share_id act d = elim (Shares.get_share share_id d.db) [
  | none ↦ (raises key_error, d)
  | some s ↦
      if not s.is_owner
      then (raises permission_error, d)
      else if s.local_only
      then (raises value_error, d)
      else act d
]

-- The name of a share, and the limits that the registry tells.
abbrev pub name_or : Text → Text → Text → Text
name_or share_id name told = if name == take 8 share_id then told else name

abbrev pub with_policy : Text → Option SharePolicy → Daemon → Daemon
with_policy share_id none d = d
with_policy share_id (some p) d = apply_policy share_id p.upload_limit_bps p.download_limit_bps d

-- The policy is applied where the activation has not raised.
abbrev pub added_with : Text → Option SharePolicy → Bool × Daemon → Reply (Unit {0}) × Daemon
added_with share_id policy (true, d) = (raises os_error, d)
added_with share_id policy (false, d) = (returns tt, with_policy share_id policy d)

unfoldable pub find_conflict : ℕ → List LocalConflict → Option LocalConflict
find_conflict id [] = none
find_conflict id (c ∷ cs) = let rest = find_conflict id cs in if eqb c.id id then some c else rest

-- The conflict is looked for share by share.
unfoldable pub conflict_of : ℕ → List LocalShare → StateDb → Option LocalConflict
unfolding find_conflict
conflict_of id [] db = none
conflict_of id (s ∷ ss) db =
    let rest = conflict_of id ss db in
    elim (find_conflict id (list_conflicts s.share_id db)) [ some c ↦ some c | none ↦ rest ]

module _ (w : World) where
  -- The seed that is imported, or a new one.
  unfoldable pub share_seed : Text → Daemon → Option Bytes × Daemon
  share_seed import_key_hex d =
      if truthy import_key_hex
      then (imported (from_hex import_key_hex), d)
      else (some (w.fresh_seed d.reads), record d { reads = suc d.reads })

  -- The rest of `create_share`: the keypair is stored before the strategy is read.
  abbrev pub store_share :
      Text → Bytes → Text → Text → Text → Text → Bool → Daemon → Reply Text × Daemon
  store_share share_id seed name local_path permission strategy local_only d =
      let e = on_db (Shares.save_share_keypair share_id seed) d in
      elim (strategy_of strategy) [
        | none ↦ (raises value_error, e)
        | some s ↦ ended share_id (
            activation w share_id local_path
              (on_db (Shares.add_share share_id name local_path permission true s local_only) e))
      ]

  -- `create_share`
  unfoldable pub create_share_command :
      Text → Text → Text → Text → Text → Bool → Daemon → Reply Text × Daemon
  unfolding share_seed
  create_share_command name local_path permission import_key_hex strategy local_only d =
      let (seed, e) = share_seed import_key_hex d in
      elim seed [
        | none ↦ (raises value_error, e)
        | some s ↦
            let share_id = w.public_key s in
            if local_only
            then store_share share_id s name local_path permission strategy local_only e
            else if w.registry_accepts e.reads
            then store_share share_id s name local_path permission strategy local_only
                (request (create_share share_id name) e)
            else (raises runtime_error, request (create_share share_id name) e)
      ]

  abbrev pub send : Request → Daemon → Reply (Unit {0}) × Daemon
  send r d = (if w.registry_accepts d.reads then returns tt else raises runtime_error, request r d)

  abbrev pub grant_act : Text → Text → Text → Daemon → Reply (Unit {0}) × Daemon
  grant_act share_id peer_id permission d = elim (permission_of permission) [
    | none ↦ (raises value_error, d)
    | some p ↦ send (add_peer_to_share share_id peer_id p) d
  ]

  -- `grant_access`
  unfoldable pub grant_access : Text → Text → Text → Daemon → Reply (Unit {0}) × Daemon
  grant_access share_id peer_id permission =
      as_owner share_id (grant_act share_id peer_id permission)

  -- `revoke_access`
  unfoldable pub revoke_access : Text → Text → Daemon → Reply (Unit {0}) × Daemon
  revoke_access share_id peer_id =
      as_owner share_id (send (remove_peer_from_share share_id peer_id))

  abbrev pub described : Text → Text → Bool → Daemon → (Text × Option SharePolicy) × Daemon
  described share_id name local_only d =
      if local_only
      then ((name, none), d)
      else let e = record d { reads = suc d.reads } in
        elim (w.share_meta d.reads share_id) [
          | none ↦ ((name, none), e)
          | some (told, policy) ↦ ((name_or share_id name told, policy), e)
        ]

  -- `add_share`
  unfoldable pub add_share_command :
      Text → Text → Text → Text → Bool → Text → Daemon → Reply (Unit {0}) × Daemon
  add_share_command share_id local_path permission strategy local_only name d =
      let named = if truthy name then name else take 8 share_id in
      let ((title, policy), e) = described share_id named local_only d in
      elim (strategy_of strategy) [
        | none ↦ (raises value_error, e)
        | some s ↦ added_with share_id policy (
            activation w share_id local_path
              (on_db (Shares.add_share share_id title local_path permission false s local_only) e))
      ]

  abbrev pub keep_local : Text → Daemon → Bool × Daemon
  keep_local share_id d = elim (Shares.get_share share_id d.db) [
    | none ↦ (false, d)
    | some s ↦ activation w share_id s.local_path d
  ]

  -- `resolve_conflict`
  unfoldable pub resolve_conflict : ℕ → Text → Daemon → Reply (Unit {0}) × Daemon
  unfolding conflict_of
  resolve_conflict conflict_id resolution d =
      let local = resolution == codes "keep-local" in
      if not (local || resolution == codes "keep-remote")
      then (raises value_error, d)
      else elim (conflict_of conflict_id d.db.shares d.db) [
        | none ↦ (raises key_error, d)
        | some c ↦
            let e = on_db (delete_conflict conflict_id) d in
            if local
            then ended tt (keep_local c.share_id e)
            else (returns tt, switch_to_remote w c.share_id c.remote_info_hash e)
      ]

-- `set_conflict_strategy`
unfoldable pub set_conflict_strategy : Text → Text → Daemon → Reply (Unit {0}) × Daemon
set_conflict_strategy share_id strategy d = elim (Shares.get_share share_id d.db) [
  | none ↦ (raises key_error, d)
  | some s ↦ elim (strategy_of strategy) [
    | none ↦ (raises value_error, d)
    | some chosen ↦ (returns tt, on_db (Shares.set_conflict_strategy share_id chosen) d)
  ]
]

-- `set_share_rate_limit`
unfoldable pub set_share_rate_limit : Text → ℕ → ℕ → Daemon → Reply (Unit {0}) × Daemon
set_share_rate_limit share_id up down d = elim (Shares.get_share share_id d.db) [
  | none ↦ (raises key_error, d)
  | some s ↦ (
    returns tt,
    set_rate_limit share_id up down (on_db (Shares.set_share_rate_limits share_id up down) d),
  )
]

-- `list_conflicts`
unfoldable pub list_conflicts_command : Text → Daemon → Reply (List LocalConflict)
list_conflicts_command share_id d = elim (Shares.get_share share_id d.db) [
  | none ↦ raises key_error
  | some s ↦ returns (list_conflicts share_id d.db)
]
