-- ===== src/Daemon/Keeping/Switching.antt =====
-- What the torrents and the switch to a remote torrent keep of a share and of the known peers:
-- daemon/daemon/sync/torrent_mgr.py, `handle_remote_update` of daemon/daemon/sync/peer_handler.py.
use peerdup.Prelude.{
  ℕ, Text, ◌≡◌, ◌⊎◌, refl, sym, ◌∙◌, Option, none, some, List, [], ◌∷◌, text_eq, arith, Bool-cases,
  Option-cases, inl, inr,
}
use mathlib.Core.Path.{subst}
use peerdup.Registry.Models.{PeerAddress}
use peerdup.Daemon.State.{
  ConflictStrategy, syncing, paused, LocalShare, KnownPeer, last_write_wins, rename_conflict, ask,
}
use peerdup.Daemon.State.Shares
use peerdup.Daemon.State.Shares.{get_share}
use peerdup.Daemon.State.Records.{add_conflict}
use peerdup.Daemon.World.{World, Daemon, call_handle, add_peer, mem}
use peerdup.Daemon.Torrents.{add_peers, add_known, begin_switch, start_switch, switch_to_remote}
use peerdup.Daemon.Handler.{apply_policy, handle_remote_update, ask_user, rename_conflict_files}
use peerdup.Daemon.Switch.{finish_switch-db}
use peerdup.Daemon.Keeping

pub add_peer-db :
    (share_id host : Text) (port : ℕ) (d : Daemon) → (add_peer share_id host port d).db ≡ d.db
unfolding call_handle
add_peer-db share_id host port d = ground arith

pub add_peers-db :
    (share_id : Text) (addresses : List PeerAddress) (d : Daemon)
    → (add_peers share_id addresses d).db ≡ d.db
add_peers-db share_id [] d = refl
add_peers-db share_id (a ∷ rest) d =
    add_peers-db share_id rest (add_peer share_id a.host a.port d)
    ∙ add_peer-db share_id a.host a.port d

pub add_known-db :
    (share_id : Text) (ps : List KnownPeer) (d : Daemon) → (add_known share_id ps d).db ≡ d.db
add_known-db share_id [] d = refl
add_known-db share_id (p ∷ ps) d =
    add_known-db share_id ps (add_peers share_id p.addresses d)
    ∙ add_peers-db share_id p.addresses d

pub apply_policy-db :
    (share_id : Text) (up down : ℕ) (d : Daemon) → (apply_policy share_id up down d).db ≡ d.db
unfolding apply_policy call_handle
apply_policy-db share_id up down d = elim (Option-cases (get_share share_id d.db)) [
  | inl n ↦ ground (arith, n)
  | inr (s, found) ↦ ground (arith, found)
]

module _ (w : World) (k : Text) where
  -- What a step keeps of the share `k`.
  abbrev pub StepKeeps : Daemon → Daemon → Type 0
  StepKeeps d e = Keeping.Keeps k d.db e.db

  pub after : (d e f : Daemon) → StepKeeps d e → StepKeeps e f → StepKeeps d f
  after d e f h g = Keeping.Keeps-trans k d.db e.db f.db h g

  pub by_db : (d e : Daemon) → e.db ≡ d.db → StepKeeps d e
  by_db d e same = subst (Keeping.Keeps k d.db) (sym same) (Keeping.Keeps-refl k d.db)

  switch_to_remote-cases :
      (share_id ih : Text) (d : Daemon)
      → ((switch_to_remote w share_id ih d).db ≡ d.db)
        ⊎ ((switch_to_remote w share_id ih d).db
            ≡ Shares.set_share_state share_id syncing none (some ih) d.db)
  unfolding switch_to_remote start_switch
  switch_to_remote-cases share_id ih d =
      let done = finish_switch-db w share_id ih (begin_switch share_id ih d) in
      elim (Bool-cases (mem share_id d.switching)) [
        | inl busy ↦ inl (ground (arith, busy))
        | inr free ↦ elim (Option-cases (get_share share_id d.db)) [
          | inl n ↦ inl (ground (arith, free, n))
          | inr (s, found) ↦ inr (ground (arith, free, found, done))
        ]
      ]

  pub switch_to_remote-Keeps :
      (share_id ih : Text) (d : Daemon) → StepKeeps d (switch_to_remote w share_id ih d)
  switch_to_remote-Keeps share_id ih d = elim (switch_to_remote-cases share_id ih d) [
    | inl same ↦ by_db d (switch_to_remote w share_id ih d) same
    | inr written ↦
        subst (Keeping.Keeps k d.db) (sym written)
          (Keeping.set_share_state-Keeps k share_id syncing none (some ih) d.db)
  ]

  ask_user-Keeps :
      (share_id remote_ih peer_id : Text) (ih : Option Text) (d : Daemon)
      → StepKeeps d (ask_user share_id remote_ih peer_id ih d)
  ask_user-Keeps share_id remote_ih peer_id ih d =
      Keeping.Keeps-trans k d.db (add_conflict share_id peer_id remote_ih ih d.db)
        (Shares.set_share_state share_id paused none none
          (add_conflict share_id peer_id remote_ih ih d.db))
        (Keeping.same-Keeps k d.db (add_conflict share_id peer_id remote_ih ih d.db) refl refl)
        (Keeping.set_share_state-Keeps k share_id paused none none
          (add_conflict share_id peer_id remote_ih ih d.db))

  by_strategy :
      (share_id remote_ih peer_id : Text) (s : LocalShare) (c : ConflictStrategy) (d : Daemon)
      → StepKeeps d
          (handle_remote_update w share_id remote_ih peer_id (record s { conflict_strategy = c }) d)
  unfolding handle_remote_update rename_conflict_files
  by_strategy share_id remote_ih peer_id s last_write_wins d =
      switch_to_remote-Keeps share_id remote_ih d
  by_strategy share_id remote_ih peer_id s rename_conflict d =
      switch_to_remote-Keeps share_id remote_ih
        (rename_conflict_files w share_id s.local_path peer_id d)
  by_strategy share_id remote_ih peer_id s ask d =
      ask_user-Keeps share_id remote_ih peer_id s.info_hash d

  pub handle_remote_update-Keeps :
      (share_id remote_ih peer_id : Text) (s : LocalShare) (d : Daemon)
      → StepKeeps d (handle_remote_update w share_id remote_ih peer_id s d)
  handle_remote_update-Keeps share_id remote_ih peer_id s d =
      by_strategy share_id remote_ih peer_id s s.conflict_strategy d
