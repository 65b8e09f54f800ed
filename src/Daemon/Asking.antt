-- ===== src/Daemon/Asking.antt =====
-- The strategy `ask`, from the announcement to the user's answer: `handle_remote_update` of
-- daemon/daemon/sync/peer_handler.py and `resolve_conflict` of daemon/daemon/sync/coordinator.py.
use peerdup.Prelude.{
  ℕ, suc, ◌≤◌, Text, codes, truthy, true, false, ◌≡◌, ◌≢◌, refl, ap, ◌∙◌, none, some, [], ◌∷◌, ◌++◌,
  text_beq, text_eq, text_beq_iff, beq_refl, arith,
}
use peerdup.Prelude.Table
use peerdup.Prelude.Table.{find-update, has-update, is_some}
use peerdup.Daemon.State.{LocalShare, LocalConflict, StateDb, ask, paused, syncing, share_key}
use peerdup.Daemon.State.Shares.{get_share, in_state}
use peerdup.Daemon.State.Records.{last_id, new_conflict, upsert_peer, delete_conflict}
use peerdup.Daemon.World.{World, Daemon, on_db, mem, call_handle}
use peerdup.Daemon.Torrents.{begin_switch, switch_to_remote}
use peerdup.Daemon.Handler.{handle_offer, admitted, may_enter, handle_remote_update, ask_user}
use peerdup.Daemon.Coordinator.{Reply, returns}
use peerdup.Daemon.Coordinator.Control.{resolve_conflict, conflict_of}
use peerdup.Daemon.Lan.Packet.{Offer}
use peerdup.Daemon.Conflicts.{last_id-AllBelow, conflict_of-append, drop_conflict-append}
use peerdup.Daemon.Switch.{switch_to_remote-get_share, switch_to_remote-runs, finish_switch-db}

module _ (w : World) where
  -- A share that asks records one more conflict each time a peer that may take part announces another
  -- info hash, neither of them empty, and a number that is not lower, also when it is paused for the same conflict already.
  pub asks_again :
      (peer_id host : Text) (port : ℕ) (name : Text) (o : Offer) (d : Daemon) (s : LocalShare)
      (ih : Text)
      → get_share o.share_id d.db ≡ some s
      → s.conflict_strategy ≡ ask
      → s.info_hash ≡ some ih
      → truthy ih ≡ true
      → truthy o.info_hash ≡ true
      → o.info_hash ≢ ih
      → s.seq ≤ o.seq
      → may_enter peer_id s o d.db ≡ true
      → (handle_offer w peer_id host port name o d).db.conflicts
        ≡ d.db.conflicts ++ new_conflict o.share_id peer_id o.info_hash (some ih) d.db ∷ []
  unfolding handle_offer admitted handle_remote_update upsert_peer call_handle
  asks_again peer_id host port name o d s ih found asks has_hash full offered differ newer enters =
      ground (arith, found, asks, has_hash, full, offered, enters, text_beq_iff o.info_hash ih)

  resolve_conflict-remote :
      (n : ℕ) (c : LocalConflict) (e : Daemon)
      → conflict_of n e.db.shares e.db ≡ some c
      → resolve_conflict w n (codes "keep-remote") e ≡ (
        returns tt,
        switch_to_remote w c.share_id c.remote_info_hash (on_db (delete_conflict n) e),
      )
  unfolding resolve_conflict text_beq
  resolve_conflict-remote n c e found = rw (found, resolve_conflict)

  abbrev pub answered : Text → Text → Text → LocalShare → Daemon → Reply (Unit {0}) × Daemon
  answered share_id remote_ih peer_id s d =
      resolve_conflict w (suc (last_id d.db.conflicts)) (codes "keep-remote")
        (ask_user share_id remote_ih peer_id s.info_hash d)

  -- After a share has asked about a remote info hash, and no switch of it is under way, the answer
  -- "keep-remote" to that conflict succeeds, sets the share to syncing the remote info hash, and leaves the
  -- conflicts as they were before the question.
  pub keep_remote_answers :
      (share_id remote_ih peer_id : Text) (s : LocalShare) (d : Daemon)
      → get_share share_id d.db ≡ some s
      → mem share_id d.switching ≡ false
      → ((answered share_id remote_ih peer_id s d).0 ≡ returns tt)
        × (get_share share_id (answered share_id remote_ih peer_id s d).1.db
            ≡ some (in_state syncing none (some remote_ih) s))
        × ((answered share_id remote_ih peer_id s d).1.db.conflicts ≡ d.db.conflicts)
  keep_remote_answers share_id remote_ih peer_id s d found free =
      let c = new_conflict share_id peer_id remote_ih s.info_hash d.db in
      let n = suc (last_id d.db.conflicts) in
      let e = ask_user share_id remote_ih peer_id s.info_hash d in
      let f = on_db (delete_conflict n) e in
      let below = last_id-AllBelow n d.db.conflicts (omega arith) in
      let known : Table.has share_key share_id e.db.shares ≡ true =
        has-update share_key share_id share_id (in_state paused none none) d.db.shares (λ r. refl)
        ∙ ap is_some found in
      let asked : conflict_of n e.db.shares e.db ≡ some c =
        conflict_of-append e.db.shares d.db.conflicts e.db n c refl below refl known in
      let held : get_share share_id f.db ≡ some (in_state paused none none s) = ground (
        arith,
        found,
        beq_refl share_id,
        find-update share_key share_id share_id (in_state paused none none) d.db.shares (λ r. refl),
      ) in
      let run = resolve_conflict-remote n c e asked in
      let runs =
        switch_to_remote-runs w share_id remote_ih (in_state paused none none s) f held free in
      (
        ap (λ (r : Reply (Unit {0}) × Daemon). r.0) run,
        ap (λ (r : Reply (Unit {0}) × Daemon). get_share share_id r.1.db) run
            ∙ switch_to_remote-get_share w share_id remote_ih (in_state paused none none s) f held
                free,
        ap (λ (r : Reply (Unit {0}) × Daemon). r.1.db.conflicts) run
            ∙ ap (λ (g : Daemon). g.db.conflicts) runs
            ∙ ap (λ (g : StateDb). g.conflicts)
                (finish_switch-db w share_id remote_ih (begin_switch share_id remote_ih f))
            ∙ drop_conflict-append n d.db.conflicts c below refl,
      )
