-- ===== src/Daemon/Watches.antt =====
-- The registry streams of the shares: `pause_share` and `resume_share` of
-- daemon/daemon/sync/coordinator.py.
use peerdup.Prelude.{
  suc, ◌+◌, Text, Bool, true, false, not, ◌&&◌, ◌≡◌, refl, ap, ◌∙◌, inl, inr, Option, none, some,
  List, [], ◌∷◌, text_eq, beq_refl, arith, Bool-cases, Option-cases,
}
use peerdup.Prelude.Table
use peerdup.Prelude.Table.{find-update, is_some}
use peerdup.Registry.Models.{PeerAddress}
use peerdup.Daemon.State.{LocalShare, KnownPeer, syncing, paused, share_key}
use peerdup.Daemon.State.Shares
use peerdup.Daemon.State.Shares.{get_share, in_state}
use peerdup.Daemon.State.Records.{get_online_peers}
use peerdup.Daemon.World.{
  watch_files, World, Daemon, Watch, source_of, on_db, watch_key, add_peer, call_handle, attach,
  add_torrent,
}
use peerdup.Daemon.Torrents.{add_peers, add_known}
use peerdup.Daemon.Coordinator.{
  Reply, start_watch, start_announcing, stored_limits, number, state_of, is_local_only, bootstrap,
  go_live, with_torrent, activate_watched, activation, ended, pause_share, resume_share,
}

add_peers-watches :
    (share_id : Text) (addresses : List PeerAddress) (d : Daemon)
    → (add_peers share_id addresses d).watches ≡ d.watches
unfolding call_handle
add_peers-watches share_id [] d = refl
add_peers-watches share_id (a ∷ rest) d =
    add_peers-watches share_id rest (add_peer share_id a.host a.port d) ∙ ground arith

add_known-watches :
    (share_id : Text) (ps : List KnownPeer) (d : Daemon)
    → (add_known share_id ps d).watches ≡ d.watches
add_known-watches share_id [] d = refl
add_known-watches share_id (p ∷ ps) d =
    add_known-watches share_id ps (add_peers share_id p.addresses d)
    ∙ add_peers-watches share_id p.addresses d

-- A share that has a stream keeps the streams as they are.
go_live-watches :
    (share_id : Text) (row : Option LocalShare) (d : Daemon)
    → Table.has watch_key share_id d.watches ≡ true
    → (go_live share_id row d).watches ≡ d.watches
unfolding go_live start_watch start_announcing call_handle
go_live-watches share_id none d has =
    ground (arith, has, add_known-watches share_id (get_online_peers share_id d.db) d)
go_live-watches share_id (some s) d has =
    let e = stored_limits share_id (some s) d in
    ground (arith, has, add_known-watches share_id (get_online_peers share_id e.db) e)

attach-watches :
    (share_id : Text) (ih : Option Text) (d : Daemon) → (attach share_id ih d).1.watches ≡ d.watches
unfolding attach
attach-watches share_id none d = refl
attach-watches share_id (some ih) d = ground arith

number-watches :
    (share_id : Text) (files : Bool) (row : Option LocalShare) (d : Daemon)
    → (number share_id files row d).watches ≡ d.watches
number-watches share_id files row d = ground arith

module _ (w : World) where
  add_torrent-watches :
      (share_id path : Text) (files : Bool) (hash : Option Text) (d : Daemon)
      → (add_torrent w share_id path files hash d).1.watches ≡ d.watches
  unfolding add_torrent
  add_torrent-watches share_id path files hash d =
      attach-watches share_id
        (w.torrent_hash (suc d.reads)
          (source_of (w.torrent_cached d.reads share_id) share_id path files hash))
        (record d { reads = 2 + d.reads })

  with_torrent-watches :
      (share_id path : Text) (files : Bool) (hash : Option Text) (row : Option LocalShare)
      (d : Daemon)
      → Table.has watch_key share_id d.watches ≡ true
      → (with_torrent w share_id path files hash row d).watches ≡ d.watches
  unfolding with_torrent
  with_torrent-watches share_id path files hash row d has =
      let r = add_torrent w share_id path files hash d in
      let same = add_torrent-watches share_id path files hash d in
      elim (Option-cases r.0) [
        | inl failed ↦ ground (arith, failed, same)
        | inr (ih, added) ↦
            let e =
              number share_id files row
                (on_db (Shares.set_share_state share_id (state_of files) none (some ih)) r.1) in
            let eq : e.watches ≡ d.watches = ground (arith, same) in
            ground (
              arith,
              added,
              eq,
              has,
              go_live-watches share_id row e (ap (Table.has watch_key share_id) eq ∙ has),
            )
      ]

  activate_watched-watches :
      (share_id path : Text) (d : Daemon)
      → Table.has watch_key share_id d.watches ≡ true
      → (activate_watched w share_id path d).watches ≡ d.watches
  unfolding activate_watched
  activate_watched-watches share_id path d has =
      let row = get_share share_id d.db in
      let bare = not (w.has_files d.reads path) && not (w.torrent_cached (suc d.reads) share_id) in
      let b =
        bootstrap w share_id (bare && not (is_local_only row)) (record d { reads = 2 + d.reads }) in
      let same : b.1.watches ≡ d.watches = ground arith in
      let there : Table.has watch_key share_id b.1.watches ≡ true =
        ap (Table.has watch_key share_id) same ∙ has in
      let e = on_db (Shares.set_share_state share_id syncing none none) b.1 in
      elim (Bool-cases (bare && not (is_some b.0))) [
        | inl waits ↦ rw (waits, activate_watched) (go_live-watches share_id row e there ∙ same)
        | inr adds ↦
            rw (adds, activate_watched)
              (with_torrent-watches share_id path (w.has_files d.reads path) b.0 row b.1 there
                ∙ same)
      ]

  watch_files-watches :
      (share_id path : Text) (d : Daemon) → (watch_files w share_id path d).1.watches ≡ d.watches
  watch_files-watches share_id path d = ground arith

  activation-watches :
      (share_id path : Text) (d : Daemon)
      → Table.has watch_key share_id d.watches ≡ true
      → (activation w share_id path d).1.watches ≡ d.watches
  unfolding activation
  activation-watches share_id path d has =
      let r = watch_files w share_id path d in
      let same = watch_files-watches share_id path d in
      elim (Bool-cases r.0) [
        | inl raised ↦ rw (raised, activation) same
        | inr watched ↦ elim (Bool-cases (w.walk_fails r.1.reads path)) [
          | inl lost ↦ rw (watched, lost, activation) same
          | inr walked ↦
              rw (watched, walked, activation)
                (activate_watched-watches share_id path r.1
                    (ap (Table.has watch_key share_id) same ∙ has)
                  ∙ same)
        ]
      ]

  ended-watches : (r : Bool × Daemon) → (ended tt r).1.watches ≡ r.1.watches
  ended-watches (true, d) = refl
  ended-watches (false, d) = refl

  -- A share whose registry stream is there, is paused and then resumed keeps its one stream, and that one
  -- has been told to stop: no stream that runs is there.
  pub resumed_stays_stopped :
      (share_id : Text) (s : LocalShare) (v : Watch) (d : Daemon)
      → get_share share_id d.db ≡ some s
      → Table.find watch_key share_id d.watches ≡ some v
      → Table.find watch_key share_id (resume_share w share_id (pause_share share_id d)).1.watches
        ≡ some (record v { stopped = true })
  unfolding resume_share
  resumed_stays_stopped share_id s v d found watched =
      let e = pause_share share_id d in
      let f = on_db (Shares.set_share_state share_id syncing none none) e in
      let stop = λ (x : Watch). record x { stopped = true } in
      let gone : Table.find watch_key share_id e.watches ≡ some (record v { stopped = true }) =
        ground (
          arith,
          watched,
          beq_refl share_id,
          find-update watch_key share_id share_id stop d.watches (λ r. refl),
        ) in
      let row : get_share share_id e.db ≡ some (in_state paused none none s) = ground (
        arith,
        found,
        beq_refl share_id,
        find-update share_key share_id share_id (in_state paused none none) d.db.shares (λ r. refl),
      ) in
      let runs : resume_share w share_id e ≡ ended tt (activation w share_id s.local_path f) =
        rw (row, resume_share) in
      ap (λ (r : Reply (Unit {0}) × Daemon). Table.find watch_key share_id r.1.watches) runs
      ∙ ap (Table.find watch_key share_id) (
          ended-watches (activation w share_id s.local_path f)
          ∙ activation-watches share_id s.local_path f (ap is_some gone))
      ∙ gone
