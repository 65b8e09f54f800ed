-- ===== src/Daemon/Switch.antt =====
-- Switching a share to a remote torrent: `_switch_to_remote_torrent` of
-- daemon/daemon/sync/coordinator.py, and who brings it about in daemon/daemon/sync/peer_handler.py.
use peerdup.Prelude.{
  ℕ, ◌≤◌, Text, truthy, Bool, true, false, ◌≡◌, ◌≢◌, inl, inr, refl, ap, ◌∙◌, Option, none, some,
  Bool-cases, List, [], ◌∷◌, ◌++◌, if◌then◌else◌, text_eq, pair_eq, text_beq_iff, ltb, arith,
  beq_refl,
}
use peerdup.Prelude.Table.{find-update}
use peerdup.Registry.Models.{PeerAddress}
use peerdup.Daemon.State.{ShareState, syncing, LocalShare, last_write_wins, share_key, StateDb}
use peerdup.Daemon.State.Shares.{get_share, set_share_state, in_state, set_share_seq}
use peerdup.Daemon.State.Records.{upsert_peer}
use peerdup.Daemon.World.{World, Daemon, on_db, mem, call_handle, attach, add_torrent}
use peerdup.Daemon.Torrents.{path_of, begin_switch, start_switch, finish_switch, switch_to_remote}
use peerdup.Daemon.Handler.{see_peer, handle_offer, admitted, may_enter, handle_remote_update}
use peerdup.Daemon.Lan.Packet.{Offer}

pub mem-append : (t : Text) (us : List Text) → mem t (us ++ t ∷ []) ≡ true
unfolding mem
mem-append t [] = ground (arith, beq_refl t)
mem-append t (u ∷ us) = ground (arith, mem-append t us)

-- The row of a share after a write of its state.
pub get_share-set_share_state :
    (share_id : Text) (state : ShareState) (ih : Text) (s : LocalShare) (db : StateDb)
    → get_share share_id db ≡ some s
    → get_share share_id (set_share_state share_id state none (some ih) db)
      ≡ some (in_state state none (some ih) s)
get_share-set_share_state share_id state ih s db found = ground (
  arith,
  found,
  beq_refl share_id,
  find-update share_key share_id share_id (in_state state none (some ih)) db.shares (λ r. refl),
)

pub add_torrent-db :
    (w : World) (share_id path : Text) (seed : Bool) (ih : Option Text) (d : Daemon)
    → (add_torrent w share_id path seed ih d).1.db ≡ d.db
unfolding add_torrent attach
add_torrent-db w share_id path seed ih d = ground arith

start_switch-begins :
    (share_id ih : Text) (s : LocalShare) (d : Daemon)
    → get_share share_id d.db ≡ some s
    → mem share_id d.switching ≡ false
    → start_switch share_id ih d ≡ (true, begin_switch share_id ih d)
unfolding start_switch
start_switch-begins share_id ih s d found free = ground (arith, found, free)

module _ (w : World) where
  pub finish_switch-db :
      (share_id ih : Text) (d : Daemon) → (finish_switch w share_id ih d).db ≡ d.db
  unfolding finish_switch
  finish_switch-db share_id ih d =
      add_torrent-db w share_id (path_of (get_share share_id d.db)) false (some ih) d

  pub switch_to_remote-runs :
      (share_id ih : Text) (s : LocalShare) (d : Daemon)
      → get_share share_id d.db ≡ some s
      → mem share_id d.switching ≡ false
      → switch_to_remote w share_id ih d ≡ finish_switch w share_id ih (begin_switch share_id ih d)
  unfolding switch_to_remote
  switch_to_remote-runs share_id ih s d found free =
      rw (start_switch-begins share_id ih s d found free, switch_to_remote)

  -- Unless a switch of the share is under way, a switch of a known share sets its state to syncing and its
  -- info hash to the one given, forgets its last error and changes no other field of its row.
  pub switch_to_remote-get_share :
      (share_id ih : Text) (s : LocalShare) (d : Daemon)
      → get_share share_id d.db ≡ some s
      → mem share_id d.switching ≡ false
      → get_share share_id (switch_to_remote w share_id ih d).db
        ≡ some (in_state syncing none (some ih) s)
  switch_to_remote-get_share share_id ih s d found free =
      ap (λ (e : Daemon). get_share share_id e.db)
        (switch_to_remote-runs share_id ih s d found free)
      ∙ ap (get_share share_id) (finish_switch-db share_id ih (begin_switch share_id ih d))
      ∙ get_share-set_share_state share_id syncing ih s d.db found

  -- What a daemon does about a share that takes the last write, when it hears of another info hash with a
  -- number that is not lower.
  abbrev adopted : Text → Text → ℕ → Text → Offer → LocalShare → Daemon → Daemon
  adopted peer_id host port name o s d =
      let here : PeerAddress = record { host = host; port = port; is_lan = true } in
      let e = see_peer w o.share_id peer_id (here ∷ []) true name d in
      switch_to_remote w o.share_id o.info_hash
        (if ltb s.seq o.seq then on_db (set_share_seq o.share_id o.seq) e else e)

  handle_offer-adopts :
      (peer_id host : Text) (port : ℕ) (name : Text) (o : Offer) (d : Daemon) (s : LocalShare)
      (ih : Text)
      → get_share o.share_id d.db ≡ some s
      → s.conflict_strategy ≡ last_write_wins
      → s.info_hash ≡ some ih
      → truthy ih ≡ true
      → truthy o.info_hash ≡ true
      → o.info_hash ≢ ih
      → s.seq ≤ o.seq
      → may_enter peer_id s o d.db ≡ true
      → (handle_offer w peer_id host port name o d).db ≡ (adopted peer_id host port name o s d).db
  unfolding handle_offer admitted handle_remote_update call_handle
  handle_offer-adopts peer_id host port name o d s ih found lww has_hash full offered differ newer
        enters =
      ground (arith, found, lww, has_hash, full, offered, enters, text_beq_iff o.info_hash ih)

  -- The share with the number of the announcement.
  abbrev pub numbered : Offer → LocalShare → LocalShare
  numbered o s = record s { seq = o.seq }

  adopted-found :
      (o : Offer) (s : LocalShare) (e : Daemon)
      → get_share o.share_id e.db ≡ some s
      → s.seq ≤ o.seq
      → get_share o.share_id
          (if ltb s.seq o.seq then on_db (set_share_seq o.share_id o.seq) e else e).db
        ≡ some (numbered o s)
  adopted-found o s e found newer = elim (Bool-cases (ltb s.seq o.seq)) [
    | inl more ↦ ground (
      arith,
      found,
      more,
      beq_refl o.share_id,
      find-update share_key o.share_id o.share_id (numbered o) e.db.shares (λ r. refl),
    )
    | inr equal ↦
        let same : s.seq ≡ o.seq = ground arith in
        ground (arith, found, equal, ap (λ n. record s { seq = n }) same)
  ]

  -- An announcement with another info hash, neither of them empty, and a number that is not lower, from a
  -- peer that may take part,
  -- switches a share that takes the last write, whatever its state, also one that the user has paused: the
  -- share is syncing the announced hash then, with the announced number, if no switch of it is under way.
  pub newer_switches :
      (peer_id host : Text) (port : ℕ) (name : Text) (o : Offer) (d : Daemon) (s : LocalShare)
      (ih : Text)
      → get_share o.share_id d.db ≡ some s
      → s.conflict_strategy ≡ last_write_wins
      → s.info_hash ≡ some ih
      → truthy ih ≡ true
      → truthy o.info_hash ≡ true
      → o.info_hash ≢ ih
      → s.seq ≤ o.seq
      → may_enter peer_id s o d.db ≡ true
      → mem o.share_id d.switching ≡ false
      → get_share o.share_id (handle_offer w peer_id host port name o d).db
        ≡ some (in_state syncing none (some o.info_hash) (numbered o s))
  unfolding upsert_peer
  newer_switches peer_id host port name o d s ih found lww has_hash full offered differ newer enters
        free =
      let here : PeerAddress = record { host = host; port = port; is_lan = true } in
      let e = see_peer w o.share_id peer_id (here ∷ []) true name d in
      let seen_found : get_share o.share_id e.db ≡ some s = ground (arith, found) in
      let now = if ltb s.seq o.seq then on_db (set_share_seq o.share_id o.seq) e else e in
      let now_free : mem o.share_id now.switching ≡ false = ground (arith, free) in
      ap (get_share o.share_id) (
        handle_offer-adopts peer_id host port name o d s ih found lww has_hash full offered differ
          newer enters)
      ∙ switch_to_remote-get_share o.share_id o.info_hash (numbered o s) now
          (adopted-found o s e seen_found newer) now_free
