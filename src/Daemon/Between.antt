-- ===== src/Daemon/Between.antt =====
-- What comes between the two halves of `_switch_to_remote_torrent` of daemon/daemon/sync/coordinator.py,
-- whose second half waits for a call that blocks.
use peerdup.Prelude.{
  Text, truthy, Bool, true, false, ◌≡◌, refl, ap, ◌∙◌, inl, inr, Option, none, some, List, [], ◌∷◌,
  ◌++◌, text_eq, text_beq_iff, arith, Bool-cases, Option-cases,
}
use peerdup.Prelude.Table
use peerdup.Prelude.Table.{find-update}
use peerdup.Daemon.State.{syncing, LocalShare, share_key}
use peerdup.Daemon.State.Shares.{get_share, in_state}
use peerdup.Daemon.State.Records.{upsert_file, delete_file}
use peerdup.Daemon.World.{World, Daemon, on_db, mem}
use peerdup.Daemon.Torrents.{begin_switch, start_switch, schedule_or_rebuild}
use peerdup.Daemon.Coordinator.Loops.{
  FileChangedEvent, ChangeType, created, modified, deleted, moved, handle_fs_event, index_change,
  index_file,
}
use peerdup.Daemon.Switch.{mem-append, get_share-set_share_state}

-- The watcher tells of a file, or the first half of a switch of some share.
pub data Act : Type 0 where
  file_event : FileChangedEvent → Act
  switch_begins : Text → Text → Act

-- A step leaves the shares and the switches as they are.
abbrev Leaves : Daemon → Daemon → Type 0
Leaves d e = (e.db.shares ≡ d.db.shares) × (e.switching ≡ d.switching)

mem-more : (t u : Text) (us : List Text) → mem t us ≡ true → mem t (us ++ u ∷ []) ≡ true
unfolding mem
mem-more t u [] h = absurd (ground (arith, h))
mem-more t u (x ∷ us) h = ground (arith, h, mem-more t u us)

module _ (w : World) where
  unfoldable pub acted : List Act → Daemon → Daemon
  acted [] d = d
  acted (file_event evt ∷ acts) d = acted acts (handle_fs_event w evt d)
  acted (switch_begins share_id ih ∷ acts) d = acted acts (start_switch share_id ih d).1

  index_file-Leaves :
      (share_id path rel_path : Text) (d : Daemon)
      → Leaves d (index_file w share_id path rel_path d).1
  unfolding upsert_file
  index_file-Leaves share_id path rel_path d = elim (Option-cases (w.stat d.reads path rel_path)) [
    | inl n ↦ rw (n, index_file) ((refl, refl))
    | inr ((size, mtime_ns), found) ↦ rw (found, index_file) ((ground arith, refl))
  ]

  index_change-Leaves :
      (s : LocalShare) (evt : FileChangedEvent) (c : ChangeType) (dest : Option Text) (d : Daemon)
      → Leaves d (index_change w s evt c dest d).1
  unfolding index_change
  index_change-Leaves s evt deleted dest d = (refl, refl)
  index_change-Leaves s evt moved (some (c ∷ dest)) d =
      index_file-Leaves evt.share_id s.local_path (c ∷ dest)
        (on_db (delete_file evt.share_id evt.rel_path) d)
  index_change-Leaves s evt moved (some []) d =
      index_file-Leaves evt.share_id s.local_path evt.rel_path d
  index_change-Leaves s evt moved none d =
      index_file-Leaves evt.share_id s.local_path evt.rel_path d
  index_change-Leaves s evt created dest d =
      index_file-Leaves evt.share_id s.local_path evt.rel_path d
  index_change-Leaves s evt modified dest d =
      index_file-Leaves evt.share_id s.local_path evt.rel_path d

  schedule-Leaves :
      (share_id path : Text) (local_only : Bool) (d : Daemon)
      → Leaves d (schedule_or_rebuild w share_id path local_only d)
  unfolding schedule_or_rebuild
  schedule-Leaves share_id path local_only d = (ground arith, ground arith)

  handle_fs_event-Leaves :
      (evt : FileChangedEvent) (d : Daemon) → Leaves d (handle_fs_event w evt d)
  unfolding handle_fs_event
  handle_fs_event-Leaves evt d = elim (Option-cases (get_share evt.share_id d.db)) [
    | inl n ↦ rw (n, handle_fs_event) ((refl, refl))
    | inr (s, found) ↦
        let r = index_change w s evt evt.change_type evt.dest_path d in
        let indexed = index_change-Leaves s evt evt.change_type evt.dest_path d in
        let later = schedule-Leaves evt.share_id s.local_path s.local_only r.1 in
        (ground (arith, found, indexed.0, later.0), ground (arith, found, indexed.1, later.1))
  ]

  -- A share that is being switched: its row, and that its switch is under way.
  abbrev Switching : Text → LocalShare → Daemon → Type 0
  Switching share_id s d = (get_share share_id d.db ≡ some s) × (mem share_id d.switching ≡ true)

  start_switch-Switching :
      (share_id other ih : Text) (s : LocalShare) (d : Daemon)
      → Switching share_id s d
      → Switching share_id s (start_switch other ih d).1
  unfolding start_switch
  start_switch-Switching share_id other ih s d h = elim (Bool-cases (mem other d.switching)) [
    | inl runs ↦ rw (runs, start_switch) h
    | inr free ↦ elim (Option-cases (get_share other d.db)) [
      | inl gone ↦ rw (free, gone, start_switch) h
      | inr (t, there) ↦
          rw (free, there, start_switch)
            ((
              ground (
                arith,
                h.0,
                h.1,
                free,
                text_beq_iff other share_id,
                find-update share_key share_id other (in_state syncing none (some ih)) d.db.shares
                    (λ r. refl),
              ),
              mem-more share_id other d.switching h.1,
            ))
    ]
  ]

  acted-Switching :
      (share_id : Text) (s : LocalShare) (acts : List Act) (d : Daemon)
      → Switching share_id s d
      → Switching share_id s (acted acts d)
  unfolding acted
  acted-Switching share_id s [] d h = h
  acted-Switching share_id s (file_event evt ∷ acts) d h =
      let (shares, switching) = handle_fs_event-Leaves evt d in
      acted-Switching share_id s acts (handle_fs_event w evt d)
        (ap (λ x. Table.find share_key share_id x) shares ∙ h.0, ap (mem share_id) switching ∙ h.1)
  acted-Switching share_id s (switch_begins other ih ∷ acts) d h =
      acted-Switching share_id s acts (start_switch other ih d).1
        (start_switch-Switching share_id other ih s d h)

  -- From the first half of a switch of a share to an info hash that is not empty, as long as nothing comes
  -- but file events and the first halves of other switches, of whatever shares: the row of the share is
  -- syncing that info hash, no file event of the share has an effect, and no other switch of it begins.
  pub switching_is_quiet :
      (share_id ih other : Text) (s : LocalShare) (d : Daemon) (acts : List Act)
      (evt : FileChangedEvent)
      → get_share share_id d.db ≡ some s
      → truthy ih ≡ true
      → evt.share_id ≡ share_id
      → let e = acted acts (begin_switch share_id ih d) in
        (get_share share_id e.db ≡ some (in_state syncing none (some ih) s))
        × (handle_fs_event w evt e ≡ e)
        × (start_switch share_id other e ≡ (false, e))
  unfolding handle_fs_event start_switch
  switching_is_quiet share_id ih other s d acts evt found full here =
      let (row, under_way) =
        acted-Switching share_id (in_state syncing none (some ih) s) acts
          (begin_switch share_id ih d)
          (
            get_share-set_share_state share_id syncing ih s d.db found,
            mem-append share_id d.switching,
          ) in
      (row, ground (arith, row, full, here), ground (arith, under_way))
