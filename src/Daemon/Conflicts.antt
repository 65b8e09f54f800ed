-- ===== src/Daemon/Conflicts.antt =====
-- The conflicts that wait for the user: `add_conflict`, `list_conflicts` and `delete_conflict` of
-- daemon/daemon/state/db.py, `resolve_conflict` of daemon/daemon/sync/coordinator.py.
use peerdup.Prelude.{
  ℕ, suc, ◌<◌, Text, true, ◌≡◌, refl, ap, Option, none, some, List, [], ◌∷◌, ◌++◌, if◌then◌else◌,
  ◌==◌, text_eq, text_beq_iff, arith, select,
}
use peerdup.Prelude.Table
use peerdup.Daemon.State.{LocalShare, LocalConflict, StateDb, share_key}
use peerdup.Daemon.State.Records.{
  last_id, drop_conflict, add_conflict, new_conflict, delete_conflict,
}
use peerdup.Daemon.Coordinator.Control.{find_conflict, conflict_of}

-- No conflict has an id above `n`.
abbrev pub AllBelow : ℕ → List LocalConflict → Type 0
AllBelow n [] = Unit
AllBelow n (c ∷ cs) = (c.id < n) × AllBelow n cs

pub last_id-AllBelow : (n : ℕ) (cs : List LocalConflict) → last_id cs < n → AllBelow n cs
unfolding last_id
last_id-AllBelow n [] h = tt
last_id-AllBelow n (c ∷ cs) h = (omega arith, last_id-AllBelow n cs (omega arith))

pub drop_conflict-append :
    (n : ℕ) (cs : List LocalConflict) (c : LocalConflict)
    → AllBelow n cs
    → c.id ≡ n
    → drop_conflict n (cs ++ c ∷ []) ≡ cs
unfolding drop_conflict
drop_conflict-append n [] c below same = ground arith
drop_conflict-append n (x ∷ xs) c below same =
    ground (arith, drop_conflict-append n xs c below.1 same)

find_conflict-append :
    (share_id : Text) (n : ℕ) (cs : List LocalConflict) (c : LocalConflict)
    → AllBelow n cs
    → c.id ≡ n
    → find_conflict n (select (λ (x : LocalConflict). x.share_id == share_id) (cs ++ c ∷ []))
      ≡ (if c.share_id == share_id then some c else none)
unfolding find_conflict select
find_conflict-append share_id n [] c below same = ground arith
find_conflict-append share_id n (x ∷ xs) c below same =
    ground (arith, find_conflict-append share_id n xs c below.1 same)

pub conflict_of-append :
    (ss : List LocalShare) (cs : List LocalConflict) (db : StateDb) (n : ℕ) (c : LocalConflict)
    → db.conflicts ≡ cs ++ c ∷ []
    → AllBelow n cs
    → c.id ≡ n
    → Table.has share_key c.share_id ss ≡ true
    → conflict_of n ss db ≡ some c
unfolding conflict_of Table.find
conflict_of-append [] cs db n c rows below same known = ground arith
conflict_of-append (s ∷ ss) cs db n c rows below same known = ground (
  arith,
  rows,
  find_conflict-append s.share_id n cs c below same,
  conflict_of-append ss cs db n c rows below same,
  known,
  text_beq_iff s.share_id c.share_id,
  text_beq_iff c.share_id s.share_id,
)

-- A conflict that is recorded for a known share gets an id that no other has, is what the id finds, and
-- once it is deleted the conflicts are those from before.
pub add_conflict-found :
    (share_id remote_peer_id remote_info_hash : Text) (local_info_hash : Option Text) (db : StateDb)
    → Table.has share_key share_id db.shares ≡ true
    → (conflict_of
          (suc (last_id db.conflicts))
          db.shares
          (add_conflict share_id remote_peer_id remote_info_hash local_info_hash db)
        ≡ some (new_conflict share_id remote_peer_id remote_info_hash local_info_hash db))
      × (delete_conflict
            (suc (last_id db.conflicts))
            (add_conflict share_id remote_peer_id remote_info_hash local_info_hash db)
          ≡ db)
add_conflict-found share_id remote_peer_id remote_info_hash local_info_hash db known =
    let c = new_conflict share_id remote_peer_id remote_info_hash local_info_hash db in
    let n = suc (last_id db.conflicts) in
    let below : AllBelow n db.conflicts = last_id-AllBelow n db.conflicts (omega arith) in
    (
      conflict_of-append db.shares db.conflicts
          (add_conflict share_id remote_peer_id remote_info_hash local_info_hash db) n c refl below
          refl known,
      ap (λ cs. record db { conflicts = cs }) (drop_conflict-append n db.conflicts c below refl),
    )
