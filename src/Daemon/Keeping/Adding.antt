-- ===== src/Daemon/Keeping/Adding.antt =====
-- What adding and removing shares in daemon/daemon/sync/coordinator.py keeps of a share and of the known
-- peers. A removal keeps every other share.
use peerdup.Prelude.{
  Text, Bytes, truthy, take, Bool, true, false, ◌≡◌, ◌≢◌, refl, ◌∙◌, Option, none, some, List, [],
  ◌∷◌, if◌then◌else◌, ◌==◌, text_eq, text_beq_iff, arith, Bool-cases, Option-cases, inl, inr,
}
use peerdup.Prelude.Table
use peerdup.Prelude.Table.{IsUnique, find-append, append-IsUnique, delete-IsUnique, is_some}
use peerdup.Registry.Messages.{SharePolicy}
use peerdup.Daemon.State.{ConflictStrategy, LocalShare, StateDb, share_key}
use peerdup.Daemon.State.Shares
use peerdup.Daemon.State.Shares.{get_share, readd, new_share}
use peerdup.Daemon.World.{World, Daemon, on_db, create_share}
use peerdup.Daemon.Coordinator.{activation, activate_share, remove_share}
use peerdup.Daemon.Coordinator.Control.{added_with}
use peerdup.Daemon.Coordinator.Control.{
  share_seed, store_share, strategy_of, create_share_command, add_share_command, described,
  with_policy, request,
}
use peerdup.Daemon.Keeping
use peerdup.Daemon.Keeping.Switching.{StepKeeps, after, by_db, apply_policy-db}
use peerdup.Daemon.Keeping.Activation.{activate_share-Keeps, ended-Keeps}

find-delete-other :
    (j k : Text) (xs : List LocalShare)
    → (k == j) ≡ false
    → Table.find share_key j (Table.delete share_key k xs) ≡ Table.find share_key j xs
unfolding Table.find Table.delete
find-delete-other j k [] other = refl
find-delete-other j k (x ∷ xs) other = ground (
  arith,
  find-delete-other j k xs other,
  text_beq_iff x.share_id j,
  text_beq_iff x.share_id k,
  text_beq_iff k j,
)

pub remove_share-Keeps :
    (k share_id : Text) (a : StateDb)
    → k ≢ share_id
    → Keeping.Keeps k a (Shares.remove_share share_id a)
unfolding Shares.remove_share
remove_share-Keeps k share_id a other = elim (Bool-cases (Table.has share_key share_id a.shares)) [
  | inr absent ↦ rw (absent, Shares.remove_share) (Keeping.Keeps-refl k a)
  | inl there ↦
      let differ : (share_id == k) ≡ false = ground (arith, text_beq_iff share_id k) in
      rw (there, Shares.remove_share)
        (record {
          row = λ s found.
              (s, find-delete-other k share_id a.shares differ ∙ found, (refl, refl, λ o. o));
          peers = λ p known. known;
          unique = λ u. delete-IsUnique share_key share_id a.shares u;
          unique_peers = λ u. u;
        })
]

add_share-Keeps :
    (k share_id name path permission : Text) (owner : Bool) (c : ConflictStrategy)
    (local_only : Bool) (a : StateDb)
    → Keeping.Keeps k a (Shares.add_share share_id name path permission owner c local_only a)
unfolding Shares.add_share
add_share-Keeps k share_id name path permission owner c local_only a =
    elim (Bool-cases (Table.has share_key share_id a.shares)) [
      | inl there ↦
          rw (there, Shares.add_share)
            (Keeping.put_share-Keeps k share_id (readd name path permission owner) a
              (λ s. (refl, refl, λ o. ground (arith, o))))
      | inr absent ↦
          let r = new_share share_id name path permission owner c local_only in
          rw (absent, Shares.add_share)
            (record {
              row = λ s found. (
                s,
                ground (arith, found, find-append share_key k a.shares r),
                (refl, refl, λ o. o),
              );
              peers = λ p known. known;
              unique = λ u. append-IsUnique share_key a.shares r u (ground (arith, absent));
              unique_peers = λ u. u;
            })
    ]

module _ (w : World) (k : Text) where
  pub remove_command-Keeps :
      (share_id : Text) (d : Daemon) → k ≢ share_id → StepKeeps w k d (remove_share share_id d).1
  unfolding remove_share
  remove_command-Keeps share_id d other =
      elim (Bool-cases (Table.has share_key share_id d.db.shares)) [
        | inl there ↦ rw (there, remove_share) (remove_share-Keeps k share_id d.db other)
        | inr absent ↦ rw (absent, remove_share) (Keeping.Keeps-refl k d.db)
      ]

  save_keypair-Keeps :
      (share_id : Text) (seed : Bytes) (a : StateDb)
      → Keeping.Keeps k a (Shares.save_share_keypair share_id seed a)
  unfolding Shares.save_share_keypair
  save_keypair-Keeps share_id seed a =
      Keeping.same-Keeps k a (Shares.save_share_keypair share_id seed a) (ground arith)
        (ground arith)

  store_share-Keeps :
      (share_id : Text) (seed : Bytes) (name path permission strategy : Text) (local_only : Bool)
      (d : Daemon)
      → StepKeeps w k d (store_share w share_id seed name path permission strategy local_only d).1
  store_share-Keeps share_id seed name path permission strategy local_only d =
      let e = on_db (Shares.save_share_keypair share_id seed) d in
      let saved = save_keypair-Keeps share_id seed d.db in
      elim (Option-cases (strategy_of strategy)) [
        | inl n ↦ rw (n, store_share) saved
        | inr (c, chosen) ↦
            let f = on_db (Shares.add_share share_id name path permission true c local_only) e in
            rw (chosen, store_share)
              (ended-Keeps w k share_id d (activation w share_id path f) (
                after w k d f (activate_share w share_id path f)
                  (after w k d e f saved
                    (add_share-Keeps k share_id name path permission true c local_only e.db))
                  (activate_share-Keeps w k share_id path f)))
      ]

  share_seed-db : (hex : Text) (d : Daemon) → (share_seed w hex d).1.db ≡ d.db
  unfolding share_seed
  share_seed-db hex d = ground arith

  pub create_share-Keeps :
      (name path permission hex strategy : Text) (local_only : Bool) (d : Daemon)
      → StepKeeps w k d (create_share_command w name path permission hex strategy local_only d).1
  unfolding create_share_command
  create_share-Keeps name path permission hex strategy local_only d =
      let r = share_seed w hex d in
      let e = r.1 in
      let same = by_db w k d e (share_seed-db hex d) in
      elim (Option-cases r.0) [
        | inl n ↦ rw (n, create_share_command) same
        | inr (seed, found) ↦
            let share_id = w.public_key seed in
            let sent = request (create_share share_id name) e in
            elim (Bool-cases local_only) [
              | inl here ↦
                  rw (found, here, create_share_command)
                    (after w k d e
                      (store_share w share_id seed name path permission strategy true e).1 same
                      (store_share-Keeps share_id seed name path permission strategy true e))
              | inr registered ↦ elim (Bool-cases (w.registry_accepts e.reads)) [
                | inl accepted ↦
                    rw (found, registered, accepted, create_share_command)
                      (after w k d sent
                        (store_share w share_id seed name path permission strategy false sent).1
                        same
                        (store_share-Keeps share_id seed name path permission strategy false sent))
                | inr refused ↦ rw (found, registered, refused, create_share_command) same
              ]
            ]
      ]

  described-db :
      (share_id name : Text) (local_only : Bool) (d : Daemon)
      → (described w share_id name local_only d).1.db ≡ d.db
  described-db share_id name true d = refl
  described-db share_id name false d = elim (Option-cases (w.share_meta d.reads share_id)) [
    | inl n ↦ rw n
    | inr ((told, policy), found) ↦ rw found
  ]

  with_policy-db :
      (share_id : Text) (p : Option SharePolicy) (d : Daemon) → (with_policy share_id p d).db ≡ d.db
  with_policy-db share_id none d = refl
  with_policy-db share_id (some p) d =
      apply_policy-db share_id p.upload_limit_bps p.download_limit_bps d

  added_with-Keeps :
      (share_id : Text) (p : Option SharePolicy) (d : Daemon) (r : Bool × Daemon)
      → StepKeeps w k d r.1
      → StepKeeps w k d (added_with share_id p r).1
  added_with-Keeps share_id p d (true, e) keeps = keeps
  added_with-Keeps share_id p d (false, e) keeps =
      after w k d e (with_policy share_id p e) keeps
        (by_db w k e (with_policy share_id p e) (with_policy-db share_id p e))

  pub add_share_command-Keeps :
      (share_id path permission strategy : Text) (local_only : Bool) (name : Text) (d : Daemon)
      → StepKeeps w k d (add_share_command w share_id path permission strategy local_only name d).1
  unfolding add_share_command
  add_share_command-Keeps share_id path permission strategy local_only name d =
      let named = if truthy name then name else take 8 share_id in
      let r = described w share_id named local_only d in
      let e = r.1 in
      let same = by_db w k d e (described-db share_id named local_only d) in
      elim (Option-cases (strategy_of strategy)) [
        | inl n ↦ rw (n, add_share_command) same
        | inr (c, chosen) ↦
            let f = on_db (Shares.add_share share_id r.0.0 path permission false c local_only) e in
            let g = activate_share w share_id path f in
            rw (chosen, add_share_command)
              (added_with-Keeps share_id r.0.1 d (activation w share_id path f) (
                after w k d f g
                  (after w k d e f same
                    (add_share-Keeps k share_id r.0.0 path permission false c local_only e.db))
                  (activate_share-Keeps w k share_id path f)))
      ]
