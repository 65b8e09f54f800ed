-- ===== src/Daemon/Servicer/Refused.antt =====
-- The commands of daemon/daemon/sync/coordinator.py that raise: what each leaves of the tables.
use peerdup.Prelude.{
  ℕ, suc, Text, Bytes, take, if◌then◌else◌, truthy, Bool, true, false, ◌≡◌, refl, Option, some,
  none, inl, inr, arith, Bool-cases, Option-cases,
}
use peerdup.Prelude.{text_eq}
use peerdup.Relay.Hello.{from_hex}
use peerdup.Prelude.Table
use peerdup.Prelude.Table.{is_some}
use peerdup.Registry.Messages.{SharePolicy}
use peerdup.Daemon.State.{ConflictStrategy, syncing, share_key}
use peerdup.Daemon.State.Records.{delete_conflict}
use peerdup.Daemon.State.Shares
use peerdup.Daemon.World.{World, Daemon, on_db}
use peerdup.Daemon.World
use peerdup.Daemon.Coordinator
use peerdup.Daemon.Coordinator.{Failure, Reply, returns, raises}
use peerdup.Daemon.Coordinator.Control
use peerdup.Daemon.Raising.{Watches, Walks, activation_returns}
use peerdup.Daemon.Servicer.{
  StatusCode, Answer, answered, aborted, Command, create_share, Response, strategy_or, answer,
}

abbrev pub raised : {A : Type 0} → Reply A → Bool
raised (returns a) = false
raised (raises f) = true

abbrev pub is_error : Answer Response → Bool
is_error (answered r) = false
is_error (aborted code) = true

-- A creation names a strategy that there is.
abbrev pub has_strategy : Command → Bool
has_strategy (create_share name local_path permission import_key_hex strategy local_only) =
    is_some (Control.strategy_of (strategy_or strategy))
has_strategy _ = true

-- An answer is an error only where the command raises.
pub raised_at :
    {A : Type 0} (code : Failure → StatusCode) (respond : A → Response) (r : Reply A)
    → is_error (answer code respond r) ≡ true
    → raised r ≡ true
unfolding answer
raised_at code respond (returns a) error = error
raised_at code respond (raises f) error = refl

pub remove_share-keeps :
    (share_id : Text) (d : Daemon)
    → raised (Coordinator.remove_share share_id d).0 ≡ true
    → (Coordinator.remove_share share_id d).1.db ≡ d.db
unfolding Coordinator.remove_share
remove_share-keeps share_id d error = elim (Bool-cases (Table.has share_key share_id d.db.shares)) [
  | inl there ↦ ground (arith, there, error)
  | inr gone ↦ rw (gone, Coordinator.remove_share) refl
]

pub set_share_rate_limit-keeps :
    (share_id : Text) (up down : ℕ) (d : Daemon)
    → raised (Control.set_share_rate_limit share_id up down d).0 ≡ true
    → (Control.set_share_rate_limit share_id up down d).1.db ≡ d.db
unfolding Control.set_share_rate_limit
set_share_rate_limit-keeps share_id up down d error =
    elim (Option-cases (Shares.get_share share_id d.db)) [
      | inl gone ↦ rw (gone, Control.set_share_rate_limit) refl
      | inr (s, there) ↦ ground (arith, there, error)
    ]

-- An activation that has not raised ends its command well.
ended_returns :
    {A : Type 0} (a : A) (r : Bool × Daemon)
    → r.0 ≡ false
    → raised (Coordinator.ended a r).0 ≡ false
ended_returns a (true, d) fine = absurd (ground (arith, fine))
ended_returns a (false, d) fine = refl

added_returns :
    (share_id : Text) (policy : Option SharePolicy) (r : Bool × Daemon)
    → r.0 ≡ false
    → raised (Control.added_with share_id policy r).0 ≡ false
added_returns share_id policy (true, d) fine = absurd (ground (arith, fine))
added_returns share_id policy (false, d) fine = refl

module _ (w : World) (watched : Watches w) (walked : Walks w) where
  pub resume_share-keeps :
      (share_id : Text) (d : Daemon)
      → raised (Coordinator.resume_share w share_id d).0 ≡ true
      → (Coordinator.resume_share w share_id d).1.db ≡ d.db
  unfolding Coordinator.resume_share
  resume_share-keeps share_id d error = elim (Option-cases (Shares.get_share share_id d.db)) [
    | inl gone ↦ rw (gone, Coordinator.resume_share) refl
    | inr (s, there) ↦
        let e = on_db (Shares.set_share_state share_id syncing none none) d in
        let r = Coordinator.activation w share_id s.local_path e in
        let fine : raised (Coordinator.resume_share w share_id d).0 ≡ false =
          rw (there, Coordinator.resume_share)
            (ended_returns tt r (activation_returns w watched walked share_id s.local_path e)) in
        absurd (ground (arith, fine, error))
  ]

  pub set_conflict_strategy-keeps :
      (share_id strategy : Text) (d : Daemon)
      → raised (Control.set_conflict_strategy share_id strategy d).0 ≡ true
      → (Control.set_conflict_strategy share_id strategy d).1.db ≡ d.db
  unfolding Control.set_conflict_strategy
  set_conflict_strategy-keeps share_id strategy d error =
      elim (Option-cases (Shares.get_share share_id d.db)) [
        | inl gone ↦ rw (gone, Control.set_conflict_strategy) refl
        | inr (s, there) ↦ elim (Option-cases (Control.strategy_of strategy)) [
          | inl bad ↦ rw (there, bad, Control.set_conflict_strategy) refl
          | inr (c, good) ↦ ground (arith, there, good, error)
        ]
      ]

  -- A share that has its seed and its strategy is refused by nothing but the registry.
  pub stored-keeps :
      (name path permission hex strategy : Text) (local_only : Bool) (d : Daemon) (seed : Bytes)
      (e : Daemon) (c : ConflictStrategy)
      → Control.strategy_of strategy ≡ some c
      → Control.share_seed w hex d ≡ (some seed, e)
      → e.db ≡ d.db
      → raised (Control.create_share_command w name path permission hex strategy local_only d).0
        ≡ true
      → (Control.create_share_command w name path permission hex strategy local_only d).1.db ≡ d.db
  unfolding Control.create_share_command
  stored-keeps name path permission hex strategy local_only d seed e c known made same error =
      let share_id = w.public_key seed in
      let store = Control.store_share w share_id seed name path permission strategy local_only in
      let stores : (f : Daemon) → raised (store f).0 ≡ false = λ (f : Daemon).
        let g =
          on_db (Shares.add_share share_id name path permission true c local_only)
            (on_db (Shares.save_share_keypair share_id seed) f) in
        rw (known, Control.store_share)
          (ended_returns share_id (Coordinator.activation w share_id path g)
            (activation_returns w watched walked share_id path g)) in
      let sent = Control.request (World.create_share share_id name) e in
      elim (Bool-cases local_only) [
        | inl local ↦ ground (arith, made, local, error, stores e)
        | inr shared ↦ elim (Bool-cases (w.registry_accepts e.reads)) [
          | inl taken ↦ ground (arith, made, shared, taken, error, stores sent)
          | inr refused ↦ ground (arith, made, shared, refused, same)
        ]
      ]

  pub create_share_command-keeps :
      (name path permission hex strategy : Text) (local_only : Bool) (d : Daemon)
      → is_some (Control.strategy_of strategy) ≡ true
      → raised (Control.create_share_command w name path permission hex strategy local_only d).0
        ≡ true
      → (Control.create_share_command w name path permission hex strategy local_only d).1.db ≡ d.db
  unfolding Control.create_share_command Control.share_seed
  create_share_command-keeps name path permission hex strategy local_only d good error =
      elim (Option-cases (Control.strategy_of strategy)) [
        | inl bad ↦ ground (arith, good, bad)
        | inr (c, known) ↦ elim (Bool-cases (truthy hex)) [
          | inl imports ↦ elim (Option-cases (Control.imported (from_hex hex))) [
            | inl bad ↦ ground (arith, imports, bad)
            | inr (seed, usable) ↦
                stored-keeps name path permission hex strategy local_only d seed d c known
                  (ground (arith, imports, usable)) refl error
          ]
          | inr makes ↦
              stored-keeps name path permission hex strategy local_only d (w.fresh_seed d.reads)
                (record d { reads = suc d.reads }) c known (ground (arith, makes)) refl error
        ]
      ]

  pub add_share_command-keeps :
      (share_id path permission strategy : Text) (local_only : Bool) (name : Text) (d : Daemon)
      → raised (Control.add_share_command w share_id path permission strategy local_only name d).0
        ≡ true
      → (Control.add_share_command w share_id path permission strategy local_only name d).1.db
        ≡ d.db
  unfolding Control.add_share_command
  add_share_command-keeps share_id path permission strategy local_only name d error =
      elim (Option-cases (Control.strategy_of strategy)) [
        | inl bad ↦ elim (Bool-cases local_only) [
          | inl local ↦ ground (arith, bad, local)
          | inr shared ↦ elim (Option-cases (w.share_meta d.reads share_id)) [
            | inl silent ↦ ground (arith, bad, shared, silent)
            | inr (m, told) ↦ ground (arith, bad, shared, told)
          ]
        ]
        | inr (c, known) ↦
            let named = if truthy name then name else take 8 share_id in
            let m = Control.described w share_id named local_only d in
            let e =
              on_db (Shares.add_share share_id m.0.0 path permission false c local_only) m.1 in
            let r =
              Control.add_share_command w share_id path permission strategy local_only name d in
            let fine : raised r.0 ≡ false =
              rw (known, Control.add_share_command)
                (added_returns share_id m.0.1 (Coordinator.activation w share_id path e)
                  (activation_returns w watched walked share_id path e)) in
            absurd (ground (arith, fine, error))
      ]

  -- A conflict that is kept local activates its share.
  keep_local_returns : (share_id : Text) (d : Daemon) → (Control.keep_local w share_id d).0 ≡ false
  keep_local_returns share_id d = elim (Option-cases (Shares.get_share share_id d.db)) [
    | inl gone ↦ rw (gone, Control.keep_local) refl
    | inr (s, there) ↦
        rw (there, Control.keep_local) (activation_returns w watched walked share_id s.local_path d)
  ]

  pub resolve_conflict-keeps :
      (id : ℕ) (resolution : Text) (d : Daemon)
      → raised (Control.resolve_conflict w id resolution d).0 ≡ true
      → (Control.resolve_conflict w id resolution d).1.db ≡ d.db
  unfolding Control.resolve_conflict
  resolve_conflict-keeps id resolution d error =
      elim (Option-cases (Control.conflict_of id d.db.shares d.db)) [
        | inl gone ↦ ground (arith, gone)
        | inr (c, found) ↦
            let e = on_db (delete_conflict id) d in
            ground (
              arith,
              found,
              error,
              ended_returns tt (Control.keep_local w c.share_id e)
                  (keep_local_returns c.share_id e),
            )
      ]

  pub grant_access-keeps :
      (share_id peer_id permission : Text) (d : Daemon)
      → (Control.grant_access w share_id peer_id permission d).1.db ≡ d.db
  unfolding Control.grant_access
  grant_access-keeps share_id peer_id permission d = ground arith

  pub revoke_access-keeps :
      (share_id peer_id : Text) (d : Daemon)
      → (Control.revoke_access w share_id peer_id d).1.db ≡ d.db
  unfolding Control.revoke_access
  revoke_access-keeps share_id peer_id d = ground arith
