-- ===== src/Registry/Ttl.antt =====
-- registry/registry/ttl.py: the bounds on the lifetime of an announcement, and the sweep of expired
-- announcements. The sweep runs on the event loop, so what it publishes is never dropped.
use peerdup.Prelude.{
  ℕ, ◌-◌, min, max, Text, Bool, none, some, List, [], ◌∷◌, ◌++◌, leb, text_eq, pair_eq, select,
}
use peerdup.Prelude.Table
use peerdup.Registry.Models.{MemberRow, AnnouncementRow, Database, member_key, announcement_key}
use peerdup.Registry.Messages.{PeerEvent, offline}
use peerdup.Registry.Service.{
  Env, record_sweep, Action, pure, gets, modify, write, ◌>>=◌, ◌>>◌, now, monotonic, metric,
}
use peerdup.Registry.Views.{member_name, offline_peer}

abbrev pub ttl_sweep_interval_seconds : ℕ
ttl_sweep_interval_seconds = 30

abbrev pub ttl_min_seconds : ℕ
ttl_min_seconds = 60

abbrev pub ttl_max_seconds : ℕ
ttl_max_seconds = 600

unfoldable pub clamp_ttl : ℕ → ℕ
clamp_ttl requested = max ttl_min_seconds (min ttl_max_seconds requested)

abbrev pub drop_announcement : Text × Text → Database → Database
drop_announcement key db = record db {
  announcements = Table.delete announcement_key key db.announcements;
}

abbrev pub is_expired : ℕ → AnnouncementRow → Bool
is_expired time ann = leb ann.expires_at time

publish : Text → PeerEvent → Action (Unit {0})
publish share_id event =
    modify (λ s. record s { published = s.published ++ (share_id, event) ∷ [] })

abbrev pub offline_event : ℕ → MemberRow → Text → PeerEvent
offline_event time m name = record {
  type = offline;
  peer = some (offline_peer m name);
  occurred_at = time;
  policy = none;
}

-- An announcement without a membership is dropped in silence.
sweep_row : ℕ → AnnouncementRow → Action (Unit {0})
unfolding publish
sweep_row time ann = do
  membership ← gets (λ s. Table.find member_key (ann.share_id, ann.peer_id) s.db.members)
  write (drop_announcement (announcement_key ann))
  elim membership [
    | none ↦ pure tt
    | some m ↦ do
      name ← gets (λ s. member_name m s.db)
      publish ann.share_id (offline_event time m name)
  ]

unfoldable pub sweep_rows : ℕ → List AnnouncementRow → Action (Unit {0})
unfolding sweep_row
sweep_rows time [] = pure tt
sweep_rows time (ann ∷ rest) = do sweep_row time ann; sweep_rows time rest

module _ (env : Env) where
  unfoldable pub sweep : Action (Unit {0})
  sweep = do
    time ← now env
    expired ← gets (λ s. select (is_expired time) s.db.announcements)
    sweep_rows time expired

  -- `record_sweep` of the servicer.
  record_sweep_done : ℕ → Action (Unit {0})
  record_sweep_done duration = do
    time ← monotonic env
    modify (λ s. record s { last_sweep_at = some time })
    metric env (record_sweep duration)

  -- One round of `ttl_sweep_loop`.
  unfoldable pub sweep_round : Action (Unit {0})
  unfolding sweep record_sweep_done
  sweep_round = do t0 ← monotonic env; sweep; t1 ← monotonic env; record_sweep_done (t1 - t0)
