-- ===== src/Registry/Changes/Announcing.antt =====
-- Case rules for Announce and the sweep, and for the handlers that only read.
use mathlib.Core.Path.{subst}
use peerdup.Prelude.{
  ap, ℕ, suc, ◌+◌, ◌<◌, ◌≤◌, Text, ℤ, take, Bool, true, false, ◌≡◌, sym, ◌∙◌, inl, inr, Option,
  none, some, Option-cases, Bool-cases, ◌==◌, text_eq, pair_eq, arith, text_beq_iff,
}
use peerdup.Prelude.Table
use peerdup.Registry.Models.{AnnouncementRow, Database, member_key, announcement_key}
use peerdup.Registry.Messages.{AnnounceRequest, AnnounceResponse, resource_exhausted, retry_after}
use peerdup.Registry.Service.{
  Env, Context, Server, Action, ◌>>◌, log, publish_event, metric, metric_rpc, record_announce,
  andthen, announce, ok,
}
use peerdup.Registry.Crypto.{verify_announce}
use peerdup.Registry.Address.{parse_peer_addr, remote_ip}
use peerdup.Registry.Auth.{authenticated_peer, refuse}
use peerdup.Registry.Limiter.{Verdict, allowed, refused, is_allowed}
use peerdup.Registry.Rules.{
  End, Reads, bind-Reads, Reads-End, with_external-Reads, port_field-Reads, is_allowed_lem,
  require_auth-End, Reads-pure, then-Reads, log-Reads, metric-Reads, metric_rpc-Reads, now-Reads,
  publish_event-Reads,
}
use peerdup.Registry.Announce.{
  seconds, host_of, port_of, granted_ttl, renew, first_row, request_key, put_announcement,
  add_announcement, announced_event, announce_response, publish_announced, respond, accept, limited,
  announce_rpc,
}

-- The row that an announcement writes: the times are those of two readings of the clock.
module _ (env : Env) (context : Context) (r : AnnounceRequest) where
  abbrev pub external : Option (Text × ℤ)
  external = parse_peer_addr context.peer

  abbrev pub expiry : ℕ → ℕ
  expiry i = env.wall_clock i + seconds (granted_ttl r.ttl_seconds)

  -- What is shown of `P` when an announcement is written to `db`, at two readings of the clock from
  -- the `n`-th on.
  abbrev pub Announces : (Bool → Database → Type 0) → ℕ → Database → Type 0
  Announces P n db =
      (i j : ℕ)
      → n ≤ i
      → i < j
      → ((row : AnnouncementRow)
          → Table.find announcement_key (request_key r) db.announcements ≡ some row
          → P false (
              put_announcement (request_key r) (renew r external (env.wall_clock j) (expiry i)) db))
        × (Table.find announcement_key (request_key r) db.announcements ≡ none
            → P false (add_announcement (first_row r external (env.wall_clock j) (expiry i)) db))

  answer : Text → ℕ → Bool → Action AnnounceResponse
  answer caller start was_online = do
    publish_announced env context r external was_online
    log env announce caller ok r.share_id (remote_ip context)
    metric env (record_announce (take 8 r.share_id))
    metric_rpc env announce start
    respond env context external (granted_ttl r.ttl_seconds)

  publish_announced-Reads : (b : Bool) → Reads (publish_announced env context r external b)
  unfolding publish_announced publish_event
  publish_announced-Reads b = bind-Reads _ _ (now-Reads env) λ time.
      bind-Reads _ _ (with_external-Reads r.internal_addrs (host_of external) (port_of external))
        (λ addrs. publish_event-Reads env r.share_id (announced_event r b time addrs))

  respond-Reads : (ttl : ℕ) → Reads (respond env context external ttl)
  unfolding respond
  respond-Reads ttl =
      bind-Reads _ _ (port_field-Reads (port_of external))
        (λ n. Reads-pure (announce_response external ttl n))

  answer-Reads : (caller : Text) (start : ℕ) (b : Bool) → Reads (answer caller start b)
  unfolding answer
  answer-Reads caller start b = then-Reads _ _ (publish_announced-Reads b) (
      then-Reads _ _ (log-Reads env announce caller ok r.share_id (remote_ip context)) (
        then-Reads _ _ (metric-Reads env (record_announce (take 8 r.share_id))) (
          then-Reads _ _ (metric_rpc-Reads env announce start)
            (respond-Reads (granted_ttl r.ttl_seconds)))))

  module _ (P : Bool → Database → Type 0) where
    accept-End :
        (caller : Text) (start : ℕ) (t : Server)
        → Announces P t.wall_reads t.db
        → End P (accept env context r caller start t)
    unfolding accept answer
    accept-End caller start t written =
        elim (Option-cases (Table.find announcement_key (request_key r) t.db.announcements)) [
          | inl e ↦
              rw (e, andthen)
                (Reads-End (answer caller start false) P _ (answer-Reads caller start false)
                  ((written t.wall_reads (suc t.wall_reads) (omega arith) (omega arith)).1 e))
          | inr (row, e) ↦
              rw (e, andthen)
                (Reads-End (answer caller start _) P _ (answer-Reads caller start _) (
                  (written t.wall_reads (suc (suc t.wall_reads)) (omega arith) (omega arith)).0 row
                    e))
        ]

    -- Behind the limiter, whatever its verdict.
    verdict-End :
        (caller : Text) (start : ℕ) (v : Verdict) (t : Server)
        → P true t.db
        → Announces P t.wall_reads t.db
        → End P (
            (elim v as (λ _. Action AnnounceResponse) [
              | allowed ↦ accept env context r caller start
              | refused num den ↦
                  refuse env context announce caller r.share_id resource_exhausted
                    (retry_after num den)
            ])
              t)
    unfolding refuse log
    verdict-End caller start allowed t refusal written = accept-End caller start t written
    verdict-End caller start (refused num den) t refusal written = refusal

    limited-End :
        (caller : Text) (start : ℕ) (t : Server)
        → P true t.db
        → Announces P t.wall_reads t.db
        → End P (limited env context r caller start t)
    unfolding limited
    limited-End caller start t refusal written =
        let (v, answered, same, reads) = is_allowed_lem env r.peer_id r.share_id t in
        rw (answered, andthen)
          (verdict-End caller start v (is_allowed env r.peer_id r.share_id t).1
            (subst (P true) (sym same) refusal)
            (subst (λ n. Announces P n (is_allowed env r.peer_id r.share_id t).1.db) (sym reads)
              (subst (Announces P t.wall_reads) (sym same) written)))

    pub announce_cases :
        (s : Server)
        → P true s.db
        → (authenticated_peer env context s.db ≡ some r.peer_id
            → verify_announce env r.peer_id r.share_id r.internal_addrs r.ttl_seconds r.signature
              ≡ true
            → Table.has member_key (request_key r) s.db.members ≡ true
            → Announces P s.wall_reads s.db)
        → End P (announce_rpc env context r s)
    unfolding announce_rpc refuse log
    announce_cases s refusal written =
        require_auth-End env context P (record s { monotonic_reads = suc s.monotonic_reads }) _
          refusal
          λ p auth. elim (Bool-cases (p == r.peer_id)) [
            | inr f ↦ rw f refusal
            | inl t ↦
                rw t
                  (elim (Bool-cases (
                    verify_announce env r.peer_id r.share_id r.internal_addrs r.ttl_seconds
                      r.signature)) [
                        | inr f ↦ rw f refusal
                        | inl v ↦
                            rw v
                              (elim (Bool-cases
                                (Table.has member_key (request_key r) s.db.members)) [
                                  | inr f ↦ rw f refusal
                                  | inl m ↦ rw m (
                                      limited-End p _ _ refusal
                                        (written (auth ∙ ap some ((text_beq_iff _ _).0 t)) v m))
                                ])
                      ])
          ]
