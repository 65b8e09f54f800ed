-- ===== src/Registry/Rules.antt =====
-- Rules for the parts of a handler: how a call ends after each part, in terms of the database.
use mathlib.Core.Path.{subst}
use mathlib.Core.Option.{get_or}
use peerdup.Prelude.{
  Text, ℤ, truthy, Bool, true, false, ◌≡◌, refl, sym, ◌∙◌, inl, inr, Option, none, some, List, [],
  ◌∷◌, eqb, if◌then◌else◌, Option-cases, Bool-cases, arith, text_eq, pair_eq, ℕ, pos, negsuc,
}
use peerdup.Prelude.Table
use peerdup.Registry.Models.{
  MemberRow, ShareRow, AnnouncementRow, PeerAddress, Database, share_key, member_key,
  announcement_key,
}
use peerdup.Registry.Messages.{PeerEvent, Error, aborted, value_error, attribute_error}
use peerdup.Registry.Service.{
  Env, Context, AuditAction, Server, Result, done, fail, Action, pure, publish_event, log, metric,
  metric_rpc, Outcome, Metric, now, andthen, ◌>>=◌, ◌>>◌,
}
use peerdup.Registry.Auth.{
  authenticated_peer, require_auth, require_share_member, require_share_owner,
}
use peerdup.Registry.Auth.Cases.{
  require_auth_lem, require_share_member_lem, require_share_owner_lem,
}
use peerdup.Registry.Limiter.{Verdict, allowed, check_bucket, is_allowed}
use peerdup.Registry.Views.{
  is_online, announced_message, port_field, with_external, announced_peer, build_share_peer,
  build_share_peers,
}

abbrev pub is_abort : Error → Bool
is_abort (aborted status details) = true
is_abort value_error = false
is_abort attribute_error = false

-- Whether a call ended by `context.abort`.
abbrev pub is_aborted : {A : Type 0} → Result A → Bool
is_aborted (done a) = false
is_aborted (fail e) = is_abort e

-- The end of a call: whether it was aborted, and the database.
abbrev pub End : {A : Type 0} → (Bool → Database → Type 0) → Result A × Server → Type 0
End P x = P (is_aborted x.0) x.1.db

-- Such a part neither aborts nor changes the database.
pub record Reads {A : Type 0} (m : Action A) : Type 0 where
  pub at : (s : Server) → (is_aborted (m s).0 ≡ false) × ((m s).1.db ≡ s.db)

module _ {A B : Type 0} (m : Action A) (k : A → Action B) (P : Bool → Database → Type 0)
    (s : Server) where
  -- Behind a part that reads, the rest runs on the same database, or the call has failed.
  pub Reads-bind :
      Reads m
      → P false s.db
      → ((a : A) (t : Server) → t.db ≡ s.db → End P (k a t))
      → End P ((m >>= k) s)
  Reads-bind reads failed rest = go (m s) (reads.at s)
    where
      go :
          (x : Result A × Server) → (is_aborted x.0 ≡ false) × (x.1.db ≡ s.db) → End P (andthen k x)
      go (done a, t) h = rest a t h.1
      go (fail e, t) h = rw h.0 (subst (P false) (sym h.1) failed)

pub Reads-pure : {A : Type 0} (a : A) → Reads (pure a)
Reads-pure a = record { at = λ s. (refl, refl) }

module _ {A B : Type 0} (m : Action A) (k : A → Action B) where
  pub bind-Reads : Reads m → ((a : A) → Reads (k a)) → Reads (m >>= k)
  bind-Reads reads rest = record { at = λ s. go s (m s) (reads.at s) }
    where
      go :
          (s : Server) (x : Result A × Server)
          → (is_aborted x.0 ≡ false) × (x.1.db ≡ s.db)
          → (is_aborted (andthen k x).0 ≡ false) × ((andthen k x).1.db ≡ s.db)
      go s (done a, t) h = (((rest a).at t).0, ((rest a).at t).1 ∙ h.1)
      go s (fail e, t) h = h

pub then-Reads :
    {A : Type 0} (m : Action (Unit {0})) (k : Action A) → Reads m → Reads k → Reads (m >> k)
then-Reads m k reads rest = bind-Reads m (λ _. k) reads (λ _. rest)

pub Reads-End :
    {A : Type 0} (m : Action A) (P : Bool → Database → Type 0) (s : Server)
    → Reads m
    → P false s.db
    → End P (m s)
Reads-End m P s reads holds = rw ((reads.at s).0, (reads.at s).1) holds

if-Reads : {A : Type 0} (b : Bool) (m n : Action A) → Reads m → Reads n → Reads (if b then m else n)
if-Reads true m n rm rn = rm
if-Reads false m n rm rn = rn

pub now-Reads : (env : Env) → Reads (now env)
now-Reads env = record { at = λ s. (refl, refl) }

pub publish_event-Reads :
    (env : Env) (share_id : Text) (event : PeerEvent) → Reads (publish_event env share_id event)
unfolding publish_event
publish_event-Reads env share_id event = record { at = λ s. (refl, refl) }

pub log-Reads :
    (env : Env) (action : AuditAction) (peer_id : Text) (outcome : Outcome) (share_id ip : Text)
    → Reads (log env action peer_id outcome share_id ip)
unfolding log
log-Reads env action peer_id outcome share_id ip = record { at = λ s. (refl, refl) }

pub metric-Reads : (env : Env) (m : Metric) → Reads (metric env m)
unfolding metric
metric-Reads env m = record { at = λ s. (refl, refl) }

pub metric_rpc-Reads :
    (env : Env) (action : AuditAction) (start : ℕ) → Reads (metric_rpc env action start)
unfolding metric_rpc
metric_rpc-Reads env action start = record { at = λ s. (refl, refl) }

pub port_field-Reads : (port : Option ℤ) → Reads (port_field port)
unfolding port_field
port_field-Reads none = Reads-pure 0
port_field-Reads (some (pos n)) = record { at = λ s. (ground arith, ground arith) }
port_field-Reads (some (negsuc n)) = record { at = λ s. (refl, refl) }

pub with_external-Reads :
    (addrs : List PeerAddress) (host : Option Text) (port : Option ℤ)
    → Reads (with_external addrs host port)
unfolding with_external
with_external-Reads addrs host port =
    if-Reads (truthy (get_or host [])) _ _
      (bind-Reads (port_field port) _ (port_field-Reads port) (λ n. Reads-pure _))
      (Reads-pure addrs)

module _ (env : Env) where
  announced_peer-Reads :
      (m : MemberRow) (name : Text) (ann : AnnouncementRow) → Reads (announced_peer env m name ann)
  unfolding announced_peer
  announced_peer-Reads m name ann = bind-Reads (now env) _ (now-Reads env) λ time.
      bind-Reads _ _
        (if-Reads (is_online time ann) _ _
          (with_external-Reads ann.internal_addrs ann.external_host ann.external_port)
          (Reads-pure []))
        (λ addrs. Reads-pure (announced_message m name ann time addrs))

  pub build_share_peer-Reads : (m : MemberRow) → Reads (build_share_peer env m)
  unfolding build_share_peer
  build_share_peer-Reads m = record {
    at = λ s.
        elim (Option-cases
          (Table.find announcement_key (m.share_id, m.peer_id) s.db.announcements)) [
            | inl e ↦ (rw (e, andthen), rw (e, andthen))
            | inr (a, e) ↦ (
              rw (e, andthen) ((announced_peer-Reads m _ a).at s).0,
              rw (e, andthen) ((announced_peer-Reads m _ a).at s).1,
            )
          ];
  }

  pub build_share_peers-Reads : (ms : List MemberRow) → Reads (build_share_peers env ms)
  unfolding build_share_peers
  build_share_peers-Reads [] = Reads-pure []
  build_share_peers-Reads (m ∷ ms) =
      bind-Reads (build_share_peer env m) _ (build_share_peer-Reads m) (λ p.
        bind-Reads (build_share_peers env ms) _ (build_share_peers-Reads ms) (λ ps. Reads-pure _))

  -- The limiter always answers.
  pub is_allowed_lem :
      (peer_id share_id : Text) (s : Server)
      → (v : Verdict) × ((is_allowed env peer_id share_id s).0 ≡ done v)
        × ((is_allowed env peer_id share_id s).1.db ≡ s.db)
        × ((is_allowed env peer_id share_id s).1.wall_reads ≡ s.wall_reads)
  unfolding is_allowed
  is_allowed_lem peer_id share_id s = elim (Bool-cases (eqb env.rate_per_minute 0)) [
    | inl t ↦ (allowed, rw t, rw t, rw t)
    | inr f ↦ (
      (check_bucket env (peer_id, share_id) (env.monotonic_clock s.monotonic_reads) s.buckets).0,
      rw f,
      rw f,
      rw f,
    )
  ]

module _ (env : Env) (context : Context) {A : Type 0} (P : Bool → Database → Type 0)
    (s : Server) where
  pub require_auth-End :
      (k : Text → Action A)
      → P true s.db
      → ((p : Text) → authenticated_peer env context s.db ≡ some p → End P (k p s))
      → End P ((require_auth env context >>= k) s)
  require_auth-End k refused passed = elim (require_auth_lem env context s) [
    | inl (_, _, e, same) ↦ rw (e, andthen) (rw same refused)
    | inr (p, auth, e) ↦ rw (e, andthen) (passed p auth)
  ]

  pub require_share_member-End :
      (share_id caller : Text) (action : AuditAction) (k : MemberRow → Action A)
      → P true s.db
      → ((m : MemberRow)
          → Table.find member_key (share_id, caller) s.db.members ≡ some m
          → End P (k m s))
      → End P ((require_share_member env context share_id caller action >>= k) s)
  require_share_member-End share_id caller action k refused passed =
      elim (require_share_member_lem env context s share_id caller action) [
        | inl (_, _, e, same) ↦ rw (e, andthen) (rw same refused)
        | inr (m, found, e) ↦ rw (e, andthen) (passed m found)
      ]

  pub require_share_owner-End :
      (share_id caller : Text) (action : AuditAction) (k : ShareRow → Action A)
      → P true s.db
      → ((r : ShareRow)
          → Table.find share_key share_id s.db.shares ≡ some r
          → r.owner_id ≡ caller
          → End P (k r s))
      → End P ((require_share_owner env context share_id caller action >>= k) s)
  require_share_owner-End share_id caller action k refused passed =
      elim (require_share_owner_lem env context s share_id caller action) [
        | inl (_, _, e, same) ↦ rw (e, andthen) (rw same refused)
        | inr (r, found, owns, e) ↦ rw (e, andthen) (passed r found owns)
      ]
