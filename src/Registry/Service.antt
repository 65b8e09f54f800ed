-- ===== src/Registry/Service.antt =====
-- The servicer's state and the actions that its handlers are made of: registry/servicer/registry.py,
-- with the audit log (audit.py) and the metrics (metrics.py). A handler is an action: it returns or
-- raises, and the state comes back either way. Handlers run one at a time.
use peerdup.Prelude.{
  ℕ, suc, ◌-◌, Text, Bytes, Bool, Option, none, some, List, [], ◌∷◌, ◌++◌, if◌then◌else◌,
}
use peerdup.Registry.Models.{Database}
use peerdup.Registry.Messages.{PeerEvent, StatusCode, Details, Error, aborted}

-- What the servicer takes from elsewhere: base58, Ed25519, SHA-256 and the token source, the two
-- clocks, by the number of the reading, and the configuration. `verify_key` is false when the key
-- or the signature is rejected, for whatever reason.
pub record Env : Type 0 where
  pub b58decode : Text → Option Bytes
  pub verify_key : Bytes → Bytes → Bytes → Bool
  pub sha256 : Text → Text
  pub token_urlsafe : ℕ → Text
  pub wall_clock : ℕ → ℕ
  pub monotonic_clock : ℕ → ℕ
  pub rate_per_minute : ℕ
  pub burst : Option ℕ
  pub audit_enabled : Bool
  pub metrics_enabled : Bool
  pub loop_running : Bool
  pub start_time : ℕ

-- A `grpc.ServicerContext`: the invocation metadata, and the peer string.
pub record Context : Type 0 where
  pub metadata : List (Text × Text)
  pub peer : Text

pub data AuditAction : Type 0 where
  auth_failure register_peer get_peer create_share get_share add_peer_to_share
        remove_peer_from_share announce get_share_peers watch_share_peers health get_share_activity
        set_share_policy :
      AuditAction

pub data Outcome : Type 0 where
  ok denied : Outcome

pub record AuditRecord : Type 0 where
  pub ts : ℕ
  pub action : AuditAction
  pub peer_id : Text
  pub share_id : Text
  pub remote_ip : Text
  pub outcome : Outcome

pub data Metric : Type 0 where
  record_rpc : AuditAction → ℕ → Metric
  record_announce : Text → Metric
  set_active_watches : ℕ → Metric
  record_sweep : ℕ → Metric

-- Tokens in the bucket, and the time of the last refill.
pub record Bucket : Type 0 where
  pub tokens : ℕ
  pub last : ℕ

pub record Server : Type 0 where
  pub db : Database
  pub buckets : List ((Text × Text) × Bucket)
  pub audit : List AuditRecord
  pub published : List (Text × PeerEvent)
  pub metrics : List Metric
  pub active_watches : ℕ
  pub last_sweep_at : Option ℕ
  pub wall_reads : ℕ
  pub monotonic_reads : ℕ
  pub tokens_made : ℕ

pub data Result (A : Type 0) : Type 0 where
  done : A → Result A
  fail : Error → Result A

abbrev pub Action : Type 0 → Type 0
Action A = Server → Result A × Server

abbrev pub pure : {A : Type 0} → A → Action A
pure a s = (done a, s)

abbrev pub raise : {A : Type 0} → Error → Action A
raise e s = (fail e, s)

abbrev pub gets : {A : Type 0} → (Server → A) → Action A
gets f s = (done (f s), s)

abbrev pub modify : (Server → Server) → Action (Unit {0})
modify f s = (done tt, f s)

abbrev pub andthen : {A B : Type 0} → (A → Action B) → Result A × Server → Result B × Server
andthen f (done a, s) = f a s
andthen f (fail e, s) = (fail e, s)

infixl 5 ◌>>=◌ ◌>>◌
abbrev pub ◌>>=◌ : {A B : Type 0} → Action A → (A → Action B) → Action B
◌>>=◌ m f s = andthen f (m s)

abbrev pub ◌>>◌ : {A B : Type 0} → Action A → Action B → Action B
m >> k = m >>= λ _. k

-- `context.abort`
abbrev pub abort : {A : Type 0} → StatusCode → Details → Action A
abort status details = raise (aborted status details)

-- `if refused: context.abort(…)`
abbrev pub abort_if : Bool → StatusCode → Details → Action (Unit {0})
abort_if refused status details = if refused then abort status details else pure tt

-- `if not row: context.abort(…)`
abbrev pub or_abort : {A : Type 0} → Option A → StatusCode → Details → Action A
or_abort (some a) status details = pure a
or_abort none status details = abort status details

-- The session's commit of a changed database.
abbrev pub write : (Database → Database) → Action (Unit {0})
write f = modify (λ s. record s { db = f s.db })

append_if : {A : Type 0} → Bool → List A → A → List A
append_if enabled xs x = if enabled then xs ++ x ∷ [] else xs

count_if : Bool → ℕ → ℕ
count_if enabled n = if enabled then suc n else n

module _ (env : Env) where
  -- `_now()`
  abbrev pub now : Action ℕ
  now s = (done (env.wall_clock s.wall_reads), record s { wall_reads = suc s.wall_reads })

  -- `time.monotonic()`
  abbrev pub monotonic : Action ℕ
  monotonic s = (
    done (env.monotonic_clock s.monotonic_reads),
    record s { monotonic_reads = suc s.monotonic_reads },
  )

  -- `generate_token()`
  abbrev pub generate_token : Action Text
  generate_token s =
      (done (env.token_urlsafe s.tokens_made), record s { tokens_made = suc s.tokens_made })

  -- `self._audit.log(…)`: the logger reads the clock for its record, the disabled one does nothing.
  unfoldable pub log : AuditAction → Text → Outcome → Text → Text → Action (Unit {0})
  unfolding append_if count_if
  log action peer_id outcome share_id remote_ip s =
      let entry : AuditRecord = record {
        ts = env.wall_clock s.wall_reads;
        action = action;
        peer_id = peer_id;
        share_id = share_id;
        remote_ip = remote_ip;
        outcome = outcome;
      } in
      (
        done tt,
        record s {
          audit = append_if env.audit_enabled s.audit entry;
          wall_reads = count_if env.audit_enabled s.wall_reads;
        },
      )

  -- `_publish_event`: the event is scheduled on the loop, or dropped when no loop runs.
  unfoldable pub publish_event : Text → PeerEvent → Action (Unit {0})
  unfolding append_if
  publish_event share_id event s =
      (done tt, record s { published = append_if env.loop_running s.published (share_id, event) })

  -- `if self._metrics is not None: self._metrics.…`
  unfoldable pub metric : Metric → Action (Unit {0})
  unfolding append_if
  metric m s = (done tt, record s { metrics = append_if env.metrics_enabled s.metrics m })

  -- `self._metrics.record_rpc(name, "ok", time.monotonic() - start)`, if there are metrics.
  unfoldable pub metric_rpc : AuditAction → ℕ → Action (Unit {0})
  unfolding append_if count_if
  metric_rpc name start s =
      let elapsed = env.monotonic_clock s.monotonic_reads - start in
      (
        done tt,
        record s {
          metrics = append_if env.metrics_enabled s.metrics (record_rpc name elapsed);
          monotonic_reads = count_if env.metrics_enabled s.monotonic_reads;
        },
      )
