-- ===== src/Registry/Limiter.antt =====
-- `RateLimiter` of registry/servicer/registry.py: a token bucket for each (peer_id, share_id).
-- A second is 10^9 ticks of the monotonic clock, and the tokens, which the source keeps as floats,
-- are exact numbers of `1 / token` of a token: so a tick refills `rate_per_minute` units.
-- The clock never goes back, so the truncated subtraction is the source's.
pub mod Bounds
use mathlib.Core.Option.{get_or}
use mathlib.Core.Option
use peerdup.Prelude.{
  ℕ, ◌+◌, ◌-◌, ◌*◌, min, Text, Bool, true, false, Option, none, some, List, [], ◌∷◌, ◌++◌,
  if◌then◌else◌, leb, eqb, pair_eq, text_eq,
}
use peerdup.Prelude.Table
use peerdup.Registry.Service.{Env, Bucket, done, Action, pure, modify, ◌>>=◌, ◌>>◌, monotonic}

abbrev pub token : ℕ
token = 60_000_000_000

abbrev pub Buckets : Type 0
Buckets = List ((Text × Text) × Bucket)

abbrev bucket_key : (Text × Text) × Bucket → Text × Text
bucket_key r = r.0

-- self._buckets[key] = bucket
set_bucket : Text × Text → Bucket → Buckets → Buckets
set_bucket key bucket buckets =
    if Table.has bucket_key key buckets
    then Table.update bucket_key key (λ r. (r.0, bucket)) buckets
    else buckets ++ (key, bucket) ∷ []

abbrev get_bucket : Text × Text → Buckets → Option Bucket
get_bucket key buckets =
    Option.map (λ (r : (Text × Text) × Bucket). r.1) (Table.find bucket_key key buckets)

-- Allowed, or refused with the wait in ticks as a fraction.
pub data Verdict : Type 0 where
  allowed : Verdict
  refused : ℕ → ℕ → Verdict

-- min(self._burst, tokens + elapsed * rate_per_sec)
unfoldable pub refill : ℕ → ℕ → ℕ → Bucket → ℕ
refill rate burst now b = min (burst * token) (b.tokens + (now - b.last) * rate)

unfoldable pub take_token : ℕ → ℕ → ℕ → Bucket → Verdict × Bucket
unfolding refill
take_token rate burst now b =
    let tokens = refill rate burst now b in
    if leb token tokens
    then (allowed, record { tokens = tokens - token; last = now })
    else (refused (token - tokens) rate, record { tokens = tokens; last = b.last })

-- A key that was never seen starts with a full bucket.
abbrev pub fresh_bucket : ℕ → ℕ → Bucket
fresh_bucket burst now = record { tokens = burst * token; last = now }

-- burst if burst is not None else rate_per_minute
abbrev pub burst_of : Env → ℕ
burst_of env = get_or env.burst env.rate_per_minute

unfoldable pub check_bucket : Env → Text × Text → ℕ → Buckets → Verdict × Buckets
unfolding take_token set_bucket
check_bucket env key now buckets =
    let start = get_or (get_bucket key buckets) (fresh_bucket (burst_of env) now) in
    let (verdict, bucket) = take_token env.rate_per_minute (burst_of env) now start in
    (verdict, set_bucket key bucket buckets)

module _ (env : Env) where
  check_now : Text × Text → ℕ → Action Verdict
  unfolding check_bucket
  check_now key now s =
      let (verdict, buckets) = check_bucket env key now s.buckets in
      (done verdict, record s { buckets = buckets })

  unfoldable pub is_allowed : Text → Text → Action Verdict
  unfolding check_now
  is_allowed peer_id share_id =
      if eqb env.rate_per_minute 0
      then pure allowed
      else do now ← monotonic env; check_now (peer_id, share_id) now
