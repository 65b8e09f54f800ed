-- ===== src/Registry/Limiter/Bounds.antt =====
-- What the token bucket guarantees, and where it is too generous.
use peerdup.Prelude.{ℕ, ◌+◌, ◌-◌, ◌*◌, ◌≤◌, ◌<◌, ◌≡◌, ◌≢◌, ap, List, [], ◌∷◌, length, arith}
use peerdup.Registry.Service.{Bucket}
use peerdup.Registry.Limiter.{token, allowed, take_token}

-- The buckets of one key over a list of times, none of them refused: what is left at the end.
abbrev pub AllAllowed : ℕ → ℕ → Bucket → List ℕ → Type 0
AllAllowed rate burst b [] = Unit
AllAllowed rate burst b (t ∷ ts) =
    ((take_token rate burst t b).0 ≡ allowed)
    × (b.last ≤ t)
    × AllAllowed rate burst (take_token rate burst t b).1 ts

-- The time of the last request.
abbrev pub last_of : ℕ → List ℕ → ℕ
last_of t [] = t
last_of t (u ∷ us) = last_of u us

-- After any request, allowed or refused, a bucket holds at most the burst.
pub take_token-le-burst :
    (rate burst now : ℕ) (b : Bucket) → (take_token rate burst now b).1.tokens ≤ burst * token
unfolding take_token
take_token-le-burst rate burst now b = ground arith

allowed_step :
    (rate burst t : ℕ) (b : Bucket)
    → (take_token rate burst t b).0 ≡ allowed
    → ((take_token rate burst t b).1.last ≡ t)
      × ((take_token rate burst t b).1.tokens + token ≤ b.tokens + (t - b.last) * rate)
unfolding take_token
allowed_step rate burst t b h = ground arith

last_of-ge :
    (rate burst : ℕ) (b : Bucket) (ts : List ℕ)
    → AllAllowed rate burst b ts
    → b.last ≤ last_of b.last ts
last_of-ge rate burst b [] h = omega arith
last_of-ge rate burst b (t ∷ ts) h =
    let ih = last_of-ge rate burst (take_token rate burst t b).1 ts h.2 in
    let since = (allowed_step rate burst t b h.0).0 in omega (arith, h.1, (rw since at ih))

mul_mono : (r a c : ℕ) → a ≤ c → a * r ≤ c * r
mul_mono r a c h = grind arith

refill_split : (rate x t l : ℕ) → x ≤ t → t ≤ l → (t - x) * rate + (l - t) * rate ≡ (l - x) * rate
refill_split rate x t l p q =
    let e : (t - x) + (l - t) ≡ l - x = omega arith in omega (arith, ap (λ (n : ℕ). n * rate) e)

-- A client none of whose requests is refused stays within the bucket: over any such run, the
-- requests take no more than the tokens at the start and the refill of the elapsed time.
pub allowed_within_rate :
    (rate burst : ℕ) (b : Bucket) (ts : List ℕ)
    → AllAllowed rate burst b ts
    → length ts * token ≤ b.tokens + (last_of b.last ts - b.last) * rate
allowed_within_rate rate burst b [] h = omega arith
allowed_within_rate rate burst b (t ∷ ts) h =
    let c : Bucket = (take_token rate burst t b).1 in
    let (since, gain) = allowed_step rate burst t b h.0 in
    let ih : length ts * token ≤ c.tokens + (last_of t ts - t) * rate =
      rw since at (allowed_within_rate rate burst c ts h.2) in
    let after : t ≤ last_of t ts = rw since at (last_of-ge rate burst c ts h.2) in
    omega (arith, ih, gain, refill_split rate b.last t (last_of t ts) h.1 after)

-- With an empty bucket, a burst of at least one, and two requests at `early` and later at `late`,
-- before a token is due: each alone is refused, but after the refusal of the first, the second is
-- allowed as soon as the two waiting times add up to a token.
pub polling_beats_rate :
    (rate burst early late : ℕ) (b : Bucket)
    → b.tokens ≡ 0
    → 1 ≤ burst
    → b.last ≤ early
    → early ≤ late
    → (late - b.last) * rate < token
    → token ≤ (early - b.last) * rate + (late - b.last) * rate
    → ((take_token rate burst late b).0 ≢ allowed)
      × ((take_token rate burst early b).0 ≢ allowed)
      × ((take_token rate burst late (take_token rate burst early b).1).0 ≡ allowed)
unfolding take_token
polling_beats_rate rate burst early late b empty room p q short due =
    let before : (early - b.last) * rate ≤ (late - b.last) * rate =
      mul_mono rate (early - b.last) (late - b.last) (omega arith) in
    (ground arith, ground arith, ground arith)
