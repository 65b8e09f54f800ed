-- ===== src/Registry/Crypto.antt =====
-- registry/registry/auth/crypto.py: the bearer token, and the messages that the signatures cover.
-- A function that catches every exception and answers False is an `Option Bool` under `verified`.
mod Sort
use mathlib.Core.List.{reverse}
use peerdup.Prelude.{
  is_prefix, ℕ, zero, suc, ◌+◌, ◌-◌, ◌*◌, ◌/◌, ◌%◌, ◌^◌, Text, Bytes, codes, truthy, Bool, true,
  false, ◌&&◌, ◌||◌, Option, none, some, List, [], ◌∷◌, ◌++◌, map, if◌then◌else◌, ltb, leb, eqb,
  ◌==◌, text_eq,
}
use peerdup.Registry.Models.{PeerAddress}
use peerdup.Registry.Service.{Env, Context}
unfoldable pub use Sort.{sort}

infixl 5 ◌>>=◌
abbrev ◌>>=◌ : {A B : Type 0} → Option A → (A → Option B) → Option B
none >>= f = none
some a >>= f = f a

abbrev verified : Option Bool → Bool
verified none = false
verified (some b) = b

-- `dict(metadata).get(k, "")`: of a repeated key the last value counts.
unfoldable pub metadata_get : Text → Text → List (Text × Text) → Text
metadata_get k found [] = found
metadata_get k found ((j, v) ∷ rest) = metadata_get k (if j == k then v else found) rest

-- `str.lower` on ASCII, which metadata values are.
unfoldable pub lower : ℕ → ℕ
lower c = if leb b'A' c && leb c b'Z' then c + 32 else c

abbrev drop : ℕ → Text → Text
drop zero t = t
drop (suc n) [] = []
drop (suc n) (c ∷ t) = drop n t

unfoldable pub extract_bearer_token : Context → Option Text
unfolding metadata_get lower is_prefix
extract_bearer_token context =
    let auth = metadata_get (codes "authorization") [] context.metadata in
    if is_prefix (codes "bearer ") (map lower auth) then some (drop 7 auth) else none

-- `str.encode("utf-8")` of one code point; a surrogate has no encoding.
unfoldable pub utf8_char : ℕ → Option Bytes
utf8_char c =
    if ltb c 0x80
    then some (c ∷ [])
    else if ltb c 0x800
    then some ((0xc0 + c / 64) ∷ (0x80 + c % 64) ∷ [])
    else if leb 0xd800 c && ltb c 0xe000
    then none
    else if ltb c 0x10000
    then some ((0xe0 + c / 4096) ∷ (0x80 + c / 64 % 64) ∷ (0x80 + c % 64) ∷ [])
    else some
        ((0xf0 + c / 262144) ∷ (0x80 + c / 4096 % 64) ∷ (0x80 + c / 64 % 64) ∷ (0x80 + c % 64) ∷ [])

unfoldable pub encode : Text → Option Bytes
unfolding utf8_char
encode [] = some []
encode (c ∷ t) = do b ← utf8_char c; bs ← encode t; some (b ++ bs)

-- `str(n)`. Each round drops a digit, so `suc n` rounds are enough.
decimal_onto : ℕ → ℕ → Text → Text
decimal_onto zero n acc = acc
decimal_onto (suc fuel) n acc =
    let rest = decimal_onto fuel (n / 10) ((b'0' + n % 10) ∷ acc) in
    if ltb n 10 then (b'0' + n) ∷ acc else rest

unfoldable pub decimal : ℕ → Text
unfolding decimal_onto
decimal n = decimal_onto (suc n) n []

abbrev flag : Bool → ℕ
flag true = 1
flag false = 0

-- f"{addr.host}:{addr.port}:{int(addr.is_lan)}"
unfoldable pub address_part : PeerAddress → Text
unfolding decimal
address_part a = a.host ++ (b':' ∷ (decimal a.port ++ (b':' ∷ decimal (flag a.is_lan))))

-- `"\x00".join(parts)`
unfoldable pub join_null : List Text → Text
join_null [] = []
join_null (p ∷ []) = p
join_null (p ∷ q ∷ rest) = p ++ (0 ∷ join_null (q ∷ rest))

unfoldable pub canonical_addrs : List PeerAddress → Option Bytes
unfolding sort address_part join_null encode
canonical_addrs addrs = encode (join_null (sort (map address_part addrs)))

-- `struct.pack(">I", n)` raises when `n` has more than 32 bits.
unfoldable pub pack_u32 : ℕ → Option Bytes
pack_u32 n =
    if ltb n (2 ^ 32)
    then some ((n / 2 ^ 24) ∷ (n / 2 ^ 16 % 256) ∷ (n / 2 ^ 8 % 256) ∷ (n % 256) ∷ [])
    else none

module _ (env : Env) where
  unfoldable pub hash_token : Text → Text
  hash_token token = env.sha256 token

  unfoldable pub verify_register_peer : Text → Text → Bytes → Bool
  verify_register_peer peer_id name signature = verified do
    key ← env.b58decode peer_id
    text ← encode name
    some (env.verify_key key (key ++ text) signature)

  unfoldable pub verify_create_share : Text → Text → Text → Bytes → Bool
  verify_create_share peer_id share_id name signature = verified do
    key ← env.b58decode peer_id
    share ← env.b58decode share_id
    text ← encode name
    some (env.verify_key key (share ++ text) signature)

  unfoldable pub verify_announce : Text → Text → List PeerAddress → ℕ → Bytes → Bool
  verify_announce peer_id share_id internal_addrs ttl_seconds signature = verified do
    key ← env.b58decode peer_id
    share ← env.b58decode share_id
    addrs ← canonical_addrs internal_addrs
    ttl ← pack_u32 ttl_seconds
    some (env.verify_key key (share ++ (key ++ (addrs ++ ttl))) signature)
