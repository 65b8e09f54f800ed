-- ===== src/Daemon/Identity.antt =====
-- daemon/daemon/identity.py: the messages that an identity signs. Loading the key file is left out:
-- input and output.
use peerdup.Prelude.{
  ℕ, ◌+◌, ◌-◌, ◌/◌, ◌%◌, Text, Bytes, Option, none, some, List, [], ◌∷◌, ◌++◌, map, if◌then◌else◌,
  ltb,
}
use peerdup.Registry.Models.{PeerAddress}
use peerdup.Registry.Crypto.{encode, address_part, join_null, sort, pack_u32}
use peerdup.Relay.Hello.{to_bytes_8}

-- An identity: its public key and its signatures, which PyNaCl makes, and the encodings of base58.
pub record Identity : Type 0 where
  pub verify_key_bytes : Bytes
  pub sign : Bytes → Bytes
  pub b58encode : Bytes → Text
  pub b58decode : Text → Option Bytes

infixl 5 ◌>>=◌
abbrev ◌>>=◌ : {A B : Type 0} → Option A → (A → Option B) → Option B
none >>= f = none
some a >>= f = f a

-- `_canonical_addrs`
unfoldable pub canonical_addrs : List PeerAddress → Option Bytes
canonical_addrs addrs = encode (join_null (sort (map address_part addrs)))

-- One character of `bytes.hex()`.
unfoldable pub hex_char : ℕ → ℕ
hex_char n = if ltb n 10 then b'0' + n else b'a' + (n - 10)

unfoldable pub to_hex : Bytes → Text
unfolding hex_char
to_hex [] = []
to_hex (b ∷ bs) = hex_char (b / 16) ∷ hex_char (b % 16) ∷ to_hex bs

module _ (id : Identity) where
  abbrev pub peer_id : Text
  peer_id = id.b58encode id.verify_key_bytes

  -- A signature, or none where the source raises.
  unfoldable pub sign_register : Text → Option Bytes
  sign_register name = do
    key ← id.b58decode peer_id
    text ← encode name
    some (id.sign (key ++ text))

  unfoldable pub sign_create_share : Text → Text → Option Bytes
  sign_create_share share_id name = do
    share ← id.b58decode share_id
    text ← encode name
    some (id.sign (share ++ text))

  unfoldable pub sign_relay_hello : Text → Text → ℕ → Option Bytes
  sign_relay_hello share_id want_peer_id timestamp = do
    share ← id.b58decode share_id
    key ← id.b58decode peer_id
    want ← id.b58decode want_peer_id
    time ← to_bytes_8 timestamp
    some (id.sign (share ++ (key ++ (want ++ time))))

  unfoldable pub sign_announce : Text → List PeerAddress → ℕ → Option Bytes
  unfolding canonical_addrs
  sign_announce share_id addrs ttl_seconds = do
    canonical ← canonical_addrs addrs
    share ← id.b58decode share_id
    key ← id.b58decode peer_id
    ttl ← pack_u32 ttl_seconds
    some (id.sign (share ++ (key ++ (canonical ++ ttl))))
