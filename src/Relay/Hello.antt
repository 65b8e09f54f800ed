-- ===== src/Relay/Hello.antt =====
-- `_read_hello` of relay/relay/server.py: the hello frame, its age and its signature.
use peerdup.Prelude.{
  ℕ, zero, suc, ◌+◌, ◌-◌, ◌*◌, ◌/◌, ◌%◌, ◌^◌, Text, Bytes, Bool, false, ◌&&◌, ◌||◌, Option, none,
  some, [], ◌∷◌, ◌++◌, if◌then◌else◌, ltb, leb, eqb,
}

-- base58 and Ed25519 come from elsewhere; `verify_key` is false when the key or the signature is
-- rejected, for whatever reason.
pub record Keys : Type 0 where
  pub b58decode : Text → Option Bytes
  pub verify_key : Bytes → Bytes → Bytes → Bool

-- The fields of the JSON body. A time before the epoch is stale in any case, and left out.
pub record Hello : Type 0 where
  pub share_id : Text
  pub peer_id : Text
  pub want_peer_id : Text
  pub timestamp : ℕ
  pub sig : Text

-- What the client sends in time: no whole header, or a length and perhaps a body, which may not be
-- JSON with the five fields.
pub data Received : Type 0 where
  no_header : Received
  header_only : ℕ → Received
  bad_body : ℕ → Received
  body : ℕ → Hello → Received

pub data Reason : Type 0 where
  bad_hello stale_timestamp bad_signature at_capacity : Reason

-- A hello, an error frame to send, or a connection to close in silence.
pub data Reading : Type 0 where
  accepted : Hello → Reading
  rejected : Reason → Reading
  dropped : Reading

abbrev pub timestamp_tolerance : ℕ
timestamp_tolerance = 60

abbrev pub max_hello_size : ℕ
max_hello_size = 4096

infixl 5 ◌>>=◌
abbrev ◌>>=◌ : {A B : Type 0} → Option A → (A → Option B) → Option B
none >>= f = none
some a >>= f = f a

-- `n.to_bytes(k, "big")` without the check of the size.
big_endian : ℕ → ℕ → Bytes
big_endian zero n = []
big_endian (suc k) n = (n / 256 ^ k % 256) ∷ big_endian k n

-- `n.to_bytes(8, "big")`
unfoldable pub to_bytes_8 : ℕ → Option Bytes
unfolding big_endian
to_bytes_8 n = if ltb n (2 ^ 64) then some (big_endian 8 n) else none

unfoldable pub hex_digit : ℕ → Option ℕ
hex_digit c =
    if leb b'0' c && leb c b'9'
    then some (c - b'0')
    else if leb b'a' c && leb c b'f'
    then some (c - b'a' + 10)
    else if leb b'A' c && leb c b'F'
    then some (c - b'A' + 10)
    else none

unfoldable pub is_blank : ℕ → Bool
is_blank c = (leb 9 c && leb c 13) || eqb c 32

-- `bytes.fromhex`: pairs of digits, and white space between them.
unfoldable pub from_hex : Text → Option Bytes
unfolding hex_digit is_blank
from_hex [] = some []
from_hex (c ∷ []) = if is_blank c then some [] else none
from_hex (c ∷ d ∷ t) =
    let after_blank = from_hex (d ∷ t) in
    let after_pair = from_hex t in
    let pair = (do
      high ← hex_digit c
      low ← hex_digit d
      bytes ← after_pair
      some ((16 * high + low) ∷ bytes)) in
    if is_blank c then after_blank else pair

abbrev is_true : Option Bool → Bool
is_true none = false
is_true (some b) = b

module _ (keys : Keys) where
  -- The peer's key signs the share, both peers and the time.
  unfoldable pub is_signed : Hello → Bool
  unfolding to_bytes_8 from_hex
  is_signed h = is_true do
    key ← keys.b58decode h.peer_id
    share ← keys.b58decode h.share_id
    want ← keys.b58decode h.want_peer_id
    time ← to_bytes_8 h.timestamp
    sig ← from_hex h.sig
    some (keys.verify_key key (share ++ (key ++ (want ++ time))) sig)

  -- abs(now - timestamp) > TIMESTAMP_TOLERANCE
  unfoldable pub is_stale : ℕ → ℕ → Bool
  is_stale now timestamp = ltb timestamp_tolerance ((now - timestamp) + (timestamp - now))

  unfoldable pub check_hello : ℕ → Hello → Reading
  check_hello now h =
      if is_stale now h.timestamp
      then rejected stale_timestamp
      else if is_signed h
      then accepted h
      else rejected bad_signature

  unfoldable pub read_hello : ℕ → Received → Reading
  unfolding check_hello
  read_hello now no_header = dropped
  read_hello now (header_only length) = dropped
  read_hello now (bad_body length) =
      if ltb max_hello_size length then dropped else rejected bad_hello
  read_hello now (body length h) = if ltb max_hello_size length then dropped else check_hello now h
