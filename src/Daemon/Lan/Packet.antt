-- ===== src/Daemon/Lan/Packet.antt =====
-- `pack_packet` and `unpack_packet` of daemon/daemon/lan/discovery.py. Where the source moves a
-- position, the model keeps the bytes behind it.
use peerdup.Prelude.{
  ℕ, zero, suc, ◌+◌, ◌-◌, ◌*◌, ◌/◌, ◌%◌, ◌^◌, Text, Bytes, take, Bool, ◌&&◌, Option, none, some,
  List, [], ◌∷◌, ◌++◌, if◌then◌else◌, ltb, leb, eqb, ◌==◌, text_eq, length,
}
use mathlib.Core.Option.{get_or}
use peerdup.Registry.Crypto.{encode}
use peerdup.Relay.Hello.{from_hex}
use peerdup.Daemon.Utf8.{decode}
use peerdup.Daemon.Identity.{Identity, peer_id, to_hex}

-- What the listener takes from base58 and Ed25519.
pub record Keys : Type 0 where
  pub b58encode : Bytes → Text
  pub verify_key : Bytes → Bytes → Bytes → Bool

-- A triple (share_id, info_hash_hex, seq).
pub record Offer : Type 0 where
  pub share_id : Text
  pub info_hash : Text
  pub seq : ℕ

pub record Packet : Type 0 where
  pub peer_id : Text
  pub shares : List Offer
  pub listen_port : ℕ
  pub name : Text

abbrev pub version : ℕ
version = 4

abbrev pub peer_id_len : ℕ
peer_id_len = 32

abbrev pub share_id_len : ℕ
share_id_len = 32

abbrev pub info_hash_len : ℕ
info_hash_len = 20

abbrev pub seq_len : ℕ
seq_len = 4

abbrev pub sig_len : ℕ
sig_len = 64

infixl 5 ◌>>=◌
abbrev pub ◌>>=◌ : {A B : Type 0} → Option A → (A → Option B) → Option B
none >>= f = none
some a >>= f = f a

-- `n` as `k` bytes, the highest first; `struct.pack` raises when it has more.
unfoldable pub big_endian : ℕ → ℕ → Bytes
big_endian zero n = []
big_endian (suc k) n = (n / 256 ^ k % 256) ∷ big_endian k n

unfoldable pub pack_int : ℕ → ℕ → Option Bytes
pack_int k n = if ltb n (256 ^ k) then some (big_endian k n) else none

unfoldable pub unpack_int : ℕ → Bytes → ℕ
unpack_int acc [] = acc
unpack_int acc (b ∷ bs) = unpack_int (acc * 256 + b) bs

abbrev pub no_hash : Bytes
no_hash = 0 ∷ 0 ∷ 0 ∷ 0 ∷ 0 ∷ 0 ∷ 0 ∷ 0 ∷ 0 ∷ 0 ∷ 0 ∷ 0 ∷ 0 ∷ 0 ∷ 0 ∷ 0 ∷ 0 ∷ 0 ∷ 0 ∷ 0 ∷ []

-- `bytes.fromhex(h) if h else b'\x00' * 20`
abbrev pub hash_bytes : Text → Option Bytes
hash_bytes [] = some no_hash
hash_bytes (c ∷ t) = from_hex (c ∷ t)

module _ (id : Identity) where
  unfoldable pub pack_shares : List Offer → Option Bytes
  pack_shares [] = some []
  pack_shares (s ∷ ss) = do
    share ← id.b58decode s.share_id
    ih ← hash_bytes s.info_hash
    seq ← pack_int seq_len s.seq
    rest ← pack_shares ss
    some (share ++ (ih ++ (seq ++ rest)))

  -- The body behind the version, the peer and the port.
  unfoldable pub pack_body : List Offer → ℕ → Text → Option Bytes
  pack_body shares listen_port peer_name = do
    key ← id.b58decode (peer_id id)
    name ← encode peer_name
    let name_bytes = take 255 name
    port ← pack_int 2 listen_port
    count ← pack_int 2 (length shares)
    offers ← pack_shares shares
    size ← pack_int 2 (length name_bytes)
    some (version ∷ (key ++ (port ++ (count ++ (offers ++ (size ++ name_bytes))))))

  unfoldable pub pack_packet : List Offer → ℕ → Text → Option Bytes
  pack_packet shares listen_port peer_name = do
    body ← pack_body shares listen_port peer_name
    some (body ++ id.sign body)

-- The next `k` bytes and those behind, `none` when there are fewer.
unfoldable pub next : ℕ → Bytes → Option (Bytes × Bytes)
next zero bs = some ([], bs)
next (suc k) [] = none
next (suc k) (b ∷ bs) = do (taken, left) ← next k bs; some (b ∷ taken, left)

abbrev pub drop : ℕ → Bytes → Bytes
drop zero bs = bs
drop (suc n) [] = []
drop (suc n) (b ∷ bs) = drop n bs

unfoldable pub next_int : ℕ → Bytes → Option (ℕ × Bytes)
next_int k bs = do (taken, left) ← next k bs; some (unpack_int 0 taken, left)

-- The hash of a packet of version 3 or 4: all zeros stand for none.
unfoldable pub next_hash : ℕ → Bytes → Option (Text × Bytes)
next_hash v bs =
    let read = (do
      (ih, left) ← next info_hash_len bs
      some (if ih == no_hash then [] else to_hex ih, left)) in
    if leb 3 v then read else some ([], bs)

unfoldable pub next_seq : ℕ → Bytes → Option (ℕ × Bytes)
next_seq v bs = if leb 4 v then next_int seq_len bs else some (0, bs)

-- The name of a packet of version 2 or later; a name that is not UTF-8 counts as empty.
unfoldable pub next_name : ℕ → Bytes → Option (Text × Bytes)
next_name v bs =
    let read = (do
      (size, after) ← next_int 2 bs
      (name, left) ← next size after
      some (get_or (decode name) [], left)) in
    if leb 2 v then read else some ([], bs)

module _ (keys : Keys) where
  unfoldable pub next_share : ℕ → Bytes → Option (Offer × Bytes)
  next_share v bs = do
    (share, after_id) ← next share_id_len bs
    (ih, after_hash) ← next_hash v after_id
    (seq, left) ← next_seq v after_hash
    some (record { share_id = keys.b58encode share; info_hash = ih; seq = seq }, left)

  unfoldable pub next_shares : ℕ → ℕ → Bytes → Option (List Offer × Bytes)
  next_shares v zero bs = some ([], bs)
  next_shares v (suc n) bs = do
    (share, after) ← next_share v bs
    (shares, left) ← next_shares v n after
    some (share ∷ shares, left)

  -- The signature must be all that is left, and covers what is before it.
  unfoldable pub verified : Bytes → Bytes → Packet → Bytes → Option Packet
  verified whole key packet left =
      let size = length whole - sig_len in
      if eqb (length left) sig_len && keys.verify_key key (take size whole) (drop size whole)
      then some packet
      else none

  unfoldable pub unpack_fields : ℕ → Bytes → Bytes → Option Packet
  unpack_fields v whole bs = do
    (key, after_key) ← next peer_id_len bs
    (listen_port, after_port) ← next_int 2 after_key
    (n_shares, after_count) ← next_int 2 after_port
    (shares, after_shares) ← next_shares v n_shares after_count
    (name, left) ← next_name v after_shares
    let packet : Packet = record {
      peer_id = keys.b58encode key;
      shares = shares;
      listen_port = listen_port;
      name = name;
    }
    verified whole key packet left

  unfoldable pub unpack_packet : Bytes → Option Packet
  unpack_packet [] = none
  unpack_packet (v ∷ bs) =
      let fields = unpack_fields v (v ∷ bs) bs in
      if ltb (length (v ∷ bs)) (1 + peer_id_len + 4 + sig_len)
      then none
      else if leb 1 v && leb v 4
      then fields
      else none
