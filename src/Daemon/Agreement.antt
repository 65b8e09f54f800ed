-- ===== src/Daemon/Agreement.antt =====
-- The signatures of daemon/daemon/identity.py against the checks of registry/registry/auth/crypto.py and
-- relay/relay/server.py: each side builds the message on its own.
use peerdup.Prelude.{
  ℕ, ◌+◌, ◌*◌, ◌/◌, ◌%◌, ◌<◌, Text, Bytes, true, false, ◌≡◌, refl, ap, inl, inr, none, some, List,
  [], ◌∷◌, ◌++◌, arith, some-inj, Option-cases, some-inj,
}
use peerdup.Registry.Models.{PeerAddress}
use peerdup.Registry.Service.{Env}
use peerdup.Registry.Crypto.{
  verify_register_peer, verify_create_share, verify_announce, encode, pack_u32,
}
use peerdup.Registry.Crypto.{canonical_addrs as checked_addrs}
use peerdup.Relay.Hello.{
  Keys, Hello, is_signed, is_stale, check_hello, accepted, to_bytes_8, from_hex, hex_digit,
  is_blank,
}
use peerdup.Daemon.Identity.{
  Identity, peer_id, canonical_addrs as signed_addrs, sign_register, sign_create_share,
  sign_announce, sign_relay_hello, to_hex, hex_char,
}

-- What PyNaCl and base58 promise: both sides have the same decoding, the identity's peer_id decodes to
-- its key, and the key verifies what the identity signs.
pub record Matches (env : Env) (id : Identity) : Type 0 where
  pub decodes : (t : Text) → env.b58decode t ≡ id.b58decode t
  pub own_key : id.b58decode (peer_id id) ≡ some id.verify_key_bytes
  pub verifies : (m : Bytes) → env.verify_key id.verify_key_bytes m (id.sign m) ≡ true

-- A list of bytes.
abbrev pub IsBytes : Bytes → Type 0
IsBytes [] = Unit
IsBytes (b ∷ bs) = (b < 256) × IsBytes bs

hex_digit-hex_char : (n : ℕ) → n < 16 → hex_digit (hex_char n) ≡ some n
unfolding hex_digit hex_char
hex_digit-hex_char n h = ground arith

is_blank-hex_char : (n : ℕ) → n < 16 → is_blank (hex_char n) ≡ false
unfolding is_blank hex_char
is_blank-hex_char n h = ground arith

-- The hexadecimal text of a list of bytes is read back as the list.
pub from_hex-to_hex : (bs : Bytes) → IsBytes bs → from_hex (to_hex bs) ≡ some bs
unfolding from_hex to_hex
from_hex-to_hex [] h = refl
from_hex-to_hex (b ∷ bs) h =
    let whole : 16 * (b / 16) + b % 16 ≡ b = omega arith in
    rw
      (
        is_blank-hex_char (b / 16) (omega (arith, h.0)),
        hex_digit-hex_char (b / 16) (omega (arith, h.0)),
        hex_digit-hex_char (b % 16) (omega arith),
        from_hex-to_hex bs h.1,
      )
      (ap (λ (c : ℕ). some (c ∷ bs)) whole)

signed_as_checked : (addrs : List PeerAddress) → signed_addrs addrs ≡ checked_addrs addrs
unfolding signed_addrs checked_addrs
signed_as_checked addrs = refl

module _ (env : Env) (id : Identity) (m : Matches env id) where
  -- If the decoding and the signatures of the two sides match, a registration that an identity signs passes
  -- the registry's check.
  pub sign_register-verify :
      (name : Text) (signature : Bytes)
      → sign_register id name ≡ some signature
      → verify_register_peer env (peer_id id) name signature ≡ true
  unfolding sign_register verify_register_peer
  sign_register-verify name signature h = elim (Option-cases (encode name)) [
    | inl n ↦ let bad : none ≡ some signature = rw (m.own_key, n) at h in ground arith
    | inr (text, e) ↦
        let made : id.sign (id.verify_key_bytes ++ text) ≡ signature =
          some-inj (rw (m.own_key, e) at h) in
        rw (m.decodes (peer_id id), m.own_key, e, ← made) (m.verifies (id.verify_key_bytes ++ text))
  ]

  -- If the decoding and the signatures of the two sides match, the creation of a share that an identity
  -- signs passes the registry's check.
  pub sign_create_share-verify :
      (share_id name : Text) (signature : Bytes)
      → sign_create_share id share_id name ≡ some signature
      → verify_create_share env (peer_id id) share_id name signature ≡ true
  unfolding sign_create_share verify_create_share
  sign_create_share-verify share_id name signature h = elim (Option-cases (id.b58decode share_id)) [
    | inl n ↦ let bad : none ≡ some signature = rw n at h in ground arith
    | inr (share, d) ↦ elim (Option-cases (encode name)) [
      | inl n ↦ let bad : none ≡ some signature = rw (d, n) at h in ground arith
      | inr (text, e) ↦
          let made : id.sign (share ++ text) ≡ signature = some-inj (rw (d, e) at h) in
          rw (m.decodes (peer_id id), m.own_key, m.decodes share_id, d, e, ← made)
            (m.verifies (share ++ text))
    ]
  ]

  -- If the decoding and the signatures of the two sides match, an announcement that an identity signs passes
  -- the registry's check of it, with the same addresses and lifetime.
  pub sign_announce-verify :
      (share_id : Text) (addrs : List PeerAddress) (ttl_seconds : ℕ) (signature : Bytes)
      → sign_announce id share_id addrs ttl_seconds ≡ some signature
      → verify_announce env (peer_id id) share_id addrs ttl_seconds signature ≡ true
  unfolding sign_announce verify_announce
  sign_announce-verify share_id addrs ttl signature h =
      let same = signed_as_checked addrs in
      elim (Option-cases (checked_addrs addrs)) [
        | inl n ↦ let bad : none ≡ some signature = rw (same, n) at h in ground arith
        | inr (canonical, c) ↦ elim (Option-cases (id.b58decode share_id)) [
          | inl n ↦ let bad : none ≡ some signature = rw (same, c, n) at h in ground arith
          | inr (share, d) ↦ elim (Option-cases (pack_u32 ttl)) [
            | inl n ↦
                let bad : none ≡ some signature = rw (same, c, d, m.own_key, n) at h in ground arith
            | inr (time, t) ↦
                let message = share ++ (id.verify_key_bytes ++ (canonical ++ time)) in
                let made : id.sign message ≡ signature =
                  some-inj (rw (same, c, d, m.own_key, t) at h) in
                rw (m.decodes (peer_id id), m.own_key, m.decodes share_id, d, c, t, ← made)
                  (m.verifies message)
          ]
        ]
      ]

  abbrev relay_keys : Keys
  relay_keys = record { b58decode = env.b58decode; verify_key = env.verify_key }

  -- If the decoding and the signatures of the two sides match, a hello that carries the hexadecimal text of
  -- the signature that an identity makes, a list of bytes, is accepted by the relay, unless its time is
  -- stale.
  pub sign_relay_hello-check :
      (now : ℕ) (share_id want : Text) (timestamp : ℕ) (signature : Bytes)
      → sign_relay_hello id share_id want timestamp ≡ some signature
      → IsBytes signature
      → is_stale relay_keys now timestamp ≡ false
      → let hello : Hello = record {
        share_id = share_id;
        peer_id = peer_id id;
        want_peer_id = want;
        timestamp = timestamp;
        sig = to_hex signature;
      } in
        check_hello relay_keys now hello ≡ accepted hello
  unfolding sign_relay_hello is_signed check_hello
  sign_relay_hello-check now share_id want timestamp signature h bytes fresh =
      elim (Option-cases (id.b58decode share_id)) [
        | inl n ↦ let bad : none ≡ some signature = rw n at h in ground arith
        | inr (share, d) ↦ elim (Option-cases (id.b58decode want)) [
          | inl n ↦ let bad : none ≡ some signature = rw (d, m.own_key, n) at h in ground arith
          | inr (wanted, w) ↦ elim (Option-cases (to_bytes_8 timestamp)) [
            | inl n ↦ let bad : none ≡ some signature = rw (d, m.own_key, w, n) at h in ground arith
            | inr (time, t) ↦
                let message = share ++ (id.verify_key_bytes ++ (wanted ++ time)) in
                let made : id.sign message ≡ signature = some-inj (rw (d, m.own_key, w, t) at h) in
                rw
                  (
                    fresh,
                    from_hex-to_hex signature bytes,
                    m.decodes (peer_id id),
                    m.own_key,
                    m.decodes share_id,
                    d,
                    m.decodes want,
                    w,
                    t,
                    ← made,
                    m.verifies message,
                  )
                  refl
          ]
        ]
      ]
