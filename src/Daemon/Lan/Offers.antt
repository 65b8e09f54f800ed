-- ===== src/Daemon/Lan/Offers.antt =====
-- The shares of a packet of daemon/daemon/lan/discovery.py: what was packed is read back, with any rest
-- behind it.
use peerdup.Prelude.{
  ℕ, suc, Text, Bytes, false, ◌≡◌, refl, sym, ap, ◌∙◌, ◌⊎◌, inl, inr, Option, some, List, [], ◌∷◌,
  ◌++◌, ◌==◌, text_eq, text_beq, length, arith, some-inj,
}
use mathlib.Core.List.{append_assoc}
use peerdup.Relay.Hello.{from_hex}
use peerdup.Daemon.Identity.{Identity, to_hex}
use peerdup.Daemon.Agreement.{IsBytes, from_hex-to_hex}
use peerdup.Daemon.Lan.Pieces.{bind_some, next-append, next_int-pack_int_4}
use peerdup.Daemon.Lan.Packet.{
  Keys, Offer, pack_int, no_hash, hash_bytes, pack_shares, next, next_hash, next_seq, next_share,
  next_shares,
}

regroup : (a b c d rest : Bytes) → (a ++ (b ++ (c ++ d))) ++ rest ≡ a ++ (b ++ (c ++ (d ++ rest)))
regroup a b c d rest = simp append_assoc

-- An info hash is absent, or the text of 20 bytes that are not all zero.
abbrev pub IsHash : Text → Type 0
IsHash h =
    (h ≡ [])
    ⊎ ((b : Bytes) × (h ≡ to_hex b) × IsBytes b × (length b ≡ 20) × ((b == no_hash) ≡ false))

next_hash-packed :
    (h : Text) (bs rest : Bytes)
    → IsHash h
    → hash_bytes h ≡ some bs
    → next_hash 4 (bs ++ rest) ≡ some (h, rest)
unfolding next_hash next text_beq
next_hash-packed h bs rest (inl e) p =
    let z : some no_hash ≡ some bs = rw e at p in rw (← some-inj z, e) refl
next_hash-packed h bs rest (inr ([], e, byte, size, some_hash)) p = absurd (omega (arith, size))
next_hash-packed h bs rest (inr (b ∷ b', e, byte, size, some_hash)) p =
    let q : from_hex (to_hex (b ∷ b')) ≡ some bs = unfold to_hex in rw e at p in
    let same : b ∷ b' ≡ bs = some-inj (sym (from_hex-to_hex (b ∷ b') byte) ∙ q) in
    rw (← same, next-append 20 (b ∷ b') rest size, some_hash, e) refl

module _ (id : Identity) (keys : Keys) where
  -- Share ids are the base58 of 32 bytes.
  abbrev pub IsOffer : Offer → Type 0
  IsOffer s =
      ((share : Bytes) × (id.b58decode s.share_id ≡ some share)
        × (keys.b58encode share ≡ s.share_id)
        × (length share ≡ 32))
      × IsHash s.info_hash

  abbrev pub AllOffers : List Offer → Type 0
  AllOffers [] = Unit
  AllOffers (s ∷ ss) = IsOffer s × AllOffers ss

  next_share-packed :
      (s : Offer) (share ih seq rest : Bytes)
      → id.b58decode s.share_id ≡ some share
      → IsOffer s
      → hash_bytes s.info_hash ≡ some ih
      → pack_int 4 s.seq ≡ some seq
      → next_share keys 4 (share ++ (ih ++ (seq ++ rest))) ≡ some (s, rest)
  unfolding next_share next_seq
  next_share-packed s share ih seq rest d ((share', d', encoded, size), hash) h q =
      let same : share' ≡ share = some-inj (sym d' ∙ d) in
      rw
        (
          next-append 32 share (ih ++ (seq ++ rest)) (ap length (sym same) ∙ size),
          next_hash-packed s.info_hash ih (seq ++ rest) hash h,
          next_int-pack_int_4 s.seq seq rest q,
          ← same,
          encoded,
        )
        refl

  next_shares-cons :
      (s : Offer) (ss : List Offer) (bs after rest : Bytes)
      → next_share keys 4 bs ≡ some (s, after)
      → next_shares keys 4 (length ss) after ≡ some (ss, rest)
      → next_shares keys 4 (suc (length ss)) bs ≡ some (s ∷ ss, rest)
  unfolding next_shares
  next_shares-cons s ss bs after rest first others = rw (first, others) refl

  pub next_shares-packed :
      (ss : List Offer) (bs rest : Bytes)
      → AllOffers ss
      → pack_shares id ss ≡ some bs
      → next_shares keys 4 (length ss) (bs ++ rest) ≡ some (ss, rest)
  unfolding next_shares pack_shares
  next_shares-packed [] bs rest h e = rw (← some-inj e) refl
  next_shares-packed (s ∷ ss) bs rest (offer, offers) e =
      let (share, d, e1) = bind_some (id.b58decode s.share_id) _ e in
      let (ih, h, e2) = bind_some (hash_bytes s.info_hash) _ e1 in
      let (seq, q, e3) = bind_some (pack_int 4 s.seq) _ e2 in
      let (tail, t, e4) = bind_some (pack_shares id ss) _ e3 in
      let read : ℕ → Bytes → Option (List Offer × Bytes) = next_shares keys 4 in
      ap (λ x. read (suc (length ss)) (x ++ rest)) (sym (some-inj e4))
      ∙ ap (read (suc (length ss))) (regroup share ih seq tail rest)
      ∙ next_shares-cons s ss _ _ rest (next_share-packed s share ih seq (tail ++ rest) d offer h q)
          (next_shares-packed ss tail rest offers t)
