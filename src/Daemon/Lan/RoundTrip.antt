-- ===== src/Daemon/Lan/RoundTrip.antt =====
-- A packet of daemon/daemon/lan/discovery.py that was packed is unpacked to what it says.
use peerdup.Prelude.{
  ℕ, ◌-◌, ◌≤◌, Text, Bytes, take, true, false, ◌≡◌, refl, sym, ap, ◌∙◌, some, List, ◌∷◌, ◌++◌, ltb,
  text_eq, length, arith, some-inj,
}
use mathlib.Core.List.{append_assoc}
use mathlib.Core.Path.{subst}
use peerdup.Registry.Crypto.{encode}
use peerdup.Daemon.Utf8.{decode}
use peerdup.Daemon.Utf8.RoundTrip.{IsText, decode-encode}
use peerdup.Daemon.Identity.{Identity, peer_id}
use peerdup.Daemon.Lan.Pieces.{
  bind_some, next-append, length-append, take-append, drop-append, take_all, next_int-pack_int_2,
  length-pack_int_2,
}
use peerdup.Daemon.Lan.Packet.{
  Keys, Offer, Packet, pack_int, pack_shares, pack_body, pack_packet, next, next_int, next_name,
  next_shares, verified, unpack_fields, unpack_packet,
}
use peerdup.Daemon.Lan.Offers.{AllOffers, next_shares-packed}

module _ (id : Identity) (keys : Keys) where
  -- What the packet's fields must satisfy to be read back: the key has 32 bytes, which base58 takes to
  -- the peer_id, and verifies what the identity signs with 64 bytes; the name is of code points and
  -- takes at most 255 bytes.
  pub record IsPackable (shares : List Offer) (name : Text) : Type 0 where
    pub key : Bytes
    pub decoded : id.b58decode (peer_id id) ≡ some key
    pub encoded : keys.b58encode key ≡ peer_id id
    pub key_size : length key ≡ 32
    pub verifies : (m : Bytes) → keys.verify_key key m (id.sign m) ≡ true
    pub sig_size : (m : Bytes) → length (id.sign m) ≡ 64
    pub offers : AllOffers id keys shares
    pub text : IsText name
    pub name_bytes : Bytes
    pub named : encode name ≡ some name_bytes
    pub name_size : length name_bytes ≤ 255

  verified-sign :
      (body key sig : Bytes) (packet : Packet)
      → length sig ≡ 64
      → keys.verify_key key body sig ≡ true
      → verified keys (body ++ sig) key packet sig ≡ some packet
  unfolding verified
  verified-sign body key sig packet size good =
      let body_size : length (body ++ sig) - 64 ≡ length body =
        omega (arith, length-append body sig, size) in
      rw (body_size, take-append body sig, drop-append body sig, size, good) refl

  next_name-packed :
      (text : Text) (name size rest : Bytes)
      → pack_int 2 (length name) ≡ some size
      → decode name ≡ some text
      → next_name 4 (size ++ (name ++ rest)) ≡ some (text, rest)
  unfolding next_name
  next_name-packed text name size rest p d =
      rw
        (
          next_int-pack_int_2 (length name) size (name ++ rest) p,
          next-append (length name) name rest refl,
          d,
        )
        refl

  unpack_fields-steps :
      (whole bs key after_key after_port after_count after_shares left : Bytes) (port count : ℕ)
      (shares : List Offer) (name : Text)
      → next 32 bs ≡ some (key, after_key)
      → next_int 2 after_key ≡ some (port, after_port)
      → next_int 2 after_port ≡ some (count, after_count)
      → next_shares keys 4 count after_count ≡ some (shares, after_shares)
      → next_name 4 after_shares ≡ some (name, left)
      → unpack_fields keys 4 whole bs
        ≡ verified keys whole key
            (record {
              peer_id = keys.b58encode key;
              shares = shares;
              listen_port = port;
              name = name;
            })
            left
  unfolding unpack_fields
  unpack_fields-steps whole bs key after_key after_port after_count after_shares left port count
        shares name k p c s n =
      rw (k, p, c, s, n) refl

  unpack_long :
      (bs : Bytes)
      → 100 ≤ length bs
      → unpack_packet keys (4 ∷ bs) ≡ unpack_fields keys 4 (4 ∷ bs) bs
  unfolding unpack_packet
  unpack_long bs h = let long : ltb (length (4 ∷ bs)) 101 ≡ false = ground arith in rw long refl

  fields : Bytes → Bytes → Bytes → Bytes → Bytes → Bytes → Bytes → Bytes
  fields key port count offers size name rest =
      key ++ (port ++ (count ++ (offers ++ (size ++ (name ++ rest)))))

  fields_append :
      (key port count offers size name rest : Bytes)
      → (key ++ (port ++ (count ++ (offers ++ (size ++ name))))) ++ rest
        ≡ fields key port count offers size name rest
  unfolding fields
  fields_append key port count offers size name rest = simp append_assoc

  fields_long :
      (key port count offers size name rest : Bytes)
      → length key ≡ 32
      → length port ≡ 2
      → length count ≡ 2
      → length rest ≡ 64
      → 100 ≤ length (fields key port count offers size name rest)
  unfolding fields
  fields_long key port count offers size name rest k p c r = omega (
    arith,
    length-append key (port ++ (count ++ (offers ++ (size ++ (name ++ rest))))),
    length-append port (count ++ (offers ++ (size ++ (name ++ rest)))),
    length-append count (offers ++ (size ++ (name ++ rest))),
    length-append offers (size ++ (name ++ rest)),
    length-append size (name ++ rest),
    length-append name rest,
  )

  unpack_fields-packed :
      (whole key port count offers size name sig : Bytes) (listen_port : ℕ) (shares : List Offer)
      (text : Text)
      → length key ≡ 32
      → pack_int 2 listen_port ≡ some port
      → pack_int 2 (length shares) ≡ some count
      → AllOffers id keys shares
      → pack_shares id shares ≡ some offers
      → pack_int 2 (length name) ≡ some size
      → decode name ≡ some text
      → unpack_fields keys 4 whole (fields key port count offers size name sig)
        ≡ verified keys whole key
            (record {
              peer_id = keys.b58encode key;
              shares = shares;
              listen_port = listen_port;
              name = text;
            })
            sig
  unfolding fields
  unpack_fields-packed whole key port count offers size name sig listen_port shares text k p c all o
        n d =
      unpack_fields-steps whole _ key _ _ _ _ sig listen_port (length shares) shares text
        (next-append 32 key _ k) (next_int-pack_int_2 listen_port port _ p)
        (next_int-pack_int_2 (length shares) count _ c)
        (next_shares-packed id keys shares offers _ all o) (next_name-packed text name size sig n d)

  unpack-parts :
      (shares : List Offer) (listen_port : ℕ) (name : Text) (whole body : Bytes)
      → (ok : IsPackable shares name) → (key text port count offers size : Bytes)
      → id.b58decode (peer_id id) ≡ some key
      → encode name ≡ some text
      → pack_int 2 listen_port ≡ some port
      → pack_int 2 (length shares) ≡ some count
      → pack_shares id shares ≡ some offers
      → pack_int 2 (length (take 255 text)) ≡ some size
      → 4 ∷ (key ++ (port ++ (count ++ (offers ++ (size ++ take 255 text))))) ≡ body
      → body ++ id.sign body ≡ whole
      → unpack_packet keys whole
        ≡ some (record {
          peer_id = peer_id id;
          shares = shares;
          listen_port = listen_port;
          name = name;
        })
  unpack-parts shares listen_port name whole body ok key text port count offers size k t p c o n b
        w =
      let same_key : ok.key ≡ key = some-inj (sym ok.decoded ∙ k) in
      let same_name : ok.name_bytes ≡ text = some-inj (sym ok.named ∙ t) in
      let uncut : take 255 text ≡ text =
        take_all 255 text (subst (λ x. length x ≤ 255) same_name ok.name_size) in
      let sig : Bytes = id.sign body in
      let rest : Bytes = fields key port count offers size text sig in
      let shape : whole ≡ 4 ∷ rest =
        sym w
        ∙ ap (λ x. x ++ sig) (sym (rw uncut at b))
        ∙ ap (λ x. 4 ∷ x) (fields_append key port count offers size text sig) in
      let size_key : length key ≡ 32 = ap length (sym same_key) ∙ ok.key_size in
      let packet : Text → Packet =
        λ i. record { peer_id = i; shares = shares; listen_port = listen_port; name = name } in
      ap (unpack_packet keys) shape
      ∙ unpack_long rest (
          fields_long key port count offers size text sig size_key
            (length-pack_int_2 listen_port port p) (length-pack_int_2 (length shares) count c)
            (ok.sig_size body))
      ∙ unpack_fields-packed (4 ∷ rest) key port count offers size text sig listen_port shares name
          size_key p c ok.offers o (rw uncut at n) (decode-encode name text ok.text t)
      ∙ ap (λ x. verified keys x key (packet (keys.b58encode key)) sig) (sym shape ∙ sym w)
      ∙ verified-sign body key sig (packet (keys.b58encode key)) (ok.sig_size body)
          (subst (λ x. keys.verify_key x body sig ≡ true) same_key (ok.verifies body))
      ∙ ap (λ i. some (packet i)) (ap keys.b58encode (sym same_key) ∙ ok.encoded)

  -- A packet that an identity packs, from shares whose ids are the base58 text of 32 bytes and whose info
  -- hashes are absent or the text of 20 bytes that are not all zero, and from a name of at most 255 bytes, is
  -- unpacked to the identity's peer_id and to these shares, port and name, if keys and signatures have their
  -- sizes and the reader's keys match the identity.
  pub unpack-pack :
      (shares : List Offer) (listen_port : ℕ) (name : Text) (whole : Bytes)
      → IsPackable shares name
      → pack_packet id shares listen_port name ≡ some whole
      → unpack_packet keys whole
        ≡ some (record {
          peer_id = peer_id id;
          shares = shares;
          listen_port = listen_port;
          name = name;
        })
  unfolding pack_packet pack_body
  unpack-pack shares listen_port name whole ok e =
      let (body, b, e') = bind_some (pack_body id shares listen_port name) _ e in
      let (key, k, b1) = bind_some (id.b58decode (peer_id id)) _ b in
      let (text, t, b2) = bind_some (encode name) _ b1 in
      let (port, p, b3) = bind_some (pack_int 2 listen_port) _ b2 in
      let (count, c, b4) = bind_some (pack_int 2 (length shares)) _ b3 in
      let (offers, o, b5) = bind_some (pack_shares id shares) _ b4 in
      let (size, n, b6) = bind_some (pack_int 2 (length (take 255 text))) _ b5 in
      unpack-parts shares listen_port name whole body ok key text port count offers size k t p c o n
        (some-inj b6) (some-inj e')
