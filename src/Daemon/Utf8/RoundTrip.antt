-- ===== src/Daemon/Utf8/RoundTrip.antt =====
-- Decoding undoes the encoding of registry/registry/auth/crypto.py and daemon/daemon/lan/discovery.py.
use peerdup.Prelude.{
  ℕ, suc, ◌+◌, ◌*◌, ◌/◌, ◌%◌, ◌≤◌, ◌<◌, Text, Bytes, false, ◌&&◌, ◌≡◌, refl, ap, ◌∙◌, inl, inr,
  Option, none, some, [], ◌∷◌, ◌++◌, ltb, leb, eqb, arith, Option-cases, Bool-cases,
}
use peerdup.Prelude.{some-inj}
use peerdup.Registry.Crypto.{encode, utf8_char}
use peerdup.Daemon.Utf8.{Decoder, idle, wants, lead, follow, feed, with_char, decode_from, decode}

-- Code points.
abbrev pub IsText : Text → Type 0
IsText [] = Unit
IsText (c ∷ t) = (c < 0x110000) × IsText t

-- The decoder after the first byte of a character.
lead_one : (c : ℕ) → c < 0x80 → lead c ≡ some (idle, some c)
unfolding lead
lead_one c p = ground arith

lead_two :
    (c : ℕ) → 0x80 ≤ c → c < 0x800 → lead (0xc0 + c / 64) ≡ some (wants 1 (c / 64) 0x80 0xbf, none)
unfolding lead
lead_two c p q = ground arith

-- A byte `0x80 + x` behind the first, `x` below 64.
follow_last :
    (bits x c n low high : ℕ)
    → low ≤ 0x80 + x
    → 0x80 + x ≤ high
    → bits * 64 + x ≡ c
    → follow 0 (wants n bits low high) (0x80 + x) ≡ some (idle, some c)
unfolding follow
follow_last bits x c n low high p q e = ground arith

follow_more :
    (m bits x more n low high : ℕ)
    → low ≤ 0x80 + x
    → 0x80 + x ≤ high
    → bits * 64 + x ≡ more
    → follow (suc m) (wants n bits low high) (0x80 + x) ≡ some (wants (suc m) more 0x80 0xbf, none)
unfolding follow
follow_more m bits x more n low high p q e = ground arith

-- What the first byte of three or four says of the second.
Leads : ℕ → ℕ → ℕ → ℕ → Type 0
Leads n b bits x =
    (low high : ℕ) × (lead b ≡ some (wants n bits low high, none))
    × (low ≤ 0x80 + x)
    × (0x80 + x ≤ high)

lead_three :
    (c : ℕ)
    → 0x800 ≤ c
    → c < 0x10000
    → (leb 0xd800 c && ltb c 0xe000) ≡ false
    → Leads 2 (0xe0 + c / 4096) (c / 4096) (c / 64 % 64)
unfolding lead Leads
lead_three c p q r = elim (Bool-cases (ltb c 0x1000)) [
  | inl low ↦ (0xa0, 0xbf, ground arith, ground arith, ground arith)
  | inr high ↦ elim (Bool-cases (eqb (c / 4096) 0xd)) [
    | inl d ↦ (0x80, 0x9f, ground arith, ground arith, ground arith)
    | inr other ↦ (0x80, 0xbf, ground arith, ground arith, ground arith)
  ]
]

lead_four :
    (c : ℕ) → 0x10000 ≤ c → c < 0x110000 → Leads 3 (0xf0 + c / 262144) (c / 262144) (c / 4096 % 64)
unfolding lead Leads
lead_four c p q = elim (Bool-cases (ltb c 0x40000)) [
  | inl low ↦ (0x90, 0xbf, ground arith, ground arith, ground arith)
  | inr high ↦ elim (Bool-cases (eqb (c / 262144) 4)) [
    | inl d ↦ (0x80, 0x8f, ground arith, ground arith, ground arith)
    | inr other ↦ (0x80, 0xbf, ground arith, ground arith, ground arith)
  ]
]

decode_from-cons :
    (d d' : Decoder) (b : ℕ) (c : Option ℕ) (bs : Bytes)
    → feed d b ≡ some (d', c)
    → decode_from d (b ∷ bs) ≡ with_char c (decode_from d' bs)
unfolding decode_from
decode_from-cons d d' b c bs e = rw (e, decode_from) refl

with_char-none : (a : Option Text) → with_char none a ≡ a
with_char-none none = refl
with_char-none (some t) = refl

with_none : {a b : Option Text} → a ≡ b → with_char none a ≡ b
with_none e = with_char-none _ ∙ e

last_byte : (c : ℕ) → feed (wants 1 (c / 64) 0x80 0xbf) (0x80 + c % 64) ≡ some (idle, some c)
unfolding feed
last_byte c = follow_last (c / 64) (c % 64) c 1 0x80 0xbf (omega arith) (omega arith) (omega arith)

decode_from-char :
    (c : ℕ) (cs rest : Bytes)
    → c < 0x110000
    → utf8_char c ≡ some cs
    → decode_from idle (cs ++ rest) ≡ with_char (some c) (decode_from idle rest)
unfolding utf8_char feed Leads
decode_from-char c cs rest p e = elim (Bool-cases (ltb c 0x80)) [
  | inl a ↦
      let k : some (c ∷ []) ≡ some cs = rw a at e in
      rw (← some-inj k) (decode_from-cons _ _ _ _ rest (lead_one c (ground arith)))
  | inr a ↦ elim (Bool-cases (ltb c 0x800)) [
    | inl b ↦
        let k : some ((0xc0 + c / 64) ∷ (0x80 + c % 64) ∷ []) ≡ some cs = rw (a, b) at e in
        rw (← some-inj k) (
          decode_from-cons _ _ _ _ _ (lead_two c (ground arith) (ground arith))
          ∙ with_none (decode_from-cons _ _ _ _ rest (last_byte c)))
    | inr b ↦ elim (Bool-cases (leb 0xd800 c && ltb c 0xe000)) [
      | inl d ↦ let bad : none ≡ some cs = rw (a, b, d) at e in ground arith
      | inr d ↦ elim (Bool-cases (ltb c 0x10000)) [
        | inl f ↦
            let k : some ((0xe0 + c / 4096) ∷ (0x80 + c / 64 % 64) ∷ (0x80 + c % 64) ∷ [])
                ≡ some cs =
              rw (a, b, d, f) at e in
            let (low, high, first, above, below) = lead_three c (ground arith) (ground arith) d in
            rw (← some-inj k) (
              decode_from-cons _ _ _ _ _ first
              ∙ with_none (
                  decode_from-cons _ _ _ _ _ (
                    follow_more 0 (c / 4096) (c / 64 % 64) (c / 64) 2 low high above below
                      (omega arith))
                  ∙ with_none (decode_from-cons _ _ _ _ rest (last_byte c))))
        | inr f ↦
            let k : some (
                  (0xf0 + c / 262144)
                  ∷ (0x80 + c / 4096 % 64)
                  ∷ (0x80 + c / 64 % 64)
                  ∷ (0x80 + c % 64)
                  ∷ [])
                ≡ some cs =
              rw (a, b, d, f) at e in
            let (low, high, first, above, below) = lead_four c (ground arith) p in
            rw (← some-inj k) (
              decode_from-cons _ _ _ _ _ first
              ∙ with_none (
                  decode_from-cons _ _ _ _ _ (
                    follow_more 1 (c / 262144) (c / 4096 % 64) (c / 4096) 3 low high above below
                      (omega arith))
                  ∙ with_none (
                      decode_from-cons _ _ _ _ _ (
                        follow_more 0 (c / 4096) (c / 64 % 64) (c / 64) 2 0x80 0xbf (omega arith)
                          (omega arith) (omega arith))
                      ∙ with_none (decode_from-cons _ _ _ _ rest (last_byte c)))))
      ]
    ]
  ]
]

-- The UTF-8 bytes of a text of code points below 0x110000, where there are such bytes, are decoded to the
-- text.
pub decode-encode : (t : Text) (bs : Bytes) → IsText t → encode t ≡ some bs → decode bs ≡ some t
unfolding encode decode_from
decode-encode [] bs h e = rw (← some-inj e) refl
decode-encode (c ∷ t) bs h e = elim (Option-cases (utf8_char c)) [
  | inl n ↦ let bad : none ≡ some bs = rw n at e in ground arith
  | inr (first, f) ↦ elim (Option-cases (encode t)) [
    | inl n ↦ let bad : none ≡ some bs = rw (f, n) at e in ground arith
    | inr (rest, r) ↦
        let whole : some (first ++ rest) ≡ some bs = rw (f, r) at e in
        rw (← some-inj whole) (
          decode_from-char c first rest h.0 f
          ∙ ap (with_char (some c)) (decode-encode t rest h.1 r))
  ]
]
