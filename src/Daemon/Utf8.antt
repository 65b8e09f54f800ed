-- ===== src/Daemon/Utf8.antt =====
-- `bytes.decode("utf-8")`, as strict as Python's: shortest forms only, no surrogates, nothing above
-- U+10FFFF. The decoder takes one byte at a time.

pub mod RoundTrip
use peerdup.Prelude.{
  ℕ, zero, suc, ◌+◌, ◌-◌, ◌*◌, Text, Bytes, ◌&&◌, Option, none, some, [], ◌∷◌, if◌then◌else◌, ltb,
  leb, eqb,
}

-- The number of bytes that a character still wants, its bits so far, and the bounds of the next byte.
pub record Decoder : Type 0 where
  pub wanted : ℕ
  pub bits : ℕ
  pub low : ℕ
  pub high : ℕ

abbrev pub idle : Decoder
idle = record { wanted = 0; bits = 0; low = 0; high = 0 }

abbrev pub wants : ℕ → ℕ → ℕ → ℕ → Decoder
wants n bits low high = record { wanted = n; bits = bits; low = low; high = high }

-- The first byte of a character: a whole one, or what must follow.
unfoldable pub lead : ℕ → Option (Decoder × Option ℕ)
lead b =
    if ltb b 0x80
    then some (idle, some b)
    else if ltb b 0xc2
    then none
    else if ltb b 0xe0
    then some (wants 1 (b - 0xc0) 0x80 0xbf, none)
    else if eqb b 0xe0
    then some (wants 2 0 0xa0 0xbf, none)
    else if eqb b 0xed
    then some (wants 2 0xd 0x80 0x9f, none)
    else if ltb b 0xf0
    then some (wants 2 (b - 0xe0) 0x80 0xbf, none)
    else if eqb b 0xf0
    then some (wants 3 0 0x90 0xbf, none)
    else if ltb b 0xf4
    then some (wants 3 (b - 0xf0) 0x80 0xbf, none)
    else if eqb b 0xf4
    then some (wants 3 4 0x80 0x8f, none)
    else none

-- A byte behind the first: `n` more are wanted after it.
unfoldable pub follow : ℕ → Decoder → ℕ → Option (Decoder × Option ℕ)
follow n d b =
    let bits = d.bits * 64 + (b - 0x80) in
    if leb d.low b && leb b d.high
    then (if eqb n 0 then some (idle, some bits) else some (wants n bits 0x80 0xbf, none))
    else none

unfoldable pub feed : Decoder → ℕ → Option (Decoder × Option ℕ)
unfolding lead follow
feed d b = elim d.wanted [ zero ↦ lead b | suc n ↦ follow n d b ]

abbrev pub with_char : Option ℕ → Option Text → Option Text
with_char c none = none
with_char none (some t) = some t
with_char (some c) (some t) = some (c ∷ t)

unfoldable pub decode_from : Decoder → Bytes → Option Text
unfolding feed
decode_from d [] = if eqb d.wanted 0 then some [] else none
decode_from d (b ∷ bs) = elim (feed d b) [
  | none ↦ none
  | some (d', c) ↦ with_char c (decode_from d' bs)
]

abbrev pub decode : Bytes → Option Text
decode = decode_from idle
