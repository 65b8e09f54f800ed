-- ===== src/Registry/Address.antt =====
-- `_parse_peer_addr` and `_remote_ip` of registry/servicer/registry.py: the peer string of gRPC.
use mathlib.Core.List.{reverse}
use mathlib.Core.Option.{get_or}
use mathlib.Core.Option
use peerdup.Prelude.{
  strip_prefix, ℕ, zero, suc, ◌+◌, ◌-◌, ◌*◌, Text, codes, ℤ, pos, negsuc, Bool, true, false, ◌&&◌,
  ◌||◌, Option, none, some, [], ◌∷◌, if◌then◌else◌, leb, eqb,
}
use peerdup.Registry.Service.{Context}

infixl 5 ◌>>=◌
abbrev ◌>>=◌ : {A B : Type 0} → Option A → (A → Option B) → Option B
none >>= f = none
some a >>= f = f a

-- ASCII white space, as `int` strips it.
is_space : ℕ → Bool
is_space c = (leb 9 c && leb c 13) || (leb 28 c && leb c 32)

strip_left : Text → Text
unfolding is_space
strip_left [] = []
strip_left (c ∷ t) = let rest = strip_left t in if is_space c then rest else c ∷ t

is_digit : ℕ → Bool
is_digit c = leb b'0' c && leb c b'9'

-- The digits of `int(t)`: single underscores may stand between digits. `after` says whether the
-- last character was a digit.
digits_from : Bool → ℕ → Text → Option ℕ
unfolding is_digit
digits_from after acc [] = if after then some acc else none
digits_from after acc (c ∷ t) =
    let digit = digits_from true (acc * 10 + (c - b'0')) t in
    let gap = digits_from false acc t in
    if is_digit c then digit else if eqb c b'_' && after then gap else none

negate : ℕ → ℤ
negate zero = pos zero
negate (suc n) = negsuc n

signed : Text → Option ℤ
unfolding digits_from negate
signed [] = none
signed (c ∷ t) =
    if eqb c b'-'
    then Option.map negate (digits_from false 0 t)
    else Option.map pos (digits_from false 0 (if eqb c b'+' then t else c ∷ t))

-- `int(t)` on ASCII text, `none` for its ValueError.
unfoldable pub parse_int : Text → Option ℤ
unfolding signed strip_left
parse_int t = signed (reverse (strip_left (reverse (strip_left t))))

-- `t.rsplit(c, 1)`: the parts around the last `c`; without one, `parts[1]` raises IndexError.
rsplit : ℕ → Text → Option (Text × Text)
rsplit c [] = none
rsplit c (x ∷ t) = elim (rsplit c t) [
  | some (before, after) ↦ some (x ∷ before, after)
  | none ↦ if eqb x c then some ([], t) else none
]

-- The text before the first `c`, and what follows it; `index` raises ValueError without one.
split_at : ℕ → Text → Option (Text × Text)
split_at c [] = none
split_at c (x ∷ t) =
    let rest = Option.map (λ (p : Text × Text). (x ∷ p.0, p.1)) (split_at c t) in
    if eqb x c then some ([], t) else rest

abbrev tail_of : Text → Text
tail_of [] = []
tail_of (c ∷ t) = t

ipv4_addr : Text → Option (Text × ℤ)
unfolding rsplit
ipv4_addr rest = do parts ← rsplit b':' rest; port ← parse_int parts.1; some (parts.0, port)

-- addr[1:bracket_end] and addr[bracket_end + 2:]
ipv6_addr : Text → Option (Text × ℤ)
unfolding split_at
ipv6_addr addr = do
  parts ← split_at b']' addr
  port ← parse_int (tail_of parts.1)
  some (tail_of parts.0, port)

-- `none` is the pair (None, None).
unfoldable pub parse_peer_addr : Text → Option (Text × ℤ)
unfolding ipv4_addr ipv6_addr parse_int strip_prefix
parse_peer_addr peer_str = elim (strip_prefix (codes "ipv4:") peer_str) [
  | some rest ↦ ipv4_addr rest
  | none ↦ elim (strip_prefix (codes "ipv6:") peer_str) [ some addr ↦ ipv6_addr addr | none ↦ none ]
]

unfoldable pub remote_ip : Context → Text
unfolding parse_peer_addr
remote_ip context = get_or (Option.map (λ (p : Text × ℤ). p.0) (parse_peer_addr context.peer)) []
