-- ===== src/Daemon/Lan/Pieces.antt =====
-- Each field of a packet of daemon/daemon/lan/discovery.py is read back with any bytes behind it.
use peerdup.Prelude.{
  ℕ, zero, suc, ◌+◌, ◌*◌, ◌/◌, ◌%◌, ◌^◌, ◌≤◌, ◌<◌, Bytes, take, ◌≡◌, refl, sym, ap, inl, inr,
  Option, none, some, [], ◌∷◌, ◌++◌, ltb, text_eq, length, arith, some-inj, Bool-cases,
}
use peerdup.Daemon.Lan.Packet.{◌>>=◌, big_endian, pack_int, unpack_int, next, drop, next_int}

pub bind_some :
    {A B : Type 0} (o : Option A) (f : A → Option B) {b : B}
    → (o >>= f) ≡ some b
    → (a : A) × (o ≡ some a) × (f a ≡ some b)
bind_some none f h = ground arith
bind_some (some a) f h = (a, refl, h)

pub next-append : (k : ℕ) (xs ys : Bytes) → length xs ≡ k → next k (xs ++ ys) ≡ some (xs, ys)
unfolding next
next-append zero [] ys e = refl
next-append zero (x ∷ xs) ys e = ground arith
next-append (suc k) [] ys e = ground arith
next-append (suc k) (x ∷ xs) ys e = rw (next-append k xs ys (omega (arith, e))) refl

pub length-append : (xs ys : Bytes) → length (xs ++ ys) ≡ length xs + length ys
length-append [] ys = omega arith
length-append (x ∷ xs) ys = omega (arith, length-append xs ys)

pub take-append : (xs ys : Bytes) → take (length xs) (xs ++ ys) ≡ xs
take-append [] ys = refl
take-append (x ∷ xs) ys = ap (λ t. x ∷ t) (take-append xs ys)

pub drop-append : (xs ys : Bytes) → drop (length xs) (xs ++ ys) ≡ ys
drop-append [] ys = refl
drop-append (x ∷ xs) ys = drop-append xs ys

pub take_all : (n : ℕ) (xs : Bytes) → length xs ≤ n → take n xs ≡ xs
take_all zero [] h = refl
take_all zero (x ∷ xs) h = absurd (omega (arith, h))
take_all (suc n) [] h = refl
take_all (suc n) (x ∷ xs) h = ap (λ t. x ∷ t) (take_all n xs (omega (arith, h)))

pack_int-cases :
    (k n : ℕ) (bs : Bytes) → pack_int k n ≡ some bs → (n < 256 ^ k) × (bs ≡ big_endian k n)
unfolding pack_int
pack_int-cases k n bs h = elim (Bool-cases (ltb n (256 ^ k))) [
  | inl small ↦
      let e : some (big_endian k n) ≡ some bs = rw small at h in (ground arith, sym (some-inj e))
  | inr big ↦ let bad : none ≡ some bs = rw big at h in absurd (ground arith)
]

pub length-pack_int_2 : (n : ℕ) (bs : Bytes) → pack_int 2 n ≡ some bs → length bs ≡ 2
unfolding big_endian
length-pack_int_2 n bs h = rw ((pack_int-cases 2 n bs h).1) refl

pub next_int-pack_int_2 :
    (n : ℕ) (bs rest : Bytes) → pack_int 2 n ≡ some bs → next_int 2 (bs ++ rest) ≡ some (n, rest)
unfolding big_endian next_int next unpack_int
next_int-pack_int_2 n bs rest h =
    let (small, e) = pack_int-cases 2 n bs h in
    let back : (0 * 256 + n / 256 ^ 1 % 256) * 256 + n / 256 ^ 0 % 256 ≡ n = omega (arith, small) in
    rw e (ap (λ (m : ℕ). some (m, rest)) back)

pub next_int-pack_int_4 :
    (n : ℕ) (bs rest : Bytes) → pack_int 4 n ≡ some bs → next_int 4 (bs ++ rest) ≡ some (n, rest)
unfolding big_endian next_int next unpack_int
next_int-pack_int_4 n bs rest h =
    let (small, e) = pack_int-cases 4 n bs h in
    let back : (((0 * 256 + n / 256 ^ 3 % 256) * 256 + n / 256 ^ 2 % 256) * 256 + n / 256 ^ 1 % 256)
            * 256
          + n / 256 ^ 0 % 256
        ≡ n =
      omega (arith, small) in
    rw e (ap (λ (m : ℕ). some (m, rest)) back)
