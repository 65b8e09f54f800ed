-- ===== src/Relay/Pairing.antt =====
-- Whom the relay of relay/relay/server.py puts together.
use peerdup.Prelude.{
  ℕ, suc, ◌≤◌, ◌<◌, Text, Bool, true, false, ◌≡◌, refl, ap, inl, inr, none, some, List, [], ◌∷◌,
  ◌++◌, if◌then◌else◌, leb, length, arith, text_eq, pair_eq, text_beq_iff, ltb, ◌⊎◌, Option-cases,
  Bool-cases,
}
use peerdup.Prelude.Table
use peerdup.Prelude.Table.{
  IsUnique, find-key, find-delete, delete-IsUnique, update-IsUnique, append-IsUnique,
}
use peerdup.Relay.Hello.{
  Keys, Hello, Reading, accepted, rejected, dropped, read_hello, check_hello, is_stale, is_signed,
  body, max_hello_size, stale_timestamp, bad_signature,
}
use peerdup.Relay.Server.{
  Session, Pipe, Relay, Event, connect, timeout, session_key, session_of, want_key, put_session,
  pair, enroll, look, admit, expire, answer, step, steps,
}

-- The connector of each pipe asked for the waiter, in the share of both.
abbrev pub AllMeet : List Pipe → Type 0
AllMeet [] = Unit
AllMeet (p ∷ ps) = (p.waiter.key ≡ (p.connector.key.0, p.connector.wanted)) × AllMeet ps

-- The table is within its bound, its keys are unique, and the pipes join whom they should.
abbrev pub IsSound : Relay → Type 0
IsSound s = (length s.waiting ≤ s.max_waiting) × IsUnique session_key s.waiting × AllMeet s.pipes

AllMeet-append :
    (ps : List Pipe) (p : Pipe)
    → AllMeet ps
    → p.waiter.key ≡ (p.connector.key.0, p.connector.wanted)
    → AllMeet (ps ++ p ∷ [])
AllMeet-append [] p h e = (e, tt)
AllMeet-append (q ∷ ps) p h e = (h.0, AllMeet-append ps p h.1 e)

length-delete :
    (k : Text × Text) (xs : List Session) → length (Table.delete session_key k xs) ≤ length xs
unfolding Table.delete
length-delete k [] = omega arith
length-delete k (x ∷ xs) = ground (arith, length-delete k xs)

length-update :
    (k : Text × Text) (f : Session → Session) (xs : List Session)
    → length (Table.update session_key k f xs) ≡ length xs
unfolding Table.update
length-update k f [] = refl
length-update k f (x ∷ xs) = ground (arith, length-update k f xs)

length-snoc : (xs : List Session) (x : Session) → length (xs ++ x ∷ []) ≡ suc (length xs)
length-snoc [] x = refl
length-snoc (y ∷ xs) x = ap suc (length-snoc xs x)

put_session-length : (x : Session) (xs : List Session) → length (put_session x xs) ≤ suc (length xs)
unfolding put_session
put_session-length x xs =
    ground (arith, length-update x.key (λ old. record x { key = old.key }) xs, length-snoc xs x)

put_session-IsUnique :
    (x : Session) (xs : List Session)
    → IsUnique session_key xs
    → IsUnique session_key (put_session x xs)
unfolding put_session
put_session-IsUnique x xs u = elim (Option-cases (Table.find session_key x.key xs)) [
  | inl fresh ↦ rw fresh (append-IsUnique session_key xs x u fresh)
  | inr (old, found) ↦ rw found (
      update-IsUnique session_key x.key (λ (o : Session). record x { key = o.key }) xs (λ _. refl)
        u)
]

look-IsSound : (c : ℕ) (key : Text × Text) (s : Relay) → IsSound s → IsSound (look c key s)
unfolding look
look-IsSound c key s h = elim (Bool-cases (Table.has session_key key s.waiting)) [
  | inl e ↦ rw e h
  | inr e ↦ rw e h
]

pair-IsSound :
    (c : ℕ) (hello : Hello) (w : Session) (s : Relay)
    → Table.find session_key (want_key hello) s.waiting ≡ some w
    → IsSound s
    → IsSound (pair c hello w s)
unfolding pair
pair-IsSound c hello w s found h = (
  omega (arith, length-delete (want_key hello) s.waiting, h.0),
  delete-IsUnique session_key (want_key hello) s.waiting h.1,
  AllMeet-append s.pipes _ h.2 (find-key session_key (want_key hello) s.waiting w found),
)

enroll-IsSound :
    (c : ℕ) (hello : Hello) (s : Relay)
    → length s.waiting < s.max_waiting
    → IsSound s
    → IsSound (enroll c hello s)
unfolding enroll
enroll-IsSound c hello s room h = (
  omega (arith, put_session-length (session_of c hello) s.waiting, room),
  put_session-IsUnique (session_of c hello) s.waiting h.1,
  h.2,
)

admit-IsSound : (c : ℕ) (hello : Hello) (s : Relay) → IsSound s → IsSound (admit c hello s)
unfolding admit
admit-IsSound c hello s h =
    elim (Option-cases (Table.find session_key (want_key hello) s.waiting)) [
      | inr (w, found) ↦ rw (found, admit) (pair-IsSound c hello w s found h)
      | inl alone ↦ elim (Bool-cases (leb s.max_waiting (length s.waiting))) [
        | inl full ↦ rw (alone, full, admit) h
        | inr room ↦
            rw (alone, room, admit)
              (look-IsSound c (hello.share_id, hello.peer_id) _
                (enroll-IsSound c hello s (ground arith) h))
      ]
    ]

answer-IsSound : (c : ℕ) (r : Reading) (s : Relay) → IsSound s → IsSound (answer c r s)
answer-IsSound c (accepted hello) s h = admit-IsSound c hello s h
answer-IsSound c (rejected reason) s h = h
answer-IsSound c dropped s h = h

popped :
    (k : Text × Text) (xs : List Session)
    → IsUnique session_key xs
    → Table.find session_key k (Table.delete session_key k xs) ≡ none
popped k xs u =
    ground (arith, find-delete session_key k k xs u, text_beq_iff k.0 k.0, text_beq_iff k.1 k.1)

abbrev Closed : ℕ → Relay → Relay → Type 0
Closed c s t = (t.waiting ≡ s.waiting) × (t.pipes ≡ s.pipes) × (t.closed ≡ s.closed ++ c ∷ [])

module _ (keys : Keys) where
  step-IsSound : (s : Relay) (e : Event) → IsSound s → IsSound (step keys s e)
  unfolding step expire
  step-IsSound s (connect c now received) h = answer-IsSound c (read_hello keys now received) s h
  step-IsSound s (timeout c key) h = (
    omega (arith, length-delete key s.waiting, h.0),
    delete-IsUnique session_key key s.waiting h.1,
    h.2,
  )

  -- Whatever happens to a sound relay, it stays sound: no more sessions wait than the bound, each
  -- under a key of its own, and every pipe joins two connections of one share, the second of which
  -- asked for the peer of the first.
  pub steps-IsSound : (s : Relay) (events : List Event) → IsSound s → IsSound (steps keys s events)
  unfolding steps
  steps-IsSound s [] h = h
  steps-IsSound s (e ∷ es) h = steps-IsSound (step keys s e) es (step-IsSound s e h)

  -- A hello that is stale, or that its peer's key does not sign, changes neither the table nor the
  -- pipes, and its connection is closed.
  pub unsigned_is_closed :
      (c now n : ℕ) (hello : Hello) (s : Relay)
      → (is_stale keys now hello.timestamp ≡ true) ⊎ (is_signed keys hello ≡ false)
      → ((step keys s (connect c now (body n hello))).waiting ≡ s.waiting)
        × ((step keys s (connect c now (body n hello))).pipes ≡ s.pipes)
        × ((step keys s (connect c now (body n hello))).closed ≡ s.closed ++ c ∷ [])
  unfolding step read_hello check_hello
  unsigned_is_closed c now n hello s bad =
      go (ltb max_hello_size n) (is_stale keys now hello.timestamp) (is_signed keys hello) bad
    where
      go :
          (long stale signed : Bool)
          → (stale ≡ true) ⊎ (signed ≡ false)
          → Closed c s (
              answer c
                (if long
                  then dropped
                  else if stale
                  then rejected stale_timestamp
                  else if signed
                  then accepted hello
                  else rejected bad_signature)
                s)
      go true stale signed h = (refl, refl, refl)
      go false true signed h = (refl, refl, refl)
      go false false false h = (refl, refl, refl)
      go false false true h = ground arith
