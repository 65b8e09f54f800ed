-- ===== src/Relay/Tests.antt =====
-- A relay with room for two: a peer waits for another, and a third one comes.
use peerdup.Prelude.{
  Text, codes, ◌≡◌, refl, inl, some, List, [], ◌∷◌, ◌==◌, text_eq, pair_eq, text_beq, arith,
}
use peerdup.Prelude.Table
use peerdup.Relay.Hello.{Keys, Hello, body, read_hello, is_signed, check_hello, is_stale}
use peerdup.Relay.Server.{
  Relay, Event, connect, session_of, step, steps, enroll, admit, pair, look, put_session,
}
use peerdup.Relay.Pairing.{IsSound, steps-IsSound, unsigned_is_closed}

-- A key is its own text, and a signature is the key.
abbrev keys : Keys
keys = record { b58decode = λ t. some t; verify_key = λ key message sig. key == sig }

-- "61" is the signature of a, and so on.
abbrev hello : Text → Text → Text → Hello
hello p want sig = record {
  share_id = codes "s";
  peer_id = p;
  want_peer_id = want;
  timestamp = 1000;
  sig = sig;
}

abbrev a_wants_b : Hello
a_wants_b = hello (codes "a") (codes "b") (codes "61")

abbrev c_wants_a : Hello
c_wants_a = hello (codes "c") (codes "a") (codes "63")

abbrev empty : Relay
empty = record { max_waiting = 2; waiting = []; pipes = []; woken = []; sent = []; closed = [] }

abbrev one_waits : Relay
one_waits = record empty { waiting = session_of 1 a_wants_b ∷ [] }

abbrev events : List Event
events =
    connect 1 1030 (body 100 a_wants_b)
    ∷ connect 2 1061 (body 100 c_wants_a)
    ∷ connect 3 1040 (body 100 c_wants_a)
    ∷ []

run-events :
    (steps keys empty events).pipes
    ≡ record { waiter = session_of 1 a_wants_b; connector = session_of 3 c_wants_a } ∷ []
unfolding steps step read_hello check_hello is_stale is_signed admit enroll look pair put_session
    Table.find text_beq
run-events = refl

steps-IsSound_example : IsSound (steps keys empty events)
steps-IsSound_example = steps-IsSound keys empty events (omega arith, tt, tt)

unsigned_is_closed_example :
    ((step keys one_waits (connect 2 1061 (body 100 c_wants_a))).waiting ≡ one_waits.waiting)
    × ((step keys one_waits (connect 2 1061 (body 100 c_wants_a))).pipes ≡ [])
    × ((step keys one_waits (connect 2 1061 (body 100 c_wants_a))).closed ≡ 2 ∷ [])
unfolding is_stale
unsigned_is_closed_example = unsigned_is_closed keys 2 1061 100 c_wants_a one_waits (inl refl)
