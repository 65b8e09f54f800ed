-- ===== src/Relay/Server.antt =====
-- `RelayServer._handle_client` of relay/relay/server.py, in the pieces between which other
-- connections run: the section under the lock with what follows it, and the timeout of a waiter.
-- The socket calls do not fail. A connection is a number, which also names its streams and its event.

use peerdup.Prelude.{
  ℕ, Text, none, some, List, [], ◌∷◌, ◌++◌, if◌then◌else◌, leb, length, text_eq, pair_eq,
}
use peerdup.Prelude.Table
use peerdup.Relay.Hello.{
  Keys, Hello, Received, Reason, at_capacity, Reading, accepted, rejected, dropped, read_hello,
}

-- A `_WaitingSession` under its key. The connection stands for the reader, the writer and the
-- event; `wanted` is the peer that its hello asked for, which the source does not keep: no operation
-- reads it.
pub record Session : Type 0 where
  pub key : Text × Text
  pub connection : ℕ
  pub wanted : Text

abbrev pub session_key : Session → Text × Text
session_key session = session.key

pub data Frame : Type 0 where
  waiting connected : Frame
  error : Reason → Frame

-- A pair of connections whose bytes are forwarded, with the key of each and the peer that each wanted.
pub record Pipe : Type 0 where
  pub waiter : Session
  pub connector : Session

pub record Relay : Type 0 where
  pub max_waiting : ℕ
  pub waiting : List Session
  pub pipes : List Pipe
  pub woken : List ℕ
  pub sent : List (ℕ × Frame)
  pub closed : List ℕ

abbrev pub session_of : ℕ → Hello → Session
session_of c hello = record {
  key = (hello.share_id, hello.peer_id);
  connection = c;
  wanted = hello.want_peer_id;
}

abbrev pub want_key : Hello → Text × Text
want_key hello = (hello.share_id, hello.want_peer_id)

abbrev pub send : ℕ → Frame → Relay → Relay
send c frame s = record s { sent = s.sent ++ (c, frame) ∷ [] }

abbrev pub close : ℕ → Relay → Relay
close c s = record s { closed = s.closed ++ c ∷ [] }

-- self._waiting[key] = session: a key that is there stays where it is.
unfoldable pub put_session : Session → List Session → List Session
put_session session sessions =
    if Table.has session_key session.key sessions
    then Table.update session_key session.key (λ old. record session { key = old.key }) sessions
    else sessions ++ session ∷ []

-- The partner is popped, its event is set, and both are told and piped together.
unfoldable pub pair : ℕ → Hello → Session → Relay → Relay
pair c hello partner s =
    let popped = Table.delete session_key (want_key hello) s.waiting in
    let pipe : Pipe = record { waiter = partner; connector = session_of c hello } in
    send c connected (
      send partner.connection connected (record s {
        waiting = popped;
        pipes = s.pipes ++ pipe ∷ [];
        woken = s.woken ++ partner.connection ∷ [];
      }))

unfoldable pub enroll : ℕ → Hello → Relay → Relay
unfolding put_session
enroll c hello s =
    send c waiting (record s { waiting = put_session (session_of c hello) s.waiting })

-- `session = self._waiting.get(key)`: the handler of a waiter ends and closes the connection when the
-- key is gone; otherwise it waits on the event of the session found. Nothing suspends between the
-- section under the lock and this look.
unfoldable pub look : ℕ → Text × Text → Relay → Relay
look c key s = if Table.has session_key key s.waiting then s else close c s

-- The section under the lock, and what its handler does next: a connector pipes, a waiter waits.
unfoldable pub admit : ℕ → Hello → Relay → Relay
unfolding pair enroll look
admit c hello s = elim (Table.find session_key (want_key hello) s.waiting) [
  | some partner ↦ pair c hello partner s
  | none ↦
      if leb s.max_waiting (length s.waiting)
      then close c (send c (error at_capacity) s)
      else look c (hello.share_id, hello.peer_id) (enroll c hello s)
]

-- The timeout of a waiter: self._waiting.pop(key, None).
unfoldable pub expire : ℕ → Text × Text → Relay → Relay
expire c key s = close c (record s { waiting = Table.delete session_key key s.waiting })

abbrev pub answer : ℕ → Reading → Relay → Relay
answer c (accepted hello) s = admit c hello s
answer c (rejected reason) s = close c (send c (error reason) s)
answer c dropped s = close c s

-- What can happen to a relay: a connection with what it sends and the time when that is checked, and
-- the timeout of a waiter.
pub data Event : Type 0 where
  connect : ℕ → ℕ → Received → Event
  timeout : ℕ → Text × Text → Event

module _ (keys : Keys) where
  unfoldable pub step : Relay → Event → Relay
  step s (connect c now received) = answer c (read_hello keys now received) s
  step s (timeout c key) = expire c key s

  unfoldable pub steps : Relay → List Event → Relay
  steps s [] = s
  steps s (e ∷ es) = steps (step s e) es
