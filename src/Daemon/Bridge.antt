-- ===== src/Daemon/Bridge.antt =====
-- The way of a daemon to a peer over the relay: `open_relay_bridge` of daemon/daemon/relay/client.py against
-- `_handle_client` of relay/relay/server.py.
use peerdup.Prelude.{
  ℕ, ◌<◌, Text, Bytes, Bool, true, false, ◌≡◌, refl, ◌∙◌, none, some, List, [], ◌∷◌, ◌++◌,
  if◌then◌else◌, eqb, leb, ltb, length, text_eq, pair_eq, beq_refl, arith,
}
use peerdup.Prelude.Table
use peerdup.Prelude.Table.{find-append}
use peerdup.Registry.Service.{Env}
use peerdup.Relay.Hello.{Keys, Hello, body, accepted, read_hello, is_stale, max_hello_size}
use peerdup.Relay.Server.{
  Session, session_key, Frame, waiting, connected, error, Relay, session_of, want_key, admit, pair,
  enroll, look, put_session, connect, step, steps,
}
use peerdup.Daemon.Identity.{Identity, peer_id, sign_relay_hello, to_hex}
use peerdup.Daemon.Agreement.{Matches, IsBytes, sign_relay_hello-check}

-- The hello that the client sends.
abbrev pub hello_of : Identity → Text → Text → ℕ → Bytes → Hello
hello_of id share_id want_peer_id timestamp signature = record {
  share_id = share_id;
  peer_id = peer_id id;
  want_peer_id = want_peer_id;
  timestamp = timestamp;
  sig = to_hex signature;
}

-- The frames that the relay has sent to a connection.
unfoldable pub frames_to : ℕ → List (ℕ × Frame) → List Frame
frames_to c [] = []
frames_to c ((d, frame) ∷ rest) =
    let later = frames_to c rest in if eqb d c then frame ∷ later else later

-- Whether the client opens its bridge on the frames that it receives in time: an error, or anything but
-- `connected` after it has waited, makes it raise.
unfoldable pub is_paired : List Frame → Bool
is_paired [] = false
is_paired (connected ∷ fs) = true
is_paired (error reason ∷ fs) = false
is_paired (waiting ∷ []) = false
is_paired (waiting ∷ connected ∷ fs) = true
is_paired (waiting ∷ waiting ∷ fs) = false
is_paired (waiting ∷ error reason ∷ fs) = false

frames_to-append :
    (c : ℕ) (xs ys : List (ℕ × Frame)) → frames_to c (xs ++ ys) ≡ frames_to c xs ++ frames_to c ys
unfolding frames_to
frames_to-append c [] ys = refl
frames_to-append c ((d, frame) ∷ xs) ys = ground (arith, frames_to-append c xs ys)

module _ (keys : Keys) where
  -- A hello that is well waits when the peer that it asks for does not, and there is room.
  first_waits :
      (c now n : ℕ) (hello : Hello) (s : Relay)
      → read_hello keys now (body n hello) ≡ accepted hello
      → Table.find session_key (want_key hello) s.waiting ≡ none
      → Table.find session_key (hello.share_id, hello.peer_id) s.waiting ≡ none
      → length s.waiting < s.max_waiting
      → step keys s (connect c now (body n hello)) ≡ record s {
        waiting = s.waiting ++ session_of c hello ∷ [];
        sent = s.sent ++ (c, waiting) ∷ [];
      }
  unfolding step admit enroll look put_session
  first_waits c now n hello s well alone new room =
      let key : Text × Text = (hello.share_id, hello.peer_id) in
      let mine = session_of c hello in
      let no_room : leb s.max_waiting (length s.waiting) ≡ false = ground (arith, room) in
      let put : put_session mine s.waiting ≡ s.waiting ++ mine ∷ [] = rw (new, put_session) refl in
      let there : Table.find session_key key (s.waiting ++ mine ∷ []) ≡ some mine =
        find-append session_key key s.waiting mine ∙ rw (new, beq_refl key) refl in
      rw (well, alone, no_room, admit, enroll, put, look, there) refl

  -- A hello that is well is piped with the session that it asks for.
  second_pairs :
      (c now n : ℕ) (hello : Hello) (partner : Session) (s : Relay)
      → read_hello keys now (body n hello) ≡ accepted hello
      → Table.find session_key (want_key hello) s.waiting ≡ some partner
      → step keys s (connect c now (body n hello)) ≡ pair c hello partner s
  unfolding step admit
  second_pairs c now n hello partner s well found = rw (well, found, admit) refl

abbrev pub keys_of : Env → Keys
keys_of env = record { b58decode = env.b58decode; verify_key = env.verify_key }

-- A hello that an identity signs, of at most 4096 bytes, which comes in time.
pub record IsHello (env : Env) (id : Identity) (share_id want : Text) (now timestamp n : ℕ)
    (signature : Bytes) : Type 0 where
  pub signed : sign_relay_hello id share_id want timestamp ≡ some signature
  pub bytes : IsBytes signature
  pub in_time : is_stale (keys_of env) now timestamp ≡ false
  pub small : ltb max_hello_size n ≡ false

hello_is_read :
    (env : Env) (id : Identity) (m : Matches env id) (share_id want : Text) (now timestamp n : ℕ)
    (signature : Bytes)
    → IsHello env id share_id want now timestamp n signature
    → read_hello (keys_of env) now (body n (hello_of id share_id want timestamp signature))
      ≡ accepted (hello_of id share_id want timestamp signature)
unfolding read_hello
hello_is_read env id m share_id want now timestamp n signature h = rw (h.small) (
    sign_relay_hello-check env id m now share_id want timestamp signature h.signed h.bytes
      h.in_time)

-- What the two connections are sent when the first waits and the second is piped with it.
frames_of_both :
    (c d : ℕ) (xs : List (ℕ × Frame))
    → eqb c d ≡ false
    → frames_to c xs ≡ []
    → frames_to d xs ≡ []
    → (frames_to c (((xs ++ (c, waiting) ∷ []) ++ (c, connected) ∷ []) ++ (d, connected) ∷ [])
        ≡ waiting ∷ connected ∷ [])
      × (frames_to d (((xs ++ (c, waiting) ∷ []) ++ (c, connected) ∷ []) ++ (d, connected) ∷ [])
          ≡ connected ∷ [])
unfolding frames_to
frames_of_both c d xs differ fresh_c fresh_d =
    let one = xs ++ (c, waiting) ∷ [] in
    let two = one ++ (c, connected) ∷ [] in
    let other : eqb d c ≡ false = ground (arith, differ) in
    let same : eqb c c ≡ true = ground arith in
    let same_d : eqb d d ≡ true = ground arith in
    (
      rw
          (
            frames_to-append c two ((d, connected) ∷ []),
            frames_to-append c one ((c, connected) ∷ []),
            frames_to-append c xs ((c, waiting) ∷ []),
            fresh_c,
            other,
            same,
          )
          refl,
      rw
          (
            frames_to-append d two ((d, connected) ∷ []),
            frames_to-append d one ((c, connected) ∷ []),
            frames_to-append d xs ((c, waiting) ∷ []),
            fresh_d,
            differ,
            same_d,
          )
          refl,
    )

-- Two daemons that ask the relay for each other in a share, the second right after the first, both get their
-- bridge, whatever else waits at the relay, if the decoding and the signatures match, the two hellos are signed,
-- in time and of at most 4096 bytes, neither peer waits in the share already, the relay has room for one more,
-- and the two connections are new.
pub bridges_meet :
    (env : Env) (a b : Identity) (of_a : Matches env a) (of_b : Matches env b) (share_id : Text)
    (now later time_a time_b n k c d : ℕ) (sig_a sig_b : Bytes) (s : Relay)
    → IsHello env a share_id (peer_id b) now time_a n sig_a
    → IsHello env b share_id (peer_id a) later time_b k sig_b
    → Table.find session_key (share_id, peer_id a) s.waiting ≡ none
    → Table.find session_key (share_id, peer_id b) s.waiting ≡ none
    → length s.waiting < s.max_waiting
    → eqb c d ≡ false
    → frames_to c s.sent ≡ []
    → frames_to d s.sent ≡ []
    → let e = steps (keys_of env) s (
        connect c now (body n (hello_of a share_id (peer_id b) time_a sig_a))
        ∷ connect d later (body k (hello_of b share_id (peer_id a) time_b sig_b))
        ∷ []) in
      (is_paired (frames_to c e.sent) ≡ true) × (is_paired (frames_to d e.sent) ≡ true)
unfolding steps is_paired pair frames_to
bridges_meet env a b of_a of_b share_id now later time_a time_b n k c d sig_a sig_b s hello_a
      hello_b new_a new_b room differ fresh_c fresh_d =
    let ha = hello_of a share_id (peer_id b) time_a sig_a in
    let hb = hello_of b share_id (peer_id a) time_b sig_b in
    let mine = session_of c ha in
    let held : Relay = record s {
      waiting = s.waiting ++ mine ∷ [];
      sent = s.sent ++ (c, waiting) ∷ [];
    } in
    let key : Text × Text = (share_id, peer_id a) in
    let one : step (keys_of env) s (connect c now (body n ha)) ≡ held =
      first_waits (keys_of env) c now n ha s
        (hello_is_read env a of_a share_id (peer_id b) now time_a n sig_a hello_a) new_b new_a
        room in
    let there : Table.find session_key key held.waiting ≡ some mine =
      find-append session_key key s.waiting mine ∙ rw (new_a, beq_refl key) refl in
    let two : step (keys_of env) held (connect d later (body k hb)) ≡ pair d hb mine held =
      second_pairs (keys_of env) d later k hb mine held
        (hello_is_read env b of_b share_id (peer_id a) later time_b k sig_b hello_b) there in
    let both = frames_of_both c d s.sent differ fresh_c fresh_d in
    rw (one, two, pair) ((rw (both.0) refl, rw (both.1) refl))
