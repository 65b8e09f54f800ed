-- ===== src/Daemon/Client/Streams.antt =====
-- `watch_share_peers_loop` of daemon/daemon/registry/client.py: the stream of a share, opened again whenever
-- it ends.
use peerdup.Prelude.{ℕ, ◌≤◌, Text, ◌≡◌, refl, ◌∙◌, sym, List, [], ◌∷◌, ◌++◌, arith}
use peerdup.Registry.Messages.{PeerEvent}
use peerdup.Daemon.World.{World, Daemon}
use peerdup.Daemon.Handler.{registry_event}
use peerdup.Daemon.Coordinator.Loops.{next_backoff}

-- How a stream ends: the server ends it, it raises, or the stop event is set meanwhile.
pub data End : Type 0 where
  ended failed stopped : End

pub record Session : Type 0 where
  pub delivered : List PeerEvent
  pub end : End

-- `backoff` after the events of a stream: one that delivers an event sets it back.
abbrev backoff_after : ℕ → List PeerEvent → ℕ
backoff_after backoff [] = backoff
backoff_after backoff (e ∷ es) = 1

-- What the streams deliver until the loop is stopped.
unfoldable pub heard : List Session → List PeerEvent
heard [] = []
heard (s ∷ ss) = let later = heard ss in s.delivered ++ elim s.end [ stopped ↦ [] | _ ↦ later ]

unfoldable pub AllWithin : ℕ → ℕ → List ℕ → Type 0
AllWithin low high [] = Unit
AllWithin low high (n ∷ ns) = (low ≤ n) × (n ≤ high) × AllWithin low high ns

backoff_after-Within :
    (backoff : ℕ) (es : List PeerEvent)
    → 1 ≤ backoff
    → backoff ≤ 60
    → (1 ≤ backoff_after backoff es) × (backoff_after backoff es ≤ 60)
backoff_after-Within backoff [] low high = (low, high)
backoff_after-Within backoff (e ∷ es) low high = (omega arith, omega arith)

module _ (w : World) (share_id : Text) where
  unfoldable pub handle_all : List PeerEvent → Daemon → Daemon
  handle_all [] d = d
  handle_all (e ∷ es) d = handle_all es (registry_event w share_id e d)

  -- The waits in seconds, and the daemon after the streams; the loop does not wait after a stream that the
  -- server ends.
  unfoldable pub watch_share_peers_loop : ℕ → List Session → Daemon → List ℕ × Daemon
  watch_share_peers_loop backoff [] d = ([], d)
  watch_share_peers_loop backoff (s ∷ ss) d =
      let e = handle_all s.delivered d in
      let b = backoff_after backoff s.delivered in
      let again = watch_share_peers_loop b ss e in
      let (waits, last) = watch_share_peers_loop (next_backoff b) ss e in
      elim s.end [ ended ↦ again | failed ↦ (b ∷ waits, last) | stopped ↦ ([], e) ]

  handle_all-append :
      (xs ys : List PeerEvent) (d : Daemon)
      → handle_all (xs ++ ys) d ≡ handle_all ys (handle_all xs d)
  unfolding handle_all
  handle_all-append [] ys d = refl
  handle_all-append (x ∷ xs) ys d = handle_all-append xs ys (registry_event w share_id x d)

  -- Every event that a stream delivers until the loop is stopped is handled, in order, whatever the streams
  -- end with in between, and no wait is shorter than a second or longer than a minute.
  pub watch_share_peers_loop-Hears :
      (backoff : ℕ) (ss : List Session) (d : Daemon)
      → 1 ≤ backoff
      → backoff ≤ 60
      → ((watch_share_peers_loop backoff ss d).1 ≡ handle_all (heard ss) d)
        × AllWithin 1 60 (watch_share_peers_loop backoff ss d).0
  unfolding watch_share_peers_loop heard handle_all AllWithin
  watch_share_peers_loop-Hears backoff [] d low high = (refl, tt)
  watch_share_peers_loop-Hears backoff (s ∷ ss) d low high =
      let e = handle_all s.delivered d in
      let b = backoff_after backoff s.delivered in
      let (b_low, b_high) = backoff_after-Within backoff s.delivered low high in
      elim s.end
        as (λ (how : End).
          let all = record s { end = how } ∷ ss in
          ((watch_share_peers_loop backoff all d).1 ≡ handle_all (heard all) d)
          × AllWithin 1 60 (watch_share_peers_loop backoff all d).0) [
            | ended ↦
                let again = watch_share_peers_loop-Hears b ss e b_low b_high in
                (again.0 ∙ sym (handle_all-append s.delivered (heard ss) d), again.1)
            | failed ↦
                let later =
                  watch_share_peers_loop-Hears (next_backoff b) ss e (omega (arith, b_low))
                    (omega arith) in
                (
                  later.0 ∙ sym (handle_all-append s.delivered (heard ss) d),
                  (b_low, b_high, later.1),
                )
            | stopped ↦ (sym (handle_all-append s.delivered [] d), tt)
          ]
