-- ===== src/Registry/Events.antt =====
-- registry/registry/events.py: the event bus, which hands each event of a share to the queues of its
-- subscribers. A queue is an `asyncio.Queue` with a number for its identity.
pub mod Delivery
use mathlib.Core.Option.{get_or}
use mathlib.Core.Option
use peerdup.Prelude.{
  ℕ, Text, Bool, true, false, ◌&&◌, Option, none, some, List, [], ◌∷◌, ◌++◌, map, if◌then◌else◌,
  ltb, leb, eqb, length, text_eq,
}
use peerdup.Prelude.Table
use peerdup.Registry.Messages.{PeerEvent}

pub record Queue : Type 0 where
  pub id : ℕ
  pub maxsize : ℕ
  pub items : List PeerEvent

-- The queues of one share.
pub record Topic : Type 0 where
  pub share_id : Text
  pub queues : List Queue

abbrev pub topic_key : Topic → Text
topic_key t = t.share_id

abbrev pub EventBus : Type 0
EventBus = List Topic

-- self._subscribers.get(share_id, [])
abbrev pub queues_of : Text → EventBus → List Queue
queues_of share_id bus =
    get_or (Option.map (λ (t : Topic). t.queues) (Table.find topic_key share_id bus)) []

-- `q.put_nowait(event)` under `except QueueFull: pass`. A queue without a maximal size is never full.
unfoldable pub put_nowait : PeerEvent → Queue → Queue
put_nowait event q =
    if ltb 0 q.maxsize && leb q.maxsize (length q.items)
    then q
    else record q { items = q.items ++ event ∷ [] }

abbrev pub with_queues : (List Queue → List Queue) → Topic → Topic
with_queues f t = record t { queues = f t.queues }

unfoldable pub publish : Text → PeerEvent → EventBus → EventBus
publish share_id event bus =
    Table.update topic_key share_id (with_queues (map (put_nowait event))) bus

-- A new subscriber has an empty queue; the first of a share makes its list.
unfoldable pub subscribe : Text → ℕ → ℕ → EventBus → EventBus
subscribe share_id id maxsize bus =
    let q : Queue = record { id = id; maxsize = maxsize; items = [] } in
    if Table.has topic_key share_id bus
    then Table.update topic_key share_id (with_queues (λ qs. qs ++ q ∷ [])) bus
    else bus ++ record { share_id = share_id; queues = q ∷ [] } ∷ []

-- `queues.remove(q)`
unfoldable pub remove : ℕ → List Queue → List Queue
remove id [] = []
remove id (q ∷ qs) = let rest = remove id qs in if eqb q.id id then qs else q ∷ rest

unfoldable pub unsubscribe : Text → ℕ → EventBus → EventBus
unsubscribe share_id id bus = Table.update topic_key share_id (with_queues (remove id)) bus

-- Several events, in order.
abbrev pub publish_all : Text → List PeerEvent → EventBus → EventBus
publish_all share_id [] bus = bus
publish_all share_id (e ∷ es) bus = publish_all share_id es (publish share_id e bus)
