-- ===== src/Registry/Events/Delivery.antt =====
-- What the subscribers of registry/registry/events.py receive.

use peerdup.Prelude.{
  ℕ, zero, suc, ◌≤◌, Text, true, false, ◌≡◌, refl, sym, ap, ◌∙◌, inl, inr, List, [], ◌∷◌, ◌++◌, map,
  if◌then◌else◌, ltb, leb, length, text_eq, ◌==◌, text_beq_iff, arith, Bool-cases,
}
use peerdup.Prelude.Table.{find-update}
use peerdup.Registry.Messages.{PeerEvent}
use peerdup.Registry.Events.{
  Queue, EventBus, topic_key, queues_of, put_nowait, with_queues, publish, publish_all,
}

-- The first `n` events of a list.
abbrev pub first : ℕ → List PeerEvent → List PeerEvent
first zero es = []
first (suc n) [] = []
first (suc n) (e ∷ es) = e ∷ first n es

-- A queue with all the events that fit, the earliest first.
abbrev pub filled : List PeerEvent → Queue → Queue
filled es q = record q { items = first q.maxsize (q.items ++ es) }

-- A queue has a maximal size and holds no more.
abbrev pub Fits : Queue → Type 0
Fits q = (1 ≤ q.maxsize) × (length q.items ≤ q.maxsize)

abbrev pub AllFit : List Queue → Type 0
AllFit [] = Unit
AllFit (q ∷ qs) = Fits q × AllFit qs

append_nil : (es : List PeerEvent) → es ++ [] ≡ es
append_nil [] = refl
append_nil (e ∷ es) = ap (λ t. e ∷ t) (append_nil es)

append_one :
    (xs : List PeerEvent) (e : PeerEvent) (es : List PeerEvent)
    → (xs ++ e ∷ []) ++ es ≡ xs ++ e ∷ es
append_one [] e es = refl
append_one (x ∷ xs) e es = ap (λ t. x ∷ t) (append_one xs e es)

length-append_one : (xs : List PeerEvent) (e : PeerEvent) → length (xs ++ e ∷ []) ≡ suc (length xs)
length-append_one [] e = refl
length-append_one (x ∷ xs) e = ap suc (length-append_one xs e)

first_all : (n : ℕ) (es : List PeerEvent) → length es ≤ n → first n es ≡ es
first_all zero [] h = refl
first_all zero (e ∷ es) h = absurd (omega (arith, h))
first_all (suc n) [] h = refl
first_all (suc n) (e ∷ es) h = ap (λ t. e ∷ t) (first_all n es (omega (arith, h)))

first_full : (n : ℕ) (xs es : List PeerEvent) → length xs ≡ n → first n (xs ++ es) ≡ xs
first_full zero [] es h = refl
first_full zero (x ∷ xs) es h = absurd (omega (arith, h))
first_full (suc n) [] es h = absurd (omega (arith, h))
first_full (suc n) (x ∷ xs) es h = ap (λ t. x ∷ t) (first_full n xs es (omega (arith, h)))

put_nowait-Fits : (e : PeerEvent) (q : Queue) → Fits q → Fits (put_nowait e q)
unfolding put_nowait
put_nowait-Fits e q h = ground (arith, length-append_one q.items e)

filled-put_nowait :
    (e : PeerEvent) (es : List PeerEvent) (q : Queue)
    → Fits q
    → filled es (put_nowait e q) ≡ filled (e ∷ es) q
unfolding put_nowait
filled-put_nowait e es q h = elim (Bool-cases (leb q.maxsize (length q.items))) [
  | inl full ↦
      let has_max : ltb 0 q.maxsize ≡ true = ground arith in
      let n : length q.items ≡ q.maxsize = ground arith in
      rw (has_max, full)
        (ap (λ (t : List PeerEvent). record q { items = t })
          (first_full q.maxsize q.items es n ∙ sym (first_full q.maxsize q.items (e ∷ es) n)))
  | inr room ↦
      let has_max : ltb 0 q.maxsize ≡ true = ground arith in
      rw (has_max, room)
        (ap (λ (t : List PeerEvent). record q { items = first q.maxsize t })
          (append_one q.items e es))
]

map-filled :
    (e : PeerEvent) (es : List PeerEvent) (qs : List Queue)
    → AllFit qs
    → map (filled es) (map (put_nowait e) qs) ≡ map (filled (e ∷ es)) qs
map-filled e es [] h = refl
map-filled e es (q ∷ qs) h = rw (filled-put_nowait e es q h.0, map-filled e es qs h.1) refl

map-filled_nil : (qs : List Queue) → AllFit qs → map (filled []) qs ≡ qs
map-filled_nil [] h = refl
map-filled_nil (q ∷ qs) h =
    rw (append_nil q.items, first_all q.maxsize q.items h.0.1, map-filled_nil qs h.1) refl

put_nowait-AllFit : (e : PeerEvent) (qs : List Queue) → AllFit qs → AllFit (map (put_nowait e) qs)
put_nowait-AllFit e [] h = tt
put_nowait-AllFit e (q ∷ qs) h = (put_nowait-Fits e q h.0, put_nowait-AllFit e qs h.1)

queues_of-publish :
    (i j : Text) (e : PeerEvent) (bus : EventBus)
    → queues_of j (publish i e bus)
      ≡ (if i == j then map (put_nowait e) (queues_of j bus) else queues_of j bus)
unfolding publish
queues_of-publish i j e bus =
    ground (arith, find-update topic_key j i (with_queues (map (put_nowait e))) bus (λ _. refl))

same_text : (i : Text) → (i == i) ≡ true
same_text i = (text_beq_iff i i).1 refl

-- When every queue of a share has a maximal size and holds no more, and nothing is read meanwhile,
-- publishing events in the share leaves each queue with the earliest of them that fit, in order
-- behind what it held; the queues of every other share are as they were.
pub published_in_order :
    (i : Text) (es : List PeerEvent) (bus : EventBus)
    → AllFit (queues_of i bus)
    → (queues_of i (publish_all i es bus) ≡ map (filled es) (queues_of i bus))
      × ((j : Text) → (i == j) ≡ false → queues_of j (publish_all i es bus) ≡ queues_of j bus)
published_in_order i [] bus h = (sym (map-filled_nil (queues_of i bus) h), λ j other. refl)
published_in_order i (e ∷ es) bus h =
    let here : queues_of i (publish i e bus) ≡ map (put_nowait e) (queues_of i bus) =
      rw (same_text i) at (queues_of-publish i i e bus) in
    let rest =
      published_in_order i es (publish i e bus)
        (rw here (put_nowait-AllFit e (queues_of i bus) h)) in
    (
      rest.0 ∙ ap (map (filled es)) here ∙ map-filled e es (queues_of i bus) h,
      λ j other. rest.1 j other ∙ (rw other at (queues_of-publish i j e bus)),
    )
