-- ===== src/Daemon/Views/Complete.antt =====
-- Who stands in the roster that daemon/daemon/sync/coordinator.py shows, and in which order.
use peerdup.Prelude.{
  Text, false, ◌||◌, ◌&&◌, not, ◌≡◌, refl, ap, ◌∙◌, Option, List, [], ◌∷◌, ◌++◌, map, ◌==◌, text_eq,
  text_beq_iff, beq_refl, select, arith,
}
use peerdup.Prelude.Table
use peerdup.Registry.Messages.{SharePeer}
use peerdup.Daemon.State.{LocalShare, KnownPeer}
use peerdup.Daemon.World.{mem}
use peerdup.Daemon.Views.Roster.{
  RosterRow, row_key, granted_key, known_key, distinct, sort_rows, roster_row, roster,
}
use peerdup.Daemon.Views.Order.{
  IsOrdered, IsMarked, IsOrdered-IsRanked, sort_rows-IsRanked, sort_rows-IsMarked, has-sort_rows,
  sort_rows-IsUnique,
}

mem-select :
    (p k : Text) (ks : List Text)
    → mem p (select (λ j. not (j == k)) ks) ≡ (mem p ks && not (p == k))
unfolding mem select
mem-select p k [] = refl
mem-select p k (j ∷ ks) = ground (arith, mem-select p k ks, text_beq_iff j p)

mem-distinct : (p : Text) (ks : List Text) → mem p (distinct ks) ≡ mem p ks
unfolding mem distinct
mem-distinct p [] = refl
mem-distinct p (k ∷ ks) =
    ground
      (arith, mem-distinct p ks, mem-select p k (distinct ks), text_beq_iff k p, text_beq_iff p k)

mem-append : (p : Text) (js ks : List Text) → mem p (js ++ ks) ≡ (mem p js || mem p ks)
unfolding mem
mem-append p [] ks = refl
mem-append p (j ∷ js) ks = ground (arith, mem-append p js ks)

-- The keys of a table.
mem-keys {ℓ} :
    {A : Type ℓ} (key : A → Text) (p : Text) (xs : List A) → mem p (map key xs) ≡ Table.has key p xs
unfolding mem Table.find
mem-keys key p [] = refl
mem-keys key p (x ∷ xs) = ground (arith, mem-keys key p xs)

-- No key stands twice in the list.
abbrev AllDiffer : List Text → Type 0
AllDiffer [] = Unit
AllDiffer (k ∷ ks) = (mem k ks ≡ false) × AllDiffer ks

AllDiffer-select :
    (k : Text) (ks : List Text) → AllDiffer ks → AllDiffer (select (λ j. not (j == k)) ks)
unfolding select
AllDiffer-select k [] d = tt
AllDiffer-select k (j ∷ ks) d = ground (arith, mem-select j k ks, AllDiffer-select k ks d.1, d.0)

distinct-AllDiffer : (ks : List Text) → AllDiffer (distinct ks)
unfolding distinct
distinct-AllDiffer [] = tt
distinct-AllDiffer (k ∷ ks) = (
  ground (arith, mem-select k k (distinct ks), beq_refl k),
  AllDiffer-select k (distinct ks) (distinct-AllDiffer ks),
)

-- Rows made one for each key.
module _ (make : Text → RosterRow) (keyed : (p : Text) → row_key (make p) ≡ p) where
  has-made : (p : Text) (ks : List Text) → Table.has row_key p (map make ks) ≡ mem p ks
  unfolding mem Table.find
  has-made p [] = refl
  has-made p (k ∷ ks) = ground (arith, has-made p ks, ap (λ x. x == p) (keyed k))

  made-IsUnique : (ks : List Text) → AllDiffer ks → Table.IsUnique row_key (map make ks)
  made-IsUnique [] d = tt
  made-IsUnique (k ∷ ks) d = (
    ground (arith, has-made (row_key (make k)) ks, ap (λ x. mem x ks) (keyed k), d.0),
    made-IsUnique ks d.1,
  )

-- Rows that are made for keys and marked.
made-IsMarked :
    (own_id : Text) (make : Text → RosterRow)
    (marks : (p : Text) → (make p).is_self ≡ ((make p).peer_id == own_id)) (ks : List Text)
    → IsMarked own_id (map make ks)
made-IsMarked own_id make marks [] = tt
made-IsMarked own_id make marks (k ∷ ks) = (marks k, made-IsMarked own_id make marks ks)

-- Everybody who is granted the share or known in it, and nobody else, stands in the roster; nobody stands
-- there twice, and whenever a row stands before another, it is our own, or the other is not our own and is
-- not online unless the first one is: ourselves first, then who is online, then the rest.
pub roster-Complete :
    (own_id : Text) (lower : Text → Text) (row : Option LocalShare) (granted : List SharePeer)
    (known : List KnownPeer)
    → ((p : Text)
        → Table.has row_key p (roster own_id lower row granted known)
          ≡ (Table.has granted_key p granted || Table.has known_key p known))
      × Table.IsUnique row_key (roster own_id lower row granted known)
      × IsOrdered own_id (roster own_id lower row granted known)
unfolding roster roster_row
roster-Complete own_id lower row granted known =
    let keys = map granted_key granted ++ map known_key known in
    let make : Text → RosterRow = λ p.
      roster_row own_id lower row (Table.find granted_key p granted) (Table.find known_key p known)
        p in
    let rows = map make (distinct keys) in
    (
      λ p.
          has-sort_rows own_id lower p rows
          ∙ has-made make (λ q. refl) p (distinct keys)
          ∙ mem-distinct p keys
          ∙ mem-append p (map granted_key granted) (map known_key known)
          ∙ rw (mem-keys granted_key p granted, mem-keys known_key p known) refl,
      sort_rows-IsUnique own_id lower rows
          (made-IsUnique make (λ q. refl) (distinct keys) (distinct-AllDiffer keys)),
      IsOrdered-IsRanked own_id (sort_rows own_id lower rows)
          (sort_rows-IsMarked own_id lower rows
            (made-IsMarked own_id make (λ p. refl) (distinct keys)))
          (sort_rows-IsRanked own_id lower rows),
    )
