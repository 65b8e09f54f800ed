-- ===== src/Daemon/Watcher/Summary.antt =====
-- A machine for one path that sums up what was noticed of it, for daemon/daemon/watcher/fs.py to be held
-- against.
use peerdup.Prelude.{
  Text, ◌≡◌, refl, Option, none, some, List, [], ◌∷◌, ◌++◌, if◌then◌else◌, ◌==◌, text_eq, arith,
}
use peerdup.Prelude.Table
use peerdup.Prelude.Table.{find-append, find-update, find-key, append-IsUnique, update-IsUnique}
use peerdup.Daemon.Coordinator.Loops.{deleted}
use peerdup.Daemon.Watcher.{Change, Pending, path_of, Entry, noticed, reported}

-- The changes of one path, summed up: the last one counts, but a deletion stays.
unfoldable pub merge : Option Change → Change → Option Change
merge none change = some change
merge (some (deleted, dest)) change = some (deleted, dest)
merge (some c) change = some change

-- What is told of a path in a log.
unfoldable pub told : Text → List Entry → List (Option Change)
told q [] = []
told q (noticed n ∷ log) = told q log
told q (reported p ∷ log) =
    let rest = told q log in if p.path == q then some p.change ∷ rest else rest

-- What is due to be told at each report: the sum of what was noticed since the last one.
unfoldable pub due : Text → Option Change → List Entry → List (Option Change)
due q sum [] = []
due q sum (noticed n ∷ log) = due q (if n.0 == q then merge sum n.1 else sum) log
due q sum (reported p ∷ log) =
    let told_now = due q none log in
    let passed = due q sum log in if p.path == q then sum ∷ told_now else passed

-- The sum that is left after a log.
unfoldable pub left : Text → Option Change → List Entry → Option Change
left q sum [] = sum
left q sum (noticed n ∷ log) = left q (if n.0 == q then merge sum n.1 else sum) log
left q sum (reported p ∷ log) = left q (if p.path == q then none else sum) log

abbrev pub change_of : Option Pending → Option Change
change_of none = none
change_of (some p) = some p.change

-- The state of one path.
abbrev pub view : Text → List Pending → Option Change
view q ps = change_of (Table.find path_of q ps)

told-append : (q : Text) (xs ys : List Entry) → told q (xs ++ ys) ≡ told q xs ++ told q ys
unfolding told
told-append q [] ys = refl
told-append q (noticed n ∷ xs) ys = told-append q xs ys
told-append q (reported p ∷ xs) ys = ground (arith, told-append q xs ys)

left-append :
    (q : Text) (sum : Option Change) (xs ys : List Entry)
    → left q sum (xs ++ ys) ≡ left q (left q sum xs) ys
unfolding left
left-append q sum [] ys = refl
left-append q sum (noticed n ∷ xs) ys =
    left-append q (if n.0 == q then merge sum n.1 else sum) xs ys
left-append q sum (reported p ∷ xs) ys = left-append q (if p.path == q then none else sum) xs ys

due-append :
    (q : Text) (sum : Option Change) (xs ys : List Entry)
    → due q sum (xs ++ ys) ≡ due q sum xs ++ due q (left q sum xs) ys
unfolding due left
due-append q sum [] ys = refl
due-append q sum (noticed n ∷ xs) ys = due-append q (if n.0 == q then merge sum n.1 else sum) xs ys
due-append q sum (reported p ∷ xs) ys =
    ground (arith, due-append q none xs ys, due-append q sum xs ys)

-- A log tells what is due, and leaves a sum.
abbrev pub Explains : Text → Option Change → List Entry → Option Change → Type 0
Explains q before log after = (told q log ≡ due q before log) × (left q before log ≡ after)

pub Explains-append :
    (q : Text) (a b c : Option Change) (xs ys : List Entry)
    → Explains q a xs b
    → Explains q b ys c
    → Explains q a (xs ++ ys) c
Explains-append q a b c xs ys h k = (
  cc (told-append q xs ys, due-append q a xs ys, h.1, h.0, k.0),
  cc (left-append q a xs ys, h.1, k.1),
)
