-- ===== src/Daemon/Views/Order.antt =====
-- The order of the roster of daemon/daemon/sync/coordinator.py, and what sorting keeps of its rows.
use peerdup.Prelude.{
  ℕ, ◌≤◌, Text, Bool, true, ◌||◌, ◌&&◌, not, ◌≡◌, refl, inl, inr, none, List, [], ◌∷◌, ◌==◌,
  text_eq, text_beq_iff, arith, Bool-cases,
}
use peerdup.Prelude.Table
use peerdup.Daemon.Views.Roster.{RosterRow, row_key, rank, before, insert_row, sort_rows}

-- A row may stand before another: it is our own, or the other is not our own and is online only if the first
-- one is.
abbrev pub precedes : Text → RosterRow → RosterRow → Bool
precedes own_id x y =
    (x.peer_id == own_id) || (not (y.peer_id == own_id) && (x.online || not y.online))

abbrev pub PrecedesAll : Text → RosterRow → List RosterRow → Type 0
PrecedesAll own_id x [] = Unit
PrecedesAll own_id x (y ∷ ys) = (precedes own_id x y ≡ true) × PrecedesAll own_id x ys

-- Each row may stand before all that follow it.
abbrev pub IsOrdered : Text → List RosterRow → Type 0
IsOrdered own_id [] = Unit
IsOrdered own_id (x ∷ xs) = PrecedesAll own_id x xs × IsOrdered own_id xs

-- The rows say of themselves whether they are our own.
abbrev pub IsMarked : Text → List RosterRow → Type 0
IsMarked own_id [] = Unit
IsMarked own_id (x ∷ xs) = (x.is_self ≡ (x.peer_id == own_id)) × IsMarked own_id xs

-- No row of the list has a lower rank.
abbrev AllFrom : ℕ → List RosterRow → Type 0
AllFrom r [] = Unit
AllFrom r (x ∷ xs) = (r ≤ rank x) × AllFrom r xs

-- The ranks do not fall.
abbrev pub IsRanked : List RosterRow → Type 0
IsRanked [] = Unit
IsRanked (x ∷ xs) = AllFrom (rank x) xs × IsRanked xs

PrecedesAll-AllFrom :
    (own_id : Text) (x : RosterRow) (xs : List RosterRow)
    → x.is_self ≡ (x.peer_id == own_id)
    → IsMarked own_id xs
    → AllFrom (rank x) xs
    → PrecedesAll own_id x xs
unfolding rank
PrecedesAll-AllFrom own_id x [] own marked h = tt
PrecedesAll-AllFrom own_id x (y ∷ ys) own marked h =
    (ground (arith, own, marked.0, h.0), PrecedesAll-AllFrom own_id x ys own marked.1 h.1)

pub IsOrdered-IsRanked :
    (own_id : Text) (xs : List RosterRow) → IsMarked own_id xs → IsRanked xs → IsOrdered own_id xs
IsOrdered-IsRanked own_id [] marked h = tt
IsOrdered-IsRanked own_id (x ∷ xs) marked h = (
  PrecedesAll-AllFrom own_id x xs marked.0 marked.1 h.0,
  IsOrdered-IsRanked own_id xs marked.1 h.1,
)

AllFrom-lower : (a b : ℕ) (xs : List RosterRow) → a ≤ b → AllFrom b xs → AllFrom a xs
AllFrom-lower a b [] le h = tt
AllFrom-lower a b (x ∷ xs) le h = (omega (arith, le, h.0), AllFrom-lower a b xs le h.1)

module _ (own_id : Text) (lower : Text → Text) where
  insert_row-AllFrom :
      (r : ℕ) (x : RosterRow) (xs : List RosterRow)
      → r ≤ rank x
      → AllFrom r xs
      → AllFrom r (insert_row own_id lower x xs)
  unfolding insert_row
  insert_row-AllFrom r x [] le h = (le, tt)
  insert_row-AllFrom r x (y ∷ ys) le h = elim (Bool-cases (before own_id lower y x)) [
    | inl after ↦ rw (after, insert_row) ((h.0, insert_row-AllFrom r x ys le h.1))
    | inr first ↦ rw (first, insert_row) ((le, h))
  ]

  insert_row-IsRanked :
      (x : RosterRow) (xs : List RosterRow) → IsRanked xs → IsRanked (insert_row own_id lower x xs)
  unfolding insert_row before
  insert_row-IsRanked x [] h = (tt, tt)
  insert_row-IsRanked x (y ∷ ys) h = elim (Bool-cases (before own_id lower y x)) [
    | inl after ↦
        let le : rank y ≤ rank x = ground (arith, after) in
        rw (after, insert_row)
          ((insert_row-AllFrom (rank y) x ys le h.0, insert_row-IsRanked x ys h.1))
    | inr first ↦
        let le : rank x ≤ rank y = ground (arith, first) in
        rw (first, insert_row) (((le, AllFrom-lower (rank x) (rank y) ys le h.0), h))
  ]

  insert_row-IsMarked :
      (x : RosterRow) (xs : List RosterRow)
      → x.is_self ≡ (x.peer_id == own_id)
      → IsMarked own_id xs
      → IsMarked own_id (insert_row own_id lower x xs)
  unfolding insert_row
  insert_row-IsMarked x [] own h = (own, tt)
  insert_row-IsMarked x (y ∷ ys) own h = elim (Bool-cases (before own_id lower y x)) [
    | inl after ↦ rw (after, insert_row) ((h.0, insert_row-IsMarked x ys own h.1))
    | inr first ↦ rw (first, insert_row) ((own, h))
  ]

  pub sort_rows-IsMarked :
      (xs : List RosterRow) → IsMarked own_id xs → IsMarked own_id (sort_rows own_id lower xs)
  unfolding sort_rows
  sort_rows-IsMarked [] h = tt
  sort_rows-IsMarked (x ∷ xs) h =
      insert_row-IsMarked x (sort_rows own_id lower xs) h.0 (sort_rows-IsMarked xs h.1)

  pub sort_rows-IsRanked : (xs : List RosterRow) → IsRanked (sort_rows own_id lower xs)
  unfolding sort_rows
  sort_rows-IsRanked [] = tt
  sort_rows-IsRanked (x ∷ xs) =
      insert_row-IsRanked x (sort_rows own_id lower xs) (sort_rows-IsRanked xs)

  -- A row that is put in is there, and the others are as they were.
  has-insert_row :
      (p : Text) (x : RosterRow) (xs : List RosterRow)
      → Table.has row_key p (insert_row own_id lower x xs)
        ≡ ((row_key x == p) || Table.has row_key p xs)
  unfolding insert_row Table.find
  has-insert_row p x [] = ground arith
  has-insert_row p x (y ∷ ys) = ground (arith, has-insert_row p x ys)

  insert_row-IsUnique :
      (x : RosterRow) (xs : List RosterRow)
      → Table.find row_key (row_key x) xs ≡ none
      → Table.IsUnique row_key xs
      → Table.IsUnique row_key (insert_row own_id lower x xs)
  unfolding insert_row Table.find
  insert_row-IsUnique x [] new u = (refl, tt)
  insert_row-IsUnique x (y ∷ ys) new u = ground (
    arith,
    new,
    u.0,
    has-insert_row (row_key y) x ys,
    insert_row-IsUnique x ys,
    text_beq_iff (row_key x) (row_key y),
    text_beq_iff (row_key y) (row_key x),
    u.1,
  )

  pub has-sort_rows :
      (p : Text) (xs : List RosterRow)
      → Table.has row_key p (sort_rows own_id lower xs) ≡ Table.has row_key p xs
  unfolding sort_rows Table.find
  has-sort_rows p [] = refl
  has-sort_rows p (x ∷ xs) =
      ground (arith, has-insert_row p x (sort_rows own_id lower xs), has-sort_rows p xs)

  pub sort_rows-IsUnique :
      (xs : List RosterRow)
      → Table.IsUnique row_key xs
      → Table.IsUnique row_key (sort_rows own_id lower xs)
  unfolding sort_rows
  sort_rows-IsUnique [] u = tt
  sort_rows-IsUnique (x ∷ xs) u =
      insert_row-IsUnique x (sort_rows own_id lower xs)
        (ground (arith, u.0, has-sort_rows (row_key x) xs)) (sort_rows-IsUnique xs u.1)
