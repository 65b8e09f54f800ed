-- ===== src/Daemon/Watcher/Reports.antt =====
-- What the file watcher reports of a path: daemon/daemon/watcher/fs.py against the sum of what was noticed.
use peerdup.Prelude.{
  ℕ, ◌+◌, ◌-◌, Text, Bool, true, not, ◌≡◌, refl, sym, ap, ◌∙◌, inl, inr, Option, none, some, List,
  [], ◌∷◌, map, if◌then◌else◌, ◌==◌, text_eq, text_beq_iff, select, arith, Bool-cases,
}
use peerdup.Prelude.Table
use peerdup.Prelude.Table.{find-append, find-update, find-key, append-IsUnique, update-IsUnique}
use peerdup.Daemon.Watcher.{
  debounce_ms, Change, Pending, path_of, ShareHandler, fresh, assign, is_deleted, debounce,
  is_ready, collect, Turn, time_passes, notice, timer_fires, flush_gets_lock, timer_restarts,
  reported, take_turn, run,
}
use peerdup.Daemon.Watcher.Summary.{
  merge, told, due, left, change_of, view, Explains, Explains-append,
}

-- Reports of other paths tell nothing of this one.
reports_of_others :
    (q : Text) (sum : Option Change) (ps : List Pending)
    → Table.find path_of q ps ≡ none
    → Explains q sum (map reported ps) sum × (told q (map reported ps) ≡ [])
unfolding told due left Table.find
reports_of_others q sum [] h = ((refl, refl), refl)
reports_of_others q sum (p ∷ ps) h = ground (arith, reports_of_others q sum ps)

find-select :
    (r : Pending → Bool) (q : Text) (ps : List Pending)
    → Table.find path_of q ps ≡ none
    → Table.find path_of q (select r ps) ≡ none
unfolding Table.find select
find-select r q [] h = refl
find-select r q (p ∷ ps) h = ground (arith, find-select r q ps)

-- What is ready is told, and the rest is left.
collect-Explains :
    (r : Pending → Bool) (q : Text) (ps : List Pending)
    → Table.IsUnique path_of ps
    → Explains q (view q ps) (map reported (select r ps)) (view q (select (λ p. not (r p)) ps))
unfolding told due left Table.find select
collect-Explains r q [] u = (refl, refl)
collect-Explains r q (p ∷ ps) u =
    let rest = collect-Explains r q ps u.1 in
    let absent = λ (same : (p.path == q) ≡ true).
      ap (λ k. Table.find path_of k ps) (sym ((text_beq_iff p.path q).0 same)) ∙ u.0 in
    let others = λ (sum : Option Change) (same : (p.path == q) ≡ true).
      reports_of_others q sum (select r ps) (find-select r q ps (absent same)) in
    elim (Bool-cases (r p)) [
      | inl goes ↦ elim (Bool-cases (p.path == q)) [
        | inl same ↦
            let o = others none same in
            let gone = find-select (λ x. not (r x)) q ps (absent same) in
            rw (goes, same, select, told, due, left)
              (ap (λ t. some p.change ∷ t) o.0.0, o.0.1 ∙ sym (ap change_of gone))
        | inr differ ↦ rw (goes, differ, select, told, due, left) rest
      ]
      | inr stays ↦ elim (Bool-cases (p.path == q)) [
        | inl same ↦ rw (stays, same, select, Table.find) ((others (some p.change) same).0)
        | inr differ ↦ rw (stays, differ, select, Table.find) rest
      ]
    ]

view-assign :
    (q : Text) (p : Pending) (ps : List Pending)
    → view q (assign p ps) ≡ (if p.path == q then some p.change else view q ps)
view-assign q p ps = ground (
  arith,
  find-append path_of q ps p,
  find-update path_of q p.path (λ x. record p { path = x.path }) ps (λ x. refl),
  text_beq_iff p.path q,
)

assign-IsUnique :
    (p : Pending) (ps : List Pending)
    → Table.IsUnique path_of ps
    → Table.IsUnique path_of (assign p ps)
assign-IsUnique p ps u = elim (Bool-cases (Table.has path_of p.path ps)) [
  | inl there ↦
      rw (there) (update-IsUnique path_of p.path (λ x. record p { path = x.path }) ps (λ x. refl) u)
  | inr absent ↦ rw (absent) (append-IsUnique path_of ps p u (ground arith))
]

merge-change_of :
    (o : Option Pending) (change : Change)
    → merge (change_of o) change ≡ (if is_deleted o then change_of o else some change)
unfolding is_deleted merge
merge-change_of none change = refl
merge-change_of (some p) change = ground arith

debounce-view :
    (q : Text) (waited : ℕ) (n : Text × Change) (h : ShareHandler)
    → view q (debounce waited n.0 n.1 h).pending
      ≡ (if n.0 == q then merge (view q h.pending) n.1 else view q h.pending)
unfolding debounce
debounce-view q waited n h =
    let p : Pending = record {
      path = n.0;
      change = n.1;
      deadline = (h.clock - waited) + debounce_ms;
    } in
    let merged = merge-change_of (Table.find path_of n.0 h.pending) n.1 in
    let same = λ (k : (n.0 == q) ≡ true). ap (λ r. view r h.pending) ((text_beq_iff n.0 q).0 k) in
    elim (Bool-cases (is_deleted (Table.find path_of n.0 h.pending))) [
      | inl deletion ↦ rw (deletion, debounce) (ground (arith, deletion, merged, same))
      | inr other ↦
          rw (other, debounce) (view-assign q p h.pending ∙ ground (arith, other, merged, same))
    ]

select-IsUnique :
    (r : Pending → Bool) (ps : List Pending)
    → Table.IsUnique path_of ps
    → Table.IsUnique path_of (select r ps)
unfolding select
select-IsUnique r [] u = tt
select-IsUnique r (p ∷ ps) u = ground (arith, find-select r p.path ps u.0, select-IsUnique r ps u.1)

debounce-IsUnique :
    (waited : ℕ) (n : Text × Change) (h : ShareHandler)
    → Table.IsUnique path_of h.pending
    → Table.IsUnique path_of (debounce waited n.0 n.1 h).pending
unfolding debounce
debounce-IsUnique waited n h u =
    let p : Pending = record {
      path = n.0;
      change = n.1;
      deadline = (h.clock - waited) + debounce_ms;
    } in
    elim (Bool-cases (is_deleted (Table.find path_of n.0 h.pending))) [
      | inl deletion ↦ rw (deletion, debounce) u
      | inr other ↦ rw (other, debounce) (assign-IsUnique p h.pending u)
    ]

-- Every step of the threads tells what is due of a path, and keeps one entry for it.
take_turn-Explains :
    (q : Text) (t : Turn) (h : ShareHandler)
    → Table.IsUnique path_of h.pending
    → Explains q (view q h.pending) (take_turn t h).0 (view q (take_turn t h).1.pending)
      × Table.IsUnique path_of (take_turn t h).1.pending
unfolding take_turn collect debounce told due left
take_turn-Explains q (time_passes n) h u = ((refl, refl), u)
take_turn-Explains q (notice waited n) h u =
    ((refl, sym (debounce-view q waited n h)), debounce-IsUnique waited n h u)
take_turn-Explains q timer_fires h u = ground (arith, u)
take_turn-Explains q flush_gets_lock h u =
    elim h.flushing
      as (λ threads.
        let e = record h { flushing = threads } in
        Explains q (view q e.pending) (take_turn flush_gets_lock e).0
          (view q (take_turn flush_gets_lock e).1.pending)
        × Table.IsUnique path_of (take_turn flush_gets_lock e).1.pending) [
          | [] ↦ ((refl, refl), u)
          | now ∷ later ↦ (
            collect-Explains (is_ready now) q h.pending u,
            select-IsUnique (λ p. not (is_ready now p)) h.pending u,
          )
        ]
take_turn-Explains q timer_restarts h u = ground (arith, u)

run-Explains :
    (q : Text) (ts : List Turn) (h : ShareHandler)
    → Table.IsUnique path_of h.pending
    → Explains q (view q h.pending) (run ts h).0 (view q (run ts h).1.pending)
unfolding run told due left
run-Explains q [] h u = (refl, refl)
run-Explains q (t ∷ ts) h u =
    let first = take_turn-Explains q t h u in
    let rest = run-Explains q ts (take_turn t h).1 first.1 in
    Explains-append q (view q h.pending) (view q (take_turn t h).1.pending)
      (view q (run (t ∷ ts) h).1.pending) (take_turn t h).0 (run ts (take_turn t h).1).0 first.0
      rest

-- Over any steps of the threads, what is reported of a path is each time the sum of what was noticed of it
-- since the last report, where the last change counts but a deletion stays, and what waits to be reported
-- is the sum of what was noticed since; so nothing is reported twice, and nothing that was not noticed.
pub run-Refines :
    (q : Text) (ts : List Turn)
    → (told q (run ts fresh).0 ≡ due q none (run ts fresh).0)
      × (left q none (run ts fresh).0 ≡ view q (run ts fresh).1.pending)
unfolding Table.find
run-Refines q ts = run-Explains q ts fresh tt
