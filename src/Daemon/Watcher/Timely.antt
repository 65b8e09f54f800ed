-- ===== src/Daemon/Watcher/Timely.antt =====
-- The timer of daemon/daemon/watcher/fs.py: whatever waits is looked after, and is due when the timer fires.
use peerdup.Prelude.{
  ℕ, zero, suc, ◌+◌, ◌-◌, ◌≤◌, Text, Bool, true, false, not, ◌||◌, ◌≡◌, refl, inl, inr, Option,
  none, some, List, [], ◌∷◌, ◌++◌, leb, ltb, select, arith, Bool-cases, text_eq,
}
use peerdup.Prelude.Table
use peerdup.Prelude.Table.{is_some}
use peerdup.Daemon.Watcher.{
  debounce_ms, Change, Pending, path_of, ShareHandler, assign, is_deleted, debounce, is_ready,
  collect, Turn, time_passes, notice, timer_fires, flush_gets_lock, timer_restarts, Entry, fires,
  take_turn, run, reschedule,
}

-- No deadline of the list is later.
unfoldable pub AllBy : ℕ → List Pending → Type 0
AllBy b [] = Unit
AllBy b (p ∷ ps) = (p.deadline ≤ b) × AllBy b ps

abbrev pub is_empty : List Pending → Bool
is_empty [] = true
is_empty (p ∷ ps) = false

abbrev pub some_thread : List ℕ → Bool
some_thread [] = false
some_thread (n ∷ ns) = true

-- Whether somebody looks after what waits: a timer, or a thread that will flush or start one.
abbrev pub is_attended : ShareHandler → Bool
is_attended h =
    is_empty h.pending || (is_some h.timer || (some_thread h.flushing || ltb 0 h.restarting))

abbrev pub ByTimer : Option ℕ → ℕ → List Pending → Type 0
ByTimer none clock ps = Unit
ByTimer (some f) clock ps = (f ≤ clock + debounce_ms) × AllBy f ps

abbrev pub IsTimely : ShareHandler → Type 0
IsTimely h =
    AllBy (h.clock + debounce_ms) h.pending
    × ByTimer h.timer h.clock h.pending
    × (is_attended h ≡ true)

pub AllBy-later : (a b : ℕ) (ps : List Pending) → a ≤ b → AllBy a ps → AllBy b ps
unfolding AllBy
AllBy-later a b [] le h = tt
AllBy-later a b (p ∷ ps) le h = (omega (arith, le, h.0), AllBy-later a b ps le h.1)

AllBy-append :
    (b : ℕ) (p : Pending) (ps : List Pending) → p.deadline ≤ b → AllBy b ps → AllBy b (ps ++ p ∷ [])
unfolding AllBy
AllBy-append b p [] le h = (le, tt)
AllBy-append b p (x ∷ ps) le h = (h.0, AllBy-append b p ps le h.1)

AllBy-update :
    (b : ℕ) (k : Text) (p : Pending) (ps : List Pending)
    → p.deadline ≤ b
    → AllBy b ps
    → AllBy b (Table.update path_of k (λ x. record p { path = x.path }) ps)
unfolding AllBy Table.update
AllBy-update b k p [] le h = tt
AllBy-update b k p (x ∷ ps) le h = ground (arith, le, h, AllBy-update b k p ps le h.1)

pub AllBy-select :
    (b : ℕ) (r : Pending → Bool) (ps : List Pending) → AllBy b ps → AllBy b (select r ps)
unfolding AllBy select
AllBy-select b r [] h = tt
AllBy-select b r (p ∷ ps) h = ground (arith, h, AllBy-select b r ps h.1)

-- What is by now is ready.
pub select_nothing :
    (now : ℕ) (ps : List Pending) → AllBy now ps → select (λ p. not (is_ready now p)) ps ≡ []
unfolding AllBy select
select_nothing now [] h = refl
select_nothing now (p ∷ ps) h = ground (arith, h.0, select_nothing now ps h.1)

AllBy-assign :
    (b : ℕ) (p : Pending) (ps : List Pending) → p.deadline ≤ b → AllBy b ps → AllBy b (assign p ps)
AllBy-assign b p ps le h = elim (Bool-cases (Table.has path_of p.path ps)) [
  | inl there ↦ rw (there) (AllBy-update b p.path p ps le h)
  | inr absent ↦ rw (absent) (AllBy-append b p ps le h)
]

some_thread-append : (ns : List ℕ) (n : ℕ) → some_thread (ns ++ n ∷ []) ≡ true
some_thread-append [] n = refl
some_thread-append (m ∷ ns) n = refl

-- A handler that has just started the timer is timely if no deadline is later than it fires.
pub reschedule-IsTimely :
    (h : ShareHandler) → AllBy (h.clock + debounce_ms) h.pending → IsTimely (reschedule h)
reschedule-IsTimely h by = (by, (ground arith, by), ground arith)

debounce-IsTimely :
    (waited : ℕ) (n : Text × Change) (h : ShareHandler)
    → IsTimely h
    → IsTimely (debounce waited n.0 n.1 h)
unfolding debounce
debounce-IsTimely waited n h t =
    let p : Pending = record {
      path = n.0;
      change = n.1;
      deadline = (h.clock - waited) + debounce_ms;
    } in
    elim (Bool-cases (is_deleted (Table.find path_of n.0 h.pending))) [
      | inl deletion ↦ rw (deletion, debounce) t
      | inr other ↦
          rw (other, debounce)
            (reschedule-IsTimely (record h { pending = assign p h.pending })
              (AllBy-assign (h.clock + debounce_ms) p h.pending (ground arith) t.0))
    ]

ByTimer-select :
    (o : Option ℕ) (r : Pending → Bool) (clock : ℕ) (ps : List Pending)
    → ByTimer o clock ps
    → ByTimer o clock (select r ps)
ByTimer-select none r clock ps by = tt
ByTimer-select (some f) r clock ps by = (by.0, AllBy-select f r ps by.1)

-- A thread that leaves something behind is to start the timer again.
collected_is_attended :
    (rest : List Pending) (h : ShareHandler)
    → is_attended (record h {
      pending = rest;
      restarting = elim rest [ [] ↦ h.restarting | p ∷ ps ↦ suc h.restarting ];
    })
      ≡ true
collected_is_attended [] h = refl
collected_is_attended (p ∷ ps) h = ground arith

pub collect-IsTimely :
    (now : ℕ) (later : List ℕ) (h : ShareHandler)
    → IsTimely h
    → IsTimely (collect now (record h { flushing = later })).1
unfolding collect
collect-IsTimely now later h t =
    let late = λ (p : Pending). not (is_ready now p) in
    (
      AllBy-select (h.clock + debounce_ms) late h.pending t.0,
      ByTimer-select h.timer late h.clock h.pending t.1,
      collected_is_attended (select late h.pending) (record h { flushing = later }),
    )

-- A timer that has fired is a thread that waits for the lock.
fires-IsTimely : (f : ℕ) (h : ShareHandler) → IsTimely h → IsTimely (fires f h)
fires-IsTimely f h t = elim (Bool-cases (leb f h.clock)) [
  | inl due ↦ rw (due) ((t.0, tt, ground (arith, some_thread-append h.flushing h.clock)))
  | inr early ↦ rw (early) t
]

ByTimer-later :
    (o : Option ℕ) (n clock : ℕ) (ps : List Pending) → ByTimer o clock ps → ByTimer o (clock + n) ps
ByTimer-later none n clock ps by = tt
ByTimer-later (some f) n clock ps by = (omega (arith, by.0), by.1)

timer_fires-IsTimely :
    (o : Option ℕ) (h : ShareHandler)
    → IsTimely h
    → IsTimely
        (elim o as (λ _. List Entry × ShareHandler) [ none ↦ ([], h) | some f ↦ ([], fires f h) ]).1
timer_fires-IsTimely none h t = t
timer_fires-IsTimely (some f) h t = fires-IsTimely f h t

take_turn-IsTimely : (t : Turn) (h : ShareHandler) → IsTimely h → IsTimely (take_turn t h).1
unfolding take_turn collect
take_turn-IsTimely (time_passes n) h t = (
  AllBy-later (h.clock + debounce_ms) (h.clock + n + debounce_ms) h.pending (ground arith) t.0,
  ByTimer-later h.timer n h.clock h.pending t.1,
  t.2,
)
take_turn-IsTimely (notice waited n) h t = debounce-IsTimely waited n h t
take_turn-IsTimely timer_fires h t = timer_fires-IsTimely h.timer h t
take_turn-IsTimely flush_gets_lock h t =
    elim h.flushing
        as (λ threads.
          let e = record h { flushing = threads } in
          IsTimely e → IsTimely (take_turn flush_gets_lock e).1) [
            | [] ↦ λ s. s
            | now ∷ later ↦ λ s. collect-IsTimely now later (record h { flushing = now ∷ later }) s
          ]
      t
take_turn-IsTimely timer_restarts h t =
    elim h.restarting
        as (λ waiting.
          let e = record h { restarting = waiting } in
          IsTimely e → IsTimely (take_turn timer_restarts e).1) [
            | zero ↦ λ s. s
            | suc n ↦ λ s. reschedule-IsTimely (record h { restarting = n }) s.0
          ]
      t

pub run-IsTimely : (ts : List Turn) (h : ShareHandler) → IsTimely h → IsTimely (run ts h).1
unfolding run
run-IsTimely [] h t = t
run-IsTimely (s ∷ ts) h t = run-IsTimely ts (take_turn s h).1 (take_turn-IsTimely s h t)
