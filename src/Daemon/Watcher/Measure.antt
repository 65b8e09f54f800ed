-- ===== src/Daemon/Watcher/Measure.antt =====
-- How much the threads of daemon/daemon/watcher/fs.py have left to do: a measure that falls with each turn in
-- which one of them acts, once nothing is noticed.
use peerdup.Prelude.{
  ℕ, zero, suc, ◌+◌, ◌*◌, ◌≤◌, Bool, true, false, not, ◌≡◌, ap, inl, inr, Option, none, some, List,
  [], ◌∷◌, ◌++◌, if◌then◌else◌, leb, length, select, arith, text_eq, Bool-cases,
}
use peerdup.Daemon.Watcher.{
  debounce_ms, Pending, ShareHandler, is_ready, collect, Turn, notice, time_passes, timer_fires,
  flush_gets_lock, timer_restarts, take_turn,
}
use peerdup.Daemon.Watcher.Timely.{AllBy, AllBy-later, AllBy-select, select_nothing}

-- Nothing is noticed in the turns.
unfoldable pub is_quiet : List Turn → Bool
is_quiet [] = true
is_quiet (notice waited n ∷ ts) = false
is_quiet (time_passes n ∷ ts) = is_quiet ts
is_quiet (timer_fires ∷ ts) = is_quiet ts
is_quiet (flush_gets_lock ∷ ts) = is_quiet ts
is_quiet (timer_restarts ∷ ts) = is_quiet ts

-- The time that goes by.
unfoldable pub elapsed : List Turn → ℕ
elapsed [] = 0
elapsed (time_passes n ∷ ts) = n + elapsed ts
elapsed (notice waited n ∷ ts) = elapsed ts
elapsed (timer_fires ∷ ts) = elapsed ts
elapsed (flush_gets_lock ∷ ts) = elapsed ts
elapsed (timer_restarts ∷ ts) = elapsed ts

-- How many threads act: a timer that is due, a thread that has the lock, one that starts the timer again.
abbrev pub acting : Turn → ShareHandler → ℕ
acting (time_passes n) h = 0
acting (notice waited n) h = 0
acting timer_fires h = elim h.timer [ none ↦ 0 | some f ↦ if leb f h.clock then 1 else 0 ]
acting flush_gets_lock h = elim h.flushing [ [] ↦ 0 | now ∷ later ↦ 1 ]
acting timer_restarts h = elim h.restarting [ zero ↦ 0 | suc n ↦ 1 ]

unfoldable pub acts : List Turn → ShareHandler → ℕ
acts [] h = 0
acts (t ∷ ts) h = acting t h + acts ts (take_turn t h).1

-- A bound on the turns in which threads act.
abbrev pub work : ShareHandler → ℕ
work h = 4 * length h.flushing + (3 * h.restarting + 2)

-- The debounce time goes by, and each kind of thread has a turn.
abbrev pub round : List Turn
round = time_passes debounce_ms ∷ timer_fires ∷ flush_gets_lock ∷ timer_restarts ∷ []

-- What is left to do once every deadline is by `b`: a thread that read the clock before may start the timer
-- once more.
abbrev weight : ℕ → ℕ → ℕ
weight b now = if leb b now then 1 else 4

abbrev pub weights : ℕ → List ℕ → ℕ
weights b [] = 0
weights b (n ∷ ns) = weight b n + weights b ns

abbrev pub timer_work : Option ℕ → ℕ
timer_work none = 0
timer_work (some f) = 2

abbrev pub measure : ℕ → ShareHandler → ℕ
measure b h = weights b h.flushing + (3 * h.restarting + timer_work h.timer)

weights-append : (b n : ℕ) (ns : List ℕ) → weights b (ns ++ n ∷ []) ≡ weights b ns + weight b n
weights-append b n [] = omega arith
weights-append b n (m ∷ ns) = omega (arith, weights-append b n ns)

pub weights-length : (b : ℕ) (ns : List ℕ) → weights b ns ≤ 4 * length ns
weights-length b [] = omega arith
weights-length b (n ∷ ns) = ground (arith, weights-length b ns)

collect_few : (now : ℕ) (h : ShareHandler) → (collect now h).1.restarting ≤ suc h.restarting
unfolding collect
collect_few now h =
    elim (select (λ p. not (is_ready now p)) h.pending)
      as (λ (rest : List Pending).
        (elim rest as (λ _. ℕ) [ [] ↦ h.restarting | p ∷ ps ↦ suc h.restarting ])
        ≤ suc h.restarting) [ [] ↦ omega arith | p ∷ ps ↦ omega arith ]

collect_all :
    (now : ℕ) (h : ShareHandler) → AllBy now h.pending → (collect now h).1.restarting ≡ h.restarting
unfolding collect
collect_all now h by =
    ap
      (λ (rest : List Pending). elim rest as (λ _. ℕ) [
        | [] ↦ h.restarting
        | p ∷ ps ↦ suc h.restarting
      ])
      (select_nothing now h.pending by)

-- A quiet turn keeps every deadline by `b`, moves the clock on by the time that goes by, and once the clock
-- has reached `b` takes from the measure what acts.
abbrev pub Steps : ℕ → Turn → ShareHandler → Type 0
Steps b t h =
    let e = (take_turn t h).1 in
    AllBy b e.pending
    × (e.clock ≡ h.clock + elapsed (t ∷ []))
    × ((b ≤ h.clock) → acting t h + measure b e ≤ measure b h)

fires-Steps :
    (b : ℕ) (o : Option ℕ) (h : ShareHandler)
    → AllBy b h.pending
    → Steps b timer_fires (record h { timer = o })
unfolding take_turn elapsed
fires-Steps b none h by = (by, ground arith, λ le. omega arith)
fires-Steps b (some f) h by = elim (Bool-cases (leb f h.clock)) [
  | inl due ↦
      rw (due) ((by, ground arith, λ le. ground (arith, le, weights-append b h.clock h.flushing)))
  | inr early ↦ rw (early) ((by, ground arith, λ le. ground arith))
]

flush-Steps :
    (b : ℕ) (threads : List ℕ) (h : ShareHandler)
    → AllBy b h.pending
    → Steps b flush_gets_lock (record h { flushing = threads })
unfolding take_turn elapsed collect
flush-Steps b [] h by = (by, ground arith, λ le. omega arith)
flush-Steps b (now ∷ later) h by =
    let few = collect_few now (record h { flushing = later }) in
    (
      AllBy-select b (λ p. not (is_ready now p)) h.pending by,
      ground arith,
      λ le. elim (Bool-cases (leb b now)) [
        | inl late ↦
            let all =
              collect_all now (record h { flushing = later })
                (AllBy-later b now h.pending (ground arith) by) in
            rw (late) (omega (arith, all))
        | inr stale ↦ rw (stale) (omega (arith, few))
      ],
    )

restarts-Steps :
    (b n : ℕ) (h : ShareHandler)
    → AllBy b h.pending
    → Steps b timer_restarts (record h { restarting = n })
unfolding take_turn elapsed
restarts-Steps b zero h by = (by, ground arith, λ le. omega arith)
restarts-Steps b (suc n) h by = (
  by,
  ground arith,
  λ le.
      elim h.timer
        as (λ o.
          1 + (weights b h.flushing + (3 * n + 2))
          ≤ weights b h.flushing + (3 * suc n + timer_work o)) [
            | none ↦ omega arith
            | some f ↦ omega arith
          ],
)

pub take_turn-Steps :
    (b : ℕ) (t : Turn) (h : ShareHandler)
    → is_quiet (t ∷ []) ≡ true
    → AllBy b h.pending
    → Steps b t h
unfolding take_turn elapsed is_quiet
take_turn-Steps b (time_passes n) h q by = (by, omega arith, λ le. omega arith)
take_turn-Steps b (notice waited n) h q by = absurd (ground (arith, q))
take_turn-Steps b timer_fires h q by = fires-Steps b h.timer h by
take_turn-Steps b flush_gets_lock h q by = flush-Steps b h.flushing h by
take_turn-Steps b timer_restarts h q by = restarts-Steps b h.restarting h by
