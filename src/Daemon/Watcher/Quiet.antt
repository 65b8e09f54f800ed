-- ===== src/Daemon/Watcher/Quiet.antt =====
-- What becomes of the changes that wait in daemon/daemon/watcher/fs.py once nothing more is noticed, in
-- whatever order the threads have their turns.
use peerdup.Prelude.{
  ℕ, zero, suc, ◌+◌, ◌*◌, ◌≤◌, Text, true, ◌⊎◌, ◌≡◌, refl, ap, ◌∙◌, inl, inr, Option, none, some,
  List, [], ◌∷◌, ◌++◌, leb, length, arith, text_eq,
}
use peerdup.Prelude.Table
use peerdup.Prelude.Table.{is_some}
use peerdup.Daemon.Watcher.{
  debounce_ms, Pending, ShareHandler, fresh, Turn, notice, time_passes, timer_fires,
  flush_gets_lock, timer_restarts, take_turn, run,
}
use peerdup.Daemon.Watcher.Summary.{left, view}
use peerdup.Daemon.Watcher.Reports.{run-Refines}
use peerdup.Daemon.Watcher.Timely.{AllBy, IsTimely, is_empty, run-IsTimely}
use peerdup.Daemon.Watcher.Measure.{
  is_quiet, elapsed, acts, work, round, measure, weights, timer_work, weights-length,
  take_turn-Steps,
}

is_quiet-first :
    (t : Turn) (ts : List Turn)
    → is_quiet (t ∷ ts) ≡ true
    → (is_quiet (t ∷ []) ≡ true) × (is_quiet ts ≡ true)
unfolding is_quiet
is_quiet-first (time_passes n) ts q = (refl, q)
is_quiet-first (notice waited n) ts q = absurd (ground (arith, q))
is_quiet-first timer_fires ts q = (refl, q)
is_quiet-first flush_gets_lock ts q = (refl, q)
is_quiet-first timer_restarts ts q = (refl, q)

elapsed-first : (t : Turn) (ts : List Turn) → elapsed (t ∷ ts) ≡ elapsed (t ∷ []) + elapsed ts
unfolding elapsed
elapsed-first (time_passes n) ts = omega arith
elapsed-first (notice waited n) ts = omega arith
elapsed-first timer_fires ts = omega arith
elapsed-first flush_gets_lock ts = omega arith
elapsed-first timer_restarts ts = omega arith

-- Quiet turns keep every deadline by `b` and move the clock on.
run-AllBy :
    (b : ℕ) (ts : List Turn) (h : ShareHandler)
    → is_quiet ts ≡ true
    → AllBy b h.pending
    → AllBy b (run ts h).1.pending × ((run ts h).1.clock ≡ h.clock + elapsed ts)
unfolding run elapsed
run-AllBy b [] h q by = (by, omega arith)
run-AllBy b (t ∷ ts) h q by =
    let (first, rest) = is_quiet-first t ts q in
    let s = take_turn-Steps b t h first by in
    let (last, clock) = run-AllBy b ts (take_turn t h).1 rest s.0 in
    (last, omega (arith, clock, s.1, elapsed-first t ts))

-- Once the clock has reached `b`, the threads act no more often than the measure says.
acts_few :
    (b : ℕ) (ts : List Turn) (h : ShareHandler)
    → is_quiet ts ≡ true
    → AllBy b h.pending
    → b ≤ h.clock
    → acts ts h ≤ measure b h
unfolding acts
acts_few b [] h q by le = omega arith
acts_few b (t ∷ ts) h q by le =
    let (first, rest) = is_quiet-first t ts q in
    let s = take_turn-Steps b t h first by in
    let later = acts_few b ts (take_turn t h).1 rest s.0 (omega (arith, le, s.1)) in
    omega (arith, later, s.2 le)

measure-work : (b : ℕ) (h : ShareHandler) → measure b h ≤ work h
measure-work b h =
    elim h.timer
      as (λ o.
        weights b h.flushing + (3 * h.restarting + timer_work o)
        ≤ 4 * length h.flushing + (3 * h.restarting + 2)) [
          | none ↦ omega (arith, weights-length b h.flushing)
          | some f ↦ omega (arith, weights-length b h.flushing)
        ]

nothing_waits : (ps : List Pending) → is_empty ps ≡ true → ps ≡ []
nothing_waits [] e = refl
nothing_waits (p ∷ ps) e = absurd (ground (arith, e))

-- Where something waits, some thread acts within the round.
waiting_acts :
    (o : Option ℕ) (threads : List ℕ) (n : ℕ) (h : ShareHandler)
    → let e = record h { timer = o; flushing = threads; restarting = n } in
      IsTimely e → (e.pending ≡ []) ⊎ (1 ≤ acts round e)
unfolding acts take_turn
waiting_acts (some f) threads n h t =
    let due : leb f (h.clock + debounce_ms) ≡ true = ground (arith, t.1.0) in
    inr (rw (due) (omega arith))
waiting_acts none (now ∷ later) n h t = inr (omega arith)
waiting_acts none [] (suc n) h t = inr (omega arith)
waiting_acts none [] zero h t = inl (nothing_waits h.pending (ground (arith, t.2)))

run-append : (ts us : List Turn) (h : ShareHandler) → (run (ts ++ us) h).1 ≡ (run us (run ts h).1).1
unfolding run
run-append [] us h = refl
run-append (t ∷ ts) us h = run-append ts us (take_turn t h).1

-- After any steps of the threads, once nothing has been noticed while the debounce time went by, and as long
-- as nothing more is noticed, the threads act in no more of the further turns than `work` says, in whatever
-- order they have them; and at each moment either nothing waits and of no path has anything been noticed
-- since it was reported, or some thread acts when the debounce time goes by again and each kind of
-- thread has a turn.
pub calm-Reports :
    (ts us vs : List Turn)
    → is_quiet us ≡ true
    → debounce_ms ≤ elapsed us
    → is_quiet vs ≡ true
    → let e = (run us (run ts fresh).1).1 in
      let all = run (ts ++ us ++ vs) fresh in
      (acts vs e ≤ work e)
      × (((all.1.pending ≡ []) × ((q : Text) → left q none all.0 ≡ none)) ⊎ (1 ≤ acts round all.1))
unfolding AllBy Table.find
calm-Reports ts us vs quiet long still =
    let h = (run ts fresh).1 in
    let b = h.clock + debounce_ms in
    let e = (run us h).1 in
    let g = (run (ts ++ us ++ vs) fresh).1 in
    let timely = run-IsTimely ts fresh (tt, tt, refl) in
    let (by, clock) = run-AllBy b us h quiet timely.0 in
    let few = acts_few b vs e still by (omega (arith, clock, long)) in
    let g_timely = run-IsTimely (ts ++ us ++ vs) fresh (tt, tt, refl) in
    (
      omega (arith, few, measure-work b e),
      elim (waiting_acts g.timer g.flushing g.restarting g g_timely) [
        | inl empty ↦ inl (empty, λ q. (run-Refines q (ts ++ us ++ vs)).1 ∙ ap (view q) empty)
        | inr more ↦ inr more
      ],
    )
