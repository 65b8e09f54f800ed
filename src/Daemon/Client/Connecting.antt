-- ===== src/Daemon/Client/Connecting.antt =====
-- `_registry_connect_loop` of daemon/daemon/sync/coordinator.py: the daemon registers, waiting longer after
-- each attempt that fails, and then activates its shares.
use peerdup.Prelude.{
  ℕ, zero, suc, ◌+◌, ◌^◌, ◌<◌, min, Bool, true, false, ◌≡◌, refl, sym, ap, ◌∙◌, Option, none, some,
  List, [], ◌∷◌, select, if◌then◌else◌, arith,
}
use peerdup.Daemon.State.{LocalShare, paused}
use peerdup.Daemon.World.{World, Daemon}
use peerdup.Daemon.Coordinator.{activation, activate_share}
use peerdup.Daemon.Raising.{Watches, Walks, activation_returns}
use peerdup.Daemon.Coordinator.Loops.{next_backoff, resume_shares}

-- A wait comes before the waits of the attempts that follow.
abbrev after_wait : ℕ → Option (List ℕ × Daemon) → Option (List ℕ × Daemon)
after_wait wait none = none
after_wait wait (some (waits, d)) = some (wait ∷ waits, d)

module _ (w : World) where
  abbrev activated : Daemon → Daemon
  activated d = resume_shares w d.db.shares d

  -- The attempts, with the waits between them in seconds; none if the fuel does not suffice.
  unfoldable pub attempts : ℕ → ℕ → Daemon → Option (List ℕ × Daemon)
  attempts zero backoff d = none
  attempts (suc fuel) backoff d =
      let e = record d { reads = suc d.reads } in
      let later = attempts fuel (next_backoff backoff) e in
      if w.registry_accepts d.reads then some ([], activated e) else after_wait backoff later

  unfoldable pub registry_connect_loop : Bool → ℕ → Daemon → Option (List ℕ × Daemon)
  unfolding attempts
  registry_connect_loop configured fuel d =
      if configured then attempts fuel 1 d else some ([], activated d)

-- The waits of `n` attempts that fail from the `i`th on.
unfoldable pub planned : ℕ → ℕ → List ℕ
planned i zero = []
planned i (suc n) = min (2 ^ i) 60 ∷ planned (suc i) n

-- A share that the user has not paused.
abbrev pub is_running : LocalShare → Bool
is_running s = elim s.state [ paused ↦ false | _ ↦ true ]

-- The shares are activated one after the other.
unfoldable pub activate_all : World → List LocalShare → Daemon → Daemon
activate_all w [] d = d
activate_all w (s ∷ ss) d = activate_all w ss (activate_share w s.share_id s.local_path d)

double : (i : ℕ) → next_backoff (min (2 ^ i) 60) ≡ min (2 ^ (suc i)) 60
double i = omega arith

module _ (w : World) where
  attempts-planned :
      (i n fuel : ℕ) (d : Daemon)
      → n < fuel
      → ((k : ℕ) → k < n → w.registry_accepts (d.reads + k) ≡ false)
      → w.registry_accepts (d.reads + n) ≡ true
      → attempts w fuel (min (2 ^ i) 60) d
        ≡ some (planned i n, activated w (record d { reads = suc (d.reads + n) }))
  unfolding attempts planned
  attempts-planned i n zero d less fails ok = absurd (omega (arith, less))
  attempts-planned i zero (suc fuel) d less fails ok =
      let here : d.reads + 0 ≡ d.reads = omega arith in
      let accepted : w.registry_accepts d.reads ≡ true = sym (ap w.registry_accepts here) ∙ ok in
      rw (accepted, here) refl
  attempts-planned i (suc n) (suc fuel) d less fails ok =
      let e = record d { reads = suc d.reads } in
      let here : d.reads + 0 ≡ d.reads = omega arith in
      let next : (k : ℕ) → suc d.reads + k ≡ d.reads + suc k = λ k. omega arith in
      let refused : w.registry_accepts d.reads ≡ false =
        sym (ap w.registry_accepts here) ∙ fails 0 (omega arith) in
      let later =
        attempts-planned (suc i) n fuel e (omega (arith, less))
          (λ k h. ap w.registry_accepts (next k) ∙ fails (suc k) (omega (arith, h)))
          (ap w.registry_accepts (next n) ∙ ok) in
      rw (refused, double i, later)
        (ap (λ r. some (planned i (suc n), activated w (record d { reads = suc r }))) (next n))

  resume_shares-activate_all :
      (watched : Watches w) (walked : Walks w) (ss : List LocalShare) (d : Daemon)
      → resume_shares w ss d ≡ activate_all w (select is_running ss) d
  unfolding select activate_all
  resume_shares-activate_all watched walked [] d = refl
  resume_shares-activate_all watched walked (s ∷ ss) d =
      let r = activation w s.share_id s.local_path d in
      ground (
        arith,
        activation_returns w watched walked s.share_id s.local_path d,
        resume_shares-activate_all watched walked ss d,
        resume_shares-activate_all watched walked ss r.1,
      )

  -- When the registry refuses `n` attempts and takes the next one, and every directory can be watched and
  -- walked through, the loop ends, with fuel for more than `n` attempts: it has waited 1, 2, 4 ... but never
  -- more than 60 seconds between the attempts, and then has activated the shares whose state is not
  -- `paused`, one after the other, and no other.
  pub connects :
      (n fuel : ℕ) (d : Daemon)
      → n < fuel
      → ((k : ℕ) → k < n → w.registry_accepts (d.reads + k) ≡ false)
      → w.registry_accepts (d.reads + n) ≡ true
      → Watches w
      → Walks w
      → registry_connect_loop w true fuel d
        ≡ some (
          planned 0 n,
          activate_all w (select is_running d.db.shares) (record d { reads = suc (d.reads + n) }),
        )
  unfolding registry_connect_loop
  connects n fuel d less fails ok watched walked =
      let e = record d { reads = suc (d.reads + n) } in
      attempts-planned 0 n fuel d less fails ok
      ∙ ap (λ f. some (planned 0 n, f)) (resume_shares-activate_all watched walked d.db.shares e)
