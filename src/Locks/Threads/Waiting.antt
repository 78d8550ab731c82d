-- ===== src/Locks/Threads/Waiting.antt =====
-- No deadlock: what a thread waits for.
use libfatbat.Prelude.{
  ℕ, true, false, ◌==◌, Option, none, some, ◌≡◌, ◌≢◌, refl, sym, ap, ◌∙◌, Bool-cases, inl, inr,
  arith,
}
use libfatbat.Locks.{LockConfig, no_mutex, owned, not_owned, bypass_rx_lock, get_rx_lock}
use libfatbat.Locks.Threads.{
  Phase, before_tx, reading_tx, before_rx, reading_rx, Threads, enter_tx, leave_tx, enter_rx,
  leave_rx, step, Reachable, is_free, set_phase,
}
use libfatbat.Locks.Threads.Exclusion.{Reachable-Kept, holds_rx, none-some}
use libfatbat.Locks.Threads.Guard.{is_holder}

-- A thread that cannot go on is before the receive queue.
blocked-before_rx :
    (cfg : LockConfig) (t : ℕ) (s : Threads) → step cfg t s ≡ none → s.phase t ≡ before_rx
unfolding step
blocked-before_rx cfg t s r = by_phase (s.phase t) refl
  where
    by_phase : (p : Phase) → s.phase t ≡ p → s.phase t ≡ before_rx
    by_phase before_tx h =
        let ran : step cfg t s ≡ some (enter_tx cfg t s) = rw (h, step) refl in
        absurd (none-some _ (sym r ∙ ran))
    by_phase (reading_tx lock) h =
        let ran : step cfg t s ≡ some (leave_tx lock t s) = rw (h, step) refl in
        absurd (none-some _ (sym r ∙ ran))
    by_phase before_rx h = h
    by_phase (reading_rx lock) h =
        let ran : step cfg t s ≡ some (leave_rx lock t s) = rw (h, step) refl in
        absurd (none-some _ (sym r ∙ ran))

step-before_rx :
    (cfg : LockConfig) (t : ℕ) (s : Threads)
    → s.phase t ≡ before_rx
    → step cfg t s ≡ enter_rx cfg t s
unfolding step
step-before_rx cfg t s h = rw (h, step) refl

-- There it waits for a mutex that another thread has.
enter_rx-none :
    (cfg : LockConfig) (t : ℕ) (s : Threads)
    → enter_rx cfg t s ≡ none
    → (bypass_rx_lock cfg ≡ false) × ((u : ℕ) × (s.recv_mutex ≡ some u))
unfolding enter_rx get_rx_lock
enter_rx-none cfg t s r = elim (Bool-cases (bypass_rx_lock cfg)) [
  | inl e ↦
      let ran : enter_rx cfg t s
          ≡ some (record s { phase = set_phase t (reading_rx no_mutex) s.phase }) =
        rw e refl in
      absurd (none-some _ (sym r ∙ ran))
  | inr e ↦ (e, by_mutex e s.recv_mutex refl)
]
  where
    by_mutex :
        bypass_rx_lock cfg ≡ false
        → (m : Option ℕ) → s.recv_mutex ≡ m
        → (u : ℕ) × (s.recv_mutex ≡ some u)
    by_mutex e (some u) h = (u, h)
    by_mutex e none h =
        let free : is_free s.recv_mutex ≡ true = ap is_free h in
        let ran : enter_rx cfg t s
            ≡ some
                (record s { recv_mutex = some t; phase = set_phase t (reading_rx owned) s.phase }) =
          rw (e, free) refl in
        absurd (none-some _ (sym r ∙ ran))

holding-phase : (p : Phase) → holds_rx p ≡ true → p ≡ reading_rx owned
holding-phase (reading_rx owned) h = refl
holding-phase (reading_rx no_mutex) h = absurd (cc)
holding-phase (reading_rx not_owned) h = absurd (cc)
holding-phase (reading_tx lock) h = absurd (cc)
holding-phase before_tx h = absurd (cc)
holding-phase before_rx h = absurd (cc)

in_turn : reading_rx owned ≡ before_rx → ⊥
in_turn h = grind arith

-- There is no deadlock. In whatever order the threads have gone, a thread that cannot go on waits
-- before the receive queue for the mutex of another thread, which can go on: it reads that queue,
-- and after its next step the waiting thread can go on too.
pub step-waits :
    (cfg : LockConfig) (s : Threads) (t : ℕ)
    → Reachable cfg s
    → step cfg t s ≡ none
    → (u : ℕ) × (s1 s2 : Threads) × (u ≢ t)
      × (s.recv_mutex ≡ some u)
      × (s.phase u ≡ reading_rx owned)
      × (step cfg u s ≡ some s1)
      × (step cfg t s1 ≡ some s2)
unfolding step leave_rx enter_rx get_rx_lock
step-waits cfg s t r stuck =
    let k = Reachable-Kept cfg s r in
    let here = blocked-before_rx cfg t s stuck in
    let (locks, (u, mutex)) = enter_rx-none cfg t s (sym (step-before_rx cfg t s here) ∙ stuck) in
    let holds : holds_rx (s.phase u) ≡ true =
      k.rx.held u ∙ (ap (λ m. is_holder m u) mutex ∙ ground arith) in
    let there = holding-phase (s.phase u) holds in
    let s1 : Threads = leave_rx owned u s in
    let other : u ≢ t = λ e. in_turn (sym there ∙ (ap s.phase e ∙ here)) in
    let apart : (t == u) ≡ false = ground arith in
    let still : s1.phase t ≡ before_rx = rw apart here in
    let s2 : Threads = record s1 {
      recv_mutex = some t;
      phase = set_phase t (reading_rx owned) s1.phase;
    } in
    let goes : enter_rx cfg t s1 ≡ some s2 = rw locks refl in
    (u, s1, s2, other, mutex, there, rw (there, step) refl, step-before_rx cfg t s1 still ∙ goes)
