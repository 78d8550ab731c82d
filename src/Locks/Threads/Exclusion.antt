-- ===== src/Locks/Threads/Exclusion.antt =====
-- Mutual exclusion on the completion queues.
use libfatbat.Prelude.{
  ℕ, Bool, true, false, not, ◌&&◌, ◌||◌, Option, none, some, ◌≡◌, ◌≢◌, refl, sym, subst, ap, ◌∙◌,
  Bool-cases, inl, inr, arith,
}
use libfatbat.Locks.{
  LockConfig, UniqueLock, no_mutex, owned, owns_lock, bypass_tx_lock, bypass_rx_lock, try_tx_lock,
  get_rx_lock,
}
use libfatbat.Locks.Threads.{
  Phase, before_tx, reading_tx, before_rx, reading_rx, Threads, enter_tx, leave_tx, enter_rx,
  leave_rx, step, Reachable, start, next, reads_tx, reads_rx, set_phase, is_free,
}
use libfatbat.Locks.Threads.Guard.{Guarded, moves, takes, releases, exclusive}

abbrev pub holds_tx : Phase → Bool
holds_tx (reading_tx lock) = owns_lock lock
holds_tx _ = false

abbrev pub holds_rx : Phase → Bool
holds_rx (reading_rx lock) = owns_lock lock
holds_rx _ = false

-- The two mutexes.
pub record Kept (cfg : LockConfig) (s : Threads) : Type 0 where
  pub tx : Guarded (bypass_tx_lock cfg) holds_tx reads_tx s.send_mutex s.phase
  pub rx : Guarded (bypass_rx_lock cfg) holds_rx reads_rx s.recv_mutex s.phase

some-injective : (a b : Threads) → some a ≡ some b → a ≡ b
some-injective a b h = cc

pub none-some : {A : Type 0} (a : A) → none ≡ some a → ⊥
none-some a h = grind arith

is_free-none : (m : Option ℕ) → is_free m ≡ true → m ≡ none
is_free-none none h = refl
is_free-none (some v) h = absurd (cc)

module _ (cfg : LockConfig) (t : ℕ) (s : Threads) (k : Kept cfg s) where
  enter_tx-Kept : s.phase t ≡ before_tx → Kept cfg (enter_tx cfg t s)
  unfolding enter_tx try_tx_lock
  enter_tx-Kept h =
      let no_tx : holds_tx (s.phase t) ≡ false = ap holds_tx h in
      let no_rx : holds_rx (s.phase t) ≡ false = ap holds_rx h in
      elim (Bool-cases (bypass_tx_lock cfg)) [
        | inl e ↦ rw e (record {
          tx = moves _ _ _ _ _ k.tx t (reading_tx no_mutex) no_tx refl (rw e refl);
          rx = moves _ _ _ _ _ k.rx t (reading_tx no_mutex) no_rx refl (ground arith);
        })
        | inr e ↦ elim (Bool-cases (is_free s.send_mutex)) [
          | inl free ↦
              rw (e, free)
                (record {
                  tx = takes _ _ _ _ _ k.tx t (reading_tx owned) (is_free-none _ free) refl;
                  rx = moves _ _ _ _ _ k.rx t (reading_tx owned) no_rx refl (ground arith);
                })
          | inr taken ↦
              rw (e, taken)
                (record {
                  tx = moves _ _ _ _ _ k.tx t before_rx no_tx refl (ground arith);
                  rx = moves _ _ _ _ _ k.rx t before_rx no_rx refl (ground arith);
                })
        ]
      ]

  leave_tx-Kept : (lock : UniqueLock) → s.phase t ≡ reading_tx lock → Kept cfg (leave_tx lock t s)
  unfolding leave_tx
  leave_tx-Kept lock h =
      let tx : holds_tx (s.phase t) ≡ owns_lock lock = ap holds_tx h in
      let no_rx : holds_rx (s.phase t) ≡ false = ap holds_rx h in
      elim (Bool-cases (owns_lock lock)) [
        | inl e ↦ rw e (record {
          tx = releases _ _ _ _ _ k.tx t before_rx (tx ∙ e) refl refl;
          rx = moves _ _ _ _ _ k.rx t before_rx no_rx refl (ground arith);
        })
        | inr e ↦ rw e (record {
          tx = moves _ _ _ _ _ k.tx t before_rx (tx ∙ e) refl (ground arith);
          rx = moves _ _ _ _ _ k.rx t before_rx no_rx refl (ground arith);
        })
      ]

  leave_rx-Kept : (lock : UniqueLock) → s.phase t ≡ reading_rx lock → Kept cfg (leave_rx lock t s)
  unfolding leave_rx
  leave_rx-Kept lock h =
      let rx : holds_rx (s.phase t) ≡ owns_lock lock = ap holds_rx h in
      let no_tx : holds_tx (s.phase t) ≡ false = ap holds_tx h in
      elim (Bool-cases (owns_lock lock)) [
        | inl e ↦ rw e (record {
          tx = moves _ _ _ _ _ k.tx t before_tx no_tx refl (ground arith);
          rx = releases _ _ _ _ _ k.rx t before_tx (rx ∙ e) refl refl;
        })
        | inr e ↦ rw e (record {
          tx = moves _ _ _ _ _ k.tx t before_tx no_tx refl (ground arith);
          rx = moves _ _ _ _ _ k.rx t before_tx (rx ∙ e) refl (ground arith);
        })
      ]

  enter_rx-Kept : (s' : Threads) → s.phase t ≡ before_rx → enter_rx cfg t s ≡ some s' → Kept cfg s'
  unfolding enter_rx get_rx_lock
  enter_rx-Kept s' h r =
      let no_tx : holds_tx (s.phase t) ≡ false = ap holds_tx h in
      let no_rx : holds_rx (s.phase t) ≡ false = ap holds_rx h in
      elim (Bool-cases (bypass_rx_lock cfg)) [
        | inl e ↦
            let s1 : Threads = record s { phase = set_phase t (reading_rx no_mutex) s.phase } in
            let ran : enter_rx cfg t s ≡ some s1 = rw e refl in
            subst (Kept cfg) (some-injective s1 s' (sym ran ∙ r)) (record {
              tx = moves _ _ _ _ _ k.tx t (reading_rx no_mutex) no_tx refl (ground arith);
              rx = moves _ _ _ _ _ k.rx t (reading_rx no_mutex) no_rx refl (rw e refl);
            })
        | inr e ↦ elim (Bool-cases (is_free s.recv_mutex)) [
          | inl free ↦
              let s1 : Threads = record s {
                recv_mutex = some t;
                phase = set_phase t (reading_rx owned) s.phase;
              } in
              let ran : enter_rx cfg t s ≡ some s1 = rw (e, free) refl in
              subst (Kept cfg) (some-injective s1 s' (sym ran ∙ r)) (record {
                tx = moves _ _ _ _ _ k.tx t (reading_rx owned) no_tx refl (ground arith);
                rx = takes _ _ _ _ _ k.rx t (reading_rx owned) (is_free-none _ free) refl;
              })
          | inr taken ↦
              let blocked : enter_rx cfg t s ≡ none = rw (e, taken) refl in
              absurd (none-some s' (sym blocked ∙ r))
        ]
      ]

  step-Kept : (s' : Threads) → step cfg t s ≡ some s' → Kept cfg s'
  unfolding step
  step-Kept s' r = by_phase (s.phase t) refl
    where
      by_phase : (p : Phase) → s.phase t ≡ p → Kept cfg s'
      by_phase before_tx h =
          let ran : step cfg t s ≡ some (enter_tx cfg t s) = rw (h, step) refl in
          subst (Kept cfg) (some-injective _ s' (sym ran ∙ r)) (enter_tx-Kept h)
      by_phase (reading_tx lock) h =
          let ran : step cfg t s ≡ some (leave_tx lock t s) = rw (h, step) refl in
          subst (Kept cfg) (some-injective _ s' (sym ran ∙ r)) (leave_tx-Kept lock h)
      by_phase before_rx h =
          let ran : step cfg t s ≡ enter_rx cfg t s = rw (h, step) refl in
          enter_rx-Kept s' h (sym ran ∙ r)
      by_phase (reading_rx lock) h =
          let ran : step cfg t s ≡ some (leave_rx lock t s) = rw (h, step) refl in
          subst (Kept cfg) (some-injective _ s' (sym ran ∙ r)) (leave_rx-Kept lock h)

pub Reachable-Kept : (cfg : LockConfig) (s : Threads) → Reachable cfg s → Kept cfg s
Reachable-Kept cfg _ start = record {
  tx = record { held = λ t. refl; locked = λ t. ground arith };
  rx = record { held = λ t. refl; locked = λ t. ground arith };
}
Reachable-Kept cfg _ (next s s' t before r) = step-Kept cfg t s (Reachable-Kept cfg s before) s' r

-- In whatever order the threads go, no two of them read the send queue at once, and no two the
-- receive queue, unless the lock of that queue is bypassed.
pub Reachable-exclusive :
    (cfg : LockConfig) (s : Threads) (t u : ℕ)
    → Reachable cfg s
    → t ≢ u
    → ((bypass_tx_lock cfg || not (reads_tx (s.phase t) && reads_tx (s.phase u))) ≡ true)
      × ((bypass_rx_lock cfg || not (reads_rx (s.phase t) && reads_rx (s.phase u))) ≡ true)
Reachable-exclusive cfg s t u r apart =
    let k = Reachable-Kept cfg s r in
    (exclusive _ _ _ _ _ k.tx t u apart, exclusive _ _ _ _ _ k.rx t u apart)
