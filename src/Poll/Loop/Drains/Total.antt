-- ===== src/Poll/Loop/Drains/Total.antt =====
-- Whether `poll_for_work_completions` ends, by the poll size.
use libfatbat.Prelude.{
  ℕ, ◌+◌, ◌≤◌, ◌<◌, ◌≡◌, sym, ap, ◌∙◌, inl, inr, ◌⊎◌, ◌==◌, Bool-cases, Bool, true, false, none,
  some, ℤ, pos, negsuc, to_u32, arith,
}
use libfatbat.Fabric.{failed}
use libfatbat.Outcome.{Outcome, returns}
use libfatbat.Outcome.Laws.{returns-injective, ending}
use libfatbat.Locks.{bypass_tx_lock}
use libfatbat.Poll.{Env, State, Settings, asserts, tx_busy}
use libfatbat.Poll.Send.{send_result, poll_send_queue_default}
use libfatbat.Poll.Recv.{recv_result, poll_recv_queue_default}
use libfatbat.Poll.Counting.{poll_send_busy}
use libfatbat.Poll.Counting.Received.{lock_test as recv_lock_test}
use libfatbat.Poll.Loop.{
  ProgressStatus, no_progress, poll_loop, poll_for_work_completions, same_queue, same_queue,
}
use libfatbat.Poll.Loop.Ends.{Takes, Idle, poll_loop_total, poll_loop_zero_size}
use libfatbat.Poll.Loop.Drains.{Drains}
use libfatbat.Poll.Loop.Drains.Sends.{poll_send_bound}
use libfatbat.Poll.Loop.Drains.Recvs.{poll_recv_bound}

-- A report of `m` at the size `max` leaves less than there was.
report_shrinks :
    (m max : ℕ) (n : ℤ) {a b : ℕ}
    → n ≡ pos m
    → 1 ≤ max
    → max ≤ 256
    → m ≤ max
    → m + b ≤ a
    → (b ≤ a) × (to_u32 n ≡ max → b < a)
report_shrinks m max n e lo hi le h = (omega arith, λ f. omega (arith, sym (ap to_u32 e) ∙ f))

-- The report of a poll that did not get the lock asks for no other round.
busy_shrinks :
    (max : ℕ) (n : ℤ) {a b : ℕ}
    → max ≤ 256
    → n ≡ negsuc 0
    → b ≡ a
    → (b ≤ a) × (to_u32 n ≡ max → b < a)
busy_shrinks max n hi e same = (omega arith, λ f. absurd (omega (arith, sym (ap to_u32 e) ∙ f)))

pub no_assert : (cfg : Settings) → cfg.max_completions_per_poll ≤ 256 → asserts cfg ≡ false
no_assert cfg hi = ground arith

module _ {W : Type 0} (env : Env W) (user_data : ℕ) (cfg : Settings) (backlog : W → ℕ)
    (d : Drains env backlog) (lo : 1 ≤ cfg.max_completions_per_poll)
    (hi : cfg.max_completions_per_poll ≤ 256) where
  poll_send-Takes :
      (tx_free : W → Bool) (tx_cq : ℕ)
      → Takes
          (λ (t : State W). poll_send_queue_default env user_data cfg tx_cq (tx_free t.world) t)
          cfg.max_completions_per_poll
          (λ (t : State W). backlog t.world)
  poll_send-Takes tx_free tx_cq = record {
    shrinks = λ s n s' e. elim (Bool-cases (tx_busy cfg (tx_free s.world))) [
      | inl b ↦
          let busy =
            poll_send_busy env user_data cfg tx_cq (tx_free s.world) s (no_assert cfg hi) b in
          let same = returns-injective (sym e ∙ busy) in
          busy_shrinks cfg.max_completions_per_poll n hi (ap (λ (r : ℤ × State W). r.0) same)
            (ap (λ (r : ℤ × State W). backlog r.1.world) same)
      | inr b ↦
          let (m, em, le, h) =
            (poll_send_bound env user_data cfg backlog d tx_cq _ s b).holds (n, s') e in
          report_shrinks m cfg.max_completions_per_poll n em lo hi le h
    ];
  }

  poll_recv-Takes :
      (rx_cq : ℕ)
      → Takes
          (λ (t : State W). poll_recv_queue_default env user_data cfg rx_cq t)
          cfg.max_completions_per_poll
          (λ (t : State W). backlog t.world)
  poll_recv-Takes rx_cq = record {
    shrinks = λ s n s' e.
        let (m, em, le, h) =
          (poll_recv_bound env user_data cfg backlog d rx_cq s).holds (n, s') e in
        report_shrinks m cfg.max_completions_per_poll n em lo hi le h;
  }

  -- The loop ends. With a poll size from 1 to 256, and an environment with a finite backlog that
  -- reading takes from, and for a thread that gets the same endpoints in each round, the loop ends
  -- within as many rounds as there are entries in the backlog, and one more, whether or not other
  -- threads hold the send lock. It returns, or it ends as a poll of the send queue or of the receive
  -- queue ends that does not return.
  pub poll_for_work_completions_total :
      (tx_free : W → Bool) (tx_cq rx_cq rounds : ℕ) (s : State W)
      → backlog s.world < rounds
      → (o : Outcome (ProgressStatus × State W)) × (poll_for_work_completions env cfg tx_free
            (same_queue tx_cq)
            (same_queue rx_cq)
            user_data
            rounds
            s
          ≡ some o)
        × ((ending o ≡ returns tt)
            ⊎ ((t : State W) × ((ending
                      (poll_send_queue_default env user_data cfg tx_cq (tx_free t.world) t)
                    ≡ ending o)
                  ⊎ (ending (poll_recv_queue_default env user_data cfg rx_cq t) ≡ ending o))))
  unfolding poll_for_work_completions
  poll_for_work_completions_total tx_free tx_cq rx_cq rounds s h =
      poll_loop_total _ _ _ (λ (t : State W). backlog t.world) (poll_send-Takes tx_free tx_cq)
        (poll_recv-Takes rx_cq) rounds no_progress s h

-- The queues are empty, and stay empty: `fi_cq_read` returns `-FI_EAGAIN`.
abbrev pub AlwaysEmpty : {W : Type 0} → Env W → Settings → Type 0
AlwaysEmpty {W} env cfg =
    (q n : ℕ) (w : W) → (v : W) × (env.cq_read q n w ≡ (failed cfg.fi_eagain, v))

module _ {W : Type 0} (env : Env W) (user_data : ℕ) (cfg : Settings) (empty : AlwaysEmpty env cfg)
    (apart : (cfg.fi_eagain == cfg.fi_eavail) ≡ false)
    (size : cfg.max_completions_per_poll ≡ 0) where
  no_assert0 : asserts cfg ≡ false
  no_assert0 = no_assert cfg (omega arith)

  poll_send-Idle :
      (tx_free : W → Bool) (tx_cq : ℕ)
      → bypass_tx_lock cfg.locks ≡ true
      → Idle (λ (t : State W). poll_send_queue_default env user_data cfg tx_cq (tx_free t.world) t)
  unfolding poll_send_queue_default send_result
  poll_send-Idle tx_free tx_cq bypass s =
      let (v, e) = empty tx_cq cfg.max_completions_per_poll s.world in
      (record s { world = v }, rw (no_assert0, bypass, e, apart))

  poll_recv-Idle :
      (rx_cq : ℕ) → Idle (λ (t : State W). poll_recv_queue_default env user_data cfg rx_cq t)
  unfolding poll_recv_queue_default recv_result
  poll_recv-Idle rx_cq s =
      let (v, e) = empty rx_cq cfg.max_completions_per_poll s.world in
      (record s { world = v }, rw (no_assert0, recv_lock_test env user_data cfg, e, apart))

  -- With a poll size of 0, as a LIBFABRIC_POLL_SIZE that is no number gives it, polling of queues
  -- that stay empty never ends, for a thread that bypasses the send lock and gets the same
  -- endpoints in each round: no number of rounds is enough.
  pub poll_for_work_completions_size_zero :
      (tx_free : W → Bool) (tx_cq rx_cq rounds : ℕ) (s : State W)
      → bypass_tx_lock cfg.locks ≡ true
      → poll_for_work_completions env cfg tx_free
          (same_queue tx_cq)
          (same_queue rx_cq)
          user_data
          rounds
          s
        ≡ none
  unfolding poll_for_work_completions
  poll_for_work_completions_size_zero tx_free tx_cq rx_cq rounds s bypass =
      ap
        (λ (max : ℕ).
          poll_loop
            (λ (t : State W). poll_send_queue_default env user_data cfg tx_cq (tx_free t.world) t)
            (λ (t : State W). poll_recv_queue_default env user_data cfg rx_cq t) max rounds
            no_progress s)
        size
      ∙ poll_loop_zero_size _ _ (poll_send-Idle tx_free tx_cq bypass) (poll_recv-Idle rx_cq) rounds
          no_progress s
