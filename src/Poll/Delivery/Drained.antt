-- ===== src/Poll/Delivery/Drained.antt =====
-- `poll_for_work_completions` empties both queues and hands every entry to its handler, in order.
use libfatbat.Prelude.{
  ℕ, zero, suc, ◌+◌, ◌≤◌, ◌<◌, ◌≡◌, refl, ap, ◌∙◌, Bool, true, false, Bool-cases, inl, inr, take,
  drop, length, All, ◌==◌, some, ℤ, arith,
}
use libfatbat.Prelude.Slices.{length-take, length-drop, All-drop}
use libfatbat.Outcome.{Outcome, returns}
use libfatbat.Poll.{Env, State, Settings, tx_busy}
use libfatbat.Poll.Send.{poll_send_queue_default}
use libfatbat.Poll.Recv.{poll_recv_queue_default}
use libfatbat.Poll.Loop.{
  ProgressStatus, no_progress, Round, poll_round, poll_loop, poll_for_work_completions, same_queue,
}
use libfatbat.Poll.Delivery.{View, InOrder, IsSent, IsReceived}
use libfatbat.Poll.Delivery.Rounds.{
  counted, more, after_round, delivered, poll_round-of, after_round_done, after_round_again,
  counted_done, counted_again,
}

-- The loop after one round that returned.
module _ {S : Type 0} (send recv : S → Outcome (ℤ × S)) (max rounds : ℕ) (p : ProgressStatus)
    (s : S) (r : Round S) (ran : poll_round send recv max p s ≡ returns r) where
  poll_loop_again :
      r.retry ≡ true
      → poll_loop send recv max (suc rounds) p s ≡ poll_loop send recv max rounds r.status r.state
  unfolding poll_loop
  poll_loop_again again = rw (ran, poll_loop) (simp again)

  poll_loop_done :
      r.retry ≡ false
      → poll_loop send recv max (suc rounds) p s ≡ some (returns (r.status, r.state))
  unfolding poll_loop
  poll_loop_done done = rw (ran, poll_loop) (simp done)

module _ {W : Type 0} (env : Env W) (cfg : Settings) (user_data tx_cq rx_cq : ℕ) (view : W → View)
    (o : InOrder env cfg user_data tx_cq rx_cq view) (tx_free : W → Bool)
    (lo : 1 ≤ cfg.max_completions_per_poll) (hi : cfg.max_completions_per_poll ≤ 256)
    (apart : (cfg.fi_eagain == cfg.fi_eavail) ≡ false)
    (idle : (w : W) → tx_busy cfg (tx_free w) ≡ false) where
  abbrev counted_round : ProgressStatus → View → ProgressStatus
  counted_round p v =
      counted p (length (take cfg.max_completions_per_poll v.tx))
        (length (take cfg.max_completions_per_poll v.rx))

  -- The loop returns with everything delivered.
  abbrev Loops : ℕ → ProgressStatus → State W → View → State W → Type 0
  Loops rounds p s v t =
      (poll_loop (λ t. poll_send_queue_default env user_data cfg tx_cq (tx_free t.world) t)
          (λ t. poll_recv_queue_default env user_data cfg rx_cq t) cfg.max_completions_per_poll
          rounds p s
        ≡ some (returns (counted p (length v.tx) (length v.rx), t)))
      × (view t.world ≡ delivered cfg v)

  -- A round that is not the last one, with what the rest of the loop does.
  deliver_again :
      (rounds : ℕ) (p : ProgressStatus) (s t u : State W) (v : View)
      → poll_round
          (λ t. poll_send_queue_default env user_data cfg tx_cq (tx_free t.world) t)
          (λ t. poll_recv_queue_default env user_data cfg rx_cq t)
          cfg.max_completions_per_poll
          p
          s
        ≡ returns (record { retry = more cfg v; status = counted_round p v; state = t })
      → more cfg v ≡ true
      → Loops rounds (counted_round p v) t (after_round cfg v) u
      → Loops (suc rounds) p s v u
  deliver_again rounds p s t u v ran again rest = (
    poll_loop_again _ _ cfg.max_completions_per_poll rounds p s _ ran again
        ∙ (rest.0 ∙ ap (λ q. some (returns (q, u))) (counted_again cfg p v)),
    rest.1 ∙ after_round_again cfg v,
  )

  poll_loop-view :
      (rounds : ℕ) (p : ProgressStatus) (s : State W) (v : View)
      → view s.world ≡ v
      → All (IsSent cfg) v.tx
      → All (IsReceived cfg) v.rx
      → length v.tx + length v.rx < rounds
      → (t : State W) × Loops rounds p s v t
  poll_loop-view zero p s v e good_tx good_rx h = absurd (omega arith)
  poll_loop-view (suc rounds) p s v e good_tx good_rx h =
      let (t, ran, seen) =
        poll_round-of env cfg user_data tx_cq rx_cq view o tx_free hi apart idle p s v e good_tx
          good_rx in
      elim (Bool-cases (more cfg v)) [
        | inl again ↦
            let max = cfg.max_completions_per_poll in
            let fewer : length (drop max v.tx) + length (drop max v.rx) < rounds = ground (
              arith,
              length-take max v.tx,
              length-take max v.rx,
              length-drop max v.tx,
              length-drop max v.rx,
            ) in
            let (u, rest) =
              poll_loop-view rounds (counted_round p v) t (after_round cfg v) seen
                (All-drop (IsSent cfg) max v.tx good_tx)
                (All-drop (IsReceived cfg) max v.rx good_rx) fewer in
            (u, deliver_again rounds p s t u v ran again rest)
        | inr done ↦
            let returned =
              poll_loop_done _ _ cfg.max_completions_per_poll rounds p s _ ran done
              ∙ ap (λ q. some (returns (q, t))) (counted_done cfg p v done) in
            (t, (returned, seen ∙ after_round_done cfg v done))
      ]

  -- Polling delivers. Where reads take entries off the front of their queues and every handler
  -- completes one request, each poll gets the send lock or bypasses it, the thread gets the same
  -- endpoints in each round, the poll size is from 1 to 256, and every entry that waits is of a
  -- kind that the code counts and has a context, the loop returns within as many rounds as there
  -- are entries, and one more. Then both queues are empty, each entry has gone to the handler of
  -- its kind exactly once, in the order of its queue, and the status reports how many there were in
  -- each queue, modulo 2 ^ 32.
  pub poll_for_work_completions-delivered :
      (rounds : ℕ) (s : State W)
      → All (IsSent cfg) (view s.world).tx
      → All (IsReceived cfg) (view s.world).rx
      → length (view s.world).tx + length (view s.world).rx < rounds
      → (t : State W) × (poll_for_work_completions env cfg tx_free
            (same_queue tx_cq)
            (same_queue rx_cq)
            user_data
            rounds
            s
          ≡ some (
              returns
                (counted no_progress (length (view s.world).tx) (length (view s.world).rx), t)))
        × (view t.world ≡ delivered cfg (view s.world))
  unfolding poll_for_work_completions
  poll_for_work_completions-delivered rounds s good_tx good_rx h =
      let (t, ended) = poll_loop-view rounds no_progress s (view s.world) refl good_tx good_rx h in
      (t, ended.0, ended.1)
