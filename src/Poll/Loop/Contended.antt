-- ===== src/Poll/Loop/Contended.antt =====
-- What `poll_for_work_completions` reports to a thread that does not get the send lock.
use libfatbat.Prelude.{
  ℕ, suc, ◌≤◌, ◌≡◌, refl, Bool, true, false, ◌||◌, ◌==◌, some, pos, negsuc, arith,
}
use libfatbat.Outcome.{returns}
use libfatbat.Poll.{Env, State, Settings, tx_busy}
use libfatbat.Poll.Recv.{recv_result, poll_recv_queue_default}
use libfatbat.Poll.Counting.{poll_send_busy}
use libfatbat.Poll.Counting.Received.{lock_test}
use libfatbat.Poll.Loop.{
  ProgressStatus, num, num_sends, poll_round, poll_loop, poll_for_work_completions, same_queue,
}
use libfatbat.Poll.Loop.Drains.Total.{AlwaysEmpty, no_assert}

-- The status that such a poll returns.
abbrev pub lost : ProgressStatus
lost = record { m_num_sends = 0xffff_ffff; m_num_recvs = 0 }

sizes : (max : ℕ) → 1 ≤ max → max ≤ 256 → ((0xffff_ffff == max) || (0 == max)) ≡ false
sizes max lo hi = ground arith

module _ {W : Type 0} (env : Env W) (user_data : ℕ) (cfg : Settings) (empty : AlwaysEmpty env cfg)
    (apart : (cfg.fi_eagain == cfg.fi_eavail) ≡ false) (lo : 1 ≤ cfg.max_completions_per_poll)
    (hi : cfg.max_completions_per_poll ≤ 256) where
  recv_nothing :
      (rx_cq : ℕ) (s : State W)
      → (t : State W) × (poll_recv_queue_default env user_data cfg rx_cq s ≡ returns (pos 0, t))
  unfolding poll_recv_queue_default recv_result
  recv_nothing rx_cq s =
      let (v, e) = empty rx_cq cfg.max_completions_per_poll s.world in
      (record s { world = v }, rw (no_assert cfg hi, lock_test env user_data cfg, e, apart))

  -- Where another thread holds the send lock, nothing is to be received, and the endpoints are
  -- there already, polling ends in its first round and reports -1 sends and -1 completions in all,
  -- though none was handled.
  pub poll_for_work_completions_contended :
      (tx_free : W → Bool) (tx_cq rx_cq rounds : ℕ) (s : State W)
      → tx_busy cfg (tx_free s.world) ≡ true
      → (t : State W) × (poll_for_work_completions env cfg tx_free
            (same_queue tx_cq)
            (same_queue rx_cq)
            user_data
            (suc rounds)
            s
          ≡ some (returns (lost, t)))
        × (num_sends lost ≡ negsuc 0)
        × (num lost ≡ negsuc 0)
  unfolding poll_for_work_completions poll_loop poll_round num num_sends
  poll_for_work_completions_contended tx_free tx_cq rx_cq rounds s busy =
      let e1 = poll_send_busy env user_data cfg tx_cq (tx_free s.world) s (no_assert cfg hi) busy in
      let (t, e2) = recv_nothing rx_cq s in
      (t, rw (e1, e2, sizes cfg.max_completions_per_poll lo hi, poll_loop), refl, refl)
