-- ===== src/Poll/Delivery/Rounds.antt =====
-- What a round of `poll_for_work_completions` does to the abstract view of the queues.
use libfatbat.Prelude.{
  ℕ, ◌+◌, ◌%◌, ◌≤◌, ◌≡◌, refl, sym, ap, subst, ◌∙◌, Bool, false, ◌||◌, List, [], ◌++◌, take, drop,
  length, All, ◌==◌, pos, u32_mod, arith,
}
use libfatbat.Prelude.Slices.{length-take, length-drop, take-all, drop-all, map-take-drop}
use libfatbat.Fabric.{CqEntry}
use libfatbat.Outcome.{returns}
use libfatbat.Poll.{Env, State, Settings, tx_busy}
use libfatbat.Poll.Send.{send_kind, poll_send_queue_default}
use libfatbat.Poll.Recv.{poll_recv_queue_default}
use libfatbat.Poll.Loop.{ProgressStatus, poll_round}
use libfatbat.Poll.Delivery.{
  View, InOrder, IsSent, IsReceived, sent_of, received_of, sent_all, received_all,
}
use libfatbat.Poll.Delivery.Sends.{poll_send-view}
use libfatbat.Poll.Delivery.Recvs.{poll_recv-view}

-- The status after a round, or after several, that handled so many.
abbrev pub counted : ProgressStatus → ℕ → ℕ → ProgressStatus
counted p sends recvs = record {
  m_num_sends = (p.m_num_sends + sends) % u32_mod;
  m_num_recvs = (p.m_num_recvs + recvs) % u32_mod;
}

module _ (cfg : Settings) where
  -- What one round leaves in view.
  abbrev pub after_round : View → View
  after_round v =
      let sent =
        sent_all cfg (record v { tx = drop cfg.max_completions_per_poll v.tx })
          (take cfg.max_completions_per_poll v.tx) in
      received_all (record sent { rx = drop cfg.max_completions_per_poll v.rx })
        (take cfg.max_completions_per_poll v.rx)

  abbrev pub more : View → Bool
  more v =
      (length (take cfg.max_completions_per_poll v.tx) == cfg.max_completions_per_poll)
      || (length (take cfg.max_completions_per_poll v.rx) == cfg.max_completions_per_poll)

  abbrev pub delivered : View → View
  delivered v = record {
    tx = [];
    rx = [];
    sent = v.sent ++ sent_of cfg v.tx;
    received = v.received ++ received_of v.rx;
  }

  -- Both queues were read to their end.
  pub after_round_done : (v : View) → more v ≡ false → after_round v ≡ delivered v
  after_round_done v done =
      let short_tx : length v.tx ≤ cfg.max_completions_per_poll =
        ground (arith, length-take cfg.max_completions_per_poll v.tx) in
      let short_rx : length v.rx ≤ cfg.max_completions_per_poll =
        ground (arith, length-take cfg.max_completions_per_poll v.rx) in
      rw
        (
          take-all cfg.max_completions_per_poll v.tx short_tx,
          take-all cfg.max_completions_per_poll v.rx short_rx,
          drop-all cfg.max_completions_per_poll v.tx short_tx,
          drop-all cfg.max_completions_per_poll v.rx short_rx,
        )
        refl

  pub counted_done :
      (p : ProgressStatus) (v : View)
      → more v ≡ false
      → counted p
          (length (take cfg.max_completions_per_poll v.tx))
          (length (take cfg.max_completions_per_poll v.rx))
        ≡ counted p (length v.tx) (length v.rx)
  counted_done p v done =
      let whole_tx : length (take cfg.max_completions_per_poll v.tx) ≡ length v.tx =
        ground (arith, length-take cfg.max_completions_per_poll v.tx) in
      let whole_rx : length (take cfg.max_completions_per_poll v.rx) ≡ length v.rx =
        ground (arith, length-take cfg.max_completions_per_poll v.rx) in
      rw (whole_tx, whole_rx) refl

  -- What is still to be delivered after a round is what that round left.
  pub after_round_again : (v : View) → delivered (after_round v) ≡ delivered v
  after_round_again v = λ i. record {
    tx = [];
    rx = [];
    sent =
        map-take-drop (λ (e : CqEntry). (send_kind cfg e.flags, e.op_context)) v.sent
          cfg.max_completions_per_poll v.tx i;
    received =
        map-take-drop (λ (e : CqEntry). e.op_context) v.received cfg.max_completions_per_poll v.rx
          i;
  }

  pub counted_again :
      (p : ProgressStatus) (v : View)
      → counted
          (counted p
            (length (take cfg.max_completions_per_poll v.tx))
            (length (take cfg.max_completions_per_poll v.rx)))
          (length (drop cfg.max_completions_per_poll v.tx))
          (length (drop cfg.max_completions_per_poll v.rx))
        ≡ counted p (length v.tx) (length v.rx)
  counted_again p v = ground (
    arith,
    length-take cfg.max_completions_per_poll v.tx,
    length-take cfg.max_completions_per_poll v.rx,
    length-drop cfg.max_completions_per_poll v.tx,
    length-drop cfg.max_completions_per_poll v.rx,
  )

module _ {W : Type 0} (env : Env W) (cfg : Settings) (user_data tx_cq rx_cq : ℕ) (view : W → View)
    (o : InOrder env cfg user_data tx_cq rx_cq view) (tx_free : W → Bool)
    (hi : cfg.max_completions_per_poll ≤ 256) (apart : (cfg.fi_eagain == cfg.fi_eavail) ≡ false)
    (idle : (w : W) → tx_busy cfg (tx_free w) ≡ false) where
  poll_round-view :
      (p : ProgressStatus) (s : State W)
      → All (IsSent cfg) (view s.world).tx
      → All (IsReceived cfg) (view s.world).rx
      → let v = view s.world in
        (t : State W) × (poll_round
            (λ t. poll_send_queue_default env user_data cfg tx_cq (tx_free t.world) t)
            (λ t. poll_recv_queue_default env user_data cfg rx_cq t)
            cfg.max_completions_per_poll
            p
            s
          ≡ returns (record {
            retry = more cfg v;
            status =
                counted p
                  (length (take cfg.max_completions_per_poll v.tx))
                  (length (take cfg.max_completions_per_poll v.rx));
            state = t;
          }))
        × (view t.world ≡ after_round cfg v)
  unfolding poll_round
  poll_round-view p s good_tx good_rx =
      let v = view s.world in
      let (t, ran, seen) =
        poll_send-view env cfg user_data tx_cq rx_cq view o (tx_free s.world) s hi apart
          (idle s.world) good_tx in
      let same : (view t.world).rx ≡ v.rx = ap (λ (x : View). x.rx) seen in
      let (u, ran2, seen2) =
        poll_recv-view env cfg user_data tx_cq rx_cq view o t hi apart
          (subst (All (IsReceived cfg)) (sym same) good_rx) in
      let received : poll_recv_queue_default env user_data cfg rx_cq t
          ≡ returns (pos (length (take cfg.max_completions_per_poll v.rx)), u) =
        ran2
        ∙ ap (λ (l : List CqEntry). returns (pos (length (take cfg.max_completions_per_poll l)), u))
            same in
      let few_tx : length (take cfg.max_completions_per_poll v.tx) % u32_mod
          ≡ length (take cfg.max_completions_per_poll v.tx) =
        omega (arith, length-take cfg.max_completions_per_poll v.tx) in
      let few_rx : length (take cfg.max_completions_per_poll v.rx) % u32_mod
          ≡ length (take cfg.max_completions_per_poll v.rx) =
        omega (arith, length-take cfg.max_completions_per_poll v.rx) in
      (
        u,
        rw ran (rw received (rw (few_tx, few_rx) refl)),
        seen2
            ∙ ap
                (λ (x : View).
                  received_all (record x { rx = drop cfg.max_completions_per_poll x.rx })
                    (take cfg.max_completions_per_poll x.rx))
                seen,
      )

  pub poll_round-of :
      (p : ProgressStatus) (s : State W) (v : View)
      → view s.world ≡ v
      → All (IsSent cfg) v.tx
      → All (IsReceived cfg) v.rx
      → (t : State W) × (poll_round
            (λ t. poll_send_queue_default env user_data cfg tx_cq (tx_free t.world) t)
            (λ t. poll_recv_queue_default env user_data cfg rx_cq t)
            cfg.max_completions_per_poll
            p
            s
          ≡ returns (record {
            retry = more cfg v;
            status =
                counted p
                  (length (take cfg.max_completions_per_poll v.tx))
                  (length (take cfg.max_completions_per_poll v.rx));
            state = t;
          }))
        × (view t.world ≡ after_round cfg v)
  poll_round-of p s v e =
      subst
        (λ (x : View).
          All (IsSent cfg) x.tx
          → All (IsReceived cfg) x.rx
          → (t : State W) × (poll_round
                (λ t. poll_send_queue_default env user_data cfg tx_cq (tx_free t.world) t)
                (λ t. poll_recv_queue_default env user_data cfg rx_cq t)
                cfg.max_completions_per_poll p s
              ≡ returns (record {
                retry = more cfg x;
                status =
                    counted p (length (take cfg.max_completions_per_poll x.tx))
                      (length (take cfg.max_completions_per_poll x.rx));
                state = t;
              }))
            × (view t.world ≡ after_round cfg x))
        e (poll_round-view p s)
