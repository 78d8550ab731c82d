-- ===== src/Poll/Handlers/Errors.antt =====
-- Errors and cancelled requests without overrides.
use libfatbat.Prelude.{
  ℕ, Bool, true, false, ◌==◌, if◌then◌else◌, Bool-cases, inl, inr, none, ◌≡◌, refl, ◌∙◌, ap, ℤ, pos,
  arith,
}
use libfatbat.Fabric.{CqErrEntry, CqRead, failed, is_null}
use libfatbat.Outcome.{Outcome, returns, terminates, faults, ◌>>=◌}
use libfatbat.Poll.{Env, State, Settings, asserts, tx_busy}
use libfatbat.Poll.Send.{poll_send_queue_default, send_result, send_error}
use libfatbat.Poll.Recv.{poll_recv_queue_default, recv_result, recv_error}
use libfatbat.Poll.Counting
use libfatbat.Poll.Counting.Received
use libfatbat.Poll.Handlers.{Overrides, context_env, handle_error, handle_cancelled}

abbrev polled : {S : Type 0} → S → Outcome (ℤ × S)
polled s = returns (pos 0, s)

send_cases :
    {S : Type 0} (t : Bool) (s : S) (c : ℤ)
    → ((if t then returns s else terminates c) >>= polled)
      ≡ (if t then returns (pos 0, s) else terminates c)
send_cases true s c = refl
send_cases false s c = refl

recv_cases :
    {S : Type 0} (a b : Bool) (s : S) (c : ℤ)
    → ((if a
          then (if b then faults else terminates (pos 0))
          else if b
          then returns s
          else terminates c)
        >>= polled)
      ≡ (if a
          then (if b then faults else terminates (pos 0))
          else if b
          then returns (pos 0, s)
          else terminates c)
recv_cases true true s c = refl
recv_cases true false s c = refl
recv_cases false true s c = refl
recv_cases false false s c = refl

module _ {W : Type 0} (o : Overrides W) (cq_read : ℕ → ℕ → W → CqRead × W)
    (cq_readerr : ℕ → W → CqErrEntry × W) (user_data : ℕ) (cfg : Settings) where
  env : Env W
  env = context_env o cq_read cq_readerr

  send_error-default :
      (q : ℕ) (s : State W)
      → o.error ≡ none
      → let (e, w) = cq_readerr q s.world in
        send_error env user_data q s ≡ (
          if is_null e.op_context
          then returns (record s { world = w })
          else terminates (pos e.prov_errno))
  unfolding env send_error context_env handle_error
  send_error-default q s h = elim (Bool-cases (is_null (cq_readerr q s.world).0.op_context)) [
    | inl e ↦ rw e refl
    | inr e ↦ rw (e, h) refl
  ]

  recv_error-default :
      (q : ℕ) (s : State W)
      → o.error ≡ none
      → o.cancelled ≡ none
      → let (e, w) = cq_readerr q s.world in
        recv_error env user_data cfg q s ≡ (
          if e.err == cfg.fi_ecanceled
          then (if is_null e.op_context then faults else terminates (pos 0))
          else if is_null e.op_context
          then returns (record s { world = w })
          else terminates (pos e.prov_errno))
  unfolding env recv_error context_env handle_error handle_cancelled
  recv_error-default q s h g =
      elim (Bool-cases ((cq_readerr q s.world).0.err == cfg.fi_ecanceled)) [
        | inl c ↦ elim (Bool-cases (is_null (cq_readerr q s.world).0.op_context)) [
          | inl e ↦ rw (c, e) refl
          | inr e ↦ rw (c, e, g) refl
        ]
        | inr c ↦ elim (Bool-cases (is_null (cq_readerr q s.world).0.op_context)) [
          | inl e ↦ rw (c, e) refl
          | inr e ↦ rw (c, e, h) refl
        ]
      ]

  send_failed :
      (q : ℕ) (free : Bool) (s : State W) (w : W)
      → asserts cfg ≡ false
      → tx_busy cfg free ≡ false
      → cq_read q cfg.max_completions_per_poll s.world ≡ (failed cfg.fi_eavail, w)
      → poll_send_queue_default env user_data cfg q free s
        ≡ (send_error env user_data q (record s { world = w }) >>= polled)
  unfolding poll_send_queue_default send_result env context_env
  send_failed q free s w ok lock read =
      let same : (cfg.fi_eavail == cfg.fi_eavail) ≡ true = ground arith in
      rw (ok, libfatbat.Poll.Counting.lock_test env user_data cfg free, lock, read, same) refl

  recv_failed :
      (q : ℕ) (s : State W) (w : W)
      → asserts cfg ≡ false
      → cq_read q cfg.max_completions_per_poll s.world ≡ (failed cfg.fi_eavail, w)
      → poll_recv_queue_default env user_data cfg q s
        ≡ (recv_error env user_data cfg q (record s { world = w }) >>= polled)
  unfolding poll_recv_queue_default recv_result env context_env
  recv_failed q s w ok read =
      let same : (cfg.fi_eavail == cfg.fi_eavail) ≡ true = ground arith in
      rw (ok, libfatbat.Poll.Counting.Received.lock_test env user_data cfg, read, same) refl

  -- Where the operation contexts override neither handle_error nor handle_cancelled, the assertion
  -- on the poll size holds, and a read of the queue reports an error: a poll of the send queue that
  -- has the lock ends the program with the provider's error number, unless the error has no
  -- context, when it returns 0; a poll of the receive queue does the same, but a cancelled request
  -- ends the program too, and one without a context is used all the same.
  poll_defaults-errors :
      (q : ℕ) (free : Bool) (s : State W) (w : W)
      → o.error ≡ none
      → o.cancelled ≡ none
      → asserts cfg ≡ false
      → tx_busy cfg free ≡ false
      → cq_read q cfg.max_completions_per_poll s.world ≡ (failed cfg.fi_eavail, w)
      → let (e, w') = cq_readerr q w in
        (poll_send_queue_default (context_env o cq_read cq_readerr) user_data cfg q free s ≡ (
          if is_null e.op_context
          then returns (pos 0, record s { world = w' })
          else terminates (pos e.prov_errno)))
        × (poll_recv_queue_default (context_env o cq_read cq_readerr) user_data cfg q s ≡ (
            if e.err == cfg.fi_ecanceled
            then (if is_null e.op_context then faults else terminates (pos 0))
            else if is_null e.op_context
            then returns (pos 0, record s { world = w' })
            else terminates (pos e.prov_errno)))
  unfolding context_env env
  poll_defaults-errors q free s w h g ok lock read =
      let t : State W = record s { world = w } in
      (
        send_failed q free s w ok lock read
            ∙ (ap (λ (m : Outcome (State W)). m >>= polled) (send_error-default q t h)
                ∙ send_cases (is_null (cq_readerr q w).0.op_context) _ _),
        recv_failed q s w ok read
            ∙ (ap (λ (m : Outcome (State W)). m >>= polled) (recv_error-default q t h g)
                ∙ recv_cases ((cq_readerr q w).0.err == cfg.fi_ecanceled)
                    (is_null (cq_readerr q w).0.op_context) _ _),
      )
