-- ===== src/Poll/Loop/Drains/Recvs.antt =====
-- `poll_recv_queue_default` takes from the backlog.
use libfatbat.Prelude.{
  ℕ, ◌%◌, u32_mod, of_u32-small, ◌+◌, ◌≤◌, ◌≡◌, refl, ap, inl, inr, if◌then◌else◌, ◌==◌, Bool-cases,
  List, [], ◌∷◌, length, ℤ, pos, arith,
}
use libfatbat.Fabric.{CqEntry, CqErrEntry, CqRead, entries, failed, is_null}
use libfatbat.Outcome.{returns, faults}
use libfatbat.Outcome.Post.{
  Ensures, Ensures-bind, Ensures-if, Ensures-mono, Ensures-returns, Ensures-terminates,
  Ensures-faults,
}
use libfatbat.Poll.{Env, State, Settings, read_entries, fits, asserts}
use libfatbat.Poll.Recv.{
  RecvKind, recv, remote_data, unknown, recv_kind, recv_handler, count_recv, recv_entry,
  recv_entries, recv_error, recv_result, poll_recv_queue_default,
}
use libfatbat.Poll.Counting.Received.{lock_test}
use libfatbat.Poll.Loop.Drains.{Drains, Reports, few}

module _ {W : Type 0} (env : Env W) (user_data : ℕ) (cfg : Settings) (backlog : W → ℕ)
    (d : Drains env backlog) where
  recv_handler_bound :
      (k : RecvKind) (e : CqEntry) (w : W)
      → Ensures
          (λ (r : ℕ × W). (r.0 ≤ 1) × (backlog r.1 ≤ backlog w))
          (recv_handler env user_data k e w)
  unfolding recv_handler
  recv_handler_bound recv e w =
      Ensures-if _ (is_null e.op_context) faults
        (env.handle_tagged_recv_completion e.op_context user_data w) (λ _. Ensures-faults _)
        (λ _. d.received e.op_context user_data w)
  recv_handler_bound remote_data e w =
      Ensures-bind _ _ _ _ (d.remote_data e.cq_data w) (λ v h. Ensures-returns _ _ (omega arith, h))
  recv_handler_bound unknown e w = Ensures-terminates _ _

  count_recv-world : (k : RecvKind) (s : State W) → (count_recv k s).world ≡ s.world
  unfolding count_recv
  count_recv-world recv s = refl
  count_recv-world remote_data s = refl
  count_recv-world unknown s = refl

  recv_entry_bound :
      (e : CqEntry) (s : State W)
      → Ensures
          (λ (r : ℕ × State W). (r.0 ≤ 1) × (backlog r.1.world ≤ backlog s.world))
          (recv_entry env user_data cfg e s)
  unfolding recv_entry
  recv_entry_bound e s =
      let k = recv_kind cfg e.flags in
      Ensures-bind _ _ _ _ (recv_handler_bound k e (count_recv k s).world)
        λ r h. Ensures-returns _ _ (h.0, omega (arith, h.1, ap backlog (count_recv-world k s)))

  recv_entries_bound :
      (es : List CqEntry) (n : ℕ) (s : State W)
      → Ensures
          (λ (r : ℕ × State W). (r.0 ≤ n + length es) × (backlog r.1.world ≤ backlog s.world))
          (recv_entries env user_data cfg es n s)
  unfolding recv_entries
  recv_entries_bound [] n s = Ensures-returns _ _ (omega arith)
  recv_entries_bound (e ∷ es) n s = Ensures-bind _ _ _ _ (recv_entry_bound e s) λ a first.
      Ensures-mono _ _ _ (recv_entries_bound es ((n + a.0) % u32_mod) a.1) (λ r rest. omega arith)

  recv_error_handler_bound :
      (e : CqErrEntry) (w : W) (b : ℕ)
      → backlog w ≤ b
      → Ensures
          (λ (v : W). backlog v ≤ b)
          (if e.err == cfg.fi_ecanceled
            then (if is_null e.op_context then faults else env.handle_cancelled e.op_context w)
            else if is_null e.op_context
            then returns w
            else env.handle_error e.op_context e w)
  recv_error_handler_bound e w b less =
      Ensures-if _ (e.err == cfg.fi_ecanceled) _ _
        (λ _.
          Ensures-if _ (is_null e.op_context) faults (env.handle_cancelled e.op_context w)
            (λ _. Ensures-faults _)
            (λ _. Ensures-mono _ _ _ (d.cancelled e.op_context w) (λ v h. omega arith)))
        (λ _.
          Ensures-if _ (is_null e.op_context) (returns w) (env.handle_error e.op_context e w)
            (λ _. Ensures-returns _ _ less)
            (λ _. Ensures-mono _ _ _ (d.error_handled e.op_context e w) (λ v h. omega arith)))

  recv_error_bound :
      (rx_cq : ℕ) (s : State W)
      → Ensures
          (λ (t : State W). backlog t.world ≤ backlog s.world)
          (recv_error env user_data cfg rx_cq s)
  unfolding recv_error
  recv_error_bound rx_cq s =
      let (e, w) = env.cq_readerr rx_cq s.world in
      let less : backlog w ≤ backlog s.world = d.error_read rx_cq s.world in
      Ensures-bind (λ (v : W). backlog v ≤ backlog s.world) _ _ _
        (recv_error_handler_bound e w (backlog s.world) less) (λ v h. Ensures-returns _ _ h)

  recv_result_bound :
      (rx_cq : ℕ) (r : CqRead) (s : State W)
      → Ensures
          (Reports backlog (length (read_entries r)) (backlog s.world))
          (recv_result env user_data cfg rx_cq r s)
  unfolding recv_result
  recv_result_bound rx_cq (failed x) s = elim (Bool-cases (x == cfg.fi_eavail)) [
    | inl e ↦ rw e (
        Ensures-bind _ _ _ _ (recv_error_bound rx_cq s)
          (λ t h. Ensures-returns _ _ (0, refl, omega arith, h)))
    | inr e ↦ rw e (Ensures-returns _ _ (0, refl, omega arith, omega arith))
  ]
  recv_result_bound rx_cq (entries es) s = elim (Bool-cases (fits es)) [
    | inl e ↦ rw e (
        Ensures-bind _ _ _ _ (recv_entries_bound es 0 s)
          (λ r h. Ensures-returns _ _ (r.0, of_u32-small r.0 (few es r.0 e h.0), omega arith, h.1)))
    | inr e ↦ rw e (Ensures-faults _)
  ]

  -- A poll reports no more than it took off the backlog.
  pub poll_recv_bound :
      (rx_cq : ℕ) (s : State W)
      → Ensures
          (λ (r : ℤ × State W).
            (m : ℕ) × (r.0 ≡ pos m)
            × (m ≤ cfg.max_completions_per_poll)
            × (m + backlog r.1.world ≤ backlog s.world))
          (poll_recv_queue_default env user_data cfg rx_cq s)
  unfolding poll_recv_queue_default
  poll_recv_bound rx_cq s =
      let (r, w) = env.cq_read rx_cq cfg.max_completions_per_poll s.world in
      let most = d.at_most rx_cq cfg.max_completions_per_poll s.world in
      let less = d.taken rx_cq cfg.max_completions_per_poll s.world in
      elim (Bool-cases (asserts cfg)) [
        | inl e ↦ rw e (Ensures-terminates _ _)
        | inr e ↦
            rw (e, lock_test env user_data cfg)
              (Ensures-mono _ _ _ (recv_result_bound rx_cq r (record s { world = w }))
                (λ t h. (h.0, h.1, omega arith, omega arith)))
      ]
