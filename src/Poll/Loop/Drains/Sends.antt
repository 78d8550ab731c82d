-- ===== src/Poll/Loop/Drains/Sends.antt =====
-- `poll_send_queue_default` takes from the backlog.
use libfatbat.Prelude.{
  ℕ, ◌%◌, u32_mod, of_u32-small, ◌+◌, ◌≤◌, ◌≡◌, refl, ap, inl, inr, ◌==◌, Bool-cases, Bool, false,
  List, [], ◌∷◌, length, ℤ, pos, arith,
}
use libfatbat.Fabric.{CqEntry, CqRead, entries, failed, is_null}
use libfatbat.Outcome.{returns, faults}
use libfatbat.Outcome.Post.{
  Ensures, Ensures-bind, Ensures-if, Ensures-mono, Ensures-returns, Ensures-terminates,
  Ensures-faults,
}
use libfatbat.Poll.{Env, State, Settings, read_entries, fits, asserts, tx_busy}
use libfatbat.Poll.Send.{
  SendKind, send, read, write, unknown, send_kind, send_handler, count_send, send_entry,
  send_entries, send_error, send_result, poll_send_queue_default,
}
use libfatbat.Poll.Counting.{lock_test}
use libfatbat.Poll.Loop.Drains.{Drains, Reports, few}

module _ {W : Type 0} (env : Env W) (user_data : ℕ) (cfg : Settings) (backlog : W → ℕ)
    (d : Drains env backlog) where
  send_handler_bound :
      (k : SendKind) (ctx : ℕ) (w : W)
      → Ensures
          (λ (r : ℕ × W). (r.0 ≤ 1) × (backlog r.1 ≤ backlog w))
          (send_handler env user_data k ctx w)
  unfolding send_handler
  send_handler_bound send ctx w =
      Ensures-if _ (is_null ctx) faults (env.handle_tagged_send_completion ctx user_data w)
        (λ _. Ensures-faults _) (λ _. d.sent ctx user_data w)
  send_handler_bound read ctx w =
      Ensures-if _ (is_null ctx) faults (env.handle_rma_read_completion ctx w)
        (λ _. Ensures-faults _) (λ _. d.was_read ctx w)
  send_handler_bound write ctx w =
      Ensures-if _ (is_null ctx) (returns (0, w)) (env.handle_rma_write_completion ctx w)
        (λ _. Ensures-returns _ _ (omega arith)) (λ _. d.written ctx w)
  send_handler_bound unknown ctx w = Ensures-terminates _ _

  count_send-world : (k : SendKind) (s : State W) → (count_send k s).world ≡ s.world
  unfolding count_send
  count_send-world send s = refl
  count_send-world read s = refl
  count_send-world write s = refl
  count_send-world unknown s = refl

  send_entry_bound :
      (e : CqEntry) (s : State W)
      → Ensures
          (λ (r : ℕ × State W). (r.0 ≤ 1) × (backlog r.1.world ≤ backlog s.world))
          (send_entry env user_data cfg e s)
  unfolding send_entry
  send_entry_bound e s =
      let k = send_kind cfg e.flags in
      Ensures-bind _ _ _ _ (send_handler_bound k e.op_context (count_send k s).world)
        λ r h. Ensures-returns _ _ (h.0, omega (arith, h.1, ap backlog (count_send-world k s)))

  send_entries_bound :
      (es : List CqEntry) (n : ℕ) (s : State W)
      → Ensures
          (λ (r : ℕ × State W). (r.0 ≤ n + length es) × (backlog r.1.world ≤ backlog s.world))
          (send_entries env user_data cfg es n s)
  unfolding send_entries
  send_entries_bound [] n s = Ensures-returns _ _ (omega arith)
  send_entries_bound (e ∷ es) n s = Ensures-bind _ _ _ _ (send_entry_bound e s) λ a first.
      Ensures-mono _ _ _ (send_entries_bound es ((n + a.0) % u32_mod) a.1) (λ r rest. omega arith)

  send_error_bound :
      (tx_cq : ℕ) (s : State W)
      → Ensures
          (λ (t : State W). backlog t.world ≤ backlog s.world)
          (send_error env user_data tx_cq s)
  unfolding send_error
  send_error_bound tx_cq s =
      let (e, w) = env.cq_readerr tx_cq s.world in
      let less : backlog w ≤ backlog s.world = d.error_read tx_cq s.world in
      Ensures-bind (λ (v : W). backlog v ≤ backlog s.world) _ _ _
        (Ensures-if _ (is_null e.op_context) (returns w) (env.handle_error e.op_context e w)
          (λ _. Ensures-returns _ _ less)
          (λ _. Ensures-mono _ _ _ (d.error_handled e.op_context e w) (λ v h. omega arith)))
        (λ v h. Ensures-returns _ _ h)

  send_result_bound :
      (tx_cq : ℕ) (r : CqRead) (s : State W)
      → Ensures
          (Reports backlog (length (read_entries r)) (backlog s.world))
          (send_result env user_data cfg tx_cq r s)
  unfolding send_result
  send_result_bound tx_cq (failed x) s = elim (Bool-cases (x == cfg.fi_eavail)) [
    | inl e ↦ rw e (
        Ensures-bind _ _ _ _ (send_error_bound tx_cq s)
          (λ t h. Ensures-returns _ _ (0, refl, omega arith, h)))
    | inr e ↦ rw e (Ensures-returns _ _ (0, refl, omega arith, omega arith))
  ]
  send_result_bound tx_cq (entries es) s = elim (Bool-cases (fits es)) [
    | inl e ↦ rw e (
        Ensures-bind _ _ _ _ (send_entries_bound es 0 s)
          (λ r h. Ensures-returns _ _ (r.0, of_u32-small r.0 (few es r.0 e h.0), omega arith, h.1)))
    | inr e ↦ rw e (Ensures-faults _)
  ]

  -- A poll that got the lock reports no more than it took off the backlog.
  pub poll_send_bound :
      (tx_cq : ℕ) (free : Bool) (s : State W)
      → tx_busy cfg free ≡ false
      → Ensures
          (λ (r : ℤ × State W).
            (m : ℕ) × (r.0 ≡ pos m)
            × (m ≤ cfg.max_completions_per_poll)
            × (m + backlog r.1.world ≤ backlog s.world))
          (poll_send_queue_default env user_data cfg tx_cq free s)
  unfolding poll_send_queue_default
  poll_send_bound tx_cq free s b =
      let (r, w) = env.cq_read tx_cq cfg.max_completions_per_poll s.world in
      let most = d.at_most tx_cq cfg.max_completions_per_poll s.world in
      let less = d.taken tx_cq cfg.max_completions_per_poll s.world in
      elim (Bool-cases (asserts cfg)) [
        | inl e ↦ rw e (Ensures-terminates _ _)
        | inr e ↦
            rw (e, lock_test env user_data cfg free, b)
              (Ensures-mono _ _ _ (send_result_bound tx_cq r (record s { world = w }))
                (λ t h. (h.0, h.1, omega arith, omega arith)))
      ]
