-- ===== src/Poll/Counting/Received.antt =====
-- What the counters of the receive side say after a poll.
use libfatbat.Prelude.{
  ℕ, ◌≡◌, ◌≢◌, refl, inl, inr, ◌==◌, Bool-cases, Bool, true, false, List, [], ◌∷◌, count_if, ℤ,
  arith,
}
use libfatbat.Fabric.{CqEntry, CqRead, entries, failed, is_null}
use libfatbat.Outcome.{returns, faults}
use libfatbat.Outcome.Post.{
  Ensures, Ensures-bind, Ensures-if, Ensures-mono, Ensures-of, Ensures-returns, Ensures-terminates,
  Ensures-faults,
}
use libfatbat.Counter.{advance}
use libfatbat.Poll.{Env, State, Settings, read_entries, fits, asserts}
use libfatbat.Poll.Recv.{
  RecvKind, recv, remote_data, unknown, recv_kind, recv_handler, count_recv, recv_entry,
  recv_entries, recv_error, recv_result, poll_recv_queue_default,
}
use libfatbat.Locks.{bypass_rx_lock, get_rx_lock, owns_lock}
use mathlib.Core.Bool.{not, ◌&&◌}

abbrev pub is_recv : RecvKind → Bool
is_recv recv = true
is_recv _ = false

abbrev pub is_remote_data : RecvKind → Bool
is_remote_data remote_data = true
is_remote_data _ = false

-- The counters of receive completions went up by the number of entries of each kind, and the other
-- counters stayed.
pub record RecvCounted {W : Type 0} (cfg : Settings) (es : List CqEntry) (s t : State W)
    : Type 0 where
  pub recvs :
      t.recvs_complete
      ≡ advance s.recvs_complete (count_if (λ (e : CqEntry). is_recv (recv_kind cfg e.flags)) es)
  pub remote :
      t.remote_cq_data_received
      ≡ advance s.remote_cq_data_received
          (count_if (λ (e : CqEntry). is_remote_data (recv_kind cfg e.flags)) es)
  pub sends : t.sends_complete ≡ s.sends_complete
  pub reads : t.reads_complete ≡ s.reads_complete
  pub writes : t.writes_complete ≡ s.writes_complete

module _ {W : Type 0} (env : Env W) (user_data : ℕ) (cfg : Settings) where
  count_recv-RecvCounted :
      (e : CqEntry) (s : State W) (w : W) (k : RecvKind)
      → recv_kind cfg e.flags ≡ k
      → k ≢ unknown
      → RecvCounted cfg (e ∷ []) s (record (count_recv k s) { world = w })
  unfolding count_recv
  count_recv-RecvCounted e s w recv h n = ground arith
  count_recv-RecvCounted e s w remote_data h n = ground arith
  count_recv-RecvCounted e s w unknown h n = absurd (n refl)

  -- An entry of unknown kind ends the program.
  handler_known :
      (k : RecvKind) (e : CqEntry) (w : W)
      → Ensures (λ _. k ≢ unknown) (recv_handler env user_data k e w)
  unfolding recv_handler
  handler_known recv e w =
      Ensures-if _ (is_null e.op_context) faults
        (env.handle_tagged_recv_completion e.op_context user_data w) (λ _. Ensures-faults _)
        (λ _. Ensures-of _ _ (λ e. cc))
  handler_known remote_data e w = Ensures-of _ _ (λ e. cc)
  handler_known unknown e w = Ensures-terminates _ _

  recv_entry-RecvCounted :
      (e : CqEntry) (s : State W)
      → Ensures
          (λ (r : ℕ × State W). RecvCounted cfg (e ∷ []) s r.1)
          (recv_entry env user_data cfg e s)
  unfolding recv_entry
  recv_entry-RecvCounted e s =
      let k = recv_kind cfg e.flags in
      Ensures-bind (λ _. k ≢ unknown) _ _ _ (handler_known k e _)
        λ r known. Ensures-returns _ _ (count_recv-RecvCounted e s r.1 k refl known)

  RecvCounted-trans :
      (e : CqEntry) (es : List CqEntry) (s t u : State W)
      → RecvCounted cfg (e ∷ []) s t
      → RecvCounted cfg es t u
      → RecvCounted cfg (e ∷ es) s u
  RecvCounted-trans e es s t u a b = ground arith

  world_only : (s : State W) (w : W) → RecvCounted cfg [] s (record s { world = w })
  world_only s w = ground arith

  RecvCounted-world :
      (es : List CqEntry) (s t : State W) (w : W)
      → RecvCounted cfg es (record s { world = w }) t
      → RecvCounted cfg es s t
  RecvCounted-world es s t w h = ground arith

  recv_entries-RecvCounted :
      (es : List CqEntry) (n : ℕ) (s : State W)
      → Ensures
          (λ (r : ℕ × State W). RecvCounted cfg es s r.1)
          (recv_entries env user_data cfg es n s)
  unfolding recv_entries
  recv_entries-RecvCounted [] n s = Ensures-returns _ _ (world_only s s.world)
  recv_entries-RecvCounted (e ∷ es) n s =
      Ensures-bind _ _ _ _ (recv_entry-RecvCounted e s) λ a first.
        Ensures-mono _ _ _ (recv_entries-RecvCounted es _ a.1)
          (λ r rest. RecvCounted-trans e es s a.1 r.1 first rest)

  recv_error-RecvCounted :
      (rx_cq : ℕ) (s : State W)
      → Ensures (λ (t : State W). RecvCounted cfg [] s t) (recv_error env user_data cfg rx_cq s)
  unfolding recv_error
  recv_error-RecvCounted rx_cq s =
      Ensures-bind _ _ _ _ (Ensures-of (Unit {0}) _ tt)
        (λ w _. Ensures-returns _ _ (world_only s w))

  recv_result-RecvCounted :
      (rx_cq : ℕ) (r : CqRead) (s : State W)
      → Ensures
          (λ (t : ℤ × State W). RecvCounted cfg (read_entries r) s t.1)
          (recv_result env user_data cfg rx_cq r s)
  unfolding recv_result
  recv_result-RecvCounted rx_cq (failed x) s = elim (Bool-cases (x == cfg.fi_eavail)) [
    | inl e ↦
        rw e (Ensures-bind _ _ _ _ (recv_error-RecvCounted rx_cq s) (λ t h. Ensures-returns _ _ h))
    | inr e ↦ rw e (Ensures-returns _ _ (world_only s s.world))
  ]
  recv_result-RecvCounted rx_cq (entries es) s = elim (Bool-cases (fits es)) [
    | inl e ↦
        rw e (Ensures-bind _ _ _ _ (recv_entries-RecvCounted es 0 s) (λ r h. Ensures-returns _ _ h))
    | inr e ↦ rw e (Ensures-faults _)
  ]

  -- The receive lock is waited for, so the code's test of it never fails.
  pub lock_test :
      (not (bypass_rx_lock cfg.locks) && not (owns_lock (get_rx_lock cfg.locks))) ≡ false
  unfolding get_rx_lock
  lock_test = ground arith

  poll_recv-RecvCounted :
      (rx_cq : ℕ) (s : State W)
      → Ensures
          (λ (r : ℤ × State W).
            RecvCounted cfg
              (read_entries (env.cq_read rx_cq cfg.max_completions_per_poll s.world).0)
              s
              r.1)
          (poll_recv_queue_default env user_data cfg rx_cq s)
  unfolding poll_recv_queue_default
  poll_recv-RecvCounted rx_cq s =
      let (r, w) = env.cq_read rx_cq cfg.max_completions_per_poll s.world in
      elim (Bool-cases (asserts cfg)) [
        | inl e ↦ rw e (Ensures-terminates _ _)
        | inr e ↦
            rw (e, lock_test)
              (Ensures-mono _ _ _ (recv_result-RecvCounted rx_cq r (record s { world = w }))
                (λ t h. RecvCounted-world (read_entries r) s t.1 w h))
      ]

  -- A poll of the receive queue that returns has counted every entry that it read, each under its
  -- own kind once, and has left the counters of the transmit side alone.
  pub poll_recv_counts :
      (rx_cq : ℕ) (s t : State W) (n : ℤ)
      → poll_recv_queue_default env user_data cfg rx_cq s ≡ returns (n, t)
      → RecvCounted cfg
          (read_entries (env.cq_read rx_cq cfg.max_completions_per_poll s.world).0)
          s
          t
  poll_recv_counts rx_cq s t n e = (poll_recv-RecvCounted rx_cq s).holds (n, t) e
