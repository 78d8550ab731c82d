-- ===== src/Poll/Counting.antt =====
-- What the completion counters say after a poll.
pub mod Received
use libfatbat.Prelude.{
  ℕ, ◌+◌, ◌≤◌, ◌≡◌, ◌≢◌, refl, sym, ap, subst, ◌∙◌, ◌⊎◌, inl, inr, if◌then◌else◌, ◌==◌, Bool-cases,
  Bool, true, false, List, [], ◌∷◌, count_if, length, ℤ, pos, negsuc, arith,
}
use mathlib.Core.Bool.{false≢true, not, ◌&&◌}
use libfatbat.Locks.{bypass_tx_lock, owns_lock, try_tx_lock}
use libfatbat.Fabric.{CqEntry, CqRead, entries, failed, is_null}
use libfatbat.Outcome.{Outcome, returns, faults, ◌>>=◌}
use libfatbat.Outcome.Post.{
  Ensures, Ensures-bind, Ensures-if, Ensures-mono, Ensures-of, Ensures-returns, Ensures-terminates,
  Ensures-faults,
}
use libfatbat.Counter.{Counter, pre_increment, advance}
use libfatbat.Poll.{Env, State, Settings, read_entries, tx_busy, fits, asserts}
use libfatbat.Poll.Send.{
  SendKind, send, read, write, unknown, send_kind, send_handler, count_send, send_entry,
  send_entries, send_error, send_result, poll_send_queue_default,
}

abbrev pub is_send : SendKind → Bool
is_send send = true
is_send _ = false

abbrev pub is_read : SendKind → Bool
is_read read = true
is_read _ = false

abbrev pub is_write : SendKind → Bool
is_write write = true
is_write _ = false

-- The counters of transmit completions went up by the number of entries of each kind, and the
-- other counters stayed.
pub record SendCounted {W : Type 0} (cfg : Settings) (es : List CqEntry) (s t : State W)
    : Type 0 where
  pub sends :
      t.sends_complete
      ≡ advance s.sends_complete (count_if (λ (e : CqEntry). is_send (send_kind cfg e.flags)) es)
  pub reads :
      t.reads_complete
      ≡ advance s.reads_complete (count_if (λ (e : CqEntry). is_read (send_kind cfg e.flags)) es)
  pub writes :
      t.writes_complete
      ≡ advance s.writes_complete (count_if (λ (e : CqEntry). is_write (send_kind cfg e.flags)) es)
  pub recvs : t.recvs_complete ≡ s.recvs_complete
  pub remote : t.remote_cq_data_received ≡ s.remote_cq_data_received

module _ {W : Type 0} (env : Env W) (user_data : ℕ) (cfg : Settings) where
  count_send-SendCounted :
      (e : CqEntry) (s : State W) (w : W) (k : SendKind)
      → send_kind cfg e.flags ≡ k
      → k ≢ unknown
      → SendCounted cfg (e ∷ []) s (record (count_send k s) { world = w })
  unfolding count_send
  count_send-SendCounted e s w send h n = ground arith
  count_send-SendCounted e s w read h n = ground arith
  count_send-SendCounted e s w write h n = ground arith
  count_send-SendCounted e s w unknown h n = absurd (n refl)

  -- An entry of unknown kind ends the program.
  handler_known :
      (k : SendKind) (ctx : ℕ) (w : W)
      → Ensures (λ _. k ≢ unknown) (send_handler env user_data k ctx w)
  unfolding send_handler
  handler_known send ctx w =
      Ensures-if _ (is_null ctx) faults (env.handle_tagged_send_completion ctx user_data w)
        (λ _. Ensures-faults _) (λ _. Ensures-of _ _ (λ e. cc))
  handler_known read ctx w =
      Ensures-if _ (is_null ctx) faults (env.handle_rma_read_completion ctx w)
        (λ _. Ensures-faults _) (λ _. Ensures-of _ _ (λ e. cc))
  handler_known write ctx w =
      Ensures-if _ (is_null ctx) (returns (0, w)) (env.handle_rma_write_completion ctx w)
        (λ _. Ensures-of _ _ (λ e. cc)) (λ _. Ensures-of _ _ (λ e. cc))
  handler_known unknown ctx w = Ensures-terminates _ _

  send_entry-SendCounted :
      (e : CqEntry) (s : State W)
      → Ensures
          (λ (r : ℕ × State W). SendCounted cfg (e ∷ []) s r.1)
          (send_entry env user_data cfg e s)
  unfolding send_entry
  send_entry-SendCounted e s =
      let k = send_kind cfg e.flags in
      Ensures-bind (λ _. k ≢ unknown) _ _ _ (handler_known k e.op_context _)
        λ r known. Ensures-returns _ _ (count_send-SendCounted e s r.1 k refl known)

  SendCounted-trans :
      (e : CqEntry) (es : List CqEntry) (s t u : State W)
      → SendCounted cfg (e ∷ []) s t
      → SendCounted cfg es t u
      → SendCounted cfg (e ∷ es) s u
  SendCounted-trans e es s t u a b = ground arith

  world_only : (s : State W) (w : W) → SendCounted cfg [] s (record s { world = w })
  world_only s w = ground arith

  SendCounted-world :
      (es : List CqEntry) (s t : State W) (w : W)
      → SendCounted cfg es (record s { world = w }) t
      → SendCounted cfg es s t
  SendCounted-world es s t w h = ground arith

  send_entries-SendCounted :
      (es : List CqEntry) (n : ℕ) (s : State W)
      → Ensures
          (λ (r : ℕ × State W). SendCounted cfg es s r.1)
          (send_entries env user_data cfg es n s)
  unfolding send_entries
  send_entries-SendCounted [] n s = Ensures-returns _ _ (world_only s s.world)
  send_entries-SendCounted (e ∷ es) n s =
      Ensures-bind _ _ _ _ (send_entry-SendCounted e s) λ a first.
        Ensures-mono _ _ _ (send_entries-SendCounted es _ a.1)
          (λ r rest. SendCounted-trans e es s a.1 r.1 first rest)

  send_error-SendCounted :
      (tx_cq : ℕ) (s : State W)
      → Ensures (λ (t : State W). SendCounted cfg [] s t) (send_error env user_data tx_cq s)
  unfolding send_error
  send_error-SendCounted tx_cq s =
      Ensures-bind _ _ _ _ (Ensures-of (Unit {0}) _ tt)
        (λ w _. Ensures-returns _ _ (world_only s w))

  send_result-SendCounted :
      (tx_cq : ℕ) (r : CqRead) (s : State W)
      → Ensures
          (λ (t : ℤ × State W). SendCounted cfg (read_entries r) s t.1)
          (send_result env user_data cfg tx_cq r s)
  unfolding send_result
  send_result-SendCounted tx_cq (failed x) s = elim (Bool-cases (x == cfg.fi_eavail)) [
    | inl e ↦
        rw e (Ensures-bind _ _ _ _ (send_error-SendCounted tx_cq s) (λ t h. Ensures-returns _ _ h))
    | inr e ↦ rw e (Ensures-returns _ _ (world_only s s.world))
  ]
  send_result-SendCounted tx_cq (entries es) s = elim (Bool-cases (fits es)) [
    | inl e ↦
        rw e (Ensures-bind _ _ _ _ (send_entries-SendCounted es 0 s) (λ r h. Ensures-returns _ _ h))
    | inr e ↦ rw e (Ensures-faults _)
  ]

  -- The code's test of the lock.
  pub lock_test :
      (free : Bool)
      → (not (bypass_tx_lock cfg.locks) && not (owns_lock (try_tx_lock cfg.locks free)))
        ≡ tx_busy cfg free
  unfolding try_tx_lock
  lock_test free = ground arith

  -- A poll whose queue lock another thread holds reports -1 and changes nothing.
  pub poll_send_busy :
      (tx_cq : ℕ) (free : Bool) (s : State W)
      → asserts cfg ≡ false
      → tx_busy cfg free ≡ true
      → poll_send_queue_default env user_data cfg tx_cq free s ≡ returns (negsuc 0, s)
  unfolding poll_send_queue_default
  poll_send_busy tx_cq free s e b = rw (e, lock_test free, b)

  poll_send-SendCounted :
      (tx_cq : ℕ) (free : Bool) (s : State W)
      → tx_busy cfg free ≡ false
      → Ensures
          (λ (r : ℤ × State W).
            SendCounted cfg
              (read_entries (env.cq_read tx_cq cfg.max_completions_per_poll s.world).0)
              s
              r.1)
          (poll_send_queue_default env user_data cfg tx_cq free s)
  unfolding poll_send_queue_default
  poll_send-SendCounted tx_cq free s b =
      let (r, w) = env.cq_read tx_cq cfg.max_completions_per_poll s.world in
      elim (Bool-cases (asserts cfg)) [
        | inl e ↦ rw e (Ensures-terminates _ _)
        | inr e ↦
            rw (e, lock_test free, b)
              (Ensures-mono _ _ _ (send_result-SendCounted tx_cq r (record s { world = w }))
                (λ t h. SendCounted-world (read_entries r) s t.1 w h))
      ]

  -- A poll of the transmit queue that returns has counted every entry that it read, each under its
  -- own kind once, and has left the counters of the receive side alone.
  pub poll_send_counts :
      (tx_cq : ℕ) (free : Bool) (s t : State W) (n : ℤ)
      → tx_busy cfg free ≡ false
      → poll_send_queue_default env user_data cfg tx_cq free s ≡ returns (n, t)
      → SendCounted cfg
          (read_entries (env.cq_read tx_cq cfg.max_completions_per_poll s.world).0)
          s
          t
  poll_send_counts tx_cq free s t n b e = (poll_send-SendCounted tx_cq free s b).holds (n, t) e
