-- ===== src/Poll/Recv.antt =====
-- `poll_recv_queue_default`.
use libfatbat.Prelude.{
  ℕ, ◌+◌, ◌%◌, u32_mod, of_u32, bit_or, not, ◌&&◌, List, [], ◌∷◌, leb, ◌==◌, if◌then◌else◌, ℤ, pos,
  negsuc,
}
use libfatbat.Fabric.{CqEntry, CqRead, entries, failed, is_null}
use libfatbat.Outcome.{Outcome, returns, terminates, faults, ◌>>=◌}
use libfatbat.Counter.{pre_increment}
use libfatbat.Locks.{bypass_rx_lock, get_rx_lock, owns_lock}
use libfatbat.Poll.{Env, State, Settings, max_completions_array_limit, any_of, fits}

pub data RecvKind : Type 0 where
  recv remote_data unknown : RecvKind

unfoldable pub recv_kind : Settings → ℕ → RecvKind
recv_kind cfg flags =
    if any_of flags (bit_or cfg.fi_tagged cfg.fi_recv)
    then recv
    else if any_of flags (bit_or (bit_or cfg.fi_rma cfg.fi_remote_write) cfg.fi_remote_cq_data)
    then remote_data
    else unknown

unfoldable pub count_recv : {W : Type 0} → RecvKind → State W → State W
count_recv recv s = record s { recvs_complete = (pre_increment s.recvs_complete).1 }
count_recv remote_data s = record s {
  remote_cq_data_received = (pre_increment s.remote_cq_data_received).1;
}
count_recv unknown s = s

module _ {W : Type 0} (env : Env W) (user_data : ℕ) where
  -- A remote write has no context of its own: its data goes to the derived controller.
  unfoldable pub recv_handler : RecvKind → CqEntry → W → Outcome (ℕ × W)
  recv_handler recv e w =
      if is_null e.op_context
      then faults
      else env.handle_tagged_recv_completion e.op_context user_data w
  recv_handler remote_data e w =
      env.handle_remote_cq_data_completion e.cq_data w >>= λ w'. returns (0, w')
  recv_handler unknown e w = terminates (pos 0)

  unfoldable pub recv_entry : Settings → CqEntry → State W → Outcome (ℕ × State W)
  unfolding recv_handler count_recv
  recv_entry cfg e s =
      let kind = recv_kind cfg e.flags in
      let s' = count_recv kind s in
      recv_handler kind e s'.world >>= λ r. returns (r.0, record s' { world = r.1 })

  -- `processed` is an `int`, here as its 32-bit pattern; a sum past the range of `int` wraps.
  unfoldable pub recv_entries : Settings → List CqEntry → ℕ → State W → Outcome (ℕ × State W)
  recv_entries cfg [] processed s = returns (processed, s)
  recv_entries cfg (e ∷ es) processed s =
      recv_entry cfg e s >>= λ r. recv_entries cfg es ((processed + r.0) % u32_mod) r.1

  -- `ret == -FI_EAVAIL`. A cancelled request's context is used without a test for null.
  unfoldable pub recv_error : Settings → ℕ → State W → Outcome (State W)
  recv_error cfg rx_cq s =
      let (e, w) = env.cq_readerr rx_cq s.world in
      (if e.err == cfg.fi_ecanceled
        then (if is_null e.op_context then faults else env.handle_cancelled e.op_context w)
        else if is_null e.op_context
        then returns w
        else env.handle_error e.op_context e w)
      >>= λ w'. returns (record s { world = w' })

  unfoldable pub recv_result : Settings → ℕ → CqRead → State W → Outcome (ℤ × State W)
  unfolding recv_entries recv_error
  recv_result cfg rx_cq (failed n) s =
      if n == cfg.fi_eavail
      then (recv_error cfg rx_cq s >>= λ s'. returns (pos 0, s'))
      else returns (pos 0, s)
  recv_result cfg rx_cq (entries es) s =
      if fits es then (recv_entries cfg es 0 s >>= λ r. returns (of_u32 r.0, r.1)) else faults

  -- `get_rx_lock` waits for `recv_mutex_`.
  unfoldable pub poll_recv_queue_default : Settings → ℕ → State W → Outcome (ℤ × State W)
  unfolding recv_result
  poll_recv_queue_default cfg rx_cq s =
      if not cfg.ndebug && not (leb cfg.max_completions_per_poll max_completions_array_limit)
      then terminates (pos 0)
      else if not (bypass_rx_lock cfg.locks) && not (owns_lock (get_rx_lock cfg.locks))
      then returns (negsuc 0, s)
      else let (r, w) = env.cq_read rx_cq cfg.max_completions_per_poll s.world in
        recv_result cfg rx_cq r (record s { world = w })
