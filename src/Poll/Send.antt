-- ===== src/Poll/Send.antt =====
-- `poll_send_queue_default`.
use libfatbat.Prelude.{
  ℕ, ◌+◌, ◌%◌, u32_mod, of_u32, bit_and, bit_or, Bool, not, ◌&&◌, List, [], ◌∷◌, leb, ◌==◌,
  if◌then◌else◌, ℤ, pos, negsuc,
}
use libfatbat.Fabric.{CqEntry, CqRead, entries, failed, is_null}
use libfatbat.Outcome.{Outcome, returns, terminates, faults, ◌>>=◌}
use libfatbat.Counter.{pre_increment}
use libfatbat.Locks.{bypass_tx_lock, try_tx_lock, owns_lock}
use libfatbat.Poll.{Env, State, Settings, max_completions_array_limit, any_of, fits}

-- The branches on the flags of a completion.
pub data SendKind : Type 0 where
  send read write unknown : SendKind

unfoldable pub send_kind : Settings → ℕ → SendKind
send_kind cfg flags =
    if any_of flags (bit_or (bit_or cfg.fi_tagged cfg.fi_send) cfg.fi_msg)
    then send
    else if flags == bit_or cfg.fi_read cfg.fi_rma
    then read
    else if bit_and flags (bit_or cfg.fi_write cfg.fi_rma) == bit_or cfg.fi_write cfg.fi_rma
    then write
    else unknown

-- The counter that goes up before the handler runs.
unfoldable pub count_send : {W : Type 0} → SendKind → State W → State W
count_send send s = record s { sends_complete = (pre_increment s.sends_complete).1 }
count_send read s = record s { reads_complete = (pre_increment s.reads_complete).1 }
count_send write s = record s { writes_complete = (pre_increment s.writes_complete).1 }
count_send unknown s = s

module _ {W : Type 0} (env : Env W) (user_data : ℕ) where
  -- `processed += handler->...`: the handler of a null context is not to be called.
  unfoldable pub send_handler : SendKind → ℕ → W → Outcome (ℕ × W)
  send_handler send ctx w =
      if is_null ctx then faults else env.handle_tagged_send_completion ctx user_data w
  send_handler read ctx w = if is_null ctx then faults else env.handle_rma_read_completion ctx w
  send_handler write ctx w =
      if is_null ctx then returns (0, w) else env.handle_rma_write_completion ctx w
  send_handler unknown ctx w = terminates (pos 0)

  -- One round of the loop over `entry[0]` to `entry[ret - 1]`.
  unfoldable pub send_entry : Settings → CqEntry → State W → Outcome (ℕ × State W)
  unfolding send_handler count_send
  send_entry cfg e s =
      let kind = send_kind cfg e.flags in
      let s' = count_send kind s in
      send_handler kind e.op_context s'.world >>= λ r. returns (r.0, record s' { world = r.1 })

  -- `processed` is an `int`, here as its 32-bit pattern; a sum past the range of `int` wraps.
  unfoldable pub send_entries : Settings → List CqEntry → ℕ → State W → Outcome (ℕ × State W)
  send_entries cfg [] processed s = returns (processed, s)
  send_entries cfg (e ∷ es) processed s =
      send_entry cfg e s >>= λ r. send_entries cfg es ((processed + r.0) % u32_mod) r.1

  -- `ret == -FI_EAVAIL`: the error entry goes to the context's handler, if there is a context.
  unfoldable pub send_error : ℕ → State W → Outcome (State W)
  send_error tx_cq s =
      let (e, w) = env.cq_readerr tx_cq s.world in
      (if is_null e.op_context then returns w else env.handle_error e.op_context e w) >>= λ w'.
      returns (record s { world = w' })

  -- By the result of `fi_cq_read`.
  unfoldable pub send_result : Settings → ℕ → CqRead → State W → Outcome (ℤ × State W)
  unfolding send_entries send_error
  send_result cfg tx_cq (failed n) s =
      if n == cfg.fi_eavail
      then (send_error tx_cq s >>= λ s'. returns (pos 0, s'))
      else returns (pos 0, s)
  send_result cfg tx_cq (entries es) s =
      if fits es then (send_entries cfg es 0 s >>= λ r. returns (of_u32 r.0, r.1)) else faults

  -- `free`: no other thread holds `send_mutex_` when this one tries to take it.
  unfoldable pub poll_send_queue_default : Settings → ℕ → Bool → State W → Outcome (ℤ × State W)
  unfolding send_result
  poll_send_queue_default cfg tx_cq free s =
      if not cfg.ndebug && not (leb cfg.max_completions_per_poll max_completions_array_limit)
      then terminates (pos 0)
      else if not (bypass_tx_lock cfg.locks) && not (owns_lock (try_tx_lock cfg.locks free))
      then returns (negsuc 0, s)
      else let (r, w) = env.cq_read tx_cq cfg.max_completions_per_poll s.world in
        send_result cfg tx_cq r (record s { world = w })
