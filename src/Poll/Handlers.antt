-- ===== src/Poll/Handlers.antt =====
-- The handlers of include/libfatbat/operation_context_base.hpp, and the one of
-- include/libfatbat/controller_base.hpp for remote data: each calls the derived class, which may
-- override it, and has a default where it does not. An override is `none` where there is none.
mod Errors
use libfatbat.Prelude.{ℕ, Option, none, some, pos}
use libfatbat.Fabric.{CqErrEntry, CqRead}
use libfatbat.Outcome.{Outcome, returns, terminates, throw_fabric_error}
use libfatbat.Poll.{Env}

-- What a derived class overrides. The first argument is the context.
pub record Overrides (W : Type 0) : Type 0 where
  pub error : Option (ℕ → CqErrEntry → W → Outcome W)
  pub cancelled : Option (ℕ → W → Outcome W)
  pub send_completion : Option (ℕ → W → Outcome (ℕ × W))
  pub tagged_send_completion : Option (ℕ → ℕ → W → Outcome (ℕ × W))
  pub recv_completion : Option (ℕ → ℕ → W → Outcome (ℕ × W))
  pub tagged_recv_completion : Option (ℕ → ℕ → W → Outcome (ℕ × W))
  pub rma_read_completion : Option (ℕ → W → Outcome (ℕ × W))
  pub rma_write_completion : Option (ℕ → W → Outcome (ℕ × W))
  pub new_connection : Option (ℕ → ℕ → W → Outcome (ℕ × W))
  pub remote_cq_data_completion : Option (ℕ → W → Outcome W)

module _ {W : Type 0} where
  -- `handle_error_impl`; what follows its `throw` is not reached.
  unfoldable pub handle_error_impl : CqErrEntry → W → Outcome W
  unfolding throw_fabric_error
  handle_error_impl err w = throw_fabric_error (pos err.prov_errno)

  unfoldable pub handle_cancelled_impl : W → Outcome W
  handle_cancelled_impl w = terminates (pos 0)

  -- The defaults of all completions: they report that nothing was handled.
  unfoldable pub handle_completion_impl : W → Outcome (ℕ × W)
  handle_completion_impl w = returns (0, w)

  unfoldable pub handle_remote_cq_data_completion_impl : W → Outcome W
  handle_remote_cq_data_completion_impl w = returns w

  unfoldable pub handle_error : Overrides W → ℕ → CqErrEntry → W → Outcome W
  unfolding handle_error_impl
  handle_error o ctx err w = elim o.error [ none ↦ handle_error_impl err w | some f ↦ f ctx err w ]

  unfoldable pub handle_cancelled : Overrides W → ℕ → W → Outcome W
  unfolding handle_cancelled_impl
  handle_cancelled o ctx w = elim o.cancelled [ none ↦ handle_cancelled_impl w | some f ↦ f ctx w ]

  unfoldable pub handle_send_completion : Overrides W → ℕ → W → Outcome (ℕ × W)
  unfolding handle_completion_impl
  handle_send_completion o ctx w = elim o.send_completion [
    | none ↦ handle_completion_impl w
    | some f ↦ f ctx w
  ]

  unfoldable pub handle_tagged_send_completion : Overrides W → ℕ → ℕ → W → Outcome (ℕ × W)
  unfolding handle_completion_impl
  handle_tagged_send_completion o ctx user_data w = elim o.tagged_send_completion [
    | none ↦ handle_completion_impl w
    | some f ↦ f ctx user_data w
  ]

  unfoldable pub handle_recv_completion : Overrides W → ℕ → ℕ → W → Outcome (ℕ × W)
  unfolding handle_completion_impl
  handle_recv_completion o ctx len w = elim o.recv_completion [
    | none ↦ handle_completion_impl w
    | some f ↦ f ctx len w
  ]

  unfoldable pub handle_tagged_recv_completion : Overrides W → ℕ → ℕ → W → Outcome (ℕ × W)
  unfolding handle_completion_impl
  handle_tagged_recv_completion o ctx user_data w = elim o.tagged_recv_completion [
    | none ↦ handle_completion_impl w
    | some f ↦ f ctx user_data w
  ]

  unfoldable pub handle_rma_read_completion : Overrides W → ℕ → W → Outcome (ℕ × W)
  unfolding handle_completion_impl
  handle_rma_read_completion o ctx w = elim o.rma_read_completion [
    | none ↦ handle_completion_impl w
    | some f ↦ f ctx w
  ]

  unfoldable pub handle_rma_write_completion : Overrides W → ℕ → W → Outcome (ℕ × W)
  unfolding handle_completion_impl
  handle_rma_write_completion o ctx w = elim o.rma_write_completion [
    | none ↦ handle_completion_impl w
    | some f ↦ f ctx w
  ]

  unfoldable pub handle_new_connection : Overrides W → ℕ → ℕ → W → Outcome (ℕ × W)
  unfolding handle_completion_impl
  handle_new_connection o ctx len w = elim o.new_connection [
    | none ↦ handle_completion_impl w
    | some f ↦ f ctx len w
  ]

  unfoldable pub handle_remote_cq_data_completion : Overrides W → ℕ → W → Outcome W
  unfolding handle_remote_cq_data_completion_impl
  handle_remote_cq_data_completion o value w = elim o.remote_cq_data_completion [
    | none ↦ handle_remote_cq_data_completion_impl w
    | some f ↦ f value w
  ]

  -- What polling sees: libfabric's queues, and these handlers.
  unfoldable pub context_env :
      Overrides W → (ℕ → ℕ → W → CqRead × W) → (ℕ → W → CqErrEntry × W) → Env W
  unfolding handle_error handle_cancelled handle_tagged_send_completion
      handle_tagged_recv_completion handle_rma_read_completion handle_rma_write_completion
      handle_remote_cq_data_completion
  context_env o cq_read cq_readerr = record {
    cq_read = cq_read;
    cq_readerr = cq_readerr;
    handle_error = handle_error o;
    handle_cancelled = handle_cancelled o;
    handle_tagged_send_completion = handle_tagged_send_completion o;
    handle_rma_read_completion = handle_rma_read_completion o;
    handle_rma_write_completion = handle_rma_write_completion o;
    handle_tagged_recv_completion = handle_tagged_recv_completion o;
    handle_remote_cq_data_completion = handle_remote_cq_data_completion o;
  }
