-- ===== src/Poll.antt =====
-- Completion polling of include/libfatbat/controller_base.hpp: `poll_send_queue_default`,
-- `poll_recv_queue_default` and the loop `poll_for_work_completions` over them.
pub mod Send
pub mod Recv
pub mod Loop
pub mod Counting
pub mod Handlers
pub mod Delivery
mod Tests
use libfatbat.Prelude.{
  ℕ, zero, suc, ◌+◌, ◌%◌, bit_and, bit_or, Bool, true, false, not, ◌&&◌, ◌||◌, List, [], ◌∷◌,
  Option, none, some, ltb, leb, ◌==◌, if◌then◌else◌, length, ℤ, pos, negsuc, neg, to_u32, u32_mod,
}
use libfatbat.Fabric.{Consts, CqEntry, CqErrEntry, CqRead, is_null}
use libfatbat.Outcome.{Outcome}
use libfatbat.Counter.{Counter}
use libfatbat.Locks.{LockConfig, bypass_tx_lock}

-- The world outside the controller: libfabric's queues, and the code behind the operation contexts
-- and the derived controller. The `int` results of the handlers, which are counts of handled
-- completions, are 32-bit patterns, and a handler may throw or end the program.
pub record Env (W : Type 0) : Type 0 where
  pub cq_read : ℕ → ℕ → W → CqRead × W
  pub cq_readerr : ℕ → W → CqErrEntry × W
  pub handle_error : ℕ → CqErrEntry → W → Outcome W
  pub handle_cancelled : ℕ → W → Outcome W
  pub handle_tagged_send_completion : ℕ → ℕ → W → Outcome (ℕ × W)
  pub handle_rma_read_completion : ℕ → W → Outcome (ℕ × W)
  pub handle_rma_write_completion : ℕ → W → Outcome (ℕ × W)
  pub handle_tagged_recv_completion : ℕ → ℕ → W → Outcome (ℕ × W)
  pub handle_remote_cq_data_completion : ℕ → W → Outcome W

-- The members of the controller that polling changes, and the world.
pub record State (W : Type 0) : Type 0 where
  pub sends_complete : Counter
  pub recvs_complete : Counter
  pub reads_complete : Counter
  pub writes_complete : Counter
  pub remote_cq_data_received : Counter
  pub world : W

-- What polling reads of the controller. `ndebug` is set where `assert` is compiled out.
pub record Settings : Type 0 where
  pub consts : Consts
  pub open consts use *
  pub locks : LockConfig
  pub max_completions_per_poll : ℕ
  pub ndebug : Bool

-- `static constexpr uint32_t max_completions_array_limit_`.
abbrev pub max_completions_array_limit : ℕ
max_completions_array_limit = 256

-- `(flags & mask) != 0`.
abbrev pub any_of : ℕ → ℕ → Bool
any_of flags mask = not (bit_and flags mask == 0)

-- A write past `entry[max_completions_array_limit_ - 1]`.
abbrev pub fits : List CqEntry → Bool
fits es = leb (length es) max_completions_array_limit

-- The entries that a call of `fi_cq_read` wrote.
abbrev pub read_entries : CqRead → List CqEntry
read_entries (CqRead.entries es) = es
read_entries (CqRead.failed n) = []

-- The `assert` on the poll size fails.
abbrev pub asserts : Settings → Bool
asserts cfg = not cfg.ndebug && not (leb cfg.max_completions_per_poll max_completions_array_limit)

-- Another thread holds `send_mutex_`, and this one does not bypass it.
abbrev pub tx_busy : Settings → Bool → Bool
tx_busy cfg free = not (bypass_tx_lock cfg.locks) && not free
