-- ===== src/Poll/Loop.antt =====
-- `progress_status` and `poll_for_work_completions`. An `int` of the status is its 32-bit pattern.
pub mod Ends
pub mod Drains
pub mod Contended
use libfatbat.Prelude.{
  ℕ, zero, suc, ◌+◌, ◌%◌, Bool, true, false, ◌||◌, Option, none, some, ◌==◌, if◌then◌else◌, ℤ,
  to_u32, of_u32, u32_mod,
}
use libfatbat.Outcome.{Outcome, returns, throws, terminates, faults, ◌>>=◌}
use libfatbat.Poll.{Env, State, Settings}
use libfatbat.Poll.Send.{poll_send_queue_default}
use libfatbat.Poll.Recv.{poll_recv_queue_default}

pub record ProgressStatus : Type 0 where
  pub m_num_sends : ℕ
  pub m_num_recvs : ℕ

pub num : ProgressStatus → ℤ
num p = of_u32 ((p.m_num_sends + p.m_num_recvs) % u32_mod)

pub num_sends : ProgressStatus → ℤ
num_sends p = of_u32 p.m_num_sends

pub num_recvs : ProgressStatus → ℤ
num_recvs p = of_u32 p.m_num_recvs

-- `operator+=`.
pub add_status : ProgressStatus → ProgressStatus → ProgressStatus
add_status p other = record {
  m_num_sends = (p.m_num_sends + other.m_num_sends) % u32_mod;
  m_num_recvs = (p.m_num_recvs + other.m_num_recvs) % u32_mod;
}

abbrev pub no_progress : ProgressStatus
no_progress = record { m_num_sends = 0; m_num_recvs = 0 }

-- What one round leaves: whether to go round again, the status and the state.
pub record Round (S : Type 0) : Type 0 where
  pub retry : Bool
  pub status : ProgressStatus
  pub state : S

-- The loop over the derived controller's `poll_send_queue` and `poll_recv_queue`.
module _ {S : Type 0} (poll_send poll_recv : S → Outcome (ℤ × S)) (max_completions : ℕ) where
  unfoldable pub poll_round : ProgressStatus → S → Outcome (Round S)
  poll_round p s = poll_send s >>= λ sent.
      let nsend = to_u32 sent.0 in
      poll_recv sent.1 >>= λ received.
      let nrecv = to_u32 received.0 in
      returns (record {
        retry = (nsend == max_completions) || (nrecv == max_completions);
        status = record {
          m_num_sends = (p.m_num_sends + nsend) % u32_mod;
          m_num_recvs = (p.m_num_recvs + nrecv) % u32_mod;
        };
        state = received.1;
      })

  -- `none`: the rounds ran out before the loop ended.
  unfoldable pub poll_loop : ℕ → ProgressStatus → S → Option (Outcome (ProgressStatus × S))
  poll_loop zero p s = none
  poll_loop (suc rounds) p s = elim (poll_round p s) [
    | returns r ↦ elim r.retry [
      | true ↦ poll_loop rounds r.status r.state
      | false ↦ some (returns (r.status, r.state))
    ]
    | throws e ↦ some (throws e)
    | terminates c ↦ some (terminates c)
    | faults ↦ some faults
  ]

-- An endpoint that the thread has and gets again with each call: the queue is always the same.
abbrev pub same_queue : {W : Type 0} → ℕ → W → Outcome (ℕ × W)
same_queue q w = returns (q, w)

-- With the default polling functions. `get_tx_cq` and `get_rx_cq` are the queues of what
-- `get_tx_endpoint` and `get_rx_endpoint` return; those are called in each round, and may make an
-- endpoint or throw. `tx_free` tells of a state of the world whether `send_mutex_` is free to this
-- thread.
unfoldable pub poll_for_work_completions :
    {W : Type 0}
    → Env W
    → Settings
    → (W → Bool)
    → (W → Outcome (ℕ × W))
    → (W → Outcome (ℕ × W))
    → ℕ
    → ℕ
    → State W
    → Option (Outcome (ProgressStatus × State W))
unfolding poll_loop
poll_for_work_completions env cfg tx_free get_tx_cq get_rx_cq user_data rounds s =
    poll_loop
      (λ t. get_tx_cq t.world >>= λ q.
        poll_send_queue_default env user_data cfg q.0 (tx_free q.1) (record t { world = q.1 }))
      (λ t. get_rx_cq t.world >>= λ q.
        poll_recv_queue_default env user_data cfg q.0 (record t { world = q.1 }))
      cfg.max_completions_per_poll rounds no_progress s
