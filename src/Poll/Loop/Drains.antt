-- ===== src/Poll/Loop/Drains.antt =====
-- `poll_for_work_completions` with the default polling functions: what it takes for it to end.
pub mod Sends
pub mod Recvs
pub mod Total
use libfatbat.Prelude.{ℕ, ◌+◌, ◌^◌, ◌≤◌, ◌<◌, ◌≡◌, List, true, length, ℤ, pos, arith}
use libfatbat.Fabric.{CqEntry, CqErrEntry}
use libfatbat.Outcome.Post.{Ensures}
use libfatbat.Poll.{Env, State, read_entries, fits}

-- What ends the loop: reading a queue takes the entries off a finite backlog, no more than were
-- asked for, and the handlers report at most one completion each and add nothing to the backlog.
pub record Drains {W : Type 0} (env : Env W) (backlog : W → ℕ) : Type 0 where
  pub at_most : (q n : ℕ) (w : W) → length (read_entries (env.cq_read q n w).0) ≤ n
  pub taken :
      (q n : ℕ) (w : W)
      → backlog (env.cq_read q n w).1 + length (read_entries (env.cq_read q n w).0) ≤ backlog w
  pub error_read : (q : ℕ) (w : W) → backlog (env.cq_readerr q w).1 ≤ backlog w
  pub error_handled :
      (ctx : ℕ) (e : CqErrEntry) (w : W)
      → Ensures (λ (v : W). backlog v ≤ backlog w) (env.handle_error ctx e w)
  pub cancelled :
      (ctx : ℕ) (w : W) → Ensures (λ (v : W). backlog v ≤ backlog w) (env.handle_cancelled ctx w)
  pub sent :
      (ctx u : ℕ) (w : W)
      → Ensures
          (λ (r : ℕ × W). (r.0 ≤ 1) × (backlog r.1 ≤ backlog w))
          (env.handle_tagged_send_completion ctx u w)
  pub was_read :
      (ctx : ℕ) (w : W)
      → Ensures
          (λ (r : ℕ × W). (r.0 ≤ 1) × (backlog r.1 ≤ backlog w))
          (env.handle_rma_read_completion ctx w)
  pub written :
      (ctx : ℕ) (w : W)
      → Ensures
          (λ (r : ℕ × W). (r.0 ≤ 1) × (backlog r.1 ≤ backlog w))
          (env.handle_rma_write_completion ctx w)
  pub received :
      (ctx u : ℕ) (w : W)
      → Ensures
          (λ (r : ℕ × W). (r.0 ≤ 1) × (backlog r.1 ≤ backlog w))
          (env.handle_tagged_recv_completion ctx u w)
  pub remote_data :
      (d : ℕ) (w : W)
      → Ensures (λ (v : W). backlog v ≤ backlog w) (env.handle_remote_cq_data_completion d w)

-- What a poll may report: a count of at most `k`, with no more left than `b`.
abbrev pub Reports : {W : Type 0} → (W → ℕ) → ℕ → ℕ → ℤ × State W → Type 0
Reports backlog k b r = (m : ℕ) × (r.0 ≡ pos m) × (m ≤ k) × (backlog r.1.world ≤ b)

-- The entries that fit the array complete fewer requests than an `int` can count.
pub few : (es : List CqEntry) (m : ℕ) → fits es ≡ true → m ≤ 0 + length es → m < 2 ^ 31
few es m room h = ground arith
