-- ===== src/Poll/Delivery.antt =====
-- What polling promises of completions, for queues that hand their entries out in order: the
-- abstract view of the queues and of the handlers that ran, and what the code relies on.
pub mod Sends
pub mod Recvs
pub mod Rounds
pub mod Drained
mod Tests
use libfatbat.Prelude.{ℕ, ◌≡◌, ◌≢◌, List, [], ◌∷◌, ◌++◌, map, take, drop}
use libfatbat.Fabric.{CqEntry, CqRead, entries, failed}
use libfatbat.Outcome.{Outcome, returns}
use libfatbat.Poll.{Env, Settings}
use libfatbat.Poll.Send.{SendKind, send, read, write, unknown, send_kind}
use libfatbat.Poll.Recv.{RecvKind, recv, recv_kind}

-- The entries that wait in the two queues, and the contexts whose handlers ran, oldest first; for
-- the transmit queue with the kind of handler.
pub record View : Type 0 where
  pub tx : List CqEntry
  pub rx : List CqEntry
  pub sent : List (SendKind × ℕ)
  pub received : List ℕ

abbrev pub add_sent : View → SendKind → ℕ → View
add_sent v k ctx = record v { sent = v.sent ++ ((k, ctx) ∷ []) }

abbrev pub add_received : View → ℕ → View
add_received v ctx = record v { received = v.received ++ (ctx ∷ []) }

-- The result of `fi_cq_read`, where these entries wait.
abbrev pub answer : Settings → List CqEntry → CqRead
answer cfg [] = failed cfg.fi_eagain
answer cfg (e ∷ es) = entries (take cfg.max_completions_per_poll (e ∷ es))

-- A handler returns 1, and leaves the view `v`.
abbrev pub Handles : {W : Type 0} → (W → View) → View → Outcome (ℕ × W) → Type 0
Handles {W} view v m = (w : W) × (m ≡ returns (1, w)) × (view w ≡ v)

-- A read takes the entries that it returns off the front of its queue, and a handler completes one
-- request, posts nothing new to the queues and touches nothing else.
pub record InOrder {W : Type 0} (env : Env W) (cfg : Settings) (user_data tx_cq rx_cq : ℕ)
    (view : W → View) : Type 0 where
  pub read_tx :
      (w : W)
      → ((env.cq_read tx_cq cfg.max_completions_per_poll w).0 ≡ answer cfg (view w).tx)
        × (view (env.cq_read tx_cq cfg.max_completions_per_poll w).1
            ≡ record (view w) { tx = drop cfg.max_completions_per_poll (view w).tx })
  pub read_rx :
      (w : W)
      → ((env.cq_read rx_cq cfg.max_completions_per_poll w).0 ≡ answer cfg (view w).rx)
        × (view (env.cq_read rx_cq cfg.max_completions_per_poll w).1
            ≡ record (view w) { rx = drop cfg.max_completions_per_poll (view w).rx })
  pub sends :
      (ctx : ℕ) (w : W)
      → Handles view
          (add_sent (view w) send ctx)
          (env.handle_tagged_send_completion ctx user_data w)
  pub reads :
      (ctx : ℕ) (w : W)
      → Handles view (add_sent (view w) read ctx) (env.handle_rma_read_completion ctx w)
  pub writes :
      (ctx : ℕ) (w : W)
      → Handles view (add_sent (view w) write ctx) (env.handle_rma_write_completion ctx w)
  pub receives :
      (ctx : ℕ) (w : W)
      → Handles view (add_received (view w) ctx) (env.handle_tagged_recv_completion ctx user_data w)

-- Completions that the code counts as handled: of a known kind and with a context.
abbrev pub IsSent : Settings → CqEntry → Type 0
IsSent cfg e = (send_kind cfg e.flags ≢ unknown) × (e.op_context ≢ 0)

abbrev pub IsReceived : Settings → CqEntry → Type 0
IsReceived cfg e = (recv_kind cfg e.flags ≡ recv) × (e.op_context ≢ 0)

-- What the handlers are given, in order.
abbrev pub sent_of : Settings → List CqEntry → List (SendKind × ℕ)
sent_of cfg = map (λ e. (send_kind cfg e.flags, e.op_context))

abbrev pub received_of : List CqEntry → List ℕ
received_of = map (λ e. e.op_context)

abbrev pub sent_all : Settings → View → List CqEntry → View
sent_all cfg v es = record v { sent = v.sent ++ sent_of cfg es }

abbrev pub received_all : View → List CqEntry → View
received_all v es = record v { received = v.received ++ received_of es }
