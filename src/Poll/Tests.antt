-- ===== src/Poll/Tests.antt =====
-- Polling in a small environment: the world is the list of completions that are still to be read
-- from the transmit queue, number 1, and no other queue has any.
use libfatbat.Prelude.{
  ℕ, ◌+◌, ◌≤◌, ◌≡◌, ◌⊎◌, refl, Bool, true, false, List, [], ◌∷◌, length, take, drop,
  length-take-drop, none, some, ◌==◌, if◌then◌else◌, pos, negsuc, arith,
}
use libfatbat.Fabric.Values.{consts}
use libfatbat.Fabric.{CqEntry, CqErrEntry, CqRead, entries, failed}
use libfatbat.Outcome.{Outcome, returns, terminates}
use libfatbat.Outcome.Laws.{ending}
use libfatbat.Outcome.Post.{Ensures-returns, Ensures-terminates}
use libfatbat.Counter.{enabled, pre_increment}
use libfatbat.Settings.{EndpointType}
use libfatbat.Locks.{Provider, bypass_tx_lock, bypass_rx_lock}
use libfatbat.Poll.{Env, State, Settings, read_entries}
use libfatbat.Poll.Send.{send_kind, send_entry, poll_send_queue_default}
use libfatbat.Poll.Recv.{recv_kind, recv_entry, poll_recv_queue_default}
use libfatbat.Poll.Counting.{SendCounted, poll_send_counts}
use libfatbat.Poll.Counting.Received.{RecvCounted, poll_recv_counts}
use libfatbat.Poll.Loop.{ProgressStatus, num, num_sends, poll_for_work_completions, same_queue}
use libfatbat.Poll.Loop.Drains.{Drains}
use libfatbat.Poll.Loop.Drains.Total.{
  poll_for_work_completions_total, poll_for_work_completions_size_zero,
}
use libfatbat.Poll.Loop.Contended.{lost, poll_for_work_completions_contended}

abbrev settings : Bool → ℕ → Settings
settings thread_safe size = record {
  consts = consts;
  locks = record {
    provider = Provider.tcp;
    thread_safe = thread_safe;
    endpoint_type = EndpointType.single;
  };
  max_completions_per_poll = size;
  ndebug = true;
}

abbrev error_entry : CqErrEntry
error_entry = record { op_context = 0; flags = 0; err = 5; prov_errno = 5 }

abbrev read_queue : ℕ → ℕ → List CqEntry → CqRead × List CqEntry
read_queue q n w = if q == 1 then (entries (take n w), drop n w) else (failed 11, w)

abbrev env : Env (List CqEntry)
env = record {
  cq_read = read_queue;
  cq_readerr = λ q w. (error_entry, w);
  handle_error = λ ctx e w. terminates (pos 5);
  handle_cancelled = λ ctx w. terminates (pos 0);
  handle_tagged_send_completion = λ ctx u w. returns (1, w);
  handle_rma_read_completion = λ ctx w. returns (1, w);
  handle_rma_write_completion = λ ctx w. returns (1, w);
  handle_tagged_recv_completion = λ ctx u w. returns (1, w);
  handle_remote_cq_data_completion = λ d w. returns w;
}

read_queue_takes :
    (q n : ℕ) (w : List CqEntry)
    → (length (read_entries (read_queue q n w).0) ≤ n)
      × (length (read_queue q n w).1 + length (read_entries (read_queue q n w).0) ≤ length w)
read_queue_takes q n w = ground (arith, length-take-drop n w)

env-Drains : Drains env (λ (w : List CqEntry). length w)
env-Drains = record {
  at_most = λ q n w. (read_queue_takes q n w).0;
  taken = λ q n w. (read_queue_takes q n w).1;
  error_read = λ q w. omega arith;
  error_handled = λ ctx e w. Ensures-terminates _ _;
  cancelled = λ ctx w. Ensures-terminates _ _;
  sent = λ ctx u w. Ensures-returns _ _ (omega arith);
  was_read = λ ctx w. Ensures-returns _ _ (omega arith);
  written = λ ctx w. Ensures-returns _ _ (omega arith);
  received = λ ctx u w. Ensures-returns _ _ (omega arith);
  remote_data = λ d w. Ensures-returns _ _ (omega arith);
}

-- A tagged send, an RMA write without a context, and an RMA read.
abbrev pending : List CqEntry
pending =
    record { op_context = 64; flags = 0x808; cq_data = 0 }
    ∷ record { op_context = 0; flags = 0x204; cq_data = 0 }
    ∷ record { op_context = 72; flags = 0x104; cq_data = 0 }
    ∷ []

abbrev start : List CqEntry → State (List CqEntry)
start w = record {
  sends_complete = enabled 0;
  recvs_complete = enabled 0;
  reads_complete = enabled 0;
  writes_complete = enabled 0;
  remote_cq_data_received = enabled 0;
  world = w;
}

abbrev polled : State (List CqEntry)
polled = record (start []) {
  sends_complete = enabled 1;
  reads_complete = enabled 1;
  writes_complete = enabled 1;
}

poll_send_run :
    poll_send_queue_default env 0 (settings true 4) 1 true (start pending) ≡ returns (pos 2, polled)
unfolding poll_send_queue_default send_entry send_kind bypass_tx_lock pre_increment
poll_send_run = refl

poll_send_counts_example : SendCounted (settings true 4) pending (start pending) polled
poll_send_counts_example =
    poll_send_counts env 0 (settings true 4) 1 true (start pending) polled (pos 2)
      (unfold bypass_tx_lock in refl) poll_send_run

-- A tagged message and the data of a remote write.
abbrev arrivals : List CqEntry
arrivals =
    record { op_context = 80; flags = 0x408; cq_data = 0 }
    ∷ record { op_context = 0; flags = 0x22004; cq_data = 7 }
    ∷ []

abbrev received : State (List CqEntry)
received = record (start []) { recvs_complete = enabled 1; remote_cq_data_received = enabled 1 }

poll_recv_run :
    poll_recv_queue_default env 0 (settings true 4) 1 (start arrivals) ≡ returns (pos 1, received)
unfolding poll_recv_queue_default recv_entry recv_kind bypass_rx_lock pre_increment
poll_recv_run = refl

poll_recv_counts_example : RecvCounted (settings true 4) arrivals (start arrivals) received
poll_recv_counts_example =
    poll_recv_counts env 0 (settings true 4) 1 (start arrivals) received (pos 1) poll_recv_run

poll_for_work_completions_total_example :
    (o : Outcome (ProgressStatus × State (List CqEntry))) × (poll_for_work_completions env
        (settings false 2)
        (λ w. true)
        (same_queue 1)
        (same_queue 2)
        0
        4
        (start pending)
      ≡ some o)
    × ((ending o ≡ returns tt)
        ⊎ ((t : State (List CqEntry)) × ((ending
                  (poll_send_queue_default env 0 (settings false 2) 1 true t)
                ≡ ending o)
              ⊎ (ending (poll_recv_queue_default env 0 (settings false 2) 2 t) ≡ ending o))))
poll_for_work_completions_total_example =
    poll_for_work_completions_total env 0 (settings false 2) length env-Drains (omega arith)
      (omega arith) (λ w. true) 1 2 4 (start pending) (omega arith)

abbrev silent : Env (List CqEntry)
silent = record env { cq_read = λ q n w. (failed 11, w) }

poll_for_work_completions_size_zero_example :
    poll_for_work_completions silent
      (settings true 0)
      (λ w. true)
      (same_queue 1)
      (same_queue 2)
      0
      1000
      (start [])
    ≡ none
poll_for_work_completions_size_zero_example =
    poll_for_work_completions_size_zero silent 0 (settings true 0) (λ q n w. (w, refl)) refl refl
      (λ w. true) 1 2 1000 (start []) (unfold bypass_tx_lock in refl)

poll_for_work_completions_contended_example :
    (t : State (List CqEntry)) × (poll_for_work_completions silent
        (settings false 4)
        (λ w. false)
        (same_queue 1)
        (same_queue 2)
        0
        1
        (start [])
      ≡ some (returns (lost, t)))
    × (num_sends lost ≡ negsuc 0)
    × (num lost ≡ negsuc 0)
poll_for_work_completions_contended_example =
    poll_for_work_completions_contended silent 0 (settings false 4) (λ q n w. (w, refl)) refl
      (omega arith) (omega arith) (λ w. false) 1 2 0 (start []) (unfold bypass_tx_lock in refl)
