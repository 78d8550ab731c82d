-- ===== src/Poll/Delivery/Tests.antt =====
-- Polling over queues that are lists, in batches of two: the world is the abstract view itself.
use libfatbat.Prelude.{
  ℕ, ◌≡◌, refl, true, false, [], ◌∷◌, List, take, drop, All, some, pos, ◌==◌, if◌then◌else◌, arith,
}
use libfatbat.Fabric.Values.{consts}
use libfatbat.Fabric.{CqEntry, CqRead, entries, failed}
use libfatbat.Outcome.{returns, terminates}
use libfatbat.Counter.{enabled}
use libfatbat.Settings.{EndpointType}
use libfatbat.Locks.{Provider}
use libfatbat.Poll.{Env, State, Settings, tx_busy}
use libfatbat.Poll.Send.{send, read, write, send_kind}
use libfatbat.Poll.Recv.{recv_kind}
use libfatbat.Poll.Loop.{no_progress, poll_for_work_completions, same_queue, same_queue}
use libfatbat.Poll.Delivery.{View, InOrder, IsSent, IsReceived, answer, add_sent, add_received}
use libfatbat.Poll.Delivery.Rounds.{counted, delivered}
use libfatbat.Poll.Delivery.Drained.{poll_for_work_completions-delivered}

abbrev in_twos : Settings
in_twos = record {
  consts = consts;
  locks = record {
    provider = Provider.tcp;
    thread_safe = false;
    endpoint_type = EndpointType.single;
  };
  max_completions_per_poll = 2;
  ndebug = true;
}

abbrev front : ℕ → List CqEntry → CqRead
front n [] = failed 11
front n (e ∷ es) = entries (take n (e ∷ es))

abbrev take_from : ℕ → ℕ → View → CqRead × View
take_from q n v =
    if q == 1
    then (front n v.tx, record v { tx = drop n v.tx })
    else (front n v.rx, record v { rx = drop n v.rx })

abbrev lists : Env View
lists = record {
  cq_read = take_from;
  cq_readerr = λ q v. (record { op_context = 0; flags = 0; err = 5; prov_errno = 5 }, v);
  handle_error = λ ctx e v. terminates (pos 5);
  handle_cancelled = λ ctx v. terminates (pos 0);
  handle_tagged_send_completion = λ ctx u v. returns (1, add_sent v send ctx);
  handle_rma_read_completion = λ ctx v. returns (1, add_sent v read ctx);
  handle_rma_write_completion = λ ctx v. returns (1, add_sent v write ctx);
  handle_tagged_recv_completion = λ ctx u v. returns (1, add_received v ctx);
  handle_remote_cq_data_completion = λ d v. returns v;
}

front_lem : (es : List CqEntry) → front 2 es ≡ answer in_twos es
front_lem [] = refl
front_lem (e ∷ es) = refl

lists-InOrder : InOrder lists in_twos 7 1 2 (λ v. v)
lists-InOrder = record {
  read_tx = λ v. (front_lem v.tx, refl);
  read_rx = λ v. (front_lem v.rx, refl);
  sends = λ ctx v. (add_sent v send ctx, refl, refl);
  reads = λ ctx v. (add_sent v read ctx, refl, refl);
  writes = λ ctx v. (add_sent v write ctx, refl, refl);
  receives = λ ctx v. (add_received v ctx, refl, refl);
}

abbrev entry : ℕ → ℕ → CqEntry
entry ctx flags = record { op_context = ctx; flags = flags; cq_data = 0 }

-- Two tagged sends, an RMA read and another send; and one tagged receive.
abbrev busy : State View
busy = record {
  sends_complete = enabled 0;
  recvs_complete = enabled 0;
  reads_complete = enabled 0;
  writes_complete = enabled 0;
  remote_cq_data_received = enabled 0;
  world = record {
    tx = entry 64 0x808 ∷ entry 65 0x808 ∷ entry 66 0x104 ∷ entry 67 0x808 ∷ [];
    rx = entry 68 0x408 ∷ [];
    sent = [];
    received = [];
  };
}

kinds : send_kind in_twos 0x104 ≡ read
unfolding send_kind
kinds = refl

all-IsSent : All (IsSent in_twos) busy.world.tx
unfolding send_kind
all-IsSent = (
  (λ e. cc, λ e. omega arith),
  ((λ e. cc, λ e. omega arith), ((λ e. cc, λ e. omega arith), ((λ e. cc, λ e. omega arith), tt))),
)

all-IsReceived : All (IsReceived in_twos) busy.world.rx
unfolding recv_kind
all-IsReceived = ((refl, λ e. omega arith), tt)

never_busy : (v : View) → tx_busy in_twos true ≡ false
never_busy v = ground arith

poll_for_work_completions-delivered_example :
    (t : State View) × (poll_for_work_completions lists in_twos
        (λ v. true)
        (same_queue 1)
        (same_queue 2)
        7
        6
        busy
      ≡ some (returns (counted no_progress 4 1, t)))
    × (t.world ≡ delivered in_twos busy.world)
poll_for_work_completions-delivered_example =
    poll_for_work_completions-delivered lists in_twos 7 1 2 (λ v. v) lists-InOrder (λ v. true)
      (omega arith) (omega arith) refl never_busy 6 busy all-IsSent all-IsReceived (omega arith)
