-- ===== src/Locks/Threads/Tests.antt =====
-- Two threads that poll at once, with both locks.
use libfatbat.Prelude.{ℕ, true, false, not, ◌&&◌, ◌||◌, none, some, ◌≡◌, ◌≢◌, refl, arith}
use libfatbat.Settings.{single}
use libfatbat.Locks.{
  LockConfig, owned, tcp, bypass_tx_lock, bypass_rx_lock, try_tx_lock, get_rx_lock,
}
use libfatbat.Locks.Threads.{
  Threads, reading_tx, before_rx, reading_rx, no_thread, set_phase, step, Reachable, start, next,
  enter_tx, leave_tx, enter_rx, reads_tx, reads_rx,
}
use libfatbat.Locks.Threads.Exclusion.{Reachable-exclusive}
use libfatbat.Locks.Threads.Waiting.{step-waits}

abbrev cfg : LockConfig
cfg = record { provider = tcp; thread_safe = false; endpoint_type = single }

-- Thread 0 reads the send queue, then the receive queue, and then thread 1 finds the send queue
-- free.
abbrev one_sends : Threads
one_sends = record no_thread {
  send_mutex = some 0;
  phase = set_phase 0 (reading_tx owned) no_thread.phase;
}

abbrev one_sent : Threads
one_sent = record one_sends { send_mutex = none; phase = set_phase 0 before_rx one_sends.phase }

abbrev one_receives : Threads
one_receives = record one_sent {
  recv_mutex = some 0;
  phase = set_phase 0 (reading_rx owned) one_sent.phase;
}

abbrev two_sends : Threads
two_sends = record one_receives {
  send_mutex = some 1;
  phase = set_phase 1 (reading_tx owned) one_receives.phase;
}

abbrev two_waits : Threads
two_waits = record two_sends { send_mutex = none; phase = set_phase 1 before_rx two_sends.phase }

one_sends-step : step cfg 0 no_thread ≡ some one_sends
unfolding step enter_tx bypass_tx_lock try_tx_lock
one_sends-step = refl

one_sent-step : step cfg 0 one_sends ≡ some one_sent
unfolding step leave_tx
one_sent-step = refl

one_receives-step : step cfg 0 one_sent ≡ some one_receives
unfolding step enter_rx bypass_rx_lock get_rx_lock
one_receives-step = refl

two_sends-step : step cfg 1 one_receives ≡ some two_sends
unfolding step enter_tx bypass_tx_lock try_tx_lock
two_sends-step = refl

two_waits-step : step cfg 1 two_sends ≡ some two_waits
unfolding step leave_tx
two_waits-step = refl

two_waits-stuck : step cfg 1 two_waits ≡ none
unfolding step enter_rx bypass_rx_lock get_rx_lock
two_waits-stuck = refl

two_sends-Reachable : Reachable cfg two_sends
two_sends-Reachable =
    next one_receives two_sends 1
      (next one_sent one_receives 0
        (next one_sends one_sent 0 (next no_thread one_sends 0 start one_sends-step) one_sent-step)
        one_receives-step)
      two_sends-step

Reachable-exclusive_example :
    ((bypass_tx_lock cfg || not (reads_tx (two_sends.phase 0) && reads_tx (two_sends.phase 1)))
      ≡ true)
    × ((bypass_rx_lock cfg || not (reads_rx (two_sends.phase 0) && reads_rx (two_sends.phase 1)))
        ≡ true)
Reachable-exclusive_example =
    Reachable-exclusive cfg two_sends 0 1 two_sends-Reachable (ground arith)

step-waits_example :
    (u : ℕ) × (s1 s2 : Threads) × (u ≢ 1)
    × (two_waits.recv_mutex ≡ some u)
    × (two_waits.phase u ≡ reading_rx owned)
    × (step cfg u two_waits ≡ some s1)
    × (step cfg 1 s1 ≡ some s2)
step-waits_example =
    step-waits cfg two_waits 1 (next two_sends two_waits 1 two_sends-Reachable two_waits-step)
      two_waits-stuck
