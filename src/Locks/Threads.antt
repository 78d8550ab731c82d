-- ===== src/Locks/Threads.antt =====
-- Threads that poll at the same time: the order in which poll_for_work_completions of
-- include/libfatbat/controller_base.hpp takes and releases the two mutexes around the reads of the
-- completion queues. What a thread does to the queues is left out. A `try_lock` fails only where
-- another thread holds the mutex.
pub mod Guard
pub mod Exclusion
pub mod Waiting
mod Tests
use libfatbat.Prelude.{
  ℕ, Bool, true, false, not, ◌&&◌, ◌||◌, if◌then◌else◌, ◌==◌, Option, none, some, ◌≡◌,
}
use libfatbat.Locks.{
  LockConfig, UniqueLock, no_mutex, owned, not_owned, owns_lock, bypass_tx_lock, bypass_rx_lock,
  try_tx_lock, get_rx_lock,
}

-- Where a thread is: before the send queue, reading it, before the receive queue, or reading that.
-- While it reads it has the lock that it took.
pub data Phase : Type 0 where
  before_tx : Phase
  reading_tx : UniqueLock → Phase
  before_rx : Phase
  reading_rx : UniqueLock → Phase

-- `send_mutex_` and `recv_mutex_` have the thread that holds them.
pub record Threads : Type 0 where
  pub send_mutex : Option ℕ
  pub recv_mutex : Option ℕ
  pub phase : ℕ → Phase

abbrev pub is_free : Option ℕ → Bool
is_free none = true
is_free (some t) = false

abbrev pub set_phase : ℕ → Phase → (ℕ → Phase) → ℕ → Phase
set_phase t p phase u = if u == t then p else phase u

-- Where a lock of thread `t` is taken, and where it goes out of scope.
abbrev pub taken : UniqueLock → ℕ → Option ℕ → Option ℕ
taken l t m = if owns_lock l then some t else m

abbrev pub released : UniqueLock → Option ℕ → Option ℕ
released l m = if owns_lock l then none else m

-- The start of poll_send_queue_default: it returns -1 without the lock.
unfoldable pub enter_tx : LockConfig → ℕ → Threads → Threads
enter_tx cfg t s =
    let lock = try_tx_lock cfg (is_free s.send_mutex) in
    if not (bypass_tx_lock cfg) && not (owns_lock lock)
    then record s { phase = set_phase t before_rx s.phase }
    else record s {
      send_mutex = taken lock t s.send_mutex;
      phase = set_phase t (reading_tx lock) s.phase;
    }

unfoldable pub leave_tx : UniqueLock → ℕ → Threads → Threads
leave_tx lock t s = record s {
  send_mutex = released lock s.send_mutex;
  phase = set_phase t before_rx s.phase;
}

-- The start of poll_recv_queue_default, which waits for the mutex: `none` while another thread
-- holds it.
unfoldable pub enter_rx : LockConfig → ℕ → Threads → Option Threads
enter_rx cfg t s =
    let lock = get_rx_lock cfg in
    if owns_lock lock && not (is_free s.recv_mutex)
    then none
    else if not (bypass_rx_lock cfg) && not (owns_lock lock)
    then some (record s { phase = set_phase t before_tx s.phase })
    else some (record s {
      recv_mutex = taken lock t s.recv_mutex;
      phase = set_phase t (reading_rx lock) s.phase;
    })

unfoldable pub leave_rx : UniqueLock → ℕ → Threads → Threads
leave_rx lock t s = record s {
  recv_mutex = released lock s.recv_mutex;
  phase = set_phase t before_tx s.phase;
}

-- The next step of thread `t`, if it can go on. A thread that is done polls again.
unfoldable pub step : LockConfig → ℕ → Threads → Option Threads
unfolding enter_tx leave_tx enter_rx leave_rx
step cfg t s = elim (s.phase t) [
  | before_tx ↦ some (enter_tx cfg t s)
  | reading_tx lock ↦ some (leave_tx lock t s)
  | before_rx ↦ enter_rx cfg t s
  | reading_rx lock ↦ some (leave_rx lock t s)
]

abbrev pub no_thread : Threads
no_thread = record { send_mutex = none; recv_mutex = none; phase = λ t. before_tx }

-- The states that any order of the threads' steps leads to.
pub data Reachable (cfg : LockConfig) : Threads → Type 0 where
  start : Reachable cfg no_thread
  next : (s s' : Threads) (t : ℕ) → Reachable cfg s → step cfg t s ≡ some s' → Reachable cfg s'

abbrev pub reads_tx : Phase → Bool
reads_tx (reading_tx lock) = true
reads_tx _ = false

abbrev pub reads_rx : Phase → Bool
reads_rx (reading_rx lock) = true
reads_rx _ = false
