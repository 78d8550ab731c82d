-- ===== src/Locks.antt =====
-- The locks of include/libfatbat/controller_base.hpp around the completion queues, and the build
-- settings that decide whether they are taken.
pub mod Threads
use libfatbat.Prelude.{Bool, true, false, ◌||◌, if◌then◌else◌}
use libfatbat.Settings.{EndpointType, threadlocal_tx, scalable_tx_rx}

-- The provider that the library is built for: one of the LIBFATBAT_HAVE_PROVIDER_ macros.
pub data Provider : Type 0 where
  gni cxi efa verbs tcp sockets psm2 shm lnx : Provider

-- `endpoint_type_ == endpoint_type::threadlocalTx`, and the same for scalableTxRx.
abbrev is_threadlocal_tx : EndpointType → Bool
is_threadlocal_tx threadlocal_tx = true
is_threadlocal_tx _ = false

abbrev is_scalable_tx_rx : EndpointType → Bool
is_scalable_tx_rx scalable_tx_rx = true
is_scalable_tx_rx _ = false

-- `thread_safe` is `threadlevel_flags() == FI_THREAD_SAFE`.
pub record LockConfig : Type 0 where
  pub provider : Provider
  pub thread_safe : Bool
  pub endpoint_type : EndpointType

unfoldable pub bypass_tx_lock : LockConfig → Bool
bypass_tx_lock c = elim c.provider [
  | gni ↦ true
  | cxi ↦ false
  | _ ↦ c.thread_safe || is_threadlocal_tx c.endpoint_type
]

unfoldable pub bypass_rx_lock : LockConfig → Bool
bypass_rx_lock c = elim c.provider [
  | gni ↦ true
  | _ ↦ c.thread_safe || is_scalable_tx_rx c.endpoint_type
]

-- std::unique_lock: of no mutex, of one that it owns, or of one that it failed to take.
pub data UniqueLock : Type 0 where
  no_mutex owned not_owned : UniqueLock

abbrev pub owns_lock : UniqueLock → Bool
owns_lock owned = true
owns_lock _ = false

-- `send_mutex_` is free, or another thread holds it.
unfoldable pub try_tx_lock : LockConfig → Bool → UniqueLock
try_tx_lock c free = if bypass_tx_lock c then no_mutex else if free then owned else not_owned

unfoldable pub try_rx_lock : LockConfig → Bool → UniqueLock
try_rx_lock c free = if bypass_rx_lock c then no_mutex else if free then owned else not_owned

-- These wait until the mutex is free: the lock that they return in the end.
unfoldable pub get_tx_lock : LockConfig → UniqueLock
get_tx_lock c = if bypass_tx_lock c then no_mutex else owned

unfoldable pub get_rx_lock : LockConfig → UniqueLock
get_rx_lock c = if bypass_rx_lock c then no_mutex else owned
