-- ===== src/Lib.antt =====
-- libfatbat: a C++ layer over libfabric.
--
-- A controller (include/libfatbat/controller_base.hpp) owns the fabric, its endpoints and
-- completion queues. The client polls it: each poll reads completion entries from a transmit and a
-- receive queue, counts them (include/libfatbat/simple_counter.hpp), and calls the handler that
-- the entry's operation context names (include/libfatbat/operation_context_base.hpp). Memory that
-- takes part in a transfer is registered first (include/libfatbat/memory_region.hpp,
-- include/libfatbat/memory_segment.hpp). Failures of libfabric are reported as a fabric_error
-- (include/libfatbat/fabric_error.hpp).
--
-- Fabric holds what the models take from libfabric: its constants and records, as parameters.
-- Outcome says how a call can end, and what a throw of a fabric_error does. Poll and its children
-- model poll_send_queue_default, poll_recv_queue_default and poll_for_work_completions; the state
-- of the world outside the controller (queues, operation contexts, other threads) is an arbitrary
-- type W, and an environment gives what libfabric and the handlers do to it. Locks models the
-- locks around the queues, and Locks.Threads the threads that take them, Settings the environment
-- variables, Counter simple_counter, Base64 include/libfatbat/util/base64.hpp, Region memory
-- regions and segments, and Context the pool of operation contexts. Endpoint models the endpoints:
-- Build the functions that make and bind them, Choose get_tx_endpoint and get_rx_endpoint, Start
-- the part of initialize from the address vector to the enabling of the receiving endpoint, and
-- Stop the destructor; Ownership counts which objects of libfabric are open and which of them the
-- controller holds. Flags models the capabilities and modes that the controller negotiates,
-- OpenFabric open_fabric, Initialize the constructor and initialize, which chains open_fabric and
-- Start, and Members the members that these set. Locality models include/libfatbat/locality.hpp
-- and the entries of the address vector. Action chains steps of the controller, and Bits has the
-- binary digits of words. Endpoint.Threads has the threads that share a controller, and
-- Poll.Handlers the handlers of operation contexts. The modules called Ledger give a libfabric
-- that accepts every request, for the runs.
--
-- Poll.Delivery has the abstract view of the queues that polling is compared with. Locality.Copies
-- has the copies of localities and their printing.
-- Log models include/libfatbat/logging.hpp: Log itself the set-up of the loggers, Log.Scope
-- make_scope_message, Log.Scope.Nesting scoped_var, and Log.Dump mem_crc32 with its formatter;
-- spdlog, fmt and the checksum are parameters. UniqueFunction models
-- include/libfatbat/unique_function.hpp, and TypeNames include/libfatbat/print_type.hpp.
--
-- An int result is an integer of Prelude, and a conversion to uint32_t is written out. Counters
-- are taken modulo 2 ^ 32. Pointers are numbers, and 0 is the null pointer. The loop of
-- poll_for_work_completions has a number of rounds as its fuel: none says that it did not end
-- within them. One round more than the queues have entries is enough, since a round that is
-- repeated has taken at least one.
--
-- The digits of a word in Locality.Copies have fuel too, of ten, and a word of 32 bits is below
-- 10 ^ 10.
--
-- Not modelled: the macros that only call spdlog, and the printing of the controller and of
-- regions, which change no state; the tests and benchmarks; the build files; the GNI extensions,
-- which do not compile; and the code under EXCESSIVE_POLLING_BACKOFF_MICRO_S, which the default
-- build leaves out.
pub mod Prelude
pub mod Bits
pub mod Base64
pub mod Context
pub mod Counter
pub mod Settings
pub mod Fabric
pub mod Outcome
pub mod Locks
pub mod Locality
pub mod Members
pub mod OpenFabric
pub mod Initialize
pub mod Flags
pub mod Action
pub mod Endpoint
pub mod Poll
pub mod Region
pub mod Log
pub mod UniqueFunction
pub mod TypeNames
