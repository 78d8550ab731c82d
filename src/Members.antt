-- ===== src/Members.antt =====
-- The members of the controller in include/libfatbat/controller_base.hpp that its initialization
-- sets once, and that the rest of it only reads.
use libfatbat.Prelude.{ℕ, Bool, false, if◌then◌else◌}
use libfatbat.Locality.{Locality}

pub record Members : Type 0 where
  pub max_completions_per_poll : ℕ
  pub msg_rendezvous_threshold : ℕ
  pub num_ranks : ℕ
  pub here : Locality
  pub tx_inject_size : ℕ
  pub tx_attr_size : ℕ
  pub rx_attr_size : ℕ
  pub supports_write_data : Bool
  pub mrlocal : Bool
  pub mrbind : Bool
  pub mrhmem : Bool

-- `rank()` and `size()`, which a derived controller may override.
abbrev pub rank : Members → ℕ
rank m = m.here.fi_address

abbrev pub size : Members → ℕ
size m = m.num_ranks

abbrev pub get_tx_size : Members → ℕ
get_tx_size m = m.tx_attr_size

abbrev pub get_rx_size : Members → ℕ
get_rx_size m = m.rx_attr_size

-- `disabled` is DISABLE_FI_INJECT.
abbrev pub get_tx_inject_size : Bool → Members → ℕ
get_tx_inject_size disabled m = if disabled then 0 else m.tx_inject_size

abbrev pub get_rma_protocol_size : Members → ℕ
get_rma_protocol_size m = 65536

abbrev pub rendezvous_threshold : Members → ℕ
rendezvous_threshold m = m.msg_rendezvous_threshold

abbrev pub supports_write_data : Members → Bool
supports_write_data m = m.supports_write_data

abbrev pub get_mrbind : Members → Bool
get_mrbind m = m.mrbind

abbrev pub here : Members → Locality
here m = m.here

-- `setHere`.
abbrev pub set_here : Locality → Members → Members
set_here val m = record m { here = val }

-- Connections are not tracked.
abbrev pub is_terminated : Members → Bool
is_terminated m = false
