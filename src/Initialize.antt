-- ===== src/Initialize.antt =====
-- The constructor and `initialize` of the controller in include/libfatbat/controller_base.hpp.
pub mod Whole
pub mod Life
pub mod Threads
pub mod ScalableRx
mod Tests
mod ErrorTests
use libfatbat.Prelude.{
  ℕ, ◌%◌, ◌^◌, Bool, true, false, if◌then◌else◌, ◌==◌, Option, List, [], to_u32,
}
use libfatbat.Settings.{
  EndpointType, libfabric_endpoint_type, libfabric_completions_per_poll,
  libfabric_rendezvous_threshold,
}
use libfatbat.Locks.{Provider, gni, psm2, lnx}
use libfatbat.Flags.{needs_cq_counters}
use libfatbat.Outcome.{returns}
use libfatbat.Action.{Action, ◌>>=◌, ◌>>◌}
use libfatbat.Locality.{Locality, default_locality, array_size}
use libfatbat.Locality.Vector.{AddressEnv, get_endpoint_address, insert_address}
use libfatbat.Endpoint.{EndpointEnv, StackEndpoint, Controller, no_endpoint, no_stack_endpoint}
use libfatbat.Endpoint.Start.{start_endpoints}
use libfatbat.OpenFabric.{FabricEnv, Config, open_fabric, set_members}

-- What the constructor leaves unset.
pub record Unset : Type 0 where
  pub endpoint_type : EndpointType
  pub num_ranks : ℕ
  pub supports_write_data : Bool

-- The static endpoints of the thread, which the constructor leaves as they are.
pub record ThreadEndpoints : Type 0 where
  pub tl_tx : StackEndpoint
  pub tl_stx : StackEndpoint
  pub tl_srx : StackEndpoint

-- Those of a thread that has not asked for an endpoint yet.
abbrev pub not_asked : ThreadEndpoints
not_asked = record {
  tl_tx = no_stack_endpoint;
  tl_stx = no_stack_endpoint;
  tl_srx = no_stack_endpoint;
}

-- `controller_base()`; `here_` has its default constructor, and `size` is its array_size.
unfoldable pub new_controller : {W : Type 0} → Unset → ThreadEndpoints → ℕ → W → Controller W
unfolding default_locality
new_controller unset held size w = record {
  endpoint_type = unset.endpoint_type;
  fabric = 0;
  domain = 0;
  info = 0;
  av = 0;
  tx_cntr = 0;
  ep_tx = no_endpoint;
  ep_rx = no_endpoint;
  tl_tx = held.tl_tx;
  tl_stx = held.tl_stx;
  tl_srx = held.tl_srx;
  tx_endpoints = [];
  rx_endpoints = [];
  members = record {
    max_completions_per_poll = 1;
    msg_rendezvous_threshold = 0x4000;
    num_ranks = unset.num_ranks;
    here = default_locality size;
    tx_inject_size = 0;
    tx_attr_size = 0;
    rx_attr_size = 0;
    supports_write_data = unset.supports_write_data;
    mrlocal = false;
    mrbind = false;
    mrhmem = false;
  };
  world = w;
}

-- What `initialize` reads of the environment besides open_fabric, and of the derived controller.
pub record Settings : Type 0 where
  pub fabric_config : Config
  pub endpoint_type : Option (List ℕ)
  pub poll_size : Option (List ℕ)
  pub rendezvous_threshold : Option (List ℕ)
  pub strtoul : List ℕ → ℕ
  pub cxi_1_15 : Bool
  pub derived_needs_cq_counters : Option Bool

-- The providers whose receiving endpoint is given a transmit queue that is not used.
abbrev pub needs_dummy_queue : Provider → Bool
needs_dummy_queue gni = false
needs_dummy_queue psm2 = false
needs_dummy_queue lnx = false
needs_dummy_queue _ = true

abbrev pub locality_size : Settings → ℕ
locality_size s = array_size s.fabric_config.build s.cxi_1_15

-- The members that `initialize` sets before it calls open_fabric; `eps_` is a new
-- endpoints_lifetime_manager.
unfoldable pub apply_settings : {W : Type 0} → Settings → ℕ → ℕ → Controller W → Controller W
apply_settings s size threads c = record c {
  endpoint_type = libfabric_endpoint_type s.endpoint_type;
  ep_tx = no_endpoint;
  ep_rx = no_endpoint;
  members = record c.members {
    max_completions_per_poll = to_u32 (libfabric_completions_per_poll s.poll_size);
    msg_rendezvous_threshold =
        libfabric_rendezvous_threshold s.strtoul s.rendezvous_threshold
          (if threads == 1 then 0x400 else 0x4000)
        % 2 ^ 32;
    num_ranks = size;
  };
}

-- A step on the world of the controller.
abbrev pub on_world : {W A : Type 0} → Action W A → Action (Controller W) A
on_world m c = libfatbat.Outcome.◌>>=◌ (m c.world) λ r. returns (r.0, record c { world = r.1 })

-- `here_ = get_endpoint_address(...)`, of the receiving endpoint.
unfoldable pub find_here :
    {W : Type 0} → AddressEnv W → Settings → ℕ → Action (Controller W) (Unit {0})
unfolding get_endpoint_address
find_here addr s rank c =
    (do
      here ← on_world (get_endpoint_address addr (locality_size s) c.av c.ep_rx.ep rank)
      set_members λ m. record m { here = here })
      c

-- `insert_address(address)`, into the controller's own vector.
unfoldable pub insert_own_address :
    {W : Type 0} → AddressEnv W → Settings → Locality → Action (Controller W) Locality
unfolding insert_address
insert_own_address addr s address c =
    on_world (insert_address addr (locality_size s) c.members.num_ranks c.av address) c

module _ {W : Type 0} (env : EndpointEnv W) (fab : FabricEnv W) (addr : AddressEnv W) where
  -- `derived` is the derived controller's initialize_derived.
  unfoldable pub initialize :
      Settings
      → (List ℕ → ℕ → ℕ → ℕ → Action (Controller W) (Unit {0}))
      → List ℕ
      → ℕ
      → ℕ
      → ℕ
      → Action (Controller W) (Unit {0})
  unfolding apply_settings open_fabric start_endpoints find_here needs_cq_counters
  initialize s derived provider rank size threads c =
      (do
        open_fabric env fab s.fabric_config provider threads
        start_endpoints env (needs_cq_counters s.derived_needs_cq_counters)
            (needs_dummy_queue s.fabric_config.build) size threads
        find_here addr s rank
        derived provider rank size threads)
        (apply_settings s size threads c)
