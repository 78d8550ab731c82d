-- ===== src/Endpoint/Tests.antt =====
-- Runs of the endpoints.
use libfatbat.Prelude.{ℕ, ◌+◌, ◌≡◌, ◌≢◌, refl, true, false, List, [], ◌∷◌, arith}
use libfatbat.Outcome.{returns}
use libfatbat.Settings.{EndpointType, scalable_tx, scalable_tx_rx}
use libfatbat.Endpoint.{Controller, no_endpoint, no_stack_endpoint}
use libfatbat.Endpoint.Start.{start_endpoints}
use libfatbat.Endpoint.Stop.{destroy_controller}
use libfatbat.Endpoint.Ownership.{held, held_null, all_held, owned}
use libfatbat.Endpoint.Ownership.Balance.Whole.{Fresh, destroy_controller-start_endpoints}
use libfatbat.Endpoint.Ledger.{opened, fabric, fabric-Working, no_members}

-- The fabric is 5, the domain is 6, and something else, 4, is open too.
abbrev fresh : EndpointType → Controller (List ℕ)
fresh type = record {
  endpoint_type = type;
  fabric = 5;
  domain = 6;
  info = 1;
  av = 0;
  tx_cntr = 0;
  ep_tx = no_endpoint;
  ep_rx = no_endpoint;
  tl_tx = no_stack_endpoint;
  tl_stx = no_stack_endpoint;
  tl_srx = no_stack_endpoint;
  tx_endpoints = [];
  rx_endpoints = [];
  members = no_members;
  world = 6 ∷ 5 ∷ 4 ∷ [];
}

fresh-Fresh : (type : EndpointType) → Fresh (fresh type)
fresh-Fresh type = record {
  has_domain = ground arith;
  has_fabric = ground arith;
  no_av = refl;
  no_cntr = refl;
  no_rx = refl;
  no_tx = refl;
}

all_open : (x : ℕ) → opened (6 ∷ 5 ∷ 4 ∷ []) x ≡ held 4 x + owned (fresh scalable_tx) x
unfolding all_held
all_open x = omega (arith, held_null x)

apart : scalable_tx ≢ scalable_tx_rx
apart e = cc

destroy_controller-start_endpoints_example :
    (started : Controller (List ℕ)) × (ended : Controller (List ℕ)) × (start_endpoints fabric false
        true 2 8
        (fresh scalable_tx)
      ≡ returns (tt, started))
    × (destroy_controller fabric started ≡ returns (tt, ended))
    × ((x : ℕ) → opened ended.world x ≡ held 4 x)
destroy_controller-start_endpoints_example =
    destroy_controller-start_endpoints fabric opened fabric-Working false true 2 8
      (fresh scalable_tx) (held 4) (fresh-Fresh scalable_tx) apart all_open
