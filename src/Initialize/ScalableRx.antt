-- ===== src/Initialize/ScalableRx.antt =====
-- `initialize` with scalable receive contexts.
use libfatbat.Prelude.{ℕ, ◌≡◌, refl, ◌∙◌, ap, List}
use libfatbat.Outcome.{faults}
use libfatbat.Settings.{scalable_tx_rx, libfabric_endpoint_type}
use libfatbat.Action.{Action, after}
use libfatbat.Action.Runs.{after-faults}
use libfatbat.Locality.Vector.{AddressEnv}
use libfatbat.Flags.{needs_cq_counters}
use libfatbat.OpenFabric.{FabricEnv}
use libfatbat.OpenFabric.Opening.{Offers, open_fabric-Runs}
use libfatbat.Initialize.{Settings, needs_dummy_queue, apply_settings, initialize}
use libfatbat.Endpoint.{EndpointEnv, Controller}
use libfatbat.Endpoint.Ownership.{Working}
use libfatbat.Endpoint.Ownership.Balance.ScalableRx.{start_endpoints-scalable_tx_rx}

module _ {W : Type 0} (env : EndpointEnv W) (fab : FabricEnv W) (addr : AddressEnv W)
    (live : W → ℕ → ℕ) (d : Working env live) (o : Offers fab live) (s : Settings) where
  -- Where libfabric accepts every request and the environment asks for the endpoint type
  -- scalableTxRx, `initialize` enables a receiving endpoint that is a null pointer, for any
  -- controller, derived controller and numbers.
  pub initialize-scalable_tx_rx :
      (derived : List ℕ → ℕ → ℕ → ℕ → Action (Controller W) (Unit {0})) (provider : List ℕ)
      (rank size threads : ℕ) (c : Controller W)
      → libfabric_endpoint_type s.endpoint_type ≡ scalable_tx_rx
      → initialize env fab addr s derived provider rank size threads c ≡ faults
  unfolding initialize apply_settings after
  initialize-scalable_tx_rx derived provider rank size threads c type =
      let c0 : Controller W = apply_settings s size threads c in
      after-faults _ _ _ (open_fabric-Runs env fab live d o s.fabric_config provider threads c0)
        λ u e p.
          rw
            (start_endpoints-scalable_tx_rx env live d
              (needs_cq_counters s.derived_needs_cq_counters)
              (needs_dummy_queue s.fabric_config.build) size threads e
              (ap (λ (x : Controller W). x.endpoint_type) p.7 ∙ type)
              (ap (λ (x : Controller W). x.ep_rx) p.7) (ap (λ (x : Controller W). x.ep_tx) p.7))
            refl
