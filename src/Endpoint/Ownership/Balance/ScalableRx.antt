-- ===== src/Endpoint/Ownership/Balance/ScalableRx.antt =====
-- The start with scalable receive contexts.
use libfatbat.Prelude.{ℕ, ◌≡◌, refl, ◌∙◌, ap, Bool, to_int32}
use libfatbat.Outcome.{returns, faults}
use libfatbat.Settings.{EndpointType, scalable_tx_rx}
use libfatbat.Action.{after}
use libfatbat.Action.Runs.{after-faults}
use libfatbat.Endpoint.{EndpointEnv, EndpointWrapper, Controller, no_endpoint}
use libfatbat.Endpoint.Build.{enable_endpoint}
use libfatbat.Endpoint.Start.{start_endpoints, start_rx, start_rx_of, start_tx}
use libfatbat.Endpoint.Ownership.{Working}
use libfatbat.Endpoint.Ownership.Steps.{Moved}
use libfatbat.Endpoint.Ownership.Balance.Whole.{create_address_vector-Opened}
use libfatbat.Endpoint.Ownership.Balance.Transmit.{start_tx-Runs}

module _ {W : Type 0} (env : EndpointEnv W) (live : W → ℕ → ℕ) (d : Working env live) where
  enable_endpoint-null : (ep : ℕ) (c : Controller W) → ep ≡ 0 → enable_endpoint env ep c ≡ faults
  unfolding enable_endpoint
  enable_endpoint-null ep c h = rw h refl

  start_rx-nothing :
      (counters bound_queue : Bool) (c : Controller W)
      → c.endpoint_type ≡ scalable_tx_rx
      → start_rx env counters bound_queue c ≡ returns (tt, c)
  unfolding start_rx start_rx_of
  start_rx-nothing counters bound_queue c h =
      ap (λ (t : EndpointType). start_rx_of env t counters bound_queue c) h

  -- What follows the address vector: there is still no receiving endpoint when it is enabled.
  rest_faults :
      (counters bound_queue : Bool) (threads : ℕ) (c : Controller W)
      → c.endpoint_type ≡ scalable_tx_rx
      → c.ep_rx ≡ no_endpoint
      → c.ep_tx ≡ no_endpoint
      → after
          (start_rx env counters bound_queue c)
          (λ r. after (start_tx env threads r.1) (λ t. enable_endpoint env t.1.ep_rx.ep t.1))
        ≡ faults
  unfolding after
  rest_faults counters bound_queue threads c type no_rx no_tx =
      rw (start_rx-nothing counters bound_queue c type) (
        after-faults _ _ _ (start_tx-Runs env live d threads c no_tx) λ a e p.
          enable_endpoint-null e.ep_rx.ep e (ap (λ (x : EndpointWrapper). x.ep) (p.1 ∙ no_rx)))

  -- With the endpoint type scalableTxRx the start does not return where libfabric accepts every
  -- request: no receiving endpoint is made, and the null pointer in its place is enabled.
  pub start_endpoints-scalable_tx_rx :
      (counters bound_queue : Bool) (size threads : ℕ) (c : Controller W)
      → c.endpoint_type ≡ scalable_tx_rx
      → c.ep_rx ≡ no_endpoint
      → c.ep_tx ≡ no_endpoint
      → start_endpoints env counters bound_queue size threads c ≡ faults
  unfolding start_endpoints after Moved
  start_endpoints-scalable_tx_rx counters bound_queue size threads c type no_rx no_tx =
      after-faults _ _ _
        (create_address_vector-Opened env live d c.info (to_int32 size) (to_int32 threads) c)
        λ av e p.
          rest_faults counters bound_queue threads (record e { av = av })
            (ap (λ (x : Controller W). x.endpoint_type) p.1.1 ∙ type)
            (ap (λ (x : Controller W). x.ep_rx) p.1.1 ∙ no_rx)
            (ap (λ (x : Controller W). x.ep_tx) p.1.1 ∙ no_tx)
