-- ===== src/Endpoint/Ownership/Making.antt =====
-- Making objects, binding and enabling them: what is open afterwards.
use libfatbat.Prelude.{ℕ, ◌+◌, ◌≡◌, ◌≢◌, refl, ◌==◌, false, arith}
use libfatbat.Action.{after}
use libfatbat.Action.Runs.{Runs, Runs-returns}
use libfatbat.Endpoint.{EndpointEnv, Controller}
use libfatbat.Endpoint.Build.{
  new_endpoint_active, create_completion_queue, bind_queue_to_endpoint,
  bind_address_vector_to_endpoint, bind_tx_queue_to_rx_endpoint, enable_endpoint,
  create_rx_endpoint,
}
use libfatbat.Endpoint.Ownership.{held, wrapper_held, Working}
use libfatbat.Endpoint.Ownership.Steps.{
  Moved, moved, then-Moved, then-Opened, Opened, Same, make-Opened, invoke-Same,
}

module _ {W : Type 0} (env : EndpointEnv W) (live : W → ℕ → ℕ) (d : Working env live) where
  pub new_endpoint_active-Opened :
      (domain info : ℕ) (c : Controller W)
      → Runs (Opened live c) (new_endpoint_active env domain info c)
  unfolding new_endpoint_active after
  new_endpoint_active-Opened domain info c =
      let (hints, w) = env.fi_dupinfo info c.world in
      let same = (d.copies info c.world).1 in
      then-Opened live (record c { world = w }) _ _ _
        (make-Opened live (env.fi_endpoint domain hints) _ (d.endpoints domain hints w))
        λ h w1 nz l.
          Runs-returns _ _ _
            (nz, moved live c _ _ (λ x. omega (arith, l x, same x, d.frees hints w1 x)))

  pub create_completion_queue-Opened :
      (domain size : ℕ) (c : Controller W)
      → Runs (Opened live c) (create_completion_queue env domain size c)
  unfolding create_completion_queue
  create_completion_queue-Opened domain size c =
      make-Opened live (env.fi_cq_open domain size) c (d.queues domain size c.world)

  pub bind_queue_to_endpoint-Same :
      (ep cq flags : ℕ) (c : Controller W)
      → Runs (Same live c) (bind_queue_to_endpoint env ep cq flags c)
  unfolding bind_queue_to_endpoint
  bind_queue_to_endpoint-Same ep cq flags c =
      invoke-Same live (env.fi_ep_bind ep cq flags) c (d.binds ep cq flags c.world)

  pub bind_address_vector_to_endpoint-Same :
      (ep av : ℕ) (c : Controller W)
      → Runs (Same live c) (bind_address_vector_to_endpoint env ep av c)
  unfolding bind_address_vector_to_endpoint
  bind_address_vector_to_endpoint-Same ep av c =
      invoke-Same live (env.fi_ep_bind ep av 0) c (d.binds ep av 0 c.world)

  pub enable_endpoint-Same :
      (ep : ℕ) (c : Controller W) → ep ≢ 0 → Runs (Same live c) (enable_endpoint env ep c)
  unfolding enable_endpoint
  enable_endpoint-Same ep c nz =
      let e : (ep == 0) ≡ false = ground arith in
      rw e (invoke-Same live (env.fi_enable ep) c (d.enables ep c.world))

  -- The new receiving endpoint has its own endpoint and queue, and no transmit queue.
  pub create_rx_endpoint-Runs :
      (domain info av : ℕ) (c : Controller W)
      → Runs
          (λ e d'.
            ((e.ep ≢ 0) × (e.tq ≡ 0)) × Moved live c (λ x. live c.world x + wrapper_held e x) d')
          (create_rx_endpoint env domain info av c)
  unfolding create_rx_endpoint held
  create_rx_endpoint-Runs domain info av c =
      then-Opened live c _ _ _ (new_endpoint_active-Opened domain info c) λ ep w1 nz l1.
        then-Moved live (record c { world = w1 }) _ _ _ _
          (bind_address_vector_to_endpoint-Same ep av _)
          λ a w2 l2.
            then-Opened live (record c { world = w2 }) _ _ _
              (create_completion_queue-Opened domain (env.rx_attr_size info) _)
              λ cq w3 nq l3.
                then-Moved live (record c { world = w3 }) _ _ _ _
                  (bind_queue_to_endpoint-Same ep cq env.fi_recv _)
                  λ a w4 l4.
                    Runs-returns _ _ _
                      ((nz, refl), moved live c _ w4 (λ x. omega (arith, l1 x, l2 x, l3 x, l4 x)))

  pub bind_tx_queue_to_rx_endpoint-Opened :
      (info ep : ℕ) (c : Controller W)
      → Runs (Opened live c) (bind_tx_queue_to_rx_endpoint env info ep c)
  unfolding bind_tx_queue_to_rx_endpoint
  bind_tx_queue_to_rx_endpoint-Opened info ep c =
      then-Opened live c _ _ _ (create_completion_queue-Opened c.domain (env.tx_attr_size info) c)
        λ cq w1 nz l1.
          then-Moved live (record c { world = w1 }) _ _ _ _
            (bind_queue_to_endpoint-Same ep cq env.fi_transmit _)
            λ a w2 l2. Runs-returns _ _ _ (nz, moved live c _ w2 (λ x. omega (arith, l1 x, l2 x)))
