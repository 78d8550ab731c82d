-- ===== src/Endpoint/Ownership/Balance/Whole.antt =====
-- The whole life of the endpoints: they are started, and the controller is destroyed.
use libfatbat.Prelude.{ℕ, ◌+◌, ◌≡◌, ◌≢◌, sym, ◌∙◌, ap, Bool, All, arith, ℤ, to_int32}
use libfatbat.Outcome.{returns}
use libfatbat.Settings.{scalable_tx_rx}
use libfatbat.Action.{after}
use libfatbat.Action.Runs.{Runs, Runs-after}
use libfatbat.Endpoint.{EndpointEnv, EndpointWrapper, Controller, no_endpoint}
use libfatbat.Endpoint.Build.{create_address_vector}
use libfatbat.Endpoint.Start.{start_endpoints}
use libfatbat.Endpoint.Stop.{destroy_controller}
use libfatbat.Endpoint.Ownership.{held_null, owned, Working}
use libfatbat.Endpoint.Ownership.Steps.{then-Opened, end-Moved, Opened, make-Opened}
use libfatbat.Endpoint.Ownership.Making.{enable_endpoint-Same}
use libfatbat.Endpoint.Ownership.Closing.{destroy_controller-Runs}
use libfatbat.Endpoint.Ownership.Balance.{NotNull, Balanced, Balanced-trans}
use libfatbat.Endpoint.Ownership.Balance.Receive.{start_rx-Runs}
use libfatbat.Endpoint.Ownership.Balance.Transmit.{start_tx-Runs}

-- A controller with a fabric and a domain, and no endpoint, address vector or counter.
pub record Fresh {W : Type 0} (c : Controller W) : Type 0 where
  pub has_domain : c.domain ≢ 0
  pub has_fabric : c.fabric ≢ 0
  pub no_av : c.av ≡ 0
  pub no_cntr : c.tx_cntr ≡ 0
  pub no_rx : c.ep_rx ≡ no_endpoint
  pub no_tx : c.ep_tx ≡ no_endpoint

balance_rest : (a b r p q : ℕ) → a + p ≡ b + q → b ≡ r + p → a ≡ r + q
balance_rest a b r p q h k = omega arith

module _ {W : Type 0} (env : EndpointEnv W) (live : W → ℕ → ℕ) (d : Working env live) where
  pub create_address_vector-Opened :
      (info : ℕ) (size threads : ℤ) (c : Controller W)
      → Runs (Opened live c) (create_address_vector env info size threads c)
  unfolding create_address_vector
  create_address_vector-Opened info size threads c =
      make-Opened live (env.fi_av_open c.domain _) c (d.vectors c.domain _ c.world)

  pub start_endpoints-Runs :
      (counters bound_queue : Bool) (size threads : ℕ) (c : Controller W)
      → Fresh c
      → c.endpoint_type ≢ scalable_tx_rx
      → Runs
          (λ a e.
            (e.av ≢ 0)
            × (e.domain ≡ c.domain)
            × (e.fabric ≡ c.fabric)
            × (e.members ≡ c.members)
            × (e.info ≡ c.info)
            × (All NotNull c.tx_endpoints → All NotNull e.tx_endpoints)
            × (e.rx_endpoints ≡ c.rx_endpoints)
            × ((x : ℕ) → live e.world x + owned c x ≡ live c.world x + owned e x))
          (start_endpoints env counters bound_queue size threads c)
  unfolding start_endpoints after
  start_endpoints-Runs counters bound_queue size threads c fresh type =
      then-Opened live c _ _ _
        (create_address_vector-Opened c.info (to_int32 size) (to_int32 threads) c)
        λ av w1 nz l1.
          let c1 : Controller W = record c { av = av; world = w1 } in
          Runs-after _ _ _ _
            (start_rx-Runs env live d counters bound_queue c1 type fresh.no_rx fresh.no_cntr)
            λ a c2 r.
              Runs-after _ _ _ _ (start_tx-Runs env live d threads c2 (r.same_tx ∙ fresh.no_tx))
                λ a c3 t.
                  end-Moved live c3 (live c3.world) _ _
                    (enable_endpoint-Same env live d c3.ep_rx.ep c3
                      (λ z. r.endpoint (sym (ap (λ (e : EndpointWrapper). e.ep) t.1) ∙ z)))
                    λ a w l.
                      let b : Balanced live c1 c3 = Balanced-trans live c1 c2 c3 r.balanced t.0 in
                      (
                        λ z. nz (sym b.same_av ∙ z),
                        b.same_domain,
                        b.same_fabric,
                        b.same_members,
                        b.same_info,
                        b.queue,
                        b.same_rx_queue,
                        λ x. rw fresh.no_av (omega (arith, b.balance x, l1 x, l x, held_null x)),
                      )

  -- Where libfabric accepts the requests, and the endpoint type is not scalableTxRx, the endpoints
  -- start from a controller that has only its fabric and domain; the destructor then returns, and
  -- it has closed all that the start opened, the fabric and the domain, each once, and nothing
  -- else.
  pub destroy_controller-start_endpoints :
      (counters bound_queue : Bool) (size threads : ℕ) (c : Controller W) (rest : ℕ → ℕ)
      → Fresh c
      → c.endpoint_type ≢ scalable_tx_rx
      → ((x : ℕ) → live c.world x ≡ rest x + owned c x)
      → (started : Controller W) × (ended : Controller W) × (start_endpoints env counters
            bound_queue size threads c
          ≡ returns (tt, started))
        × (destroy_controller env started ≡ returns (tt, ended))
        × ((x : ℕ) → live ended.world x ≡ rest x)
  destroy_controller-start_endpoints counters bound_queue size threads c rest fresh type l =
      let s = start_endpoints-Runs counters bound_queue size threads c fresh type in
      let e =
        destroy_controller-Runs env live d s.final rest s.post.0
          (λ z. fresh.has_domain (sym s.post.1 ∙ z)) (λ z. fresh.has_fabric (sym s.post.2 ∙ z))
          (λ x.
            balance_rest (live s.final.world x) (live c.world x) (rest x) (owned c x)
              (owned s.final x) (s.post.7 x) (l x)) in
      (s.final, e.final, s.ran, e.ran, e.post)
