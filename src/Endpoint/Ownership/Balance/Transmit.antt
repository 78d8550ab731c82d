-- ===== src/Endpoint/Ownership/Balance/Transmit.antt =====
-- The start of the transmitting endpoints.
use libfatbat.Prelude.{ℕ, zero, suc, ◌+◌, ◌==◌, ◌≡◌, ◌≢◌, refl, ◌∙◌, false, bit_or, min, arith}
use libfatbat.Outcome.{check}
use libfatbat.Settings.{EndpointType, single, multiple, threadlocal_tx, scalable_tx, scalable_tx_rx}
use libfatbat.Action.{after}
use libfatbat.Action.Runs.{Runs, Runs-returns, Runs-after, Runs-mono}
use libfatbat.Endpoint.{EndpointEnv, EndpointWrapper, Controller, no_endpoint, push, tx_pool}
use libfatbat.Endpoint.Build.{make, new_endpoint_scalable}
use libfatbat.Endpoint.Start.{start_multiple, start_contexts, start_scalable, start_tx, start_tx_of}
use libfatbat.Endpoint.Ownership.{held, held_null, no_endpoint-held, Working}
use libfatbat.Endpoint.Ownership.Steps.{
  Moved, moved, then-Moved, then-Opened, then_with, make-Opened, invoke-Same,
}
use libfatbat.Endpoint.Ownership.Making.{
  new_endpoint_active-Opened, create_completion_queue-Opened, bind_queue_to_endpoint-Same,
  bind_address_vector_to_endpoint-Same, enable_endpoint-Same,
}
use libfatbat.Endpoint.Ownership.Balance.{
  Balanced, Balanced-refl, Balanced-trans, All-append, all_held-append,
}

module _ {W : Type 0} (env : EndpointEnv W) (live : W → ℕ → ℕ) (d : Working env live) where
  -- What is opened is owned, and the receiving endpoint is as it was.
  Sending : Controller W → Controller W → Type 0
  Sending c e = Balanced live c e × (e.ep_rx ≡ c.ep_rx)

  start_multiple-Runs :
      (c : Controller W) → c.ep_tx ≡ no_endpoint → Runs (λ a. Sending c) (start_multiple env c)
  unfolding start_multiple Sending
  start_multiple-Runs c none =
      then-Opened live c _ _ _ (new_endpoint_active-Opened env live d c.domain c.info c)
        λ ep w1 nz l1.
          then-Opened live (record c { world = w1 }) _ _ _
            (create_completion_queue-Opened env live d c.domain (env.tx_attr_size c.info) _)
            λ cq w2 nq l2.
              then-Moved live (record c { world = w2 }) (live w2) _ _ _
                (bind_queue_to_endpoint-Same env live d ep cq (bit_or env.fi_transmit env.fi_recv)
                  _)
                λ a w3 l3.
                  then-Moved live (record c { world = w3 }) (live w3) _ _ _
                    (bind_address_vector_to_endpoint-Same env live d ep c.av _)
                    λ a w4 l4.
                      then-Moved live (record c { world = w4 }) (live w4) (λ a. Sending c) _ _
                        (enable_endpoint-Same env live d ep _ nz)
                        λ a w5 l5.
                          Runs-returns _ _
                            (record c { world = w5; ep_tx = record { ep = ep; rq = 0; tq = cq } })
                            (
                              record {
                                same_type = refl;
                                same_domain = refl;
                                same_fabric = refl;
                                same_av = refl;
                                same_members = refl;
                                same_info = refl;
                                queue = λ q. q;
                                same_rx_queue = refl;
                                balance = λ x.
                                    rw none
                                      (omega (arith, l1 x, l2 x, l3 x, l4 x, l5 x, held_null x));
                              },
                              refl,
                            )

  -- The queue of endpoints grows by the contexts, whatever was in it.
  start_contexts-Runs :
      (ep_sx left i : ℕ) (c : Controller W)
      → Runs (λ a e. Sending c e × (e.ep_tx ≡ c.ep_tx)) (start_contexts env ep_sx left i c)
  unfolding start_contexts Sending after
  start_contexts-Runs ep_sx zero i c = Runs-returns _ tt c ((Balanced-refl live c, refl), refl)
  start_contexts-Runs ep_sx (suc left) i c =
      then-Opened live c _ _ _
        (make-Opened live (env.fi_tx_context ep_sx i) c (d.contexts ep_sx i c.world))
        λ ep w1 nz l1.
          then-Opened live (record c { world = w1 }) _ _ _
            (create_completion_queue-Opened env live d c.domain (env.tx_attr_size c.info) _)
            λ cq w2 nq l2.
              then-Moved live (record c { world = w2 }) (live w2) _ _ _
                (bind_queue_to_endpoint-Same env live d ep cq env.fi_transmit _)
                λ a w3 l3.
                  then-Moved live (record c { world = w3 }) (live w3) _ _ _
                    (enable_endpoint-Same env live d ep _ nz)
                    λ a w4 l4.
                      let e : EndpointWrapper = record { ep = ep; rq = 0; tq = cq } in
                      let added : Controller W = push tx_pool e (record c { world = w4 }) in
                      let step : Sending c added = (
                        record {
                          same_type = refl;
                          same_domain = refl;
                          same_fabric = refl;
                          same_av = refl;
                          same_members = refl;
                          same_info = refl;
                          queue = λ q. All-append c.tx_endpoints e q nz;
                          same_rx_queue = refl;
                          balance = λ x. omega (
                            arith,
                            l1 x,
                            l2 x,
                            l3 x,
                            l4 x,
                            held_null x,
                            all_held-append c.tx_endpoints e x,
                          );
                        },
                        refl,
                      ) in
                      Runs-mono _ _ _ (start_contexts-Runs ep_sx left (suc i) added)
                        λ a f p. ((Balanced-trans live c added f step.0 p.0.0, p.0.1), p.1)

  -- The scalable endpoint is open once more.
  new_endpoint_scalable-Opened :
      (domain info threads : ℕ) (c : Controller W)
      → Runs
          (λ r e. (r.0 ≢ 0) × Moved live c (λ x. live c.world x + held r.0 x) e)
          (new_endpoint_scalable env domain info threads c)
  unfolding new_endpoint_scalable after make check
  new_endpoint_scalable-Opened domain info threads c =
      let (hints, w) = env.fi_dupinfo info c.world in
      let (there, same) = d.copies info c.world in
      let e : (hints == 0) ≡ false = ground arith in
      let (ok, same2) = d.infos hints w in
      let ((ret, new_hints), w2) = env.fi_getinfo hints w in
      let count = min (env.tx_ctx_cnt new_hints) threads in
      let (ok3, nz, l) = d.scalables domain new_hints count w2 in
      let w3 = (env.fi_scalable_ep domain new_hints count w2).1 in
      rw (e, ok, ok3)
        (Runs-returns _ _ _
          (nz, moved live c _ _ (λ x. omega (arith, l x, same x, same2 x, d.frees hints w3 x))))

  start_scalable-Runs :
      (threads : ℕ) (c : Controller W)
      → c.ep_tx ≡ no_endpoint
      → Runs (λ a. Sending c) (start_scalable env threads c)
  unfolding start_scalable Sending
  start_scalable-Runs threads c none =
      then_with live c (λ r. r.0 ≢ 0) (λ r x. live c.world x + held r.0 x) _ _ _
        (new_endpoint_scalable-Opened c.domain c.info threads c)
        λ sx w1 nz l1.
          then-Moved live (record c { world = w1 }) (live w1) _ _ _
            (invoke-Same live (env.fi_scalable_ep_bind sx.0 c.av) _ (d.scalable_binds sx.0 c.av w1))
            λ a w2 l2.
              Runs-after _ _ _ _ (start_contexts-Runs sx.0 sx.1 0 (record c { world = w2 }))
                λ a e p.
                  Runs-returns _ tt (record e { ep_tx = record { ep = sx.0; rq = 0; tq = 0 } })
                    (
                      record {
                        same_type = p.0.0.same_type;
                        same_domain = p.0.0.same_domain;
                        same_fabric = p.0.0.same_fabric;
                        same_av = p.0.0.same_av;
                        same_members = p.0.0.same_members;
                        same_info = p.0.0.same_info;
                        queue = p.0.0.queue;
                        same_rx_queue = p.0.0.same_rx_queue;
                        balance = λ x. omega (
                          arith,
                          p.0.0.balance x,
                          no_endpoint-held e.ep_tx x (p.1 ∙ none),
                          no_endpoint-held c.ep_tx x none,
                          l1 x,
                          l2 x,
                          held_null x,
                        );
                      },
                      p.0.1,
                    )

  start_tx_of-Runs :
      (t : EndpointType) (threads : ℕ) (c : Controller W)
      → c.ep_tx ≡ no_endpoint
      → Runs (λ a. Sending c) (start_tx_of env t threads c)
  unfolding start_tx_of Sending
  start_tx_of-Runs single threads c none = Runs-returns _ tt c (Balanced-refl live c, refl)
  start_tx_of-Runs threadlocal_tx threads c none = Runs-returns _ tt c (Balanced-refl live c, refl)
  start_tx_of-Runs multiple threads c none = start_multiple-Runs c none
  start_tx_of-Runs scalable_tx threads c none = start_scalable-Runs threads c none
  start_tx_of-Runs scalable_tx_rx threads c none = start_scalable-Runs threads c none

  pub start_tx-Runs :
      (threads : ℕ) (c : Controller W)
      → c.ep_tx ≡ no_endpoint
      → Runs (λ a e. Balanced live c e × (e.ep_rx ≡ c.ep_rx)) (start_tx env threads c)
  unfolding start_tx Sending
  start_tx-Runs threads c = start_tx_of-Runs c.endpoint_type threads c
