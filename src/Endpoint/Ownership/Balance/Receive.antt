-- ===== src/Endpoint/Ownership/Balance/Receive.antt =====
-- The start of the receiving endpoint.
use libfatbat.Prelude.{ℕ, ◌+◌, ◌≡◌, ◌≢◌, refl, sym, ◌∙◌, Bool, true, false, bit_or, arith}
use libfatbat.Settings.{EndpointType, single, multiple, threadlocal_tx, scalable_tx, scalable_tx_rx}
use libfatbat.Action.{after}
use libfatbat.Action.Runs.{Runs, Runs-returns, Runs-after, Runs-mono}
use libfatbat.Endpoint.{EndpointEnv, Controller, no_endpoint}
use libfatbat.Endpoint.Build.{bind_cq_counter_to_endpoint, set_tx_cntr}
use libfatbat.Endpoint.Start.{
  create_ep_rx, give_tx_queue, give_if, count_completions, start_rx, start_rx_of,
}
use libfatbat.Endpoint.Ownership.{held_null, wrapper_held, Working}
use libfatbat.Endpoint.Ownership.Steps.{then-Opened, then_with, end-Moved, make-Opened, invoke-Same}
use libfatbat.Endpoint.Ownership.Making.{
  create_rx_endpoint-Runs, bind_tx_queue_to_rx_endpoint-Opened,
}
use libfatbat.Endpoint.Ownership.Balance.{Balanced, Balanced-refl, Balanced-trans}

module _ {W : Type 0} (env : EndpointEnv W) (live : W → ℕ → ℕ) (d : Working env live) where
  -- The receiving endpoint is there, and the transmitting one is as it was.
  pub record Receiving (c e : Controller W) : Type 0 where
    pub balanced : Balanced live c e
    pub endpoint : e.ep_rx.ep ≢ 0
    pub same_tx : e.ep_tx ≡ c.ep_tx

  create_ep_rx-Runs :
      (c : Controller W)
      → c.ep_rx ≡ no_endpoint
      → Runs
          (λ a e. Receiving c e × (e.ep_rx.tq ≡ 0) × (e.tx_cntr ≡ c.tx_cntr))
          (create_ep_rx env c)
  unfolding create_ep_rx
  create_ep_rx-Runs c none =
      then_with live c (λ e. (e.ep ≢ 0) × (e.tq ≡ 0)) (λ e x. live c.world x + wrapper_held e x) _ _
        _ (create_rx_endpoint-Runs env live d c.domain c.info c.av c)
        λ e w p l. Runs-returns _ _ _ (
          record {
            balanced = record {
              same_type = refl;
              same_domain = refl;
              same_fabric = refl;
              same_av = refl;
              same_members = refl;
              same_info = refl;
              queue = λ q. q;
              same_rx_queue = refl;
              balance = λ x. rw (none, held_null x) (omega (arith, l x));
            };
            endpoint = p.0;
            same_tx = refl;
          },
          p.1,
          refl,
        )

  give_tx_queue-Runs :
      (c : Controller W)
      → c.ep_rx.tq ≡ 0
      → Runs
          (λ a e.
            Balanced live c e
            × (e.ep_rx.ep ≡ c.ep_rx.ep)
            × (e.ep_tx ≡ c.ep_tx)
            × (e.tx_cntr ≡ c.tx_cntr))
          (give_tx_queue env c)
  unfolding give_tx_queue
  give_tx_queue-Runs c none =
      then-Opened live c _ _ _ (bind_tx_queue_to_rx_endpoint-Opened env live d c.info c.ep_rx.ep c)
        λ q w nz l. Runs-returns _ _ _ (
          record {
            same_type = refl;
            same_domain = refl;
            same_fabric = refl;
            same_av = refl;
            same_members = refl;
            same_info = refl;
            queue = λ q. q;
            same_rx_queue = refl;
            balance = λ x. rw none (omega (arith, l x, held_null x));
          },
          refl,
          refl,
          refl,
        )

  count_completions-Runs :
      (counters : Bool) (c : Controller W)
      → c.tx_cntr ≡ 0
      → Runs
          (λ a e. Balanced live c e × (e.ep_rx.ep ≡ c.ep_rx.ep) × (e.ep_tx ≡ c.ep_tx))
          (count_completions env counters c)
  unfolding count_completions bind_cq_counter_to_endpoint set_tx_cntr after
  count_completions-Runs false c none = Runs-returns _ tt c (Balanced-refl live c, refl, refl)
  count_completions-Runs true c none =
      then-Opened live c _ _ _
        (make-Opened live (env.fi_cntr_open c.domain) c (d.counters c.domain c.world))
        λ h w nz l.
          end-Moved live (record c { tx_cntr = h; world = w }) (live w) _ _
            (invoke-Same live (env.fi_ep_bind c.ep_rx.ep h (bit_or env.fi_write env.fi_transmit)) _
              (d.binds c.ep_rx.ep h _ w))
            λ a w2 l2. (
              record {
                same_type = refl;
                same_domain = refl;
                same_fabric = refl;
                same_av = refl;
                same_members = refl;
                same_info = refl;
                queue = λ q. q;
                same_rx_queue = refl;
                balance = λ x. rw none (omega (arith, l x, l2 x, held_null x));
              },
              refl,
              refl,
            )

  Receiving-trans :
      (c e f : Controller W)
      → Receiving c e
      → Balanced live e f
      → f.ep_rx.ep ≡ e.ep_rx.ep
      → f.ep_tx ≡ e.ep_tx
      → Receiving c f
  Receiving-trans c e f r b rx tx = record {
    balanced = Balanced-trans live c e f r.balanced b;
    endpoint = λ z. r.endpoint (sym rx ∙ z);
    same_tx = tx ∙ r.same_tx;
  }

  start_separate :
      (bound_queue : Bool) (c : Controller W)
      → c.ep_rx ≡ no_endpoint
      → Runs (λ a. Receiving c) (after (create_ep_rx env c) (λ r. give_if env bound_queue r.1))
  unfolding give_if
  start_separate false c none =
      Runs-after _ _ _ _ (create_ep_rx-Runs c none) λ a e p. Runs-returns _ tt e p.0
  start_separate true c none = Runs-after _ _ _ _ (create_ep_rx-Runs c none) λ a e p.
      Runs-mono _ _ _ (give_tx_queue-Runs e p.1) λ a f q. Receiving-trans c e f p.0 q.0 q.1 q.2

  -- Where there is a receiving endpoint to make, it is made, and all that is opened is owned.
  start_rx_of-Runs :
      (t : EndpointType) (counters bound_queue : Bool) (c : Controller W)
      → t ≢ scalable_tx_rx
      → c.ep_rx ≡ no_endpoint
      → c.tx_cntr ≡ 0
      → Runs (λ a. Receiving c) (start_rx_of env t counters bound_queue c)
  unfolding start_rx_of
  start_rx_of-Runs single counters bound_queue c nt none zero =
      Runs-after _ _ _ _ (create_ep_rx-Runs c none) λ a f p.
        Runs-after _ _ _ _ (give_tx_queue-Runs f p.1) λ a g q.
          Runs-mono _ _ _ (count_completions-Runs counters g (q.3 ∙ (p.2 ∙ zero)))
            λ a h r. Receiving-trans c g h (Receiving-trans c f g p.0 q.0 q.1 q.2) r.0 r.1 r.2
  start_rx_of-Runs multiple counters bound_queue c nt none zero = start_separate bound_queue c none
  start_rx_of-Runs threadlocal_tx counters bound_queue c nt none zero =
      start_separate bound_queue c none
  start_rx_of-Runs scalable_tx counters bound_queue c nt none zero =
      start_separate bound_queue c none
  start_rx_of-Runs scalable_tx_rx counters bound_queue c nt none zero = absurd (nt refl)

  pub start_rx-Runs :
      (counters bound_queue : Bool) (c : Controller W)
      → c.endpoint_type ≢ scalable_tx_rx
      → c.ep_rx ≡ no_endpoint
      → c.tx_cntr ≡ 0
      → Runs (λ a. Receiving c) (start_rx env counters bound_queue c)
  unfolding start_rx
  start_rx-Runs counters bound_queue c = start_rx_of-Runs c.endpoint_type counters bound_queue c
