-- ===== src/Endpoint/Start.antt =====
-- The endpoints part of `initialize` in include/libfatbat/controller_base.hpp, from the address
-- vector to the enabling of the receiving endpoint (`start_endpoints`).
use libfatbat.Prelude.{ℕ, zero, suc, bit_or, Bool, true, false, to_int32}
use libfatbat.Settings.{EndpointType, single, multiple, scalable_tx, scalable_tx_rx}
use libfatbat.Action.{Action, ◌>>=◌, ◌>>◌, pure}
use libfatbat.Endpoint.{EndpointEnv, EndpointWrapper, Controller, push, tx_pool}
use libfatbat.Endpoint.Build.{
  make, invoke, create_completion_queue, new_endpoint_active, new_endpoint_scalable,
  bind_queue_to_endpoint, bind_address_vector_to_endpoint, enable_endpoint, create_rx_endpoint,
  create_address_vector, bind_tx_queue_to_rx_endpoint, bind_cq_counter_to_endpoint,
}

abbrev set_av : {W : Type 0} → ℕ → Action (Controller W) (Unit {0})
set_av av c = pure tt (record c { av = av })

abbrev set_ep_rx : {W : Type 0} → EndpointWrapper → Action (Controller W) (Unit {0})
set_ep_rx e c = pure tt (record c { ep_rx = e })

abbrev set_ep_tx : {W : Type 0} → EndpointWrapper → Action (Controller W) (Unit {0})
set_ep_tx e c = pure tt (record c { ep_tx = e })

abbrev add_tx : {W : Type 0} → EndpointWrapper → Action (Controller W) (Unit {0})
add_tx e c = pure tt (push tx_pool e c)

module _ {W : Type 0} (env : EndpointEnv W) where
  -- `eps_->ep_rx_.set_tx_cq(bind_tx_queue_to_rx_endpoint(...))`.
  unfoldable pub give_tx_queue : Action (Controller W) (Unit {0})
  unfolding bind_tx_queue_to_rx_endpoint
  give_tx_queue c =
      (do
        tx_cq ← bind_tx_queue_to_rx_endpoint env c.info c.ep_rx.ep
        set_ep_rx (record c.ep_rx { tq = tx_cq }))
        c

  -- `eps_->ep_rx_ = create_rx_endpoint(fabric_domain_, fabric_info_, av_)`.
  unfoldable pub create_ep_rx : Action (Controller W) (Unit {0})
  unfolding create_rx_endpoint
  create_ep_rx c = (do ep_rx ← create_rx_endpoint env c.domain c.info c.av; set_ep_rx ep_rx) c

  unfoldable pub count_completions : Bool → Action (Controller W) (Unit {0})
  unfolding bind_cq_counter_to_endpoint
  count_completions true c = bind_cq_counter_to_endpoint env c.ep_rx.ep c
  count_completions false c = pure tt c

  unfoldable pub give_if : Bool → Action (Controller W) (Unit {0})
  unfolding give_tx_queue
  give_if true = give_tx_queue
  give_if false = pure tt

  -- The receiving endpoint. `counters` is `needs_cq_counters()`, and `bound_queue` is set in a
  -- build for a provider whose receiving endpoint needs a transmit queue.
  unfoldable pub start_rx_of : EndpointType → Bool → Bool → Action (Controller W) (Unit {0})
  unfolding create_ep_rx give_tx_queue count_completions give_if
  start_rx_of single counters bound_queue = do
    create_ep_rx
    give_tx_queue
    count_completions counters
  start_rx_of scalable_tx_rx counters bound_queue = pure tt
  start_rx_of _ counters bound_queue = do create_ep_rx; give_if bound_queue

  unfoldable pub start_rx : Bool → Bool → Action (Controller W) (Unit {0})
  unfolding start_rx_of
  start_rx counters bound_queue c = start_rx_of c.endpoint_type counters bound_queue c

  unfoldable pub start_multiple : Action (Controller W) (Unit {0})
  unfolding create_completion_queue new_endpoint_active bind_queue_to_endpoint
      bind_address_vector_to_endpoint enable_endpoint
  start_multiple c =
      (do
        ep_tx ← new_endpoint_active env c.domain c.info
        tx_cq ← create_completion_queue env c.domain (env.tx_attr_size c.info)
        bind_queue_to_endpoint env ep_tx tx_cq (bit_or env.fi_transmit env.fi_recv)
        bind_address_vector_to_endpoint env ep_tx c.av
        enable_endpoint env ep_tx
        set_ep_tx (record { ep = ep_tx; rq = 0; tq = tx_cq }))
        c

  -- The loop over the transmit contexts: `left` of them are still to be made, from number `i` on.
  unfoldable pub start_contexts : ℕ → ℕ → ℕ → Action (Controller W) (Unit {0})
  unfolding make create_completion_queue bind_queue_to_endpoint enable_endpoint
  start_contexts ep_sx zero i = pure tt
  start_contexts ep_sx (suc left) i = do
    ep ← make (env.fi_tx_context ep_sx i)
    cq ← λ c. create_completion_queue env c.domain (env.tx_attr_size c.info) c
    bind_queue_to_endpoint env ep cq env.fi_transmit
    enable_endpoint env ep
    add_tx (record { ep = ep; rq = 0; tq = cq })
    start_contexts ep_sx left (suc i)

  unfoldable pub start_scalable : ℕ → Action (Controller W) (Unit {0})
  unfolding new_endpoint_scalable invoke start_contexts
  start_scalable threads c =
      (do
        sx ← new_endpoint_scalable env c.domain c.info threads
        invoke (env.fi_scalable_ep_bind sx.0 c.av)
        start_contexts sx.0 sx.1 0
        set_ep_tx (record { ep = sx.0; rq = 0; tq = 0 }))
        c

  unfoldable pub start_tx_of : EndpointType → ℕ → Action (Controller W) (Unit {0})
  unfolding start_multiple start_scalable
  start_tx_of multiple threads = start_multiple
  start_tx_of scalable_tx threads = start_scalable threads
  start_tx_of scalable_tx_rx threads = start_scalable threads
  start_tx_of _ threads = pure tt

  unfoldable pub start_tx : ℕ → Action (Controller W) (Unit {0})
  unfolding start_tx_of
  start_tx threads c = start_tx_of c.endpoint_type threads c

  unfoldable pub start_endpoints : Bool → Bool → ℕ → ℕ → Action (Controller W) (Unit {0})
  unfolding create_address_vector start_rx start_tx enable_endpoint
  start_endpoints counters bound_queue size threads c =
      (do
        av ← create_address_vector env c.info (to_int32 size) (to_int32 threads)
        set_av av
        start_rx counters bound_queue
        start_tx threads
        λ d. enable_endpoint env d.ep_rx.ep d)
        c
