-- ===== src/Endpoint/Choose.antt =====
-- `get_rx_endpoint` and `get_tx_endpoint` of include/libfatbat/controller_base.hpp: the endpoint
-- that this thread sends or receives with. They return a reference to a member, and the model its
-- value.
use libfatbat.Prelude.{bit_or, List, [], ◌∷◌, if◌then◌else◌}
use libfatbat.Fabric.{is_null}
use libfatbat.Outcome.{returns, throws, runtime_error}
use libfatbat.Settings.{single, multiple, threadlocal_tx, scalable_tx, scalable_tx_rx}
use libfatbat.Action.{Action, ◌>>=◌, ◌>>◌, pure}
use libfatbat.Endpoint.{EndpointEnv, EndpointWrapper, Controller, push, no_pool, tx_pool, rx_pool}
use libfatbat.Endpoint.Build.{
  create_completion_queue, new_endpoint_active, bind_queue_to_endpoint,
  bind_address_vector_to_endpoint, enable_endpoint,
}

-- The receiving thread's endpoint is taken from the queue the first time.
unfoldable pub pop_rx : {W : Type 0} → List EndpointWrapper → Action (Controller W) EndpointWrapper
pop_rx [] c = throws runtime_error
pop_rx (e ∷ es) c =
    returns (e, record c { tl_srx = record { endpoint = e; pool = rx_pool }; rx_endpoints = es })

unfoldable pub get_rx_endpoint : {W : Type 0} → Action (Controller W) EndpointWrapper
unfolding pop_rx
get_rx_endpoint c = elim c.endpoint_type [
  | scalable_tx_rx ↦
      if is_null c.tl_srx.endpoint.ep
      then pop_rx c.rx_endpoints c
      else returns (c.tl_srx.endpoint, c)
  | _ ↦ returns (c.ep_rx, c)
]

unfoldable pub pop_tx : {W : Type 0} → List EndpointWrapper → Action (Controller W) EndpointWrapper
pop_tx [] c = throws runtime_error
pop_tx (e ∷ es) c =
    returns (e, record c { tl_stx = record { endpoint = e; pool = tx_pool }; tx_endpoints = es })

-- The scalable endpoints: this thread's, or one from the queue.
unfoldable pub get_scalable_tx : {W : Type 0} → Action (Controller W) EndpointWrapper
unfolding pop_tx
get_scalable_tx c =
    if is_null c.tl_stx.endpoint.ep then pop_tx c.tx_endpoints c else returns (c.tl_stx.endpoint, c)

-- The queue keeps a copy of the new endpoint for the destructor, and the thread's own copy has no
-- queue to return to.
unfoldable pub keep_threadlocal : {W : Type 0} → EndpointWrapper → Action (Controller W) (Unit {0})
keep_threadlocal e c =
    returns (tt, record (push tx_pool e c) { tl_tx = record { endpoint = e; pool = no_pool } })

module _ {W : Type 0} (env : EndpointEnv W) where
  unfoldable pub new_threadlocal : Action (Controller W) EndpointWrapper
  unfolding create_completion_queue new_endpoint_active bind_queue_to_endpoint
      bind_address_vector_to_endpoint enable_endpoint keep_threadlocal
  new_threadlocal c =
      (do
        tx_cq ← create_completion_queue env c.domain (env.tx_attr_size c.info)
        ep_tx ← new_endpoint_active env c.domain c.info
        bind_queue_to_endpoint env ep_tx tx_cq (bit_or env.fi_transmit env.fi_recv)
        bind_address_vector_to_endpoint env ep_tx c.av
        enable_endpoint env ep_tx
        let ep : EndpointWrapper = record { ep = ep_tx; rq = 0; tq = tx_cq }
        keep_threadlocal ep
        pure ep)
        c

  unfoldable pub get_tx_endpoint : Action (Controller W) EndpointWrapper
  unfolding new_threadlocal get_scalable_tx
  get_tx_endpoint c = elim c.endpoint_type [
    | threadlocal_tx ↦
        if is_null c.tl_tx.endpoint.ep then new_threadlocal c else returns (c.tl_tx.endpoint, c)
    | scalable_tx ↦ get_scalable_tx c
    | scalable_tx_rx ↦ get_scalable_tx c
    | multiple ↦ returns (c.ep_tx, c)
    | single ↦ returns (c.ep_rx, c)
  ]
