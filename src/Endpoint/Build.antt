-- ===== src/Endpoint/Build.antt =====
-- The functions of include/libfatbat/controller_base.hpp that make endpoints, completion queues
-- and address vectors, and bind them to each other.
use libfatbat.Prelude.{ℕ, bit_or, if◌then◌else◌, ◌==◌, min, ℤ, pos, to_u64, is_positive}
use libfatbat.Fabric.{is_null}
use libfatbat.Outcome.{faults}
use libfatbat.Action.{Action, ◌>>=◌, ◌>>◌, pure, require, throw_error}
use libfatbat.Endpoint.{EndpointEnv, EndpointWrapper, Controller, call}

-- A call that makes an object, with its result checked.
unfoldable pub make : {W : Type 0} → (W → (ℤ × ℕ) × W) → Action (Controller W) ℕ
make f = do made ← call f; require made.0; pure made.1

-- A call whose result is checked.
unfoldable pub invoke : {W : Type 0} → (W → ℤ × W) → Action (Controller W) (Unit {0})
invoke f = do ret ← call f; require ret

module _ {W : Type 0} (env : EndpointEnv W) where
  -- The copy of `info` is freed at the end.
  unfoldable pub new_endpoint_active : ℕ → ℕ → Action (Controller W) ℕ
  unfolding make
  new_endpoint_active domain info = do
    hints ← call (env.fi_dupinfo info)
    ep ← make (env.fi_endpoint domain hints)
    call (λ w. (tt, env.fi_freeinfo hints w))
    pure ep

  -- The transmitting form, the only one that is called: the endpoint, and `threads_allocated`. The
  -- counts that the code stores in `new_hints` are an argument of `fi_scalable_ep` here.
  unfoldable pub new_endpoint_scalable : ℕ → ℕ → ℕ → Action (Controller W) (ℕ × ℕ)
  unfolding make
  new_endpoint_scalable domain info threads = do
    hints ← call (env.fi_dupinfo info)
    if is_null hints then throw_error (pos 0) else pure tt
    new_hints ← make (env.fi_getinfo hints)
    let context_count = min (env.tx_ctx_cnt new_hints) threads
    ep ← make (env.fi_scalable_ep domain new_hints context_count)
    call (λ w. (tt, env.fi_freeinfo hints w))
    pure (ep, context_count)

  unfoldable pub create_completion_queue : ℕ → ℕ → Action (Controller W) ℕ
  unfolding make
  create_completion_queue domain size = make (env.fi_cq_open domain size)

  -- Without RX_CONTEXTS_SUPPORT.
  unfoldable pub create_address_vector : ℕ → ℤ → ℤ → Action (Controller W) ℕ
  unfolding make
  create_address_vector info n num_rx_contexts c =
      make
        (env.fi_av_open c.domain (record {
          av_type =
              if env.av_type info == env.fi_av_unspec then env.fi_av_table else env.av_type info;
          count = to_u64 n;
          rx_ctx_bits = 0;
          ep_per_node = if is_positive num_rx_contexts then 2 else 0;
        }))
        c

  unfoldable pub bind_address_vector_to_endpoint : ℕ → ℕ → Action (Controller W) (Unit {0})
  unfolding invoke
  bind_address_vector_to_endpoint ep av = invoke (env.fi_ep_bind ep av 0)

  unfoldable pub bind_queue_to_endpoint : ℕ → ℕ → ℕ → Action (Controller W) (Unit {0})
  unfolding invoke
  bind_queue_to_endpoint ep cq cqtype = invoke (env.fi_ep_bind ep cq cqtype)

  unfoldable pub bind_tx_queue_to_rx_endpoint : ℕ → ℕ → Action (Controller W) ℕ
  unfolding create_completion_queue bind_queue_to_endpoint
  bind_tx_queue_to_rx_endpoint info ep c =
      (do
        tx_cq ← create_completion_queue c.domain (env.tx_attr_size info)
        bind_queue_to_endpoint ep tx_cq env.fi_transmit
        pure tx_cq)
        c

  unfoldable pub set_tx_cntr : ℕ → Action (Controller W) (Unit {0})
  set_tx_cntr cntr c = pure tt (record c { tx_cntr = cntr })

  unfoldable pub bind_cq_counter_to_endpoint : ℕ → Action (Controller W) (Unit {0})
  unfolding make invoke set_tx_cntr
  bind_cq_counter_to_endpoint ep c =
      (do
        cntr ← make (env.fi_cntr_open c.domain)
        set_tx_cntr cntr
        invoke (env.fi_ep_bind ep cntr (bit_or env.fi_write env.fi_transmit)))
        c

  -- `fi_enable` follows the pointer.
  unfoldable pub enable_endpoint : ℕ → Action (Controller W) (Unit {0})
  unfolding invoke
  enable_endpoint ep c = if is_null ep then faults else invoke (env.fi_enable ep) c

  unfoldable pub create_rx_endpoint : ℕ → ℕ → ℕ → Action (Controller W) EndpointWrapper
  unfolding new_endpoint_active bind_address_vector_to_endpoint create_completion_queue
      bind_queue_to_endpoint
  create_rx_endpoint domain info av = do
    ep_rx ← new_endpoint_active domain info
    bind_address_vector_to_endpoint ep_rx av
    rx_cq ← create_completion_queue domain (env.rx_attr_size info)
    bind_queue_to_endpoint ep_rx rx_cq env.fi_recv
    pure (record { ep = ep_rx; rq = rx_cq; tq = 0 })

-- `create_passive_endpoint`, where `fi_passive_ep` is the call of libfabric.
unfoldable pub create_passive_endpoint :
    {W : Type 0} → (ℕ → ℕ → W → (ℤ × ℕ) × W) → ℕ → ℕ → Action (Controller W) ℕ
unfolding make
create_passive_endpoint fi_passive_ep fabric info = make (fi_passive_ep fabric info)
