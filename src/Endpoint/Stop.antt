-- ===== src/Endpoint/Stop.antt =====
-- The destructor of the controller in include/libfatbat/controller_base.hpp: what it closes, and
-- in what order.
use libfatbat.Prelude.{List, [], ◌∷◌}
use libfatbat.Outcome.{returns, catch_fabric_error}
use libfatbat.Action.{Action, ◌>>=◌, ◌>>◌, pure}
use libfatbat.Endpoint.{
  EndpointEnv, EndpointWrapper, Controller, call, fidclose, close_if, cleanup, no_endpoint,
}

-- `eps_.reset(nullptr)`, the emptied queues, and the closed counter.
unfoldable pub forget_endpoints : {W : Type 0} → Action (Controller W) (Unit {0})
forget_endpoints c =
    pure tt
      (record c { tx_endpoints = []; rx_endpoints = []; ep_tx = no_endpoint; ep_rx = no_endpoint })

unfoldable pub forget_counter : {W : Type 0} → Action (Controller W) (Unit {0})
forget_counter c = pure tt (record c { tx_cntr = 0 })

module _ {W : Type 0} (env : EndpointEnv W) where
  -- `consume_all` with `cleanup` of each element.
  unfoldable pub cleanup_all : List EndpointWrapper → Action (Controller W) (Unit {0})
  unfolding cleanup
  cleanup_all [] = pure tt
  cleanup_all (e ∷ es) = do gone ← cleanup env e; cleanup_all es

  -- The domain is closed in a `try` block: its handler prints a message.
  unfoldable pub close_domain : Action (Controller W) (Unit {0})
  unfolding fidclose
  close_domain c = catch_fabric_error (fidclose env c.domain c) (λ e. returns (tt, c))

  unfoldable pub close_endpoints : Action (Controller W) (Unit {0})
  unfolding cleanup cleanup_all
  close_endpoints c =
      (do
        cleanup_all c.tx_endpoints
        cleanup_all c.rx_endpoints
        tx ← cleanup env c.ep_tx
        rx ← cleanup env c.ep_rx
        forget_endpoints)
        c

  -- ~controller_base.
  unfoldable pub destroy_controller : Action (Controller W) (Unit {0})
  unfolding close_endpoints close_if forget_counter close_domain
  destroy_controller c =
      (do
        close_endpoints
        close_if env c.tx_cntr
        forget_counter
        fidclose env c.av
        close_domain
        fidclose env c.fabric
        call (λ w. (tt, env.fi_freeinfo c.info w)))
        c
