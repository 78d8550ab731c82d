-- ===== src/Endpoint.antt =====
-- The endpoints of include/libfatbat/controller_base.hpp: endpoint_wrapper, stack_endpoint and
-- the state of the controller that owns them. A pointer to an object of libfabric is a handle, and
-- 0 is the null pointer. The names of endpoints, which are only logged, are left out.
pub mod Build
pub mod Choose
pub mod Start
pub mod Stop
pub mod Ownership
pub mod Ledger
pub mod Threads
mod Tests
use libfatbat.Prelude.{
  ℕ, Bool, List, Option, none, some, [], ◌∷◌, ◌++◌, if◌then◌else◌, ℤ, pos, neg, eq_int,
}
use libfatbat.Fabric.{Consts, is_null}
use libfatbat.Outcome.{Outcome, returns, throw_fabric_error}
use libfatbat.Settings.{EndpointType}
use libfatbat.Members.{Members}
use libfatbat.Action.{Action, ◌>>=◌, ◌>>◌, pure, throw_error}

-- struct fi_av_attr, as far as it is set.
pub record AvAttr : Type 0 where
  pub av_type : ℕ
  pub count : ℕ
  pub rx_ctx_bits : ℕ
  pub ep_per_node : ℕ

-- libfabric's part. A call that makes an object returns a result and the pointer that it writes.
pub record EndpointEnv (W : Type 0) : Type 0 where
  pub consts : Consts
  pub open consts use *
  pub fi_dupinfo : ℕ → W → ℕ × W
  pub fi_freeinfo : ℕ → W → W
  pub fi_getinfo : ℕ → W → (ℤ × ℕ) × W
  pub fi_endpoint : ℕ → ℕ → W → (ℤ × ℕ) × W
  pub fi_scalable_ep : ℕ → ℕ → ℕ → W → (ℤ × ℕ) × W
  pub fi_tx_context : ℕ → ℕ → W → (ℤ × ℕ) × W
  pub fi_cq_open : ℕ → ℕ → W → (ℤ × ℕ) × W
  pub fi_cntr_open : ℕ → W → (ℤ × ℕ) × W
  pub fi_av_open : ℕ → AvAttr → W → (ℤ × ℕ) × W
  pub fi_ep_bind : ℕ → ℕ → ℕ → W → ℤ × W
  pub fi_scalable_ep_bind : ℕ → ℕ → W → ℤ × W
  pub fi_enable : ℕ → W → ℤ × W
  pub fi_close : ℕ → W → ℤ × W
  -- What is read of a `struct fi_info`, and the values that its fields are compared with.
  pub rx_attr_size : ℕ → ℕ
  pub tx_attr_size : ℕ → ℕ
  pub tx_ctx_cnt : ℕ → ℕ
  pub av_type : ℕ → ℕ
  pub fi_av_unspec : ℕ
  pub fi_av_table : ℕ

pub record EndpointWrapper : Type 0 where
  pub ep : ℕ
  pub rq : ℕ
  pub tq : ℕ

abbrev pub no_endpoint : EndpointWrapper
no_endpoint = record { ep = 0; rq = 0; tq = 0 }

-- The queue that a stack_endpoint gives its endpoint back to.
pub data PoolRef : Type 0 where
  no_pool tx_pool rx_pool : PoolRef

pub record StackEndpoint : Type 0 where
  pub endpoint : EndpointWrapper
  pub pool : PoolRef

abbrev pub no_stack_endpoint : StackEndpoint
no_stack_endpoint = record { endpoint = no_endpoint; pool = no_pool }

-- The members of the controller for its endpoints, the thread-local ones of the thread that runs,
-- and the world. The lock-free queues are lists, with the front first.
pub record Controller (W : Type 0) : Type 0 where
  pub endpoint_type : EndpointType
  pub fabric : ℕ
  pub domain : ℕ
  pub info : ℕ
  pub av : ℕ
  pub tx_cntr : ℕ
  pub ep_tx : EndpointWrapper
  pub ep_rx : EndpointWrapper
  pub tl_tx : StackEndpoint
  pub tl_stx : StackEndpoint
  pub tl_srx : StackEndpoint
  pub tx_endpoints : List EndpointWrapper
  pub rx_endpoints : List EndpointWrapper
  pub members : Members
  pub world : W

-- A call of libfabric on the world of the controller.
abbrev pub call : {W A : Type 0} → (W → A × W) → Action (Controller W) A
call f c = returns ((f c.world).0, record c { world = (f c.world).1 })

-- `boost::lockfree::queue::push`, which grows the queue where it is full.
abbrev pub push : PoolRef → EndpointWrapper → {W : Type 0} → Controller W → Controller W
push no_pool e c = c
push tx_pool e c = record c { tx_endpoints = c.tx_endpoints ++ e ∷ [] }
push rx_pool e c = record c { rx_endpoints = c.rx_endpoints ++ e ∷ [] }

-- ~stack_endpoint, which runs where a thread ends.
abbrev pub end_stack_endpoint : StackEndpoint → {W : Type 0} → Controller W → Controller W
end_stack_endpoint s c = push s.pool s.endpoint c

module _ {W : Type 0} (env : EndpointEnv W) where
  -- `fidclose`.
  unfoldable pub fidclose : ℕ → Action (Controller W) (Unit {0})
  fidclose fid = call (env.fi_close fid) >>= λ ret.
      if eq_int ret (neg env.fi_ebusy)
      then throw_error ret
      else if eq_int ret (pos env.fi_success)
      then pure tt
      else throw_error ret

  unfoldable pub close_if : ℕ → Action (Controller W) (Unit {0})
  unfolding fidclose
  close_if fid = if is_null fid then pure tt else fidclose fid

  -- endpoint_wrapper::cleanup: what it leaves of the wrapper is all null.
  unfoldable pub cleanup : EndpointWrapper → Action (Controller W) EndpointWrapper
  unfolding close_if
  cleanup e = do close_if e.ep; close_if e.rq; close_if e.tq; pure no_endpoint
