-- ===== src/Endpoint/Threads.antt =====
-- Threads that send and receive: each has its own thread-local endpoints, which `get_tx_endpoint`
-- and `get_rx_endpoint` of include/libfatbat/controller_base.hpp set and the end of the thread
-- gives back. A call takes effect at once: what it does stands between the steps of other threads.
pub mod Sharing
pub mod Receiving
pub mod Life
use libfatbat.Prelude.{List, [], ◌∷◌, ◌++◌, ◌≡◌}
use libfatbat.Outcome.{returns}
use libfatbat.Endpoint.{
  EndpointEnv, EndpointWrapper, StackEndpoint, Controller, no_stack_endpoint, end_stack_endpoint,
}
use libfatbat.Endpoint.Choose.{get_tx_endpoint, get_rx_endpoint}

-- The thread-local members of endpoints_lifetime_manager.
pub record Locals : Type 0 where
  pub tl_tx : StackEndpoint
  pub tl_stx : StackEndpoint
  pub tl_srx : StackEndpoint

abbrev pub no_locals : Locals
no_locals = record {
  tl_tx = no_stack_endpoint;
  tl_stx = no_stack_endpoint;
  tl_srx = no_stack_endpoint;
}

-- The controller as a thread with these members sees it, and what it leaves of them.
abbrev pub seen_by : {W : Type 0} → Locals → Controller W → Controller W
seen_by l c = record c { tl_tx = l.tl_tx; tl_stx = l.tl_stx; tl_srx = l.tl_srx }

abbrev pub locals : {W : Type 0} → Controller W → Locals
locals c = record { tl_tx = c.tl_tx; tl_stx = c.tl_stx; tl_srx = c.tl_srx }

-- The destructors of a thread's members.
abbrev pub end_thread : {W : Type 0} → Locals → Controller W → Controller W
end_thread l c =
    end_stack_endpoint l.tl_tx (end_stack_endpoint l.tl_stx (end_stack_endpoint l.tl_srx c))

-- The controller, and the members of the threads that run.
pub record Shared (W : Type 0) : Type 0 where
  pub controller : Controller W
  pub active : List Locals

-- A thread begins; one of the threads asks for an endpoint; one of the threads ends.
pub data Step {W : Type 0} (env : EndpointEnv W) : Shared W → Shared W → Type 0 where
  begins :
      (c : Controller W) (ls : List Locals)
      → Step env
          (record { controller = c; active = ls })
          (record { controller = c; active = no_locals ∷ ls })
  sends :
      (c c' : Controller W) (before after : List Locals) (l : Locals) (e : EndpointWrapper)
      → get_tx_endpoint env (seen_by l c) ≡ returns (e, c')
      → Step env
          (record { controller = c; active = before ++ l ∷ after })
          (record { controller = c'; active = before ++ locals c' ∷ after })
  receives :
      (c c' : Controller W) (before after : List Locals) (l : Locals) (e : EndpointWrapper)
      → get_rx_endpoint (seen_by l c) ≡ returns (e, c')
      → Step env
          (record { controller = c; active = before ++ l ∷ after })
          (record { controller = c'; active = before ++ locals c' ∷ after })
  ends :
      (c : Controller W) (before after : List Locals) (l : Locals)
      → Step env
          (record { controller = c; active = before ++ l ∷ after })
          (record { controller = end_thread l c; active = before ++ after })

-- Any number of steps, in any order.
pub data Steps {W : Type 0} (env : EndpointEnv W) : Shared W → Shared W → Type 0 where
  done : (s : Shared W) → Steps env s s
  more : (s t u : Shared W) → Steps env s t → Step env t u → Steps env s u
