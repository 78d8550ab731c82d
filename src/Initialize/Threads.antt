-- ===== src/Initialize/Threads.antt =====
-- Threads that send and receive between the initialization and the destruction of a controller.
use libfatbat.Prelude.{All, ℕ, ◌≡◌, ◌≢◌, List, [], subst, sym, ◌∙◌, arith}
use libfatbat.Outcome.{Outcome, returns}
use libfatbat.Settings.{scalable_tx_rx, libfabric_endpoint_type}
use libfatbat.Action.{Action}
use libfatbat.Action.Runs.{Runs}
use libfatbat.Locality.Vector.{AddressEnv}
use libfatbat.OpenFabric.{FabricEnv}
use libfatbat.OpenFabric.Opening.{Offers}
use libfatbat.Initialize.{Settings, Unset, new_controller, not_asked, locality_size, initialize}
use libfatbat.Initialize.Whole.{Named, initialize-Runs}
use libfatbat.Endpoint.{EndpointEnv, Controller}
use libfatbat.Endpoint.Stop.{destroy_controller}
use libfatbat.Endpoint.Ownership.{Working}
use libfatbat.Endpoint.Ownership.Steps.{Same}
use libfatbat.Endpoint.Ownership.Closing.{destroy_controller-Runs}
use libfatbat.Endpoint.Ownership.Balance.{NotNull}
use libfatbat.Endpoint.Threads.{Steps}
use libfatbat.Endpoint.Threads.Life.{Holds, Steps-Holds}

returned-injective :
    {S : Type 0} (a b : S)
    → ◌≡◌ {A = Outcome (Unit {0} × S)} (returns (tt, a)) (returns (tt, b))
    → a ≡ b
returned-injective a b h = cc

module _ {W : Type 0} (env : EndpointEnv W) (fab : FabricEnv W) (addr : AddressEnv W)
    (live : W → ℕ → ℕ) (d : Working env live) (o : Offers fab live) (s : Settings)
    (n : Named addr (locality_size s) live)
    (derived : List ℕ → ℕ → ℕ → ℕ → Action (Controller W) (Unit {0})) (provider : List ℕ)
    (r ranks threads : ℕ) (unset : Unset) (w : W)
    (more : (c : Controller W) → Runs (Same live c) (derived provider r ranks threads c))
    (type : libfabric_endpoint_type s.endpoint_type ≢ scalable_tx_rx) where
  -- Let libfabric accept every request and addresses fit their array, let the derived controller
  -- open nothing and return, let the endpoint type not be scalableTxRx, let the thread have no
  -- endpoint yet, and let `started` be the controller that `initialize` of a new one returned.
  -- Whatever threads then begin, ask for endpoints to send and to receive with, and end, in any
  -- order: once all of them have ended the destructor returns, and each object is open exactly as
  -- often as it was before the controller. So the endpoints that threads made, or took from the
  -- queue, are closed too, each once.
  pub destroy_controller-Steps :
      (started used : Controller W)
      → initialize env fab addr s derived provider r ranks threads
          (new_controller unset not_asked (locality_size s) w)
        ≡ returns (tt, started)
      → Steps env
          (record { controller = started; active = [] })
          (record { controller = used; active = [] })
      → (ended : Controller W) × (destroy_controller env used ≡ returns (tt, ended))
        × ((x : ℕ) → live ended.world x ≡ live w x)
  unfolding new_controller
  destroy_controller-Steps started used ran steps =
      let i =
        initialize-Runs env fab addr live d o s n derived provider r ranks threads unset w more
          type in
      let same : i.final ≡ started = returned-injective _ _ (sym i.ran ∙ ran) in
      let before : Holds live (live w) (record { controller = i.final; active = [] }) = record {
        has_av = i.post.has_av;
        has_domain = i.post.has_domain;
        has_fabric = i.post.has_fabric;
        queue = i.post.queue;
        rx_queue = subst (All NotNull) (sym i.post.rx_queue) tt;
        threads = tt;
        balance = λ x. omega (arith, i.post.balance x);
      } in
      let after = Steps-Holds live (live w) env d _ _ steps (
        subst (λ (c : Controller W). Holds live (live w) (record { controller = c; active = [] }))
          same before) in
      let e =
        destroy_controller-Runs env live d used (live w) after.has_av after.has_domain
          after.has_fabric (λ x. omega (arith, after.balance x)) in
      (e.final, e.ran, e.post)
