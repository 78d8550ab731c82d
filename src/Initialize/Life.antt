-- ===== src/Initialize/Life.antt =====
-- The life of a controller: it is constructed, initialized and destroyed.
use libfatbat.Prelude.{
  ℕ, ◌*◌, ◌%◌, ◌^◌, ◌≤◌, ◌≡◌, ◌≢◌, ap, List, ◌==◌, if◌then◌else◌, to_u32, arith,
}
use libfatbat.Outcome.{returns}
use libfatbat.Settings.{
  scalable_tx_rx, libfabric_endpoint_type, libfabric_completions_per_poll,
  libfabric_rendezvous_threshold,
}
use libfatbat.Action.{Action}
use libfatbat.Action.Runs.{Runs}
use libfatbat.Members.{Members, rank, size, get_tx_size, get_rx_size, rendezvous_threshold}
use libfatbat.Locality.{locality_of}
use libfatbat.Locality.Vector.{AddressEnv}
use libfatbat.OpenFabric.{FabricEnv, keep_info, keep_mode}
use libfatbat.OpenFabric.Opening.{Offers}
use libfatbat.Initialize.{
  Settings, Unset, new_controller, not_asked, locality_size, apply_settings, initialize,
}
use libfatbat.Initialize.Whole.{Named, initialize-Runs}
use libfatbat.Endpoint.{EndpointEnv, Controller}
use libfatbat.Endpoint.Stop.{destroy_controller}
use libfatbat.Endpoint.Ownership.{Working}
use libfatbat.Endpoint.Ownership.Steps.{Same}
use libfatbat.Endpoint.Ownership.Closing.{destroy_controller-Runs}

module _ {W : Type 0} (env : EndpointEnv W) (fab : FabricEnv W) (addr : AddressEnv W)
    (live : W → ℕ → ℕ) (d : Working env live) (o : Offers fab live) (s : Settings)
    (n : Named addr (locality_size s) live)
    (derived : List ℕ → ℕ → ℕ → ℕ → Action (Controller W) (Unit {0})) (provider : List ℕ)
    (r ranks threads : ℕ) (unset : Unset) (w : W)
    (more : (c : Controller W) → Runs (Same live c) (derived provider r ranks threads c))
    (type : libfabric_endpoint_type s.endpoint_type ≢ scalable_tx_rx) where
  -- Where libfabric accepts every request and addresses fit their array, the derived controller
  -- opens nothing and returns, the endpoint type is not scalableTxRx, and the thread has no
  -- endpoint yet, `initialize` of a new controller returns, the destructor after it returns, and
  -- then each object is open exactly as often as it was before.
  pub destroy_controller-initialize :
      (started : Controller W) × (ended : Controller W) × (initialize env fab addr s derived
          provider r ranks threads
          (new_controller unset not_asked (locality_size s) w)
        ≡ returns (tt, started))
      × (destroy_controller env started ≡ returns (tt, ended))
      × ((x : ℕ) → live ended.world x ≡ live w x)
  unfolding new_controller
  destroy_controller-initialize =
      let i =
        initialize-Runs env fab addr live d o s n derived provider r ranks threads unset w more
          type in
      let e =
        destroy_controller-Runs env live d i.final (live w) i.post.has_av i.post.has_domain
          i.post.has_fabric i.post.balance in
      (i.final, e.final, i.ran, e.ran, e.post)

  -- Where libfabric accepts every request and addresses fit their array, the derived controller
  -- opens nothing and returns, the endpoint type is not scalableTxRx, and the thread has no
  -- endpoint yet, `initialize` of a new controller returns, and leaves it with the rank and the
  -- number of ranks that it was given, the address vector of its own locality being its own; the
  -- poll size and the rendezvous threshold are those of the environment, where the threshold's
  -- default is 0x400 for one thread and 0x4000 for more; and the depths of the queues are at most
  -- 512 and at most half of what libfabric offers in the answer that the controller keeps.
  pub initialize-settings :
      (started : Controller W) × (initialize env fab addr s derived provider r ranks threads
          (new_controller unset not_asked (locality_size s) w)
        ≡ returns (tt, started))
      × (rank started.members ≡ r)
      × (size started.members ≡ ranks)
      × (started.members.here.av ≡ started.av)
      × (started.members.max_completions_per_poll
          ≡ to_u32 (libfabric_completions_per_poll s.poll_size))
      × (rendezvous_threshold started.members
          ≡ libfabric_rendezvous_threshold s.strtoul s.rendezvous_threshold
              (if threads == 1 then 0x400 else 0x4000)
            % 2 ^ 32)
      × (get_tx_size started.members ≤ 512)
      × (2 * get_tx_size started.members ≤ env.tx_attr_size started.info)
      × (get_rx_size started.members ≤ 512)
      × (2 * get_rx_size started.members ≤ env.rx_attr_size started.info)
  unfolding new_controller apply_settings keep_info keep_mode locality_of
  initialize-settings =
      let i =
        initialize-Runs env fab addr live d o s n derived provider r ranks threads unset w more
          type in
      let (a, bytes, agreed, same, e) = i.post.agreed in
      (
        i.final,
        i.ran,
        ap (λ (m : Members). m.here.fi_address) e,
        ap (λ (m : Members). m.num_ranks) e,
        ap (λ (m : Members). m.here.av) e,
        ap (λ (m : Members). m.max_completions_per_poll) e,
        ap (λ (m : Members). m.msg_rendezvous_threshold) e,
        omega (arith, ap (λ (m : Members). m.tx_attr_size) e, ap env.tx_attr_size same),
        omega (arith, ap (λ (m : Members). m.tx_attr_size) e, ap env.tx_attr_size same),
        omega (arith, ap (λ (m : Members). m.rx_attr_size) e, ap env.rx_attr_size same),
        omega (arith, ap (λ (m : Members). m.rx_attr_size) e, ap env.rx_attr_size same),
      )
