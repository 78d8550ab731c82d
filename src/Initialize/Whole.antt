-- ===== src/Initialize/Whole.antt =====
-- `initialize` where libfabric accepts every request, and the destructor after it.
use libfatbat.Prelude.{
  ℕ, Bool, false, ◌+◌, ◌≤◌, ◌≡◌, ◌≢◌, refl, sym, ◌∙◌, ap, subst, List, pos, ltb, All, arith,
}
use libfatbat.Settings.{scalable_tx_rx, libfabric_endpoint_type}
use libfatbat.Action.{Action, after}
use libfatbat.Action.Runs.{Runs, Runs-returns, Runs-after, Runs-mono}
use libfatbat.Members.{Members}
use libfatbat.Locality.{locality_of}
use libfatbat.Locality.Vector.{AddressEnv, get_endpoint_address}
use libfatbat.Flags.{needs_cq_counters}
use libfatbat.OpenFabric.{Hints, FabricEnv, keep_mode, keep_info}
use libfatbat.OpenFabric.Opening.{Offers, Agreed, opened_with, open_fabric-Runs}
use libfatbat.Initialize.{
  Settings, Unset, new_controller, not_asked, locality_size, needs_dummy_queue, apply_settings,
  find_here, initialize,
}
use libfatbat.Endpoint.{EndpointEnv, Controller}
use libfatbat.Endpoint.Start.{start_endpoints}
use libfatbat.Endpoint.Ownership.{held_null, all_held, owned, Working}
use libfatbat.Endpoint.Ownership.Steps.{Same, end-Moved}
use libfatbat.Endpoint.Ownership.Balance.{NotNull}
use libfatbat.Endpoint.Ownership.Balance.Whole.{Fresh, start_endpoints-Runs}

-- An endpoint has an address, which fits the array, and reading it opens nothing.
pub record Named {W : Type 0} (addr : AddressEnv W) (size : ℕ) (live : W → ℕ → ℕ) : Type 0 where
  pub names :
      (id : ℕ) (w : W)
      → ((addr.fi_getname id size w).0.0 ≡ pos 0)
        × ((addr.fi_getname id size w).0.2 ≤ size)
        × ((x : ℕ) → live (addr.fi_getname id size w).1 x ≡ live w x)

-- What is known of the controller `e` that the steps after open_fabric make of `c`.
abbrev Followed : {W : Type 0} → (W → ℕ → ℕ) → ℕ → Controller W → Controller W → Type 0
Followed live rank c e =
    (e.av ≢ 0)
    × (e.domain ≡ c.domain)
    × (e.fabric ≡ c.fabric)
    × (e.info ≡ c.info)
    × (All NotNull c.tx_endpoints → All NotNull e.tx_endpoints)
    × (e.rx_endpoints ≡ c.rx_endpoints)
    × ((bytes : List ℕ) × (e.members ≡ record c.members { here = locality_of bytes e.av rank }))
    × ((x : ℕ) → live e.world x + owned c x ≡ live c.world x + owned e x)

module _ {W : Type 0} (env : EndpointEnv W) (fab : FabricEnv W) (live : W → ℕ → ℕ)
    (s : Settings) where
  -- The members that `initialize` leaves: `a` are the hints and the answer that libfabric and the
  -- controller agreed on, and `bytes` the address of the receiving endpoint.
  abbrev pub final_members : Members → Hints × ℕ → List ℕ → ℕ → ℕ → Members
  final_members m a bytes av rank =
      let kept = keep_info env fab s.fabric_config a.1 (keep_mode env fab a.0 m) in
      record kept { here = locality_of bytes av rank }

  pub record Initialized (provider : List ℕ) (rank size threads : ℕ) (c e : Controller W)
      : Type 0 where
    pub has_av : e.av ≢ 0
    pub has_domain : e.domain ≢ 0
    pub has_fabric : e.fabric ≢ 0
    pub agreed :
        (a : Hints × ℕ) × (bytes : List ℕ) × Agreed env fab s.fabric_config provider threads a
        × (e.info ≡ a.1)
        × (e.members ≡ final_members (apply_settings s size threads c).members a bytes e.av rank)
    pub queue : All NotNull e.tx_endpoints
    pub rx_queue : e.rx_endpoints ≡ c.rx_endpoints
    pub balance : (x : ℕ) → live e.world x ≡ live c.world x + owned e x

module _ {W : Type 0} (env : EndpointEnv W) (fab : FabricEnv W) (addr : AddressEnv W)
    (live : W → ℕ → ℕ) (d : Working env live) (o : Offers fab live) (s : Settings)
    (n : Named addr (locality_size s) live) where
  find_here-Runs :
      (rank : ℕ) (c : Controller W)
      → Runs
          (λ u e.
            (bytes : List ℕ) × (w : W) × (e ≡ record c {
              members = record c.members { here = locality_of bytes c.av rank };
              world = w;
            })
            × ((x : ℕ) → live w x ≡ live c.world x))
          (find_here addr s rank c)
  unfolding find_here get_endpoint_address after
  find_here-Runs rank c =
      let (ok, fits, l) = n.names c.ep_rx.ep c.world in
      let in_room : ltb (locality_size s) (addr.fi_getname c.ep_rx.ep (locality_size s) c.world).0.2
          ≡ false =
        ground arith in
      rw (ok, in_room) (Runs-returns _ _ _ (_, _, refl, l))

  -- What follows open_fabric.
  rest-Runs :
      (counters bound_queue : Bool)
      (derived : List ℕ → ℕ → ℕ → ℕ → Action (Controller W) (Unit {0})) (provider : List ℕ)
      (rank size threads : ℕ) (c : Controller W)
      → ((e : Controller W) → Runs (Same live e) (derived provider rank size threads e))
      → Fresh c
      → c.endpoint_type ≢ scalable_tx_rx
      → Runs
          (λ u e. Followed live rank c e)
          (after
            (start_endpoints env counters bound_queue size threads c)
            λ r. after (find_here addr s rank r.1) λ t. derived provider rank size threads t.1)
  unfolding after
  rest-Runs counters bound_queue derived provider rank size threads c more fresh type =
      Runs-after _ _ _ _
        (start_endpoints-Runs env live d counters bound_queue size threads c fresh type)
        λ u e p. Runs-after _ _ _ _ (find_here-Runs rank e) λ v f q.
          subst
            (λ (g : Controller W).
              Runs (λ v h. Followed live rank c h) (derived provider rank size threads g))
            (sym q.2)
            (end-Moved live _ _ _ _ (more _) λ b w l. (
              p.0,
              p.1,
              p.2,
              p.4,
              p.5,
              p.6,
              (q.0, ap (λ (m : Members). record m { here = locality_of q.0 e.av rank }) p.3),
              λ x. omega (arith, p.7 x, q.3 x, l x),
            ))

  pub initialize-Runs :
      (derived : List ℕ → ℕ → ℕ → ℕ → Action (Controller W) (Unit {0})) (provider : List ℕ)
      (rank size threads : ℕ) (unset : Unset) (w : W)
      → ((c : Controller W) → Runs (Same live c) (derived provider rank size threads c))
      → libfabric_endpoint_type s.endpoint_type ≢ scalable_tx_rx
      → let c = new_controller unset not_asked (locality_size s) w in
        Runs
          (λ u e. Initialized env fab live s provider rank size threads c e)
          (initialize env fab addr s derived provider rank size threads c)
  unfolding initialize new_controller apply_settings after all_held
  initialize-Runs derived provider rank size threads unset w more type =
      let c : Controller W = new_controller unset not_asked (locality_size s) w in
      let c0 : Controller W = apply_settings s size threads c in
      Runs-after _ _ _ _ (open_fabric-Runs env fab live d o s.fabric_config provider threads c0)
        λ u e p.
          let c1 : Controller W = opened_with env fab s.fabric_config c0 p.0 p.1 p.2 p.3 in
          let rest =
            rest-Runs (needs_cq_counters s.derived_needs_cq_counters)
              (needs_dummy_queue s.fabric_config.build) derived provider rank size threads c1 more
              (record {
                has_domain = p.6;
                has_fabric = p.5;
                no_av = refl;
                no_cntr = refl;
                no_rx = refl;
                no_tx = refl;
              })
              type in
          subst
            (λ (g : Controller W).
              Runs (λ v f. Initialized env fab live s provider rank size threads c f)
                (after
                  (start_endpoints env (needs_cq_counters s.derived_needs_cq_counters)
                    (needs_dummy_queue s.fabric_config.build) size threads g)
                  λ r.
                    after (find_here addr s rank r.1) λ t. derived provider rank size threads t.1))
            (sym p.7)
            (Runs-mono _ _ _ rest λ v f q. record {
              has_av = q.0;
              has_domain = λ z. p.6 (sym q.1 ∙ z);
              has_fabric = λ z. p.5 (sym q.2 ∙ z);
              agreed = (p.0, q.6.0, p.4, q.3, q.6.1);
              queue = q.4 tt;
              rx_queue = q.5;
              balance = λ x. omega (arith, q.7 x, p.8 x, held_null x);
            })
