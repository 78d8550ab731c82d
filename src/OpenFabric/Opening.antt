-- ===== src/OpenFabric/Opening.antt =====
-- open_fabric where libfabric accepts every request.
use libfatbat.Prelude.{ℕ, false, ◌==◌, ◌+◌, ◌≡◌, ◌≢◌, refl, ◌∙◌, List, pos, arith}
use libfatbat.Outcome.{returns, check}
use libfatbat.Action.{after}
use libfatbat.Action.Runs.{Runs, Runs-returns}
use libfatbat.Endpoint.{EndpointEnv, Controller}
use libfatbat.Endpoint.Build.{make}
use libfatbat.Endpoint.Ownership.{held, Made, Working}
use libfatbat.Endpoint.Ownership.Steps.{Moved, moved, make-Opened, then-Opened, then_with}
use libfatbat.OpenFabric.{
  Hints, FabricEnv, Config, not_null, first_hints, second_hints, keep_mode, keep_info, negotiate,
  open_fabric,
}

-- libfabric accepts every request: an answer is not null, has its attributes, and opens nothing.
pub record Offers {W : Type 0} (fab : FabricEnv W) (live : W → ℕ → ℕ) : Type 0 where
  pub allocates :
      (w : W) → ((fab.fi_allocinfo w).0 ≢ 0) × ((x : ℕ) → live (fab.fi_allocinfo w).1 x ≡ live w x)
  pub answers :
      (h : Hints) (w : W)
      → ((fab.fi_getinfo h w).0.0 ≡ pos 0)
        × ((fab.fi_getinfo h w).0.1 ≢ 0)
        × ((x : ℕ) → live (fab.fi_getinfo h w).1 x ≡ live w x)
  pub filled : (i : ℕ) → i ≢ 0 → (fab.tx_attr i ≢ 0) × (fab.domain_attr i ≢ 0) × (fab.rx_attr i ≢ 0)
  pub fabrics : (i : ℕ) (w : W) → Made live w (fab.fi_fabric i w)
  pub domains : (f i : ℕ) (w : W) → Made live w (fab.fi_domain f i w)

module _ {W : Type 0} (env : EndpointEnv W) (fab : FabricEnv W) (cfg : Config) where
  -- The hints are those that the first answer `init` leads to.
  abbrev pub Agreed : List ℕ → ℕ → Hints × ℕ → Type 0
  Agreed provider threads a =
      (a.1 ≢ 0)
      × (init : ℕ) × (a.0
          ≡ second_hints env fab cfg threads init (first_hints fab.mode_consts cfg provider))

  abbrev pub opened_with : Controller W → Hints × ℕ → ℕ → ℕ → W → Controller W
  opened_with c a fabric domain w = record c {
    info = a.1;
    fabric = fabric;
    domain = domain;
    members = keep_info env fab cfg a.1 (keep_mode env fab a.0 c.members);
    world = w;
  }

module _ {W : Type 0} (env : EndpointEnv W) (fab : FabricEnv W) (live : W → ℕ → ℕ)
    (d : Working env live) (o : Offers fab live) (cfg : Config) where
  not_null-Same : (p : ℕ) (c : Controller W) → p ≢ 0 → not_null p c ≡ returns (tt, c)
  unfolding not_null
  not_null-Same p c nz = ground arith

  answer-Runs :
      (h : Hints) (c : Controller W)
      → Runs (λ i e. (i ≢ 0) × Moved live c (live c.world) e) (make (fab.fi_getinfo h) c)
  unfolding make check after
  answer-Runs h c =
      let (ok, nz, l) = o.answers h c.world in rw ok (Runs-returns _ _ _ (nz, moved live c _ _ l))

  negotiate-Runs :
      (provider : List ℕ) (threads : ℕ) (c : Controller W)
      → Runs
          (λ a e. Agreed env fab cfg provider threads a × Moved live c (live c.world) e)
          (negotiate env fab cfg provider threads c)
  unfolding negotiate after Moved
  negotiate-Runs provider threads c = then_with live c _ _ _ _ _ (answer-Runs _ c) λ init w1 nz l1.
      rw (not_null-Same init (record c { world = w1 }) nz) (
        then_with live (record c { world = w1 }) _ _ _ _ _ (answer-Runs _ (record c { world = w1 }))
          λ info w2 nz2 l2.
            Runs-returns _ _ _
              ((nz2, init, refl), moved live c _ _ (λ x. d.frees init w2 x ∙ (l2 x ∙ l1 x))))

  -- The fabric and the domain are opened, and nothing else, and the members are as the hints and
  -- the answer to them say.
  pub open_fabric-Runs :
      (provider : List ℕ) (threads : ℕ) (c : Controller W)
      → Runs
          (λ u e.
            (a : Hints × ℕ) × (fabric domain : ℕ) × (w : W) × Agreed env fab cfg provider threads a
            × (fabric ≢ 0)
            × (domain ≢ 0)
            × (e ≡ opened_with env fab cfg c a fabric domain w)
            × ((x : ℕ) → live w x ≡ live c.world x + held fabric x + held domain x))
          (open_fabric env fab cfg provider threads c)
  unfolding open_fabric after
  open_fabric-Runs provider threads c =
      let (nz, l) = o.allocates c.world in
      let c1 : Controller W = record c { world = (fab.fi_allocinfo c.world).1 } in
      let hints = (fab.fi_allocinfo c.world).0 in
      let some_hints : (hints == 0) ≡ false = ground arith in
      rw some_hints (
        then_with live c1 _ _ _ _ _ (negotiate-Runs provider threads c1) λ a w1 agreed l1.
          let c2 : Controller W = record c1 {
            world = w1;
            info = a.1;
            members = keep_mode env fab a.0 c1.members;
          } in
          rw (not_null-Same a.1 c2 agreed.0) (
            then-Opened live c2 _ _ _ (make-Opened live (fab.fi_fabric a.1) c2 (o.fabrics a.1 w1))
              λ fabric w2 fz l2.
                let c3 : Controller W = record c2 { fabric = fabric; world = w2 } in
                then-Opened live c3 _ _ _
                  (make-Opened live (fab.fi_domain fabric a.1) c3 (o.domains fabric a.1 w2))
                  λ domain w3 dz l3.
                    let c4 : Controller W = record c3 { domain = domain; world = w3 } in
                    let there = o.filled a.1 agreed.0 in
                    rw
                      (
                        not_null-Same (fab.tx_attr a.1) c4 there.0,
                        not_null-Same (fab.domain_attr a.1) c4 there.1,
                        not_null-Same (fab.rx_attr a.1) c4 there.2,
                      )
                      (Runs-returns _ _ _ (
                        a,
                        fabric,
                        domain,
                        env.fi_freeinfo hints w3,
                        agreed,
                        fz,
                        dz,
                        refl,
                        λ x. omega (arith, d.frees hints w3 x, l3 x, l2 x, l1 x, l x),
                      ))))
