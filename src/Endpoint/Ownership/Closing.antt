-- ===== src/Endpoint/Ownership/Closing.antt =====
-- Closing what the controller holds.
use libfatbat.Prelude.{
  ℕ, zero, suc, ◌+◌, ◌<◌, ◌≡◌, ◌≢◌, refl, sym, subst, ◌==◌, false, eq_int, neg, ℤ, pos, List, [],
  ◌∷◌, arith,
}
use libfatbat.Outcome.{Outcome, catch_fabric_error}
use libfatbat.Action.{after}
use libfatbat.Action.Runs.{Runs, Runs-returns, Runs-after}
use libfatbat.Endpoint.{
  EndpointEnv, EndpointWrapper, Controller, fidclose, close_if, cleanup, no_endpoint,
}
use libfatbat.Endpoint.Stop.{
  cleanup_all, close_domain, close_endpoints, destroy_controller, forget_endpoints, forget_counter,
}
use libfatbat.Endpoint.Ownership.{
  held, held_null, held_self, wrapper_held, all_held, owned, Working,
}
use libfatbat.Endpoint.Ownership.Steps.{Moved, moved, then-Moved, still}

-- The result of a close that succeeded is not -FI_EBUSY.
not_busy : (b : ℕ) → 0 < b → eq_int (pos 0) (neg b) ≡ false
not_busy (suc b) h = refl
not_busy zero h = absurd (omega arith)

module _ {W : Type 0} (env : EndpointEnv W) (live : W → ℕ → ℕ) (d : Working env live) where
  -- To close one of the objects that are open leaves the rest open.
  pub fidclose-Moved :
      (h : ℕ) (c : Controller W) (rest : ℕ → ℕ)
      → h ≢ 0
      → ((x : ℕ) → live c.world x ≡ rest x + held h x)
      → Runs (λ a. Moved live c rest) (fidclose env h c)
  unfolding fidclose after
  fidclose-Moved h c rest nz l =
      let (e, left) = d.closes h c.world (omega (arith, l h, held_self h nz)) in
      rw (e, not_busy env.fi_ebusy d.busy, d.success)
        (Runs-returns _ _ _ (moved live c rest _ (λ x. omega (arith, l x, left x))))

  pub close_if-Moved :
      (h : ℕ) (c : Controller W) (rest : ℕ → ℕ)
      → ((x : ℕ) → live c.world x ≡ rest x + held h x)
      → Runs (λ a. Moved live c rest) (close_if env h c)
  unfolding close_if
  close_if-Moved zero c rest l =
      Runs-returns _ tt c (moved live c rest c.world (λ x. omega (arith, l x, held_null x)))
  close_if-Moved (suc h) c rest l =
      let e : (suc h == 0) ≡ false = ground arith in
      rw e (fidclose-Moved (suc h) c rest (ground arith) l)

  pub cleanup-Moved :
      (e : EndpointWrapper) (c : Controller W) (rest : ℕ → ℕ)
      → ((x : ℕ) → live c.world x ≡ rest x + wrapper_held e x)
      → Runs (λ a. Moved live c rest) (cleanup env e c)
  unfolding cleanup
  cleanup-Moved e c rest l =
      then-Moved live c (λ x. rest x + held e.rq x + held e.tq x) _ _ _
        (close_if-Moved e.ep c _ (λ x. omega (arith, l x)))
        λ a w l1.
          then-Moved live (record c { world = w }) (λ x. rest x + held e.tq x) _ _ _
            (close_if-Moved e.rq _ _ (λ x. omega (arith, l1 x)))
            λ a w l2.
              then-Moved live (record c { world = w }) rest _ _ _ (close_if-Moved e.tq _ _ l2)
                λ a w l3. Runs-returns _ _ _ (moved live c rest w l3)

  pub cleanup_all-Moved :
      (es : List EndpointWrapper) (c : Controller W) (rest : ℕ → ℕ)
      → ((x : ℕ) → live c.world x ≡ rest x + all_held es x)
      → Runs (λ a. Moved live c rest) (cleanup_all env es c)
  unfolding cleanup_all all_held
  cleanup_all-Moved [] c rest l =
      Runs-returns _ tt c (moved live c rest c.world (λ x. omega (arith, l x)))
  cleanup_all-Moved (e ∷ es) c rest l =
      then-Moved live c (λ x. rest x + all_held es x) (λ a. Moved live c rest) _ _
        (cleanup-Moved e c _ (λ x. omega (arith, l x)))
        λ a w l1. still live c w rest _ (cleanup_all-Moved es (record c { world = w }) rest l1)

  catch_Moved :
      (c : Controller W) (rest : ℕ → ℕ) (m : Outcome (Unit {0} × Controller W))
      (handler : ℤ → Outcome (Unit {0} × Controller W))
      → Runs (λ a. Moved live c rest) m
      → Runs (λ a. Moved live c rest) (catch_fabric_error m handler)
  unfolding catch_fabric_error
  catch_Moved c rest m handler r = rw r.ran (Runs-returns _ _ _ r.post)

  -- The queues and the non-local endpoints are gone, and what is open is `rest`.
  Closed : Controller W → (ℕ → ℕ) → Controller W → Type 0
  Closed c rest e =
      (w : W) × (e ≡ record c {
        tx_endpoints = [];
        rx_endpoints = [];
        ep_tx = no_endpoint;
        ep_rx = no_endpoint;
        world = w;
      })
      × ((x : ℕ) → live w x ≡ rest x)

  then-Closed :
      {A B : Type 0} (c : Controller W) (rest : ℕ → ℕ) (Q : B → Controller W → Type 0)
      (m : Outcome (A × Controller W)) (k : A × Controller W → Outcome (B × Controller W))
      → Runs (λ a. Closed c rest) m
      → ((a : A) (w : W)
          → ((x : ℕ) → live w x ≡ rest x)
          → Runs Q (
              k (
                a,
                record c {
                  tx_endpoints = [];
                  rx_endpoints = [];
                  ep_tx = no_endpoint;
                  ep_rx = no_endpoint;
                  world = w;
                },
              )))
      → Runs Q (after m k)
  unfolding Closed
  then-Closed c rest Q m k r f =
      Runs-after _ Q m k r
        λ a e p. subst (λ (e : Controller W). Runs Q (k (a, e))) (sym p.1) (f a p.0 p.2)

  close_endpoints-Runs :
      (c : Controller W) (rest : ℕ → ℕ)
      → ((x : ℕ)
          → live c.world x
            ≡ rest x
              + all_held c.tx_endpoints x
              + all_held c.rx_endpoints x
              + wrapper_held c.ep_tx x
              + wrapper_held c.ep_rx x)
      → Runs (λ a. Closed c rest) (close_endpoints env c)
  unfolding close_endpoints forget_endpoints Closed
  close_endpoints-Runs c rest l =
      let r3 : ℕ → ℕ = λ x. rest x + wrapper_held c.ep_rx x in
      let r2 : ℕ → ℕ = λ x. r3 x + wrapper_held c.ep_tx x in
      let r1 : ℕ → ℕ = λ x. r2 x + all_held c.rx_endpoints x in
      then-Moved live c r1 _ _ _ (cleanup_all-Moved c.tx_endpoints c r1 (λ x. omega (arith, l x)))
        λ a w l1.
          then-Moved live (record c { world = w }) r2 _ _ _
            (cleanup_all-Moved c.rx_endpoints _ r2 l1)
            λ a w l2.
              then-Moved live (record c { world = w }) r3 _ _ _ (cleanup-Moved c.ep_tx _ r3 l2)
                λ a w l3.
                  then-Moved live (record c { world = w }) rest _ _ _
                    (cleanup-Moved c.ep_rx _ rest l3) λ a w l4. Runs-returns _ _ _ (w, refl, l4)

  -- The destructor closes each object that the controller owns once, and leaves the rest open.
  pub destroy_controller-Runs :
      (c : Controller W) (rest : ℕ → ℕ)
      → c.av ≢ 0
      → c.domain ≢ 0
      → c.fabric ≢ 0
      → ((x : ℕ) → live c.world x ≡ rest x + owned c x)
      → Runs (λ a e. (x : ℕ) → live e.world x ≡ rest x) (destroy_controller env c)
  unfolding destroy_controller forget_counter close_domain after
  destroy_controller-Runs c rest av domain fabric l =
      let r3 : ℕ → ℕ = λ x. rest x + held c.fabric x in
      let r2 : ℕ → ℕ = λ x. r3 x + held c.domain x in
      let r1 : ℕ → ℕ = λ x. r2 x + held c.av x in
      let r0 : ℕ → ℕ = λ x. r1 x + held c.tx_cntr x in
      then-Closed c r0 _ _ _ (close_endpoints-Runs c r0 (λ x. omega (arith, l x))) λ a w l0.
        then-Moved live _ r1 _ _ _ (close_if-Moved c.tx_cntr _ r1 l0) λ a w l1.
          then-Moved live _ r2 _ _ _ (fidclose-Moved c.av _ r2 av l1) λ a w l2.
            then-Moved live _ r3 _ _ _
              (catch_Moved _ r3 _ _ (fidclose-Moved c.domain _ r3 domain l2))
              λ a w l3.
                then-Moved live _ rest _ _ _ (fidclose-Moved c.fabric _ rest fabric l3) λ a w l4.
                  let freed : (x : ℕ) → live (env.fi_freeinfo c.info w) x ≡ rest x =
                    λ x. omega (arith, l4 x, d.frees c.info w x) in
                  Runs-returns _ _ _ freed
