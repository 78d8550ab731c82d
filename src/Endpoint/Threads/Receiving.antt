-- ===== src/Endpoint/Threads/Receiving.antt =====
-- What get_rx_endpoint takes from the queue, and what it keeps.
use libfatbat.Prelude.{
  ℕ, ◌+◌, ==_iff, List, [], ◌∷◌, ◌≡◌, refl, sym, ap, subst, Bool-cases, inl, inr, All, arith,
}
use libfatbat.Outcome.{returns}
use libfatbat.Settings.{EndpointType, single, multiple, threadlocal_tx, scalable_tx, scalable_tx_rx}
use libfatbat.Fabric.{is_null}
use libfatbat.Endpoint.{EndpointEnv, EndpointWrapper, PoolRef, no_pool, Controller}
use libfatbat.Endpoint.Choose.{get_rx_endpoint, pop_rx}
use libfatbat.Endpoint.Ownership.{wrapper_held, all_held, Working}
use libfatbat.Endpoint.Ownership.Balance.{NotNull}
use libfatbat.Endpoint.Threads.{locals}
use libfatbat.Endpoint.Threads.Sharing.{share, pooled, Sound, Kept, Returned, unchanged}

module _ {W : Type 0} (env : EndpointEnv W) (live : W → ℕ → ℕ) (d : Working env live) where
  pop_rx-Returned :
      (es : List EndpointWrapper) (c : Controller W)
      → es ≡ c.rx_endpoints
      → All NotNull es
      → All NotNull c.tx_endpoints
      → Sound (locals c)
      → c.tl_srx.pool ≡ no_pool
      → Returned (λ e c'. Kept live c c') (pop_rx es c)
  unfolding pop_rx all_held
  pop_rx-Returned [] c same qr q s srx = tt
  pop_rx-Returned (e ∷ es) c same qr q s srx = record {
    queue = q;
    rx_queue = qr.1;
    sound = (s.0, s.1, inr (refl, qr.0));
    same_av = refl;
    same_domain = refl;
    same_fabric = refl;
    balance = λ x.
        let front : all_held c.rx_endpoints x ≡ wrapper_held e x + all_held es x =
          ap (λ l. all_held l x) (sym same) in
        let none : pooled c.tl_srx x ≡ 0 = ap (λ (p : PoolRef). share p c.tl_srx.endpoint x) srx in
        omega (arith, front, none);
  }

  pub get_rx_endpoint-Returned :
      (c : Controller W)
      → All NotNull c.tx_endpoints
      → All NotNull c.rx_endpoints
      → Sound (locals c)
      → Returned (λ e c'. Kept live c c') (get_rx_endpoint c)
  unfolding get_rx_endpoint
  get_rx_endpoint-Returned c q qr s = by_type c.endpoint_type refl
    where
      shared :
          get_rx_endpoint c ≡ returns (c.ep_rx, c)
          → Returned (λ e c'. Kept live c c') (get_rx_endpoint c)
      shared ran =
          subst (Returned (λ e c'. Kept live c c')) (sym ran) (unchanged env live d c q qr s)

      by_type :
          (t : EndpointType)
          → c.endpoint_type ≡ t
          → Returned (λ e c'. Kept live c c') (get_rx_endpoint c)
      by_type single h = shared (simp (h, get_rx_endpoint))
      by_type multiple h = shared (simp (h, get_rx_endpoint))
      by_type threadlocal_tx h = shared (simp (h, get_rx_endpoint))
      by_type scalable_tx h = shared (simp (h, get_rx_endpoint))
      by_type scalable_tx_rx h = elim (Bool-cases (is_null c.tl_srx.endpoint.ep)) [
        | inl e ↦
            let ran : get_rx_endpoint c ≡ pop_rx c.rx_endpoints c = simp (h, get_rx_endpoint, e) in
            subst (Returned (λ e c'. Kept live c c')) (sym ran) (elim s.2 [
              | inl free ↦ pop_rx-Returned c.rx_endpoints c refl qr q s free
              | inr p ↦ absurd (p.1 ((==_iff _ _).0 e))
            ])
        | inr e ↦
            let ran : get_rx_endpoint c ≡ returns (c.tl_srx.endpoint, c) =
              simp (h, get_rx_endpoint, e) in
            subst (Returned (λ e c'. Kept live c c')) (sym ran) (unchanged env live d c q qr s)
      ]
