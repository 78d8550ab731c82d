-- ===== src/Endpoint/Threads/Sharing.antt =====
-- What the threads hold between them.
use libfatbat.Prelude.{
  ℕ, ◌+◌, ==_iff, List, [], ◌∷◌, ◌≡◌, ◌≢◌, refl, sym, ap, subst, Bool-cases, ◌⊎◌, inl, inr, bit_or,
  All, arith,
}
use libfatbat.Outcome.{Outcome, returns}
use libfatbat.Settings.{EndpointType, single, multiple, threadlocal_tx, scalable_tx, scalable_tx_rx}
use libfatbat.Action.{after}
use libfatbat.Action.Runs.{Runs, Runs-returns}
use libfatbat.Fabric.{is_null}
use libfatbat.Endpoint.{
  EndpointEnv, EndpointWrapper, StackEndpoint, PoolRef, no_pool, tx_pool, rx_pool, Controller,
}
use libfatbat.Endpoint.Choose.{
  get_tx_endpoint, get_scalable_tx, pop_tx, new_threadlocal, keep_threadlocal,
}
use libfatbat.Endpoint.Ownership.{held_null, wrapper_held, all_held, owned, Working}
use libfatbat.Endpoint.Ownership.Steps.{then-Opened, then-Moved}
use libfatbat.Endpoint.Ownership.Making.{
  new_endpoint_active-Opened, create_completion_queue-Opened, bind_queue_to_endpoint-Same,
  bind_address_vector_to_endpoint-Same, enable_endpoint-Same,
}
use libfatbat.Endpoint.Ownership.Balance.{NotNull, All-append, all_held-append}
use libfatbat.Endpoint.Threads.{Locals, locals}

-- What a thread-local endpoint gives back to the queue in the end.
abbrev pub share : PoolRef → EndpointWrapper → ℕ → ℕ
share no_pool e x = 0
share _ e x = wrapper_held e x

abbrev pub pooled : StackEndpoint → ℕ → ℕ
pooled s x = share s.pool s.endpoint x

abbrev pub all_pooled : List Locals → ℕ → ℕ
all_pooled [] x = 0
all_pooled (l ∷ ls) x = pooled l.tl_stx x + pooled l.tl_srx x + all_pooled ls x

-- A scalable endpoint of a thread is from its queue.
abbrev pub FromQueue : PoolRef → StackEndpoint → Type 0
FromQueue queue s = (s.pool ≡ no_pool) ⊎ ((s.pool ≡ queue) × (s.endpoint.ep ≢ 0))

abbrev pub Sound : Locals → Type 0
Sound l = (l.tl_tx.pool ≡ no_pool) × FromQueue tx_pool l.tl_stx × FromQueue rx_pool l.tl_srx

-- What a call has to keep.
pub record Kept {W : Type 0} (live : W → ℕ → ℕ) (c c' : Controller W) : Type 0 where
  pub queue : All NotNull c'.tx_endpoints
  pub rx_queue : All NotNull c'.rx_endpoints
  pub sound : Sound (locals c')
  pub same_av : c'.av ≡ c.av
  pub same_domain : c'.domain ≡ c.domain
  pub same_fabric : c'.fabric ≡ c.fabric
  pub balance :
      (x : ℕ)
      → live c'.world x + (owned c x + pooled c.tl_stx x + pooled c.tl_srx x)
        ≡ live c.world x + (owned c' x + pooled c'.tl_stx x + pooled c'.tl_srx x)

-- If the step returns, then with the property `Q`.
abbrev pub Returned : {S A : Type 0} → (A → S → Type 0) → Outcome (A × S) → Type 0
Returned Q (returns r) = Q r.0 r.1
Returned Q _ = Unit {0}

Runs-Returned : {S A : Type 0} (Q : A → S → Type 0) (m : Outcome (A × S)) → Runs Q m → Returned Q m
Runs-Returned Q m r = subst (Returned Q) (sym r.ran) r.post

module _ {W : Type 0} (env : EndpointEnv W) (live : W → ℕ → ℕ) (d : Working env live) where
  pub unchanged :
      (c : Controller W)
      → All NotNull c.tx_endpoints
      → All NotNull c.rx_endpoints
      → Sound (locals c)
      → Kept live c c
  unchanged c q qr s = record {
    queue = q;
    rx_queue = qr;
    sound = s;
    same_av = refl;
    same_domain = refl;
    same_fabric = refl;
    balance = λ x. refl;
  }

  new_threadlocal-Runs :
      (c : Controller W)
      → All NotNull c.tx_endpoints
      → All NotNull c.rx_endpoints
      → Sound (locals c)
      → Runs (λ e c'. Kept live c c') (new_threadlocal env c)
  unfolding new_threadlocal keep_threadlocal after
  new_threadlocal-Runs c q qr s =
      then-Opened live c _ _ _
        (create_completion_queue-Opened env live d c.domain (env.tx_attr_size c.info) c)
        λ cq w1 nq l1.
          then-Opened live (record c { world = w1 }) _ _ _
            (new_endpoint_active-Opened env live d c.domain c.info _)
            λ ep w2 nz l2.
              then-Moved live (record c { world = w2 }) (live w2) _ _ _
                (bind_queue_to_endpoint-Same env live d ep cq (bit_or env.fi_transmit env.fi_recv)
                  _)
                λ a w3 l3.
                  then-Moved live (record c { world = w3 }) (live w3) _ _ _
                    (bind_address_vector_to_endpoint-Same env live d ep c.av _)
                    λ a w4 l4.
                      then-Moved live (record c { world = w4 }) (live w4) _ _ _
                        (enable_endpoint-Same env live d ep _ nz)
                        λ a w5 l5. Runs-returns _ _ _ (record {
                          queue = All-append c.tx_endpoints _ q nz;
                          rx_queue = qr;
                          sound = (refl, s.1, s.2);
                          same_av = refl;
                          same_domain = refl;
                          same_fabric = refl;
                          balance = λ x. omega (
                            arith,
                            l1 x,
                            l2 x,
                            l3 x,
                            l4 x,
                            l5 x,
                            held_null x,
                            all_held-append c.tx_endpoints (record { ep = ep; rq = 0; tq = cq }) x,
                          );
                        })

  pop_tx-Returned :
      (es : List EndpointWrapper) (c : Controller W)
      → es ≡ c.tx_endpoints
      → All NotNull es
      → All NotNull c.rx_endpoints
      → Sound (locals c)
      → c.tl_stx.pool ≡ no_pool
      → Returned (λ e c'. Kept live c c') (pop_tx es c)
  unfolding pop_tx all_held
  pop_tx-Returned [] c same q qr s stx = tt
  pop_tx-Returned (e ∷ es) c same q qr s stx = record {
    queue = q.1;
    rx_queue = qr;
    sound = (s.0, inr (refl, q.0), s.2);
    same_av = refl;
    same_domain = refl;
    same_fabric = refl;
    balance = λ x.
        let front : all_held c.tx_endpoints x ≡ wrapper_held e x + all_held es x =
          ap (λ l. all_held l x) (sym same) in
        let none : pooled c.tl_stx x ≡ 0 = ap (λ (p : PoolRef). share p c.tl_stx.endpoint x) stx in
        omega (arith, front, none);
  }

  get_scalable_tx-Returned :
      (c : Controller W)
      → All NotNull c.tx_endpoints
      → All NotNull c.rx_endpoints
      → Sound (locals c)
      → Returned (λ e c'. Kept live c c') (get_scalable_tx c)
  unfolding get_scalable_tx
  get_scalable_tx-Returned c q qr s = elim (Bool-cases (is_null c.tl_stx.endpoint.ep)) [
    | inl e ↦ elim s.1 [
      | inl free ↦ rw e (pop_tx-Returned c.tx_endpoints c refl q qr s free)
      | inr p ↦ absurd (p.1 ((==_iff _ _).0 e))
    ]
    | inr e ↦ rw e (unchanged c q qr s)
  ]

  pub get_tx_endpoint-Returned :
      (c : Controller W)
      → All NotNull c.tx_endpoints
      → All NotNull c.rx_endpoints
      → Sound (locals c)
      → Returned (λ e c'. Kept live c c') (get_tx_endpoint env c)
  unfolding get_tx_endpoint
  get_tx_endpoint-Returned c q qr s = by_type c.endpoint_type refl
    where
      by_type :
          (t : EndpointType)
          → c.endpoint_type ≡ t
          → Returned (λ e c'. Kept live c c') (get_tx_endpoint env c)
      by_type single h =
          let ran : get_tx_endpoint env c ≡ returns (c.ep_rx, c) = simp (h, get_tx_endpoint) in
          subst (Returned (λ e c'. Kept live c c')) (sym ran) (unchanged c q qr s)
      by_type multiple h =
          let ran : get_tx_endpoint env c ≡ returns (c.ep_tx, c) = simp (h, get_tx_endpoint) in
          subst (Returned (λ e c'. Kept live c c')) (sym ran) (unchanged c q qr s)
      by_type scalable_tx h =
          let ran : get_tx_endpoint env c ≡ get_scalable_tx c = simp (h, get_tx_endpoint) in
          subst (Returned (λ e c'. Kept live c c')) (sym ran) (get_scalable_tx-Returned c q qr s)
      by_type scalable_tx_rx h =
          let ran : get_tx_endpoint env c ≡ get_scalable_tx c = simp (h, get_tx_endpoint) in
          subst (Returned (λ e c'. Kept live c c')) (sym ran) (get_scalable_tx-Returned c q qr s)
      by_type threadlocal_tx h = elim (Bool-cases (is_null c.tl_tx.endpoint.ep)) [
        | inl e ↦
            let ran : get_tx_endpoint env c ≡ new_threadlocal env c =
              simp (h, get_tx_endpoint, e) in
            subst (Returned (λ e c'. Kept live c c')) (sym ran)
              (Runs-Returned _ _ (new_threadlocal-Runs c q qr s))
        | inr e ↦
            let ran : get_tx_endpoint env c ≡ returns (c.tl_tx.endpoint, c) =
              simp (h, get_tx_endpoint, e) in
            subst (Returned (λ e c'. Kept live c c')) (sym ran) (unchanged c q qr s)
      ]
