-- ===== src/Endpoint/Threads/Life.antt =====
-- Threads that send and receive while a controller lives.
use libfatbat.Prelude.{
  ℕ, ◌+◌, List, [], ◌∷◌, ◌++◌, ◌≡◌, ◌≢◌, refl, sym, ◌∙◌, ap, subst, inl, inr, All, arith,
}
use libfatbat.Outcome.{Outcome, returns}
use libfatbat.Endpoint.{
  StackEndpoint, PoolRef, tx_pool, rx_pool, end_stack_endpoint, EndpointEnv, Controller, push,
}
use libfatbat.Endpoint.Ownership.{wrapper_held, owned, Working}
use libfatbat.Endpoint.Ownership.Balance.{NotNull, All-append, all_held-append}
use libfatbat.Endpoint.Threads.{
  Locals, seen_by, locals, end_thread, Shared, Step, begins, sends, receives, ends, Steps, done,
  more,
}
use libfatbat.Endpoint.Threads.Receiving.{get_rx_endpoint-Returned}
use libfatbat.Endpoint.Threads.Sharing.{
  FromQueue, share, pooled, all_pooled, Sound, Kept, Returned, get_tx_endpoint-Returned,
}

all_pooled-insert :
    (before after : List Locals) (l : Locals) (x : ℕ)
    → all_pooled (before ++ l ∷ after) x
      ≡ pooled l.tl_stx x + pooled l.tl_srx x + all_pooled (before ++ after) x
all_pooled-insert [] after l x = omega arith
all_pooled-insert (m ∷ before) after l x = omega (arith, all_pooled-insert before after l x)

All-take :
    (before after : List Locals) (l : Locals)
    → All Sound (before ++ l ∷ after)
    → Sound l × All Sound (before ++ after)
All-take [] after l h = h
All-take (m ∷ before) after l h = let r = All-take before after l h.1 in (r.0, (h.0, r.1))

All-put :
    (before after : List Locals) (l : Locals)
    → Sound l
    → All Sound (before ++ after)
    → All Sound (before ++ l ∷ after)
All-put [] after l s h = (s, h)
All-put (m ∷ before) after l s h = (h.0, All-put before after l s h.1)

-- The controller and its threads have, between them, all that is open but `rest`.
pub record Holds {W : Type 0} (live : W → ℕ → ℕ) (rest : ℕ → ℕ) (s : Shared W) : Type 0 where
  pub has_av : s.controller.av ≢ 0
  pub has_domain : s.controller.domain ≢ 0
  pub has_fabric : s.controller.fabric ≢ 0
  pub queue : All NotNull s.controller.tx_endpoints
  pub rx_queue : All NotNull s.controller.rx_endpoints
  pub threads : All Sound s.active
  pub balance :
      (x : ℕ) → live s.controller.world x ≡ rest x + (owned s.controller x + all_pooled s.active x)

returned_is :
    {S A : Type 0} (Q : A → S → Type 0) (m : Outcome (A × S)) (a : A) (s : S)
    → Returned Q m
    → m ≡ returns (a, s)
    → Q a s
returned_is Q m a s r e = subst (Returned Q) e r

module _ {W : Type 0} (live : W → ℕ → ℕ) (rest : ℕ → ℕ) where
  -- What the controller has, where `given` is on its way back to it from a thread that ends.
  Rest : List Locals → (ℕ → ℕ) → Controller W → Type 0
  Rest ls given c =
      (c.av ≢ 0)
      × (c.domain ≢ 0)
      × (c.fabric ≢ 0)
      × All NotNull c.tx_endpoints
      × All NotNull c.rx_endpoints
      × ((x : ℕ) → live c.world x ≡ rest x + (owned c x + (given x + all_pooled ls x)))

  -- An endpoint goes back to its queue.
  end_tx-Rest :
      (ls : List Locals) (given : ℕ → ℕ) (s : StackEndpoint) (c : Controller W)
      → FromQueue tx_pool s
      → Rest ls (λ x. pooled s x + given x) c
      → Rest ls given (end_stack_endpoint s c)
  unfolding Rest
  end_tx-Rest ls given s c (inl f) (av, domain, fabric, q, qr, l) =
      subst (λ (p : PoolRef). Rest ls given (push p s.endpoint c)) (sym f)
        (
          av,
          domain,
          fabric,
          q,
          qr,
          λ x.
              let none : pooled s x ≡ 0 = ap (λ (p : PoolRef). share p s.endpoint x) f in
              omega (arith, l x, none),
        )
  end_tx-Rest ls given s c (inr f) (av, domain, fabric, q, qr, l) =
      subst (λ (p : PoolRef). Rest ls given (push p s.endpoint c)) (sym f.0)
        (
          av,
          domain,
          fabric,
          All-append c.tx_endpoints s.endpoint q f.1,
          qr,
          λ x.
              let back : pooled s x ≡ wrapper_held s.endpoint x =
                ap (λ (p : PoolRef). share p s.endpoint x) f.0 in
              omega (arith, l x, back, all_held-append c.tx_endpoints s.endpoint x),
        )

  end_rx-Rest :
      (ls : List Locals) (given : ℕ → ℕ) (s : StackEndpoint) (c : Controller W)
      → FromQueue rx_pool s
      → Rest ls (λ x. pooled s x + given x) c
      → Rest ls given (end_stack_endpoint s c)
  unfolding Rest
  end_rx-Rest ls given s c (inl f) (av, domain, fabric, q, qr, l) =
      subst (λ (p : PoolRef). Rest ls given (push p s.endpoint c)) (sym f)
        (
          av,
          domain,
          fabric,
          q,
          qr,
          λ x.
              let none : pooled s x ≡ 0 = ap (λ (p : PoolRef). share p s.endpoint x) f in
              omega (arith, l x, none),
        )
  end_rx-Rest ls given s c (inr f) (av, domain, fabric, q, qr, l) =
      subst (λ (p : PoolRef). Rest ls given (push p s.endpoint c)) (sym f.0)
        (
          av,
          domain,
          fabric,
          q,
          All-append c.rx_endpoints s.endpoint qr f.1,
          λ x.
              let back : pooled s x ≡ wrapper_held s.endpoint x =
                ap (λ (p : PoolRef). share p s.endpoint x) f.0 in
              omega (arith, l x, back, all_held-append c.rx_endpoints s.endpoint x),
        )

  -- The end of a thread.
  end_thread-Holds :
      (c : Controller W) (before after : List Locals) (l : Locals)
      → Holds live rest (record { controller = c; active = before ++ l ∷ after })
      → Holds live rest (record { controller = end_thread l c; active = before ++ after })
  unfolding Rest
  end_thread-Holds c before after l h =
      let (s, ss) = All-take before after l h.threads in
      let ls = before ++ after in
      let r1 : Rest ls (λ x. pooled l.tl_stx x + 0) (end_stack_endpoint l.tl_srx c) =
        end_rx-Rest ls (λ x. pooled l.tl_stx x + 0) l.tl_srx c s.2
          (
            h.has_av,
            h.has_domain,
            h.has_fabric,
            h.queue,
            h.rx_queue,
            λ x. omega (arith, h.balance x, all_pooled-insert before after l x),
          ) in
      let d = end_stack_endpoint l.tl_stx (end_stack_endpoint l.tl_srx c) in
      let r2 : Rest ls (λ x. 0) d = end_tx-Rest ls (λ x. 0) l.tl_stx _ s.1 r1 in
      let ended : end_thread l c ≡ d = ap (λ (p : PoolRef). push p l.tl_tx.endpoint d) s.0 in
      subst (λ (e : Controller W). Holds live rest (record { controller = e; active = ls }))
        (sym ended)
        (record {
          has_av = r2.0;
          has_domain = r2.1;
          has_fabric = r2.2;
          queue = r2.3;
          rx_queue = r2.4;
          threads = ss;
          balance = λ x. omega (arith, r2.5 x);
        })

  -- A call of a thread.
  call-Holds :
      (c c' : Controller W) (before after : List Locals) (l : Locals)
      → Holds live rest (record { controller = c; active = before ++ l ∷ after })
      → Kept live (seen_by l c) c'
      → Holds live rest (record { controller = c'; active = before ++ locals c' ∷ after })
  call-Holds c c' before after l h k = record {
    has_av = λ z. h.has_av (sym k.same_av ∙ z);
    has_domain = λ z. h.has_domain (sym k.same_domain ∙ z);
    has_fabric = λ z. h.has_fabric (sym k.same_fabric ∙ z);
    queue = k.queue;
    rx_queue = k.rx_queue;
    threads = All-put before after (locals c') k.sound (All-take before after l h.threads).1;
    balance = λ x. omega (
      arith,
      h.balance x,
      k.balance x,
      all_pooled-insert before after l x,
      all_pooled-insert before after (locals c') x,
    );
  }

  module _ (env : EndpointEnv W) (d : Working env live) where
    Step-Holds : (s t : Shared W) → Step env s t → Holds live rest s → Holds live rest t
    Step-Holds _ _ (begins c ls) h = record {
      has_av = h.has_av;
      has_domain = h.has_domain;
      has_fabric = h.has_fabric;
      queue = h.queue;
      rx_queue = h.rx_queue;
      threads = ((refl, inl refl, inl refl), h.threads);
      balance = λ x. omega (arith, h.balance x);
    }
    Step-Holds _ _ (sends c c' before after l e ran) h =
        let s = (All-take before after l h.threads).0 in
        call-Holds c c' before after l h (
          returned_is _ _ e c'
            (get_tx_endpoint-Returned env live d (seen_by l c) h.queue h.rx_queue s) ran)
    Step-Holds _ _ (receives c c' before after l e ran) h =
        let s = (All-take before after l h.threads).0 in
        call-Holds c c' before after l h (
          returned_is _ _ e c'
            (get_rx_endpoint-Returned env live d (seen_by l c) h.queue h.rx_queue s) ran)
    Step-Holds _ _ (ends c before after l) h = end_thread-Holds c before after l h

    pub Steps-Holds : (s t : Shared W) → Steps env s t → Holds live rest s → Holds live rest t
    Steps-Holds _ _ (done s) h = h
    Steps-Holds _ _ (more s t u before last) h = Step-Holds t u last (Steps-Holds s t before h)
