-- ===== src/Endpoint/Ownership/Steps.antt =====
-- The steps of the controller that change nothing but the world.
use libfatbat.Prelude.{ℕ, ◌+◌, ◌≡◌, ◌≢◌, refl, sym, subst, ℤ}
use libfatbat.Outcome.{Outcome, check}
use libfatbat.Action.{after}
use libfatbat.Action.Runs.{Runs, Runs-returns, Runs-after, Runs-mono}
use libfatbat.Endpoint.{Controller}
use libfatbat.Endpoint.Build.{make, invoke}
use libfatbat.Endpoint.Ownership.{held, Made, Kept}

-- From `c`, only the world has changed, and what is open is `rest`.
unfoldable pub Moved : {W : Type 0} → (W → ℕ → ℕ) → Controller W → (ℕ → ℕ) → Controller W → Type 0
Moved live c rest d = (w : _) × (d ≡ record c { world = w }) × ((x : ℕ) → live w x ≡ rest x)

module _ {W : Type 0} (live : W → ℕ → ℕ) where
  -- An object that was made is open once more.
  abbrev pub Opened : Controller W → ℕ → Controller W → Type 0
  Opened c h d = (h ≢ 0) × Moved live c (λ x. live c.world x + held h x) d

  abbrev pub Same : {A : Type 0} → Controller W → A → Controller W → Type 0
  Same c a d = Moved live c (live c.world) d

  pub moved :
      (c : Controller W) (rest : ℕ → ℕ) (w : W)
      → ((x : ℕ) → live w x ≡ rest x)
      → Moved live c rest (record c { world = w })
  unfolding Moved
  moved c rest w l = (w, refl, l)

  -- To go on after a step that made an object.
  pub then-Opened :
      {B : Type 0} (c : Controller W) (Q : B → Controller W → Type 0)
      (m : Outcome (ℕ × Controller W)) (k : ℕ × Controller W → Outcome (B × Controller W))
      → Runs (Opened c) m
      → ((h : ℕ) (w : W)
          → h ≢ 0
          → ((x : ℕ) → live w x ≡ live c.world x + held h x)
          → Runs Q (k (h, record c { world = w })))
      → Runs Q (after m k)
  unfolding Moved
  then-Opened c Q m k r f =
      Runs-after _ Q m k r
        λ h d p. subst (λ (d : Controller W). Runs Q (k (h, d))) (sym p.1.1) (f h p.1.0 p.0 p.1.2)

  -- To go on after a step that left `rest` open.
  pub then-Moved :
      {A B : Type 0} (c : Controller W) (rest : ℕ → ℕ) (Q : B → Controller W → Type 0)
      (m : Outcome (A × Controller W)) (k : A × Controller W → Outcome (B × Controller W))
      → Runs (λ a d. Moved live c rest d) m
      → ((a : A) (w : W) → ((x : ℕ) → live w x ≡ rest x) → Runs Q (k (a, record c { world = w })))
      → Runs Q (after m k)
  unfolding Moved
  then-Moved c rest Q m k r f =
      Runs-after _ Q m k r
        λ a d p. subst (λ (d : Controller W). Runs Q (k (a, d))) (sym p.1) (f a p.0 p.2)

  pub make-Opened :
      (f : W → (ℤ × ℕ) × W) (c : Controller W)
      → Made live c.world (f c.world)
      → Runs (Opened c) (make f c)
  unfolding make check after
  make-Opened f c h = rw h.0 (Runs-returns _ _ _ (h.1, moved c _ _ h.2))

  pub invoke-Same :
      (f : W → ℤ × W) (c : Controller W)
      → Kept live c.world (f c.world)
      → Runs (Same c) (invoke f c)
  unfolding invoke check after
  invoke-Same f c h = rw h.0 (Runs-returns _ _ _ (moved c _ _ h.1))

  -- The world may change twice.
  pub still :
      {B : Type 0} (c : Controller W) (w : W) (rest : ℕ → ℕ) (m : Outcome (B × Controller W))
      → Runs (λ b. Moved live (record c { world = w }) rest) m
      → Runs (λ b. Moved live c rest) m
  unfolding Moved
  still c w rest m r = Runs-mono _ _ m r λ a d p. p

  -- To go on after a step whose value has the property `P`, and decides what is open.
  pub then_with :
      {A B : Type 0} (c : Controller W) (P : A → Type 0) (rest : A → ℕ → ℕ)
      (Q : B → Controller W → Type 0) (m : Outcome (A × Controller W))
      (k : A × Controller W → Outcome (B × Controller W))
      → Runs (λ a d. P a × Moved live c (rest a) d) m
      → ((a : A) (w : W)
          → P a
          → ((x : ℕ) → live w x ≡ rest a x)
          → Runs Q (k (a, record c { world = w })))
      → Runs Q (after m k)
  unfolding Moved
  then_with c P rest Q m k r f =
      Runs-after _ Q m k r
        λ a d p. subst (λ (d : Controller W). Runs Q (k (a, d))) (sym p.1.1) (f a p.1.0 p.0 p.1.2)

  -- To end with a step that left `rest` open.
  pub end-Moved :
      {B : Type 0} (c : Controller W) (rest : ℕ → ℕ) (Q : B → Controller W → Type 0)
      (m : Outcome (B × Controller W))
      → Runs (λ b d. Moved live c rest d) m
      → ((b : B) (w : W) → ((x : ℕ) → live w x ≡ rest x) → Q b (record c { world = w }))
      → Runs Q m
  unfolding Moved
  end-Moved c rest Q m r f =
      Runs-mono _ Q m r λ b d p. subst (λ (d : Controller W). Q b d) (sym p.1) (f b p.0 p.2)
