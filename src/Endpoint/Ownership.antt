-- ===== src/Endpoint/Ownership.antt =====
-- Who owns the objects of libfabric: how often a handle is open, and how often the members of the
-- controller hold it.
pub mod Steps
pub mod Making
pub mod Closing
pub mod Balance
use libfatbat.Prelude.{
  ℕ, ◌+◌, ◌<◌, ◌==◌, ◌≡◌, ◌≢◌, refl, Bool, false, if◌then◌else◌, List, [], ◌∷◌, ℤ, pos, arith,
}
use libfatbat.Fabric.{is_null}
use libfatbat.Endpoint.{EndpointEnv, EndpointWrapper, Controller, AvAttr, no_endpoint}

-- A member with the handle `h` holds the object `h` once, unless it is null.
unfoldable pub held : ℕ → ℕ → ℕ
held h x = if is_null h then 0 else if h == x then 1 else 0

pub held_null : (x : ℕ) → held 0 x ≡ 0
unfolding held
held_null x = refl

pub held_self : (h : ℕ) → h ≢ 0 → held h h ≡ 1
unfolding held
held_self h nz = ground arith

abbrev pub wrapper_held : EndpointWrapper → ℕ → ℕ
wrapper_held e x = held e.ep x + held e.rq x + held e.tq x

pub held_other : (h x : ℕ) → (h == x) ≡ false → held h x ≡ 0
unfolding held
held_other h x e = rw e (ground arith)

pub no_endpoint-held : (e : EndpointWrapper) (x : ℕ) → e ≡ no_endpoint → wrapper_held e x ≡ 0
unfolding held
no_endpoint-held e x h = rw h refl

unfoldable pub all_held : List EndpointWrapper → ℕ → ℕ
all_held [] x = 0
all_held (e ∷ es) x = wrapper_held e x + all_held es x

-- How often the controller holds `x`. The thread-local members hold copies of what the queues
-- hold or held.
abbrev pub owned : {W : Type 0} → Controller W → ℕ → ℕ
owned c x =
    all_held c.tx_endpoints x
    + all_held c.rx_endpoints x
    + wrapper_held c.ep_tx x
    + wrapper_held c.ep_rx x
    + held c.tx_cntr x
    + held c.av x
    + held c.domain x
    + held c.fabric x

-- A call that makes an object succeeds: the object is not null and is opened once more.
abbrev pub Made : {W : Type 0} → (W → ℕ → ℕ) → W → (ℤ × ℕ) × W → Type 0
Made live w r = (r.0.0 ≡ pos 0) × (r.0.1 ≢ 0) × ((x : ℕ) → live r.1 x ≡ live w x + held r.0.1 x)

-- A call succeeds and opens or closes nothing.
abbrev pub Kept : {W : Type 0} → (W → ℕ → ℕ) → W → ℤ × W → Type 0
Kept live w r = (r.0 ≡ pos 0) × ((x : ℕ) → live r.1 x ≡ live w x)

-- libfabric where it accepts every request. `live w x` is how often the object `x` is open. An
-- object that is open can be closed.
pub record Working {W : Type 0} (env : EndpointEnv W) (live : W → ℕ → ℕ) : Type 0 where
  pub copies :
      (i : ℕ) (w : W)
      → ((env.fi_dupinfo i w).0 ≢ 0) × ((x : ℕ) → live (env.fi_dupinfo i w).1 x ≡ live w x)
  pub frees : (i : ℕ) (w : W) (x : ℕ) → live (env.fi_freeinfo i w) x ≡ live w x
  pub infos :
      (i : ℕ) (w : W)
      → ((env.fi_getinfo i w).0.0 ≡ pos 0) × ((x : ℕ) → live (env.fi_getinfo i w).1 x ≡ live w x)
  pub endpoints : (d i : ℕ) (w : W) → Made live w (env.fi_endpoint d i w)
  pub scalables : (d i n : ℕ) (w : W) → Made live w (env.fi_scalable_ep d i n w)
  pub contexts : (e i : ℕ) (w : W) → Made live w (env.fi_tx_context e i w)
  pub queues : (d n : ℕ) (w : W) → Made live w (env.fi_cq_open d n w)
  pub counters : (d : ℕ) (w : W) → Made live w (env.fi_cntr_open d w)
  pub vectors : (d : ℕ) (a : AvAttr) (w : W) → Made live w (env.fi_av_open d a w)
  pub binds : (e f flags : ℕ) (w : W) → Kept live w (env.fi_ep_bind e f flags w)
  pub scalable_binds : (e f : ℕ) (w : W) → Kept live w (env.fi_scalable_ep_bind e f w)
  pub enables : (e : ℕ) (w : W) → Kept live w (env.fi_enable e w)
  pub closes :
      (h : ℕ) (w : W)
      → 0 < live w h
      → ((env.fi_close h w).0 ≡ pos 0)
        × ((x : ℕ) → live (env.fi_close h w).1 x + held h x ≡ live w x)
  pub success : env.fi_success ≡ 0
  pub busy : 0 < env.fi_ebusy
