-- ===== src/Endpoint/Ownership/Balance.antt =====
-- The start of the endpoints, step by step.
pub mod Receive
pub mod Transmit
pub mod Whole
pub mod ScalableRx
use libfatbat.Prelude.{ℕ, ◌+◌, ◌≡◌, ◌≢◌, refl, ◌∙◌, List, [], ◌∷◌, ◌++◌, All, arith}
use libfatbat.Settings.{EndpointType}
use libfatbat.Endpoint.{EndpointWrapper, Controller}
use libfatbat.Endpoint.Ownership.{held, wrapper_held, all_held, owned}

abbrev pub NotNull : EndpointWrapper → Type 0
NotNull e = e.ep ≢ 0

pub All-append :
    (es : List EndpointWrapper) (e : EndpointWrapper)
    → All NotNull es
    → NotNull e
    → All NotNull (es ++ e ∷ [])
All-append [] e h n = (n, tt)
All-append (f ∷ es) e h n = (h.0, All-append es e h.1 n)

-- From `c` to `d`, what is open has changed as what the controller owns has, and the members that
-- are set before the endpoints are the same; the queue of endpoints gets no null ones.
pub record Balanced {W : Type 0} (live : W → ℕ → ℕ) (c d : Controller W) : Type 0 where
  pub same_type : d.endpoint_type ≡ c.endpoint_type
  pub same_domain : d.domain ≡ c.domain
  pub same_fabric : d.fabric ≡ c.fabric
  pub same_av : d.av ≡ c.av
  pub same_members : d.members ≡ c.members
  pub same_info : d.info ≡ c.info
  pub queue : All NotNull c.tx_endpoints → All NotNull d.tx_endpoints
  pub same_rx_queue : d.rx_endpoints ≡ c.rx_endpoints
  pub balance : (x : ℕ) → live d.world x + owned c x ≡ live c.world x + owned d x

pub Balanced-refl : {W : Type 0} (live : W → ℕ → ℕ) (c : Controller W) → Balanced live c c
Balanced-refl live c = record {
  same_type = refl;
  same_domain = refl;
  same_fabric = refl;
  same_av = refl;
  same_members = refl;
  same_info = refl;
  queue = λ q. q;
  same_rx_queue = refl;
  balance = λ x. refl;
}

swap_sums : (a b c p q r : ℕ) → b + p ≡ a + q → c + q ≡ b + r → c + p ≡ a + r
swap_sums a b c p q r h k = omega arith

pub Balanced-trans :
    {W : Type 0} (live : W → ℕ → ℕ) (c d e : Controller W)
    → Balanced live c d
    → Balanced live d e
    → Balanced live c e
Balanced-trans live c d e h k = record {
  same_type = k.same_type ∙ h.same_type;
  same_domain = k.same_domain ∙ h.same_domain;
  same_fabric = k.same_fabric ∙ h.same_fabric;
  same_av = k.same_av ∙ h.same_av;
  same_members = k.same_members ∙ h.same_members;
  same_info = k.same_info ∙ h.same_info;
  queue = λ q. k.queue (h.queue q);
  same_rx_queue = k.same_rx_queue ∙ h.same_rx_queue;
  balance = λ x.
      swap_sums (live c.world x) (live d.world x) (live e.world x) (owned c x) (owned d x)
        (owned e x) (h.balance x) (k.balance x);
}

pub all_held-append :
    (es : List EndpointWrapper) (e : EndpointWrapper) (x : ℕ)
    → all_held (es ++ e ∷ []) x ≡ all_held es x + wrapper_held e x
unfolding all_held
all_held-append [] e x = omega arith
all_held-append (f ∷ es) e x = omega (arith, all_held-append es e x)
