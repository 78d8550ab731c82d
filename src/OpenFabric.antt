-- ===== src/OpenFabric.antt =====
-- open_fabric of include/libfatbat/controller_base.hpp, in a build for any provider but GNI: what
-- it asks of libfabric, and what it keeps of the answer.
pub mod Opening
pub mod Caps
pub mod Mode
pub mod Ledger
mod Tests
use libfatbat.Prelude.{
  ℕ, ◌/◌, min, bit_and, bit_or, Bool, true, false, not, ◌&&◌, ◌||◌, if◌then◌else◌, ltb, ◌==◌,
  Option, none, some, List, [], ◌∷◌, ◌++◌, ℤ, negsuc,
}
use libfatbat.Fabric.{is_null}
use libfatbat.Base64.{codes}
use libfatbat.Settings.{Progress, text_eq, libfabric_progress_type}
use libfatbat.Locks.{Provider, cxi}
use libfatbat.Flags.{ModeConsts, caps_flags, threadlevel_flags, memory_registration_mode_flags}
use libfatbat.Outcome.{faults}
use libfatbat.Action.{Action, ◌>>=◌, ◌>>◌, pure, throw_error}
use libfatbat.Members.{Members}
use libfatbat.Endpoint.{EndpointEnv, Controller, call}
use libfatbat.Endpoint.Build.{make}

-- The fields of `struct fi_info` that open_fabric sets in its hints. An unset name is null, and an
-- unset progress is 0.
pub record Hints : Type 0 where
  pub prov_name : List ℕ
  pub domain_name : Option (List ℕ)
  pub mr_mode : ℕ
  pub caps : ℕ
  pub tx_caps : ℕ
  pub rx_caps : ℕ
  pub progress : Option Progress
  pub threading : ℕ
  pub resource_mgmt : ℕ
  pub ep_type : ℕ

-- One of the answers of fi_getinfo; `none` is a null `tx_attr` or `rx_attr`.
pub record Candidate : Type 0 where
  pub caps : ℕ
  pub tx_caps : Option ℕ
  pub rx_caps : Option ℕ

-- libfabric's part, with what is read of a `struct fi_info`: `candidates` follows `next`, from the
-- info itself on, and `tx_attr`, `rx_attr` and `domain_attr` are pointers, which may be null.
pub record FabricEnv (W : Type 0) : Type 0 where
  pub fi_allocinfo : W → ℕ × W
  pub fi_getinfo : Hints → W → (ℤ × ℕ) × W
  pub fi_fabric : ℕ → W → (ℤ × ℕ) × W
  pub fi_domain : ℕ → ℕ → W → (ℤ × ℕ) × W
  pub candidates : ℕ → List Candidate
  pub domain_name : ℕ → List ℕ
  pub info_caps : ℕ → ℕ
  pub tx_attr : ℕ → ℕ
  pub rx_attr : ℕ → ℕ
  pub domain_attr : ℕ → ℕ
  pub inject_size : ℕ → ℕ
  pub cq_data_size : ℕ → ℕ
  pub mode_consts : ModeConsts
  pub fi_rm_enabled : ℕ
  pub fi_ep_rdm : ℕ

-- The build, the environment variables, and the functions that the derived controller gives or
-- overrides.
pub record Config : Type 0 where
  pub build : Provider
  pub gpu : Bool
  pub auto_progress : Option (List ℕ)
  pub cxi_device_name : Option (List ℕ)
  pub cxi_enable_writedata : Option (List ℕ)
  pub derived_caps_flags : ℕ → ℕ
  pub derived_threadlevel_flags : Option ℕ
  pub derived_mr_mode : Option ℕ

abbrev is_cxi : Provider → Bool
is_cxi cxi = true
is_cxi _ = false

unfoldable pub provider_name : List ℕ → List ℕ
provider_name provider =
    if text_eq provider (codes "tcp") || text_eq provider (codes "verbs")
    then provider ++ codes ";ofi_rxm"
    else provider

abbrev pub attr_caps : Option ℕ → ℕ
attr_caps none = 0
attr_caps (some caps) = caps

-- The loop over the candidates.
unfoldable pub available_caps : ℕ → List Candidate → ℕ
available_caps acc [] = acc
available_caps acc (i ∷ is) =
    available_caps (bit_or (bit_or (bit_or acc i.caps) (attr_caps i.tx_caps)) (attr_caps i.rx_caps))
      is

-- The hints of the first fi_getinfo.
unfoldable pub first_hints : ModeConsts → Config → List ℕ → Hints
unfolding provider_name memory_registration_mode_flags
first_hints k cfg provider = record {
  prov_name = provider_name provider;
  domain_name = if is_cxi cfg.build then cfg.cxi_device_name else none;
  mr_mode = memory_registration_mode_flags k cfg.gpu cfg.build cfg.derived_mr_mode;
  caps = 0;
  tx_caps = 0;
  rx_caps = 0;
  progress = none;
  threading = 0;
  resource_mgmt = 0;
  ep_type = 0;
}

abbrev pub set_members : {W : Type 0} → (Members → Members) → Action (Controller W) (Unit {0})
set_members f c = pure tt (record c { members = f c.members })

abbrev pub set_info : {W : Type 0} → ℕ → Action (Controller W) (Unit {0})
set_info info c = pure tt (record c { info = info })

abbrev pub set_fabric : {W : Type 0} → ℕ → Action (Controller W) (Unit {0})
set_fabric fabric c = pure tt (record c { fabric = fabric })

abbrev pub set_domain : {W : Type 0} → ℕ → Action (Controller W) (Unit {0})
set_domain domain c = pure tt (record c { domain = domain })

-- A null pointer is read through.
unfoldable pub not_null : {W : Type 0} → ℕ → Action (Controller W) (Unit {0})
not_null p = if is_null p then (λ c. faults) else pure tt

abbrev pub has : ℕ → ℕ → Bool
has flags f = not (bit_and flags f == 0)

module _ {W : Type 0} (env : EndpointEnv W) (fab : FabricEnv W) where
  -- The hints of the second fi_getinfo, where the first one answered `init`.
  unfoldable pub second_hints : Config → ℕ → ℕ → Hints → Hints
  unfolding available_caps caps_flags threadlevel_flags
  second_hints cfg threads init h = record h {
    caps = caps_flags cfg.derived_caps_flags (available_caps 0 (fab.candidates init));
    tx_caps = 0;
    rx_caps = 0;
    domain_name = some (fab.domain_name init);
    progress = some (libfabric_progress_type cfg.auto_progress);
    threading =
        if ltb 1 threads
        then threadlevel_flags fab.mode_consts cfg.derived_threadlevel_flags
        else fab.mode_consts.fi_thread_domain;
    resource_mgmt = fab.fi_rm_enabled;
    ep_type = fab.fi_ep_rdm;
  }

  unfoldable pub write_data : Config → ℕ → Bool
  write_data cfg info =
      let supported =
        ltb 0 (fab.cq_data_size info)
        && (has (fab.info_caps info) env.fi_remote_write
            && has (fab.info_caps info) env.fi_rma_event) in
      if is_cxi cfg.build
      then elim cfg.cxi_enable_writedata [ none ↦ false | some v ↦ supported ]
      else supported

  -- What is kept of the hints.
  unfoldable pub keep_mode : Hints → Members → Members
  keep_mode h m = record m {
    mrlocal = has h.mr_mode fab.mode_consts.fi_mr_local;
    mrbind = has h.mr_mode fab.mode_consts.fi_mr_endpoint;
    mrhmem = has h.mr_mode fab.mode_consts.fi_mr_hmem;
  }

  -- What is kept of the info, whose attributes are there.
  unfoldable pub keep_info : Config → ℕ → Members → Members
  unfolding write_data
  keep_info cfg info m = record m {
    tx_inject_size = fab.inject_size info;
    supports_write_data = write_data cfg info;
    tx_attr_size = min 512 (env.tx_attr_size info / 2);
    rx_attr_size = min 512 (env.rx_attr_size info / 2);
  }

  -- The two calls of fi_getinfo: the hints that were used last, and the answer to them. An answer
  -- that is null is read all the same.
  unfoldable pub negotiate : Config → List ℕ → ℕ → Action (Controller W) (Hints × ℕ)
  unfolding make first_hints second_hints not_null
  negotiate cfg provider threads = do
    let h1 = first_hints fab.mode_consts cfg provider
    init ← make (fab.fi_getinfo h1)
    not_null init
    let h2 = second_hints cfg threads init h1
    info ← make (fab.fi_getinfo h2)
    call (λ w. (tt, env.fi_freeinfo init w))
    pure (h2, info)

  unfoldable pub open_fabric : Config → List ℕ → ℕ → Action (Controller W) (Unit {0})
  unfolding make negotiate not_null keep_mode keep_info
  open_fabric cfg provider threads = do
    hints ← call fab.fi_allocinfo
    if is_null hints then throw_error (negsuc 0) else pure tt
    agreed ← negotiate cfg provider threads
    set_info agreed.1
    set_members (keep_mode agreed.0)
    not_null agreed.1
    fabric ← make (fab.fi_fabric agreed.1)
    set_fabric fabric
    domain ← make (fab.fi_domain fabric agreed.1)
    set_domain domain
    not_null (fab.tx_attr agreed.1)
    not_null (fab.domain_attr agreed.1)
    not_null (fab.rx_attr agreed.1)
    set_members (keep_info cfg agreed.1)
    call (λ w. (tt, env.fi_freeinfo hints w))
