-- ===== src/Flags.antt =====
-- The flags that the controller of include/libfatbat/controller_base.hpp negotiates with libfabric:
-- its capabilities, threading level and memory registration mode, and what it reads from the
-- result. A derived controller may override three of the functions: `none` where it does not.
pub mod Caps
mod Tests
use libfatbat.Prelude.{
  ℕ, zero, suc, ◌-◌, ◌^◌, bit_and, bit_or, Bool, true, false, not, ◌&&◌, if◌then◌else◌, ◌==◌,
  Option, none, some,
}
use libfatbat.Fabric.{is_null}
use libfatbat.Locks.{Provider, cxi, efa}

-- `FI_MR_` and `FI_THREAD_` constants.
pub record ModeConsts : Type 0 where
  pub fi_mr_allocated : ℕ
  pub fi_mr_local : ℕ
  pub fi_mr_hmem : ℕ
  pub fi_mr_endpoint : ℕ
  pub fi_mr_prov_key : ℕ
  pub fi_mr_mmu_notify : ℕ
  pub fi_mr_virt_addr : ℕ
  pub fi_thread_safe : ℕ
  pub fi_thread_domain : ℕ

-- `~f` on a uint64_t.
abbrev pub complement : ℕ → ℕ
complement f = 2 ^ 64 - 1 - f

-- One round of the loop over the bits: a required flag that is not available is taken out.
unfoldable pub clear_unavailable : ℕ → ℕ → ℕ → ℕ → ℕ
clear_unavailable required available bit final =
    let f = 2 ^ bit in
    if not (bit_and required f == 0) && (bit_and available f == 0)
    then bit_and final (complement f)
    else final

-- `for (bit = 0; bit < 64; ++bit)`, with `left` rounds to go.
unfoldable pub caps_loop : ℕ → ℕ → ℕ → ℕ → ℕ → ℕ
unfolding clear_unavailable
caps_loop required available zero bit final = final
caps_loop required available (suc left) bit final =
    caps_loop required available left (suc bit) (clear_unavailable required available bit final)

-- `derived` is the derived controller's caps_flags.
unfoldable pub caps_flags : (ℕ → ℕ) → ℕ → ℕ
unfolding caps_loop
caps_flags derived available =
    let required = derived available in caps_loop required available 64 0 required

unfoldable pub threadlevel_flags : ModeConsts → Option ℕ → ℕ
threadlevel_flags k none = k.fi_thread_safe
threadlevel_flags k (some flags) = flags

unfoldable pub default_mr_mode : ModeConsts → Bool → Provider → ℕ
default_mr_mode k gpu provider =
    let base = bit_or k.fi_mr_allocated k.fi_mr_local in
    let base_flags = if gpu then bit_or base k.fi_mr_hmem else base in
    elim provider [
      | cxi ↦ bit_or base_flags (bit_or k.fi_mr_endpoint k.fi_mr_prov_key)
      | efa ↦ bit_or (bit_or base_flags k.fi_mr_mmu_notify) k.fi_mr_endpoint
      | _ ↦ base_flags
    ]

unfoldable pub memory_registration_mode_flags : ModeConsts → Bool → Provider → Option ℕ → ℕ
unfolding default_mr_mode
memory_registration_mode_flags k gpu provider none = default_mr_mode k gpu provider
memory_registration_mode_flags k gpu provider (some flags) = flags

unfoldable pub needs_cq_counters : Option Bool → Bool
needs_cq_counters none = false
needs_cq_counters (some value) = value

-- What is asked of the info that open_fabric got: `mr_mode` of its domain attributes, `none` where
-- these are null, and its capabilities.
unfoldable pub use_relative_remote_addr : ModeConsts → (ℕ → Option ℕ) → ℕ → Bool
use_relative_remote_addr k mr_mode info =
    if is_null info
    then false
    else elim (mr_mode info) [ none ↦ false | some mode ↦ bit_and mode k.fi_mr_virt_addr == 0 ]

unfoldable pub supports_hmem : ℕ → (ℕ → ℕ) → ℕ → Bool
supports_hmem fi_hmem caps info =
    if is_null info then false else not (bit_and (caps info) fi_hmem == 0)
