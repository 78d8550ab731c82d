-- ===== src/OpenFabric/Mode.antt =====
-- The memory registration mode that open_fabric asks for, and what the controller keeps of it.
use libfatbat.Prelude.{
  ℕ, ◌^◌, ◌<◌, bit_or, ◌≡◌, ap, ◌∙◌, Bool, true, false, not, ◌==◌, if◌then◌else◌, none, List, arith,
}
use libfatbat.Bits.{bit, bit-le, bit-bit_or, bit-one, bit_and-one, bit_or-lt, one-lt}
use libfatbat.Locks.{Provider, gni, cxi, efa, verbs, tcp, sockets, psm2, shm, lnx}
use libfatbat.Flags.{ModeConsts, default_mr_mode, memory_registration_mode_flags}
use libfatbat.Members.{Members}
use libfatbat.Endpoint.{EndpointEnv}
use libfatbat.OpenFabric.{FabricEnv, Config, first_hints, second_hints, keep_mode, has}

-- The constants that the controller tests are single digits, which no other constant has.
pub record Separate (k : ModeConsts) : Type 0 where
  pub local_digit : ℕ
  pub endpoint_digit : ℕ
  pub hmem_digit : ℕ
  pub local_in_word : local_digit < 64
  pub endpoint_in_word : endpoint_digit < 64
  pub hmem_in_word : hmem_digit < 64
  pub local_is : k.fi_mr_local ≡ 2 ^ local_digit
  pub endpoint_is : k.fi_mr_endpoint ≡ 2 ^ endpoint_digit
  pub hmem_is : k.fi_mr_hmem ≡ 2 ^ hmem_digit
  pub local_endpoint : (local_digit == endpoint_digit) ≡ false
  pub local_hmem : (local_digit == hmem_digit) ≡ false
  pub endpoint_hmem : (endpoint_digit == hmem_digit) ≡ false
  pub allocated_word : k.fi_mr_allocated < 2 ^ 64
  pub prov_key_word : k.fi_mr_prov_key < 2 ^ 64
  pub mmu_notify_word : k.fi_mr_mmu_notify < 2 ^ 64
  pub allocated_not :
      (bit endpoint_digit k.fi_mr_allocated ≡ 0) × (bit hmem_digit k.fi_mr_allocated ≡ 0)
  pub prov_key_not :
      (bit endpoint_digit k.fi_mr_prov_key ≡ 0) × (bit hmem_digit k.fi_mr_prov_key ≡ 0)
  pub mmu_notify_not :
      (bit endpoint_digit k.fi_mr_mmu_notify ≡ 0) × (bit hmem_digit k.fi_mr_mmu_notify ≡ 0)

-- The providers that bind memory regions to endpoints.
abbrev pub binds_regions : Provider → Bool
binds_regions cxi = true
binds_regions efa = true
binds_regions _ = false

abbrev digit_of : Bool → ℕ
digit_of true = 1
digit_of false = 0

-- The three digits of a mode.
abbrev Digits : {k : ModeConsts} → Separate k → Bool → Bool → ℕ → Type 0
Digits d gpu endpoint mode =
    (mode < 2 ^ 64)
    × (bit d.local_digit mode ≡ 1)
    × (bit d.endpoint_digit mode ≡ digit_of endpoint)
    × (bit d.hmem_digit mode ≡ digit_of gpu)

module _ (k : ModeConsts) (d : Separate k) where
  -- Adding flags that have none of the three digits, or the one for endpoints.
  more-Digits :
      (gpu e1 e2 : Bool) (mode flags : ℕ)
      → Digits d gpu e1 mode
      → flags < 2 ^ 64
      → bit d.endpoint_digit flags ≡ digit_of e2
      → bit d.hmem_digit flags ≡ 0
      → Digits d gpu (if e1 then true else e2) (bit_or mode flags)
  more-Digits gpu e1 e2 mode flags m word e h = (
    bit_or-lt mode flags m.0 word,
    omega (arith, bit-bit_or d.local_digit mode flags, bit-le d.local_digit flags, m.1),
    ground (arith, bit-bit_or d.endpoint_digit mode flags, m.2),
    omega (arith, bit-bit_or d.hmem_digit mode flags, m.3, bit-le d.hmem_digit mode),
  )

  endpoint-word : k.fi_mr_endpoint < 2 ^ 64
  endpoint-word = omega (arith, d.endpoint_is, one-lt d.endpoint_digit d.endpoint_in_word)

  local-word : k.fi_mr_local < 2 ^ 64
  local-word = omega (arith, d.local_is, one-lt d.local_digit d.local_in_word)

  hmem-word : k.fi_mr_hmem < 2 ^ 64
  hmem-word = omega (arith, d.hmem_is, one-lt d.hmem_digit d.hmem_in_word)

  digit_same : (b flag : ℕ) → b < 64 → flag ≡ 2 ^ b → bit b flag ≡ 1
  digit_same b flag small e = ground (arith, ap (bit b) e, bit-one b b small)

  digit_other : (i b flag : ℕ) → b < 64 → flag ≡ 2 ^ b → (i == b) ≡ false → bit i flag ≡ 0
  digit_other i b flag small e apart = ground (arith, ap (bit i) e, bit-one i b small)

  base : ℕ
  base = bit_or k.fi_mr_allocated k.fi_mr_local

  base-Digits : Digits d false false base
  unfolding base
  base-Digits =
      let l = digit_same d.local_digit k.fi_mr_local d.local_in_word d.local_is in
      let e =
        digit_other d.endpoint_digit d.local_digit k.fi_mr_local d.local_in_word d.local_is
          (ground (arith, d.local_endpoint)) in
      let h =
        digit_other d.hmem_digit d.local_digit k.fi_mr_local d.local_in_word d.local_is
          (ground (arith, d.local_hmem)) in
      let (a1, a2) = d.allocated_not in
      (
        bit_or-lt _ _ d.allocated_word local-word,
        omega (
          arith,
          bit-bit_or d.local_digit k.fi_mr_allocated k.fi_mr_local,
          bit-le d.local_digit k.fi_mr_allocated,
        ),
        omega (arith, bit-bit_or d.endpoint_digit k.fi_mr_allocated k.fi_mr_local),
        omega (arith, bit-bit_or d.hmem_digit k.fi_mr_allocated k.fi_mr_local),
      )

  base_flags : Bool → ℕ
  unfolding base
  base_flags gpu = if gpu then bit_or base k.fi_mr_hmem else base

  base_flags-Digits : (gpu : Bool) → Digits d gpu false (base_flags gpu)
  unfolding base_flags
  base_flags-Digits true =
      let h = digit_same d.hmem_digit k.fi_mr_hmem d.hmem_in_word d.hmem_is in
      let e =
        digit_other d.endpoint_digit d.hmem_digit k.fi_mr_hmem d.hmem_in_word d.hmem_is
          d.endpoint_hmem in
      let (w, bl, be, bh) = base-Digits in
      (
        bit_or-lt _ _ w hmem-word,
        omega
            (arith, bit-bit_or d.local_digit base k.fi_mr_hmem, bit-le d.local_digit k.fi_mr_hmem),
        omega (arith, bit-bit_or d.endpoint_digit base k.fi_mr_hmem),
        omega (arith, bit-bit_or d.hmem_digit base k.fi_mr_hmem, bit-le d.hmem_digit base),
      )
  base_flags-Digits false = base-Digits

  endpoint-Digits :
      (bit d.endpoint_digit k.fi_mr_endpoint ≡ 1) × (bit d.hmem_digit k.fi_mr_endpoint ≡ 0)
  endpoint-Digits = (
    digit_same d.endpoint_digit k.fi_mr_endpoint d.endpoint_in_word d.endpoint_is,
    digit_other d.hmem_digit d.endpoint_digit k.fi_mr_endpoint d.endpoint_in_word d.endpoint_is
        (ground (arith, d.endpoint_hmem)),
  )

  default_mr_mode-Digits :
      (gpu : Bool) (p : Provider) → Digits d gpu (binds_regions p) (default_mr_mode k gpu p)
  unfolding default_mr_mode base_flags base
  default_mr_mode-Digits gpu cxi =
      let (e, h) = endpoint-Digits in
      let (pe, ph) = d.prov_key_not in
      more-Digits gpu false true (base_flags gpu) _ (base_flags-Digits gpu)
        (bit_or-lt _ _ endpoint-word d.prov_key_word)
        (omega (arith, bit-bit_or d.endpoint_digit k.fi_mr_endpoint k.fi_mr_prov_key))
        (omega (arith, bit-bit_or d.hmem_digit k.fi_mr_endpoint k.fi_mr_prov_key))
  default_mr_mode-Digits gpu efa =
      let (e, h) = endpoint-Digits in
      let (me, mh) = d.mmu_notify_not in
      more-Digits gpu false true (bit_or (base_flags gpu) k.fi_mr_mmu_notify) _
        (more-Digits gpu false false (base_flags gpu) _ (base_flags-Digits gpu) d.mmu_notify_word me
          mh)
        endpoint-word e h
  default_mr_mode-Digits gpu gni = base_flags-Digits gpu
  default_mr_mode-Digits gpu verbs = base_flags-Digits gpu
  default_mr_mode-Digits gpu tcp = base_flags-Digits gpu
  default_mr_mode-Digits gpu sockets = base_flags-Digits gpu
  default_mr_mode-Digits gpu psm2 = base_flags-Digits gpu
  default_mr_mode-Digits gpu shm = base_flags-Digits gpu
  default_mr_mode-Digits gpu lnx = base_flags-Digits gpu

  has-digit :
      (mode flag b : ℕ) (t : Bool)
      → b < 64
      → mode < 2 ^ 64
      → flag ≡ 2 ^ b
      → bit b mode ≡ digit_of t
      → has mode flag ≡ t
  has-digit mode flag b true small word e h =
      ap (has mode) e ∙ ap not (bit_and-one mode b small word ∙ ap (λ n. n == 0) h)
  has-digit mode flag b false small word e h =
      ap (has mode) e ∙ ap not (bit_and-one mode b small word ∙ ap (λ n. n == 0) h)

-- What the controller keeps of the memory registration mode that it asks for, where its derived
-- class does not override the mode, and FI_MR_LOCAL, FI_MR_ENDPOINT and FI_MR_HMEM are different
-- single digits that no other constant has: it always registers local buffers, it registers device
-- memory exactly if it is built with GPU support, and it binds memory regions to endpoints exactly
-- for the CXI and EFA providers.
pub keep_mode-memory_registration_mode_flags :
    {W : Type 0} (env : EndpointEnv W) (fab : FabricEnv W) (cfg : Config) (threads init : ℕ)
    (provider : List ℕ) (m : Members)
    → Separate fab.mode_consts
    → cfg.derived_mr_mode ≡ none
    → let kept =
        keep_mode env fab
          (second_hints env fab cfg threads init (first_hints fab.mode_consts cfg provider))
          m in
      (kept.mrlocal ≡ true) × (kept.mrhmem ≡ cfg.gpu) × (kept.mrbind ≡ binds_regions cfg.build)
unfolding keep_mode second_hints first_hints memory_registration_mode_flags
keep_mode-memory_registration_mode_flags env fab cfg threads init provider m d no_override =
    let k = fab.mode_consts in
    let same : memory_registration_mode_flags k cfg.gpu cfg.build cfg.derived_mr_mode
        ≡ default_mr_mode k cfg.gpu cfg.build =
      ap (memory_registration_mode_flags k cfg.gpu cfg.build) no_override in
    let (w, l, e, h) = default_mr_mode-Digits k d cfg.gpu cfg.build in
    (
      ap (λ mode. has mode k.fi_mr_local) same
          ∙ has-digit k d _ _ d.local_digit true d.local_in_word w d.local_is l,
      ap (λ mode. has mode k.fi_mr_hmem) same
          ∙ has-digit k d _ _ d.hmem_digit cfg.gpu d.hmem_in_word w d.hmem_is h,
      ap (λ mode. has mode k.fi_mr_endpoint) same
          ∙ has-digit k d _ _ d.endpoint_digit (binds_regions cfg.build) d.endpoint_in_word w
              d.endpoint_is e,
    )
