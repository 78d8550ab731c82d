-- ===== src/Region.antt =====
-- include/libfatbat/memory_region.hpp: regions of memory that are registered with libfabric. A
-- `fid_mr*` is a handle, 0 where it is null, and a `uint32_t` is kept below 2 ^ 32.
pub mod Segment
pub mod Lifetime
pub mod Handles
mod Tests
use libfatbat.Prelude.{
  ℕ, ◌+◌, ◌%◌, ◌^◌, bit_or, Bool, true, false, if◌then◌else◌, ℤ, pos, negsuc, eq_int, u32_mod,
}
use libfatbat.Fabric.{Consts, is_null}
use libfatbat.Outcome.{Outcome, returns, check, ◌>>=◌, ◌>>◌}

-- LIBFATBAT_HAVE_GPU_SUPPORT with LIBFATBAT_HAVE_CUDA or LIBFATBAT_HAVE_HIP.
pub data GpuSupport : Type 0 where
  no_gpu cuda hip : GpuSupport

-- The fields of `struct fi_mr_attr` and its `iovec` that the code does not leave at 0.
pub record MrAttr : Type 0 where
  pub iov_base : ℕ
  pub iov_len : ℕ
  pub access : ℕ
  pub offset : ℕ
  pub requested_key : ℕ
  pub iface : ℕ
  pub device : ℕ
  pub page_size : ℕ

-- libfabric's part: `fi_mr_regattr` returns a result and the handle that it writes.
pub record RegionEnv (W : Type 0) : Type 0 where
  pub fi_mr_regattr : ℕ → MrAttr → W → (ℤ × ℕ) × W
  pub fi_mr_bind : ℕ → ℕ → W → ℤ × W
  pub fi_mr_enable : ℕ → W → ℤ × W
  pub fi_close : ℕ → W → ℤ × W
  pub fi_mr_key : ℕ → ℕ

-- The build, and the constants of the platform.
pub record RegionBuild : Type 0 where
  pub consts : Consts
  pub gpu : GpuSupport
  pub hmem_system : ℕ
  pub hmem_cuda : ℕ
  pub hmem_rocr : ℕ
  pub page_size : ℕ

-- The two `static std::atomic<std::uint64_t> key` of the files, and the world.
pub record Keys (W : Type 0) : Type 0 where
  pub region_key : ℕ
  pub segment_key : ℕ
  pub world : W

abbrev pub next_key : ℕ → ℕ
next_key k = (k + 1) % 2 ^ 64

-- region_provider::access_flags.
abbrev pub access_flags : Consts → ℕ
access_flags c =
    bit_or
      (bit_or (bit_or (bit_or (bit_or c.fi_read c.fi_write) c.fi_recv) c.fi_send) c.fi_remote_read)
      c.fi_remote_write

-- The attributes that region_provider::fi_register_memory fills in.
unfoldable pub region_attr : RegionBuild → ℤ → ℕ → ℕ → ℕ → ℕ → ℕ → MrAttr
region_attr build device_id buf len access offset key = record {
  iov_base = buf;
  iov_len = len;
  access = access;
  offset = offset;
  requested_key = key;
  iface = elim device_id [
    | pos d ↦ elim build.gpu [
      | no_gpu ↦ build.hmem_system
      | cuda ↦ build.hmem_cuda
      | hip ↦ build.hmem_rocr
    ]
    | negsuc d ↦ build.hmem_system
  ];
  device = elim device_id [
    | pos d ↦ elim build.gpu [ no_gpu ↦ 0 | cuda ↦ d | hip ↦ d ]
    | negsuc d ↦ 0
  ];
  page_size = build.page_size;
}

pub record RegionInfo : Type 0 where
  pub addr : ℕ
  pub rkey : ℕ
  pub size : ℕ

pub record MemoryRegion : Type 0 where
  pub region : ℕ
  pub address : ℕ
  pub size : ℕ

-- `memory_region(region, addr, size)`, which stores `uint32_t(size)`.
unfoldable pub memory_region : ℕ → ℕ → ℕ → MemoryRegion
memory_region region addr size = record { region = region; address = addr; size = size % u32_mod }

abbrev pub release_region : MemoryRegion → MemoryRegion
release_region r = record r { region = 0 }

module _ {W : Type 0} (env : RegionEnv W) where
  abbrev pub get_info : MemoryRegion → RegionInfo
  get_info r = record { addr = r.address; rkey = env.fi_mr_key r.region; size = r.size }

  -- `if (bind_mr) ...`, of memory_region::register_memory and of the constructor of memory_segment.
  unfoldable pub bind_and_enable : Bool → ℕ → ℕ → W → Outcome W
  bind_and_enable false mr ep w = returns w
  bind_and_enable true mr ep w =
      let (bound, w') = env.fi_mr_bind mr ep w in
      check bound >> (let (enabled, w'') = env.fi_mr_enable mr w' in check enabled >> returns w'')

  -- memory_region::deregister, through region_provider::unregister_memory.
  unfoldable pub deregister : MemoryRegion → W → ℤ × MemoryRegion × W
  deregister r w =
      if is_null r.region
      then (pos 0, r, w)
      else let (ret, w') = env.fi_close r.region w in
        if eq_int ret (pos 0) then (pos 0, release_region r, w') else (negsuc 0, r, w')

module _ {W : Type 0} (env : RegionEnv W) (build : RegionBuild) where
  -- region_provider::fi_register_memory: the handle that `mr` points to in the end.
  unfoldable pub fi_register_memory : ℕ → ℤ → ℕ → ℕ → ℕ → ℕ → ℕ → W → Outcome (ℕ × W)
  fi_register_memory pd device_id buf len access offset key w =
      let ((ret, mr), w') =
        env.fi_mr_regattr pd (region_attr build device_id buf len access offset key) w in
      check ret >> returns (mr, w')

  -- memory_region::register_memory.
  unfoldable pub register_memory :
      MemoryRegion → ℕ → Bool → ℕ → ℤ → Keys W → Outcome (MemoryRegion × Keys W)
  unfolding fi_register_memory bind_and_enable
  register_memory r pd bind_mr ep device_id s =
      fi_register_memory pd device_id r.address r.size (access_flags build.consts) 0 s.region_key
        s.world
      >>= λ m. bind_and_enable env bind_mr m.0 ep m.1 >>= λ w.
          returns
            (record r { region = m.0 }, record s { region_key = next_key s.region_key; world = w })

  -- `make_region(pd, buffer, length, bind_mr, ep, device_id)`.
  unfoldable pub make_region_from :
      ℕ → ℕ → ℕ → Bool → ℕ → ℤ → Keys W → Outcome (MemoryRegion × Keys W)
  unfolding register_memory memory_region
  make_region_from pd buffer length bind_mr ep device_id s =
      register_memory (memory_region 0 buffer length) pd bind_mr ep device_id s

  -- `make_region(controller, ptr, size, device_id)`: the controller's transmit endpoint is got only
  -- where regions are bound to it.
  unfoldable pub make_region :
      Bool
      → ℕ
      → (Keys W → Outcome (ℕ × Keys W))
      → ℕ
      → ℕ
      → ℤ
      → Keys W
      → Outcome (MemoryRegion × Keys W)
  unfolding make_region_from
  make_region true domain get_tx_ep ptr size device_id s =
      get_tx_ep s >>= λ ep. make_region_from domain ptr size true ep.0 device_id ep.1
  make_region false domain get_tx_ep ptr size device_id s =
      make_region_from domain ptr size false 0 device_id s
