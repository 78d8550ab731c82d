-- ===== src/Region/Segment.antt =====
-- include/libfatbat/memory_segment.hpp: a block of memory that owns its registration, and the
-- regions inside of it.
use libfatbat.Prelude.{ℕ, ◌+◌, ◌%◌, Bool, true, false, ℤ, u32_mod}
use libfatbat.Outcome.{Outcome, returns, ◌>>=◌}
use libfatbat.Region.{
  MemoryRegion, RegionEnv, RegionBuild, Keys, memory_region, release_region, access_flags, next_key,
  fi_register_memory, bind_and_enable, deregister,
}

-- usedspace_memory_region_.
pub record UsedspaceMemoryRegion : Type 0 where
  pub base : MemoryRegion
  pub used_space : ℕ

abbrev pub set_used_space : UsedspaceMemoryRegion → ℕ → UsedspaceMemoryRegion
set_used_space r length = record r { used_space = length }

pub record MemorySegment : Type 0 where
  pub base : MemoryRegion
  pub base_addr : ℕ

-- `memory_segment(region, address, base_address, size)`.
unfoldable pub memory_segment : ℕ → ℕ → ℕ → ℕ → MemorySegment
unfolding memory_region
memory_segment region address base_address size = record {
  base = memory_region region address size;
  base_addr = base_address;
}

-- What is left of the other object after its handle and its base address were exchanged for null.
abbrev pub moved_from : MemorySegment → MemorySegment
moved_from other = record { base = release_region other.base; base_addr = 0 }

-- The move constructor: the new object, and the other one.
unfoldable pub move_construct : MemorySegment → MemorySegment × MemorySegment
move_construct other = (other, moved_from other)

-- `this = std::move(other)`, where `same` says that the two are one object: both afterwards.
unfoldable pub move_assign : Bool → MemorySegment → MemorySegment → MemorySegment × MemorySegment
move_assign true this other = (this, other)
move_assign false this other = (other, moved_from other)

-- get_handle: an unowned region `offset` bytes into the segment.
unfoldable pub get_handle : MemorySegment → ℕ → ℕ → MemoryRegion
unfolding memory_region
get_handle seg offset size = memory_region seg.base.region (seg.base_addr + offset) size

module _ {W : Type 0} (env : RegionEnv W) (build : RegionBuild) where
  -- The constructor that registers the buffer: it registers `length` bytes, and stores the length
  -- in a `uint32_t`.
  unfoldable pub register_segment :
      ℕ → ℕ → ℕ → Bool → ℕ → ℤ → Keys W → Outcome (MemorySegment × Keys W)
  unfolding fi_register_memory bind_and_enable
  register_segment pd buffer length bind_mr ep device_id s =
      fi_register_memory env build pd device_id buffer length (access_flags build.consts) 0
        s.segment_key s.world
      >>= λ m. bind_and_enable env bind_mr m.0 ep m.1 >>= λ w. returns (
        record {
          base = record { region = m.0; address = buffer; size = length % u32_mod };
          base_addr = buffer;
        },
        record s { segment_key = next_key s.segment_key; world = w },
      )

-- ~memory_segment.
unfoldable pub destroy : {W : Type 0} → RegionEnv W → MemorySegment → W → W
unfolding deregister
destroy env seg w = (deregister env seg.base w).2
