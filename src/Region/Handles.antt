-- ===== src/Region/Handles.antt =====
-- The regions inside of a segment, and the registration that the segment holds for them.
use libfatbat.Prelude.{ℕ, ◌+◌, ◌%◌, ◌≤◌, ◌<◌, Bool, ℤ, u32_mod, List, ◌∷◌, ◌≡◌, refl, ◌∙◌, arith}
use libfatbat.Outcome.{returns, check}
use libfatbat.Region.{
  MemoryRegion, RegionEnv, RegionBuild, Keys, region_attr, fi_register_memory, access_flags,
  next_key,
}
use libfatbat.Region.Segment.{MemorySegment, register_segment, get_handle, destroy}
use libfatbat.Region.Lifetime.{Accepts, bind_and_enable_live, deregister-newest}

module _ {W : Type 0} (env : RegionEnv W) (live : W → List ℕ) (d : Accepts env live)
    (build : RegionBuild) (pd buffer length : ℕ) (bind_mr : Bool) (ep : ℕ) (device_id : ℤ)
    (s : Keys W) where
  -- Where libfabric accepts the requests, the registering constructor gives a segment whose
  -- handle is one new registration, and destroying the segment leaves the registrations that were
  -- in force before. A part of it given out by get_handle, for an offset and a size below 2 ^ 32
  -- that together do not exceed the length, has that size, has the segment's handle, and lies
  -- within the buffer.
  pub register_segment_lem :
      (offset size : ℕ)
      → offset + size ≤ length
      → size < u32_mod
      → (seg : MemorySegment) × (t : Keys W) × (register_segment env build pd buffer length bind_mr
            ep device_id s
          ≡ returns (seg, t))
        × (live t.world ≡ seg.base.region ∷ live s.world)
        × (live (destroy env seg t.world) ≡ live s.world)
        × ((get_handle seg offset size).size ≡ size)
        × ((get_handle seg offset size).region ≡ seg.base.region)
        × (buffer ≤ (get_handle seg offset size).address)
        × ((get_handle seg offset size).address + (get_handle seg offset size).size
            ≤ buffer + length)
  unfolding register_segment fi_register_memory check destroy get_handle
  register_segment_lem offset size inside small =
      let attr =
        region_attr build device_id buffer length (access_flags build.consts) 0 s.segment_key in
      let ((ret, mr), w) = env.fi_mr_regattr pd attr s.world in
      let (accepted, nz, l) = d.registers pd attr s.world in
      let (w', bound, l') = bind_and_enable_live env live d bind_mr mr ep w in
      let r : MemoryRegion = record { region = mr; address = buffer; size = length % u32_mod } in
      let (closed, left) = deregister-newest env live d r (live s.world) w' nz (l' ∙ l) in
      (
        record { base = r; base_addr = buffer },
        record s { segment_key = next_key s.segment_key; world = w' },
        rw (accepted, bound) refl,
        l' ∙ l,
        left,
        omega arith,
        refl,
        omega arith,
        omega arith,
      )
