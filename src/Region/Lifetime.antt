-- ===== src/Region/Lifetime.antt =====
-- What becomes of a registration: of a region that is made and deregistered, and of a segment that
-- is moved and destroyed.
use libfatbat.Prelude.{
  ℕ, ◌%◌, ==_iff, Bool, true, false, Bool-cases, ℤ, pos, negsuc, eq_int, u32_mod, List, ◌∷◌, ◌≡◌,
  ◌≢◌, ◌⊎◌, refl, ap, ◌∙◌, inl, inr, arith,
}
use libfatbat.Fabric.{is_null}
use libfatbat.Outcome.{returns, check}
use libfatbat.Region.{
  MemoryRegion, RegionEnv, RegionBuild, Keys, MrAttr, region_attr, memory_region, deregister,
  register_memory, fi_register_memory, bind_and_enable, make_region_from, access_flags, next_key,
}
use libfatbat.Region.Segment.{MemorySegment, destroy, move_construct, move_assign, moved_from}

destroy_null :
    {W : Type 0} (env : RegionEnv W) (seg : MemorySegment) (w : W)
    → seg.base.region ≡ 0
    → destroy env seg w ≡ w
unfolding destroy deregister
destroy_null env seg w h = rw h

-- Moving a segment does not change what its destruction does: to destroy both the new segment and
-- the one that it was moved from, in either order, is to destroy the original once.
pub destroy-move_construct :
    {W : Type 0} (env : RegionEnv W) (seg : MemorySegment) (w : W)
    → let (new, old) = move_construct seg in
      (destroy env old (destroy env new w) ≡ destroy env seg w)
      × (destroy env new (destroy env old w) ≡ destroy env seg w)
unfolding move_construct
destroy-move_construct env seg w = (
  destroy_null env (moved_from seg) (destroy env seg w) refl,
  ap (destroy env seg) (destroy_null env (moved_from seg) w refl),
)

-- To assign a segment to another object by a move, and then to destroy both, is to destroy only
-- the segment assigned: nothing is done with the registration that the target held before. An
-- assignment of a segment to itself loses nothing.
pub destroy-move_assign :
    {W : Type 0} (env : RegionEnv W) (target source : MemorySegment) (w : W)
    → let (new, old) = move_assign false target source in
      (destroy env old (destroy env new w) ≡ destroy env source w)
      × (move_assign true target source ≡ (target, source))
unfolding move_assign
destroy-move_assign env target source w =
    (destroy_null env (moved_from source) (destroy env source w) refl, refl)

-- A region that was deregistered with the result 0 has no handle, and to deregister it again
-- changes nothing and returns 0. Where closing failed the result is -1, the handle is kept, and
-- the call can be made again.
pub deregister-deregister :
    {W : Type 0} (env : RegionEnv W) (r : MemoryRegion) (w : W)
    → let (ret, r', w') = deregister env r w in
      ((ret ≡ pos 0) × (r'.region ≡ 0) × (deregister env r' w' ≡ (pos 0, r', w')))
      ⊎ ((ret ≡ negsuc 0) × (r' ≡ r))
unfolding deregister
deregister-deregister env r w = elim (Bool-cases (is_null r.region)) [
  | inl e ↦ rw e (inl (refl, (==_iff _ _).0 e, rw e))
  | inr e ↦ elim (Bool-cases (eq_int (env.fi_close r.region w).0 (pos 0))) [
    | inl z ↦ rw (e, z) (inl (refl, refl, refl))
    | inr z ↦ rw (e, z) (inr (refl, refl))
  ]
]

-- libfabric where it accepts every request: `live` are the handles of the registrations in force.
-- A new handle is not null, binding and enabling change no registration, and the newest one can be
-- closed.
pub record Accepts {W : Type 0} (env : RegionEnv W) (live : W → List ℕ) : Type 0 where
  pub registers :
      (pd : ℕ) (attr : MrAttr) (w : W)
      → let ((ret, mr), w') = env.fi_mr_regattr pd attr w in
        (ret ≡ pos 0) × (mr ≢ 0) × (live w' ≡ mr ∷ live w)
  pub binds :
      (mr ep : ℕ) (w : W)
      → let (ret, w') = env.fi_mr_bind mr ep w in (ret ≡ pos 0) × (live w' ≡ live w)
  pub enables :
      (mr : ℕ) (w : W) → let (ret, w') = env.fi_mr_enable mr w in (ret ≡ pos 0) × (live w' ≡ live w)
  pub closes :
      (mr : ℕ) (rest : List ℕ) (w : W)
      → mr ≢ 0
      → live w ≡ mr ∷ rest
      → let (ret, w') = env.fi_close mr w in (ret ≡ pos 0) × (live w' ≡ rest)

not_null : (h : ℕ) → h ≢ 0 → is_null h ≡ false
not_null h n = ground arith

module _ {W : Type 0} (env : RegionEnv W) (live : W → List ℕ) (d : Accepts env live) where
  pub bind_and_enable_live :
      (bind_mr : Bool) (mr ep : ℕ) (w : W)
      → (w' : W) × (bind_and_enable env bind_mr mr ep w ≡ returns w') × (live w' ≡ live w)
  unfolding bind_and_enable check
  bind_and_enable_live false mr ep w = (w, refl, refl)
  bind_and_enable_live true mr ep w =
      let (b, lb) = d.binds mr ep w in
      let (e, le) = d.enables mr (env.fi_mr_bind mr ep w).1 in (_, rw (b, e) refl, le ∙ lb)

  -- A region that holds the newest registration gives it back.
  pub deregister-newest :
      (r : MemoryRegion) (rest : List ℕ) (w : W)
      → r.region ≢ 0
      → live w ≡ r.region ∷ rest
      → ((deregister env r w).0 ≡ pos 0) × (live (deregister env r w).2 ≡ rest)
  unfolding deregister
  deregister-newest r rest w nz l =
      let (e, l') = d.closes r.region rest w nz l in rw (not_null r.region nz, e) (refl, l')

  -- Where libfabric accepts the requests, make_region returns a region that has the address of the
  -- buffer and its length modulo 2 ^ 32, and the handle of one new registration; and to deregister
  -- that region returns 0 and leaves the registrations that were in force before.
  pub deregister-make_region_from :
      (build : RegionBuild) (pd buffer length : ℕ) (bind_mr : Bool) (ep : ℕ) (device_id : ℤ)
      (s : Keys W)
      → (r : MemoryRegion) × (t : Keys W) × (make_region_from env build pd buffer length bind_mr ep
            device_id s
          ≡ returns (r, t))
        × (r.address ≡ buffer)
        × (r.size ≡ length % u32_mod)
        × (live t.world ≡ r.region ∷ live s.world)
        × ((deregister env r t.world).0 ≡ pos 0)
        × (live (deregister env r t.world).2 ≡ live s.world)
  unfolding make_region_from register_memory fi_register_memory memory_region check
  deregister-make_region_from build pd buffer length bind_mr ep device_id s =
      let attr =
        region_attr build device_id buffer (length % u32_mod) (access_flags build.consts) 0
          s.region_key in
      let ((ret, mr), w) = env.fi_mr_regattr pd attr s.world in
      let (accepted, nz, l) = d.registers pd attr s.world in
      let (w', bound, l') = bind_and_enable_live bind_mr mr ep w in
      let r : MemoryRegion = record { region = mr; address = buffer; size = length % u32_mod } in
      let (closed, left) = deregister-newest r (live s.world) w' nz (l' ∙ l) in
      (
        r,
        record s { region_key = next_key s.region_key; world = w' },
        rw (accepted, bound) refl,
        refl,
        refl,
        l' ∙ l,
        closed,
        left,
      )
