-- ===== src/Region/Tests.antt =====
-- Runs of registrations. In the world of the tests a registration is a number, the world is the
-- list of those in force, and a new one is one more than all of them.
use libfatbat.Prelude.{
  ℕ, suc, ◌+◌, ◌%◌, ◌^◌, ◌≤◌, ◌==◌, ◌≡◌, refl, true, false, if◌then◌else◌, List, [], ◌∷◌, ℤ, pos,
  negsuc, u32_mod, arith,
}
use libfatbat.Fabric.Values.{consts}
use libfatbat.Outcome.{returns}
use libfatbat.Region.{
  MemoryRegion, RegionEnv, RegionBuild, Keys, no_gpu, deregister, make_region_from,
}
use libfatbat.Region.Segment.{
  MemorySegment, memory_segment, move_construct, move_assign, destroy, register_segment, get_handle,
}
use libfatbat.Region.Lifetime.{
  Accepts, destroy-move_construct, destroy-move_assign, deregister-make_region_from,
}
use libfatbat.Region.Handles.{register_segment_lem}

abbrev newest : List ℕ → ℕ
newest [] = 0
newest (h ∷ hs) = h

abbrev close : ℕ → List ℕ → ℤ × List ℕ
close h [] = (negsuc 21, [])
close h (x ∷ xs) = if x == h then (pos 0, xs) else (negsuc 15, x ∷ xs)

abbrev fabric : RegionEnv (List ℕ)
fabric = record {
  fi_mr_regattr = λ pd attr w. ((pos 0, suc (newest w)), suc (newest w) ∷ w);
  fi_mr_bind = λ mr ep w. (pos 0, w);
  fi_mr_enable = λ mr w. (pos 0, w);
  fi_close = close;
  fi_mr_key = λ mr. mr;
}

fabric-Accepts : Accepts fabric (λ w. w)
fabric-Accepts = record {
  registers = λ pd attr w. (refl, ground arith, refl);
  binds = λ mr ep w. (refl, refl);
  enables = λ mr w. (refl, refl);
  closes = λ mr rest w nz l. rw l (ground arith);
}

abbrev build : RegionBuild
build = record {
  consts = consts;
  gpu = no_gpu;
  hmem_system = 0;
  hmem_cuda = 1;
  hmem_rocr = 2;
  page_size = 4096;
}

abbrev fresh : Keys (List ℕ)
fresh = record { region_key = 0; segment_key = 0; world = 7 ∷ [] }

deregister-make_region_from_example :
    (r : MemoryRegion) × (t : Keys (List ℕ)) × (make_region_from fabric build 1 4096
        (2 ^ 32 + 5)
        true
        3
        (pos 0)
        fresh
      ≡ returns (r, t))
    × (r.address ≡ 4096)
    × (r.size ≡ (2 ^ 32 + 5) % u32_mod)
    × (t.world ≡ r.region ∷ 7 ∷ [])
    × ((deregister fabric r t.world).0 ≡ pos 0)
    × ((deregister fabric r t.world).2 ≡ 7 ∷ [])
deregister-make_region_from_example =
    deregister-make_region_from fabric (λ w. w) fabric-Accepts build 1 4096 (2 ^ 32 + 5) true 3
      (pos 0) fresh

register_segment_lem_example :
    (seg : MemorySegment) × (t : Keys (List ℕ)) × (register_segment fabric build 1 4096 100 false 0
        (negsuc 0)
        fresh
      ≡ returns (seg, t))
    × (t.world ≡ seg.base.region ∷ 7 ∷ [])
    × (destroy fabric seg t.world ≡ 7 ∷ [])
    × ((get_handle seg 60 40).size ≡ 40)
    × ((get_handle seg 60 40).region ≡ seg.base.region)
    × (4096 ≤ (get_handle seg 60 40).address)
    × ((get_handle seg 60 40).address + (get_handle seg 60 40).size ≤ 4096 + 100)
register_segment_lem_example =
    register_segment_lem fabric (λ w. w) fabric-Accepts build 1 4096 100 false 0 (negsuc 0) fresh 60
      40 (omega arith) (omega arith)

abbrev first : MemorySegment
first = memory_segment 7 4096 4096 100

abbrev second : MemorySegment
second = memory_segment 8 8192 8192 100

destroy-move_construct_example :
    let (new, old) = move_construct first in
    (destroy fabric old (destroy fabric new (7 ∷ [])) ≡ destroy fabric first (7 ∷ []))
    × (destroy fabric new (destroy fabric old (7 ∷ [])) ≡ destroy fabric first (7 ∷ []))
destroy-move_construct_example = destroy-move_construct fabric first (7 ∷ [])

destroy-move_assign_example :
    let (new, old) = move_assign false first second in
    (destroy fabric old (destroy fabric new (8 ∷ 7 ∷ [])) ≡ destroy fabric second (8 ∷ 7 ∷ []))
    × (move_assign true first second ≡ (first, second))
destroy-move_assign_example = destroy-move_assign fabric first second (8 ∷ 7 ∷ [])

-- The first segment's registration, 7, is still in force.
registration_lost :
    let (new, old) = move_assign false first second in
    destroy fabric old (destroy fabric new (8 ∷ 7 ∷ [])) ≡ 7 ∷ []
unfolding move_assign destroy deregister memory_segment
registration_lost = refl
