-- ===== src/OpenFabric/Tests.antt =====
-- Runs of what open_fabric asks for.
use libfatbat.Prelude.{◌≡◌, ◌↔◌, refl, true, [], arith}
use libfatbat.Bits.{bit}
use libfatbat.Endpoint.Ledger.{fabric, no_members}
use libfatbat.OpenFabric.{first_hints, second_hints, keep_mode}
use libfatbat.OpenFabric.Caps.{Offered, second_hints-caps}
use libfatbat.OpenFabric.Mode.{Separate, keep_mode-memory_registration_mode_flags}
use libfatbat.OpenFabric.Ledger.{mode_consts, answers, config}

mode_consts-Separate : Separate mode_consts
unfolding bit
mode_consts-Separate = record {
  local_digit = 2;
  endpoint_digit = 9;
  hmem_digit = 10;
  local_in_word = omega arith;
  endpoint_in_word = omega arith;
  hmem_in_word = omega arith;
  local_is = refl;
  endpoint_is = refl;
  hmem_is = refl;
  local_endpoint = refl;
  local_hmem = refl;
  endpoint_hmem = refl;
  allocated_word = omega arith;
  prov_key_word = omega arith;
  mmu_notify_word = omega arith;
  allocated_not = (refl, refl);
  prov_key_not = (refl, refl);
  mmu_notify_not = (refl, refl);
}

keep_mode-memory_registration_mode_flags_example :
    let kept =
      keep_mode fabric answers
        (second_hints fabric answers config 4 2 (first_hints mode_consts config []))
        no_members in
    (kept.mrlocal ≡ true) × (kept.mrhmem ≡ true) × (kept.mrbind ≡ true)
keep_mode-memory_registration_mode_flags_example =
    keep_mode-memory_registration_mode_flags fabric answers config 4 2 [] no_members
      mode_consts-Separate refl

second_hints-caps_example :
    (bit 2 (second_hints fabric answers config 4 2 (first_hints mode_consts config [])).caps ≡ 1)
    ↔ ((bit 2 0x4000000e ≡ 1) × Offered 2 (answers.candidates 2))
second_hints-caps_example =
    second_hints-caps fabric answers config 4 2 2 (first_hints mode_consts config []) (omega arith)
      (omega arith, omega arith, omega arith, (omega arith, omega arith, omega arith, tt))
