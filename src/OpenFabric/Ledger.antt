-- ===== src/OpenFabric/Ledger.antt =====
-- An answer of libfabric to open_fabric, for the runs, with the constants of its headers.
use libfatbat.Prelude.{ℕ, refl, true, none, some, List, [], ◌∷◌, pos, arith}
use libfatbat.Locks.{cxi}
use libfatbat.Base64.{codes}
use libfatbat.Flags.{ModeConsts}
use libfatbat.Endpoint.Ledger.{opened, open_one, open_one-opened}
use libfatbat.OpenFabric.{FabricEnv, Config}
use libfatbat.OpenFabric.Opening.{Offers}

abbrev pub mode_consts : ModeConsts
mode_consts = record {
  fi_mr_allocated = 0x20;
  fi_mr_local = 0x4;
  fi_mr_hmem = 0x400;
  fi_mr_endpoint = 0x200;
  fi_mr_prov_key = 0x40;
  fi_mr_mmu_notify = 0x80;
  fi_mr_virt_addr = 0x10;
  fi_thread_safe = 1;
  fi_thread_domain = 3;
}

-- The first candidate has FI_MSG and FI_TAGGED, the second adds FI_RMA by its transmit attributes.
abbrev pub answers : FabricEnv (List ℕ)
answers = record {
  fi_allocinfo = λ w. (1, w);
  fi_getinfo = λ h w. ((pos 0, 2), w);
  fi_fabric = λ i w. open_one w;
  fi_domain = λ f i w. open_one w;
  candidates = λ i.
      record { caps = 0xa; tx_caps = none; rx_caps = none }
      ∷ record { caps = 0x2; tx_caps = some 0x4; rx_caps = some 0x2 }
      ∷ [];
  domain_name = λ i. codes "cxi0";
  info_caps = λ i. 0xe;
  tx_attr = λ i. 3;
  rx_attr = λ i. 4;
  domain_attr = λ i. 5;
  inject_size = λ i. 192;
  cq_data_size = λ i. 8;
  mode_consts = mode_consts;
  fi_rm_enabled = 2;
  fi_ep_rdm = 3;
}

pub answers-Offers : Offers answers opened
answers-Offers = record {
  allocates = λ w. (ground arith, λ x. refl);
  answers = λ h w. (refl, ground arith, λ x. refl);
  filled = λ i nz. (ground arith, ground arith, ground arith);
  fabrics = λ i w. open_one-opened w;
  domains = λ f i w. open_one-opened w;
}

-- FI_MSG, FI_RMA, FI_TAGGED and FI_HMEM are required.
abbrev pub config : Config
config = record {
  build = cxi;
  gpu = true;
  auto_progress = none;
  cxi_device_name = none;
  cxi_enable_writedata = none;
  derived_caps_flags = λ a. 0x4000000e;
  derived_threadlevel_flags = none;
  derived_mr_mode = none;
}
