-- ===== src/Initialize/Tests.antt =====
-- A run of the initialization and the destruction of a controller.
use libfatbat.Prelude.{
  ℕ, ◌*◌, ◌≤◌, ◌≡◌, ◌≢◌, refl, true, false, to_u32, ◌%◌, ◌^◌, none, some, List, [], ◌∷◌, pos, arith,
}
use libfatbat.Base64.{codes}
use libfatbat.Outcome.{returns}
use libfatbat.Settings.{
  EndpointType, single, scalable_tx, scalable_tx_rx, libfabric_endpoint_type,
  libfabric_endpoint_string, libfabric_completions_per_poll, libfabric_rendezvous_threshold,
}
use libfatbat.Settings.Names.{endpoint_type-endpoint_string}
use libfatbat.Action.{Action}
use libfatbat.Action.Runs.{Runs, Runs-returns}
use libfatbat.Members.{rank, size}
use libfatbat.Locality.Vector.{AddressEnv}
use libfatbat.Endpoint.{Controller, no_stack_endpoint, tx_pool}
use libfatbat.Endpoint.Choose.{get_tx_endpoint, get_scalable_tx, pop_tx}
use libfatbat.Endpoint.Threads.{
  Locals, no_locals, seen_by, end_thread, Shared, begins, sends, ends, Steps, done, more,
}
use libfatbat.Initialize.Threads.{destroy_controller-Steps}
use libfatbat.Endpoint.Stop.{destroy_controller}
use libfatbat.Endpoint.Ownership.Steps.{Same, moved}
use libfatbat.Endpoint.Ledger.{opened, fabric, fabric-Working}
use libfatbat.OpenFabric.Ledger.{answers, answers-Offers, config}
use libfatbat.Initialize.{Settings, Unset, new_controller, not_asked, initialize}
use libfatbat.Initialize.Whole.{Named}
use libfatbat.Initialize.Life.{destroy_controller-initialize, initialize-settings}

abbrev pub addresses : AddressEnv (List ℕ)
addresses = record {
  fi_getname = λ id len w. ((pos 0, 2 ∷ 0 ∷ 0 ∷ 7 ∷ [], 8), w);
  fi_av_insert = λ av bytes i w. ((pos 1, i), w);
  fi_av_lookup = λ av i len w. ((pos 0, [], 8), w);
}

addresses-Named : Named addresses 8 opened
addresses-Named = record { names = λ id w. (refl, omega arith, λ x. refl) }

abbrev pub settings : Settings
settings = record {
  fabric_config = config;
  endpoint_type = some (libfabric_endpoint_string scalable_tx);
  poll_size = some (codes "32");
  rendezvous_threshold = none;
  strtoul = λ t. 0;
  cxi_1_15 = false;
  derived_needs_cq_counters = none;
}

abbrev pub nothing_more : List ℕ → ℕ → ℕ → ℕ → Action (Controller (List ℕ)) (Unit {0})
nothing_more provider r ranks threads c = returns (tt, c)

nothing_more-Same :
    (provider : List ℕ) (r ranks threads : ℕ) (c : Controller (List ℕ))
    → Runs (Same opened c) (nothing_more provider r ranks threads c)
nothing_more-Same provider r ranks threads c =
    Runs-returns _ _ _ (moved opened c _ c.world (λ x. refl))

abbrev pub unset : Unset
unset = record { endpoint_type = single; num_ranks = 77; supports_write_data = true }

apart : libfabric_endpoint_type settings.endpoint_type ≢ scalable_tx_rx
apart e =
    let t : EndpointType = libfabric_endpoint_type settings.endpoint_type in
    let is : t ≡ scalable_tx = endpoint_type-endpoint_string scalable_tx in cc

destroy_controller-initialize_example :
    (started ended : Controller (List ℕ)) × (initialize fabric answers addresses settings
        nothing_more
        (codes "cxi")
        3
        16
        8
        (new_controller unset not_asked 8 (4 ∷ []))
      ≡ returns (tt, started))
    × (destroy_controller fabric started ≡ returns (tt, ended))
    × ((x : ℕ) → opened ended.world x ≡ opened (4 ∷ []) x)
destroy_controller-initialize_example =
    destroy_controller-initialize fabric answers addresses opened fabric-Working answers-Offers
      settings addresses-Named nothing_more (codes "cxi") 3 16 8 unset (4 ∷ [])
      (nothing_more-Same (codes "cxi") 3 16 8) apart

initialize-settings_example :
    (started : Controller (List ℕ)) × (initialize fabric answers addresses settings nothing_more
        (codes "cxi")
        3
        16
        8
        (new_controller unset not_asked 8 (4 ∷ []))
      ≡ returns (tt, started))
    × (rank started.members ≡ 3)
    × (size started.members ≡ 16)
    × (started.members.here.av ≡ started.av)
    × (started.members.max_completions_per_poll
        ≡ to_u32 (libfabric_completions_per_poll (some (codes "32"))))
    × (started.members.msg_rendezvous_threshold
        ≡ libfabric_rendezvous_threshold (λ t. 0) none 0x4000 % 2 ^ 32)
    × (started.members.tx_attr_size ≤ 512)
    × (2 * started.members.tx_attr_size ≤ 64)
    × (started.members.rx_attr_size ≤ 512)
    × (2 * started.members.rx_attr_size ≤ 64)
initialize-settings_example =
    initialize-settings fabric answers addresses opened fabric-Working answers-Offers settings
      addresses-Named nothing_more (codes "cxi") 3 16 8 unset (4 ∷ [])
      (nothing_more-Same (codes "cxi") 3 16 8) apart

-- What `initialize` leaves, with two transmit contexts.
abbrev started : Controller (List ℕ)
started = record {
  endpoint_type = scalable_tx;
  fabric = 5;
  domain = 10;
  info = 2;
  av = 20;
  tx_cntr = 0;
  ep_tx = record { ep = 320; rq = 0; tq = 0 };
  ep_rx = record { ep = 40; rq = 80; tq = 160 };
  tl_tx = no_stack_endpoint;
  tl_stx = no_stack_endpoint;
  tl_srx = no_stack_endpoint;
  tx_endpoints =
      record { ep = 640; rq = 0; tq = 1280 } ∷ record { ep = 2560; rq = 0; tq = 5120 } ∷ [];
  rx_endpoints = [];
  members = record {
    max_completions_per_poll = 32;
    msg_rendezvous_threshold = 16384;
    num_ranks = 16;
    here = record { fabric_data = 2 ∷ 0 ∷ 0 ∷ 7 ∷ []; fi_address = 3; av = 20 };
    tx_inject_size = 192;
    tx_attr_size = 32;
    rx_attr_size = 32;
    supports_write_data = false;
    mrlocal = true;
    mrbind = true;
    mrhmem = true;
  };
  world = 5120 ∷ 2560 ∷ 1280 ∷ 640 ∷ 320 ∷ 160 ∷ 80 ∷ 40 ∷ 20 ∷ 10 ∷ 5 ∷ 4 ∷ [];
}

ran :
    initialize fabric answers addresses settings nothing_more
      (codes "cxi")
      3
      16
      2
      (new_controller unset not_asked 8 (4 ∷ []))
    ≡ returns (tt, started)
unfolding initialize new_controller libfatbat.Action.after libfabric_endpoint_type
    libfabric_endpoint_string libfatbat.Settings.names libfabric_completions_per_poll
    libfabric_rendezvous_threshold
ran = refl

-- Two threads take the two contexts, and both end.
abbrev first : Locals
first = record {
  tl_tx = no_stack_endpoint;
  tl_stx = record { endpoint = record { ep = 640; rq = 0; tq = 1280 }; pool = tx_pool };
  tl_srx = no_stack_endpoint;
}

abbrev second : Locals
second = record {
  tl_tx = no_stack_endpoint;
  tl_stx = record { endpoint = record { ep = 2560; rq = 0; tq = 5120 }; pool = tx_pool };
  tl_srx = no_stack_endpoint;
}

abbrev first_sent : Controller (List ℕ)
first_sent = record (seen_by first started) {
  tx_endpoints = record { ep = 2560; rq = 0; tq = 5120 } ∷ [];
}

abbrev second_sent : Controller (List ℕ)
second_sent = record (seen_by second first_sent) { tx_endpoints = [] }

first_sends :
    get_tx_endpoint fabric (seen_by no_locals started)
    ≡ returns (record { ep = 640; rq = 0; tq = 1280 }, first_sent)
unfolding get_tx_endpoint get_scalable_tx pop_tx
first_sends = refl

second_sends :
    get_tx_endpoint fabric (seen_by no_locals first_sent)
    ≡ returns (record { ep = 2560; rq = 0; tq = 5120 }, second_sent)
unfolding get_tx_endpoint get_scalable_tx pop_tx
second_sends = refl

abbrev used : Controller (List ℕ)
used = end_thread second (end_thread first second_sent)

abbrev shared : Controller (List ℕ) → List Locals → Shared (List ℕ)
shared c ls = record { controller = c; active = ls }

threads : Steps fabric (shared started []) (shared used [])
threads =
    more (shared started []) (shared (end_thread first second_sent) (second ∷ [])) (shared used [])
      (more (shared started []) (shared second_sent (second ∷ first ∷ []))
        (shared (end_thread first second_sent) (second ∷ []))
        (more (shared started []) (shared first_sent (no_locals ∷ first ∷ []))
          (shared second_sent (second ∷ first ∷ []))
          (more (shared started []) (shared first_sent (first ∷ []))
            (shared first_sent (no_locals ∷ first ∷ []))
            (more (shared started []) (shared started (no_locals ∷ []))
              (shared first_sent (first ∷ []))
              (more (shared started []) (shared started []) (shared started (no_locals ∷ []))
                (done (shared started [])) (begins started []))
              (sends started first_sent [] [] no_locals (record { ep = 640; rq = 0; tq = 1280 })
                first_sends))
            (begins first_sent (first ∷ [])))
          (sends first_sent second_sent [] (first ∷ []) no_locals
            (record { ep = 2560; rq = 0; tq = 5120 }) second_sends))
        (ends second_sent (second ∷ []) [] first))
      (ends (end_thread first second_sent) [] [] second)

destroy_controller-Steps_example :
    (ended : Controller (List ℕ)) × (destroy_controller fabric used ≡ returns (tt, ended))
    × ((x : ℕ) → opened ended.world x ≡ opened (4 ∷ []) x)
destroy_controller-Steps_example =
    destroy_controller-Steps fabric answers addresses opened fabric-Working answers-Offers settings
      addresses-Named nothing_more (codes "cxi") 3 16 2 unset (4 ∷ [])
      (nothing_more-Same (codes "cxi") 3 16 2) apart started used ran threads
