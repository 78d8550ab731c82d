-- ===== src/Endpoint/Ledger.antt =====
-- A libfabric that accepts every request, for the runs: its world is the list of the objects that
-- are open.
use libfatbat.Prelude.{
  ℕ, suc, ◌+◌, ◌<◌, ◌==◌, ==_iff, ◌≡◌, ◌≢◌, refl, false, Bool-cases, inl, inr, ap, if◌then◌else◌,
  List, [], ◌∷◌, ℤ, pos, negsuc, arith,
}
use libfatbat.Fabric.Values.{consts}
use libfatbat.Members.{Members}
use libfatbat.Endpoint.{EndpointEnv}
use libfatbat.Endpoint.Ownership.{held, held_other, Working}

abbrev pub sum : List ℕ → ℕ
sum [] = 0
sum (h ∷ hs) = h + sum hs

abbrev pub opened : List ℕ → ℕ → ℕ
opened [] x = 0
opened (h ∷ hs) x = held h x + opened hs x

-- A new object is none of those that are open.
abbrev pub open_one : List ℕ → (ℤ × ℕ) × List ℕ
open_one w = ((pos 0, suc (sum w)), suc (sum w) ∷ w)

abbrev pub close_one : ℕ → List ℕ → ℤ × List ℕ
close_one h [] = (negsuc 21, [])
close_one h (x ∷ xs) =
    let rest = close_one h xs in if x == h then (pos 0, xs) else (rest.0, x ∷ rest.1)

abbrev pub fabric : EndpointEnv (List ℕ)
fabric = record {
  consts = consts;
  fi_dupinfo = λ i w. (1, w);
  fi_freeinfo = λ i w. w;
  fi_getinfo = λ i w. ((pos 0, 1), w);
  fi_endpoint = λ d i w. open_one w;
  fi_scalable_ep = λ d i n w. open_one w;
  fi_tx_context = λ e i w. open_one w;
  fi_cq_open = λ d n w. open_one w;
  fi_cntr_open = λ d w. open_one w;
  fi_av_open = λ d a w. open_one w;
  fi_ep_bind = λ e f flags w. (pos 0, w);
  fi_scalable_ep_bind = λ e f w. (pos 0, w);
  fi_enable = λ e w. (pos 0, w);
  fi_close = close_one;
  rx_attr_size = λ i. 64;
  tx_attr_size = λ i. 64;
  tx_ctx_cnt = λ i. 3;
  av_type = λ i. 0;
  fi_av_unspec = 0;
  fi_av_table = 2;
}

close_one-opened :
    (h : ℕ) (w : List ℕ)
    → 0 < opened w h
    → ((close_one h w).0 ≡ pos 0) × ((x : ℕ) → opened (close_one h w).1 x + held h x ≡ opened w x)
close_one-opened h [] p = absurd (omega arith)
close_one-opened h (y ∷ ys) p = elim (Bool-cases (y == h)) [
  | inl e ↦
      let same : y ≡ h = (==_iff _ _).0 e in
      rw e (refl, λ x. omega (arith, ap (λ k. held k x) same))
  | inr e ↦
      let (ok, left) = close_one-opened h ys (omega (arith, held_other y h e)) in
      rw e (ok, λ x. omega (arith, left x))
]

pub open_one-opened :
    (w : List ℕ)
    → ((open_one w).0.0 ≡ pos 0)
      × ((open_one w).0.1 ≢ 0)
      × ((x : ℕ) → opened (open_one w).1 x ≡ opened w x + held (open_one w).0.1 x)
open_one-opened w = (refl, ground arith, λ x. omega arith)

pub fabric-Working : Working fabric opened
fabric-Working = record {
  copies = λ i w. (ground arith, λ x. refl);
  frees = λ i w x. refl;
  infos = λ i w. (refl, λ x. refl);
  endpoints = λ d i w. open_one-opened w;
  scalables = λ d i n w. open_one-opened w;
  contexts = λ e i w. open_one-opened w;
  queues = λ d n w. open_one-opened w;
  counters = λ d w. open_one-opened w;
  vectors = λ d a w. open_one-opened w;
  binds = λ e f flags w. (refl, λ x. refl);
  scalable_binds = λ e f w. (refl, λ x. refl);
  enables = λ e w. (refl, λ x. refl);
  closes = close_one-opened;
  success = refl;
  busy = omega arith;
}

abbrev pub no_members : Members
no_members = record {
  max_completions_per_poll = 1;
  msg_rendezvous_threshold = 0x4000;
  num_ranks = 0;
  here = record { fabric_data = []; fi_address = 0; av = 0 };
  tx_inject_size = 0;
  tx_attr_size = 0;
  rx_attr_size = 0;
  supports_write_data = false;
  mrlocal = false;
  mrbind = false;
  mrhmem = false;
}
