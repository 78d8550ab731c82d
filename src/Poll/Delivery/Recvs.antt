-- ===== src/Poll/Delivery/Recvs.antt =====
-- One poll of the receive queue hands the entries that it reads to their handlers, in order.
use mathlib.Core.List.{append_assoc, append-nil}
use libfatbat.Prelude.{
  ℕ, ◌%◌, u32_mod, of_u32, of_u32-small, ◌+◌, ◌≤◌, ◌≡◌, refl, sym, ap, ◌∙◌, false, true, List, [],
  ◌∷◌, take, drop, length, All, ◌==◌, pos, arith,
}
use libfatbat.Prelude.Slices.{take-nil, length-take, All-take}
use libfatbat.Fabric.{CqEntry}
use libfatbat.Outcome.{returns}
use libfatbat.Poll.{Env, State, Settings, fits}
use libfatbat.Poll.Recv.{
  recv, recv_handler, count_recv, recv_entry, recv_entries, recv_result, poll_recv_queue_default,
}
use libfatbat.Poll.Counting.Received.{lock_test}
use libfatbat.Poll.Loop.Drains.Total.{no_assert}
use libfatbat.Poll.Delivery.{
  View, InOrder, add_received, answer, IsReceived, received_of, received_all,
}

module _ {W : Type 0} (env : Env W) (cfg : Settings) (user_data tx_cq rx_cq : ℕ) (view : W → View)
    (o : InOrder env cfg user_data tx_cq rx_cq view) where
  recv_entry-view :
      (e : CqEntry) (s : State W)
      → IsReceived cfg e
      → (t : State W) × (recv_entry env user_data cfg e s ≡ returns (1, t))
        × (view t.world ≡ add_received (view s.world) e.op_context)
  unfolding recv_entry recv_handler count_recv
  recv_entry-view e s (kind, nz) =
      let some_context : (e.op_context == 0) ≡ false = ground arith in
      let (w, ran, seen) = o.receives e.op_context s.world in
      rw kind (record (count_recv recv s) { world = w }, rw (some_context, ran) refl, seen)

  recv_entries-view :
      (es : List CqEntry) (n : ℕ) (s : State W)
      → n + length es ≤ 256
      → All (IsReceived cfg) es
      → (t : State W) × (recv_entries env user_data cfg es n s ≡ returns (n + length es, t))
        × (view t.world ≡ received_all (view s.world) es)
  unfolding recv_entries
  recv_entries-view [] n s small h = (
    s,
    ap (λ m. returns (m, s)) (omega arith),
    ap (λ l. record (view s.world) { received = l }) (sym (append-nil (view s.world).received)),
  )
  recv_entries-view (e ∷ es) n s small (first, rest) =
      let (t, ran, seen) = recv_entry-view e s first in
      let (u, ran2, seen2) = recv_entries-view es (n + 1) t (omega arith) rest in
      let unwrapped : (n + 1) % u32_mod ≡ n + 1 = omega arith in
      (
        u,
        rw ran (rw unwrapped (ran2 ∙ ap (λ m. returns (m, u)) (omega arith))),
        seen2
            ∙ (ap (λ v. received_all v es) seen
                ∙ ap (λ l. record (view s.world) { received = l })
                    (append_assoc (view s.world).received (e.op_context ∷ []) (received_of es))),
      )

  recv_result-view :
      (waiting : List CqEntry) (s : State W)
      → cfg.max_completions_per_poll ≤ 256
      → (cfg.fi_eagain == cfg.fi_eavail) ≡ false
      → All (IsReceived cfg) waiting
      → let now = take cfg.max_completions_per_poll waiting in
        (t : State W) × (recv_result env user_data cfg rx_cq (answer cfg waiting) s
          ≡ returns (pos (length now), t))
        × (view t.world ≡ received_all (view s.world) now)
  unfolding recv_result
  recv_result-view [] s hi apart h = rw (take-nil {A = CqEntry} cfg.max_completions_per_poll) (
    s,
    rw apart refl,
    ap (λ l. record (view s.world) { received = l }) (sym (append-nil (view s.world).received)),
  )
  recv_result-view (e ∷ es) s hi apart h =
      let now = take cfg.max_completions_per_poll (e ∷ es) in
      let in_room : fits now ≡ true =
        ground (arith, length-take cfg.max_completions_per_poll (e ∷ es)) in
      let room : 0 + length now ≤ 256 = ground (arith, in_room) in
      let count : of_u32 (0 + length now) ≡ pos (length now) =
        ap of_u32 (omega arith) ∙ of_u32-small (length now) (omega (arith, room)) in
      let (t, ran, seen) =
        recv_entries-view now 0 s room
          (All-take (IsReceived cfg) cfg.max_completions_per_poll (e ∷ es) h) in
      (t, rw in_room (rw ran (ap (λ m. returns (m, t)) count)), seen)

  -- A poll runs the handlers of the entries that it reads, in their order.
  pub poll_recv-view :
      (s : State W)
      → cfg.max_completions_per_poll ≤ 256
      → (cfg.fi_eagain == cfg.fi_eavail) ≡ false
      → All (IsReceived cfg) (view s.world).rx
      → let now = take cfg.max_completions_per_poll (view s.world).rx in
        let left : View = record (view s.world) {
          rx = drop cfg.max_completions_per_poll (view s.world).rx;
        } in
        (t : State W) × (poll_recv_queue_default env user_data cfg rx_cq s
          ≡ returns (pos (length now), t))
        × (view t.world ≡ received_all left now)
  unfolding poll_recv_queue_default
  poll_recv-view s hi apart h =
      let (r, w) = env.cq_read rx_cq cfg.max_completions_per_poll s.world in
      let (got, left) = o.read_rx s.world in
      let (t, ran, seen) = recv_result-view (view s.world).rx (record s { world = w }) hi apart h in
      (
        t,
        rw (no_assert cfg hi, lock_test env user_data cfg, got) ran,
        seen ∙ ap (λ v. received_all v (take cfg.max_completions_per_poll (view s.world).rx)) left,
      )
