-- ===== src/Poll/Delivery/Sends.antt =====
-- One poll of the transmit queue hands the entries that it reads to their handlers, in order.
use mathlib.Core.List.{append_assoc, append-nil}
use libfatbat.Prelude.{
  ℕ, ◌%◌, u32_mod, of_u32, of_u32-small, ◌+◌, ◌≤◌, ◌≡◌, ◌≢◌, refl, sym, ap, ◌∙◌, Bool, true, false,
  List, [], ◌∷◌, take, drop, length, All, ◌==◌, pos, arith,
}
use libfatbat.Prelude.Slices.{take-nil, length-take, All-take}
use libfatbat.Fabric.{CqEntry}
use libfatbat.Outcome.{returns}
use libfatbat.Poll.{Env, State, Settings, tx_busy, fits}
use libfatbat.Poll.Send.{
  SendKind, send, read, write, unknown, send_kind, send_handler, count_send, send_entry,
  send_entries, send_result, poll_send_queue_default,
}
use libfatbat.Poll.Counting.{lock_test}
use libfatbat.Poll.Loop.Drains.Total.{no_assert}
use libfatbat.Poll.Delivery.{View, Handles, InOrder, add_sent, answer, IsSent, sent_of, sent_all}

module _ {W : Type 0} (env : Env W) (cfg : Settings) (user_data tx_cq rx_cq : ℕ) (view : W → View)
    (o : InOrder env cfg user_data tx_cq rx_cq view) where
  send_handler-Handles :
      (k : SendKind) (ctx : ℕ) (w : W)
      → k ≢ unknown
      → ctx ≢ 0
      → Handles view (add_sent (view w) k ctx) (send_handler env user_data k ctx w)
  unfolding send_handler
  send_handler-Handles k ctx w known nz =
      let some_context : (ctx == 0) ≡ false = ground arith in by_kind k some_context known
    where
      by_kind :
          (k : SendKind)
          → (ctx == 0) ≡ false
          → k ≢ unknown
          → Handles view (add_sent (view w) k ctx) (send_handler env user_data k ctx w)
      by_kind send h n = rw h (o.sends ctx w)
      by_kind read h n = rw h (o.reads ctx w)
      by_kind write h n = rw h (o.writes ctx w)
      by_kind unknown h n = absurd (n refl)

  count_send-world : (k : SendKind) (s : State W) → (count_send k s).world ≡ s.world
  unfolding count_send
  count_send-world send s = refl
  count_send-world read s = refl
  count_send-world write s = refl
  count_send-world unknown s = refl

  -- The entry is handled, and the counters have no part in what is seen.
  send_entry-view :
      (e : CqEntry) (s : State W)
      → IsSent cfg e
      → (t : State W) × (send_entry env user_data cfg e s ≡ returns (1, t))
        × (view t.world ≡ add_sent (view s.world) (send_kind cfg e.flags) e.op_context)
  unfolding send_entry
  send_entry-view e s (known, nz) =
      let k = send_kind cfg e.flags in
      let counted = count_send k s in
      let (w, ran, seen) = send_handler-Handles k e.op_context counted.world known nz in
      (
        record counted { world = w },
        rw ran refl,
        seen ∙ ap (λ t. add_sent (view t) k e.op_context) (count_send-world k s),
      )

  send_entries-view :
      (es : List CqEntry) (n : ℕ) (s : State W)
      → n + length es ≤ 256
      → All (IsSent cfg) es
      → (t : State W) × (send_entries env user_data cfg es n s ≡ returns (n + length es, t))
        × (view t.world ≡ sent_all cfg (view s.world) es)
  unfolding send_entries
  send_entries-view [] n s small h = (
    s,
    ap (λ m. returns (m, s)) (omega arith),
    ap (λ l. record (view s.world) { sent = l }) (sym (append-nil (view s.world).sent)),
  )
  send_entries-view (e ∷ es) n s small (first, rest) =
      let (t, ran, seen) = send_entry-view e s first in
      let (u, ran2, seen2) = send_entries-view es (n + 1) t (omega arith) rest in
      let unwrapped : (n + 1) % u32_mod ≡ n + 1 = omega arith in
      (
        u,
        rw ran (rw unwrapped (ran2 ∙ ap (λ m. returns (m, u)) (omega arith))),
        seen2
            ∙ (ap (λ v. sent_all cfg v es) seen
                ∙ ap (λ l. record (view s.world) { sent = l })
                    (append_assoc (view s.world).sent ((send_kind cfg e.flags, e.op_context) ∷ [])
                      (sent_of cfg es))),
      )

  send_result-view :
      (waiting : List CqEntry) (s : State W)
      → cfg.max_completions_per_poll ≤ 256
      → (cfg.fi_eagain == cfg.fi_eavail) ≡ false
      → All (IsSent cfg) waiting
      → let now = take cfg.max_completions_per_poll waiting in
        (t : State W) × (send_result env user_data cfg tx_cq (answer cfg waiting) s
          ≡ returns (pos (length now), t))
        × (view t.world ≡ sent_all cfg (view s.world) now)
  unfolding send_result
  send_result-view [] s hi apart h = rw (take-nil {A = CqEntry} cfg.max_completions_per_poll) (
    s,
    rw apart refl,
    ap (λ l. record (view s.world) { sent = l }) (sym (append-nil (view s.world).sent)),
  )
  send_result-view (e ∷ es) s hi apart h =
      let now = take cfg.max_completions_per_poll (e ∷ es) in
      let in_room : fits now ≡ true =
        ground (arith, length-take cfg.max_completions_per_poll (e ∷ es)) in
      let room : 0 + length now ≤ 256 = ground (arith, in_room) in
      let count : of_u32 (0 + length now) ≡ pos (length now) =
        ap of_u32 (omega arith) ∙ of_u32-small (length now) (omega (arith, room)) in
      let (t, ran, seen) =
        send_entries-view now 0 s room
          (All-take (IsSent cfg) cfg.max_completions_per_poll (e ∷ es) h) in
      (t, rw in_room (rw ran (ap (λ m. returns (m, t)) count)), seen)

  -- A poll that gets the lock runs the handlers of the entries that it reads, in their order.
  pub poll_send-view :
      (free : Bool) (s : State W)
      → cfg.max_completions_per_poll ≤ 256
      → (cfg.fi_eagain == cfg.fi_eavail) ≡ false
      → tx_busy cfg free ≡ false
      → All (IsSent cfg) (view s.world).tx
      → let now = take cfg.max_completions_per_poll (view s.world).tx in
        let left : View = record (view s.world) {
          tx = drop cfg.max_completions_per_poll (view s.world).tx;
        } in
        (t : State W) × (poll_send_queue_default env user_data cfg tx_cq free s
          ≡ returns (pos (length now), t))
        × (view t.world ≡ sent_all cfg left now)
  unfolding poll_send_queue_default
  poll_send-view free s hi apart idle h =
      let (r, w) = env.cq_read tx_cq cfg.max_completions_per_poll s.world in
      let (got, left) = o.read_tx s.world in
      let (t, ran, seen) = send_result-view (view s.world).tx (record s { world = w }) hi apart h in
      (
        t,
        rw (no_assert cfg hi, lock_test env user_data cfg free, idle, got) ran,
        seen ∙ ap (λ v. sent_all cfg v (take cfg.max_completions_per_poll (view s.world).tx)) left,
      )
