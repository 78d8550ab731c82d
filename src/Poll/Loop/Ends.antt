-- ===== src/Poll/Loop/Ends.antt =====
-- When the loop of `poll_for_work_completions` ends, over any two polling functions.
use libfatbat.Prelude.{
  ℕ, zero, suc, ◌+◌, ◌≤◌, ◌<◌, ◌≡◌, refl, ap, ◌∙◌, inl, inr, ◌⊎◌, subst, true, false, ◌||◌, ◌==◌,
  none, some, Bool-cases, ℤ, pos, to_u32, u32_mod, ◌%◌, arith,
}
use libfatbat.Outcome.{Outcome, returns, throws, terminates, faults}
use libfatbat.Outcome.Laws.{>>=-eq-returns, returns-injective, Outcome-cases, ending, >>=-ending}
use libfatbat.Poll.Loop.{ProgressStatus, Round, poll_round, poll_loop}

-- A polling function never adds to what is left to do, and takes from it when it reports the
-- number at which the loop goes round again.
pub record Takes {S : Type 0} (poll : S → Outcome (ℤ × S)) (max : ℕ) (left : S → ℕ) : Type 0 where
  pub shrinks :
      (s : S) (n : ℤ) (s' : S)
      → poll s ≡ returns (n, s')
      → (left s' ≤ left s) × (to_u32 n ≡ max → left s' < left s)

shrinks_by :
    (n m max : ℕ) {a b c d : ℕ}
    → ((n == max) || (m == max)) ≡ true
    → (b ≤ a) × (n ≡ max → b < a)
    → (c ≤ b) × (m ≡ max → c < b)
    → c ≡ d
    → d < a
shrinks_by n m max t p q e = ground arith

module _ {S : Type 0} (poll_send poll_recv : S → Outcome (ℤ × S)) (max : ℕ) (left : S → ℕ) where
  -- A round that asks for another has taken something.
  poll_round_shrinks :
      Takes poll_send max left
      → Takes poll_recv max left
      → (p : ProgressStatus) (s : S) (r : Round S)
      → poll_round poll_send poll_recv max p s ≡ returns r
      → r.retry ≡ true
      → left r.state < left s
  unfolding poll_round
  poll_round_shrinks hs hr p s r e again =
      let (sent, e1, rest) = >>=-eq-returns (poll_send s) _ e in
      let (received, e2, last) = >>=-eq-returns (poll_recv sent.1) _ rest in
      let same = returns-injective last in
      let state : received.1 ≡ r.state = ap (λ t. t.state) same in
      let tests : ((to_u32 sent.0 == max) || (to_u32 received.0 == max)) ≡ r.retry =
        ap (λ t. t.retry) same in
      shrinks_by (to_u32 sent.0) (to_u32 received.0) max (tests ∙ again)
        (hs.shrinks s sent.0 sent.1 e1) (hr.shrinks sent.1 received.0 received.1 e2) (ap left state)

  -- What the loop comes to: it returns, or it ends as a poll ends that does not return.
  abbrev pub Comes : {A : Type 0} → Outcome A → Type 0
  Comes o =
      (ending o ≡ returns tt)
      ⊎ ((s : S) × ((ending (poll_send s) ≡ ending o) ⊎ (ending (poll_recv s) ≡ ending o)))

  poll_round-Comes : (p : ProgressStatus) (s : S) → Comes (poll_round poll_send poll_recv max p s)
  unfolding poll_round
  poll_round-Comes p s = elim (>>=-ending (poll_send s) _) [
    | inr e ↦ inr (s, inl e)
    | inl (sent, e) ↦ elim (>>=-ending (poll_recv sent.1) _) [
      | inr e2 ↦ inr (sent.1, inr (rw e e2))
      | inl (received, e2) ↦ inl (rw (e, e2) refl)
    ]
  ]

  -- One turn of the loop, by the round's result.
  poll_loop_again :
      (rounds : ℕ) (p : ProgressStatus) (s : S) (r : Round S)
      → poll_round poll_send poll_recv max p s ≡ returns r
      → r.retry ≡ true
      → poll_loop poll_send poll_recv max (suc rounds) p s
        ≡ poll_loop poll_send poll_recv max rounds r.status r.state
  unfolding poll_loop
  poll_loop_again rounds p s r e again = ground arith

  poll_loop_done :
      (rounds : ℕ) (p : ProgressStatus) (s : S) (r : Round S)
      → poll_round poll_send poll_recv max p s ≡ returns r
      → r.retry ≡ false
      → poll_loop poll_send poll_recv max (suc rounds) p s ≡ some (returns (r.status, r.state))
  unfolding poll_loop
  poll_loop_done rounds p s r e done = ground arith

  ending-Comes :
      (p : ProgressStatus) (s : S) (o : Outcome (ProgressStatus × S))
      → ending (poll_round poll_send poll_recv max p s) ≡ ending o
      → Comes o
  ending-Comes p s o e =
      subst
        (λ m.
          (m ≡ returns tt) ⊎ ((t : S) × ((ending (poll_send t) ≡ m) ⊎ (ending (poll_recv t) ≡ m))))
        e (poll_round-Comes p s)

  -- With more rounds than there is work left, the loop ends.
  pub poll_loop_total :
      Takes poll_send max left
      → Takes poll_recv max left
      → (rounds : ℕ) (p : ProgressStatus) (s : S) → left s < rounds
      → (o : Outcome (ProgressStatus × S)) × (poll_loop poll_send poll_recv max rounds p s ≡ some o)
        × Comes o
  poll_loop_total hs hr zero p s h = absurd (omega arith)
  poll_loop_total hs hr (suc rounds) p s h =
      elim (Outcome-cases (poll_round poll_send poll_recv max p s)) [
        | inl (r, e) ↦ elim (Bool-cases r.retry) [
          | inl again ↦
              let less = poll_round_shrinks hs hr p s r e again in
              let (o, rest, comes) = poll_loop_total hs hr rounds r.status r.state (omega arith) in
              (o, poll_loop_again rounds p s r e again ∙ rest, comes)
          | inr done ↦ (returns (r.status, r.state), poll_loop_done rounds p s r e done, inl refl)
        ]
        | inr (inl (x, e)) ↦
            (throws x, unfold poll_loop in ground arith, ending-Comes p s (throws x) (ap ending e))
        | inr (inr (inl (c, e))) ↦ (
          terminates c,
          unfold poll_loop in ground arith,
          ending-Comes p s (terminates c) (ap ending e),
        )
        | inr (inr (inr e)) ↦
            (faults, unfold poll_loop in ground arith, ending-Comes p s faults (ap ending e))
      ]

-- A polling function that reports nothing, and goes on reporting nothing.
abbrev pub Idle : {S : Type 0} → (S → Outcome (ℤ × S)) → Type 0
Idle {S} poll = (s : S) → (s' : S) × (poll s ≡ returns (pos 0, s'))

module _ {S : Type 0} (poll_send poll_recv : S → Outcome (ℤ × S)) where
  -- With a poll size of 0 the loop never ends while nothing arrives: no number of rounds is enough.
  pub poll_loop_zero_size :
      Idle poll_send
      → Idle poll_recv
      → (rounds : ℕ) (p : ProgressStatus) (s : S)
      → poll_loop poll_send poll_recv 0 rounds p s ≡ none
  poll_loop_zero_size is ir zero p s = unfold poll_loop in refl
  poll_loop_zero_size is ir (suc rounds) p s =
      let (s1, e1) = is s in
      let (s2, e2) = ir s1 in
      let r : Round S = record {
        retry = true;
        status = record {
          m_num_sends = (p.m_num_sends + 0) % u32_mod;
          m_num_recvs = (p.m_num_recvs + 0) % u32_mod;
        };
        state = s2;
      } in
      let e : poll_round poll_send poll_recv 0 p s ≡ returns r = unfold poll_round in rw (e1, e2) in
      poll_loop_again poll_send poll_recv 0 (λ _. 0) rounds p s r e refl
      ∙ poll_loop_zero_size is ir rounds r.status s2
