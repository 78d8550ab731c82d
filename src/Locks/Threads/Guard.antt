-- ===== src/Locks/Threads/Guard.antt =====
-- One mutex and the threads that read the queue that it guards.
use libfatbat.Prelude.{
  ℕ, Bool, true, false, not, ◌&&◌, ◌||◌, ◌==◌, ==_iff, Option, none, some, ◌≡◌, ◌≢◌, refl, sym, ap,
  ◌∙◌, Bool-cases, inl, inr, arith,
}
use libfatbat.Locks.Threads.{Phase, set_phase}

abbrev pub is_holder : Option ℕ → ℕ → Bool
is_holder none t = false
is_holder (some u) t = t == u

-- A mutex is held by the thread that reads its queue with it, and a thread reads without it only
-- where the lock is bypassed.
pub record Guarded (bypass : Bool) (holds reads : Phase → Bool) (m : Option ℕ) (phase : ℕ → Phase)
    : Type 0 where
  pub held : (t : ℕ) → holds (phase t) ≡ is_holder m t
  pub locked : (t : ℕ) → (bypass || (not (reads (phase t)) || holds (phase t))) ≡ true

one_holder :
    (m : Option ℕ) (t u : ℕ) → is_holder m t ≡ true → (u == t) ≡ false → is_holder m u ≡ false
one_holder none t u h e = refl
one_holder (some v) t u h e = ground arith

module _ (bypass : Bool) (holds reads : Phase → Bool) (m : Option ℕ) (phase : ℕ → Phase)
    (g : Guarded bypass holds reads m phase) (t : ℕ) (p : Phase) where
  -- A thread moves on without the mutex.
  pub moves :
      holds (phase t) ≡ false
      → holds p ≡ false
      → (bypass || not (reads p)) ≡ true
      → Guarded bypass holds reads m (set_phase t p phase)
  moves before after ok = record {
    held = λ u. elim (Bool-cases (u == t)) [
      | inl e ↦
          let same : u ≡ t = (==_iff u t).0 e in
          rw e (after ∙ (sym before ∙ (ap (λ v. holds (phase v)) (sym same) ∙ g.held u)))
      | inr e ↦ rw e (g.held u)
    ];
    locked = λ u. elim (Bool-cases (u == t)) [
      | inl e ↦ rw (e, after) (ground arith)
      | inr e ↦ rw e (g.locked u)
    ];
  }

  -- It takes the mutex.
  pub takes : m ≡ none → holds p ≡ true → Guarded bypass holds reads (some t) (set_phase t p phase)
  takes free after = record {
    held = λ u. elim (Bool-cases (u == t)) [
      | inl e ↦ rw e after
      | inr e ↦ rw e (g.held u ∙ ap (λ n. is_holder n u) free)
    ];
    locked = λ u. elim (Bool-cases (u == t)) [
      | inl e ↦ rw (e, after) (ground arith)
      | inr e ↦ rw e (g.locked u)
    ];
  }

  -- It releases the mutex.
  pub releases :
      holds (phase t) ≡ true
      → holds p ≡ false
      → reads p ≡ false
      → Guarded bypass holds reads none (set_phase t p phase)
  releases before after ok = record {
    held = λ u. elim (Bool-cases (u == t)) [
      | inl e ↦ rw e after
      | inr e ↦ rw e (g.held u ∙ one_holder m t u (sym (g.held t) ∙ before) e)
    ];
    locked = λ u. elim (Bool-cases (u == t)) [
      | inl e ↦ rw (e, after, ok) (ground arith)
      | inr e ↦ rw e (g.locked u)
    ];
  }

-- Two holders are the same thread.
holder_unique : (m : Option ℕ) (t u : ℕ) → is_holder m t ≡ true → is_holder m u ≡ true → t ≡ u
holder_unique none t u h g = absurd (cc)
holder_unique (some v) t u h g = ground arith

pub exclusive :
    (bypass : Bool) (holds reads : Phase → Bool) (m : Option ℕ) (phase : ℕ → Phase)
    → Guarded bypass holds reads m phase
    → (t u : ℕ) → t ≢ u
    → (bypass || not (reads (phase t) && reads (phase u))) ≡ true
exclusive bypass holds reads m phase g t u apart = elim (Bool-cases (holds (phase t))) [
  | inl ht ↦ elim (Bool-cases (holds (phase u))) [
    | inl hu ↦ absurd (apart (holder_unique m t u (sym (g.held t) ∙ ht) (sym (g.held u) ∙ hu)))
    | inr hu ↦ ground (arith, g.locked u)
  ]
  | inr ht ↦ ground (arith, g.locked t)
]
