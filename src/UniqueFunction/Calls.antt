-- ===== src/UniqueFunction/Calls.antt =====
-- What the calls of a unique_function do.
use libfatbat.Prelude.{
  ℕ, ◌≡◌, ◌≢◌, refl, ap, sym, ◌∙◌, Bool-cases, inl, inr, ==_iff, true, false, List, [], ◌∷◌, map,
  Option, none, some, ◌==◌, if◌then◌else◌,
}
use libfatbat.UniqueFunction.{
  Objects, copyable, reference, move_only, UniqueFunction, result, threw_zero, copy_base, call,
  Callable, lvalue, rvalue, move_only_rvalue, call_object, calls, invoke_all,
}

module _ {S : Type 0} where
  -- The object that a function calls: the one that it holds, or the one of the caller that it
  -- refers to.
  abbrev pub target : UniqueFunction S → Objects S → Option S
  target none h = none
  target (some (copyable s)) h = some s
  target (some (reference p)) h = h p
  target (some (move_only s)) h = some s

  abbrev pub refers_to : UniqueFunction S → Option ℕ
  refers_to none = none
  refers_to (some (copyable s)) = none
  refers_to (some (reference p)) = some p
  refers_to (some (move_only s)) = none

  -- The object that is passed.
  abbrev pub passed : Callable S → Objects S → Option S
  passed (lvalue p) h = h p
  passed (rvalue s) h = some s
  passed (move_only_rvalue s) h = some s

  -- What a function holds of its own.
  abbrev pub held : UniqueFunction S → Option S
  held none = none
  held (some (copyable s)) = some s
  held (some (reference p)) = none
  held (some (move_only s)) = some s

  abbrev pub keeps : Callable S → S → Option S
  keeps (lvalue p) last = none
  keeps (rvalue s) last = some last
  keeps (move_only_rvalue s) last = some last

  abbrev pub objects_after : Callable S → Objects S → S → Objects S
  objects_after (lvalue p) h last q = if q == p then some last else h q
  objects_after (rvalue s) h last q = h q
  objects_after (move_only_rvalue s) h last q = h q

module _ {S A R : Type 0} (invoke : S → A → R × S) where
  call_lem :
      (u : UniqueFunction S) (h : Objects S) (x : A) (s : S)
      → target u h ≡ some s
      → ((call invoke u h x).0 ≡ result (invoke s x).0)
        × (target (call invoke u h x).1 (call invoke u h x).2 ≡ some (invoke s x).1)
        × (refers_to (call invoke u h x).1 ≡ refers_to u)
        × ((q : ℕ) → refers_to u ≢ some q → (call invoke u h x).2 q ≡ h q)
  unfolding call
  call_lem none h x s e = cc
  call_lem (some (copyable t)) h x s e =
      let same : t ≡ s = cc e in rw (← same) (refl, refl, refl, λ q n. refl)
  call_lem (some (reference p)) h x s e =
      let own : (p == p) ≡ true = (==_iff p p).1 refl in
      let else_where : (q : ℕ) → some p ≢ some q → (q == p) ≡ false = λ q n.
        elim (Bool-cases (q == p)) [
          | inl k ↦ absurd (n (ap some (sym ((==_iff q p).0 k))))
          | inr k ↦ k
        ] in
      rw (e, call_object) (refl, rw own refl, refl, λ q n. rw (else_where q n) refl)
  call_lem (some (move_only t)) h x s e =
      let same : t ≡ s = cc e in rw (← same) (refl, refl, refl, λ q n. refl)

  -- A function that has a target gives the results that the target itself gives, and the calls
  -- change the target as they would.
  calls-invoke_all :
      (u : UniqueFunction S) (h : Objects S) (xs : List A) (s : S)
      → target u h ≡ some s
      → ((calls invoke u h xs).0 ≡ map result (invoke_all invoke s xs).0)
        × (target (calls invoke u h xs).1 (calls invoke u h xs).2 ≡ some (invoke_all invoke s xs).1)
        × (refers_to (calls invoke u h xs).1 ≡ refers_to u)
        × ((q : ℕ) → refers_to u ≢ some q → (calls invoke u h xs).2 q ≡ h q)
  unfolding calls invoke_all
  calls-invoke_all u h [] s e = (refl, e, refl, λ q n. refl)
  calls-invoke_all u h (x ∷ xs) s e =
      let (now, after, same, others) = call_lem u h x s e in
      let (results, last, kept, rest) =
        calls-invoke_all (call invoke u h x).1 (call invoke u h x).2 xs (invoke s x).1 after in
      (
        rw now (ap (λ t. result (invoke s x).0 ∷ t) results),
        last,
        kept ∙ same,
        λ q n. rest q (λ k. n (sym same ∙ k)) ∙ others q n,
      )

  -- A copy of the base that throws has robbed the function that it was made from: the calls that
  -- follow are calls of what a move left of the object.
  pub calls-copy_base :
      (moved : S → S) (u : UniqueFunction S) (h : Objects S) (xs : List A) (s : S)
      → target u h ≡ some s
      → (copy_base moved u).0 ≡ threw_zero
      → (calls invoke (copy_base moved u).1 h xs).0 ≡ map result (invoke_all invoke (moved s) xs).0
  unfolding copy_base
  calls-copy_base moved none h xs s e threw = cc
  calls-copy_base moved (some (copyable t)) h xs s e threw = cc
  calls-copy_base moved (some (reference p)) h xs s e threw = cc
  calls-copy_base moved (some (move_only t)) h xs s e threw =
      let same : t ≡ s = cc e in
      (calls-invoke_all (some (move_only (moved t))) h xs (moved s)
        (ap (λ v. some (moved v)) same)).0
