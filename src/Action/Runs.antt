-- ===== src/Action/Runs.antt =====
-- Steps that are known to return.
use libfatbat.Prelude.{◌≡◌, refl}
use libfatbat.Outcome.{Outcome, returns, faults}
use libfatbat.Action.{after}

-- The step returns, and its value and the state after it have the property `Q`.
pub record Runs {S A : Type 0} (Q : A → S → Type 0) (m : Outcome (A × S)) : Type 0 where
  pub value : A
  pub final : S
  pub ran : m ≡ returns (value, final)
  pub post : Q value final

pub Runs-returns :
    {S A : Type 0} (Q : A → S → Type 0) (a : A) (s : S) → Q a s → Runs Q (returns (a, s))
Runs-returns Q a s q = record { value = a; final = s; ran = refl; post = q }

pub Runs-after :
    {S A B : Type 0} (P : A → S → Type 0) (Q : B → S → Type 0) (m : Outcome (A × S))
    (k : A × S → Outcome (B × S))
    → Runs P m
    → ((a : A) (s : S) → P a s → Runs Q (k (a, s)))
    → Runs Q (after m k)
unfolding after
Runs-after P Q m k r f =
    let next = f r.value r.final r.post in
    record { value = next.value; final = next.final; ran = rw r.ran next.ran; post = next.post }

pub Runs-mono :
    {S A : Type 0} (P Q : A → S → Type 0) (m : Outcome (A × S))
    → Runs P m
    → ((a : A) (s : S) → P a s → Q a s)
    → Runs Q m
Runs-mono P Q m r f = record { value = r.value; final = r.final; ran = r.ran; post = f _ _ r.post }

-- A step that returns, and then one that faults.
pub after-faults :
    {S A B : Type 0} (P : A → S → Type 0) (m : Outcome (A × S)) (k : A × S → Outcome (B × S))
    → Runs P m
    → ((a : A) (s : S) → P a s → k (a, s) ≡ faults)
    → after m k ≡ faults
unfolding after
after-faults P m k r f = rw r.ran (f r.value r.final r.post)
