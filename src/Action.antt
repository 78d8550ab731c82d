-- ===== src/Action.antt =====
-- Steps of the controller: functions of its state that may end in other ways than by returning.
pub mod Runs
use libfatbat.Prelude.{ℕ, ℤ, pos, if◌then◌else◌, eq_int}
use libfatbat.Outcome.{Outcome, returns, throws, terminates, faults, check, throw_fabric_error}

abbrev pub Action : Type 0 → Type 0 → Type 0
Action S A = S → Outcome (A × S)

-- Goes on with what a step leaves, if it returns.
unfoldable pub after :
    {S A B : Type 0} → Outcome (A × S) → (A × S → Outcome (B × S)) → Outcome (B × S)
after (returns r) k = k r
after (throws e) k = throws e
after (terminates c) k = terminates c
after faults k = faults

infixl 5 ◌>>=◌ ◌>>◌
abbrev pub ◌>>=◌ : {S A B : Type 0} → Action S A → (A → Action S B) → Action S B
(m >>= f) s = after (m s) λ r. f r.0 r.1

abbrev pub ◌>>◌ : {S B : Type 0} → Action S (Unit {0}) → Action S B → Action S B
(m >> k) s = after (m s) λ r. k r.1

abbrev pub pure : {S A : Type 0} → A → Action S A
pure a s = returns (a, s)

-- `throw libfatbat::fabric_error(err, ...)`.
abbrev pub throw_error : {S A : Type 0} → ℤ → Action S A
throw_error err s = throw_fabric_error err

-- `if (ret) throw libfatbat::fabric_error(ret, ...)`.
abbrev pub require : {S : Type 0} → ℤ → Action S (Unit {0})
require ret = if eq_int ret (pos 0) then pure tt else throw_error ret
