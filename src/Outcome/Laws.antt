-- ===== src/Outcome/Laws.antt =====
-- What becomes of an error.
use libfatbat.Prelude.{
  ℕ, zero, suc, ◌==◌, if◌then◌else◌, eq_int, false, arith, ℤ, pos, negsuc, ◌≡◌, ◌⊎◌, inl, inr, refl,
}
use libfatbat.Outcome.{
  Outcome, Exception, returns, throws, terminates, faults, check, catch_fabric_error, ◌>>=◌,
}

not_zero : (n : ℕ) → (suc n == 0) ≡ false
not_zero n = ground arith

-- A libfabric call whose result is checked goes on exactly with the result 0. With any other, the
-- program ends with that code, and a handler for the error around the call does not run.
pub check-catch {ℓ} :
    {A : Type ℓ} (ret : ℤ) (rest : Outcome A) (handler : ℤ → Outcome A)
    → catch_fabric_error (check ret >>= λ _. rest) handler
      ≡ (if eq_int ret (pos 0) then catch_fabric_error rest handler else terminates ret)
unfolding check catch_fabric_error
check-catch (pos zero) rest handler = refl
check-catch (pos (suc n)) rest handler = rw (not_zero n)
check-catch (negsuc n) rest handler = refl

-- A chain that returns has a first step that returns.
pub >>=-eq-returns {ℓ κ} :
    {A : Type ℓ} {B : Type κ} (m : Outcome A) (f : A → Outcome B) {b : B}
    → (m >>= f) ≡ returns b
    → (a : A) × (m ≡ returns a) × (f a ≡ returns b)
>>=-eq-returns (returns a) f h = (a, refl, h)
>>=-eq-returns (throws e) f h = cc
>>=-eq-returns (terminates c) f h = cc
>>=-eq-returns faults f h = cc

pub returns-injective {ℓ} : {A : Type ℓ} {a b : A} → returns a ≡ returns b → a ≡ b
returns-injective e = cc

pub Outcome-cases {ℓ} :
    {A : Type ℓ} (m : Outcome A)
    → ((a : A) × (m ≡ returns a))
      ⊎ (((e : Exception) × (m ≡ throws e)) ⊎ (((c : ℤ) × (m ≡ terminates c)) ⊎ (m ≡ faults)))
Outcome-cases (returns a) = inl (a, refl)
Outcome-cases (throws e) = inr (inl (e, refl))
Outcome-cases (terminates c) = inr (inr (inl (c, refl)))
Outcome-cases faults = inr (inr (inr refl))

-- How a call ends, without its result.
abbrev pub ending {ℓ} : {A : Type ℓ} → Outcome A → Outcome (Unit {0})
ending (returns a) = returns tt
ending (throws e) = throws e
ending (terminates c) = terminates c
ending faults = faults

pub >>=-ending {ℓ κ} :
    {A : Type ℓ} {B : Type κ} (m : Outcome A) (f : A → Outcome B)
    → ((a : A) × (m ≡ returns a)) ⊎ (ending m ≡ ending (m >>= f))
>>=-ending (returns a) f = inl (a, refl)
>>=-ending (throws e) f = inr refl
>>=-ending (terminates c) f = inr refl
>>=-ending faults f = inr refl
