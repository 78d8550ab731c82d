-- ===== src/Outcome/Post.antt =====
-- Postconditions of a call that may end in other ways than by returning.
use libfatbat.Prelude.{Bool, true, false, if◌then◌else◌, ◌≡◌, refl, subst, ℤ}
use libfatbat.Outcome.{Outcome, Exception, returns, throws, terminates, faults, ◌>>=◌}

-- If the call returns, it returns a value with the property `P`. The argument of the predicate is
-- kept as it is written, so that the rules below find it.
pub record Ensures {ℓ κ} {A : Type ℓ} (P : A → Type κ) (m : Outcome A) : Type (ℓ ⊔ κ) where
  pub holds : (a : A) → m ≡ returns a → P a

returns-injective {ℓ} : {A : Type ℓ} {a b : A} → returns a ≡ returns b → a ≡ b
returns-injective e = cc

pub Ensures-returns {ℓ κ} : {A : Type ℓ} (P : A → Type κ) (a : A) → P a → Ensures P (returns a)
Ensures-returns P a p = record { holds = λ b e. subst P (returns-injective e) p }

pub Ensures-throws {ℓ κ} : {A : Type ℓ} (P : A → Type κ) (e : Exception) → Ensures P (throws e)
Ensures-throws P e = record { holds = λ b h. cc }

pub Ensures-terminates {ℓ κ} : {A : Type ℓ} (P : A → Type κ) (c : ℤ) → Ensures P (terminates c)
Ensures-terminates P c = record { holds = λ b h. cc }

pub Ensures-faults {ℓ κ} : {A : Type ℓ} (P : A → Type κ) → Ensures P faults
Ensures-faults P = record { holds = λ b h. cc }

pub Ensures-bind {ℓ κ μ ν} :
    {A : Type ℓ} {B : Type κ} (P : A → Type μ) (Q : B → Type ν) (m : Outcome A) (f : A → Outcome B)
    → Ensures P m
    → ((a : A) → P a → Ensures Q (f a))
    → Ensures Q (m >>= f)
Ensures-bind P Q (returns a) f h k = k a (h.holds a refl)
Ensures-bind P Q (throws e) f h k = Ensures-throws Q e
Ensures-bind P Q (terminates c) f h k = Ensures-terminates Q c
Ensures-bind P Q faults f h k = Ensures-faults Q

pub Ensures-if {ℓ κ} :
    {A : Type ℓ} (P : A → Type κ) (b : Bool) (x y : Outcome A)
    → (b ≡ true → Ensures P x)
    → (b ≡ false → Ensures P y)
    → Ensures P (if b then x else y)
Ensures-if P true x y h k = h refl
Ensures-if P false x y h k = k refl

pub Ensures-mono {ℓ κ μ} :
    {A : Type ℓ} (P : A → Type κ) (Q : A → Type μ) (m : Outcome A)
    → Ensures P m
    → ((a : A) → P a → Q a)
    → Ensures Q m
Ensures-mono P Q m h k = record { holds = λ a e. k a (h.holds a e) }

-- A postcondition that does not depend on the value.
pub Ensures-of {ℓ κ} : {A : Type ℓ} (P : Type κ) (m : Outcome A) → P → Ensures (λ _. P) m
Ensures-of P m p = record { holds = λ a e. p }
