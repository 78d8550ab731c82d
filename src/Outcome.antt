-- ===== src/Outcome.antt =====
-- How a call of the library ends, and include/libfatbat/fabric_error.hpp. The constructors of
-- `fabric_error` log the error and then call `std::terminate`, so a `throw` of one ends the program
-- before there is anything to throw.
pub mod Post
pub mod Laws
mod Tests
use libfatbat.Prelude.{suc, ℤ, pos, negsuc, neg, if◌then◌else◌, eq_int}

-- class fabric_error, and the other exceptions that the code or the standard library throw.
pub data Exception : Type 0 where
  fabric_error : ℤ → Exception
  runtime_error : Exception
  invalid_argument : Exception
  out_of_range : Exception

-- `terminates code` is `std::terminate` after a log entry for `code`. `faults` is a use of a null
-- pointer, or a write past the end of an array.
pub data Outcome {ℓ} (A : Type ℓ) : Type ℓ where
  returns : A → Outcome A
  throws : Exception → Outcome A
  terminates : ℤ → Outcome A
  faults : Outcome A

infixl 5 ◌>>=◌ ◌>>◌
abbrev pub ◌>>=◌ {ℓ κ} : {A : Type ℓ} {B : Type κ} → Outcome A → (A → Outcome B) → Outcome B
returns a >>= f = f a
throws e >>= f = throws e
terminates c >>= f = terminates c
faults >>= f = faults

abbrev pub ◌>>◌ {ℓ} : {B : Type ℓ} → Outcome (Unit {0}) → Outcome B → Outcome B
m >> k = m >>= λ _. k

-- `-i` on an int.
abbrev pub negate : ℤ → ℤ
negate (pos n) = neg n
negate (negsuc n) = pos (suc n)

-- `fabric_error(int err, std::string const& msg)`, whose last statement is `std::terminate()`.
unfoldable pub construct_error_msg : ℤ → Outcome Exception
construct_error_msg err = terminates err

-- `fabric_error(int err)`, which stores `-err`.
unfoldable pub construct_error : ℤ → Outcome Exception
construct_error err = terminates (negate err)

-- `throw libfatbat::fabric_error(err, msg)`.
unfoldable pub throw_fabric_error {ℓ} : {A : Type ℓ} → ℤ → Outcome A
unfolding construct_error_msg
throw_fabric_error err = construct_error_msg err >>= throws

-- `try { m } catch (fabric_error& e) { handler }`.
unfoldable pub catch_fabric_error {ℓ} : {A : Type ℓ} → Outcome A → (ℤ → Outcome A) → Outcome A
catch_fabric_error (throws (fabric_error e)) handler = handler e
catch_fabric_error (throws runtime_error) handler = throws runtime_error
catch_fabric_error (throws invalid_argument) handler = throws invalid_argument
catch_fabric_error (throws out_of_range) handler = throws out_of_range
catch_fabric_error (returns a) handler = returns a
catch_fabric_error (terminates c) handler = terminates c
catch_fabric_error faults handler = faults

-- `if (ret) throw libfatbat::fabric_error(ret, msg)`, which is `finvoke` too.
unfoldable pub check : ℤ → Outcome (Unit {0})
unfolding throw_fabric_error
check ret = if eq_int ret (pos 0) then returns tt else throw_fabric_error ret
