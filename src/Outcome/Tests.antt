-- ===== src/Outcome/Tests.antt =====
-- Runs of the error path.
use libfatbat.Prelude.{ℕ, negsuc, ◌≡◌}
use libfatbat.Outcome.{returns, terminates, check, catch_fabric_error, ◌>>=◌}
use libfatbat.Outcome.Laws.{check-catch}

-- The destructor closes the domain in a try block: -16 is -FI_EBUSY.
check-catch_example :
    catch_fabric_error {A = ℕ} (check (negsuc 15) >>= λ _. returns 1) (λ _. returns 2)
    ≡ terminates (negsuc 15)
check-catch_example = check-catch (negsuc 15) (returns 1) (λ _. returns 2)
