-- ===== src/Log/Scope/Nesting.antt =====
-- `scoped_var` of include/libfatbat/logging.hpp: an entry in the log at the start of a scope, and
-- one at its end, which the destructor writes, each if the level of the logger then lets a trace
-- message through. An exception that is caught further out destroys the scopes on its way;
-- `std::terminate` destroys none.
use libfatbat.Prelude.{ℕ, List, ◌∷◌, Bool, if◌then◌else◌}
use libfatbat.Outcome.{Outcome, returns, throws, terminates, faults}

-- The newest entry of a log stands first.
pub data Entry : Type 0 where
  enter leave : List ℕ → Entry

-- The logger: whether its level, which can change at any time, is at most trace, and what it wrote.
pub record Logger : Type 0 where
  pub traces : Bool
  pub entries : List Entry

-- LIBFATBAT_TRACE, which spdlog filters by the level of the logger.
unfoldable pub trace : Entry → Logger → Logger
trace e l = if l.traces then record l { entries = e ∷ l.entries } else l

module _ {ℓ} {A : Type ℓ} where
  -- `~scoped_var()`, after the rest of the scope.
  pub destroy_scoped_var : List ℕ → Outcome A × Logger → Outcome A × Logger
  unfolding trace
  destroy_scoped_var message (returns a, log) = (returns a, trace (leave message) log)
  destroy_scoped_var message (throws e, log) = (throws e, trace (leave message) log)
  destroy_scoped_var message (terminates c, log) = (terminates c, log)
  destroy_scoped_var message (faults, log) = (faults, log)

  -- A scope that begins with LIBFATBAT_SCOPE: the message, which the constructor makes first,
  -- whatever the level is, and then what the rest of the scope does to the logger.
  unfoldable pub scoped_var :
      Outcome (List ℕ) → (Logger → Outcome A × Logger) → Logger → Outcome A × Logger
  unfolding destroy_scoped_var trace
  scoped_var (returns message) body log =
      destroy_scoped_var message (body (trace (enter message) log))
  scoped_var (throws e) body log = (throws e, log)
  scoped_var (terminates c) body log = (terminates c, log)
  scoped_var faults body log = (faults, log)
