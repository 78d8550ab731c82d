-- ===== src/UniqueFunction.antt =====
-- include/libfatbat/unique_function.hpp: a `std::function` that takes callables that cannot be
-- copied too. The objects of the program that can be called are states, `invoke` is what a call
-- does to one, and the ones that a caller keeps are found at addresses.
pub mod Calls
mod Tests
use libfatbat.Prelude.{ℕ, List, [], ◌∷◌, Option, none, some, ◌==◌, if◌then◌else◌}

-- `none` where no object lives.
abbrev pub Objects : Type 0 → Type 0
Objects S = ℕ → Option S

-- `wrapper<Fn>`: of a type that can be copied, of a reference, which can be copied as well, or of a
-- type that can only be moved.
pub data Wrapper (S : Type 0) : Type 0 where
  copyable : S → Wrapper S
  reference : ℕ → Wrapper S
  move_only : S → Wrapper S

-- The base, a `std::function`; `none` is the empty one.
abbrev pub UniqueFunction : Type 0 → Type 0
UniqueFunction S = Option (Wrapper S)

-- What `Fn&&` binds to. For an lvalue, const or not, `Fn` is deduced as a reference.
pub data Callable (S : Type 0) : Type 0 where
  lvalue : ℕ → Callable S
  rvalue : S → Callable S
  move_only_rvalue : S → Callable S

-- `wrapper<Fn>{std::forward<Fn>(f)}`.
abbrev pub wrap : {S : Type 0} → Callable S → Wrapper S
wrap (lvalue p) = reference p
wrap (rvalue s) = copyable s
wrap (move_only_rvalue s) = move_only s

-- How a call ends: with a result, with `std::bad_function_call`, or with a use of an object that
-- is gone.
pub data Called (R : Type 0) : Type 0 where
  result : R → Called R
  bad_function_call : Called R
  dangling : Called R

-- How the copy of a `std::function` ends: with the copy, or with the exception 0.
pub data Copied (S : Type 0) : Type 0 where
  copied : UniqueFunction S → Copied S
  threw_zero : Copied S

module _ {S : Type 0} where
  -- The constructors, and the assignments, which drop what was held.
  unfoldable pub empty : UniqueFunction S
  empty = none

  unfoldable pub construct : Callable S → UniqueFunction S
  construct f = some (wrap f)

  unfoldable pub assign_null : UniqueFunction S → UniqueFunction S
  assign_null u = none

  unfoldable pub assign_callable : UniqueFunction S → Callable S → UniqueFunction S
  assign_callable u f = some (wrap f)

  -- The move constructor and the move assignment, which are those of `std::function`: the first is
  -- what the target holds, the second what is left of the source, of which nothing is known.
  unfoldable pub move_construct :
      (UniqueFunction S → UniqueFunction S) → UniqueFunction S → UniqueFunction S × UniqueFunction S
  move_construct left source = (source, left source)

  unfoldable pub move_assign :
      (UniqueFunction S → UniqueFunction S)
      → UniqueFunction S
      → UniqueFunction S
      → UniqueFunction S × UniqueFunction S
  move_assign left u source = (source, left source)

  abbrev pub store : Objects S → ℕ → S → Objects S
  store h p s q = if q == p then some s else h q

  -- A copy of the base, through a reference to it, and what it leaves of the source. The copy
  -- constructor of a wrapper that can only be moved first moves the callable out of the source, so
  -- that `moved` is left there, and then throws.
  unfoldable pub copy_base : (S → S) → UniqueFunction S → Copied S × UniqueFunction S
  copy_base moved none = (copied none, none)
  copy_base moved (some (copyable s)) = (copied (some (copyable s)), some (copyable s))
  copy_base moved (some (reference p)) = (copied (some (reference p)), some (reference p))
  copy_base moved (some (move_only s)) = (threw_zero, some (move_only (moved s)))

module _ {S A R : Type 0} (invoke : S → A → R × S) where
  -- `wrapper::operator()` for a reference.
  pub call_object : Objects S → ℕ → A → Option S → Called R × UniqueFunction S × Objects S
  call_object h p x none = (dangling, some (reference p), h)
  call_object h p x (some s) = (result (invoke s x).0, some (reference p), store h p (invoke s x).1)

  -- `operator()`, with what becomes of the function and of the objects.
  unfoldable pub call : UniqueFunction S → Objects S → A → Called R × UniqueFunction S × Objects S
  unfolding call_object
  call none h x = (bad_function_call, none, h)
  call (some (copyable s)) h x = (result (invoke s x).0, some (copyable (invoke s x).1), h)
  call (some (reference p)) h x = call_object h p x (h p)
  call (some (move_only s)) h x = (result (invoke s x).0, some (move_only (invoke s x).1), h)

  -- One call after the other.
  unfoldable pub calls :
      UniqueFunction S → Objects S → List A → List (Called R) × UniqueFunction S × Objects S
  calls u h [] = ([], u, h)
  calls u h (x ∷ xs) =
      let first = call u h x in
      let rest = calls first.1 first.2 xs in (first.0 ∷ rest.0, rest.1, rest.2)

  -- The same calls of an object itself.
  unfoldable pub invoke_all : S → List A → List R × S
  invoke_all s [] = ([], s)
  invoke_all s (x ∷ xs) =
      let rest = invoke_all (invoke s x).1 xs in ((invoke s x).0 ∷ rest.0, rest.1)
