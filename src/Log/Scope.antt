-- ===== src/Log/Scope.antt =====
-- The message that `make_scope_message` of include/libfatbat/logging.hpp puts together for the
-- format and the arguments of a scope. `vformat` is fmt's, which throws where the arguments do not
-- fit the format.
pub mod Nesting
use mathlib.Core.List.{append_assoc, append-nil}
use libfatbat.Prelude.{
  ℕ, ◌+◌, ◌-◌, ◌%◌, ◌^◌, ◌<◌, ◌≡◌, refl, sym, ◌∙◌, List, [], ◌∷◌, ◌++◌, ltb, if◌then◌else◌, length,
  arith,
}
use libfatbat.Base64.{codes}
use libfatbat.Outcome.{Outcome}

-- An argument that converts to `fmt::string_view`, so that it could be a part of the format, or
-- another value.
pub data ScopeArg {ℓ} (V : Type ℓ) : Type ℓ where
  fragment : List ℕ → ScopeArg V
  value : V → ScopeArg V

-- The variables that `process_arg` captures.
pub record Message {ℓ} (V : Type ℓ) : Type ℓ where
  pub effective_format : List ℕ
  pub num_fields : ℕ
  pub num_data_args : ℕ
  pub store : List (ScopeArg V)

module _ {ℓ} {V : Type ℓ} where
  -- The branch for an argument beyond the fields of the format; `size` is `sizeof...(args)`.
  pub extend_format : ℕ → ScopeArg V → Message V → Message V
  extend_format size (fragment text) m = record m {
    effective_format = (m.effective_format ++ codes " ") ++ text;
    num_fields = (m.num_fields + (size + 2 ^ 64 - m.num_data_args)) % 2 ^ 64;
  }
  extend_format size (value v) m = record m {
    effective_format = m.effective_format ++ codes " {}";
    store = m.store ++ (value v ∷ []);
    num_fields = (m.num_fields + 1) % 2 ^ 64;
    num_data_args = (m.num_data_args + 1) % 2 ^ 64;
  }

  pub process_arg : ℕ → ScopeArg V → Message V → Message V
  process_arg size arg m =
      if ltb m.num_data_args m.num_fields
      then record m {
        store = m.store ++ (arg ∷ []);
        num_data_args = (m.num_data_args + 1) % 2 ^ 64;
      }
      else extend_format size arg m

  -- `(process_arg(args), ...)`.
  pub process_args : ℕ → List (ScopeArg V) → Message V → Message V
  process_args size [] m = m
  process_args size (arg ∷ args) m = process_args size args (process_arg size arg m)

  unfoldable pub make_scope_message :
      (List ℕ → List (ScopeArg V) → Outcome (List ℕ))
      → List ℕ
      → List (ScopeArg V)
      → Outcome (List ℕ)
  unfolding process_args process_arg extend_format
  make_scope_message vformat format args =
      let m = process_args (length args) args (record {
        effective_format = format;
        num_fields = length args;
        num_data_args = 0;
        store = [];
      }) in
      vformat m.effective_format m.store

  -- While there are as many fields to come as arguments, these are only stored.
  process_args-stores :
      (size : ℕ) (args : List (ScopeArg V)) (m : Message V)
      → m.num_data_args + length args ≡ m.num_fields
      → m.num_fields < 2 ^ 64
      → ((process_args size args m).effective_format ≡ m.effective_format)
        × ((process_args size args m).store ≡ m.store ++ args)
  unfolding process_args process_arg
  process_args-stores size [] m fits small = (refl, sym (append-nil m.store))
  process_args-stores size (arg ∷ args) m fits small =
      let m' : Message V = record m {
        store = m.store ++ (arg ∷ []);
        num_data_args = (m.num_data_args + 1) % 2 ^ 64;
      } in
      let stored : process_arg size arg m ≡ m' = ground arith in
      let rest = process_args-stores size args m' (omega arith) small in
      rw (stored, process_args) (rest.0, rest.1 ∙ append_assoc m.store (arg ∷ []) args)

  -- The message of a scope is its first text, formatted with all the other arguments: an argument
  -- that is a text is never taken as a further part of the format, since there are as many fields
  -- as arguments from the start.
  pub make_scope_message_lem :
      (vformat : List ℕ → List (ScopeArg V) → Outcome (List ℕ)) (format : List ℕ)
      (args : List (ScopeArg V))
      → length args < 2 ^ 64
      → make_scope_message vformat format args ≡ vformat format args
  unfolding make_scope_message
  make_scope_message_lem vformat format args small =
      let (same, stored) =
        process_args-stores (length args) args
          (record {
            effective_format = format;
            num_fields = length args;
            num_data_args = 0;
            store = [];
          })
          (omega arith) small in
      rw (same, stored) refl
