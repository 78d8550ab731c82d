-- ===== src/Log.antt =====
-- include/libfatbat/logging.hpp, in a build with LIBFATBAT_LOGGING_ENABLED: the set-up of the
-- loggers. spdlog, the library that does the logging, is a parameter.
pub mod Scope
pub mod Dump
pub mod Levels
mod Tests
use libfatbat.Prelude.{ℕ, List, [], ◌∷◌, Bool, Option, none, some, ltb, if◌then◌else◌}
use libfatbat.Base64.{codes}

-- The messages of `init_from_env`, with the level that was asked for.
pub data Message : Type 0 where
  more_verbose less_verbose : List ℕ → Message

-- A level is a number, and a higher one lets less through.
pub record Spdlog : Type 1 where
  pub State : Type 0
  pub Logger : Type 0
  pub set_pattern : List ℕ → State → State
  pub set_level : ℕ → State → State
  pub get_level : State → ℕ
  pub load_env_levels : State → State
  pub log : Message → State → State
  pub from_str : List ℕ → ℕ
  pub get : State → List ℕ → Option Logger
  pub stderr_color_mt : State → List ℕ → Logger × State
  pub set_logger_level : Logger → ℕ → State → State

-- `value && value[0] != '\0'`, for the result of a `std::getenv`.
abbrev pub setting : Option (List ℕ) → Option (List ℕ)
setting none = none
setting (some []) = none
setting (some (c ∷ cs)) = some (c ∷ cs)

abbrev pub or_else : Option (List ℕ) → Option (List ℕ) → Option (List ℕ)
or_else none other = other
or_else (some text) other = some text

abbrev pub or_default : List ℕ → Option (List ℕ) → List ℕ
or_default d none = d
or_default d (some text) = text

abbrev pub default_pattern : List ℕ
default_pattern = codes "[%^%-8l%$] %t |%=10!n| %v"

module _ (S : Spdlog) where
  open S use {
    State, Logger, set_pattern, set_level, get_level, load_env_levels, log, from_str, get,
    stderr_color_mt, set_logger_level,
  }

  -- `log::create`: the logger that has the name, or a new one at the global level.
  unfoldable pub create : State → List ℕ → Logger × State
  create s name = elim (get s name) [
    | some logger ↦ (logger, s)
    | none ↦
        let (logger, s') = stderr_color_mt s name in
        (logger, set_logger_level logger (get_level s') s')
  ]

  -- The pattern; a variable that is unset or empty is looked up once more.
  unfoldable pub init_pattern : (List ℕ → Option (List ℕ)) → State → State
  init_pattern getenv s =
      let first = setting (getenv (codes "LIBFATBAT_PATTERN")) in
      let pattern = or_else first (setting (getenv (codes "LIBFATBAT_PATTERN"))) in
      set_pattern (or_default default_pattern pattern) s

  -- The level that LIBFATBAT_LOG_LEVEL asks for, with the message where it is not the one of the
  -- build.
  unfoldable pub override_level : ℕ → List ℕ → State → State
  override_level active level s =
      let warned = if ltb (from_str level) active then log (more_verbose level) s else s in
      let told = if ltb active (from_str level) then log (less_verbose level) warned else warned in
      set_level (from_str level) told

  -- `active` is SPDLOG_ACTIVE_LEVEL.
  unfoldable pub init_from_env : ℕ → (List ℕ → Option (List ℕ)) → State → State
  init_from_env active getenv s =
      let loaded = load_env_levels (set_level active (init_pattern getenv s)) in
      elim (setting (getenv (codes "LIBFATBAT_LOG_LEVEL"))) [
        | some level ↦ override_level active level loaded
        | none ↦ loaded
      ]
