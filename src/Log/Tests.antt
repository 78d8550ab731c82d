-- ===== src/Log/Tests.antt =====
-- Runs of the loggers: a spdlog that keeps its loggers in a list, an fmt that joins the arguments,
-- and a dump of ten bytes.
use mathlib.Core.Option
use libfatbat.Prelude.{
  ℕ, ◌+◌, ◌*◌, ◌≡◌, refl, List, [], ◌∷◌, ◌++◌, Option, none, some, length, min, ◌≤◌, ◌<◌, arith,
  if◌then◌else◌, true, false,
}
use libfatbat.Base64.{codes}
use libfatbat.Outcome.{Outcome, returns}
use libfatbat.Settings.{text_eq}
use libfatbat.Log.{Spdlog, Message, more_verbose, default_pattern, init_from_env}
use libfatbat.Log.Levels.{IsDocumented, get_level-init_from_env}
use libfatbat.Log.Scope.{ScopeArg, fragment, value, make_scope_message, make_scope_message_lem}
use libfatbat.Log.Scope.Nesting.{Logger, enter, scoped_var}
use libfatbat.Log.Dump.{header, word, newline, mem_crc32, little_endian, num_chunks, format}
use libfatbat.Log.Dump.Bytes.{unpack, padded, format-unpack}

-- spdlog, as far as it is observed: the pattern, the level, the messages, and the names of the
-- loggers, each of which is its own logger.
record Plain : Type 0 where
  plain_pattern : List ℕ
  plain_level : ℕ
  messages : List Message
  loggers : List (List ℕ)

known : List ℕ → List (List ℕ) → Option (List ℕ)
known name [] = none
known name (n ∷ rest) = if text_eq name n then some name else known name rest

abbrev level_number : List ℕ → ℕ
level_number text = if text_eq text (codes "trace") then 0 else 6

abbrev plain : Spdlog
plain = record {
  State = Plain;
  Logger = List ℕ;
  set_pattern = λ p s. record s { plain_pattern = p };
  set_level = λ l s. record s { plain_level = l };
  get_level = λ s. s.plain_level;
  load_env_levels = λ s. s;
  log = λ m s. record s { messages = s.messages ++ (m ∷ []) };
  from_str = level_number;
  get = λ s name. known name s.loggers;
  stderr_color_mt = λ s name. (name, record s { loggers = name ∷ s.loggers });
  set_logger_level = λ logger l s. s;
}

text_eq_self : (xs : List ℕ) → text_eq xs xs ≡ true
text_eq_self [] = refl
text_eq_self (x ∷ xs) = ground (arith, text_eq_self xs)

known_self : (name : List ℕ) (names : List (List ℕ)) → known name (name ∷ names) ≡ some name
unfolding known
known_self name names = rw (text_eq_self name) refl

abbrev plain-IsDocumented : IsDocumented plain
plain-IsDocumented = record {
  pattern = λ s. s.plain_pattern;
  logged = λ s. s.messages;
  get_level-set_level = λ l s. refl;
  pattern-set_pattern = λ p s. refl;
  pattern-set_level = λ l s. refl;
  pattern-load_env_levels = λ s. refl;
  pattern-log = λ m s. refl;
  logged-set_pattern = λ p s. refl;
  logged-set_level = λ l s. refl;
  logged-load_env_levels = λ s. refl;
  logged-log = λ m s. refl;
  get-stderr_color_mt = λ s name. known_self name s.loggers;
  get-set_logger_level = λ logger l s name. refl;
}

-- LIBFATBAT_LOG_LEVEL=trace, and no pattern.
abbrev environment : List ℕ → Option (List ℕ)
environment name = if text_eq name (codes "LIBFATBAT_LOG_LEVEL") then some (codes "trace") else none

abbrev blank : Plain
blank = record { plain_pattern = []; plain_level = 2; messages = []; loggers = [] }

get_level-init_from_env_example :
    ((init_from_env plain 1 environment blank).plain_level ≡ 0)
    × ((init_from_env plain 1 environment blank).plain_pattern ≡ default_pattern)
    × ((init_from_env plain 1 environment blank).messages ≡ more_verbose (codes "trace") ∷ [])
get_level-init_from_env_example =
    get_level-init_from_env plain plain-IsDocumented 1 environment blank (codes "trace") refl

abbrev join : List ℕ → List (ScopeArg ℕ) → Outcome (List ℕ)
join format [] = returns format
join format (arg ∷ args) = join (format ++ codes ".") args

two_texts :
    make_scope_message join (codes "{}") (value 7 ∷ fragment (codes "rx") ∷ [])
    ≡ returns (codes "{}..")
unfolding make_scope_message
two_texts = refl

make_scope_message_lem_example :
    make_scope_message join (codes "{}") (value 7 ∷ fragment (codes "rx") ∷ [])
    ≡ join (codes "{}") (value 7 ∷ fragment (codes "rx") ∷ [])
make_scope_message_lem_example =
    make_scope_message_lem join (codes "{}") (value 7 ∷ fragment (codes "rx") ∷ []) (omega arith)

abbrev ten_bytes : List ℕ
ten_bytes = 1 ∷ 2 ∷ 3 ∷ 4 ∷ 5 ∷ 6 ∷ 7 ∷ 8 ∷ 9 ∷ 10 ∷ []

ten_bytes_printed :
    format length (mem_crc32 64 10 0) ten_bytes
    ≡ some (header 64 10 10 ∷ word 0x0807060504030201 ∷ newline ∷ word 0x0a09 ∷ newline ∷ [])
unfolding format mem_crc32 little_endian
ten_bytes_printed = refl

format-unpack_example :
    (Option.map unpack (format length (mem_crc32 64 10 1) ten_bytes)
      ≡ some (padded (num_chunks 10 * 8) ten_bytes))
    × (min 10 1024 ≤ num_chunks 10 * 8)
    × (num_chunks 10 * 8 < min 10 1024 + 8)
unfolding mem_crc32
format-unpack_example =
    format-unpack length (mem_crc32 64 10 1) ten_bytes refl (omega arith) (omega arith)

-- A part that turns tracing off: its scope is entered in the log, and not left.
abbrev silence : Logger → Outcome ℕ × Logger
silence log = (returns 3, record log { traces = false })

silenced :
    scoped_var (returns (codes "rx")) silence (record { traces = true; entries = [] })
    ≡ (returns 3, record { traces = false; entries = enter (codes "rx") ∷ [] })
unfolding scoped_var
silenced = refl
