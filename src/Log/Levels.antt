-- ===== src/Log/Levels.antt =====
-- What the set-up of the loggers leaves behind, of a spdlog that keeps to its documentation.
use libfatbat.Prelude.{
  ℕ, ◌≡◌, refl, ap, ◌∙◌, List, [], ◌∷◌, ◌++◌, Option, none, some, Option-cases, inl, inr, ltb,
  if◌then◌else◌, arith,
}
use mathlib.Core.List.{append-nil}
use libfatbat.Base64.{codes}
use libfatbat.Log.{
  Spdlog, Message, more_verbose, less_verbose, setting, default_pattern, create, init_pattern,
  override_level, or_else, or_default, init_from_env,
}

-- What the code relies on: a setter changes what it sets and nothing else that is observed here,
-- and a logger that was made is found by its name. `load_env_levels` may change any level.
pub record IsDocumented (S : Spdlog) : Type 0 where
  pub pattern : S.State → List ℕ
  pub logged : S.State → List Message
  pub get_level-set_level : (l : ℕ) (s : S.State) → S.get_level (S.set_level l s) ≡ l
  pub pattern-set_pattern : (p : List ℕ) (s : S.State) → pattern (S.set_pattern p s) ≡ p
  pub pattern-set_level : (l : ℕ) (s : S.State) → pattern (S.set_level l s) ≡ pattern s
  pub pattern-load_env_levels : (s : S.State) → pattern (S.load_env_levels s) ≡ pattern s
  pub pattern-log : (m : Message) (s : S.State) → pattern (S.log m s) ≡ pattern s
  pub logged-set_pattern : (p : List ℕ) (s : S.State) → logged (S.set_pattern p s) ≡ logged s
  pub logged-set_level : (l : ℕ) (s : S.State) → logged (S.set_level l s) ≡ logged s
  pub logged-load_env_levels : (s : S.State) → logged (S.load_env_levels s) ≡ logged s
  pub logged-log : (m : Message) (s : S.State) → logged (S.log m s) ≡ logged s ++ (m ∷ [])
  pub get-stderr_color_mt :
      (s : S.State) (name : List ℕ)
      → S.get (S.stderr_color_mt s name).1 name ≡ some (S.stderr_color_mt s name).0
  pub get-set_logger_level :
      (logger : S.Logger) (l : ℕ) (s : S.State) (name : List ℕ)
      → S.get (S.set_logger_level logger l s) name ≡ S.get s name

or_else_self : (o : Option (List ℕ)) → or_else o o ≡ o
or_else_self none = refl
or_else_self (some text) = refl

-- What is said of the level `wanted` in a build for `active`.
abbrev pub remark : ℕ → ℕ → List ℕ → List Message
remark active wanted text =
    if ltb wanted active
    then more_verbose text ∷ []
    else if ltb active wanted
    then less_verbose text ∷ []
    else []

module _ (S : Spdlog) (D : IsDocumented S) where
  open S use {State, Logger, get_level, load_env_levels, set_level, from_str}
  open D use {pattern, logged}

  -- A second call with the same name gives the same logger and changes nothing.
  pub create-create :
      (s : State) (name : List ℕ)
      → create S (create S s name).1 name ≡ ((create S s name).0, (create S s name).1)
  unfolding create
  create-create s name = elim (Option-cases (S.get s name)) [
    | inl e ↦
        let (logger, made) = S.stderr_color_mt s name in
        let kept =
          D.get-set_logger_level logger (get_level made) made name ∙ D.get-stderr_color_mt s name in
        rw (e, create) (rw (kept, create, e) refl)
    | inr (logger, e) ↦ rw (e, create) (rw (e, create) (rw (e, create) refl))
  ]

  init_pattern_lem :
      (getenv : List ℕ → Option (List ℕ)) (s : State)
      → (pattern (init_pattern S getenv s)
          ≡ or_default default_pattern (setting (getenv (codes "LIBFATBAT_PATTERN"))))
        × (logged (init_pattern S getenv s) ≡ logged s)
  unfolding init_pattern
  init_pattern_lem getenv s =
      let first = setting (getenv (codes "LIBFATBAT_PATTERN")) in
      (
        D.pattern-set_pattern (or_default default_pattern (or_else first first)) s
            ∙ ap (or_default default_pattern) (or_else_self first),
        D.logged-set_pattern (or_default default_pattern (or_else first first)) s,
      )

  override_level_lem :
      (active : ℕ) (level : List ℕ) (s : State)
      → (get_level (override_level S active level s) ≡ from_str level)
        × (pattern (override_level S active level s) ≡ pattern s)
        × (logged (override_level S active level s)
            ≡ logged s ++ remark active (from_str level) level)
  unfolding override_level
  override_level_lem active level s = grind (
    arith, D.get_level-set_level, D.pattern-set_level, D.pattern-log, D.logged-set_level,
    D.logged-log, append-nil,
  )

  -- Where LIBFATBAT_LOG_LEVEL is set and not empty, the global level after `init_from_env` is the
  -- one that it names, whatever the level of the build and `load_env_levels` say; one message is
  -- logged if that level differs from the one of the build, and it says in which direction; and
  -- the pattern is that of LIBFATBAT_PATTERN, or the default where this is unset or empty.
  pub get_level-init_from_env :
      (active : ℕ) (getenv : List ℕ → Option (List ℕ)) (s : State) (level : List ℕ)
      → setting (getenv (codes "LIBFATBAT_LOG_LEVEL")) ≡ some level
      → (get_level (init_from_env S active getenv s) ≡ from_str level)
        × (pattern (init_from_env S active getenv s)
            ≡ or_default default_pattern (setting (getenv (codes "LIBFATBAT_PATTERN"))))
        × (logged (init_from_env S active getenv s)
            ≡ logged s ++ remark active (from_str level) level)
  unfolding init_from_env
  get_level-init_from_env active getenv s level e =
      let start = init_pattern S getenv s in
      let loaded = load_env_levels (set_level active start) in
      let (levelled, patterned, told) = override_level_lem active level loaded in
      let (started, quiet) = init_pattern_lem getenv s in
      rw (e, init_from_env)
        (
          levelled,
          patterned ∙ (D.pattern-load_env_levels _ ∙ (D.pattern-set_level active start ∙ started)),
          told
              ∙ ap (λ t. t ++ remark active (from_str level) level)
                  (D.logged-load_env_levels _ ∙ (D.logged-set_level active start ∙ quiet)),
        )
