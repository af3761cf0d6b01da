-- ===== src/Logs/Outcomes.antt =====
-- src/grpc_helper/logs/logs_manager.py: what `set` and `reset` leave of the loggers and of the file.
use grpc_helper.Base.{
  String, Bool, true, false, Option, none, some, List, [], ◌∷◌, first_some, is_some, Option-cases,
  map_option, if◌then◌else◌, ◌==◌, arith, ◌≡◌, Bool-cases, inl, inr,
}
use grpc_helper.Base.{string_eq}
use grpc_helper.Base.Dict.{Dict, lookup, insert, erase, has, lookup-insert, lookup-erase}
use grpc_helper.Disk.{Json}
use grpc_helper.Errors.{ok, Result-cases}
use grpc_helper.Logs.{
  Logging, LoggerConfig, Loggers, Progress, persisted_name, configured, persisted_level, advance,
  set_loop,
}

module _ (L : Logging) where
  -- The last of the configurations for a logger, by its persisted name.
  abbrev pub wanted : String → List LoggerConfig → Option LoggerConfig
  wanted name [] = none
  wanted name (c ∷ rest) =
      first_some (wanted name rest) (if name == persisted_name L c.name then some c else none)

  -- The loggers after a loop: those that are configured, by the last of the configurations.
  abbrev pub IsConfigured : List LoggerConfig → Loggers → Loggers → Type 0
  IsConfigured configs before after =
      (name : String)
      → lookup name after
        ≡ first_some (map_option (configured L) (wanted name configs)) (lookup name before)

  pub set_loop-IsConfigured :
      (persist : Bool) (configs : List LoggerConfig) (p q : Progress) (loggers : Loggers)
      → set_loop L persist configs p ≡ (ok q, loggers)
      → IsConfigured configs p.loggers q.loggers × (loggers ≡ q.loggers)
  unfolding set_loop advance
  set_loop-IsConfigured persist [] p q loggers returned = (λ name. cc, cc)
  set_loop-IsConfigured true (c ∷ rest) p q loggers returned =
      elim (Result-cases (persisted_level L (configured L c))) [
        | inl (e, unnamed) ↦ absurd (ground (arith, unnamed))
        | inr (level, named) ↦
            let next = advance L c (insert (persisted_name L c.name) level p.config) true p in
            let (all, same) =
              set_loop-IsConfigured true rest next q loggers (ground (arith, named)) in
            (
              λ name. ground (
                arith,
                all name,
                lookup-insert name (persisted_name L c.name) (configured L c) p.loggers,
              ),
              same,
            )
      ]
  set_loop-IsConfigured false (c ∷ rest) p q loggers returned =
      let removed = advance L c (erase (persisted_name L c.name) p.config) true p in
      let unchanged = advance L c p.config p.config_updated p in
      elim (Bool-cases (has (persisted_name L c.name) p.config)) [
        | inl there ↦
            let (all, same) =
              set_loop-IsConfigured false rest removed q loggers (ground (arith, there)) in
            (
              λ name. ground (
                arith,
                all name,
                lookup-insert name (persisted_name L c.name) (configured L c) p.loggers,
              ),
              same,
            )
        | inr missing ↦
            let (all, same) =
              set_loop-IsConfigured false rest unchanged q loggers (ground (arith, missing)) in
            (
              λ name. ground (
                arith,
                all name,
                lookup-insert name (persisted_name L c.name) (configured L c) p.loggers,
              ),
              same,
            )
      ]

  -- The entries of the file after `set`: those of the configured loggers tell what was configured.
  abbrev pub IsWritten : List LoggerConfig → Dict String Json → Dict String Json → Type 0
  IsWritten configs before after =
      (name : String)
      → (wanted name configs ≡ none → lookup name after ≡ lookup name before)
        × ((c : LoggerConfig)
            → wanted name configs ≡ some c
            → (level : Json) × (persisted_level L (configured L c) ≡ ok level)
              × (lookup name after ≡ some level))

  pub set_loop-IsWritten :
      (configs : List LoggerConfig) (p q : Progress) (loggers : Loggers)
      → set_loop L true configs p ≡ (ok q, loggers)
      → IsWritten configs p.config q.config
  unfolding set_loop advance
  set_loop-IsWritten [] p q loggers returned = λ name. (λ h. cc, λ c h. cc)
  set_loop-IsWritten (c ∷ rest) p q loggers returned =
      elim (Result-cases (persisted_level L (configured L c))) [
        | inl (e, unnamed) ↦ absurd (ground (arith, unnamed))
        | inr (level, named) ↦
            let next = advance L c (insert (persisted_name L c.name) level p.config) true p in
            let all = set_loop-IsWritten rest next q loggers (ground (arith, named)) in
            λ name. (
              λ h. ground (
                arith,
                (all name).0,
                lookup-insert name (persisted_name L c.name) level p.config,
              ),
              λ d h. elim (Option-cases (wanted name rest)) [
                | inr (later, found) ↦ (all name).1 d (ground (arith, found))
                | inl last ↦ (
                  level,
                  ground (arith, last, named),
                  ground (
                    arith,
                    last,
                    (all name).0 last,
                    lookup-insert name (persisted_name L c.name) level p.config,
                  ),
                )
              ],
            )
      ]

  -- The entries of the file after `reset`: those of the configured loggers are gone.
  abbrev pub IsErased : List LoggerConfig → Dict String Json → Dict String Json → Type 0
  IsErased configs before after =
      (name : String)
      → lookup name after ≡ (if is_some (wanted name configs) then none else lookup name before)

  pub set_loop-IsErased :
      (configs : List LoggerConfig) (p q : Progress) (loggers : Loggers)
      → set_loop L false configs p ≡ (ok q, loggers)
      → IsErased configs p.config q.config
  unfolding set_loop advance
  set_loop-IsErased [] p q loggers returned = λ name. cc
  set_loop-IsErased (c ∷ rest) p q loggers returned =
      let removed = advance L c (erase (persisted_name L c.name) p.config) true p in
      let unchanged = advance L c p.config p.config_updated p in
      elim (Bool-cases (has (persisted_name L c.name) p.config)) [
        | inl there ↦
            let all = set_loop-IsErased rest removed q loggers (ground (arith, there)) in
            λ name. ground (arith, all name, lookup-erase name (persisted_name L c.name) p.config)
        | inr missing ↦
            let all = set_loop-IsErased rest unchanged q loggers (ground (arith, missing)) in
            λ name. ground (arith, all name, missing)
      ]
