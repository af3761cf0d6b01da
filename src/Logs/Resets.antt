-- ===== src/Logs/Resets.antt =====
-- src/grpc_helper/logs/logs_manager.py: `reset` as a whole, with the file that it leaves.
use grpc_helper.Base.{
  String, true, false, some, List, [], ◌∷◌, is_empty, arith, ◌≡◌, ap, sym, Bool-cases, inl, inr,
}
use grpc_helper.Base.{string_eq}
use grpc_helper.Base.Dict.{Dict, erase, has}
use grpc_helper.Disk.{Json, object, save_config, of_members}
use grpc_helper.Errors.{Result, ok, Result-cases}
use grpc_helper.Base.{if◌then◌else◌}
use grpc_helper.Logs.{
  Loggers, Logging, LoggerConfig, LogsManager, Progress, persisted_name, advance, set_loop,
  load_levels, loggers_file, generic_set, reset, reset_configs,
}
use grpc_helper.Logs.Outcomes.{IsConfigured, IsErased, set_loop-IsConfigured, set_loop-IsErased}
use grpc_helper.Logs.Files.{
  has_other, has_other-erase, load_levels-save_config, load_levels-has_other, begin,
}

module _ (L : Logging) where
  -- A loop that has marked nothing as updated has changed nothing of the file's entries.
  reset_loop-has_other :
      (configs : List LoggerConfig) (p q : Progress) (loggers : Loggers)
      → set_loop L false configs p ≡ (ok q, loggers)
      → has_other p.config ≡ false
      → (has_other q.config ≡ false)
        × (q.config_updated ≡ false → (q.config ≡ p.config) × (p.config_updated ≡ false))
  unfolding set_loop advance
  reset_loop-has_other [] p q loggers returned fine = (ground arith, ground arith)
  reset_loop-has_other (c ∷ rest) p q loggers returned fine =
      let removed = advance L c (erase (persisted_name L c.name) p.config) true p in
      let unchanged = advance L c p.config p.config_updated p in
      elim (Bool-cases (has (persisted_name L c.name) p.config)) [
        | inl there ↦
            let (still, kept) =
              reset_loop-has_other rest removed q loggers (ground (arith, there))
                (has_other-erase (persisted_name L c.name) p.config fine) in
            (still, λ h. absurd (ground (arith, kept h)))
        | inr missing ↦ reset_loop-has_other rest unchanged q loggers (ground (arith, missing)) fine
      ]

  -- What a reset leaves: the loggers are as their reset configurations say, and their entries are
  -- not in the file any more; every other logger and entry is as it was.
  pub record IsReset (folder : String) (configs : List LoggerConfig) (m n : LogsManager)
      : Type 0 where
    pub before : Dict String Json
    pub after : Dict String Json
    pub read_before : load_levels (some folder) m.disk ≡ ok before
    pub read_after : load_levels (some folder) n.disk ≡ ok after
    pub loggers : IsConfigured L configs m.loggers n.loggers
    pub erased : IsErased L configs before after

  saved_or_same :
      (folder : String) (before : Dict String Json) (m n : LogsManager) (q : Progress)
      → m.folders.workspace ≡ some folder
      → load_levels m.folders.workspace m.disk ≡ ok before
      → has_other q.config ≡ false
      → (q.config_updated ≡ false → q.config ≡ before)
      → n.disk ≡ (
          if q.config_updated
          then save_config loggers_file m.folders.workspace (object (of_members q.config)) m.disk
          else m.disk)
      → load_levels (some folder) n.disk ≡ ok q.config
  saved_or_same folder before m n q here loaded fine kept written =
      elim (Bool-cases q.config_updated) [
        | inl updated ↦
            rw (written, updated, here) (load_levels-save_config folder q.config m.disk fine)
        | inr same ↦ rw (written, same, kept same, sym here) loaded
      ]

  -- In a manager with a workspace, a request to reset loggers that returned has set each named
  -- logger to its reset level and enabled it, and taken its entry out of the file; every other
  -- logger and entry is as it was.
  pub reset-IsReset :
      (folder : String) (names : List String) (m n : LogsManager) (items : List LoggerConfig)
      → m.folders.workspace ≡ some folder
      → reset L names m ≡ (ok items, n)
      → IsReset folder (reset_configs L m.root_reset_level names) m n
  unfolding reset generic_set begin
  reset-IsReset folder names m n items here returned =
      let configs = reset_configs L m.root_reset_level names in
      elim (Result-cases (load_levels m.folders.workspace m.disk)) [
        | inl (e, wrong) ↦ absurd (ground (arith, wrong))
        | inr (before, loaded) ↦ elim (Bool-cases (is_empty configs)) [
          | inl nothing ↦ absurd (ground (arith, loaded, nothing))
          | inr something ↦ elim (Result-cases (set_loop L false configs (begin L m before)).0) [
            | inl (e, wrong) ↦ absurd (ground (arith, loaded, something, wrong))
            | inr (q, went) ↦
                let looped = set_loop L false configs (begin L m before) in
                let both : looped ≡ (ok q, looped.1) =
                  ap (λ (r : Result Progress). (r, looped.1)) went in
                let (all, same) =
                  set_loop-IsConfigured L false configs (begin L m before) q looped.1 both in
                let (fine, unmarked) =
                  reset_loop-has_other configs (begin L m before) q looped.1 both
                    (load_levels-has_other m.folders.workspace m.disk before loaded) in
                let kept : n.loggers ≡ q.loggers = ground (arith, loaded, something, went, same) in
                record {
                  before = before;
                  after = q.config;
                  read_before = rw (sym here) loaded;
                  read_after =
                      saved_or_same folder before m n q here loaded fine (λ h. (unmarked h).0)
                        (ground (arith, loaded, something, went));
                  loggers = rw kept all;
                  erased = set_loop-IsErased L configs (begin L m before) q looped.1 both;
                }
          ]
        ]
      ]
