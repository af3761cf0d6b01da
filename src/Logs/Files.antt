-- ===== src/Logs/Files.antt =====
-- src/grpc_helper/logs/logs_manager.py: `set` and `reset` as wholes, with the file that they write.
use grpc_helper.Base.{
  String, Bool, true, false, not, ◌||◌, Option, some, List, [], ◌∷◌, any, is_empty, arith, ◌≡◌,
  refl, ap, sym, subst, Option-cases, Bool-cases, inl, inr, ◌==◌,
}
use grpc_helper.Base.{string_eq}
use grpc_helper.Base.Dict.{Dict, insert, erase, NodupKeys, insert-NodupKeys}
use grpc_helper.Disk.{Json, object, member_end, Disk, load_config, save_config, of_members}
use grpc_helper.Disk.Laws.{load_config-save_config, load_config-validated, members_of-of_members}
use grpc_helper.Errors.{Result, ok, ok_injective, bind-eq-ok, Result-cases}
use grpc_helper.Logs.{
  Logging, Logger, LoggerConfig, Loggers, LogsManager, Progress, persisted_name, configured,
  persisted_level, advance, set_loop, is_level, levels_of, load_levels, validate_loggers,
  loggers_file, generic_set, set,
}
use grpc_helper.Logs.Outcomes.{IsConfigured, IsWritten, set_loop-IsConfigured, set_loop-IsWritten}

-- A dict in which some value is neither a text nor a truth value.
abbrev pub has_other : Dict String Json → Bool
has_other d = any (λ (key, v). not (is_level v)) d

has_other-insert :
    (k : String) (v : Json) (d : Dict String Json)
    → is_level v ≡ true
    → has_other d ≡ false
    → has_other (insert k v d) ≡ false
unfolding insert
has_other-insert k v [] level fine = ground arith
has_other-insert k v ((j, w) ∷ d) level fine = ground (arith, has_other-insert k v d)

pub has_other-erase :
    (k : String) (d : Dict String Json) → has_other d ≡ false → has_other (erase k d) ≡ false
unfolding erase
has_other-erase k [] fine = fine
has_other-erase k ((j, w) ∷ d) fine = ground (arith, has_other-erase k d)

-- The file holds the levels that were saved last.
pub load_levels-save_config :
    (folder : String) (config : Dict String Json) (disk : Disk)
    → has_other config ≡ false
    → load_levels
        (some folder)
        (save_config loggers_file (some folder) (object (of_members config)) disk)
      ≡ ok config
unfolding load_levels validate_loggers levels_of
load_levels-save_config folder config disk fine =
    rw (load_config-save_config, members_of-of_members, fine) (ap ok (members_of-of_members config))

has_other_empty : has_other (levels_of (object member_end)) ≡ false
unfolding levels_of
has_other_empty = refl

validate_loggers-has_other :
    (model : Json) → validate_loggers model ≡ ok tt → has_other (levels_of model) ≡ false
unfolding validate_loggers levels_of
validate_loggers-has_other (object members) valid = ground arith
validate_loggers-has_other _ valid = refl

pub load_levels-has_other :
    (folder : Option String) (disk : Disk) (config : Dict String Json)
    → load_levels folder disk ≡ ok config
    → has_other config ≡ false
unfolding load_levels
load_levels-has_other folder disk config loaded =
    let (model, read, levels) =
      bind-eq-ok (load_config (some loggers_file) (some validate_loggers) folder disk)
        (λ model. ok (levels_of model)) loaded in
    subst (λ (d : Dict String Json). has_other d ≡ false) (ok_injective levels)
      (elim (load_config-validated (some loggers_file) validate_loggers folder disk model read) [
        | inl empty ↦ rw empty has_other_empty
        | inr valid ↦ validate_loggers-has_other model valid
      ])

module _ (L : Logging) where
  persisted_level-is_level :
      (logger : Logger) (level : Json) → persisted_level L logger ≡ ok level → is_level level ≡ true
  unfolding persisted_level is_level
  persisted_level-is_level logger level h = elim (Bool-cases logger.disabled) [
    | inl off ↦ ground (arith, off)
    | inr on ↦ elim (Option-cases (L.level_name logger.level)) [
      | inl unnamed ↦ absurd (ground (arith, on, unnamed))
      | inr (name, named) ↦ ground (arith, on, named)
    ]
  ]

  set_loop-has_other :
      (configs : List LoggerConfig) (p q : Progress) (loggers : Loggers)
      → set_loop L true configs p ≡ (ok q, loggers)
      → has_other p.config ≡ false
      → (has_other q.config ≡ false)
        × ((p.config_updated || not (is_empty configs)) ≡ true → q.config_updated ≡ true)
  unfolding set_loop advance
  set_loop-has_other [] p q loggers returned fine = (ground arith, ground arith)
  set_loop-has_other (c ∷ rest) p q loggers returned fine =
      elim (Result-cases (persisted_level L (configured L c))) [
        | inl (e, unnamed) ↦ absurd (ground (arith, unnamed))
        | inr (level, named) ↦
            let next = advance L c (insert (persisted_name L c.name) level p.config) true p in
            let (still, updated) = set_loop-has_other rest next q loggers (ground (arith, named)) (
              has_other-insert (persisted_name L c.name) level p.config
                (persisted_level-is_level (configured L c) level named) fine) in
            (still, λ h. updated refl)
      ]

  -- Each name is there once, and is the one by which the registry knows its logger.
  abbrev pub IsPlain : Dict String Json → Type 0
  IsPlain d = NodupKeys d × (any (λ (key, v). not (persisted_name L key == key)) d ≡ false)

  pub persisted_name-again :
      (name : String) → persisted_name L (persisted_name L name) ≡ persisted_name L name
  unfolding persisted_name
  persisted_name-again name = ground arith

  pub any_alias-insert :
      (name : String) (v : Json) (d : Dict String Json)
      → persisted_name L name ≡ name
      → any (λ (key, v). not (persisted_name L key == key)) d ≡ false
      → any (λ (key, v). not (persisted_name L key == key)) (insert name v d) ≡ false
  unfolding insert
  any_alias-insert name v [] known none_before = ground (arith, known)
  any_alias-insert name v (_ ∷ d) known none_before =
      ground (arith, known, any_alias-insert name v d known)

  set_loop-IsPlain :
      (configs : List LoggerConfig) (p q : Progress) (loggers : Loggers)
      → set_loop L true configs p ≡ (ok q, loggers)
      → IsPlain p.config
      → IsPlain q.config
  unfolding set_loop advance
  set_loop-IsPlain [] p q loggers returned (once, known) =
      let same : p.config ≡ q.config = ground arith in subst IsPlain same (once, known)
  set_loop-IsPlain (c ∷ rest) p q loggers returned (once, known) =
      elim (Result-cases (persisted_level L (configured L c))) [
        | inl (e, unnamed) ↦ absurd (ground (arith, unnamed))
        | inr (level, named) ↦
            let name = persisted_name L c.name in
            set_loop-IsPlain rest (advance L c (insert name level p.config) true p) q loggers
              (ground (arith, named))
              (
                insert-NodupKeys name level p.config once,
                any_alias-insert name level p.config (persisted_name-again c.name) known,
              )
      ]

  -- What `set` leaves: the loggers and the file are as the last configuration of each logger says,
  -- and a logger that is not named keeps its state and its entry.
  pub record IsApplied (folder : String) (configs : List LoggerConfig) (m n : LogsManager)
      : Type 0 where
    pub before : Dict String Json
    pub after : Dict String Json
    pub read_before : load_levels (some folder) m.disk ≡ ok before
    pub read_after : load_levels (some folder) n.disk ≡ ok after
    pub loggers : IsConfigured L configs m.loggers n.loggers
    pub written : IsWritten L configs before after
    pub plain : IsPlain before → IsPlain after

  unfoldable pub begin : LogsManager → Dict String Json → Progress
  begin m config = record {
    loggers = m.loggers;
    config = config;
    config_updated = false;
    items = [];
  }

  -- In a manager with a workspace, a request to set loggers that returned leaves each named logger,
  -- and its entry in the file, as the last of its configurations says, and every other logger and
  -- entry as it was; and the file that it leaves is one that can be loaded.
  pub set-IsApplied :
      (folder : String) (configs : List LoggerConfig) (m n : LogsManager)
      (items : List LoggerConfig)
      → m.folders.workspace ≡ some folder
      → set L configs m ≡ (ok items, n)
      → IsApplied folder configs m n
  unfolding set generic_set begin
  set-IsApplied folder [] m n items here returned = absurd (ground arith)
  set-IsApplied folder (c ∷ rest) m n items here returned =
      elim (Result-cases (load_levels m.folders.workspace m.disk)) [
        | inl (e, wrong) ↦ absurd (ground (arith, wrong))
        | inr (before, loaded) ↦
            elim (Result-cases (set_loop L true (c ∷ rest) (begin m before)).0) [
              | inl (e, wrong) ↦ absurd (ground (arith, loaded, wrong))
              | inr (q, went) ↦
                  let looped = set_loop L true (c ∷ rest) (begin m before) in
                  let both : looped ≡ (ok q, looped.1) =
                    ap (λ (r : Result Progress). (r, looped.1)) went in
                  let (configured_all, same) =
                    set_loop-IsConfigured L true (c ∷ rest) (begin m before) q looped.1 both in
                  let (fine, updated) =
                    set_loop-has_other (c ∷ rest) (begin m before) q looped.1 both
                      (load_levels-has_other m.folders.workspace m.disk before loaded) in
                  let kept : n.loggers ≡ q.loggers = ground (arith, loaded, went, same) in
                  let saved : n.disk
                      ≡ save_config loggers_file m.folders.workspace (object (of_members q.config))
                          m.disk =
                    ground (arith, loaded, went, updated) in
                  record {
                    before = before;
                    after = q.config;
                    read_before = rw (sym here) loaded;
                    read_after =
                        rw (saved, here) (load_levels-save_config folder q.config m.disk fine);
                    loggers = rw kept configured_all;
                    written = set_loop-IsWritten L (c ∷ rest) (begin m before) q looped.1 both;
                    plain = set_loop-IsPlain (c ∷ rest) (begin m before) q looped.1 both;
                  }
            ]
      ]
