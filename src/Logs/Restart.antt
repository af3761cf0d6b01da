-- ===== src/Logs/Restart.antt =====
-- src/grpc_helper/logs/logs_manager.py: what `_load` of the next server finds of what `set` has left.
use grpc_helper.Base.{
  ℕ, String, true, false, not, Option, none, some, List, [], ◌∷◌, any, value_or, if◌then◌else◌,
  ◌==◌, arith, ◌≡◌, refl, ap, sym, subst, ◌∙◌, Option-cases, Bool-cases, inl, inr,
}
use grpc_helper.Base.{string_eq}
use grpc_helper.Base.Dict.{
  Dict, lookup, insert, update, lookup-insert, lookup-update, insert-NodupKeys,
}
use grpc_helper.Disk.{Json, text, boolean}
use grpc_helper.Errors.{ok, ok_injective}
use grpc_helper.Logs.{
  Logging, Logger, LoggerConfig, Loggers, LogsManager, persisted_name, get_logger, load_level,
  load_all, load, load_levels, configured, persisted_level, set,
}
use grpc_helper.Logs.Outcomes.{wanted}
use grpc_helper.Logs.Files.{IsPlain, any_alias-insert, persisted_name-again, set-IsApplied}

module _ (L : Logging) where
  -- A logger with the level of a file's entry, of a logger that may be as a new one.
  abbrev loaded : Json → Option Logger → Option Logger
  loaded (boolean b) old =
      some (record (value_or (record { level = L.new_level; disabled = false }) old) {
        disabled = not b;
      })
  loaded (text t) old = elim (L.level_value t) [
    | none ↦ old
    | some level ↦
        some (record (value_or (record { level = L.new_level; disabled = false }) old) {
          level = level;
        })
  ]
  loaded _ old = old

  abbrev loaded_entry : Option Json → Option Logger → Option Logger
  loaded_entry none old = old
  loaded_entry (some level) old = loaded level old

  lookup-load_level :
      (key name : String) (level : Json) (loggers : Loggers)
      → persisted_name L name ≡ name
      → lookup key (load_level L name level loggers)
        ≡ (if key == name then loaded level (lookup name loggers) else lookup key loggers)
  unfolding load_level get_logger
  lookup-load_level key name (boolean b) loggers known =
      let old = record (get_logger L name loggers) { disabled = not b } in
      ground (arith, known, lookup-insert key name old loggers)
  lookup-load_level key name (text t) loggers known = elim (Option-cases (L.level_value t)) [
    | inl unknown ↦ ground (arith, unknown)
    | inr (level, found) ↦
        let old = record (get_logger L name loggers) { level = level } in
        ground (arith, known, found, lookup-insert key name old loggers)
  ]
  lookup-load_level key name _ loggers known = ground arith

  lookup-load_all :
      (key : String) (levels : Dict String Json) (loggers : Loggers)
      → IsPlain L levels
      → lookup key (load_all L levels loggers)
        ≡ loaded_entry (lookup key levels) (lookup key loggers)
  unfolding load_all lookup
  lookup-load_all key [] loggers plain = refl
  lookup-load_all key ((name, level) ∷ rest) loggers ((fresh, once), known) =
      let name_known : persisted_name L name ≡ name = ground (arith, known) in
      let first = lookup-load_level key name level loggers name_known in
      ground (
        arith,
        fresh,
        first,
        lookup-load_all key rest (load_level L name level loggers) (once, ground (arith, known)),
      )

  update-IsPlain :
      (levels new : Dict String Json)
      → IsPlain L levels
      → any (λ (key, v). not (persisted_name L key == key)) new ≡ false
      → IsPlain L (update levels new)
  unfolding update
  update-IsPlain levels [] plain none_new = plain
  update-IsPlain levels ((name, level) ∷ new) (once, known) none_new =
      update-IsPlain (insert name level levels) new
        (
          insert-NodupKeys name level levels once,
          any_alias-insert L name level levels (ground (arith, none_new)) known,
        )
        (ground (arith, none_new))

  -- What a logger that was set is in the next server: it has its level, or is disabled; the other of
  -- both is as it was in that server before.
  abbrev restored : LoggerConfig → Logger → Logger
  restored c old =
      if c.enabled then record old { level = c.level } else record old { disabled = true }

  abbrev pub IsRestored : List LoggerConfig → LogsManager → LogsManager → Type 0
  IsRestored configs started loaded_manager =
      (key : String) (c : LoggerConfig)
      → wanted L key configs ≡ some c
      → lookup key loaded_manager.loggers ≡ some (restored c (get_logger L key started.loggers))

  wanted-known :
      (key : String) (configs : List LoggerConfig) (c : LoggerConfig)
      → wanted L key configs ≡ some c
      → persisted_name L key ≡ key
  wanted-known key [] c found = cc
  wanted-known key (first ∷ rest) c found = elim (Option-cases (wanted L key rest)) [
    | inr (later, there) ↦ wanted-known key rest later there
    | inl missing ↦ ground (arith, missing, persisted_name-again L first.name)
  ]

  get_logger-known :
      (key : String) (loggers : Loggers)
      → persisted_name L key ≡ key
      → value_or (record { level = L.new_level; disabled = false }) (lookup key loggers)
        ≡ get_logger L key loggers
  unfolding get_logger
  get_logger-known key loggers known = rw known refl

  -- The entry of a logger that was set, as it is loaded.
  persisted_level-loaded :
      (c : LoggerConfig) (level : Json) (old : Option Logger)
      → ((n : ℕ) (name : String) → L.level_name n ≡ some name → L.level_value name ≡ some n)
      → persisted_level L (configured L c) ≡ ok level
      → loaded level old
        ≡ some (restored c (value_or (record { level = L.new_level; disabled = false }) old))
  unfolding persisted_level configured
  persisted_level-loaded c level old inverse named =
      let result =
        some (restored c (value_or (record { level = L.new_level; disabled = false }) old)) in
      elim (Bool-cases c.enabled) [
        | inr off ↦
            let written : boolean false ≡ level = ground (arith, off) in
            subst (λ (j : Json). loaded j old ≡ result) written (ground (arith, off))
        | inl on ↦ elim (Option-cases (L.level_name c.level)) [
          | inl unnamed ↦ absurd (ground (arith, on, unnamed))
          | inr (name, found) ↦
              let written : text name ≡ level = ground (arith, on, found) in
              subst (λ (j : Json). loaded j old ≡ result) written
                (ground (arith, on, inverse c.level name found))
        ]
      ]

  load-merged :
      (m : LogsManager) (system user workspace : Dict String Json)
      → load_levels m.folders.system m.disk ≡ ok system
      → load_levels m.folders.user m.disk ≡ ok user
      → load_levels m.folders.workspace m.disk ≡ ok workspace
      → load L m
        ≡ ok (record m {
          loggers = load_all L (update (update (update [] system) user) workspace) m.loggers;
        })
  unfolding load
  load-merged m system user workspace read_system read_user read_workspace =
      rw (read_system, read_user, read_workspace) refl

  -- A request to set loggers has returned, and another server starts in the same workspace, with
  -- whatever loggers, and finds files that can be read, each naming loggers once and as the registry
  -- does. Then it loads, and each logger that was set has its level if it was enabled, and else is
  -- disabled. The level that a disabled logger was given is not restored.
  pub load-set :
      (folder : String) (configs : List LoggerConfig) (m n started : LogsManager)
      (items : List LoggerConfig) (before system user : Dict String Json)
      → ((l : ℕ) (name : String) → L.level_name l ≡ some name → L.level_value name ≡ some l)
      → m.folders.workspace ≡ some folder
      → set L configs m ≡ (ok items, n)
      → started.folders.workspace ≡ some folder
      → started.disk ≡ n.disk
      → load_levels (some folder) m.disk ≡ ok before
      → load_levels started.folders.system n.disk ≡ ok system
      → load_levels started.folders.user n.disk ≡ ok user
      → IsPlain L before
      → IsPlain L system
      → IsPlain L user
      → (t : LogsManager) × (load L started ≡ ok t) × IsRestored configs started t
  load-set folder configs m n started items before system user inverse at_home returned there same
        read_before read_system read_user plain plain_system plain_user =
      let applied = set-IsApplied L folder configs m n items at_home returned in
      let plain_after =
        applied.plain
          (subst (IsPlain L) (ok_injective (sym read_before ∙ applied.read_before)) plain) in
      let layers = update (update [] system) user in
      let layers_plain =
        update-IsPlain layers applied.after
          (update-IsPlain (update [] system) user
            (update-IsPlain [] system (tt, refl) plain_system.1) plain_user.1)
          plain_after.1 in
      (
        _,
        load-merged started system user applied.after (rw same read_system) (rw same read_user)
            (rw (there, same) applied.read_after),
        λ key c found.
            let (level, named, written) = (applied.written key).1 c found in
            let wins = lookup-update key layers applied.after plain_after.0 in
            let entry : lookup key (update layers applied.after) ≡ some level =
              rw (wins, written) refl in
            let here =
              lookup-load_all key (update layers applied.after) started.loggers layers_plain in
            let back = persisted_level-loaded c level (lookup key started.loggers) inverse named in
            let old = get_logger-known key started.loggers (wanted-known key configs c found) in
            here
            ∙ ap (λ (e : Option Json). loaded_entry e (lookup key started.loggers)) entry
            ∙ back
            ∙ ap (λ (l : Logger). some (restored c l)) old,
      )
