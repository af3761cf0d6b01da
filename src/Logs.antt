-- ===== src/Logs.antt =====
-- src/grpc_helper/logs/logs_manager.py: `LogsManager`. The lock makes each request one step.
pub mod Outcomes
pub mod Files
pub mod Resets
pub mod Handlers
pub mod Restart
use grpc_helper.Base.{
  ℕ, String, ◌<>◌, Bool, true, false, not, ◌&&◌, Option, none, some, List, [], ◌∷◌, ◌++◌, any,
  is_empty, is_some, ◌||◌, value_or, if◌then◌else◌, ◌==◌,
}
use grpc_helper.Base.{string_eq}
use grpc_helper.Base.Dict.{Dict, lookup, insert, erase, has, update}
use grpc_helper.Disk.{
  Json, text, boolean, object, Disk, Folders, load_config, save_config, members_of, of_members,
}
use grpc_helper.Errors.{
  Result, ok, raised, rpc_exception, python_error, error_model_invalid, error_param_missing, ◌>>=◌,
}

-- A logger of Python's `logging`.
pub record Logger : Type 0 where
  pub level : ℕ
  pub disabled : Bool

-- The API's `LoggerConfig` message.
pub record LoggerConfig : Type 0 where
  pub name : String
  pub enabled : Bool
  pub level : ℕ

-- What the requests use of the API's levels and of `logging`: the name of a level without the prefix
-- `LVL_` and the level of such a name; the number of `LVL_UNKNOWN`; the level of a new logger;
-- and the names for which `getLogger` gives the root logger, besides the empty one.
pub record Logging : Type 0 where
  pub level_name : ℕ → Option String
  pub level_value : String → Option ℕ
  pub unknown_level : ℕ
  pub new_level : ℕ
  pub is_root : String → Bool
  pub root_name : String

-- The registry of loggers, each by its persisted name: that of the root logger is empty. A logger
-- that nobody has asked for yet is as a new one.
abbrev pub Loggers : Type 0
Loggers = Dict String Logger

abbrev pub loggers_file : String
loggers_file = "loggers.json"

pub record LogsManager : Type 0 where
  pub loggers : Loggers
  pub folders : Folders
  pub disk : Disk
  pub root_reset_level : ℕ

-- `__validate_config_file`
unfoldable pub is_level : Json → Bool
is_level (text t) = true
is_level (boolean b) = true
is_level _ = false

not_levels : Result (Unit {0})
not_levels = raised (
    rpc_exception "Invalid logger json file (expecting a simple str:[str or bool] object)"
      error_model_invalid)

unfoldable pub validate_loggers : Json → Result (Unit {0})
unfolding is_level not_levels
validate_loggers (object members) =
    if any (λ (key, v). not (is_level v)) (members_of members) then not_levels else ok tt
validate_loggers _ = not_levels

unfoldable pub levels_of : Json → Dict String Json
levels_of (object members) = members_of members
levels_of _ = []

unfoldable pub load_levels : Option String → Disk → Result (Dict String Json)
unfolding levels_of
load_levels folder disk = do
  model ← load_config (some loggers_file) (some validate_loggers) folder disk
  ok (levels_of model)

-- What the loop of `__generic_set` has come to.
pub record Progress : Type 0 where
  pub loggers : Loggers
  pub config : Dict String Json
  pub config_updated : Bool
  pub items : List LoggerConfig

module _ (L : Logging) where
  -- The registry's name of a logger, and the logger.
  unfoldable pub persisted_name : String → String
  persisted_name name = if name == "" || L.is_root name then "" else name

  unfoldable pub get_logger : String → Loggers → Logger
  get_logger name loggers =
      value_or (record { level = L.new_level; disabled = false })
        (lookup (persisted_name name) loggers)

  -- `_load` for one entry: a level that has no number is ignored.
  unfoldable pub load_level : String → Json → Loggers → Loggers
  unfolding get_logger
  load_level name (boolean b) loggers =
      insert (persisted_name name) (record (get_logger name loggers) { disabled = not b }) loggers
  load_level name (text t) loggers = elim (L.level_value t) [
    | none ↦ loggers
    | some level ↦
        insert (persisted_name name) (record (get_logger name loggers) { level = level }) loggers
  ]
  load_level name _ loggers = loggers

  unfoldable pub load_all : Dict String Json → Loggers → Loggers
  unfolding load_level
  load_all [] loggers = loggers
  load_all ((name, level) ∷ rest) loggers = load_all rest (load_level name level loggers)

  -- `_load`: layer per layer
  unfoldable pub load : LogsManager → Result LogsManager
  unfolding load_all load_levels
  load m = do
    system ← load_levels m.folders.system m.disk
    user ← load_levels m.folders.user m.disk
    workspace ← load_levels m.folders.workspace m.disk
    ok (record m {
      loggers = load_all (update (update (update [] system) user) workspace) m.loggers;
    })

  -- `__inner_level_to_api`
  unfoldable pub inner_level_to_api : ℕ → ℕ
  inner_level_to_api level = if is_some (L.level_name level) then level else L.unknown_level

  -- `__map_logger_config`
  unfoldable pub map_logger_config : String → Logger → LoggerConfig
  unfolding inner_level_to_api
  map_logger_config name logger = record {
    name = if persisted_name name == "" then L.root_name else name;
    enabled = not logger.disabled;
    level = inner_level_to_api logger.level;
  }

  -- `__map_loggers` of a filter: the reset configurations
  unfoldable pub reset_configs : ℕ → List String → List LoggerConfig
  reset_configs root_reset_level [] = []
  reset_configs root_reset_level (n ∷ names) =
      record {
        name = n;
        enabled = true;
        level = if n == "" then root_reset_level else L.unknown_level;
      }
      ∷ reset_configs root_reset_level names

  -- `get`
  unfoldable pub statuses : List String → Loggers → List LoggerConfig
  statuses [] loggers = []
  statuses (n ∷ names) loggers = map_logger_config n (get_logger n loggers) ∷ statuses names loggers

  unfoldable pub get : List String → LogsManager → Result (List LoggerConfig)
  unfolding statuses
  get names m =
      if is_empty names
      then raised (rpc_exception "Empty request" error_param_missing)
      else ok (statuses names m.loggers)

  -- The new state of a logger, and its entry in the file: `False`, or the name of its level. The
  -- `ValueError` of a level without a name comes after the logger has changed.
  unfoldable pub configured : LoggerConfig → Logger
  configured c = record { level = c.level; disabled = not c.enabled }

  unfoldable pub persisted_level : Logger → Result Json
  persisted_level logger =
      if logger.disabled then ok (boolean false) else elim (L.level_name logger.level) [
        | none ↦ raised (python_error "ValueError" "Enum LoggerLevel has no name defined for value")
        | some name ↦ ok (text name)
      ]

  -- A round of the loop: the logger is set, the file's entries are as given, and the logger's new
  -- configuration is part of the output.
  unfoldable pub advance : LoggerConfig → Dict String Json → Bool → Progress → Progress
  unfolding configured map_logger_config
  advance c config updated p = record {
    loggers = insert (persisted_name c.name) (configured c) p.loggers;
    config = config;
    config_updated = updated;
    items = p.items ++ (map_logger_config c.name (configured c) ∷ []);
  }

  -- The loop of `__generic_set`; where it raises, the loggers so far have changed.
  unfoldable pub set_loop : Bool → List LoggerConfig → Progress → Result Progress × Loggers
  unfolding advance persisted_level
  set_loop persist [] p = (ok p, p.loggers)
  set_loop true (c ∷ rest) p = elim (persisted_level (configured c)) [
    | raised e ↦ (raised e, insert (persisted_name c.name) (configured c) p.loggers)
    | ok level ↦
        set_loop true rest (advance c (insert (persisted_name c.name) level p.config) true p)
  ]
  set_loop false (c ∷ rest) p =
      let removed =
        set_loop false rest (advance c (erase (persisted_name c.name) p.config) true p) in
      let unchanged = set_loop false rest (advance c p.config p.config_updated p) in
      if has (persisted_name c.name) p.config then removed else unchanged

  -- `__generic_set`
  unfoldable pub generic_set :
      Bool → List LoggerConfig → LogsManager → Result (List LoggerConfig) × LogsManager
  unfolding set_loop load_levels
  generic_set persist configs m = elim (load_levels m.folders.workspace m.disk) [
    | raised e ↦ (raised e, m)
    | ok config ↦
        if is_empty configs
        then (raised (rpc_exception "Empty request" error_param_missing), m)
        else (let (r, loggers) = set_loop persist configs (record {
          loggers = m.loggers;
          config = config;
          config_updated = false;
          items = [];
        }) in
            elim r [
              | raised e ↦ (raised e, record m { loggers = loggers })
              | ok p ↦ (
                ok p.items,
                record m {
                  loggers = loggers;
                  disk =
                      if p.config_updated
                      then save_config loggers_file m.folders.workspace
                          (object (of_members p.config)) m.disk
                      else m.disk;
                },
              )
            ])
  ]

  -- `set` and `reset`
  unfoldable pub set : List LoggerConfig → LogsManager → Result (List LoggerConfig) × LogsManager
  unfolding generic_set
  set configs m = generic_set true configs m

  unfoldable pub reset : List String → LogsManager → Result (List LoggerConfig) × LogsManager
  unfolding generic_set reset_configs
  reset names m = generic_set false (reset_configs m.root_reset_level names) m
