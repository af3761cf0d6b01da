-- ===== src/Tests/LogRuns.antt =====
-- The loggers at concrete data.
use grpc_helper.Base.{
  true, false, ℕ, String, none, some, List, [], ◌∷◌, ◌≡◌, refl, ap, string_eq, arith, nat_eq, ◌==◌,
  if◌then◌else◌,
}
use grpc_helper.Base.Dict.{lookup, insert}
use grpc_helper.Errors.{ok, Result}
use grpc_helper.Disk.{no_folders, load_config}
use grpc_helper.Logs.{
  Logging, LoggerConfig, LogsManager, set, load, load_levels, generic_set, set_loop, advance,
  configured, persisted_level, persisted_name, map_logger_config, inner_level_to_api,
}
use grpc_helper.Disk.{save_config, file_path}
use grpc_helper.Logs.{reset, reset_configs, validate_loggers}
use grpc_helper.Logs.Resets.{IsReset, reset-IsReset}
use grpc_helper.Base.Dict.{erase}
use grpc_helper.Logs.Restart.{IsRestored, load-set}
use grpc_helper.Logs.Files.{IsApplied, set-IsApplied}

abbrev logging : Logging
logging = record {
  level_name = λ level. if level == 10 then some "DEBUG" else none;
  level_value = λ name. if name == "DEBUG" then some 10 else none;
  unknown_level = 0;
  new_level = 0;
  is_root = λ name. name == "root";
  root_name = "root";
}

abbrev manager : LogsManager
manager = record {
  loggers = [];
  folders = record no_folders { workspace = some "wks" };
  disk = [];
  root_reset_level = 30;
}

abbrev to_debug : LoggerConfig
to_debug = record { name = "RpcServer"; enabled = true; level = 10 }

set_returns : (set logging (to_debug ∷ []) manager).0 ≡ ok (to_debug ∷ [])
unfolding set generic_set set_loop advance configured persisted_level persisted_name
    map_logger_config inner_level_to_api load_levels load_config lookup insert string_eq nat_eq
set_returns = refl

set_pair :
    set logging (to_debug ∷ []) manager
    ≡ (ok (to_debug ∷ []), (set logging (to_debug ∷ []) manager).1)
set_pair =
    ap (λ (r : Result (List LoggerConfig)). (r, (set logging (to_debug ∷ []) manager).1))
      set_returns

set-IsApplied_example :
    IsApplied logging "wks" (to_debug ∷ []) manager (set logging (to_debug ∷ []) manager).1
set-IsApplied_example =
    set-IsApplied logging "wks" (to_debug ∷ []) manager (set logging (to_debug ∷ []) manager).1
      (to_debug ∷ []) refl set_pair

abbrev changed : LogsManager
changed = (set logging (to_debug ∷ []) manager).1

abbrev reset_status : LoggerConfig
reset_status = record { name = "RpcServer"; enabled = true; level = 0 }

reset_returns : (reset logging ("RpcServer" ∷ []) changed).0 ≡ ok (reset_status ∷ [])
unfolding set generic_set set_loop advance configured persisted_level persisted_name
    map_logger_config inner_level_to_api load_levels load_config lookup insert string_eq nat_eq
    reset reset_configs save_config erase validate_loggers file_path
reset_returns = refl

reset_pair :
    reset logging ("RpcServer" ∷ []) changed
    ≡ (ok (reset_status ∷ []), (reset logging ("RpcServer" ∷ []) changed).1)
reset_pair =
    ap (λ (r : Result (List LoggerConfig)). (r, (reset logging ("RpcServer" ∷ []) changed).1))
      reset_returns

changed_workspace : changed.folders.workspace ≡ some "wks"
unfolding set generic_set set_loop advance configured persisted_level persisted_name
    map_logger_config inner_level_to_api load_levels load_config lookup insert string_eq nat_eq
changed_workspace = refl

reset-IsReset_example :
    IsReset logging "wks"
      (reset_configs logging changed.root_reset_level ("RpcServer" ∷ []))
      changed
      (reset logging ("RpcServer" ∷ []) changed).1
reset-IsReset_example =
    reset-IsReset logging "wks" ("RpcServer" ∷ []) changed
      (reset logging ("RpcServer" ∷ []) changed).1 (reset_status ∷ []) changed_workspace reset_pair

-- The same and a logger that is disabled.
abbrev two_loggers : List LoggerConfig
two_loggers = to_debug ∷ record { name = "root"; enabled = false; level = 10 } ∷ []

abbrev two_changed : LogsManager
two_changed = (set logging two_loggers manager).1

abbrev two_statuses : List LoggerConfig
two_statuses = to_debug ∷ record { name = "root"; enabled = false; level = 10 } ∷ []

two_return : (set logging two_loggers manager).0 ≡ ok two_statuses
unfolding set generic_set set_loop advance configured persisted_level persisted_name
    map_logger_config inner_level_to_api load_levels load_config lookup insert string_eq nat_eq
two_return = refl

two_pair : set logging two_loggers manager ≡ (ok two_statuses, two_changed)
two_pair = ap (λ (r : Result (List LoggerConfig)). (r, two_changed)) two_return

level_inverse :
    (l : ℕ) (name : String) → logging.level_name l ≡ some name → logging.level_value name ≡ some l
level_inverse l name named = ground arith

none_read : load_levels (some "wks") [] ≡ ok []
unfolding load_levels load_config lookup
none_read = refl

no_folder_read : load_levels none two_changed.disk ≡ ok []
unfolding load_levels load_config
no_folder_read = refl

abbrev restarted : LogsManager
restarted = record manager { disk = two_changed.disk }

load-set_example :
    (t : LogsManager) × (load logging restarted ≡ ok t) × IsRestored logging two_loggers restarted t
load-set_example =
    load-set logging "wks" two_loggers manager two_changed restarted two_statuses [] [] []
      level_inverse refl two_pair refl refl none_read no_folder_read no_folder_read (tt, refl)
      (tt, refl) (tt, refl)
