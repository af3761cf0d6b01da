-- ===== src/Server/Loggers.antt =====
-- src/grpc_helper/server.py: the handlers that a server gives to the loggers of its managers and to the
-- root logger when it starts, `_init_folders_n_logger` of `RpcServer` included.
pub mod Closed
use grpc_helper.Base.{ℕ, ◌+◌, String, List, [], ◌∷◌, value_or}
use grpc_helper.Base.{string_eq}
use grpc_helper.Base.Dict.{Dict, lookup, insert}
use grpc_helper.Errors.{Result, ok, ◌>>=◌}
use grpc_helper.Logs.Handlers.{Handler, LogsItems, add_rotating_handler}
use grpc_helper.Server.Termination.{root_logger}

module _ (items : LogsItems) (log_folder : String) where
  -- `add_rotating_handler(log_folder, getLogger(name))`, with the given number for the handler.
  unfoldable pub init_logger :
      ℕ → String → Dict String (List Handler) → Result (Dict String (List Handler))
  init_logger id name loggers = do
    (handlers, file) ←
        add_rotating_handler items log_folder name id (value_or [] (lookup name loggers))
    ok (insert name handlers loggers)

  unfoldable pub init_loggers :
      ℕ → List String → Dict String (List Handler) → Result (Dict String (List Handler))
  unfolding init_logger
  init_loggers id [] loggers = ok loggers
  init_loggers id (name ∷ rest) loggers = do
    after ← init_logger id name loggers
    init_loggers (id + 1) rest after

  -- The loop of the constructor: the server is the first manager, and has the root logger too.
  unfoldable pub init_server_loggers :
      ℕ → String → List String → Dict String (List Handler) → Result (Dict String (List Handler))
  unfolding init_loggers
  init_server_loggers id server others loggers =
      init_loggers id (server ∷ root_logger ∷ others) loggers
