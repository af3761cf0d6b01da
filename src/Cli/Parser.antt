-- ===== src/Cli/Parser.antt =====
-- src/grpc_helper/cli.py: `RpcCliParser`, from the options that argparse has found on.
pub mod Taken
pub mod Parsed
use grpc_helper.Base.{String, Bool, Option, none, some, List, [], ◌∷◌, if◌then◌else◌}
use grpc_helper.Base.{string_eq}
use grpc_helper.Base.Dict.{Dict}
use grpc_helper.Base.Number.{ℤ, int}
use grpc_helper.Cli.{config_action}
use grpc_helper.Disk.{Folders}
use grpc_helper.Errors.{python_error}
use grpc_helper.Errors.Method.{Method, pure, raise, lift, gets, modify, ◌>>=◌, ◌>>◌}

-- The system of the caller: whether it is Windows, and `os.path.expanduser`. A path is its text.
pub record Shell : Type 0 where
  pub windows : Bool
  pub expanduser : String → String

-- `expanded_path`
unfoldable pub expanded_path : Shell → String → String
expanded_path shell arg = shell.expanduser arg

-- The parser with its RPC options: the default of each, and the dict that is the default of
-- `--config`, an object of the parser that `ConfigDictAction` writes into.
pub record RpcCliParser : Type 0 where
  pub system : String
  pub user : String
  pub workspace : String
  pub port : ℤ
  pub config : Dict String String

-- `with_rpc_args`
unfoldable pub with_rpc_args : Shell → ℤ → Option String → String → String → RpcCliParser
unfolding expanded_path
with_rpc_args shell default_port default_sys default_usr default_wks = record {
  system = expanded_path shell (elim default_sys [
    | none ↦ if shell.windows then "C:\\grpc_helper" else "/etc/grpc_helper"
    | some path ↦ path
  ]);
  user = expanded_path shell default_usr;
  workspace = expanded_path shell default_wks;
  port = default_port;
  config = [];
}

-- An option of the command line with its value.
pub data Argument : Type 0 where
  system_arg : String → Argument
  user_arg : String → Argument
  workspace_arg : String → Argument
  port_arg : String → Argument
  config_arg : String → Argument

-- The values of a namespace other than `config`, which is the object of the parser.
pub record Values : Type 0 where
  pub system : String
  pub user : String
  pub workspace : String
  pub port : ℤ

-- What `parse` returns.
pub record Namespace : Type 0 where
  pub values : Values
  pub config : Dict String String
  pub folders : Folders

-- The action of an option.
unfoldable pub take_argument : Shell → Argument → Values → Method RpcCliParser Values
unfolding expanded_path
take_argument shell (system_arg path) v = pure (record v { system = expanded_path shell path })
take_argument shell (user_arg path) v = pure (record v { user = expanded_path shell path })
take_argument shell (workspace_arg path) v =
    pure (record v { workspace = expanded_path shell path })
take_argument shell (port_arg text) v = elim (int text) [
  | none ↦ raise (python_error "SystemExit" "2")
  | some port ↦ pure (record v { port = port })
]
take_argument shell (config_arg definition) v = do
  config_map ← gets (λ p. p.config)
  changed ← lift (config_action definition config_map)
  modify (λ p. record p { config = changed })
  pure v

unfoldable pub take_arguments : Shell → List Argument → Values → Method RpcCliParser Values
take_arguments shell [] v = pure v
take_arguments shell (argument ∷ rest) v = do
  next ← take_argument shell argument v
  take_arguments shell rest next

unfoldable pub default_values : RpcCliParser → Values
default_values p = record {
  system = p.system;
  user = p.user;
  workspace = p.workspace;
  port = p.port;
}

-- `parse`
unfoldable pub parse : Shell → List Argument → Method RpcCliParser Namespace
parse shell arguments = do
  defaults ← gets default_values
  v ← take_arguments shell arguments defaults
  config_map ← gets (λ p. p.config)
  pure (record {
    values = v;
    config = config_map;
    folders = record { system = some v.system; user = some v.user; workspace = some v.workspace };
  })
