-- ===== src/Tests/ManagerRuns.antt =====
-- Command lines, loggers and proxied managers at concrete data.
use grpc_helper.Base.{
  String, true, false, Option, none, some, List, value_or, arith, [], ◌∷◌, ◌++◌, contains, ◌≡◌,
  refl, string_eq,
}
use grpc_helper.Base.Dict.{Dict, lookup, insert}
use grpc_helper.Base.Number.{ℤ, pos, int, is_zero}
use grpc_helper.Calls.Client.Construct.{Machine, StubClass}
use grpc_helper.Cli.{config_action}
use grpc_helper.Cli.Parser.{
  Shell, RpcCliParser, Argument, port_arg, config_arg, workspace_arg, Namespace, parse,
  take_arguments, take_argument, default_values,
}
use grpc_helper.Cli.Parser.Taken.{definitions}
use grpc_helper.Cli.Parser.Parsed.{IsParsed, parse-IsParsed}
use grpc_helper.Config.Item.{Config, valid_string, int_val}
use grpc_helper.Disk.{file_path}
use grpc_helper.Errors.{Result, ok, raised, python_error}
use grpc_helper.Errors.Method.{pure}
use grpc_helper.Logs.Handlers.{
  Handler, RotatingFile, LogsItems, rotating_file, add_rotating_handler, clean_rotating_handler,
}
use grpc_helper.Logs.Handlers.Restored.{clean_rotating_handler-restored}
use grpc_helper.Managers.{Proxied, proxy_request}
use grpc_helper.Managers.Clients.{registered_address, IsRegisteredAt, proxy_request-IsRegisteredAt}
use grpc_helper.Server.Registry.{EventClient, RpcServer, proxy_register}
use grpc_helper.Server.Loggers.{init_server_loggers, init_loggers, init_logger}
use grpc_helper.Server.Loggers.Closed.{NoneRotate, finalize_shutdown-closed}
use grpc_helper.Server.Termination.{Ending, finalize_shutdown}
use grpc_helper.Server.Termination.Ended.{DistinctNames}
use grpc_helper.Server.Services.{ServiceInfo, check_proxy_names, check_service_names}

abbrev shell : Shell
shell = record { windows = false; expanduser = λ path. path }

abbrev parser : RpcCliParser
parser = record {
  system = "/etc/grpc_helper";
  user = "/home/me/.config/grpc_helper";
  workspace = "./grpc_helper";
  port = pos 54321;
  config = [];
}

abbrev arguments : List Argument
arguments = port_arg "5000" ∷ workspace_arg "wks" ∷ config_arg "rpc-max-workers=5" ∷ []

abbrev parsed : Namespace
parsed = record {
  values = record {
    system = "/etc/grpc_helper";
    user = "/home/me/.config/grpc_helper";
    workspace = "wks";
    port = pos 5000;
  };
  config = ("rpc-max-workers", "5") ∷ [];
  folders = record {
    system = some "/etc/grpc_helper";
    user = some "/home/me/.config/grpc_helper";
    workspace = some "wks";
  };
}

parses : (parse shell arguments parser).0 ≡ ok parsed
unfolding parse take_arguments take_argument default_values int string_eq config_action insert
parses = refl

parse-IsParsed_example :
    IsParsed shell arguments parser parsed (parse shell arguments parser).1
    × ((later : List Argument) (n' : Namespace)
        → definitions later ≡ []
        → (parse shell later (parse shell arguments parser).1).0 ≡ ok n'
        → n'.config ≡ parsed.config)
parse-IsParsed_example = parse-IsParsed shell arguments parser parsed parses

abbrev item : String → String → Config
item name value = record {
  item = record {
    name = name;
    description = "";
    default_value = value;
    value = value;
    validator = valid_string;
    can_be_empty = false;
  };
  hard_coded_default_value = value;
  run_validator = λ name value. ok tt;
}

abbrev items : LogsItems
items = record {
  interval_unit = item "rpc-logs-interval-unit" "H";
  interval = item "rpc-logs-interval" "1";
  backup = item "rpc-logs-backup" "10";
}

abbrev console : Handler
console = record { id = 0; rotating = false }

abbrev first_file : RotatingFile
first_file = record {
  path = "logs/RpcServer/RpcServer.log";
  when = "H";
  interval = pos 1;
  backup_count = pos 10;
}

abbrev one : List Handler
one = console ∷ record { id = 1; rotating = true } ∷ []

abbrev two : List Handler
two = console ∷ record { id = 1; rotating = true } ∷ record { id = 2; rotating = true } ∷ []

adds_first : add_rotating_handler items "logs" "RpcServer" 1 (console ∷ []) ≡ ok (one, first_file)
unfolding add_rotating_handler rotating_file int_val int file_path
adds_first = refl

adds_second : add_rotating_handler items "logs" "RpcServer" 2 one ≡ ok (two, first_file)
unfolding add_rotating_handler rotating_file int_val int file_path
adds_second = refl

clean_rotating_handler-restored_example :
    (clean_rotating_handler one ≡ console ∷ [])
    × (clean_rotating_handler two ≡ (console ∷ []) ++ (record { id = 2; rotating = true } ∷ []))
    × (clean_rotating_handler (clean_rotating_handler two) ≡ console ∷ [])
clean_rotating_handler-restored_example =
    clean_rotating_handler-restored items "logs" "logs" "RpcServer" 1 2 (console ∷ []) one two
      first_file first_file refl adds_first adds_second

abbrev machine : Machine
machine = record {
  windows = false;
  login = "me";
  uid = 1000;
  pw_name = ok "me";
  hostname = "here";
  socket_name = raised (python_error "OSError" "unreachable");
}

abbrev stub : StubClass
stub = record { class_name = "RpcServerServiceStub"; methods = [] }

abbrev proxied : Proxied
proxied = record {
  proxy_stubs = [];
  proxied_services = "sample" ∷ [];
  proxied_version = "1.0";
  use_current_host = true;
  main_host = "localhost";
  main_port = pos 54321;
  server_stub = stub;
  server_api_current = pos 1;
  event_stub = stub;
  event_api_current = pos 1;
}

abbrev sample : ServiceInfo
sample = record {
  name = "sample";
  version = "";
  current_api_version = 1;
  supported_api_version = 1;
  is_proxy = true;
  proxy_port = pos 0;
  proxy_host = "";
}

abbrev silent : EventClient
silent = record { World = Unit {0}; has_events = false; send = λ name properties. pure tt }

abbrev server : RpcServer silent
server = record { infos = ("sample", sample) ∷ []; workspace = some "wks"; disk = []; world = tt }

registers : (proxy_register silent (proxy_request machine 5000 proxied) server).0 ≡ ok tt
unfolding proxy_register proxy_request string_eq lookup check_proxy_names check_service_names
    is_zero
registers = refl

among : contains proxied.proxied_services "sample" ≡ true
unfolding string_eq
among = refl

proxy_request-IsRegisteredAt_example :
    IsRegisteredAt proxied
      (registered_address machine 5000 proxied)
      "sample"
      (proxy_register silent (proxy_request machine 5000 proxied) server).1.infos
proxy_request-IsRegisteredAt_example =
    proxy_request-IsRegisteredAt silent machine 5000 proxied server "sample" registers among

abbrev first_loggers : Dict String (List Handler)
first_loggers = ("root", console ∷ []) ∷ ("grpc", []) ∷ []

abbrev idle_server : Ending
idle_server = record {
  loggers = first_loggers;
  shutdown_event = false;
  client_timeout = some 60;
  slept = none;
}

abbrev opened_loggers : Dict String (List Handler)
opened_loggers =
    ("root", console ∷ record { id = 2; rotating = true } ∷ [])
    ∷ ("grpc", [])
    ∷ ("RpcServer", record { id = 1; rotating = true } ∷ [])
    ∷ ("ConfigManager", record { id = 3; rotating = true } ∷ [])
    ∷ []

loggers_open :
    init_server_loggers items "logs" 1 "RpcServer" ("ConfigManager" ∷ []) first_loggers
    ≡ ok opened_loggers
unfolding init_server_loggers init_loggers init_logger lookup insert string_eq add_rotating_handler
    rotating_file int_val int file_path
loggers_open = refl

first_loggers-NoneRotate : NoneRotate items "logs" first_loggers
unfolding lookup
first_loggers-NoneRotate name handlers found = ground (arith, found)

own_loggers : DistinctNames ("root" ∷ "RpcServer" ∷ "ConfigManager" ∷ [])
unfolding string_eq
own_loggers = (refl, (refl, (refl, tt)))

abbrev no_request : Option ℤ
no_request = none

abbrev timeout_item : Result ℤ
timeout_item = ok (pos 60)

finalize_shutdown-closed_example :
    (t : Ending) × (finalize_shutdown 1 no_request timeout_item
        (λ k. false)
        ("RpcServer" ∷ "ConfigManager" ∷ [])
        (record idle_server { loggers = opened_loggers })
      ≡ some (ok tt, t))
    × ((name : String)
        → value_or [] (lookup name t.loggers) ≡ value_or [] (lookup name first_loggers))
finalize_shutdown-closed_example =
    finalize_shutdown-closed items "logs" 1 0 1 no_request timeout_item (λ k. false) "RpcServer"
      ("ConfigManager" ∷ []) idle_server opened_loggers own_loggers first_loggers-NoneRotate
      loggers_open (omega arith) refl (λ j before. absurd (omega arith)) refl
