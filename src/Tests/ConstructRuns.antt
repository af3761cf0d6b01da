-- ===== src/Tests/ConstructRuns.antt =====
-- Servers that are built and that end, at concrete data.
use grpc_helper.Base.{
  ℕ, ◌<◌, String, Bool, true, false, ltb, Option, none, some, [], ◌∷◌, any, ◌≡◌, refl, arith,
  if◌then◌else◌, string_eq, nat_eq,
}
use grpc_helper.Base.Dict.{Dict, lookup, insert, update, NodupKeys}
use grpc_helper.Base.Number.{ℤ, pos}
use grpc_helper.Calls.Client.Construct.{Machine}
use grpc_helper.Config.Item.{all_config_items}
use grpc_helper.Config.Startup.{
  ConfigManager, holder, make_manager, serialize_items, load_defaults, load_texts, load_items,
}
use grpc_helper.Disk.{Folders, Json, no_folders, load_config}
use grpc_helper.Errors.{
  Exception, Result, ok, raised, python_error, is_ok, HasCode, error_param_invalid, error_port_busy,
}
use grpc_helper.Logs.Handlers.{Handler}
use grpc_helper.Server.Construct.{
  Host, Setup, OwnService, make_server, register_services, server_descriptors, make_config_manager,
  all_static_items, given_folders, register_service, register_info, open_manager, start_server,
  load_server, base_descriptors,
}
use grpc_helper.Server.Construct.Outcomes.{
  IsPrepared, new_server, IsStarted, make_server-IsStarted, make_server-serving,
}
use grpc_helper.Server.Services.{ServiceInfo}
use grpc_helper.Server.Servicer.{
  Attribute, Handler as RpcHandler, Stub, unary_unary, unary_stream, returns, no_annotation,
  make_servicer,
}
use grpc_helper.Server.Servicer.Methods.{is_refused, expected_at, make_servicer-expected}
use grpc_helper.Server.Lifecycle.{load_managers}
use grpc_helper.Server.Startup.{
  RpcServiceDescriptor, all_descriptors, descriptor_pairs, build_info, remove,
}
use grpc_helper.Server.Termination.{Ending, finalize_shutdown}
use grpc_helper.Server.Termination.Ended.{DistinctNames, IsEnded, fails, finalize_shutdown-IsEnded}

abbrev stub : Stub
stub = ("method1", unary_unary) ∷ ("s_method", unary_stream) ∷ []

abbrev sample_info : ServiceInfo
sample_info = record {
  name = "sample";
  version = "1";
  current_api_version = 1;
  supported_api_version = 1;
  is_proxy = false;
  proxy_port = pos 0;
  proxy_host = "";
}

abbrev attributes : Dict String Attribute
attributes =
    ("_load", record { callable = true; parameters = 0; return_annotation = no_annotation })
    ∷ (
      "method1",
      record { callable = true; parameters = 1; return_annotation = returns "ResultStatus" },
    )
    ∷ (
      "s_method",
      record { callable = true; parameters = 1; return_annotation = returns "SampleResponse" },
    )
    ∷ []

attributes_once : NodupKeys attributes
unfolding lookup string_eq
attributes_once = (refl, (refl, (refl, tt)))

make_servicer-expected_example :
    (any (is_refused stub sample_info) attributes ≡ true
      → HasCode error_param_invalid (make_servicer stub sample_info attributes []))
    × (any (is_refused stub sample_info) attributes ≡ false
        → (all : Dict String RpcHandler) × (make_servicer stub sample_info attributes [] ≡ ok all)
          × ((n : String) → lookup n all ≡ expected_at stub sample_info n attributes))
make_servicer-expected_example = make_servicer-expected stub sample_info attributes attributes_once

abbrev own_service : String → OwnService
own_service name = record {
  api_version = 0 ∷ 1 ∷ [];
  manager = [];
  client_stub = record { class_name = name; methods = [] };
}

abbrev machine : Machine
machine = record {
  windows = false;
  login = "me";
  uid = 1000;
  pw_name = ok "me";
  hostname = "here";
  socket_name = ok "10.0.0.1";
}

abbrev sample_descriptor : RpcServiceDescriptor
sample_descriptor = record {
  name = "sample";
  title = "t";
  version = "1";
  api_version = 0 ∷ 1 ∷ [];
  manager = attributes;
  client_stub = record { class_name = "SampleServiceStub"; methods = stub };
  is_proxy = false;
}

abbrev setup : Setup
setup = record {
  port = 5000;
  descriptors = sample_descriptor ∷ [];
  folders = some (record no_folders { workspace = some "wks" });
  cli_config = [];
  static_items = none;
  user_items = none;
  with_events = true;
  rpc_static_config = holder [];
  title = "grpc_helper";
  version = "1";
  srv = own_service "RpcServerServiceStub";
  config = own_service "ConfigServiceStub";
  log = own_service "LoggerServiceStub";
  events = own_service "EventServiceStub";
  environ = [];
  disk = [];
  fits = λ n. true;
  machine = machine;
  client_timeout = 60;
}

-- The world counts what is called; the port is free at first.
abbrev host : Host
host = record {
  World = ℕ;
  init_folders = λ d folders port world. (ok tt, world);
  preload = λ d client world. (ok tt, world);
  shutdown = λ d world. (ok tt, world);
  add_insecure_port = λ port world.
      if ltb world 1 then (ok tt, world) else (raised (python_error "RuntimeError" "busy"), world);
  start = λ world. world;
  stop = λ world. world;
  finalize = λ world. world;
}

server_returns : is_ok (make_server host setup (new_server host setup 0)).0 ≡ true
unfolding make_server make_config_manager all_static_items given_folders register_services
    register_service register_info open_manager start_server load_server base_descriptors
    server_descriptors string_eq nat_eq make_manager serialize_items all_config_items load_defaults
    load_texts load_config lookup load_items all_descriptors update descriptor_pairs insert
    build_info remove make_servicer load_managers
server_returns = refl

make_server-IsStarted_example :
    (config : ConfigManager) × ((make_server host setup (new_server host setup 0)).0 ≡ ok config)
    × IsStarted host setup 0 config (make_server host setup (new_server host setup 0)).1
make_server-IsStarted_example = make_server-IsStarted host setup 0 server_returns

make_server-serving_example :
    ((make_server host setup (new_server host setup 0)).1.serving
      ≡ is_ok (make_server host setup (new_server host setup 0)).0)
    × (setup.folders ≡ none → is_ok (make_server host setup (new_server host setup 0)).0 ≡ false)
    × ((config : ConfigManager) (folders : Folders) (proxies : Json) (e : Exception)
        → IsPrepared host setup config folders proxies
        → let registered =
            register_services host setup folders proxies
              (server_descriptors setup)
              (new_server host setup 0) in
          registered.0 ≡ ok tt
          → (host.add_insecure_port setup.port registered.1.world).0 ≡ raised e
          → HasCode error_port_busy (make_server host setup (new_server host setup 0)).0)
make_server-serving_example = make_server-serving host setup 0

abbrev file_handler : Handler
file_handler = record { id = 1; rotating = true }

abbrev ending : Ending
ending = record {
  loggers = ("root", file_handler ∷ []) ∷ ("RpcServer", file_handler ∷ []) ∷ [];
  shutdown_event = false;
  client_timeout = some 60;
  slept = none;
}

abbrev asked : Option ℤ
asked = some (pos 0)

abbrev configured : Result ℤ
configured = ok (pos 60)

own_loggers : DistinctNames ("root" ∷ "RpcServer" ∷ [])
unfolding string_eq
own_loggers = (refl, (refl, tt))

-- The third call finds the server closed.
abbrev answers : ℕ → Bool
answers k = ltb k 2

answered_before : (j : ℕ) → j < 2 → answers j ≡ true
answered_before j before = ground (arith, before)

finalize_shutdown-IsEnded_example :
    (fails asked configured ≡ false
      → (t : Ending) × (finalize_shutdown 3 asked configured answers ("RpcServer" ∷ []) ending
          ≡ some (ok tt, t))
        × IsEnded asked configured ("RpcServer" ∷ []) ending t)
    × (fails asked configured ≡ true
        → (e : Exception) × (finalize_shutdown 3 asked configured answers ("RpcServer" ∷ []) ending
            ≡ some (raised e, ending)))
finalize_shutdown-IsEnded_example =
    finalize_shutdown-IsEnded 3 2 asked configured answers ("RpcServer" ∷ []) ending own_loggers
      (omega arith) refl answered_before
