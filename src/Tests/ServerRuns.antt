-- ===== src/Tests/ServerRuns.antt =====
-- The server's services and proxies at concrete data.
use grpc_helper.Base.{String, nat_eq, true, none, some, List, [], ◌∷◌, ◌≡◌, ◌⊎◌, refl, string_eq}
use grpc_helper.Base.Dict.{lookup, insert}
use grpc_helper.Base.Number.{pos}
use grpc_helper.Errors.{ok}
use grpc_helper.Errors.Method.{pure}
use grpc_helper.Server.Services.{ServiceInfo, Services, ProxyRegisterRequest}
use grpc_helper.Server.Registry.{EventClient, RpcServer, proxy_register, proxy_forget}
use grpc_helper.Server.Registry.Outcomes.{
  as_requested, forgotten, IsRefused, IsChanged, HasPort, proxy_register-IsChanged,
  proxy_forget-IsChanged,
}
use grpc_helper.Disk.{load_config}
use grpc_helper.Server.Startup.{
  RpcServiceDescriptor, start_infos, version_range, remove, build_infos, build_info,
  persisted_model, proxy_fields,
}
use grpc_helper.Server.Startup.Runs.{
  ServerRun, run_step, run_end, step_register, step_forget, IsFresh, ServerRun-restart,
}
use grpc_helper.Server.Startup.Restart.{AllRestarted, AllVersioned}
use grpc_helper.Base.{◌==◌, if◌then◌else◌}
use grpc_helper.Errors.{raised, python_error}
use grpc_helper.Server.Lifecycle.{Managers, Running}
use grpc_helper.Server.Proxied.{address_eq}

abbrev sample : ServiceInfo
sample = record {
  name = "sample";
  version = "123";
  current_api_version = 1;
  supported_api_version = 1;
  is_proxy = true;
  proxy_port = pos 5000;
  proxy_host = "";
}

abbrev infos : Services
infos = ("sample", sample) ∷ []

abbrev silent : EventClient
silent = record { World = Unit {0}; has_events = true; send = λ name properties. pure tt }

abbrev server : RpcServer silent
server = record { infos = infos; workspace = some "wks"; disk = []; world = tt }

abbrev request : ProxyRegisterRequest
request = record { names = "sample" ∷ []; version = "124"; port = pos 6000; host = "there" }

proxy_register-IsChanged_example :
    IsRefused silent server
      (proxy_register silent request server).0
      (proxy_register silent request server).1
    ⊎ (HasPort silent request
        × IsChanged silent
            (as_requested silent request)
            ("sample" ∷ [])
            server
            (proxy_register silent request server).1)
proxy_register-IsChanged_example = proxy_register-IsChanged silent request server

proxy_forget-IsChanged_example :
    IsRefused silent server
      (proxy_forget silent ("sample" ∷ []) server).0
      (proxy_forget silent ("sample" ∷ []) server).1
    ⊎ IsChanged silent
        (forgotten silent)
        ("sample" ∷ [])
        server
        (proxy_forget silent ("sample" ∷ []) server).1
proxy_forget-IsChanged_example = proxy_forget-IsChanged silent ("sample" ∷ []) server

abbrev descriptors : List RpcServiceDescriptor
descriptors =
    record {
      name = "sample";
      title = "t";
      version = "1";
      api_version = 0 ∷ 1 ∷ 2 ∷ [];
      manager = [];
      client_stub = record { class_name = "SampleServiceStub"; methods = [] };
      is_proxy = true;
    }
    ∷ []

versioned : AllVersioned descriptors
unfolding version_range remove nat_eq
versioned = (((2, 1), refl), tt)

abbrev no_services : Services
no_services = []

none_twice : lookup "sample" no_services ≡ none
unfolding lookup
none_twice = refl

-- A server that starts with the descriptors, and has a registration and a refused request.
abbrev first_infos : Services
first_infos =
    (
      "sample",
      record {
        name = "sample";
        version = "t:1";
        current_api_version = 2;
        supported_api_version = 1;
        is_proxy = true;
        proxy_port = pos 0;
        proxy_host = "";
      },
    )
    ∷ []

abbrev first_server : RpcServer silent
first_server = record { infos = first_infos; workspace = some "wks"; disk = []; world = tt }

first_started : start_infos (λ n. true) (some "wks") first_server.disk descriptors ≡ ok first_infos
unfolding start_infos load_config lookup build_infos build_info persisted_model version_range
    proxy_fields remove insert nat_eq string_eq
first_started = refl

first_server-IsFresh : IsFresh silent (λ n. true) "wks" descriptors first_server
unfolding load_config lookup
first_server-IsFresh = record { workspace = refl; unread = refl; started = first_started }

abbrev last_server : RpcServer silent
last_server = (proxy_forget silent ("other" ∷ []) (proxy_register silent request first_server).1).1

first_run : ServerRun silent (λ n. true) first_server last_server
first_run = run_step (step_register request refl) (run_step (step_forget ("other" ∷ [])) run_end)

ServerRun-restart_example :
    (again : Services) × (start_infos (λ n. true) (some "wks") last_server.disk descriptors
      ≡ ok again)
    × AllRestarted last_server.infos again descriptors
ServerRun-restart_example =
    ServerRun-restart silent (λ n. true) "wks" descriptors descriptors first_server last_server refl
      first_server-IsFresh first_run versioned (refl, tt)

-- Managers with a name each, of which the one named `bad` cannot be loaded; the world lists what was
-- shut down.
abbrev managers : Managers
managers = record {
  World = List String;
  Manager = String;
  preload = λ m world.
      if m == "bad" then (raised (python_error "ValueError" m), world) else (ok tt, world);
  shutdown = λ m world. (ok tt, m ∷ world);
  stop = λ world. world;
  finalize = λ world. world;
}

abbrev running : Running managers
running = record { serving = true; world = [] }
