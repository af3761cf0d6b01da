-- ===== src/Managers.antt =====
-- src/grpc_helper/manager.py: `RpcManager`, and the client of `RpcProxiedManager`.
pub mod Clients
use grpc_helper.Base.{
  ℕ, String, ◌<>◌, Bool, true, false, Option, none, some, List, [], ◌∷◌, map, value_or,
  if◌then◌else◌, ◌=ℕ◌,
}
use grpc_helper.Base.{string_eq}
use grpc_helper.Base.Dict.{Dict, insert, update}
use grpc_helper.Base.Number.{ℤ, pos}
use grpc_helper.Base.Text.{codes}
use grpc_helper.Calls.Client.Construct.{
  Machine, StubClass, StubsMap, RpcClient, named, get_current_ip, make_client,
}
use grpc_helper.Disk.{Folders, no_folders, file_path}
use grpc_helper.Errors.{Result, ok, raised, ◌>>=◌}
use grpc_helper.Logs.Handlers.{Handler, RotatingFile, LogsItems, add_rotating_handler}
use grpc_helper.Server.Proxied.{Address, proxied_servers}
use grpc_helper.Server.Services.{ServiceInfo, ProxyRegisterRequest}

-- The attributes of a manager: the name of its logger is that of its class.
pub record RpcManager : Type 0 where
  pub name : String
  pub client : Option RpcClient
  pub folders : Option Folders
  pub port : Option ℕ
  pub config_name : Option String

-- `RpcManager.__init__`
unfoldable pub new_manager : String → Option String → RpcManager
new_manager name config_name = record {
  name = name;
  client = none;
  folders = none;
  port = none;
  config_name = config_name;
}

-- `Path(a) / Path(b)`: an absolute path stays as it is.
unfoldable pub join_path : String → String → String
join_path a b = elim (codes b) [ [] ↦ a | c ∷ rest ↦ if c =ℕ b'/' then b else file_path a b ]

-- `_log_folder`, of the value of `LOGS_FOLDER`
unfoldable pub log_folder : String → Folders → String
unfolding join_path
log_folder log_subfolder folders = elim folders.workspace [
  | none ↦ log_subfolder
  | some workspace ↦ join_path workspace log_subfolder
]

-- `_init_folders_n_logger`: the manager, and the handlers of its logger with the new one.
unfoldable pub init_folders_n_logger :
    LogsItems
    → String
    → Option Folders
    → ℕ
    → ℕ
    → List Handler
    → RpcManager
    → Result (RpcManager × List Handler × RotatingFile)
init_folders_n_logger items log_subfolder folders port id handlers m = do
  let known = value_or no_folders folders
  (after, file) ← add_rotating_handler items (log_folder log_subfolder known) m.name id handlers
  ok (record m { folders = some known; port = some port }, after, file)

-- `_preload`, up to the call of `_load`
unfoldable pub preload : RpcClient → RpcManager → RpcManager
preload client m = record m { client = some client }

-- `_proxied_clients`: a client for each of the remote servers
unfoldable pub proxied_clients :
    Machine → String → StubsMap → ℕ → RpcManager → List ServiceInfo → List RpcClient
proxied_clients machine main_host stubs_map timeout m services =
    map
      (λ (address : Address).
        make_client machine address.host address.port stubs_map (some timeout) (named m.name) true)
      (proxied_servers main_host services)

-- What a subclass of `RpcProxiedManager` says of itself, with the main host and the main port, and
-- the version and the stub of the two services that its client always has.
pub record Proxied : Type 0 where
  pub proxy_stubs : StubsMap
  pub proxied_services : List String
  pub proxied_version : String
  pub use_current_host : Bool
  pub main_host : String
  pub main_port : ℤ
  pub server_stub : StubClass
  pub server_api_current : ℤ
  pub event_stub : StubClass
  pub event_api_current : ℤ

-- The stubs of the client of `_load`.
unfoldable pub proxy_stubs_map : Proxied → StubsMap
proxy_stubs_map p =
    update
      (("srv", (p.server_stub, some p.server_api_current))
        ∷ ("events", (p.event_stub, some p.event_api_current))
        ∷ [])
      p.proxy_stubs

-- The candidate client of `_load`.
unfoldable pub proxy_client : Machine → ℕ → Proxied → RpcClient
unfolding proxy_stubs_map
proxy_client machine timeout p =
    make_client machine p.main_host p.main_port (proxy_stubs_map p) (some timeout) (named "") true

-- The registration that `_load` sends.
unfoldable pub proxy_request : Machine → ℕ → Proxied → ProxyRegisterRequest
unfolding get_current_ip
proxy_request machine port p = record {
  names = p.proxied_services;
  version = p.proxied_version;
  port = pos port;
  host = if p.use_current_host then get_current_ip machine p.main_host else p.main_host;
}
