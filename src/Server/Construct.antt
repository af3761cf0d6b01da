-- ===== src/Server/Construct.antt =====
-- src/grpc_helper/server.py: the constructor of `RpcServer` as a whole.
pub mod Names
pub mod Registered
pub mod Started
pub mod Outcomes
use grpc_helper.Base.{
  ℕ, String, ◌<>◌, Bool, true, false, not, Option, none, some, List, [], ◌∷◌, ◌++◌, keep,
  if◌then◌else◌,
}
use grpc_helper.Base.{string_eq}
use grpc_helper.Base.Dict.{Dict, insert}
use grpc_helper.Base.Number.{ℤ, pos, str}
use grpc_helper.Calls.Client.Construct.{StubClass, Machine, RpcClient, StubsMap, named, make_client}
use grpc_helper.Calls.Method.{reported}
use grpc_helper.Config.Startup.{Candidate, Surroundings, ConfigManager, make_manager}
use grpc_helper.Disk.{Json, Folders, Disk, load_config, no_folders}
use grpc_helper.Errors.{Exception, Result, ok, raised, rpc_exception, python_error, error_port_busy}
use grpc_helper.Errors.Method.{Method, pure, raise, lift, gets, modify, ◌>>=◌, ◌>>◌}
use grpc_helper.Server.Lifecycle.{Managers, Running, load_managers}
use grpc_helper.Server.Services.{ServiceInfo, Services, proxy_file}
use grpc_helper.Server.Servicer.{Attribute, Handler, make_servicer}
use grpc_helper.Server.Startup.{RpcServiceDescriptor, all_descriptors, build_info}

-- The manager of a service and the gRPC server, as the constructor calls them: `_init_folders_n_logger`,
-- `_preload` and `_shutdown` of the manager, and the port, the start, the stop and the end of the
-- server. All act on a world.
pub record Host : Type 1 where
  pub World : Type 0
  pub init_folders : RpcServiceDescriptor → Folders → ℕ → Method World (Unit {0})
  pub preload : RpcServiceDescriptor → RpcClient → Method World (Unit {0})
  pub shutdown : RpcServiceDescriptor → Method World (Unit {0})
  pub add_insecure_port : ℕ → Method World (Unit {0})
  pub start : World → World
  pub stop : World → World
  pub finalize : World → World

-- What the descriptor of one of the server's own services has of its own.
pub record OwnService : Type 0 where
  pub api_version : List ℕ
  pub manager : Dict String Attribute
  pub client_stub : StubClass

-- The arguments of the constructor, and what it reads beside them: the class of the static items, the
-- title and the version of this package, the server's own services, the numbers that fit a port's
-- field, and the timeout of its clients.
pub record Setup : Type 0 where
  pub port : ℕ
  pub descriptors : List RpcServiceDescriptor
  pub folders : Option Folders
  pub cli_config : Dict String String
  pub static_items : Option (List Candidate)
  pub user_items : Option (List Candidate)
  pub with_events : Bool
  pub rpc_static_config : Candidate
  pub title : String
  pub version : String
  pub srv : OwnService
  pub config : OwnService
  pub log : OwnService
  pub events : OwnService
  pub environ : Dict String String
  pub disk : Disk
  pub fits : ℤ → Bool
  pub machine : Machine
  pub client_timeout : ℕ

-- `(static_items + [RpcStaticConfig]) if static_items is not None else [RpcStaticConfig]`
unfoldable pub all_static_items : Setup → List Candidate
all_static_items setup = elim setup.static_items [
  | none ↦ setup.rpc_static_config ∷ []
  | some items ↦ items ++ (setup.rpc_static_config ∷ [])
]

unfoldable pub make_config_manager : Setup → Result ConfigManager
unfolding all_static_items
make_config_manager setup =
    make_manager
      (record {
        folders = elim setup.folders [ none ↦ no_folders | some folders ↦ folders ];
        environ = setup.environ;
        cli_config = setup.cli_config;
        disk = setup.disk;
      })
      (some (all_static_items setup)) setup.user_items

-- `folders.workspace`, of folders that may be `None`
unfoldable pub given_folders : Setup → Result Folders
given_folders setup = elim setup.folders [
  | none ↦ raised (python_error "AttributeError" "'NoneType' object has no attribute 'workspace'")
  | some folders ↦ ok folders
]

-- The server while it is built: its infos, its servicers, the stubs of its clients, whether it serves.
pub record Server (H : Host) : Type 0 where
  pub infos : Services
  pub servicers : Dict String (Dict String Handler)
  pub stubs_map : StubsMap
  pub serving : Bool
  pub world : H.World

own_descriptor : Setup → String → OwnService → RpcServiceDescriptor
own_descriptor setup name service = record {
  name = name;
  title = setup.title;
  version = setup.version;
  api_version = service.api_version;
  manager = service.manager;
  client_stub = service.client_stub;
  is_proxy = false;
}

unfoldable pub base_descriptors : Setup → List RpcServiceDescriptor
unfolding own_descriptor
base_descriptors setup =
    own_descriptor setup "srv" setup.srv
    ∷ own_descriptor setup "config" setup.config
    ∷ own_descriptor setup "log" setup.log
    ∷ (if setup.with_events then own_descriptor setup "events" setup.events ∷ [] else [])

unfoldable pub server_descriptors : Setup → List RpcServiceDescriptor
server_descriptors setup = all_descriptors (base_descriptors setup) setup.descriptors

-- `__real_descriptors`
abbrev pub real_descriptors : List RpcServiceDescriptor → List RpcServiceDescriptor
real_descriptors descriptors = keep (λ d. not d.is_proxy) descriptors

module _ (H : Host) (setup : Setup) where
  -- A method of the world, in the server.
  abbrev pub in_world : Method H.World (Unit {0}) → Method (Server H) (Unit {0})
  in_world m s = let (r, world) = m s.world in (r, record s { world = world })

  -- The info of a service, its servicer and its stub.
  unfoldable pub register_info : Json → RpcServiceDescriptor → Method (Server H) (Unit {0})
  register_info proxies d = do
    info ← lift (build_info setup.fits proxies d)
    modify (λ s. record s { infos = insert info.name info s.infos })
    servicer ← lift (make_servicer d.client_stub.methods info d.manager [])
    modify (λ s. record s {
      servicers = insert d.name servicer s.servicers;
      stubs_map = insert d.name (d.client_stub, some (pos info.current_api_version)) s.stubs_map;
    })

  -- `if not descriptor.is_proxy: descriptor.manager._init_folders_n_logger(folders, port)`
  unfoldable pub open_manager : Folders → RpcServiceDescriptor → Method (Server H) (Unit {0})
  open_manager folders d =
      if d.is_proxy then pure tt else in_world (H.init_folders d folders setup.port)

  -- The body of the loop that registers the services.
  unfoldable pub register_service :
      Folders → Json → RpcServiceDescriptor → Method (Server H) (Unit {0})
  register_service folders proxies d = do open_manager folders d; register_info proxies d

  unfoldable pub register_services :
      Folders → Json → List RpcServiceDescriptor → Method (Server H) (Unit {0})
  register_services folders proxies [] = pure tt
  register_services folders proxies (d ∷ rest) = do
    register_service folders proxies d
    register_services folders proxies rest

  -- The port, which may be busy, and the start.
  unfoldable pub start_server : Method (Server H) (Unit {0})
  start_server s =
      let (r, world) = H.add_insecure_port setup.port s.world in
      elim r [
        | raised e ↦ (
          raised (
              rpc_exception
                ("Failed to start RPC server on port "
                  <> (str setup.port <> (": " <> (reported e).1)))
                error_port_busy),
          record s { world = world },
        )
        | ok _ ↦ (ok tt, record s { serving = true; world = H.start world })
      ]

  -- The managers as the end of the constructor loads them, each with a client of all services.
  abbrev pub managers : StubsMap → Managers
  managers stubs_map = record {
    World = H.World;
    Manager = RpcServiceDescriptor;
    preload = λ d. H.preload d (
        make_client setup.machine "localhost" (pos setup.port) stubs_map (some setup.client_timeout)
          (named (d.name <> "-client")) true);
    shutdown = H.shutdown;
    stop = H.stop;
    finalize = H.finalize;
  }

  unfoldable pub load_server : List RpcServiceDescriptor → Method (Server H) (Unit {0})
  load_server descriptors s =
      let (r, after) =
        load_managers (managers s.stubs_map) (real_descriptors descriptors)
          (record { serving = s.serving; world = s.world }) in
      (r, record s { serving = after.serving; world = after.world })

  -- `RpcServer.__init__`, which gives the config manager besides.
  unfoldable pub make_server : Method (Server H) ConfigManager
  make_server = do
    config ← lift (make_config_manager setup)
    folders ← lift (given_folders setup)
    proxies ← lift (load_config (some proxy_file) none folders.workspace setup.disk)
    register_services folders proxies (server_descriptors setup)
    start_server
    load_server (server_descriptors setup)
    pure config
