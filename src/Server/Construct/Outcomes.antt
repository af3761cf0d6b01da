-- ===== src/Server/Construct/Outcomes.antt =====
-- src/grpc_helper/server.py: how the constructor of `RpcServer` ends.
use grpc_helper.Base.{
  true, false, ◌||◌, none, some, List, [], All, arith, ◌≡◌, ◌⊎◌, inl, inr, refl, ◌∙◌,
}
use grpc_helper.Base.{string_eq}
use grpc_helper.Config.Startup.{ConfigManager}
use grpc_helper.Disk.{Json, Folders, load_config}
use grpc_helper.Errors.{Exception, ok, raised, is_ok, HasCode, Result-cases, error_port_busy}
use grpc_helper.Server.Construct.{
  Host, Setup, Server, make_config_manager, given_folders, server_descriptors, real_descriptors,
  register_services, start_server, managers, load_server, make_server,
}
use grpc_helper.Server.Construct.Names.{server_descriptors-NodupKeys}
use grpc_helper.Server.Construct.Registered.{register_services-serving}
use grpc_helper.Server.Construct.Started.{IsServed, IsServed-all, register_services-AreServed}
use grpc_helper.Server.Lifecycle.{Running, load_managers-serving}
use grpc_helper.Server.Services.{proxy_file}
use grpc_helper.Server.Startup.{RpcServiceDescriptor, start_infos}

module _ (H : Host) (setup : Setup) where
  -- A server before its construction.
  abbrev pub new_server : H.World → Server H
  new_server world = record {
    infos = [];
    servicers = [];
    stubs_map = [];
    serving = false;
    world = world;
  }

  start_server-serving :
      (s : Server H)
      → ((start_server H setup s).1.serving ≡ (is_ok (start_server H setup s).0 || s.serving))
        × ((start_server H setup s).1.infos ≡ s.infos)
        × ((start_server H setup s).1.servicers ≡ s.servicers)
        × ((start_server H setup s).1.stubs_map ≡ s.stubs_map)
  unfolding start_server
  start_server-serving s = ground arith

  load_server-serving :
      (descriptors : List RpcServiceDescriptor) (s : Server H)
      → s.serving ≡ true
      → ((load_server H setup descriptors s).1.serving
          ≡ is_ok (load_server H setup descriptors s).0)
        × ((load_server H setup descriptors s).1.infos ≡ s.infos)
        × ((load_server H setup descriptors s).1.servicers ≡ s.servicers)
        × ((load_server H setup descriptors s).1.stubs_map ≡ s.stubs_map)
  unfolding load_server
  load_server-serving descriptors s serves =
      let running : Running (managers H setup s.stubs_map) = record {
        serving = s.serving;
        world = s.world;
      } in
      let (same, _) =
        load_managers-serving (managers H setup s.stubs_map) (real_descriptors descriptors) running
          serves in
      (same, refl, refl, refl)

  start_server-busy :
      (s : Server H) (e : Exception)
      → (H.add_insecure_port setup.port s.world).0 ≡ raised e
      → HasCode error_port_busy (start_server H setup s).0
  unfolding start_server
  start_server-busy s e busy = ground (arith, busy)

  -- The constructor has read its configuration, its folders and the persisted proxies.
  pub record IsPrepared (config : ConfigManager) (folders : Folders) (proxies : Json) : Type 0 where
    pub config_made : make_config_manager setup ≡ ok config
    pub folders_given : given_folders setup ≡ ok folders
    pub proxies_read : load_config (some proxy_file) none folders.workspace setup.disk ≡ ok proxies

  module _ (world : H.World) where
    -- The constructor raises while it prepares, or it has prepared.
    IsPrepared-cases :
        ((e : Exception) × (make_server H setup (new_server world) ≡ (raised e, new_server world)))
        ⊎ ((config : ConfigManager) × (folders : Folders) × (proxies : Json) × IsPrepared config
              folders proxies)
    unfolding make_server
    IsPrepared-cases = elim (Result-cases (make_config_manager setup)) [
      | inl (e, failed) ↦ inl (e, ground (arith, failed))
      | inr (config, made) ↦ elim (Result-cases (given_folders setup)) [
        | inl (e, failed) ↦ inl (e, ground (arith, made, failed))
        | inr (folders, given) ↦
            elim (Result-cases (load_config (some proxy_file) none folders.workspace setup.disk)) [
              | inl (e, failed) ↦ inl (e, ground (arith, made, given, failed))
              | inr (proxies, read) ↦ inr (
                config,
                folders,
                proxies,
                record { config_made = made; folders_given = given; proxies_read = read },
              )
            ]
      ]
    ]

    rest_serving :
        (config : ConfigManager) (folders : Folders) (proxies : Json)
        → IsPrepared config folders proxies
        → (make_server H setup (new_server world)).1.serving
          ≡ is_ok (make_server H setup (new_server world)).0
    unfolding make_server
    rest_serving config folders proxies p =
        let descriptors = server_descriptors setup in
        let registered =
          (register_services H setup folders proxies descriptors (new_server world)).1 in
        let started = (start_server H setup registered).1 in
        ground (
          arith,
          p.config_made,
          p.folders_given,
          p.proxies_read,
          register_services-serving H setup folders proxies descriptors (new_server world),
          start_server-serving registered,
          load_server-serving descriptors started,
        )

    -- A constructed server: its config manager is that of its items, its infos are those that the
    -- descriptors and the persisted proxies give, each service has its servicer and its stub, and the
    -- server serves.
    pub record IsStarted (config : ConfigManager) (t : Server H) : Type 0 where
      pub folders : Folders
      pub proxies : Json
      pub prepared : IsPrepared config folders proxies
      pub infos :
          start_infos setup.fits folders.workspace setup.disk (server_descriptors setup)
          ≡ ok t.infos
      pub served : All (λ d. IsServed H setup proxies t d) (server_descriptors setup)
      pub serves : t.serving ≡ true

    -- The registration, the start and the loading of a constructor that returned.
    steps_returned :
        (config : ConfigManager) (folders : Folders) (proxies : Json)
        → IsPrepared config folders proxies
        → is_ok (make_server H setup (new_server world)).0 ≡ true
        → let registered =
            register_services H setup folders proxies
              (server_descriptors setup)
              (new_server world) in
          (registered.0 ≡ ok tt)
          × ((make_server H setup (new_server world)).1.infos ≡ registered.1.infos)
          × ((make_server H setup (new_server world)).1.servicers ≡ registered.1.servicers)
          × ((make_server H setup (new_server world)).1.stubs_map ≡ registered.1.stubs_map)
          × ((make_server H setup (new_server world)).0 ≡ ok config)
    unfolding make_server
    steps_returned config folders proxies p returned =
        let descriptors = server_descriptors setup in
        let registered =
          (register_services H setup folders proxies descriptors (new_server world)).1 in
        let started = (start_server H setup registered).1 in
        ground (
          arith,
          returned,
          p.config_made,
          p.folders_given,
          p.proxies_read,
          start_server-serving registered,
          load_server-serving descriptors started,
        )

    build_started :
        (config : ConfigManager) (folders : Folders) (proxies : Json)
        → IsPrepared config folders proxies
        → is_ok (make_server H setup (new_server world)).0 ≡ true
        → IsStarted config (make_server H setup (new_server world)).1
    unfolding start_infos
    build_started config folders proxies p returned =
        let descriptors = server_descriptors setup in
        let (registered, infos, servicers, stubs_map, _) =
          steps_returned config folders proxies p returned in
        let are =
          register_services-AreServed H setup folders proxies descriptors (new_server world)
            (server_descriptors-NodupKeys setup) registered in
        record {
          folders = folders;
          proxies = proxies;
          prepared = p;
          infos = rw (p.proxies_read, infos) are.infos;
          served =
              IsServed-all H setup proxies _ _ descriptors infos servicers stubs_map are.served;
          serves = rest_serving config folders proxies p ∙ returned;
        }

    busy_port :
        (config : ConfigManager) (folders : Folders) (proxies : Json)
        → IsPrepared config folders proxies
        → let registered =
            register_services H setup folders proxies
              (server_descriptors setup)
              (new_server world) in
          registered.0 ≡ ok tt
          → HasCode error_port_busy (start_server H setup registered.1).0
          → HasCode error_port_busy (make_server H setup (new_server world)).0
    unfolding make_server
    busy_port config folders proxies p registered busy =
        ground (arith, p.config_made, p.folders_given, p.proxies_read, registered, busy)

  pub make_server-IsStarted :
      (world : H.World)
      → is_ok (make_server H setup (new_server world)).0 ≡ true
      → (config : ConfigManager) × ((make_server H setup (new_server world)).0 ≡ ok config)
        × IsStarted world config (make_server H setup (new_server world)).1
  make_server-IsStarted world returned = elim (IsPrepared-cases world) [
    | inl (e, failed) ↦ ground (arith, failed, returned)
    | inr (config, folders, proxies, p) ↦ (
      config,
      (steps_returned world config folders proxies p returned).4,
      build_started world config folders proxies p returned,
    )
  ]

  pub make_server-serving :
      (world : H.World)
      → ((make_server H setup (new_server world)).1.serving
          ≡ is_ok (make_server H setup (new_server world)).0)
        × (setup.folders ≡ none → is_ok (make_server H setup (new_server world)).0 ≡ false)
        × ((config : ConfigManager) (folders : Folders) (proxies : Json) (e : Exception)
            → IsPrepared config folders proxies
            → let registered =
                register_services H setup folders proxies
                  (server_descriptors setup)
                  (new_server world) in
              registered.0 ≡ ok tt
              → (H.add_insecure_port setup.port registered.1.world).0 ≡ raised e
              → HasCode error_port_busy (make_server H setup (new_server world)).0)
  unfolding make_server given_folders
  make_server-serving world = (
    elim (IsPrepared-cases world) [
      | inl (e, failed) ↦ ground (arith, failed)
      | inr (config, folders, proxies, p) ↦ rest_serving world config folders proxies p
    ],
    λ missing. ground (arith, missing),
    λ config folders proxies e p registered busy.
        let s =
          (register_services H setup folders proxies (server_descriptors setup)
            (new_server world)).1 in
        busy_port world config folders proxies p registered (start_server-busy s e busy),
  )
