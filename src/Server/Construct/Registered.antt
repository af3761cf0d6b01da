-- ===== src/Server/Construct/Registered.antt =====
-- src/grpc_helper/server.py: the registration of a service by the constructor.
use grpc_helper.Base.{String, Bool, Option, some, List, [], ◌∷◌, arith, ◌≡◌, refl, inl, inr}
use grpc_helper.Base.{string_eq}
use grpc_helper.Base.Dict.{Dict, insert}
use grpc_helper.Base.Number.{ℤ, pos}
use grpc_helper.Calls.Client.Construct.{StubClass}
use grpc_helper.Disk.{Json, Folders}
use grpc_helper.Errors.{ok, Result-cases, bind-eq-ok}
use grpc_helper.Server.Construct.{
  Host, Setup, Server, open_manager, register_info, register_service, register_services,
}
use grpc_helper.Server.Services.{ServiceInfo}
use grpc_helper.Server.Servicer.{Handler, make_servicer}
use grpc_helper.Server.Startup.{
  RpcServiceDescriptor, persisted_model, version_range, proxy_fields, build_info,
}

pub build_info-name :
    (fits : ℤ → Bool) (proxies : Json) (d : RpcServiceDescriptor) (info : ServiceInfo)
    → build_info fits proxies d ≡ ok info
    → info.name ≡ d.name
unfolding build_info
build_info-name fits proxies d info built =
    let (model, _, rest) = bind-eq-ok (persisted_model d.name proxies) _ built in
    let (range, _, last) = bind-eq-ok (version_range d.api_version) _ rest in
    let (fields, _, done) = bind-eq-ok (proxy_fields fits d model) _ last in cc done

abbrev pub stub_entry : RpcServiceDescriptor → ServiceInfo → StubClass × Option ℤ
stub_entry d info = (d.client_stub, some (pos info.current_api_version))

module _ (H : Host) (setup : Setup) where
  -- A service that was registered.
  pub record IsRegistered (proxies : Json) (d : RpcServiceDescriptor) (s t : Server H)
      : Type 0 where
    pub info : ServiceInfo
    pub servicer : Dict String Handler
    pub built : build_info setup.fits proxies d ≡ ok info
    pub made : make_servicer d.client_stub.methods info d.manager [] ≡ ok servicer
    pub infos : t.infos ≡ insert info.name info s.infos
    pub servicers : t.servicers ≡ insert d.name servicer s.servicers
    pub stubs_map : t.stubs_map ≡ insert d.name (stub_entry d info) s.stubs_map
    pub serving : t.serving ≡ s.serving

  register_info-IsRegistered :
      (proxies : Json) (d : RpcServiceDescriptor) (s : Server H)
      → (register_info H setup proxies d s).0 ≡ ok tt
      → IsRegistered proxies d s (register_info H setup proxies d s).1
  unfolding register_info
  register_info-IsRegistered proxies d s returned =
      elim (Result-cases (build_info setup.fits proxies d)) [
        | inl (e, failed) ↦ ground (arith, failed, returned)
        | inr (info, built) ↦
            elim (Result-cases (make_servicer d.client_stub.methods info d.manager [])) [
              | inl (e, failed) ↦ ground (arith, failed, built, returned)
              | inr (servicer, made) ↦ record {
                info = info;
                servicer = servicer;
                built = built;
                made = made;
                infos = ground (arith, built, made);
                servicers = ground (arith, built, made);
                stubs_map = ground (arith, built, made);
                serving = ground (arith, built, made);
              }
            ]
      ]

  -- What the opening of a manager leaves as it was.
  open_manager-infos :
      (folders : Folders) (d : RpcServiceDescriptor) (s : Server H)
      → ((open_manager H setup folders d s).1.infos ≡ s.infos)
        × ((open_manager H setup folders d s).1.servicers ≡ s.servicers)
        × ((open_manager H setup folders d s).1.stubs_map ≡ s.stubs_map)
        × ((open_manager H setup folders d s).1.serving ≡ s.serving)
  unfolding open_manager
  open_manager-infos folders d s = ground arith

  register_info-serving :
      (proxies : Json) (d : RpcServiceDescriptor) (s : Server H)
      → (register_info H setup proxies d s).1.serving ≡ s.serving
  unfolding register_info
  register_info-serving proxies d s = ground arith

  register_service-serving :
      (folders : Folders) (proxies : Json) (d : RpcServiceDescriptor) (s : Server H)
      → (register_service H setup folders proxies d s).1.serving ≡ s.serving
  unfolding register_service
  register_service-serving folders proxies d s =
      let opened = (open_manager H setup folders d s).1 in
      ground (arith, open_manager-infos folders d s, register_info-serving proxies d opened)

  pub register_service-IsRegistered :
      (folders : Folders) (proxies : Json) (d : RpcServiceDescriptor) (s : Server H)
      → (register_service H setup folders proxies d s).0 ≡ ok tt
      → IsRegistered proxies d s (register_service H setup folders proxies d s).1
  unfolding register_service
  register_service-IsRegistered folders proxies d s returned =
      elim (Result-cases (open_manager H setup folders d s).0) [
        | inl (e, failed) ↦ ground (arith, returned, failed)
        | inr (_, opened) ↦
            let begun = (open_manager H setup folders d s).1 in
            let done =
              register_info-IsRegistered proxies d begun (ground (arith, returned, opened)) in
            let (infos, servicers, stubs_map, serving) = open_manager-infos folders d s in
            rw opened (record {
              info = done.info;
              servicer = done.servicer;
              built = done.built;
              made = done.made;
              infos = ground (arith, infos, done.infos);
              servicers = ground (arith, servicers, done.servicers);
              stubs_map = ground (arith, stubs_map, done.stubs_map);
              serving = ground (arith, serving, done.serving);
            })
      ]

  -- A registration, whether it raises or not, does not start the server.
  pub register_services-serving :
      (folders : Folders) (proxies : Json) (descriptors : List RpcServiceDescriptor) (s : Server H)
      → (register_services H setup folders proxies descriptors s).1.serving ≡ s.serving
  unfolding register_services
  register_services-serving folders proxies [] s = refl
  register_services-serving folders proxies (d ∷ rest) s = ground (
    arith,
    register_service-serving folders proxies d s,
    register_services-serving folders proxies rest (register_service H setup folders proxies d s).1,
  )
