-- ===== src/Server/Construct/Started.antt =====
-- src/grpc_helper/server.py: the services of a server that was constructed.
use grpc_helper.Base.{
  String, Option, none, some, List, [], ◌∷◌, All, if◌then◌else◌, ◌==◌, arith, ◌≡◌, refl, sym, ap,
  subst, ◌∙◌,
}
use grpc_helper.Base.{string_eq}
use grpc_helper.Base.Dict.{Dict, insert, lookup, lookup-insert, NodupKeys}
use grpc_helper.Base.Number.{ℤ}
use grpc_helper.Calls.Client.Construct.{StubClass}
use grpc_helper.Disk.{Json, Folders}
use grpc_helper.Errors.{ok}
use grpc_helper.Server.Construct.{Host, Setup, Server, register_service, register_services}
use grpc_helper.Server.Services.{ServiceInfo, Services}
use grpc_helper.Server.Servicer.{Handler, make_servicer}
use grpc_helper.Server.Startup.{RpcServiceDescriptor, descriptor_pairs, build_info, build_infos}
use grpc_helper.Server.Construct.Registered.{
  stub_entry, build_info-name, IsRegistered, register_service-IsRegistered,
}

module _ (H : Host) (setup : Setup) where
  -- A service that the server has: its info, its servicer and its stub.
  pub record IsServed (proxies : Json) (t : Server H) (d : RpcServiceDescriptor) : Type 0 where
    pub info : ServiceInfo
    pub servicer : Dict String Handler
    pub built : build_info setup.fits proxies d ≡ ok info
    pub made : make_servicer d.client_stub.methods info d.manager [] ≡ ok servicer
    pub has_info : lookup d.name t.infos ≡ some info
    pub has_servicer : lookup d.name t.servicers ≡ some servicer
    pub has_stub : lookup d.name t.stubs_map ≡ some (stub_entry d info)

  -- What the server has for a name.
  abbrev entry :
      String
      → Server H
      → Option ServiceInfo × Option (Dict String Handler) × Option (StubClass × Option ℤ)
  entry name t = (lookup name t.infos, lookup name t.servicers, lookup name t.stubs_map)

  entry-registered :
      (proxies : Json) (d : RpcServiceDescriptor) (s t : Server H)
      (r : IsRegistered H setup proxies d s t) (name : String)
      → entry name t ≡ (
          if name == d.name
          then (some r.info, some r.servicer, some (stub_entry d r.info))
          else entry name s)
  entry-registered proxies d s t r name =
      let named = build_info-name setup.fits proxies d r.info r.built in
      ground (
        arith,
        r.infos,
        r.servicers,
        r.stubs_map,
        named,
        lookup-insert name r.info.name r.info s.infos,
        lookup-insert name d.name r.servicer s.servicers,
        lookup-insert name d.name (stub_entry d r.info) s.stubs_map,
      )

  -- A server that has an entry for a service has it still where another one has the same entry.
  IsServed-entry :
      (proxies : Json) (s t : Server H) (d : RpcServiceDescriptor)
      → entry d.name t ≡ entry d.name s
      → IsServed proxies s d
      → IsServed proxies t d
  IsServed-entry proxies s t d same served = record {
    info = served.info;
    servicer = served.servicer;
    built = served.built;
    made = served.made;
    has_info = ground (arith, same, served.has_info);
    has_servicer = ground (arith, same, served.has_servicer);
    has_stub = ground (arith, same, served.has_stub);
  }

  IsRegistered-IsServed :
      (proxies : Json) (d : RpcServiceDescriptor) (s t : Server H)
      → IsRegistered H setup proxies d s t
      → IsServed proxies t d
  IsRegistered-IsServed proxies d s t r =
      let here = entry-registered proxies d s t r d.name in
      record {
        info = r.info;
        servicer = r.servicer;
        built = r.built;
        made = r.made;
        has_info = ground (arith, here);
        has_servicer = ground (arith, here);
        has_stub = ground (arith, here);
      }

  -- The services of the descriptors, and nothing else new.
  pub record AreServed (proxies : Json) (descriptors : List RpcServiceDescriptor) (s t : Server H)
      : Type 0 where
    pub infos : build_infos setup.fits proxies descriptors s.infos ≡ ok t.infos
    pub served : All (λ d. IsServed proxies t d) descriptors
    pub others :
        (name : String)
        → lookup name (descriptor_pairs descriptors) ≡ none
        → entry name t ≡ entry name s

  -- A registration of services that returned: the first was registered, and the rest from there.
  register_services-cons :
      (folders : Folders) (proxies : Json) (d : RpcServiceDescriptor)
      (rest : List RpcServiceDescriptor) (s : Server H)
      → (register_services H setup folders proxies (d ∷ rest) s).0 ≡ ok tt
      → ((register_service H setup folders proxies d s).0 ≡ ok tt)
        × ((register_services H setup folders proxies rest
              (register_service H setup folders proxies d s).1).0
            ≡ ok tt)
        × ((register_services H setup folders proxies (d ∷ rest) s).1
            ≡ (register_services H setup folders proxies rest
                (register_service H setup folders proxies d s).1).1)
  unfolding register_services
  register_services-cons folders proxies d rest s returned = ground (arith, returned)

  build_infos-cons :
      (proxies : Json) (d : RpcServiceDescriptor) (rest : List RpcServiceDescriptor)
      (infos : Services) (info : ServiceInfo)
      → build_info setup.fits proxies d ≡ ok info
      → build_infos setup.fits proxies (d ∷ rest) infos
        ≡ build_infos setup.fits proxies rest (insert info.name info infos)
  unfolding build_infos
  build_infos-cons proxies d rest infos info built = rw built refl

  AreServed-cons :
      (proxies : Json) (d : RpcServiceDescriptor) (rest : List RpcServiceDescriptor)
      (s t u : Server H)
      → lookup d.name (descriptor_pairs rest) ≡ none
      → IsRegistered H setup proxies d s t
      → AreServed proxies rest t u
      → AreServed proxies (d ∷ rest) s u
  unfolding descriptor_pairs lookup
  AreServed-cons proxies d rest s t u fresh r more = record {
    infos =
        build_infos-cons proxies d rest s.infos r.info r.built
        ∙ ap (λ (infos : Services). build_infos setup.fits proxies rest infos) (sym r.infos)
        ∙ more.infos;
    served = (
      IsServed-entry proxies t u d (more.others d.name fresh)
          (IsRegistered-IsServed proxies d s t r),
      more.served,
    );
    others = λ name h. ground (arith, h, more.others name, entry-registered proxies d s t r name);
  }

  pub register_services-AreServed :
      (folders : Folders) (proxies : Json) (descriptors : List RpcServiceDescriptor) (s : Server H)
      → NodupKeys (descriptor_pairs descriptors)
      → (register_services H setup folders proxies descriptors s).0 ≡ ok tt
      → AreServed proxies descriptors s (register_services H setup folders proxies descriptors s).1
  unfolding register_services descriptor_pairs build_infos
  register_services-AreServed folders proxies [] s distinct returned = record {
    infos = refl;
    served = tt;
    others = λ name h. refl;
  }
  register_services-AreServed folders proxies (d ∷ rest) s (fresh, distinct) returned =
      let t = (register_service H setup folders proxies d s).1 in
      let (first, later, same) = register_services-cons folders proxies d rest s returned in
      subst (AreServed proxies (d ∷ rest) s) (sym same) (
        AreServed-cons proxies d rest s t _ fresh
          (register_service-IsRegistered H setup folders proxies d s first)
          (register_services-AreServed folders proxies rest t distinct later))

  -- What serves in a server serves in another one with the same tables.
  pub IsServed-all :
      (proxies : Json) (s t : Server H) (descriptors : List RpcServiceDescriptor)
      → t.infos ≡ s.infos
      → t.servicers ≡ s.servicers
      → t.stubs_map ≡ s.stubs_map
      → All (λ d. IsServed proxies s d) descriptors
      → All (λ d. IsServed proxies t d) descriptors
  IsServed-all proxies s t [] infos servicers stubs_map served = tt
  IsServed-all proxies s t (d ∷ rest) infos servicers stubs_map (first, served) = (
    IsServed-entry proxies s t d (cc (infos, servicers, stubs_map)) first,
    IsServed-all proxies s t rest infos servicers stubs_map served,
  )
