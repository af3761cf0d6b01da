-- ===== src/Server/Startup/Restart.antt =====
-- src/grpc_helper/server.py: a server that starts where another one has registered proxies.
use grpc_helper.Base.{
  ℕ, String, ◌<>◌, Bool, true, false, ◌&&◌, Option, none, some, List, [], ◌∷◌, contains, All,
  if◌then◌else◌, map_option, Option-cases, inl, inr, arith, ◌≡◌, refl, ◌∙◌,
}
use grpc_helper.Base.{string_eq}
use grpc_helper.Base.Dict.{lookup, insert, NodupKeys, lookup-insert}
use grpc_helper.Base.Number.{ℤ, pos, is_positive}
use grpc_helper.Disk.{Disk, text, number, object, of_members, load_config}
use grpc_helper.Disk.Laws.{members_of-of_members, load_config-save_config}
use grpc_helper.Errors.{ok}
use grpc_helper.Server.Services.{ServiceInfo, Services, proxy_file, proxy_model, proxies_model}
use grpc_helper.Server.Registry.{EventClient, RpcServer, persist_proxies}
use grpc_helper.Server.Startup.{
  RpcServiceDescriptor, version_range, persisted_model, proxy_fields, build_info, build_infos,
  start_infos, model_value, text_field, number_field,
}

-- The registration of a service that outlives its server: that of a proxy with a port above zero.
abbrev pub saved : ServiceInfo → Option ServiceInfo
saved service = if service.is_proxy && is_positive service.proxy_port then some service else none

abbrev pub saved_at : String → Services → Option ServiceInfo
saved_at name infos = elim (lookup name infos) [ none ↦ none | some service ↦ saved service ]

-- The info of a service when the server starts again: what was registered, or what the descriptor says.
abbrev pub restarted : RpcServiceDescriptor → ℕ × ℕ → Option ServiceInfo → ServiceInfo
restarted d (current, supported) none = record {
  name = d.name;
  version = d.title <> (":" <> d.version);
  current_api_version = current;
  supported_api_version = supported;
  is_proxy = d.is_proxy;
  proxy_port = pos 0;
  proxy_host = "";
}
restarted d (current, supported) (some service) = record {
  name = d.name;
  version = service.version;
  current_api_version = current;
  supported_api_version = supported;
  is_proxy = d.is_proxy;
  proxy_port = service.proxy_port;
  proxy_host = service.proxy_host;
}

lookup-proxies_model :
    (name : String) (infos : Services)
    → NodupKeys infos
    → lookup name (proxies_model infos) ≡ map_option proxy_model (saved_at name infos)
unfolding proxies_model lookup
lookup-proxies_model name [] u = refl
lookup-proxies_model name ((other, service) ∷ infos) (fresh, u) =
    ground (arith, lookup-proxies_model name infos u, fresh)

version_value : (s : ServiceInfo) → model_value "version" (proxy_model s) ≡ ok (text s.version)
unfolding model_value proxy_model lookup string_eq
version_value s = refl

port_value : (s : ServiceInfo) → model_value "port" (proxy_model s) ≡ ok (number s.proxy_port)
unfolding model_value proxy_model lookup string_eq
port_value s = refl

host_value : (s : ServiceInfo) → model_value "host" (proxy_model s) ≡ ok (text s.proxy_host)
unfolding model_value proxy_model lookup string_eq
host_value s = refl

module _ (fits : ℤ → Bool) where
  -- The ports that were registered came in a message, so that a message can hold them.
  abbrev pub AllFit : Services → Type 0
  AllFit infos =
      (name : String) (service : ServiceInfo)
      → lookup name infos ≡ some service
      → fits service.proxy_port ≡ true

  saved_at-fits :
      (name : String) (infos : Services) (service : ServiceInfo)
      → AllFit infos
      → saved_at name infos ≡ some service
      → fits service.proxy_port ≡ true
  saved_at-fits name infos service all h = elim (Option-cases (lookup name infos)) [
    | inl unknown ↦ absurd (ground (arith, unknown))
    | inr (found, known) ↦ ground (arith, known, all name found known)
  ]

  proxy_fields_saved :
      (d : RpcServiceDescriptor) (service : ServiceInfo)
      → fits service.proxy_port ≡ true
      → proxy_fields fits d (some (proxy_model service))
        ≡ ok (service.version, service.proxy_port, service.proxy_host)
  unfolding proxy_fields text_field number_field
  proxy_fields_saved d service fit =
      rw (version_value service, port_value service, host_value service, fit) refl

  build_info-restarted :
      (d : RpcServiceDescriptor) (range : ℕ × ℕ) (infos : Services)
      → version_range d.api_version ≡ ok range
      → NodupKeys infos
      → AllFit infos
      → build_info fits (object (of_members (proxies_model infos))) d
        ≡ ok (restarted d range (saved_at d.name infos))
  unfolding build_info persisted_model proxy_fields
  build_info-restarted d range infos known u all = elim (Option-cases (saved_at d.name infos)) [
    | inl unsaved ↦
        rw (members_of-of_members, lookup-proxies_model d.name infos u, known, unsaved) refl
    | inr (service, registered) ↦
        rw
          (
            members_of-of_members,
            lookup-proxies_model d.name infos u,
            known,
            registered,
            proxy_fields_saved d service (saved_at-fits d.name infos service all registered),
          )
          refl
  ]

  name-restarted :
      (d : RpcServiceDescriptor) (range : ℕ × ℕ) (service : Option ServiceInfo)
      → (restarted d range service).name ≡ d.name
  name-restarted d (current, supported) none = refl
  name-restarted d (current, supported) (some service) = refl

-- The numbers of the API versions of each descriptor have a least and a greatest besides zero.
abbrev pub AllVersioned : List RpcServiceDescriptor → Type 0
AllVersioned descriptors =
    All (λ d. (range : ℕ × ℕ) × (version_range d.api_version ≡ ok range)) descriptors

abbrev pub names_of : List RpcServiceDescriptor → List String
names_of [] = []
names_of (d ∷ rest) = d.name ∷ names_of rest

abbrev pub DistinctNames : List RpcServiceDescriptor → Type 0
DistinctNames [] = Unit
DistinctNames (d ∷ rest) = (contains (names_of rest) d.name ≡ false) × DistinctNames rest

-- Each service of the descriptors is there again as it should be.
abbrev pub AllRestarted : Services → Services → List RpcServiceDescriptor → Type 0
AllRestarted infos again descriptors =
    All
      (λ d.
        (range : ℕ × ℕ) × (version_range d.api_version ≡ ok range)
        × (lookup d.name again ≡ some (restarted d range (saved_at d.name infos))))
      descriptors

module _ (fits : ℤ → Bool) (infos : Services) (once : NodupKeys infos)
    (fit : AllFit fits infos) where
  build_infos-restarted :
      (descriptors : List RpcServiceDescriptor) (before : Services)
      → AllVersioned descriptors
      → DistinctNames descriptors
      → (again : Services) × (build_infos fits
            (object (of_members (proxies_model infos)))
            descriptors
            before
          ≡ ok again)
        × AllRestarted infos again descriptors
        × ((name : String)
            → contains (names_of descriptors) name ≡ false
            → lookup name again ≡ lookup name before)
  unfolding build_infos
  build_infos-restarted [] before versioned distinct = (before, refl, tt, λ name h. refl)
  build_infos-restarted (d ∷ rest) before ((range, known), versioned) (alone, distinct) =
      let service = restarted d range (saved_at d.name infos) in
      let (again, built, all, others) =
        build_infos-restarted rest (insert service.name service before) versioned distinct in
      let named = name-restarted fits d range (saved_at d.name infos) in
      (
        again,
        rw (build_info-restarted fits d range infos known once fit) built,
        (
          (
            range,
            known,
            others d.name alone
                ∙ ground (arith, lookup-insert d.name service.name service before, named),
          ),
          all,
        ),
        λ name h.
            ground (arith, others name, lookup-insert name service.name service before, named),
      )

-- A server starts where the file holds the proxies of another one.
pub start_infos-kept :
    (fits : ℤ → Bool) (folder : String) (disk : Disk) (infos : Services)
    (descriptors : List RpcServiceDescriptor)
    → load_config (some proxy_file) none (some folder) disk
      ≡ ok (object (of_members (proxies_model infos)))
    → NodupKeys infos
    → AllFit fits infos
    → AllVersioned descriptors
    → DistinctNames descriptors
    → (again : Services) × (start_infos fits (some folder) disk descriptors ≡ ok again)
      × AllRestarted infos again descriptors
unfolding start_infos
start_infos-kept fits folder disk infos descriptors read once fit versioned distinct =
    let (again, built, all, _) =
      build_infos-restarted fits infos once fit descriptors [] versioned distinct in
    (again, rw read built, all)

-- A server writes its proxies, and another starts in its workspace with the same or other
-- descriptors, of different names, each with an API version. The new one starts, and each of its
-- services has the version, the port and the host that were registered, if the old one had a proxy
-- of that name with a port above zero, and else the version of its module and no port.
pub start_infos-restarted :
    (C : EventClient) (fits : ℤ → Bool) (folder : String) (s : RpcServer C)
    (descriptors : List RpcServiceDescriptor)
    → s.workspace ≡ some folder
    → NodupKeys s.infos
    → AllFit fits s.infos
    → AllVersioned descriptors
    → DistinctNames descriptors
    → (again : Services) × (start_infos fits (some folder) (persist_proxies C s).disk descriptors
        ≡ ok again)
      × AllRestarted s.infos again descriptors
unfolding persist_proxies
start_infos-restarted C fits folder s descriptors here once fit versioned distinct =
    start_infos-kept fits folder (persist_proxies C s).disk s.infos descriptors
      (rw here (load_config-save_config proxy_file folder none _ s.disk)) once fit versioned
      distinct
