-- ===== src/Server/Services.antt =====
-- src/grpc_helper/server.py: the services of an `RpcServer`, the checks of a request's names, and
-- what a registration changes.
use grpc_helper.Base.{
  ℕ, String, Bool, not, ◌&&◌, ◌||◌, none, some, List, [], ◌∷◌, any, is_empty, if◌then◌else◌, ◌==◌,
}
use grpc_helper.Base.{string_eq}
use grpc_helper.Base.Dict.{Dict, lookup, insert, has, values}
use grpc_helper.Base.Number.{ℤ, pos, is_positive}
use grpc_helper.Disk.{Json, text, number, object, member, member_end}
use grpc_helper.Errors.{
  Result, ok, raised, rpc_exception, error_item_unknown, error_param_missing, error_param_invalid,
  ◌>>=◌, ◌>>◌, raise_if,
}

-- The API's `ServiceInfo` message.
pub record ServiceInfo : Type 0 where
  pub name : String
  pub version : String
  pub current_api_version : ℕ
  pub supported_api_version : ℕ
  pub is_proxy : Bool
  pub proxy_port : ℤ
  pub proxy_host : String

pub record ProxyRegisterRequest : Type 0 where
  pub names : List String
  pub version : String
  pub port : ℤ
  pub host : String

abbrev pub proxy_file : String
proxy_file = "proxy.json"

-- `self.__info`: the message of each service.
abbrev pub Services : Type 0
Services = Dict String ServiceInfo

unfoldable pub named_services : List String → Services → List ServiceInfo
named_services [] infos = []
named_services (name ∷ names) infos =
    let others = named_services names infos in
    elim (lookup name infos) [ none ↦ others | some service ↦ service ∷ others ]

-- `__check_service_names`
unfoldable pub check_service_names : List String → Services → Result (List ServiceInfo)
unfolding named_services
check_service_names names infos =
    if any (λ n. not (has n infos)) names
    then raised
        (rpc_exception "At least one of the required service names is unknown" error_item_unknown)
    else ok (named_services names infos)

-- `__check_proxy_names`
unfoldable pub check_proxy_names : List String → Services → Result (List ServiceInfo)
check_proxy_names names infos = do
  raise_if (is_empty names || any (λ x. x == "") names)
      (rpc_exception "Missing input name in request" error_param_missing)
  services ← check_service_names names infos
  raise_if (any (λ service. not service.is_proxy) services)
      (rpc_exception "At least one of the required services is not a proxy" error_param_invalid)
  ok services

-- `info`
unfoldable pub info : List String → Services → Result (List ServiceInfo)
info names infos = if is_empty names then ok (values infos) else check_service_names names infos

-- The entry of a service in the persisted model.
unfoldable pub proxy_model : ServiceInfo → Json
proxy_model service = object (
    member "host" (text service.proxy_host) (
      member "port" (number service.proxy_port)
        (member "version" (text service.version) member_end)))

-- The dict that `__persist_proxies` builds: the proxies that have a port.
unfoldable pub proxies_model : Services → List (String × Json)
unfolding proxy_model
proxies_model [] = []
proxies_model ((name, service) ∷ rest) =
    let others = proxies_model rest in
    if service.is_proxy && is_positive service.proxy_port
    then (name, proxy_model service) ∷ others
    else others

-- `srv.version = ...; srv.proxy_port = ...; srv.proxy_host = ...` for each of the services: the
-- messages are shared with the dict.
unfoldable pub change_services : (ServiceInfo → ServiceInfo) → List String → Services → Services
change_services change [] infos = infos
change_services change (name ∷ names) infos =
    change_services change names (elim (lookup name infos) [
      | none ↦ infos
      | some service ↦ insert name (change service) infos
    ])

unfoldable pub register : ProxyRegisterRequest → ServiceInfo → ServiceInfo
register request service = record service {
  version = request.version;
  proxy_port = request.port;
  proxy_host = request.host;
}

unfoldable pub forget : ServiceInfo → ServiceInfo
forget service = record service { proxy_port = pos 0; proxy_host = "" }
