-- ===== src/Managers/Clients.antt =====
-- src/grpc_helper/manager.py: a manager whose services are proxied, with the main server.
use grpc_helper.Base.{
  ℕ, String, true, false, ◌&&◌, some, List, [], ◌∷◌, All, contains, if◌then◌else◌, ◌==◌, arith, ◌≡◌,
  refl, sym, subst, inl, inr, ◌∙◌,
}
use grpc_helper.Base.{string_eq}
use grpc_helper.Base.Dict.{lookup, values}
use grpc_helper.Base.Number.{pos, is_positive, is_zero, not_positive}
use grpc_helper.Calls.Client.Construct.{Machine, get_current_ip}
use grpc_helper.Errors.{ok}
use grpc_helper.Managers.{Proxied, proxy_request}
use grpc_helper.Server.Proxied.{
  address_eq, Address, proxy_address, proxied_servers, is_proxied, proxied_servers-Distinct,
}
use grpc_helper.Server.Registry.{EventClient, RpcServer, proxy_register}
use grpc_helper.Server.Registry.Changes.{IsProxy}
use grpc_helper.Server.Registry.Outcomes.{as_requested, proxy_register-IsChanged}
use grpc_helper.Server.Services.{ServiceInfo, Services}

-- A service with a port is a proxied one of its server.
is_proxied-lookup :
    (main_host name : String) (infos : Services) (info : ServiceInfo)
    → lookup name infos ≡ some info
    → (info.is_proxy && is_positive info.proxy_port) ≡ true
    → is_proxied main_host (values infos) (proxy_address main_host info) ≡ true
unfolding lookup
is_proxied-lookup main_host name [] info known registered = cc
is_proxied-lookup main_host name ((other, service) ∷ infos) info known registered =
    ground (arith, known, registered, is_proxied-lookup main_host name infos info)

All-contains :
    (names : List String) (name : String) (infos : Services)
    → All (λ n. IsProxy infos n) names
    → contains names name ≡ true
    → IsProxy infos name
All-contains [] name infos all among = cc
All-contains (n ∷ names) name infos (here, all) among = elim (string_eq.dec name n) [
  | yes same ↦ subst (IsProxy infos) (sym same) here
  | no other ↦ All-contains names name infos all (ground (arith, other, among))
]

-- Where the services of a manager are to be reached: at the port of its server, on the host that it
-- registers, which is the current one or the main one.
abbrev pub registered_address : Machine → ℕ → Proxied → Address
registered_address machine port p =
    let host = if p.use_current_host then get_current_ip machine p.main_host else p.main_host in
    record { host = if host == "" then p.main_host else host; port = pos port }

-- A service that is registered: it has the version and the address of its manager, and the main server
-- lists the address among the servers of its proxies, once.
pub record IsRegisteredAt (p : Proxied) (address : Address) (name : String) (infos : Services)
    : Type 0 where
  pub info : ServiceInfo
  pub known : lookup name infos ≡ some info
  pub proxied : info.is_proxy ≡ true
  pub version : info.version ≡ p.proxied_version
  pub reached : proxy_address p.main_host info ≡ address
  pub listed : contains (proxied_servers p.main_host (values infos)) address ≡ true

registered_info :
    (machine : Machine) (port : ℕ) (p : Proxied) (service : ServiceInfo)
    → (is_zero (pos port) ≡ false)
    → service.is_proxy ≡ true
    → (proxy_address p.main_host (record service {
      version = (proxy_request machine port p).version;
      proxy_port = (proxy_request machine port p).port;
      proxy_host = (proxy_request machine port p).host;
    })
        ≡ registered_address machine port p)
      × ((service.is_proxy && is_positive (pos port)) ≡ true)
unfolding proxy_address proxy_request is_positive is_zero not_positive
registered_info machine port p service some_port proxy = ground (arith, some_port, proxy)

pub proxy_request-IsRegisteredAt :
    (C : EventClient) (machine : Machine) (port : ℕ) (p : Proxied) (s : RpcServer C) (name : String)
    → (proxy_register C (proxy_request machine port p) s).0 ≡ ok tt
    → contains p.proxied_services name ≡ true
    → IsRegisteredAt p
        (registered_address machine port p)
        name
        (proxy_register C (proxy_request machine port p) s).1.infos
unfolding proxy_request
proxy_request-IsRegisteredAt C machine port p s name accepted among =
    elim (proxy_register-IsChanged C (proxy_request machine port p) s) [
      | inl refused ↦ cc (refused.raises, accepted)
      | inr (has_port, changed) ↦
          let before = All-contains p.proxied_services name s.infos changed.accepted.1 among in
          let info = as_requested C (proxy_request machine port p) before.service in
          let after = (proxy_register C (proxy_request machine port p) s).1.infos in
          let known : lookup name after ≡ some info =
            ground (arith, changed.services name, among, before.found) in
          let (reached, listed) =
            registered_info machine port p before.service has_port.1 before.proxy in
          record {
            info = info;
            known = known;
            proxied = before.proxy;
            version = refl;
            reached = reached;
            listed =
                (proxied_servers-Distinct p.main_host (values after)).1
                  (registered_address machine port p)
                ∙ subst (λ (a : Address). is_proxied p.main_host (values after) a ≡ true) reached
                    (is_proxied-lookup p.main_host name after info known listed);
          }
    ]
