-- ===== src/Server/Proxied.antt =====
-- src/grpc_helper/manager.py: the remote servers that have registered proxies, `_proxied_servers`
-- of `RpcManager`, and the registration of `RpcProxiedManager`.
use grpc_helper.Base.{
  String, Bool, true, false, ◌&&◌, ◌||◌, List, [], ◌∷◌, contains, if◌then◌else◌, ◌==◌, Eq, ◌==◌,
  arith, ◌≡◌, refl, ap, ap₂,
}
use grpc_helper.Base.{string_eq}
use native.Mathlib.Decide.{ℕ_discrete}
use grpc_helper.Base.Number.{ℤ, pos, negsuc, is_positive}
use grpc_helper.Errors.{Result, ok, raised}
use grpc_helper.Server.Services.{ServiceInfo}

-- A remote server: its host and its port.
pub record Address : Type 0 where
  pub host : String
  pub port : ℤ

abbrev address : String → ℤ → Address
address host port = record { host = host; port = port }

same_number : (a b : ℤ) → Dec (a ≡ b)
same_number (pos a) (pos b) = elim (ℕ_discrete a b) [
  | yes p ↦ yes (ap pos p)
  | no n ↦ no (λ q. n (cc q))
]
same_number (negsuc a) (negsuc b) = elim (ℕ_discrete a b) [
  | yes p ↦ yes (ap negsuc p)
  | no n ↦ no (λ q. n (cc q))
]
same_number (pos a) (negsuc b) = no (λ q. cc q)
same_number (negsuc a) (pos b) = no (λ q. cc q)

same_address : (a b : Address) → Dec (a ≡ b)
same_address a b = elim (string_eq.dec a.host b.host) [
  | no n ↦ no (λ q. n (ap (λ (c : Address). c.host) q))
  | yes h ↦ elim (same_number a.port b.port) [
    | no n ↦ no (λ q. n (ap (λ (c : Address). c.port) q))
    | yes p ↦ yes (ap₂ address h p)
  ]
]

instance pub address_eq : Eq Address
address_eq = record { dec = same_address }

-- The address of a service's proxy; without a host it is on the main host.
unfoldable pub proxy_address : String → ServiceInfo → Address
proxy_address main_host service = record {
  host = if service.proxy_host == "" then main_host else service.proxy_host;
  port = service.proxy_port;
}

-- `proxied_servers.add(address)`, on a set as a list without repetition
pub add : Address → List Address → List Address
add address servers = if contains servers address then servers else address ∷ servers

-- `_proxied_servers`, of the services that the server's `info` lists. A set has no order: the list
-- stands for its elements.
unfoldable pub proxied_servers : String → List ServiceInfo → List Address
unfolding add proxy_address
proxied_servers main_host [] = []
proxied_servers main_host (service ∷ rest) =
    let others = proxied_servers main_host rest in
    if service.is_proxy && is_positive service.proxy_port
    then add (proxy_address main_host service) others
    else others

abbrev pub Distinct : List Address → Type 0
Distinct [] = Unit
Distinct (a ∷ rest) = (contains rest a ≡ false) × Distinct rest

-- Some service of the list is a proxy with this address and a port.
abbrev pub is_proxied : String → List ServiceInfo → Address → Bool
is_proxied main_host [] address = false
is_proxied main_host (service ∷ rest) address =
    (address == proxy_address main_host service
      && (service.is_proxy && is_positive service.proxy_port))
    || is_proxied main_host rest address

-- Each remote server is listed once, however many services it has registered, and the listed ones
-- are those with a registered proxy.
pub proxied_servers-Distinct :
    (main_host : String) (services : List ServiceInfo)
    → Distinct (proxied_servers main_host services)
      × ((address : Address)
          → contains (proxied_servers main_host services) address
            ≡ is_proxied main_host services address)
unfolding proxied_servers add
proxied_servers-Distinct main_host [] = (tt, λ address. refl)
proxied_servers-Distinct main_host (service ∷ rest) =
    let (distinct, same) = proxied_servers-Distinct main_host rest in
    (
      ground (arith, distinct, same (proxy_address main_host service)),
      λ address. ground (arith, same address, same (proxy_address main_host service)),
    )

-- What `RpcProxiedManager` does on the main server: register its services, and forget them. A call
-- may raise.
pub record MainServer : Type 1 where
  pub World : Type 0
  pub proxy_register : List String → String → String → ℤ → World → Result (Unit {0}) × World
  pub proxy_forget : List String → World → Result (Unit {0}) × World

-- A manager whose services are proxied: its services, their version, its port, the host that it
-- registers, and whether its client is set, which it is after a registration.
pub record RpcProxiedManager : Type 0 where
  pub services : List String
  pub version : String
  pub port : ℤ
  pub host : String
  pub has_client : Bool

module _ (M : MainServer) where
  -- `_load`
  unfoldable pub load_proxied :
      RpcProxiedManager → M.World → Result (Unit {0}) × RpcProxiedManager × M.World
  load_proxied m world =
      let (r, after) = M.proxy_register m.services m.version m.host m.port world in
      elim r [
        | raised e ↦ (raised e, m, after)
        | ok _ ↦ (ok tt, record m { has_client = true }, after)
      ]

  -- `_shutdown`
  unfoldable pub shutdown_proxied : RpcProxiedManager → M.World → Result (Unit {0}) × M.World
  shutdown_proxied m world =
      if m.has_client then M.proxy_forget m.services world else (ok tt, world)
