-- ===== src/Server/Registry/Changes.antt =====
-- src/grpc_helper/server.py: which requests on proxies are accepted, and what they change.
use grpc_helper.Base.{
  String, true, false, not, ◌||◌, some, List, [], ◌∷◌, any, is_empty, contains, All, map_option,
  if◌then◌else◌, ◌==◌, arith, ◌≡◌, ◌⊎◌, ◌↔◌, refl, inl, inr, Bool-cases, Option-cases,
}
use grpc_helper.Base.{string_eq}
use grpc_helper.Base.Dict.{lookup, insert, has, lookup-insert, NodupKeys, insert-NodupKeys}
use grpc_helper.Errors.{
  Exception, rpc_exception, error_param_missing, error_item_unknown, error_param_invalid, ok,
  raised,
}
use grpc_helper.Server.Services.{
  ServiceInfo, Services, named_services, check_service_names, check_proxy_names, change_services,
}

-- A registered service that is a proxy.
pub record IsProxy (infos : Services) (name : String) : Type 0 where
  pub service : ServiceInfo
  pub found : lookup name infos ≡ some service
  pub proxy : service.is_proxy ≡ true
  pub named : (name == "") ≡ false

-- The names that a request on proxies may have.
abbrev pub AllProxies : List String → Services → Type 0
AllProxies names infos = (is_empty names ≡ false) × All (λ name. IsProxy infos name) names

named_proxies :
    (names : List String) (infos : Services)
    → All (λ name. IsProxy infos name) names
    → (any (λ x. x == "") names ≡ false)
      × (any (λ n. not (has n infos)) names ≡ false)
      × (any (λ service. not service.is_proxy) (named_services names infos) ≡ false)
unfolding named_services
named_proxies [] infos all = (refl, refl, refl)
named_proxies (name ∷ names) infos (one, all) =
    let (filled, known, proxies) = named_proxies names infos all in
    ground (arith, filled, known, proxies, one.found, one.proxy, one.named)

proxies_named :
    (names : List String) (infos : Services)
    → any (λ x. x == "") names ≡ false
    → any (λ n. not (has n infos)) names ≡ false
    → any (λ service. not service.is_proxy) (named_services names infos) ≡ false
    → All (λ name. IsProxy infos name) names
unfolding named_services
proxies_named [] infos filled known proxies = tt
proxies_named (name ∷ names) infos filled known proxies = elim (Option-cases (lookup name infos)) [
  | inl unknown ↦ absurd (ground (arith, unknown))
  | inr (service, found) ↦ (
    record {
      service = service;
      found = found;
      proxy = ground (arith, found);
      named = ground arith;
    },
    proxies_named names infos (ground arith) (ground arith) (ground (arith, found)),
  )
]

-- The names of a request are accepted exactly if there is one at least and each is that of a
-- registered service that is a proxy.
pub check_proxy_names-AllProxies :
    (names : List String) (infos : Services)
    → (check_proxy_names names infos ≡ ok (named_services names infos)) ↔ AllProxies names infos
unfolding check_proxy_names check_service_names
check_proxy_names-AllProxies names infos = (
  λ accepted.
      (ground arith, proxies_named names infos (ground arith) (ground arith) (ground arith)),
  λ (some_name, all).
      let (filled, known, proxies) = named_proxies names infos all in
      ground (arith, filled, known, proxies),
)

-- The check of the names raises, or it returns the services of accepted names.
pub check_proxy_names-cases :
    (names : List String) (infos : Services)
    → ((e : Exception) × (check_proxy_names names infos ≡ raised e))
      ⊎ ((check_proxy_names names infos ≡ ok (named_services names infos)) × AllProxies names infos)
unfolding check_proxy_names check_service_names
check_proxy_names-cases names infos =
    elim (Bool-cases (is_empty names || any (λ x. x == "") names)) [
      | inl missing ↦ inl (
        rpc_exception "Missing input name in request" error_param_missing,
        ground (arith, missing),
      )
      | inr filled ↦ elim (Bool-cases (any (λ n. not (has n infos)) names)) [
        | inl unknown ↦ inl (
          rpc_exception "At least one of the required service names is unknown" error_item_unknown,
          ground (arith, filled, unknown),
        )
        | inr known ↦
            elim (Bool-cases (any (λ service. not service.is_proxy) (named_services names infos))) [
              | inl real ↦ inl (
                rpc_exception "At least one of the required services is not a proxy"
                    error_param_invalid,
                ground (arith, filled, known, real),
              )
              | inr proxies ↦ inr (
                ground (arith, filled, known, proxies),
                (
                  ground (arith, filled),
                  proxies_named names infos (ground (arith, filled)) known proxies,
                ),
              )
            ]
      ]
    ]

module _ (change : ServiceInfo → ServiceInfo)
    (settled : (s : ServiceInfo) → change (change s) ≡ change s) where
  -- A change reaches the services that are named, once or often, and no others.
  pub lookup-change_services :
      (name : String) (names : List String) (infos : Services)
      → lookup name (change_services change names infos)
        ≡ (if contains names name then map_option change (lookup name infos) else lookup name infos)
  unfolding change_services
  lookup-change_services name [] infos = refl
  lookup-change_services name (other ∷ names) infos = elim (Option-cases (lookup other infos)) [
    | inl unknown ↦ ground (arith, unknown, lookup-change_services name names infos)
    | inr (service, known) ↦ ground (
      arith,
      known,
      lookup-insert name other (change service) infos,
      lookup-change_services name names (insert other (change service) infos),
      settled service,
    )
  ]

pub change_services-NodupKeys :
    (change : ServiceInfo → ServiceInfo) (names : List String) (infos : Services)
    → NodupKeys infos
    → NodupKeys (change_services change names infos)
unfolding change_services
change_services-NodupKeys change [] infos once = once
change_services-NodupKeys change (name ∷ names) infos once =
    elim (Option-cases (lookup name infos)) [
      | inl unknown ↦ ground (arith, unknown, change_services-NodupKeys change names infos once)
      | inr (service, known) ↦ ground (
        arith,
        known,
        change_services-NodupKeys change names (insert name (change service) infos)
            (insert-NodupKeys name (change service) infos once),
      )
    ]
