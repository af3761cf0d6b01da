-- ===== src/Server/Registry/Outcomes.antt =====
-- src/grpc_helper/server.py: what `proxy_register` and `proxy_forget` leave on every branch.
use grpc_helper.Base.{
  String, false, ◌||◌, List, map_option, contains, if◌then◌else◌, ◌==◌, arith, ◌≡◌, ◌⊎◌, refl, inl,
  inr, Bool-cases,
}
use grpc_helper.Base.{string_eq}
use grpc_helper.Base.Dict.{lookup, NodupKeys}
use grpc_helper.Base.Number.{pos, is_zero}
use grpc_helper.Errors.{Exception, Result, raised}
use grpc_helper.Server.Services.{
  ServiceInfo, ProxyRegisterRequest, change_services, register, forget,
}
use grpc_helper.Server.Registry.{
  EventClient, RpcServer, persist_proxies, send_event, proxy_register, proxy_forget,
}
use grpc_helper.Server.Registry.Changes.{
  AllProxies, check_proxy_names-cases, lookup-change_services, change_services-NodupKeys,
}

module _ (C : EventClient) where
  -- A request that was refused: it raised and left the server as it was.
  pub record IsRefused (s : RpcServer C) (r : Result (Unit {0})) (t : RpcServer C) : Type 0 where
    pub error : Exception
    pub raises : r ≡ raised error
    pub same : t ≡ s

  -- A request that was carried out: its names are those of proxies, these have changed and no other
  -- service has, the file holds the proxies as they are now, and only the event may still raise.
  pub record IsChanged (change : ServiceInfo → ServiceInfo) (names : List String)
      (s t : RpcServer C) : Type 0 where
    pub accepted : AllProxies names s.infos
    pub services :
        (name : String)
        → lookup name t.infos ≡ (
            if contains names name
            then map_option change (lookup name s.infos)
            else lookup name s.infos)
    pub written : t.disk ≡ (persist_proxies C (record s { infos = t.infos })).disk
    pub workspace : t.workspace ≡ s.workspace
    pub once : NodupKeys s.infos → NodupKeys t.infos

  send_event-infos :
      (name : String) (properties : List (String × String)) (s : RpcServer C)
      → ((send_event C name properties s).1.infos ≡ s.infos)
        × ((send_event C name properties s).1.disk ≡ s.disk)
        × ((send_event C name properties s).1.workspace ≡ s.workspace)
  unfolding send_event
  send_event-infos name properties s = ground arith

  -- The changes, the writing and the event.
  carry_out :
      (ServiceInfo → ServiceInfo)
      → List String
      → String
      → List (String × String)
      → RpcServer C
      → RpcServer C
  carry_out change names event properties s =
      (send_event C event properties
        (persist_proxies C (record s { infos = change_services change names s.infos }))).1

  carry_out-IsChanged :
      (change : ServiceInfo → ServiceInfo)
      → ((service : ServiceInfo) → change (change service) ≡ change service)
      → (names : List String) (event : String) (properties : List (String × String))
        (s : RpcServer C)
      → AllProxies names s.infos
      → IsChanged change names s (carry_out change names event properties s)
  unfolding carry_out persist_proxies
  carry_out-IsChanged change settled names event properties s proxies =
      let changed : RpcServer C = record s { infos = change_services change names s.infos } in
      let (infos, disk, workspace) =
        send_event-infos event properties (persist_proxies C changed) in
      record {
        accepted = proxies;
        services = λ name. rw infos (lookup-change_services change settled name names s.infos);
        written = rw infos disk;
        workspace = workspace;
        once = λ before. rw infos (change_services-NodupKeys change names s.infos before);
      }

  -- A service as a registration asks for it, and one without a proxy.
  abbrev pub as_requested : ProxyRegisterRequest → ServiceInfo → ServiceInfo
  as_requested request service = record service {
    version = request.version;
    proxy_port = request.port;
    proxy_host = request.host;
  }

  abbrev pub forgotten : ServiceInfo → ServiceInfo
  forgotten service = record service { proxy_port = pos 0; proxy_host = "" }

  abbrev pub HasPort : ProxyRegisterRequest → Type 0
  HasPort request = ((request.version == "") ≡ false) × (is_zero request.port ≡ false)

  pub proxy_register-IsChanged :
      (request : ProxyRegisterRequest) (s : RpcServer C)
      → IsRefused s (proxy_register C request s).0 (proxy_register C request s).1
        ⊎ (HasPort request
            × IsChanged (as_requested request) request.names s (proxy_register C request s).1)
  unfolding proxy_register carry_out register
  proxy_register-IsChanged request s = elim (check_proxy_names-cases request.names s.infos) [
    | inl (e, wrong) ↦ inl (rw wrong (record { error = e; raises = refl; same = refl }))
    | inr (accepted, proxies) ↦ elim (Bool-cases (request.version == "" || is_zero request.port)) [
      | inl missing ↦
          inl (rw (accepted, missing) (record { error = _; raises = refl; same = refl }))
      | inr complete ↦
          rw (accepted, complete)
            (inr (
              (ground arith, ground arith),
              carry_out-IsChanged (register request) (λ service. refl) request.names
                  "RPC_PROXY_REGISTER" _ s proxies,
            ))
    ]
  ]

  -- A request to forget proxies is refused, and then nothing has changed; or its names are those of
  -- proxies, and these alone have no port and no host any more, in the file either.
  pub proxy_forget-IsChanged :
      (names : List String) (s : RpcServer C)
      → IsRefused s (proxy_forget C names s).0 (proxy_forget C names s).1
        ⊎ IsChanged forgotten names s (proxy_forget C names s).1
  unfolding proxy_forget carry_out forget
  proxy_forget-IsChanged names s = elim (check_proxy_names-cases names s.infos) [
    | inl (e, wrong) ↦ inl (rw wrong (record { error = e; raises = refl; same = refl }))
    | inr (accepted, proxies) ↦
        rw accepted
          (inr (carry_out-IsChanged forget (λ service. refl) names "RPC_PROXY_FORGET" _ s proxies))
  ]
