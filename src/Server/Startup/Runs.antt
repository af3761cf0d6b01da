-- ===== src/Server/Startup/Runs.antt =====
-- src/grpc_helper/server.py: a server from its first start through any requests on its proxies to the
-- start of the next one.
use grpc_helper.Base.{
  String, Bool, true, none, some, List, [], contains, Option-cases, Bool-cases, inl, inr, arith,
  ◌≡◌, refl, sym, ◌∙◌, subst,
}
use grpc_helper.Base.{string_eq}
use grpc_helper.Base.Dict.{lookup, NodupKeys}
use grpc_helper.Base.Number.{ℤ, pos}
use grpc_helper.Disk.{object, member_end, of_members, load_config}
use grpc_helper.Disk.Laws.{load_config-save_config}
use grpc_helper.Errors.{ok}
use grpc_helper.Server.Services.{
  ServiceInfo, ProxyRegisterRequest, Services, proxy_file, proxies_model,
}
use grpc_helper.Server.Registry.{
  EventClient, RpcServer, persist_proxies, proxy_register, proxy_forget,
}
use grpc_helper.Server.Registry.Outcomes.{
  IsChanged, as_requested, forgotten, proxy_register-IsChanged, proxy_forget-IsChanged,
}
use grpc_helper.Server.Startup.{RpcServiceDescriptor, build_infos, start_infos}
use grpc_helper.Server.Startup.Restart.{
  AllFit, AllVersioned, DistinctNames, AllRestarted, start_infos-kept,
}
use grpc_helper.Server.Startup.Fresh.{build_infos-fresh, proxies_model-empty, NoPorts-AllFit}

module _ (C : EventClient) (fits : ℤ → Bool) where
  -- Requests on proxies: a message holds the port of a registration.
  pub data ServerStep : RpcServer C → RpcServer C → Type 0 where
    step_register :
        (request : ProxyRegisterRequest) {s : RpcServer C}
        → fits request.port ≡ true
        → ServerStep s (proxy_register C request s).1
    step_forget : (names : List String) {s : RpcServer C} → ServerStep s (proxy_forget C names s).1

  pub data ServerRun : RpcServer C → RpcServer C → Type 0 where
    run_end : {s : RpcServer C} → ServerRun s s
    run_step : {s t u : RpcServer C} → ServerStep s t → ServerRun t u → ServerRun s u

  -- The file holds the proxies as they are.
  record IsServing (folder : String) (s : RpcServer C) : Type 0 where
    workspace : s.workspace ≡ some folder
    read :
        load_config (some proxy_file) none (some folder) s.disk
        ≡ ok (object (of_members (proxies_model s.infos)))
    once : NodupKeys s.infos
    fit : AllFit fits s.infos

  changed-AllFit :
      (change : ServiceInfo → ServiceInfo) (names : List String) (s t : RpcServer C)
      → ((service : ServiceInfo) → fits (change service).proxy_port ≡ true)
      → IsChanged C change names s t
      → AllFit fits s.infos
      → AllFit fits t.infos
  changed-AllFit change names s t fit_change changed fit name service found =
      elim (Option-cases (lookup name s.infos)) [
        | inl unknown ↦ absurd (ground (arith, unknown, changed.services name))
        | inr (before, known) ↦ elim (Bool-cases (contains names name)) [
          | inl named ↦
              let same : some (change before) ≡ some service =
                ground (arith, known, named, changed.services name) in
              ground (arith, same, fit_change before)
          | inr other ↦ fit name service (ground (arith, other, changed.services name))
        ]
      ]

  changed-IsServing :
      (folder : String) (change : ServiceInfo → ServiceInfo) (names : List String)
      (s t : RpcServer C)
      → ((service : ServiceInfo) → fits (change service).proxy_port ≡ true)
      → IsChanged C change names s t
      → IsServing folder s
      → IsServing folder t
  unfolding persist_proxies
  changed-IsServing folder change names s t fit_change changed serving = record {
    workspace = changed.workspace ∙ serving.workspace;
    read =
        rw (changed.written, serving.workspace)
          (load_config-save_config proxy_file folder none _ s.disk);
    once = changed.once serving.once;
    fit = changed-AllFit change names s t fit_change changed serving.fit;
  }

  step-IsServing :
      (folder : String) (s t : RpcServer C)
      → fits (pos 0) ≡ true
      → ServerStep s t
      → IsServing folder s
      → IsServing folder t
  step-IsServing folder s _ zero_fits (step_register request fit) serving =
      elim (proxy_register-IsChanged C request s) [
        | inl refused ↦ subst (IsServing folder) (sym refused.same) serving
        | inr (has_port, changed) ↦
            changed-IsServing folder (as_requested C request) request.names s _ (λ service. fit)
              changed serving
      ]
  step-IsServing folder s _ zero_fits (step_forget names) serving =
      elim (proxy_forget-IsChanged C names s) [
        | inl refused ↦ subst (IsServing folder) (sym refused.same) serving
        | inr changed ↦
            changed-IsServing folder (forgotten C) names s _ (λ service. zero_fits) changed serving
      ]

  run-IsServing :
      (folder : String) (s t : RpcServer C)
      → fits (pos 0) ≡ true
      → ServerRun s t
      → IsServing folder s
      → IsServing folder t
  run-IsServing folder s _ zero_fits run_end serving = serving
  run-IsServing folder s t zero_fits (run_step {t = between} step rest) serving =
      run-IsServing folder between t zero_fits rest
        (step-IsServing folder s between zero_fits step serving)

  -- A server that has started without persisted proxies.
  pub record IsFresh (folder : String) (descriptors : List RpcServiceDescriptor) (s : RpcServer C)
      : Type 0 where
    pub workspace : s.workspace ≡ some folder
    pub unread : load_config (some proxy_file) none (some folder) s.disk ≡ ok (object member_end)
    pub started : start_infos fits (some folder) s.disk descriptors ≡ ok s.infos

  fresh-IsServing :
      (folder : String) (descriptors : List RpcServiceDescriptor) (s : RpcServer C)
      → fits (pos 0) ≡ true
      → IsFresh folder descriptors s
      → IsServing folder s
  unfolding start_infos
  fresh-IsServing folder descriptors s zero_fits fresh =
      let built : build_infos fits (object member_end) descriptors [] ≡ ok s.infos =
        ground (arith, fresh.unread, fresh.started) in
      let (once, no_ports) = build_infos-fresh fits descriptors [] s.infos built tt tt in
      record {
        workspace = fresh.workspace;
        read = rw (fresh.unread, proxies_model-empty fits s.infos no_ports) refl;
        once = once;
        fit = NoPorts-AllFit fits s.infos zero_fits no_ports;
      }

  -- A server has started in a workspace without persisted proxies and has had any requests to register
  -- and to forget proxies, accepted or refused, with ports that a message can hold. Then another one
  -- starts in its workspace with the same or other descriptors, of different names, each with an API
  -- version; and each of its services has the version, the port and the host that are registered in
  -- the end, if the old server has a proxy of that name with a port above zero, and else the version of
  -- its module and no port.
  pub ServerRun-restart :
      (folder : String) (descriptors next : List RpcServiceDescriptor) (s t : RpcServer C)
      → fits (pos 0) ≡ true
      → IsFresh folder descriptors s
      → ServerRun s t
      → AllVersioned next
      → DistinctNames next
      → (again : Services) × (start_infos fits (some folder) t.disk next ≡ ok again)
        × AllRestarted t.infos again next
  ServerRun-restart folder descriptors next s t zero_fits fresh run versioned distinct =
      let serving =
        run-IsServing folder s t zero_fits run
          (fresh-IsServing folder descriptors s zero_fits fresh) in
      start_infos-kept fits folder t.disk t.infos next serving.read serving.once serving.fit
        versioned distinct
