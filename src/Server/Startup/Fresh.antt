-- ===== src/Server/Startup/Fresh.antt =====
-- src/grpc_helper/server.py: a server that starts in a workspace without a file of proxies.
use grpc_helper.Base.{
  String, Bool, true, false, none, List, [], ◌∷◌, Bool-cases, inl, inr, arith, ◌≡◌, refl, subst,
  All, ◌==◌,
}
use grpc_helper.Base.{string_eq}
use grpc_helper.Base.Dict.{lookup, insert, NodupKeys, insert-NodupKeys}
use grpc_helper.Base.Number.{ℤ, pos, is_positive, not_positive, is_zero}
use grpc_helper.Disk.{object, member_end}
use grpc_helper.Errors.{ok, bind-eq-ok, ok_injective, Result-cases}
use grpc_helper.Server.Services.{ServiceInfo, Services, proxies_model}
use grpc_helper.Server.Startup.{
  RpcServiceDescriptor, persisted_model, version_range, proxy_fields, build_info, build_infos,
}
use grpc_helper.Server.Startup.Restart.{AllFit}

module _ (fits : ℤ → Bool) where
  no_model : (name : String) → persisted_model name (object member_end) ≡ ok none
  unfolding persisted_model lookup
  no_model name = refl

  build_info-fresh :
      (d : RpcServiceDescriptor) (info : ServiceInfo)
      → build_info fits (object member_end) d ≡ ok info
      → info.proxy_port ≡ pos 0
  unfolding build_info proxy_fields
  build_info-fresh d info built = elim (Result-cases (version_range d.api_version)) [
    | inl (e, wrong) ↦ absurd (ground (arith, wrong, no_model d.name))
    | inr ((current, supported), known) ↦ ground (arith, known, no_model d.name)
  ]

  -- No service has a port.
  abbrev pub NoPorts : Services → Type 0
  NoPorts infos = All (λ (name, service). service.proxy_port ≡ pos 0) infos

  insert-NoPorts :
      (name : String) (service : ServiceInfo) (infos : Services)
      → service.proxy_port ≡ pos 0
      → NoPorts infos
      → NoPorts (insert name service infos)
  unfolding insert
  insert-NoPorts name service [] zero none_before = (zero, tt)
  insert-NoPorts name service ((other, first) ∷ infos) zero (first_zero, rest) =
      elim (Bool-cases (name == other)) [
        | inl same ↦ ground (arith, same)
        | inr different ↦ ground (arith, different, insert-NoPorts name service infos zero rest)
      ]

  pub build_infos-fresh :
      (descriptors : List RpcServiceDescriptor) (before infos : Services)
      → build_infos fits (object member_end) descriptors before ≡ ok infos
      → NodupKeys before
      → NoPorts before
      → NodupKeys infos × NoPorts infos
  unfolding build_infos
  build_infos-fresh [] before infos built once zero =
      subst (λ (d : Services). NodupKeys d × NoPorts d) (ok_injective built) (once, zero)
  build_infos-fresh (d ∷ rest) before infos built once zero =
      let (info, first, later) =
        bind-eq-ok (build_info fits (object member_end) d)
          (λ (info : ServiceInfo).
            build_infos fits (object member_end) rest (insert info.name info before))
          built in
      build_infos-fresh rest (insert info.name info before) infos later
        (insert-NodupKeys info.name info before once)
        (insert-NoPorts info.name info before (build_info-fresh d info first) zero)

  no_positive_port : (port : ℤ) → port ≡ pos 0 → is_positive port ≡ false
  unfolding is_positive not_positive is_zero
  no_positive_port port zero = rw zero refl

  pub proxies_model-empty : (infos : Services) → NoPorts infos → proxies_model infos ≡ []
  unfolding proxies_model
  proxies_model-empty [] zero = refl
  proxies_model-empty ((name, service) ∷ infos) (first, rest) =
      let none_here = no_positive_port service.proxy_port first in
      ground (arith, none_here, proxies_model-empty infos rest)

  pub NoPorts-AllFit : (infos : Services) → fits (pos 0) ≡ true → NoPorts infos → AllFit fits infos
  unfolding lookup
  NoPorts-AllFit [] zero_fits zero name service found = cc
  NoPorts-AllFit ((other, first) ∷ infos) zero_fits (first_zero, rest) name service found =
      elim (Bool-cases (name == other)) [
        | inl same ↦ ground (arith, same, first_zero)
        | inr different ↦
            NoPorts-AllFit infos zero_fits rest name service (ground (arith, different))
      ]
