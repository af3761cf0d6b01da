-- ===== src/Server/Servicer/Methods.antt =====
-- src/grpc_helper/server.py: the attributes of an `RpcServicer`.
use grpc_helper.Base.{
  String, Bool, true, false, not, ◌&&◌, Option, none, some, [], ◌∷◌, any, first_some, if◌then◌else◌,
  ◌=ℕ◌, arith, ◌≡◌, ◌⊎◌, refl, sym, ◌∙◌, Bool-cases, inl, inr,
}
use grpc_helper.Base.{string_eq}
use grpc_helper.Base.Dict.{Dict, lookup, insert, NodupKeys, lookup-insert, lookup-nil}
use grpc_helper.Errors.{Result, ok, raised, error_param_invalid, HasCode}
use grpc_helper.Server.Services.{ServiceInfo}
use grpc_helper.Server.Servicer.{
  Stub, Attribute, returns_result, returns, Handler, rpc_method, stub_method, is_streaming,
  is_method, is_declared, served, make_handler, make_servicer,
}

-- A method that a service with a manager may not have: one that declares to return a `Result`.
abbrev pub is_refused : Stub → ServiceInfo → String × Attribute → Bool
is_refused stub info (n, attribute) = elim attribute.return_annotation [
  | returns_result ↦ is_method stub n attribute && (attribute.parameters =ℕ 1 && not info.is_proxy)
  | _ ↦ false
]

-- What calls of a method meet: for a proxy the method of the remote server, and else the method of
-- the manager, through an RPC method if its signature is declared with one parameter.
abbrev pub expected : Stub → ServiceInfo → String → Attribute → Option Handler
expected stub info n attribute =
    if not (is_method stub n attribute)
    then none
    else if info.is_proxy
    then some (
        rpc_method (record {
          name = n;
          manager = false;
          return_type = none;
          stub = true;
          streaming = is_streaming stub n;
        }))
    else elim attribute.return_annotation [
      | returns t ↦
          if attribute.parameters =ℕ 1
          then some (
              rpc_method (record {
                name = n;
                manager = true;
                return_type = some t;
                stub = false;
                streaming = is_streaming stub n;
              }))
          else some stub_method
      | _ ↦ some stub_method
    ]

abbrev pub expected_at : Stub → ServiceInfo → String → Dict String Attribute → Option Handler
expected_at stub info n attributes = elim (lookup n attributes) [
  | none ↦ none
  | some attribute ↦ expected stub info n attribute
]

-- The handler that was made, if one was.
abbrev made : Result Handler → Option Handler
made (raised e) = none
made (ok handler) = some handler

make_handler-expected :
    (stub : Stub) (info : ServiceInfo) (n : String) (attribute : Attribute)
    → is_method stub n attribute ≡ true
    → is_refused stub info (n, attribute) ≡ false
    → made (make_handler stub info n attribute) ≡ expected stub info n attribute
unfolding make_handler is_declared served
make_handler-expected stub info n attribute method allowed = ground (arith, method, allowed)

make_handler-refused :
    (stub : Stub) (info : ServiceInfo) (n : String) (attribute : Attribute)
    → is_refused stub info (n, attribute) ≡ true
    → HasCode error_param_invalid (make_handler stub info n attribute)
unfolding make_handler is_declared served
make_handler-refused stub info n attribute refused = ground (arith, refused)

made-cases : (r : Result Handler) → (made r ≡ none) ⊎ ((handler : Handler) × (r ≡ ok handler))
made-cases (raised e) = inl refl
made-cases (ok handler) = inr (handler, refl)

expected_some :
    (stub : Stub) (info : ServiceInfo) (n : String) (attribute : Attribute)
    → is_method stub n attribute ≡ true
    → ¬ (expected stub info n attribute ≡ none)
expected_some stub info n attribute method absent = ground (arith, method, absent)

-- Each attribute on from here, over those that the servicer has already.
make_servicer-from :
    (stub : Stub) (info : ServiceInfo) (attributes : Dict String Attribute)
    (servicer : Dict String Handler)
    → NodupKeys attributes
    → any (is_refused stub info) attributes ≡ false
    → (all : Dict String Handler) × (make_servicer stub info attributes servicer ≡ ok all)
      × ((n : String)
          → lookup n all ≡ first_some (expected_at stub info n attributes) (lookup n servicer))
unfolding make_servicer lookup
make_servicer-from stub info [] servicer once allowed = (servicer, refl, λ n. refl)
make_servicer-from stub info ((n, attribute) ∷ rest) servicer (fresh, once) allowed =
    elim (Bool-cases (is_method stub n attribute)) [
      | inr skipped ↦
          let (all, returned, found) =
            make_servicer-from stub info rest servicer once (ground (arith, allowed)) in
          (all, rw skipped returned, λ j. ground (arith, found j, skipped, fresh))
      | inl method ↦
          let allowed' : is_refused stub info (n, attribute) ≡ false = ground (arith, allowed) in
          let same = make_handler-expected stub info n attribute method allowed' in
          elim (made-cases (make_handler stub info n attribute)) [
            | inl failed ↦ absurd (expected_some stub info n attribute method (sym same ∙ failed))
            | inr (handler, done) ↦
                let (all, returned, found) =
                  make_servicer-from stub info rest (insert n handler servicer) once
                    (ground (arith, allowed)) in
                (
                  all,
                  rw (method, done) returned,
                  λ j.
                      ground
                        (arith, found j, fresh, sym same, done, lookup-insert j n handler servicer),
                )
          ]
    ]

refused_here :
    (stub : Stub) (info : ServiceInfo) (n : String) (attribute : Attribute)
    (rest : Dict String Attribute) (servicer : Dict String Handler)
    → is_refused stub info (n, attribute) ≡ true
    → HasCode error_param_invalid (make_servicer stub info ((n, attribute) ∷ rest) servicer)
unfolding make_servicer
refused_here stub info n attribute rest servicer here = ground (arith, here)

make_servicer-refused :
    (stub : Stub) (info : ServiceInfo) (attributes : Dict String Attribute)
    (servicer : Dict String Handler)
    → any (is_refused stub info) attributes ≡ true
    → HasCode error_param_invalid (make_servicer stub info attributes servicer)
unfolding make_servicer
make_servicer-refused stub info [] servicer refused = cc
make_servicer-refused stub info ((n, attribute) ∷ rest) servicer refused =
    elim (Bool-cases (is_refused stub info (n, attribute))) [
      | inl here ↦ refused_here stub info n attribute rest servicer here
      | inr later ↦
          let refused' : any (is_refused stub info) rest ≡ true = ground (arith, refused, later) in
          elim (Bool-cases (is_method stub n attribute)) [
            | inr skipped ↦ rw skipped (make_servicer-refused stub info rest servicer refused')
            | inl method ↦ elim (made-cases (make_handler stub info n attribute)) [
              | inl failed ↦ absurd (
                  expected_some stub info n attribute method
                    (sym (make_handler-expected stub info n attribute method later) ∙ failed))
              | inr (handler, done) ↦
                  rw (method, done)
                    (make_servicer-refused stub info rest (insert n handler servicer) refused')
            ]
          ]
    ]

-- The servicer of a manager whose attributes have names of their own. If a method that is to be
-- served declares to return a `Result`, the servicer is refused as an invalid parameter. Otherwise
-- it has, for each public callable attribute of the manager that the stub has, and for nothing else,
-- the method that is expected; so the servicer of no manager has no method, also for a proxy.
pub make_servicer-expected :
    (stub : Stub) (info : ServiceInfo) (attributes : Dict String Attribute)
    → NodupKeys attributes
    → (any (is_refused stub info) attributes ≡ true
        → HasCode error_param_invalid (make_servicer stub info attributes []))
      × (any (is_refused stub info) attributes ≡ false
          → (all : Dict String Handler) × (make_servicer stub info attributes [] ≡ ok all)
            × ((n : String) → lookup n all ≡ expected_at stub info n attributes))
make_servicer-expected stub info attributes once = (
  make_servicer-refused stub info attributes [],
  λ allowed.
      let (all, returned, found) = make_servicer-from stub info attributes [] once allowed in
      (all, returned, λ n. ground (arith, found n, lookup-nil {V = Handler} n)),
)
