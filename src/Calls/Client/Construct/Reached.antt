-- ===== src/Calls/Client/Construct/Reached.antt =====
-- src/grpc_helper/client.py: what a call of a client's method carries to the server.
use grpc_helper.Base.{
  ℕ, ◌≤◌, ◌<◌, String, ◌<>◌, Bool, true, false, Option, none, some, List, [], ◌∷◌, ◌++◌, All,
  contains, if◌then◌else◌, arith, ◌≡◌, refl,
}
use grpc_helper.Base.{string_eq}
use grpc_helper.Base.Dict.{Dict, keys, lookup, insert, has, NodupKeys, lookup-insert}
use grpc_helper.Base.Number.{ℤ, pos, str, str_ℤ}
use grpc_helper.Calls.Client.Construct.{
  Machine, StubClass, StubMethod, starts_dunder, make_method, make_stub, ClientName,
  shared_metadata, versioned, StubsMap, RpcClient, add_stubs, make_client,
}
use grpc_helper.Calls.Metadata.{RpcMetadata, as_tuple, from_context}
use grpc_helper.Calls.Metadata.RoundTrip.{attribute_keys, from_context-as_tuple}
use grpc_helper.Calls.Method.{check_version}
use grpc_helper.Calls.Method.Versions.{check_version-str}
use grpc_helper.Errors.{ok, HasCode, error_api_server_too_old, error_api_client_too_old}
use grpc_helper.Server.Services.{ServiceInfo}
use grpc_helper.Server.Servicer.{Stub, is_streaming}

lookup-make_stub :
    (channel : String) (timeout : Option ℕ) (metadata : RpcMetadata) (exception : Bool)
    (stub : StubClass) (methods : Stub) (made : Dict String StubMethod) (n : String)
    → starts_dunder n ≡ false
    → lookup n (make_stub channel timeout metadata exception stub methods made) ≡ (
        if has n methods
        then some (make_method channel timeout metadata exception stub n)
        else lookup n made)
unfolding make_stub lookup
lookup-make_stub channel timeout metadata exception stub [] made n plain = refl
lookup-make_stub channel timeout metadata exception stub ((j, kind) ∷ rest) made n plain =
    let method = make_method channel timeout metadata exception stub j in
    ground (
      arith,
      lookup-make_stub channel timeout metadata exception stub rest made n plain,
      lookup-make_stub channel timeout metadata exception stub rest (insert j method made) n plain,
      lookup-insert n j method made,
      plain,
    )

lookup-add_stubs :
    (target_host : String) (timeout : Option ℕ) (metadata : RpcMetadata) (exception : Bool)
    (stubs_map : StubsMap) (client : RpcClient) (name : String)
    → NodupKeys stubs_map
    → lookup name (add_stubs target_host timeout metadata exception stubs_map client)
      ≡ (elim (lookup name stubs_map) [
        | none ↦ lookup name client
        | some (typ, ver) ↦
            some
              (make_stub target_host timeout (versioned ver metadata) exception typ typ.methods [])
      ])
unfolding add_stubs lookup
lookup-add_stubs target_host timeout metadata exception [] client name once = refl
lookup-add_stubs target_host timeout metadata exception ((j, (typ, ver)) ∷ rest) client name
      (fresh, once) =
    let stub =
      make_stub target_host timeout (versioned ver metadata) exception typ typ.methods [] in
    ground (
      arith,
      lookup-add_stubs target_host timeout metadata exception rest (insert j stub client) name once,
      lookup-insert name j stub client,
      fresh,
    )

-- A method of a client as it is made, and what the server takes from a call of it: the metadata of
-- the client with the version of the stub; and the verdict on this version, if the stub has one.
pub record IsReached (client : RpcClient) (name n : String) (shared : RpcMetadata) (ver : Option ℤ)
    (timeout : Option ℕ) (exception streams : Bool) (extra : List (String × String))
    (info : ServiceInfo) : Type 0 where
  pub stub : Dict String StubMethod
  pub method : StubMethod
  pub has_stub : lookup name client ≡ some stub
  pub has_method : lookup n stub ≡ some method
  pub kind : method.streaming ≡ streams
  pub waits : method.timeout ≡ timeout
  pub raises : method.exception ≡ exception
  pub read : from_context (as_tuple method.metadata ++ extra) ≡ versioned ver shared
  pub accepted :
      (v : ℕ)
      → ver ≡ some (pos v)
      → v ≤ info.current_api_version
      → info.supported_api_version ≤ v
      → check_version (from_context (as_tuple method.metadata ++ extra)) info ≡ ok (some (pos v))
  pub server_too_old :
      (v : ℕ)
      → ver ≡ some (pos v)
      → info.current_api_version < v
      → HasCode error_api_server_too_old
          (check_version (from_context (as_tuple method.metadata ++ extra)) info)
  pub client_too_old :
      (v : ℕ)
      → ver ≡ some (pos v)
      → v ≤ info.current_api_version
      → v < info.supported_api_version
      → HasCode error_api_client_too_old
          (check_version (from_context (as_tuple method.metadata ++ extra)) info)

version_given :
    (ver : Option ℤ) (shared : RpcMetadata) (v : ℕ)
    → ver ≡ some (pos v)
    → (versioned ver shared).api_version ≡ str v
unfolding versioned str_ℤ
version_given ver shared v known = ground (arith, known)

-- A public method of one of the stubs of a client calls the server with the metadata of the client
-- and with the version of the stub, whatever else the gRPC library adds under other keys, and has
-- the client's timeout and its way with errors; and the server takes it exactly if the version is between its supported and its current one.
pub make_client-IsReached :
    (machine : Machine) (host : String) (port : ℤ) (stubs_map : StubsMap) (timeout : Option ℕ)
    (client_name : ClientName) (exception : Bool) (name n : String) (typ : StubClass)
    (ver : Option ℤ) (extra : List (String × String)) (info : ServiceInfo)
    → NodupKeys stubs_map
    → lookup name stubs_map ≡ some (typ, ver)
    → has n typ.methods ≡ true
    → starts_dunder n ≡ false
    → All (λ key. contains (keys extra) key ≡ false) attribute_keys
    → IsReached
        (make_client machine host port stubs_map timeout client_name exception)
        name
        n
        (shared_metadata machine client_name)
        ver
        timeout
        exception
        (is_streaming typ.methods n)
        extra
        info
unfolding make_client make_method
make_client-IsReached machine host port stubs_map timeout client_name exception name n typ ver extra
      info once known there plain others =
    let target_host = host <> (":" <> str_ℤ port) in
    let metadata = versioned ver (shared_metadata machine client_name) in
    let read = from_context-as_tuple metadata extra others in
    let verdict = λ (v : ℕ) (given : ver ≡ some (pos v)).
      check_version-str metadata info v
        (version_given ver (shared_metadata machine client_name) v given) in
    record {
      stub = make_stub target_host timeout metadata exception typ typ.methods [];
      method = make_method target_host timeout metadata exception typ n;
      has_stub = ground (
        arith,
        known,
        lookup-add_stubs target_host timeout (shared_metadata machine client_name) exception
            stubs_map [] name once,
      );
      has_method = ground (
        arith,
        there,
        lookup-make_stub target_host timeout metadata exception typ typ.methods [] n plain,
      );
      kind = refl;
      waits = refl;
      raises = refl;
      read = read;
      accepted = λ v given most least. rw read ((verdict v given).0 most least);
      server_too_old = λ v given more. rw read ((verdict v given).1 more);
      client_too_old = λ v given most less. rw read ((verdict v given).2 most less);
    }
