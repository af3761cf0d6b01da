-- ===== src/Calls/Chain/Forwarded.antt =====
-- src/grpc_helper/methods.py and src/grpc_helper/client.py: what the caller of a proxied method gets.
use grpc_helper.Base.{◌∙◌, ◌==◌, ap}
use grpc_helper.Base.{
  ℕ, ◌≤◌, ◌<◌, String, ◌<>◌, true, false, Option, some, List, [], ◌∷◌, All, contains, value_or,
  if◌then◌else◌, arith, ◌≡◌, subst, sym,
}
use grpc_helper.Base.{string_eq}
use grpc_helper.Base.Dict.{Dict, keys, lookup, has, lookup-nil, lookup_head}
use grpc_helper.Base.Number.{ℤ, pos, str, str_ℤ}
use grpc_helper.Calls.Chain.{
  Remote, backend, Channel, Codes, call_method, client_method, forward, main_backend,
}
use grpc_helper.Calls.Client.{Response}
use grpc_helper.Calls.Client.Construct.{
  Machine, StubClass, StubMethod, RpcClient, proxying, make_client, starts_dunder, versioned,
  shared_metadata,
}
use grpc_helper.Calls.Client.Construct.Reached.{make_client-IsReached}
use grpc_helper.Calls.Metadata.{RpcMetadata}
use grpc_helper.Calls.Metadata.RoundTrip.{attribute_keys}
use grpc_helper.Calls.Method.{Rounds, check_version, wait_proxy, respond, call_proxy}
use grpc_helper.Calls.Method.Pending.{count, epilog-prelude}
use grpc_helper.Calls.Method.Simple.{simple_call, delegated_forwarded, simple_call-delegated}
use grpc_helper.Calls.Method.Versions.{check_version-str}
use grpc_helper.Errors.{ResultCode, Result, ok}
use grpc_helper.Server.Services.{ServiceInfo}
use grpc_helper.Calls.Chain.Remotes.{FailsBefore, remote_result, call_method-remote}

-- The version and the metadata that the main server passes on.
abbrev pub passed_version : Option ℤ → ServiceInfo → ℤ
passed_version version info = value_or (pos info.current_api_version) version

abbrev pub passed_metadata : RpcMetadata → ℤ → RpcMetadata
passed_metadata metadata version =
    versioned (some version) (record metadata { client = metadata.client <> "(proxied)" })

passed_api_version :
    (metadata : RpcMetadata) (version : ℤ) (v : ℕ)
    → version ≡ pos v
    → (passed_metadata metadata version).api_version ≡ str v
unfolding versioned str_ℤ
passed_api_version metadata version v given = ground (arith, given)

module _ (S : Remote) (main_host : String) (codes : Codes) (channel : Channel) (machine : Machine)
    (timeout : ℕ) (typ : StubClass) (n : String) where
  forward-called :
      (fuel : ℕ) (host : String) (port version : ℤ) (metadata : RpcMetadata) (request : S.Request)
      (world : S.World) (method : StubMethod) (r : Option (Result Response × S.World))
      → client_method n (
          make_client machine host port
            (("stub", (typ, some version)) ∷ [])
            (some timeout)
            (proxying metadata)
            false)
        ≡ some method
      → call_method S main_host codes channel fuel method request world ≡ r
      → forward S main_host codes channel machine timeout typ n fuel host port version metadata
          request world
        ≡ r
  unfolding forward
  forward-called fuel host port version metadata request world method r found called =
      ground (arith, found, called)

  client_method-found :
      (client : RpcClient) (stub : Dict String StubMethod) (method : StubMethod)
      → lookup "stub" client ≡ some stub
      → lookup n stub ≡ some method
      → client_method n client ≡ some method
  unfolding client_method
  client_method-found client stub method has_stub has_method = ground (arith, has_stub, has_method)

  forward-remote :
      (fuel last : ℕ) (host : String) (port version : ℤ) (metadata : RpcMetadata)
      (request : S.Request) (world : S.World) (info : ServiceInfo)
      → has n typ.methods ≡ true
      → starts_dunder n ≡ false
      → All (λ key. contains (keys channel.extra) key ≡ false) attribute_keys
      → (S.rounds.info 0).is_proxy ≡ false
      → channel.reachable last ≡ true
      → FailsBefore last (some timeout) channel
      → last < fuel
      → forward S main_host codes channel machine timeout typ n fuel host port version metadata
          request world
        ≡ some (
          ok (
              respond
                (backend S)
                (remote_result S main_host request world (versioned (some version) metadata)).0),
          (remote_result S main_host request world (versioned (some version) metadata)).1,
        )
  unfolding shared_metadata
  forward-remote fuel last host port version metadata request world info there plain others own
        reachable before enough =
      let found =
        make_client-IsReached machine host port (("stub", (typ, some version)) ∷ []) (some timeout)
          (proxying metadata) false "stub" n typ (some version) channel.extra info
          (lookup-nil "stub", tt) (lookup_head "stub" (typ, some version) []) there plain others in
      let in_time = subst (λ (t : Option ℕ). FailsBefore last t channel) (sym found.waits) before in
      forward-called fuel host port version metadata request world found.method _
        (client_method-found _ found.stub found.method found.has_stub found.has_method)
        (call_method-remote S main_host codes channel request world fuel last found.method _
          found.read found.raises own reachable in_time enough)

  -- The other server has the method, it is no proxy, and the client reaches it in time.
  pub record IsConnected (last : ℕ) : Type 0 where
    pub has_method : has n typ.methods ≡ true
    pub is_public : starts_dunder n ≡ false
    pub other_keys : All (λ key. contains (keys channel.extra) key ≡ false) attribute_keys
    pub own : (S.rounds.info 0).is_proxy ≡ false
    pub reachable : channel.reachable last ≡ true
    pub fails_before : FailsBefore last (some timeout) channel

  remote_result-accepted :
      (metadata : RpcMetadata) (request : S.Request) (world : S.World) (v : ℕ)
      → metadata.api_version ≡ str v
      → v ≤ (S.rounds.info 0).current_api_version
      → (S.rounds.info 0).supported_api_version ≤ v
      → remote_result S main_host request world metadata ≡ S.manager_method request world
  remote_result-accepted metadata request world v given most least =
      let accepted = (check_version-str metadata (S.rounds.info 0) v given).0 most least in
      ground (arith, accepted)

  call_proxy-remote :
      (fuel last : ℕ) (error_response : ResultCode → String → Response) (metadata : RpcMetadata)
      (version : Option ℤ) (info : ServiceInfo) (request : S.Request) (world : S.World)
      → IsConnected last
      → last < fuel
      → call_proxy
          (main_backend S main_host codes channel machine timeout typ n fuel error_response)
          main_host
          metadata
          version
          info
          request
          world
        ≡ (
          ok (
              respond
                (backend S)
                (remote_result S main_host request world
                  (passed_metadata metadata (passed_version version info))).0),
          (remote_result S main_host request world
              (passed_metadata metadata (passed_version version info))).1,
        )
  unfolding call_proxy
  call_proxy-remote fuel last error_response metadata version info request world connected enough =
      let host = if info.proxy_host == "" then main_host else info.proxy_host in
      let called =
        forward-remote fuel last host info.proxy_port (passed_version version info)
          (record metadata { client = metadata.client <> "(proxied)" }) request world info
          connected.has_method connected.is_public connected.other_keys connected.own
          connected.reachable connected.fails_before enough in
      ground (arith, called)

  -- A call of a proxied service whose client's version the main server takes. The proxy is registered
  -- in time, and the main server reaches the other one in time. Then the caller gets, without an
  -- exception, the response of the other server, also if it tells an error, and the pending calls are
  -- as before. The other server has got the caller's version, or the current one of the main server
  -- for a caller without; if it takes it, its manager has been called once, with the request.
  pub simple_call-forwarded :
      (fuel fuel' last round : ℕ) (w : Rounds) (logged_call : String) (calls : List String)
      (metadata : RpcMetadata) (version : Option ℤ) (request : S.Request) (world : S.World)
      (error_response : ResultCode → String → Response)
      → check_version metadata (w.info 0) ≡ ok version
      → (w.info 0).is_proxy ≡ true
      → wait_proxy fuel 0 w ≡ some (ok round)
      → IsConnected last
      → last < fuel'
      → let passed = passed_version version (w.info round) in
        let result = remote_result S main_host request world (passed_metadata metadata passed) in
        ((left : List String) × (simple_call
              (main_backend S main_host codes channel machine timeout typ n fuel' error_response)
              fuel
              main_host
              w
              logged_call
              metadata
              request
              calls
              world
            ≡ some (ok (respond (backend S) result.0, left), result.1))
          × ((call : String) → count call left ≡ count call calls))
        × ((v : ℕ)
            → passed ≡ pos v
            → v ≤ (S.rounds.info 0).current_api_version
            → (S.rounds.info 0).supported_api_version ≤ v
            → result ≡ S.manager_method request world)
  unfolding respond
  simple_call-forwarded fuel fuel' last round w logged_call calls metadata version request world
        error_response accepted proxy waited connected enough =
      let B = main_backend S main_host codes channel machine timeout typ n fuel' error_response in
      let passed = passed_version version (w.info round) in
      let (left, removed, counts) = epilog-prelude logged_call calls in
      let called =
        delegated_forwarded B main_host w metadata request world fuel version (ok round) accepted
          proxy waited
        ∙ ap some (
            call_proxy-remote fuel' last error_response metadata version (w.info round) request
              world connected enough) in
      (
        (
          left,
          simple_call-delegated B main_host w metadata request world fuel logged_call calls _ _ left
              called removed,
          counts,
        ),
        λ v given most least.
            remote_result-accepted (passed_metadata metadata passed) request world v
              (passed_api_version metadata passed v given) most least,
      )
