-- ===== src/Calls/Method.antt =====
-- src/grpc_helper/methods.py: how a server method handles a call.
pub mod Versions
pub mod Waiting
pub mod Pending
pub mod Schedule
pub mod Simple
use grpc_helper.Base.{
  ℕ, zero, suc, ◌+◌, ◌-◌, String, ◌<>◌, Bool, true, false, Option, none, some, ltb, value_or,
  if◌then◌else◌, ◌==◌,
}
use grpc_helper.Base.{string_eq}
use grpc_helper.Base.Number.{ℤ, pos, negsuc, int, str, str_ℤ, is_zero}
use grpc_helper.Calls.Metadata.{RpcMetadata}
use grpc_helper.Errors.{
  ResultCode, error, Exception, rpc_exception, python_error, Result, ok, raised,
  error_api_server_too_old, error_api_client_too_old, error_proxy_unregistered,
}
use grpc_helper.Server.Services.{ServiceInfo}

-- `n > limit` and `n < limit`
pub above : ℤ → ℕ → Bool
above (pos n) limit = ltb limit n
above (negsuc n) limit = false

pub below : ℤ → ℕ → Bool
below (pos n) limit = ltb n limit
below (negsuc n) limit = true

-- The first part of `delegate_call`: the client's version, if it gives one that the service takes.
unfoldable pub check_version : RpcMetadata → ServiceInfo → Result (Option ℤ)
unfolding above below
check_version metadata info =
    if metadata.api_version == "" then ok none else elim (int metadata.api_version) [
      | none ↦ raised (
          python_error "ValueError"
            ("invalid literal for int() with base 10: '" <> (metadata.api_version <> "'")))
      | some version ↦
          if above version info.current_api_version
          then raised (
              rpc_exception
                ("Server current API version ("
                  <> (str info.current_api_version
                      <> (") is too old for client API version (" <> (str_ℤ version <> ")"))))
                error_api_server_too_old)
          else if below version info.supported_api_version
          then raised (
              rpc_exception
                ("Client API version ("
                  <> (str_ℤ version
                      <> (") is too old for server supported API version ("
                          <> (str info.current_api_version <> ")"))))
                error_api_client_too_old)
          else ok (some version)
    ]

-- What the loop of a call sees in its rounds: the service's info, which a registration changes
-- meanwhile, and the time. The time since the first look is compared with the client timeout.
pub record Rounds : Type 0 where
  pub info : ℕ → ServiceInfo
  pub time : ℕ → ℕ
  pub first_try : ℕ
  pub timeout : ℕ

-- The loop that waits for a proxy's registration, from a round on: the round that found the port.
-- `none` tells that the fuel is used up.
unfoldable pub wait_proxy : ℕ → ℕ → Rounds → Option (Result ℕ)
wait_proxy zero round w = none
wait_proxy (suc fuel) round w =
    let next = wait_proxy fuel (round + 1) w in
    if is_zero (w.info round).proxy_port
    then (if ltb (w.time round - w.first_try) w.timeout
        then next
        else some (
            raised (
              rpc_exception "Proxy didn't registered in time for method call"
                error_proxy_unregistered)))
    else some (ok round)

-- The code and the message of the result that `report_exception` builds.
unfoldable pub reported : Exception → ResultCode × String
reported (rpc_exception message rc) = (rc, message)
reported (python_error kind message) = (error, message)

-- The other side of a call: the manager's method, and the method of a remote server that a client
-- with the given host, port, API version and metadata calls. Both act on a world and may raise.
pub record Backend : Type 1 where
  pub World : Type 0
  pub Request : Type 0
  pub Response : Type 0
  pub manager_method : Request → World → Result Response × World
  pub remote_method : String → ℤ → ℤ → RpcMetadata → Request → World → Result Response × World
  pub error_response : ResultCode → String → Response

module _ (B : Backend) where
  -- The call of the remote server: with the version that the client gave, or else the current one.
  unfoldable pub call_proxy :
      String
      → RpcMetadata
      → Option ℤ
      → ServiceInfo
      → B.Request
      → B.World
      → Result B.Response × B.World
  call_proxy main_host metadata version info request =
      B.remote_method (if info.proxy_host == "" then main_host else info.proxy_host) info.proxy_port
        (value_or (pos info.current_api_version) version)
        (record metadata { client = metadata.client <> "(proxied)" }) request

  -- `delegate_call`, on fuel for the rounds that wait.
  unfoldable pub delegate_call :
      ℕ → String → Rounds → RpcMetadata → B.Request → B.World → Option (Result B.Response × B.World)
  unfolding check_version wait_proxy call_proxy
  delegate_call fuel main_host w metadata request world = elim (check_version metadata (w.info 0)) [
    | raised e ↦ some (raised e, world)
    | ok version ↦
        if (w.info 0).is_proxy
        then elim (wait_proxy fuel 0 w) [
          | none ↦ none
          | some (raised e) ↦ some (raised e, world)
          | some (ok round) ↦
              some (call_proxy main_host metadata version (w.info round) request world)
        ]
        else some (B.manager_method request world)
  ]

  -- `RpcSimpleMethod.__call__`: the response, also for an exception.
  unfoldable pub respond : Result B.Response → B.Response
  unfolding reported
  respond (ok response) = response
  respond (raised e) = B.error_response (reported e).0 (reported e).1
