-- ===== src/Calls/Chain/Remotes.antt =====
-- src/grpc_helper/methods.py and src/grpc_helper/client.py: a call of the temporary client, at the server
-- of the proxied manager.
use grpc_helper.Base.{◌∙◌, ap}
use grpc_helper.Base.{
  ℕ, zero, suc, ◌+◌, ◌<◌, String, true, false, Option, some, List, ◌++◌, value_or, arith, ◌≡◌,
  subst, Option-cases, inl, inr,
}
use grpc_helper.Base.{string_eq}
use grpc_helper.Calls.Chain.{
  Remote, backend, Channel, Codes, retried, handle, is_reached, attempts, call_method,
}
use grpc_helper.Calls.Client.{
  Response, answered, RetryMethod, in_time, handle_exception, checked_response, raise_result,
  retry_call,
}
use grpc_helper.Calls.Client.Construct.{StubMethod}
use grpc_helper.Calls.Metadata.{RpcMetadata, as_tuple, from_context}
use grpc_helper.Calls.Method.{check_version, delegate_call, respond}
use grpc_helper.Calls.Method.Pending.{epilog-prelude}
use grpc_helper.Calls.Method.Simple.{delegated_refused, delegated_served, simple_call-delegated}
use grpc_helper.Errors.{Result, ok, raised, Result-cases}

in_time-true :
    (m : RetryMethod) (elapsed : ℕ) → elapsed < value_or 0 m.timeout → in_time m elapsed ≡ true
unfolding in_time
in_time-true m elapsed early = elim (Option-cases m.timeout) [
  | inl none_given ↦ absurd (ground (arith, none_given))
  | inr (timeout, given) ↦ ground (arith, given)
]

-- Each attempt before this one fails in time, since it does not reach the other server.
abbrev pub FailsBefore : ℕ → Option ℕ → Channel → Type 0
FailsBefore last timeout channel =
    (j : ℕ) → j < last → (channel.reachable j ≡ false) × (channel.elapsed j < value_or 0 timeout)

-- An attempt that reaches the other server after others that all failed in time.
retry_call-reached :
    (m : RetryMethod) (channel : Channel) (handled : Response) (last d k fuel : ℕ)
    → k + d ≡ last
    → channel.reachable last ≡ true
    → FailsBefore last m.timeout channel
    → d < fuel
    → (retry_call fuel k m (attempts channel (answered handled))
        ≡ some (checked_response m handled))
      × (is_reached fuel k m channel ≡ true)
unfolding retry_call is_reached handle_exception
retry_call-reached m channel handled last zero k (suc fuel) to_last there before enough =
    let at_last : last ≡ k = omega arith in
    let here = subst (λ (j : ℕ). channel.reachable j ≡ true) at_last there in ground (arith, here)
retry_call-reached m channel handled last (suc d) k (suc fuel) to_last there before enough =
    let later =
      retry_call-reached m channel handled last d (k + 1) fuel (omega arith) there before
        (omega arith) in
    let first = before k (omega arith) in
    let early = in_time-true m (channel.elapsed k) first.1 in
    ground (arith, later.0, later.1, first.0, early)
retry_call-reached m channel handled last d k zero to_last there before enough =
    absurd (omega arith)

module _ (S : Remote) (main_host : String) (request : S.Request) (world : S.World) where
  -- What the other server makes of a call with these metadata: the error of the version check, or
  -- what the manager's method returns or raises.
  abbrev pub remote_result : RpcMetadata → Result Response × S.World
  remote_result metadata = elim (check_version metadata (S.rounds.info 0)) [
    | raised e ↦ (raised e, world)
    | ok _ ↦ S.manager_method request world
  ]

  delegate_call-remote :
      (metadata : RpcMetadata)
      → (S.rounds.info 0).is_proxy ≡ false
      → delegate_call (backend S) S.fuel main_host S.rounds metadata request world
        ≡ some (remote_result metadata)
  delegate_call-remote metadata own =
      elim (Result-cases (check_version metadata (S.rounds.info 0))) [
        | inl (e, refused) ↦ ground (
          arith,
          refused,
          delegated_refused (backend S) main_host S.rounds metadata request world S.fuel e refused,
        )
        | inr (version, accepted) ↦ ground (
          arith,
          accepted,
          delegated_served (backend S) main_host S.rounds metadata request world S.fuel version
              accepted own,
        )
      ]

  handle-remote :
      (pairs : List (String × String)) (metadata : RpcMetadata)
      → from_context pairs ≡ metadata
      → (S.rounds.info 0).is_proxy ≡ false
      → handle S main_host pairs request world
        ≡ some
            (answered (respond (backend S) (remote_result metadata).0), (remote_result metadata).1)
  unfolding handle
  handle-remote pairs metadata read own =
      let (left, removed, counts) = epilog-prelude S.logged_call S.calls in
      let called =
        simple_call-delegated (backend S) main_host S.rounds metadata request world S.fuel
          S.logged_call S.calls (remote_result metadata).0 (remote_result metadata).1 left
          (delegate_call-remote metadata own) removed in
      ground (arith, read, called)

-- Without exceptions for the codes of responses, each response is returned.
checked_response-quiet :
    (m : RetryMethod) (response : Response)
    → m.exception ≡ false
    → checked_response m response ≡ ok response
unfolding checked_response raise_result
checked_response-quiet m response quiet = elim (Option-cases response.result) [
  | inl none_given ↦ ground (arith, none_given)
  | inr ((number, message), given) ↦ ground (arith, given, quiet)
]

module _ (S : Remote) (main_host : String) (codes : Codes) (channel : Channel) (request : S.Request)
    (world : S.World) where
  call_method-answered :
      (fuel : ℕ) (method : StubMethod) (response : Response) (after : S.World) (r : Result Response)
      → handle S main_host (as_tuple method.metadata ++ channel.extra) request world
        ≡ some (answered response, after)
      → retry_call fuel 0 (retried codes method) (attempts channel (answered response)) ≡ some r
      → is_reached fuel 0 (retried codes method) channel ≡ true
      → call_method S main_host codes channel fuel method request world ≡ some (r, after)
  unfolding call_method
  call_method-answered fuel method response after r handled tried reached =
      ground (arith, handled, tried, reached)

  -- A call of a method that raises no exceptions for the codes of responses.
  pub call_method-remote :
      (fuel last : ℕ) (method : StubMethod) (metadata : RpcMetadata)
      → from_context (as_tuple method.metadata ++ channel.extra) ≡ metadata
      → method.exception ≡ false
      → (S.rounds.info 0).is_proxy ≡ false
      → channel.reachable last ≡ true
      → FailsBefore last method.timeout channel
      → last < fuel
      → call_method S main_host codes channel fuel method request world
        ≡ some (
          ok (respond (backend S) (remote_result S main_host request world metadata).0),
          (remote_result S main_host request world metadata).1,
        )
  call_method-remote fuel last method metadata read quiet own there before enough =
      let response = respond (backend S) (remote_result S main_host request world metadata).0 in
      let handled =
        handle-remote S main_host request world (as_tuple method.metadata ++ channel.extra) metadata
          read own in
      let reached =
        retry_call-reached (retried codes method) channel response last last 0 fuel (omega arith)
          there before enough in
      call_method-answered fuel method response (remote_result S main_host request world metadata).1
        (ok response) handled
        (reached.0 ∙ ap some (checked_response-quiet (retried codes method) response quiet))
        reached.1
