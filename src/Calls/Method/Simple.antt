-- ===== src/Calls/Method/Simple.antt =====
-- src/grpc_helper/methods.py: a call of an `RpcSimpleMethod` as a whole.
use grpc_helper.Base.{
  ℕ, ◌+◌, ◌<◌, ◌≤◌, String, Option, none, some, List, ◌≡◌, arith, refl, true, false, Bool-cases,
  inl, inr,
}
use grpc_helper.Base.{string_eq}
use grpc_helper.Errors.{Exception, Result, ok, raised, Result-cases}
use grpc_helper.Calls.Metadata.{RpcMetadata}
use grpc_helper.Calls.Method.{
  Rounds, Backend, check_version, wait_proxy, delegate_call, respond, call_proxy,
}
use grpc_helper.Base.Number.{ℤ}
use grpc_helper.Calls.Method.Pending.{prelude, epilog, count, epilog-prelude}
use grpc_helper.Calls.Method.Waiting.{IsWaited, wait_proxy-IsWaited}

module _ (B : Backend) where
  -- `RpcSimpleMethod.__call__`: the response, or the exception of the epilog; the pending calls; and
  -- the world after the call. `none` tells that the fuel of the wait is used up.
  unfoldable pub simple_call :
      ℕ
      → String
      → Rounds
      → String
      → RpcMetadata
      → B.Request
      → List String
      → B.World
      → Option (Result (B.Response × List String) × B.World)
  unfolding delegate_call prelude epilog
  simple_call fuel main_host w logged_call metadata request calls world =
      elim (delegate_call B fuel main_host w metadata request world) [
        | none ↦ none
        | some (result, after) ↦ elim (epilog logged_call (prelude logged_call calls)) [
          | raised e ↦ some (raised e, after)
          | ok left ↦ some (ok (respond B result, left), after)
        ]
      ]

  -- How a call is answered: with the error where the client's version is refused; with what the
  -- manager's method returns or raises; or, for a proxy, with what the remote method returns or
  -- raises after the wait, or with the error of the wait.
  pub record IsAnswered (main_host : String) (w : Rounds) (metadata : RpcMetadata)
      (request : B.Request) (world : B.World) (response : B.Response) (after : B.World)
      : Type 0 where
    pub refused :
        (e : Exception)
        → check_version metadata (w.info 0) ≡ raised e
        → (response ≡ respond B (raised e)) × (after ≡ world)
    pub served :
        (version : Option ℤ)
        → check_version metadata (w.info 0) ≡ ok version
        → (w.info 0).is_proxy ≡ false
        → (response ≡ respond B (B.manager_method request world).0)
          × (after ≡ (B.manager_method request world).1)
    pub forwarded :
        (version : Option ℤ)
        → check_version metadata (w.info 0) ≡ ok version
        → (w.info 0).is_proxy ≡ true
        → (r : Result ℕ) × IsWaited w 0 r
          × ((e : Exception) → r ≡ raised e → (response ≡ respond B (raised e)) × (after ≡ world))
          × ((round : ℕ)
              → r ≡ ok round
              → (response
                  ≡ respond B
                      (call_proxy B main_host metadata version (w.info round) request world).0)
                × (after
                    ≡ (call_proxy B main_host metadata version (w.info round) request world).1))

  module _ (main_host : String) (w : Rounds) (metadata : RpcMetadata) (request : B.Request)
      (world : B.World) where
    pub delegated_refused :
        (fuel : ℕ) (e : Exception)
        → check_version metadata (w.info 0) ≡ raised e
        → delegate_call B fuel main_host w metadata request world ≡ some (raised e, world)
    unfolding delegate_call
    delegated_refused fuel e refused = ground (arith, refused)

    pub delegated_served :
        (fuel : ℕ) (version : Option ℤ)
        → check_version metadata (w.info 0) ≡ ok version
        → (w.info 0).is_proxy ≡ false
        → delegate_call B fuel main_host w metadata request world
          ≡ some (B.manager_method request world)
    unfolding delegate_call
    delegated_served fuel version accepted own = ground (arith, accepted, own)

    -- A call of a proxy after the wait.
    abbrev pub forwarding : Option ℤ → Result ℕ → Result B.Response × B.World
    forwarding version (raised e) = (raised e, world)
    forwarding version (ok round) =
        call_proxy B main_host metadata version (w.info round) request world

    pub delegated_forwarded :
        (fuel : ℕ) (version : Option ℤ) (r : Result ℕ)
        → check_version metadata (w.info 0) ≡ ok version
        → (w.info 0).is_proxy ≡ true
        → wait_proxy fuel 0 w ≡ some r
        → delegate_call B fuel main_host w metadata request world ≡ some (forwarding version r)
    unfolding delegate_call
    delegated_forwarded fuel version (raised e) accepted proxy waited =
        ground (arith, accepted, proxy, waited)
    delegated_forwarded fuel version (ok round) accepted proxy waited =
        ground (arith, accepted, proxy, waited)

    -- The call between its prelude and its epilog.
    pub simple_call-delegated :
        (fuel : ℕ) (logged_call : String) (calls : List String) (result : Result B.Response)
        (after : B.World) (left : List String)
        → delegate_call B fuel main_host w metadata request world ≡ some (result, after)
        → epilog logged_call (prelude logged_call calls) ≡ ok left
        → simple_call fuel main_host w logged_call metadata request calls world
          ≡ some (ok (respond B result, left), after)
    unfolding simple_call
    simple_call-delegated fuel logged_call calls result after left delegated removed =
        ground (arith, delegated, removed)

    -- A call that was answered: what `delegate_call` returns or raises, and the world after it.
    abbrev Answered : ℕ → Type 0
    Answered fuel =
        (result : Result B.Response) × (after : B.World) × (delegate_call B fuel main_host w
            metadata request world
          ≡ some (result, after))
        × IsAnswered main_host w metadata request world (respond B result) after

    forwarded_IsAnswered :
        (fuel : ℕ) (version : Option ℤ)
        → check_version metadata (w.info 0) ≡ ok version
        → (w.info 0).is_proxy ≡ true
        → (r : Result ℕ) × (wait_proxy fuel 0 w ≡ some r) × IsWaited w 0 r
        → Answered fuel
    forwarded_IsAnswered fuel version accepted proxy (r, done, waited) = (
      (forwarding version r).0,
      (forwarding version r).1,
      delegated_forwarded fuel version r accepted proxy done,
      record {
        refused = λ e refused. cc (refused, accepted);
        served = λ version' accepted' own. cc (own, proxy);
        forwarded = λ version' accepted' proxy'. (
          r,
          waited,
          λ e failed. ground (arith, failed),
          λ round found. ground (arith, found, accepted, accepted'),
        );
      },
    )

    delegate_call-IsAnswered :
        (fuel : ℕ)
        → w.first_try ≤ w.time 0
        → ((k : ℕ) → w.time k < w.time (k + 1))
        → w.timeout < fuel
        → Answered fuel
    delegate_call-IsAnswered fuel since passes enough =
        elim (Result-cases (check_version metadata (w.info 0))) [
          | inl (e, refused) ↦ (
            raised e,
            world,
            delegated_refused fuel e refused,
            record {
              refused = λ e' refused'. ground (arith, refused, refused');
              served = λ version accepted own. cc (refused, accepted);
              forwarded = λ version accepted proxy. cc (refused, accepted);
            },
          )
          | inr (version, accepted) ↦ elim (Bool-cases (w.info 0).is_proxy) [
            | inr own ↦ (
              (B.manager_method request world).0,
              (B.manager_method request world).1,
              delegated_served fuel version accepted own,
              record {
                refused = λ e refused. cc (refused, accepted);
                served = λ version' accepted' own'. (refl, refl);
                forwarded = λ version' accepted' proxy. cc (own, proxy);
              },
            )
            | inl proxy ↦
                forwarded_IsAnswered fuel version accepted proxy
                  (wait_proxy-IsWaited w fuel since passes enough)
          ]
        ]

  -- If time passes from each look at a proxy to the next, and the fuel is more than the timeout
  -- counts, a simple call is answered, with a response also where the code raises; and it leaves in
  -- the list of the pending calls what was there, each as often.
  pub simple_call-IsAnswered :
      (main_host : String) (w : Rounds) (metadata : RpcMetadata) (request : B.Request)
      (world : B.World) (fuel : ℕ) (logged_call : String) (calls : List String)
      → w.first_try ≤ w.time 0
      → ((k : ℕ) → w.time k < w.time (k + 1))
      → w.timeout < fuel
      → (response : B.Response) × (left : List String) × (after : B.World) × (simple_call fuel
            main_host w logged_call metadata request calls world
          ≡ some (ok (response, left), after))
        × IsAnswered main_host w metadata request world response after
        × ((call : String) → count call left ≡ count call calls)
  simple_call-IsAnswered main_host w metadata request world fuel logged_call calls since passes
        enough =
      let (result, after, delegated, answered) =
        delegate_call-IsAnswered main_host w metadata request world fuel since passes enough in
      let (left, removed, counts) = epilog-prelude logged_call calls in
      (
        respond B result,
        left,
        after,
        simple_call-delegated main_host w metadata request world fuel logged_call calls result after
            left delegated removed,
        answered,
        counts,
      )
