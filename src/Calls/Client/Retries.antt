-- ===== src/Calls/Client/Retries.antt =====
-- src/grpc_helper/client.py: how often a method tries again, and what it comes to.
use grpc_helper.Base.{
  ℕ, zero, suc, ◌+◌, ◌-◌, ◌<>◌, ◌<◌, ◌≤◌, String, Bool, true, false, ◌&&◌, some, value_or, arith,
  ◌≡◌, ◌⊎◌, refl, inl, inr, Bool-cases, ap, subst, ◌∙◌, ◌=ℕ◌,
}
use grpc_helper.Errors.{HasCode, Result, raised, rpc_exception, error_rpc}
use grpc_helper.Calls.Client.{
  Response, Attempt, answered, rpc_error, RetryMethod, Attempts, in_time, handle_exception,
  checked_response, retry_delay, retry_call,
}

-- How a call ends that has come to an attempt.
pub record IsRetried (m : RetryMethod) (a : Attempts Response) (k : ℕ) (r : Result Response)
    : Type 0 where
  pub last : ℕ
  pub reached : k ≤ last
  pub earlier :
      (j : ℕ)
      → k ≤ j
      → j < last
      → ((details : String) × (a.attempt j ≡ rpc_error true details))
        × (a.elapsed j < value_or 0 m.timeout)
  pub ends :
      ((response : Response) × (a.attempt last ≡ answered response)
        × (r ≡ checked_response m response))
      ⊎ ((unavailable : Bool) × (details : String) × (a.attempt last
            ≡ rpc_error unavailable details)
          × ((unavailable && in_time m (a.elapsed last)) ≡ false)
          × HasCode error_rpc r)

Attempt-cases :
    (t : Attempt Response)
    → ((response : Response) × (t ≡ answered response))
      ⊎ ((unavailable : Bool) × (details : String) × (t ≡ rpc_error unavailable details))
Attempt-cases (answered response) = inl (response, refl)
Attempt-cases (rpc_error unavailable details) = inr (unavailable, details, refl)

pub in_time-lt :
    (m : RetryMethod) (elapsed : ℕ) → in_time m elapsed ≡ true → elapsed < value_or 0 m.timeout
unfolding in_time
in_time-lt m elapsed h = ground arith

retry_from :
    (m : RetryMethod) (a : Attempts Response) (fuel k : ℕ)
    → ((j : ℕ) → a.elapsed j < a.elapsed (j + 1))
    → value_or 0 m.timeout - a.elapsed k < fuel
    → (r : Result Response) × (retry_call fuel k m a ≡ some r) × IsRetried m a k r
unfolding retry_call handle_exception
retry_from m a zero k passes enough = absurd (omega arith)
retry_from m a (suc fuel) k passes enough = elim (Attempt-cases (a.attempt k)) [
  | inl (response, answer) ↦ (
    checked_response m response,
    ground (arith, answer),
    record {
      last = k;
      reached = omega arith;
      earlier = λ j from before. absurd (omega arith);
      ends = inl (response, answer, refl);
    },
  )
  | inr (unavailable, details, failed) ↦
      elim (Bool-cases (unavailable && in_time m (a.elapsed k))) [
        | inr over ↦ (
          raised (rpc_exception ("RPC error (on " <> (m.trace <> ("): " <> details))) error_rpc),
          ground (arith, failed, over),
          record {
            last = k;
            reached = omega arith;
            earlier = λ j from before. absurd (omega arith);
            ends = inr (unavailable, details, failed, over, refl);
          },
        )
        | inl again ↦
            let tried : unavailable ≡ true = ground arith in
            let early : in_time m (a.elapsed k) ≡ true = ground arith in
            let (r, result, retried) =
              retry_from m a fuel (k + 1) passes
                (ground (arith, passes k, in_time-lt m (a.elapsed k) early)) in
            (
              r,
              ground (arith, failed, again, result),
              record {
                last = retried.last;
                reached = ground (arith, retried.reached);
                earlier = λ j from before. elim (Bool-cases (j =ℕ k)) [
                  | inl same ↦
                      let here : k ≡ j = ground arith in
                      subst
                        (λ (i : ℕ).
                          ((text : String) × (a.attempt i ≡ rpc_error true text))
                          × (a.elapsed i < value_or 0 m.timeout))
                        here
                        (
                          (details, failed ∙ ap (λ (u : Bool). rpc_error u details) tried),
                          in_time-lt m (a.elapsed k) early,
                        )
                  | inr other ↦ retried.earlier j (ground arith) before
                ];
                ends = retried.ends;
              },
            )
      ]
]

retry_delay-elapsed :
    (elapsed : ℕ → ℕ)
    → ((j : ℕ) → elapsed j + retry_delay j ≤ elapsed (j + 1))
    → (j : ℕ) → retry_delay j ≤ elapsed j + 1
unfolding retry_delay
retry_delay-elapsed elapsed sleeps zero = omega arith
retry_delay-elapsed elapsed sleeps (suc j) =
    let before = retry_delay-elapsed elapsed sleeps j in
    let slept = sleeps j in ground (arith, before, slept)

retry_delay-positive : (j : ℕ) → 0 < retry_delay j
unfolding retry_delay
retry_delay-positive zero = omega arith
retry_delay-positive (suc j) = ground (arith, retry_delay-positive j)

-- A simple call sleeps before it tries again, each time twice as long. With more fuel than its
-- timeout counts half seconds it ends: with the first response, returned or raised as its code says;
-- or with the error of the first attempt that failed for another reason than an unavailable server
-- or when the timeout was over. All attempts before failed in time with an unavailable server, and
-- the delay after each of them, a power of two, is at most the timeout.
pub retry_call-IsRetried :
    (m : RetryMethod) (a : Attempts Response) (fuel : ℕ)
    → ((j : ℕ) → a.elapsed j + retry_delay j ≤ a.elapsed (j + 1))
    → value_or 0 m.timeout < fuel
    → (r : Result Response) × (retry_call fuel 0 m a ≡ some r)
      × ((retried : IsRetried m a 0 r) × ((j : ℕ)
            → j < retried.last
            → retry_delay j ≤ value_or 0 m.timeout))
retry_call-IsRetried m a fuel sleeps enough =
    let (r, result, retried) =
      retry_from m a fuel 0 (λ j. ground (arith, sleeps j, retry_delay-positive j)) (omega arith) in
    (
      r,
      result,
      (
        retried,
        λ j before. ground (
          arith,
          retry_delay-elapsed a.elapsed sleeps j,
          (retried.earlier j (omega arith) before).1,
        ),
      ),
    )
