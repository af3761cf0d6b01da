-- ===== src/Calls/Client/Streams.antt =====
-- src/grpc_helper/client.py: what a streaming call yields that tries again.
use grpc_helper.Base.{
  ℕ, zero, suc, ◌+◌, ◌-◌, ◌<◌, String, Bool, true, Option, none, some, List, ◌++◌, value_or, arith,
  ◌≡◌, ◌⊎◌, refl, ap, ◌∙◌, inl, inr, Option-cases,
}
use grpc_helper.Errors.{Exception}
use grpc_helper.Calls.Client.{
  Response, Attempt, answered, rpc_error, RetryMethod, StreamAttempt, in_time, handle_exception,
  yield_results, retry_stream,
}
use grpc_helper.Calls.Client.Retries.{in_time-lt}

-- How a streaming call goes on from an attempt: a broken-off attempt yields its results and is
-- followed by the next one, up to an attempt that is the last.
pub data IsStreamed (m : RetryMethod) (attempt : ℕ → StreamAttempt) (elapsed : ℕ → ℕ)
    : ℕ → List Response → Option Exception → Type 0 where
  broken :
      (k : ℕ) (details : String) (more : List Response) (end : Option Exception)
      → (yield_results m (attempt k).0).1 ≡ none
      → (attempt k).1 ≡ rpc_error true details
      → in_time m (elapsed k) ≡ true
      → IsStreamed m attempt elapsed (k + 1) more end
      → IsStreamed m attempt elapsed k ((yield_results m (attempt k).0).0 ++ more) end
  refused :
      (k : ℕ) (e : Exception)
      → (yield_results m (attempt k).0).1 ≡ some e
      → IsStreamed m attempt elapsed k (yield_results m (attempt k).0).0 (some e)
  finished :
      (k : ℕ)
      → (yield_results m (attempt k).0).1 ≡ none
      → (attempt k).1 ≡ answered tt
      → IsStreamed m attempt elapsed k (yield_results m (attempt k).0).0 none
  failed :
      (k : ℕ) (unavailable : Bool) (details : String) (e : Exception)
      → (yield_results m (attempt k).0).1 ≡ none
      → (attempt k).1 ≡ rpc_error unavailable details
      → handle_exception m (elapsed k) unavailable details ≡ some e
      → IsStreamed m attempt elapsed k (yield_results m (attempt k).0).0 (some e)

Attempt-cases :
    (t : Attempt (Unit {0}))
    → (t ≡ answered tt)
      ⊎ ((unavailable : Bool) × (details : String) × (t ≡ rpc_error unavailable details))
Attempt-cases (answered _) = inl refl
Attempt-cases (rpc_error unavailable details) = inr (unavailable, details, refl)

again_in_time :
    (m : RetryMethod) (elapsed : ℕ) (unavailable : Bool) (details : String)
    → handle_exception m elapsed unavailable details ≡ none
    → (unavailable ≡ true) × (in_time m elapsed ≡ true)
unfolding handle_exception
again_in_time m elapsed unavailable details again = ground arith

module _ (m : RetryMethod) (attempt : ℕ → StreamAttempt) (elapsed : ℕ → ℕ)
    (passes : (j : ℕ) → elapsed j < elapsed (j + 1)) where
  stream_from :
      (fuel k : ℕ)
      → value_or 0 m.timeout - elapsed k < fuel
      → (out : List Response) × (end : Option Exception) × (retry_stream fuel k m attempt elapsed
          ≡ some (out, end))
        × IsStreamed m attempt elapsed k out end
  unfolding retry_stream
  stream_from zero k enough = absurd (omega arith)
  stream_from (suc fuel) k enough = elim (Option-cases (yield_results m (attempt k).0).1) [
    | inr (e, refuses) ↦
        ((yield_results m (attempt k).0).0, some e, ground (arith, refuses), refused k e refuses)
    | inl yields ↦ elim (Attempt-cases (attempt k).1) [
      | inl ends ↦ (
        (yield_results m (attempt k).0).0,
        none,
        ground (arith, yields, ends),
        finished k yields ends,
      )
      | inr (unavailable, details, error) ↦
          elim (Option-cases (handle_exception m (elapsed k) unavailable details)) [
            | inr (e, over) ↦ (
              (yield_results m (attempt k).0).0,
              some e,
              ground (arith, yields, error, over),
              failed k unavailable details e yields error over,
            )
            | inl again ↦
                let (up, early) = again_in_time m (elapsed k) unavailable details again in
                let (more, end, result, streamed) =
                  stream_from fuel (k + 1)
                    (ground (arith, passes k, in_time-lt m (elapsed k) early)) in
                (
                  (yield_results m (attempt k).0).0 ++ more,
                  end,
                  ground (arith, yields, error, again, result),
                  broken k details more end yields
                      (error ∙ ap (λ (u : Bool). rpc_error u details) up) early streamed,
                )
          ]
    ]
  ]

pub retry_stream-IsStreamed :
    (m : RetryMethod) (attempt : ℕ → StreamAttempt) (elapsed : ℕ → ℕ) (fuel : ℕ)
    → ((j : ℕ) → elapsed j < elapsed (j + 1))
    → value_or 0 m.timeout < fuel
    → (out : List Response) × (end : Option Exception) × (retry_stream fuel 0 m attempt elapsed
        ≡ some (out, end))
      × IsStreamed m attempt elapsed 0 out end
retry_stream-IsStreamed m attempt elapsed fuel passes enough =
    stream_from m attempt elapsed passes fuel 0 (omega arith)
