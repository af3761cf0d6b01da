-- ===== src/Calls/Method/Waiting.antt =====
-- src/grpc_helper/methods.py: the loop of `delegate_call` that waits for a proxy's registration.
use grpc_helper.Base.{
  ℕ, zero, suc, ◌+◌, ◌-◌, ◌<◌, ◌≤◌, true, false, some, ltb, arith, ◌≡◌, ◌⊎◌, refl, inl, inr,
  Bool-cases,
}
use grpc_helper.Base.Number.{is_zero}
use grpc_helper.Calls.Method.{Rounds, wait_proxy}
use grpc_helper.Errors.{HasCode, Result, ok, raised, rpc_exception, error_proxy_unregistered}

-- How a wait from a round on ends.
pub record IsWaited (w : Rounds) (round : ℕ) (r : Result ℕ) : Type 0 where
  pub last : ℕ
  pub reached : round ≤ last
  pub earlier :
      (j : ℕ)
      → round ≤ j
      → j < last
      → (is_zero (w.info j).proxy_port ≡ true) × (ltb (w.time j - w.first_try) w.timeout ≡ true)
  pub ends :
      ((is_zero (w.info last).proxy_port ≡ false) × (r ≡ ok last))
      ⊎ ((is_zero (w.info last).proxy_port ≡ true)
          × (ltb (w.time last - w.first_try) w.timeout ≡ false)
          × HasCode error_proxy_unregistered r)

wait_from :
    (w : Rounds) (fuel round : ℕ)
    → ((k : ℕ) → w.time k < w.time (k + 1))
    → w.first_try ≤ w.time round
    → w.timeout - (w.time round - w.first_try) < fuel
    → (r : Result ℕ) × (wait_proxy fuel round w ≡ some r) × IsWaited w round r
unfolding wait_proxy
wait_from w zero round passes since enough = absurd (omega arith)
wait_from w (suc fuel) round passes since enough =
    elim (Bool-cases (is_zero (w.info round).proxy_port)) [
      | inr found ↦ (
        ok round,
        rw found refl,
        record {
          last = round;
          reached = omega arith;
          earlier = λ j from before. absurd (omega arith);
          ends = inl (found, refl);
        },
      )
      | inl missing ↦ elim (Bool-cases (ltb (w.time round - w.first_try) w.timeout)) [
        | inr over ↦ (
          raised (
              rpc_exception "Proxy didn't registered in time for method call"
                error_proxy_unregistered),
          rw (missing, over) refl,
          record {
            last = round;
            reached = omega arith;
            earlier = λ j from before. absurd (omega arith);
            ends = inr (missing, over, refl);
          },
        )
        | inl waits ↦
            let (r, result, waited) =
              wait_from w fuel (round + 1) passes (ground (arith, passes round))
                (ground (arith, passes round)) in
            (
              r,
              rw (missing, waits) result,
              record {
                last = waited.last;
                reached = ground (arith, waited.reached);
                earlier = λ j from before. ground (arith, waited.earlier j, missing, waits);
                ends = waited.ends;
              },
            )
      ]
    ]

-- If time passes from each look at the proxy to the next, a call waits at most as many rounds as the
-- timeout counts, and one more: with that fuel the loop ends. It ends at the first round that finds a
-- port, if at all rounds before it the timeout was not over; or else it raises, at the first
-- round at which the timeout is over, the error that the proxy is not registered.
pub wait_proxy-IsWaited :
    (w : Rounds) (fuel : ℕ)
    → w.first_try ≤ w.time 0
    → ((k : ℕ) → w.time k < w.time (k + 1))
    → w.timeout < fuel
    → (r : Result ℕ) × (wait_proxy fuel 0 w ≡ some r) × IsWaited w 0 r
wait_proxy-IsWaited w fuel since passes enough = wait_from w fuel 0 passes since (omega arith)
