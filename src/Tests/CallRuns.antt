-- ===== src/Tests/CallRuns.antt =====
-- Calls of methods at concrete data.
use grpc_helper.Base.{
  ℕ, suc, ◌+◌, ◌-◌, ◌*◌, ◌≤◌, ◌<◌, String, true, some, List, [], ◌∷◌, ◌≡◌, refl, ap, string_eq,
  arith,
}
use grpc_helper.Base.Number.{pos, str}
use grpc_helper.Errors.{ok, Result, other_code}
use grpc_helper.Calls.Metadata.{RpcMetadata}
use grpc_helper.Calls.Method.{Rounds}
use grpc_helper.Calls.Method.Pending.{prelude, stream_call, count, stream_call-count}
use grpc_helper.Calls.Client.{Response, rpc_error, RetryMethod, Attempts, retry_delay, retry_call}
use grpc_helper.Base.{zero, none, Option}
use grpc_helper.Errors.{Exception}
use grpc_helper.Calls.Client.{StreamAttempt, answered, retry_stream}
use grpc_helper.Calls.Client.Streams.{IsStreamed, retry_stream-IsStreamed}
use grpc_helper.Calls.Client.Retries.{IsRetried, retry_call-IsRetried}
use grpc_helper.Server.Services.{ServiceInfo}

abbrev metadata : RpcMetadata
metadata = record { client = "cli"; user = "me"; host = ""; ip = "127.0.0.1"; api_version = "2" }

abbrev added : List (String × String)
added = ("user-agent", "grpc-python") ∷ []

abbrev service : ServiceInfo
service = record {
  name = "sample";
  version = "1";
  current_api_version = 3;
  supported_api_version = 1;
  is_proxy = true;
  proxy_port = pos 0;
  proxy_host = "";
}

version_text : metadata.api_version ≡ str 2
unfolding str
version_text = refl

-- The proxy is registered at the third look.
abbrev rounds : Rounds
rounds = record {
  info = λ k. record service { proxy_port = pos (k - 1) };
  time = λ k. k + 7;
  first_try = 7;
  timeout = 60;
}

abbrev method : RetryMethod
method = record {
  timeout = some 60;
  exception = true;
  ok_number = 0;
  custom_number = 1000;
  code = other_code;
  trace = "sample";
}

-- No server is there.
abbrev attempts : Attempts Response
attempts = record { attempt = λ k. rpc_error true "unavailable"; elapsed = retry_delay }

doubles : (j : ℕ) → retry_delay (j + 1) ≡ 2 * retry_delay j
unfolding retry_delay
doubles j = let same : j + 1 ≡ suc j = omega arith in ap retry_delay same

sleeps : (j : ℕ) → attempts.elapsed j + retry_delay j ≤ attempts.elapsed (j + 1)
sleeps j = omega (arith, doubles j)

retry_call-IsRetried_example :
    (r : Result Response) × (retry_call 61 0 method attempts ≡ some r)
    × ((retried : IsRetried method attempts 0 r) × ((j : ℕ)
          → j < retried.last
          → retry_delay j ≤ 60))
retry_call-IsRetried_example = retry_call-IsRetried method attempts 61 sleeps (omega arith)

abbrev results : List ℕ
results = 5 ∷ 6 ∷ []

stream_call-count_example :
    (2 < 1
      → (left : List String) × (stream_call "me" results 1 ("other" ∷ []) ≡ (results, ok left))
        × ((call : String) → count call left ≡ count call ("other" ∷ [])))
    × (0 < 1
        → 1 ≤ 2
        → (stream_call "me" results 1 ("other" ∷ [])).1 ≡ ok (prelude "me" ("other" ∷ [])))
stream_call-count_example = stream_call-count "me" results 1 ("other" ∷ [])

abbrev one_result : List Response
one_result = record { result = none; body = "x" } ∷ []

-- The first attempt breaks off after a result.
abbrev stream_attempts : ℕ → StreamAttempt
stream_attempts zero = (one_result, rpc_error true "unavailable")
stream_attempts (suc k) = (one_result, answered tt)

retry_stream-IsStreamed_example :
    (out : List Response) × (end : Option Exception) × (retry_stream 61 0 method stream_attempts
        (λ k. k)
      ≡ some (out, end))
    × IsStreamed method stream_attempts (λ k. k) 0 out end
retry_stream-IsStreamed_example =
    retry_stream-IsStreamed method stream_attempts (λ k. k) 61 (λ j. omega arith) (omega arith)
