-- ===== src/Calls/Client.antt =====
-- src/grpc_helper/client.py: the methods of a client, which try again while a server is unavailable.
pub mod Retries
pub mod Streams
pub mod Construct
use grpc_helper.Base.{
  ℕ, zero, suc, ◌+◌, ◌*◌, String, ◌<>◌, Bool, false, ◌&&◌, Option, none, some, List, [], ◌∷◌, ◌++◌,
  ltb, if◌then◌else◌,
}
use grpc_helper.Errors.{Exception, rpc_exception, error_rpc, ResultCode, Result, ok, raised}

-- A response as the client sees it: the code, as a number, and the message of its field `r`, if it
-- has one, and the rest.
pub record Response : Type 0 where
  pub result : Option (ℕ × String)
  pub body : String

-- How an attempt of a call ends: in a response, or in an `RpcError` with the status `UNAVAILABLE` or
-- another, and its text.
pub data Attempt (R : Type 0) : Type 0 where
  answered : R → Attempt R
  rpc_error : Bool → String → Attempt R

-- What a method is made with. Numbers and times are those of the API and of a clock; `code` turns the
-- number of a result into the code of the exception.
pub record RetryMethod : Type 0 where
  pub timeout : Option ℕ
  pub exception : Bool
  pub ok_number : ℕ
  pub custom_number : ℕ
  pub code : ℕ → ResultCode
  pub trace : String

-- `time.time() - first_try < timeout`, where there is a timeout
unfoldable pub in_time : RetryMethod → ℕ → Bool
in_time m elapsed = elim m.timeout [ none ↦ false | some timeout ↦ ltb elapsed timeout ]

-- `handle_exception`: `none` where the method tries again, and the exception otherwise.
unfoldable pub handle_exception : RetryMethod → ℕ → Bool → String → Option Exception
unfolding in_time
handle_exception m elapsed unavailable details =
    if unavailable && in_time m elapsed
    then none
    else some (rpc_exception ("RPC error (on " <> (m.trace <> ("): " <> details))) error_rpc)

-- `raise_result`
unfoldable pub raise_result : RetryMethod → Response → Option Exception
raise_result m response = elim response.result [
  | none ↦ none
  | some (number, message) ↦
      if ltb m.ok_number number && (ltb number m.custom_number && m.exception)
      then some (rpc_exception ("RPC returned error: " <> message) (m.code number))
      else none
]

-- What a call meets: its attempts, and the time that has passed at the end of each.
pub record Attempts (R : Type 0) : Type 0 where
  pub attempt : ℕ → Attempt R
  pub elapsed : ℕ → ℕ

-- `retry_delay`, in half seconds, before the attempt after the given one.
unfoldable pub retry_delay : ℕ → ℕ
retry_delay zero = 1
retry_delay (suc k) = 2 * retry_delay k

-- A response that is no error is returned, another one is raised.
unfoldable pub checked_response : RetryMethod → Response → Result Response
unfolding raise_result
checked_response m response = elim (raise_result m response) [
  | none ↦ ok response
  | some e ↦ raised e
]

-- `RetrySimpleMethod.__call__` from an attempt on; `none` tells that the fuel is used up.
unfoldable pub retry_call : ℕ → ℕ → RetryMethod → Attempts Response → Option (Result Response)
unfolding handle_exception checked_response
retry_call zero k m a = none
retry_call (suc fuel) k m a =
    let next = retry_call fuel (k + 1) m a in
    elim (a.attempt k) [
      | answered response ↦ some (checked_response m response)
      | rpc_error unavailable details ↦
          elim (handle_exception m (a.elapsed k) unavailable details) [
            | none ↦ next
            | some e ↦ some (raised e)
          ]
    ]

-- The results of one attempt of a streaming call: those that are yielded, and the exception of the
-- first that is an error.
unfoldable pub yield_results : RetryMethod → List Response → List Response × Option Exception
unfolding raise_result
yield_results m [] = ([], none)
yield_results m (r ∷ rest) =
    let (yielded, e) = yield_results m rest in
    elim (raise_result m r) [ none ↦ (r ∷ yielded, e) | some error ↦ ([], some error) ]

-- An attempt of a streaming call: its results, and how the stream ends after them.
abbrev pub StreamAttempt : Type 0
StreamAttempt = List Response × Attempt (Unit {0})

-- `RetryStreamingMethod.__call__`: what it yields, and the exception that it ends with, if any. An
-- attempt that breaks off is tried again as a whole.
unfoldable pub retry_stream :
    ℕ → ℕ → RetryMethod → (ℕ → StreamAttempt) → (ℕ → ℕ) → Option (List Response × Option Exception)
unfolding handle_exception yield_results
retry_stream zero k m attempt elapsed = none
retry_stream (suc fuel) k m attempt elapsed =
    let next = retry_stream fuel (k + 1) m attempt elapsed in
    let (yielded, error) = yield_results m (attempt k).0 in
    elim error [
      | some e ↦ some (yielded, some e)
      | none ↦ elim (attempt k).1 [
        | answered _ ↦ some (yielded, none)
        | rpc_error unavailable details ↦
            elim (handle_exception m (elapsed k) unavailable details) [
              | some e ↦ some (yielded, some e)
              | none ↦ elim next [ none ↦ none | some (more, e) ↦ some (yielded ++ more, e) ]
            ]
      ]
    ]
