-- ===== src/Calls/Chain.antt =====
-- src/grpc_helper/methods.py and src/grpc_helper/client.py together: a call of a proxied service, which
-- the main server passes on to the server of the proxied manager through a client of its own.
pub mod Remotes
pub mod Forwarded
use grpc_helper.Base.{
  ℕ, zero, suc, ◌+◌, String, Bool, true, false, Option, none, some, List, [], ◌∷◌, ◌++◌, value_or,
  if◌then◌else◌,
}
use grpc_helper.Base.{string_eq}
use grpc_helper.Base.Dict.{lookup}
use grpc_helper.Base.Number.{ℤ}
use grpc_helper.Calls.Client.{
  Response, Attempt, answered, rpc_error, RetryMethod, Attempts, retry_call, in_time,
}
use grpc_helper.Calls.Client.Construct.{
  Machine, StubClass, StubMethod, RpcClient, proxying, make_client,
}
use grpc_helper.Calls.Metadata.{RpcMetadata, as_tuple, from_context}
use grpc_helper.Calls.Method.{Rounds, Backend, reported}
use grpc_helper.Calls.Method.Simple.{simple_call}
use grpc_helper.Errors.{ResultCode, Result, ok, raised, python_error}

-- The server of a proxied manager, with one of its methods: what its calls meet, the trace of the
-- call, and the calls that are pending there.
pub record Remote : Type 1 where
  pub World : Type 0
  pub Request : Type 0
  pub manager_method : Request → World → Result Response × World
  pub remote_method : String → ℤ → ℤ → RpcMetadata → Request → World → Result Response × World
  pub error_response : ResultCode → String → Response
  pub rounds : Rounds
  pub fuel : ℕ
  pub logged_call : String
  pub calls : List String

abbrev pub backend : Remote → Backend
backend S = record {
  World = S.World;
  Request = S.Request;
  Response = Response;
  manager_method = S.manager_method;
  remote_method = S.remote_method;
  error_response = S.error_response;
}

-- What the client of the main server meets: which of its attempts reach the other server, the time
-- after each, what the gRPC library adds to the metadata, and the texts of its errors.
pub record Channel : Type 0 where
  pub reachable : ℕ → Bool
  pub elapsed : ℕ → ℕ
  pub extra : List (String × String)
  pub details : String

-- The numbers of the API's codes, as `raise_result` reads them.
pub record Codes : Type 0 where
  pub ok_number : ℕ
  pub custom_number : ℕ
  pub code : ℕ → ResultCode

-- A method of a stub as its calls use it.
abbrev pub retried : Codes → StubMethod → RetryMethod
retried codes method = record {
  timeout = method.timeout;
  exception = method.exception;
  ok_number = codes.ok_number;
  custom_number = codes.custom_number;
  code = codes.code;
  trace = method.m_name;
}

module _ (S : Remote) (main_host : String) where
  -- A call that reaches the other server: an exception that leaves its method is an `RpcError` for the
  -- client, of another status than `UNAVAILABLE`.
  unfoldable pub handle :
      List (String × String) → S.Request → S.World → Option (Attempt Response × S.World)
  handle pairs request world =
      elim (simple_call (backend S) S.fuel main_host S.rounds S.logged_call (from_context pairs)
        request S.calls world) [
          | none ↦ none
          | some (raised e, after) ↦ some (rpc_error false (reported e).1, after)
          | some (ok (response, left), after) ↦ some (answered response, after)
        ]

-- Some attempt from the given one on reaches the other server, before the timeout is over.
unfoldable pub is_reached : ℕ → ℕ → RetryMethod → Channel → Bool
is_reached zero k m channel = false
is_reached (suc fuel) k m channel =
    let later = is_reached fuel (k + 1) m channel in
    if channel.reachable k then true else if in_time m (channel.elapsed k) then later else false

-- What a client's attempts meet, where the other server does the same in each that reaches it.
abbrev pub attempts : Channel → Attempt Response → Attempts Response
attempts channel handled = record {
  attempt = λ k. if channel.reachable k then handled else rpc_error true channel.details;
  elapsed = channel.elapsed;
}

module _ (S : Remote) (main_host : String) (codes : Codes) (channel : Channel) where
  -- A call of the stub's method on fuel. The first attempt that reaches the other server is the last
  -- one, and changes its world.
  unfoldable pub call_method :
      ℕ → StubMethod → S.Request → S.World → Option (Result Response × S.World)
  unfolding is_reached
  call_method fuel method request world =
      elim (handle S main_host (as_tuple method.metadata ++ channel.extra) request world) [
        | none ↦ none
        | some (handled, after) ↦
            elim (retry_call fuel 0 (retried codes method) (attempts channel handled)) [
              | none ↦ none
              | some r ↦
                  some
                    (r, if is_reached fuel 0 (retried codes method) channel then after else world)
            ]
      ]

-- `getattr(client.stub, self.name)`
unfoldable pub client_method : String → RpcClient → Option StubMethod
client_method n client = elim (lookup "stub" client) [ none ↦ none | some stub ↦ lookup n stub ]

module _ (S : Remote) (main_host : String) (codes : Codes) (channel : Channel) (machine : Machine)
    (timeout : ℕ) (typ : StubClass) (n : String) where
  -- The last part of `delegate_call`: the temporary client, and the call of its stub's method.
  unfoldable pub forward :
      ℕ → String → ℤ → ℤ → RpcMetadata → S.Request → S.World → Option (Result Response × S.World)
  unfolding client_method
  forward fuel host port version metadata request world =
      elim (client_method n (
        make_client machine host port (("stub", (typ, some version)) ∷ []) (some timeout)
          (proxying metadata) false)) [
            | none ↦ some (raised (python_error "AttributeError" n), world)
            | some method ↦ call_method S main_host codes channel fuel method request world
          ]

  -- The main server for a method of the proxied service, which has no manager there. The error of a
  -- call on too little fuel is not one of the code.
  abbrev pub main_backend : ℕ → (ResultCode → String → Response) → Backend
  main_backend fuel error_response = record {
    World = S.World;
    Request = S.Request;
    Response = Response;
    manager_method = λ request world.
        (raised (python_error "TypeError" "'NoneType' object is not callable"), world);
    remote_method = λ host port version metadata request world.
        value_or (raised (python_error "Exception" "no fuel"), world)
          (forward fuel host port version metadata request world);
    error_response = error_response;
  }
