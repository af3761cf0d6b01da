-- ===== src/Tests/TraceRuns.antt =====
-- Traces, pending calls and clients at concrete data.
use grpc_helper.Base.{
  ℕ, ◌+◌, ◌-◌, ◌≤◌, ◌<◌, String, ◌<>◌, true, false, some, List, [], ◌∷◌, ◌++◌, ◌≡◌, refl, arith,
  string_eq, nat_eq,
}
use grpc_helper.Base.Dict.{Dict, lookup, insert, erase}
use grpc_helper.Base.Number.{pos}
use grpc_helper.Base.Text.{has_char}
use grpc_helper.Calls.Client.Construct.{
  Machine, StubClass, StubsMap, named, shared_metadata, make_client, starts_dunder,
}
use grpc_helper.Calls.Client.Construct.Reached.{IsReached, make_client-IsReached}
use grpc_helper.Calls.Metadata.{RpcMetadata, as_tuple}
use grpc_helper.Calls.Method.{Rounds, Backend}
use grpc_helper.Calls.Method.Pending.{count}
use grpc_helper.Calls.Method.Schedule.{
  Action, enter, leave, run_pending, run_active, Shows, run_pending-Shows,
}
use grpc_helper.Calls.Method.Simple.{simple_call, IsAnswered, simple_call-IsAnswered}
use grpc_helper.Calls.Trace.{
  max_trace_buffer_len, text_length, without_newlines, trace_buffer, of_client, of_call, trace_rpc,
}
use grpc_helper.Calls.Trace.Bounds.{trace_buffer-length}
use grpc_helper.Calls.Trace.Paths.{IsPart, trace_rpc-call}
use grpc_helper.Errors.{ok, raised, python_error}
use grpc_helper.Server.Services.{ServiceInfo}
use grpc_helper.Server.Servicer.{unary_unary, unary_stream, is_streaming}

abbrev buffer_name : String
buffer_name = "Filter"

abbrev buffer : String
buffer = "names: \"sample\"\n"

trace_buffer-length_example :
    (text_length (trace_buffer buffer_name buffer) ≤ text_length buffer_name + 1029)
    × (has_char 10 buffer_name ≡ false → has_char 10 (trace_buffer buffer_name buffer) ≡ false)
    × (text_length buffer < max_trace_buffer_len
        → trace_buffer buffer_name buffer
          ≡ buffer_name <> ("{" <> (without_newlines buffer <> "}")))
    × (text_length buffer ≡ max_trace_buffer_len
        → trace_buffer buffer_name buffer
          ≡ buffer_name <> ("{" <> ((without_newlines buffer <> "...") <> "}")))
trace_buffer-length_example = trace_buffer-length buffer_name buffer

abbrev metadata : RpcMetadata
metadata = record { client = "cli"; user = "me"; host = ""; ip = "127.0.0.1"; api_version = "2" }

abbrev added : List (String × String)
added = ("user-agent", "grpc-python") ∷ []

abbrev service_name : String
service_name = "SampleService"

abbrev method_name : String
method_name = "method1"

service-IsPart : IsPart service_name
unfolding has_char string_eq
service-IsPart = (refl, refl, refl)

method-IsPart : IsPart method_name
unfolding has_char string_eq
method-IsPart = (refl, refl, refl)

trace_rpc-call_example :
    trace_rpc true buffer_name buffer
      (of_call (as_tuple metadata ++ added) ("/" <> (service_name <> ("/" <> method_name))))
    ≡ trace_rpc true buffer_name buffer (of_client metadata (service_name <> ("." <> method_name)))
unfolding string_eq
trace_rpc-call_example =
    trace_rpc-call true buffer_name buffer service_name method_name metadata added service-IsPart
      method-IsPart (refl, (refl, (refl, (refl, (refl, tt)))))

-- Two threads are in calls with the same trace; the first leaves.
abbrev actions : List Action
actions = enter 1 "ping" ∷ enter 2 "ping" ∷ leave 1 "ping" ∷ []

abbrev nobody : Dict ℕ String
nobody = []

abbrev second_thread : Dict ℕ String
second_thread = (2, "ping") ∷ []

active : run_active actions nobody ≡ some second_thread
unfolding run_active lookup insert erase string_eq nat_eq
active = refl

run_pending-Shows_example :
    (left : List String) × (run_pending actions [] ≡ ok left) × Shows left second_thread
run_pending-Shows_example =
    run_pending-Shows actions [] nobody second_thread tt (λ call. refl) active

abbrev service : ServiceInfo
service = record {
  name = "sample";
  version = "1";
  current_api_version = 3;
  supported_api_version = 1;
  is_proxy = true;
  proxy_port = pos 0;
  proxy_host = "";
}

-- The proxy is registered at the third look.
abbrev rounds : Rounds
rounds = record {
  info = λ k. record service { proxy_port = pos (k - 1) };
  time = λ k. k + 7;
  first_try = 7;
  timeout = 60;
}

-- The remote server counts its calls; the manager has no such method.
abbrev backend : Backend
backend = record {
  World = ℕ;
  Request = String;
  Response = String;
  manager_method = λ request world. (raised (python_error "NotImplementedError" "method"), world);
  remote_method = λ host port version metadata request world. (ok request, world + 1);
  error_response = λ rc message. message;
}

simple_call-IsAnswered_example :
    (response : String) × (left : List String) × (after : ℕ) × (simple_call backend 61 "localhost"
        rounds "ping" metadata "x" [] 0
      ≡ some (ok (response, left), after))
    × IsAnswered backend "localhost" rounds metadata "x" 0 response after
    × ((call : String) → count call left ≡ count call [])
simple_call-IsAnswered_example =
    simple_call-IsAnswered backend "localhost" rounds metadata "x" 0 61 "ping" [] (omega arith)
      (λ k. omega arith) (omega arith)

abbrev machine : Machine
machine = record {
  windows = false;
  login = "me";
  uid = 1000;
  pw_name = raised (python_error "KeyError" "uid not found");
  hostname = "here";
  socket_name = ok "10.0.0.1";
}

abbrev sample_stub : StubClass
sample_stub = record {
  class_name = "SampleServiceStub";
  methods = ("method1", unary_unary) ∷ ("s_method", unary_stream) ∷ [];
}

abbrev stubs_map : StubsMap
stubs_map = ("sample", (sample_stub, some (pos 2))) ∷ []

one_stub : lookup "sample" stubs_map ≡ some (sample_stub, some (pos 2))
unfolding lookup string_eq
one_stub = refl

make_client-IsReached_example :
    IsReached
      (make_client machine "localhost" (pos 5000) stubs_map (some 60) (named "cli") true)
      "sample"
      "s_method"
      (shared_metadata machine (named "cli"))
      (some (pos 2))
      (some 60)
      true
      (is_streaming sample_stub.methods "s_method")
      added
      service
unfolding lookup string_eq starts_dunder
make_client-IsReached_example =
    make_client-IsReached machine "localhost" (pos 5000) stubs_map (some 60) (named "cli") true
      "sample" "s_method" sample_stub (some (pos 2)) added service (refl, tt) one_stub refl refl
      (refl, (refl, (refl, (refl, (refl, tt)))))
