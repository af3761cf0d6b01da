-- ===== src/Tests/ChainRuns.antt =====
-- A call of a proxied service at concrete data.
use grpc_helper.Base.{
  ℕ, ◌+◌, ◌*◌, ◌≤◌, String, true, false, Option, none, some, List, [], ◌∷◌, ltb, ◌≡◌, refl, arith,
  string_eq, nat_eq,
}
use grpc_helper.Base.Dict.{lookup}
use grpc_helper.Base.Number.{ℤ, pos, is_zero}
use grpc_helper.Calls.Chain.{Remote, backend, Channel, Codes, main_backend}
use grpc_helper.Calls.Chain.Forwarded.{
  IsConnected, passed_version, passed_metadata, simple_call-forwarded,
}
use grpc_helper.Calls.Chain.Remotes.{FailsBefore, remote_result}
use grpc_helper.Calls.Client.{Response}
use grpc_helper.Calls.Client.Construct.{Machine, StubClass, starts_dunder}
use grpc_helper.Calls.Metadata.{RpcMetadata}
use grpc_helper.Calls.Method.{Rounds, check_version, wait_proxy, respond}
use grpc_helper.Calls.Method.Pending.{count}
use grpc_helper.Calls.Method.Simple.{simple_call}
use grpc_helper.Errors.{Result, ok, raised, python_error, error, ResultCode}
use grpc_helper.Server.Services.{ServiceInfo}
use grpc_helper.Server.Servicer.{unary_unary}

-- The service in the main server, and in the server of its manager.
abbrev proxied_service : ServiceInfo
proxied_service = record {
  name = "sample";
  version = "1";
  current_api_version = 3;
  supported_api_version = 1;
  is_proxy = true;
  proxy_port = pos 0;
  proxy_host = "";
}

abbrev own_service : ServiceInfo
own_service = record proxied_service {
  current_api_version = 5;
  supported_api_version = 2;
  is_proxy = false;
}

abbrev error_answer : ResultCode → String → Response
error_answer rc message = record { result = some (1, message); body = "" }

-- The manager counts its calls.
abbrev other_server : Remote
other_server = record {
  World = ℕ;
  Request = String;
  manager_method =
      λ request world. (ok (record { result = some (0, ""); body = request }), world + 1);
  remote_method = λ host port version metadata request world.
      (raised (python_error "NotImplementedError" "method"), world);
  error_response = error_answer;
  rounds = record { info = λ k. own_service; time = λ k. k; first_try = 0; timeout = 60 };
  fuel = 61;
  logged_call = "method1";
  calls = [];
}

-- The third attempt reaches the other server.
abbrev late_channel : Channel
late_channel = record {
  reachable = λ k. ltb 1 k;
  elapsed = λ k. k * 3;
  extra = ("user-agent", "grpc") ∷ [];
  details = "unavailable";
}

abbrev api_codes : Codes
api_codes = record { ok_number = 0; custom_number = 1000; code = λ number. error }

abbrev this_machine : Machine
this_machine = record {
  windows = true;
  login = "me";
  uid = 0;
  pw_name = ok "me";
  hostname = "here";
  socket_name = ok "10.0.0.1";
}

abbrev one_method : StubClass
one_method = record { class_name = "SampleServiceStub"; methods = ("method1", unary_unary) ∷ [] }

-- The proxy is registered at the second look.
abbrev waiting : Rounds
waiting = record {
  info = λ k. record proxied_service { proxy_port = pos k };
  time = λ k. k + 7;
  first_try = 7;
  timeout = 60;
}

abbrev plain_client : RpcMetadata
plain_client = record {
  client = "cli";
  user = "me";
  host = "here";
  ip = "10.0.0.1";
  api_version = "";
}

abbrev no_version : Option ℤ
no_version = none

without_version : check_version plain_client (waiting.info 0) ≡ ok no_version
unfolding check_version string_eq
without_version = refl

second_look : wait_proxy 61 0 waiting ≡ some (ok 1)
unfolding wait_proxy is_zero
second_look = refl

third_attempt : FailsBefore 2 (some 60) late_channel
third_attempt j before = ground arith

connected :
    IsConnected other_server "localhost" api_codes late_channel this_machine 60 one_method "method1"
      2
unfolding lookup string_eq starts_dunder
connected = record {
  has_method = refl;
  is_public = refl;
  other_keys = (refl, (refl, (refl, (refl, (refl, tt)))));
  own = refl;
  reachable = refl;
  fails_before = third_attempt;
}

abbrev passed : ℤ
passed = passed_version no_version (waiting.info 1)

abbrev result : Result Response × ℕ
result = remote_result other_server "localhost" "x" 0 (passed_metadata plain_client passed)

simple_call-forwarded_example :
    ((left : List String) × (simple_call
          (main_backend other_server "localhost" api_codes late_channel this_machine 60 one_method
            "method1" 61 error_answer)
          61
          "localhost"
          waiting
          "ping"
          plain_client
          "x"
          []
          0
        ≡ some (ok (respond (backend other_server) result.0, left), result.1))
      × ((call : String) → count call left ≡ count call []))
    × ((v : ℕ) → passed ≡ pos v → v ≤ 5 → 2 ≤ v → result ≡ other_server.manager_method "x" 0)
simple_call-forwarded_example =
    simple_call-forwarded other_server "localhost" api_codes late_channel this_machine 60 one_method
      "method1" 61 61 2 1 waiting "ping" [] plain_client no_version "x" 0 error_answer
      without_version refl second_look connected (omega arith)
