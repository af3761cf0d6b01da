-- ===== src/Calls/Method/Versions.antt =====
-- src/grpc_helper/methods.py: which API versions of a client a service takes.
use grpc_helper.Base.{ℕ, ◌<◌, ◌≤◌, false, some, none, ◌==◌, arith, ◌≡◌, refl}
use grpc_helper.Base.{string_eq}
use grpc_helper.Base.Number.{pos, int, str}
use grpc_helper.Base.Number.RoundTrip.{int-str}
use grpc_helper.Calls.Metadata.{RpcMetadata}
use grpc_helper.Calls.Method.{check_version}
use grpc_helper.Errors.{HasCode, ok, error_api_server_too_old, error_api_client_too_old}
use grpc_helper.Server.Services.{ServiceInfo}

int_empty : int "" ≡ none
unfolding int
int_empty = refl

str_filled : (n : ℕ) → (str n == "") ≡ false
str_filled n = ground (arith, int-str n, int_empty)

-- A client that gives its version as the text of a number is taken exactly if the number is between
-- the supported and the current version of the service, and then with that number. With a greater
-- number the error tells that the server is too old, and with a lesser one that the client is.
pub check_version-str :
    (metadata : RpcMetadata) (info : ServiceInfo) (n : ℕ)
    → metadata.api_version ≡ str n
    → (n ≤ info.current_api_version
        → info.supported_api_version ≤ n
        → check_version metadata info ≡ ok (some (pos n)))
      × (info.current_api_version < n
          → HasCode error_api_server_too_old (check_version metadata info))
      × (n ≤ info.current_api_version
          → n < info.supported_api_version
          → HasCode error_api_client_too_old (check_version metadata info))
unfolding check_version
check_version-str metadata info n given = (
  λ least most. ground (arith, given, int-str n, str_filled n),
  λ more. ground (arith, given, int-str n, str_filled n),
  λ known less. ground (arith, given, int-str n, str_filled n),
)
