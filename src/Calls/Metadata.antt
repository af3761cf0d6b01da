-- ===== src/Calls/Metadata.antt =====
-- src/grpc_helper/meta.py: the metadata of a call, written into the request and read from it.
pub mod RoundTrip
use grpc_helper.Base.{String, ◌<>◌, not, List, [], ◌∷◌, keep, value_or, if◌then◌else◌, ◌==◌}
use grpc_helper.Base.{string_eq}
use grpc_helper.Base.Dict.{lookup, from_pairs}

pub record RpcMetadata : Type 0 where
  pub client : String
  pub user : String
  pub host : String
  pub ip : String
  pub api_version : String

-- `self.__dict__.items()`
unfoldable pub attributes : RpcMetadata → List (String × String)
attributes m =
    ("client", m.client)
    ∷ ("user", m.user)
    ∷ ("host", m.host)
    ∷ ("ip", m.ip)
    ∷ ("api_version", m.api_version)
    ∷ []

-- `as_tuple`: the attributes that are set
unfoldable pub as_tuple : RpcMetadata → List (String × String)
unfolding attributes
as_tuple m = keep (λ (key, value). not (value == "")) (attributes m)

-- `from_context`, of the pairs that `invocation_metadata` gives: the last pair of a key counts.
unfoldable pub from_context : List (String × String) → RpcMetadata
from_context pairs =
    let context_meta = from_pairs pairs in
    record {
      client = value_or "" (lookup "client" context_meta);
      user = value_or "" (lookup "user" context_meta);
      host = value_or "" (lookup "host" context_meta);
      ip = value_or "" (lookup "ip" context_meta);
      api_version = value_or "" (lookup "api_version" context_meta);
    }

shown : String → String
shown value = if value == "" then "unknown" else value

-- `__str__`
unfoldable pub metadata_text : RpcMetadata → String
unfolding shown
metadata_text m =
    "["
    <> (shown m.client
        <> ("]"
            <> (shown m.user
                <> ("@"
                    <> (shown m.host
                        <> ("("
                            <> (shown m.ip
                                <> (")"
                                    <> (" api:"
                                        <> (if m.api_version == ""
                                            then "0"
                                            else m.api_version))))))))))
