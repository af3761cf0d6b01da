-- ===== src/Calls/Metadata/RoundTrip.antt =====
-- src/grpc_helper/meta.py: the server reads the metadata that the client wrote.
use grpc_helper.Base.{
  String, false, not, none, List, [], ◌∷◌, ◌++◌, keep, value_or, ◌==◌, arith, ◌≡◌, refl, contains,
  All,
}
use grpc_helper.Base.{string_eq}
use grpc_helper.Base.Dict.{
  Dict, keys, lookup, insert, update, from_pairs, NodupKeys, lookup-insert, lookup-from_pairs,
}
use grpc_helper.Calls.Metadata.{RpcMetadata, attributes, as_tuple, from_context}

abbrev set_value : List (String × String) → List (String × String)
set_value pairs = keep (λ (key, value). not (value == "")) pairs

-- The pairs that are written hold the value of each attribute, and nothing for an empty one.
lookup-update_extra :
    (k : String) (d extra : Dict String String)
    → contains (keys extra) k ≡ false
    → lookup k (update d extra) ≡ lookup k d
unfolding update
lookup-update_extra k d [] h = refl
lookup-update_extra k d ((j, v) ∷ extra) h =
    ground (arith, lookup-update_extra k (insert j v d) extra, lookup-insert k j v d)

update-append :
    (d pairs extra : Dict String String) → update d (pairs ++ extra) ≡ update (update d pairs) extra
unfolding update
update-append d [] extra = refl
update-append d ((k, v) ∷ pairs) extra = update-append (insert k v d) pairs extra

set_value-none :
    (k : String) (pairs : Dict String String)
    → lookup k pairs ≡ none
    → lookup k (set_value pairs) ≡ none
unfolding lookup
set_value-none k [] h = refl
set_value-none k ((j, v) ∷ pairs) h = ground (arith, set_value-none k pairs)

set_value-NodupKeys : (pairs : Dict String String) → NodupKeys pairs → NodupKeys (set_value pairs)
set_value-NodupKeys [] u = tt
set_value-NodupKeys ((j, v) ∷ pairs) (fresh, u) =
    ground (arith, set_value-NodupKeys pairs u, set_value-none j pairs fresh)

-- An empty value and no value are read alike.
value-set_value :
    (k : String) (pairs : Dict String String)
    → NodupKeys pairs
    → value_or "" (lookup k (set_value pairs)) ≡ value_or "" (lookup k pairs)
unfolding lookup
value-set_value k [] u = refl
value-set_value k ((j, v) ∷ pairs) (fresh, u) =
    ground (arith, value-set_value k pairs u, set_value-none j pairs fresh)

attributes-NodupKeys : (m : RpcMetadata) → NodupKeys (attributes m)
unfolding attributes lookup string_eq
attributes-NodupKeys m = (refl, (refl, (refl, (refl, (refl, tt)))))

-- What the server reads of an attribute.
read : String → RpcMetadata → List (String × String) → String
read k m extra = value_or "" (lookup k (from_pairs (as_tuple m ++ extra)))

read-as_tuple :
    (k : String) (m : RpcMetadata) (extra : List (String × String))
    → contains (keys extra) k ≡ false
    → read k m extra ≡ value_or "" (lookup k (attributes m))
unfolding read as_tuple
read-as_tuple k m extra other =
    rw
      (
        update-append [] (set_value (attributes m)) extra,
        lookup-update_extra k (from_pairs (set_value (attributes m))) extra other,
        lookup-from_pairs k (set_value (attributes m))
            (set_value-NodupKeys (attributes m) (attributes-NodupKeys m)),
      )
      (value-set_value k (attributes m) (attributes-NodupKeys m))

-- The five keys of the metadata.
abbrev pub attribute_keys : List String
attribute_keys = "client" ∷ "user" ∷ "host" ∷ "ip" ∷ "api_version" ∷ []

value-attributes :
    (m : RpcMetadata)
    → (value_or "" (lookup "client" (attributes m)) ≡ m.client)
      × (value_or "" (lookup "user" (attributes m)) ≡ m.user)
      × (value_or "" (lookup "host" (attributes m)) ≡ m.host)
      × (value_or "" (lookup "ip" (attributes m)) ≡ m.ip)
      × (value_or "" (lookup "api_version" (attributes m)) ≡ m.api_version)
unfolding attributes lookup string_eq
value-attributes m = (refl, refl, refl, refl, refl)

-- The server reads the metadata that the client wrote, empty attributes included, whatever pairs of
-- other keys the transport has added.
pub from_context-as_tuple :
    (m : RpcMetadata) (extra : List (String × String))
    → All (λ key. contains (keys extra) key ≡ false) attribute_keys
    → from_context (as_tuple m ++ extra) ≡ m
unfolding from_context read
from_context-as_tuple m extra (client, (user, (host, (ip, (api_version, _))))) =
    let (v1, v2, v3, v4, v5) = value-attributes m in
    cc (
      read-as_tuple "client" m extra client,
      read-as_tuple "user" m extra user,
      read-as_tuple "host" m extra host,
      read-as_tuple "ip" m extra ip,
      read-as_tuple "api_version" m extra api_version,
      v1,
      v2,
      v3,
      v4,
      v5,
    )
