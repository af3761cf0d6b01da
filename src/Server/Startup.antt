-- ===== src/Server/Startup.antt =====
-- src/grpc_helper/server.py: the loop of the constructor that builds the info of each service, from
-- its descriptor and from the persisted proxies.
pub mod Restart
pub mod Fresh
pub mod Runs
use grpc_helper.Base.{
  ℕ, String, ◌<>◌, Bool, true, false, Option, none, some, List, [], ◌∷◌, ltb, if◌then◌else◌, ◌==◌,
}
use grpc_helper.Base.{string_eq, nat_eq}
use grpc_helper.Base.Dict.{Dict, lookup, insert, update, from_pairs, values}
use grpc_helper.Base.Number.{ℤ, pos}
use grpc_helper.Base.Text.{codes, has_part}
use grpc_helper.Disk.{
  Json, null, boolean, number, text, array, object, Items, item_end, item, Disk, load_config,
  members_of,
}
use grpc_helper.Errors.{Result, ok, raised, python_error, ◌>>=◌, ◌>>◌}
use grpc_helper.Calls.Client.Construct.{StubClass}
use grpc_helper.Server.Services.{ServiceInfo, Services, proxy_file}
use grpc_helper.Server.Servicer.{Attribute}

-- An `RpcServiceDescriptor`: the title and the version of its module, the numbers of its enumeration
-- of API versions, the attributes of its manager (of no manager there are none that count), and its
-- class of client stubs. The manager itself goes by the name of the service.
pub record RpcServiceDescriptor : Type 0 where
  pub name : String
  pub title : String
  pub version : String
  pub api_version : List ℕ
  pub manager : Dict String Attribute
  pub client_stub : StubClass
  pub is_proxy : Bool

unfoldable pub descriptor_pairs : List RpcServiceDescriptor → List (String × RpcServiceDescriptor)
descriptor_pairs [] = []
descriptor_pairs (d ∷ rest) = (d.name, d) ∷ descriptor_pairs rest

-- `self.descriptors`: those of the caller after the basic ones, or in place of one of the same name.
unfoldable pub all_descriptors :
    List RpcServiceDescriptor → List RpcServiceDescriptor → List RpcServiceDescriptor
all_descriptors basic given =
    values (update (from_pairs (descriptor_pairs basic)) (descriptor_pairs given))

-- `versions.remove(n)`: the first that is equal
unfoldable pub remove : ℕ → List ℕ → Result (List ℕ)
remove n [] = raised (python_error "ValueError" "list.remove(x): x not in list")
remove n (v ∷ rest) =
    let others = remove n rest in if n == v then ok rest else (do left ← others; ok (v ∷ left))

-- `max(versions)` and `min(versions)`
pub largest : ℕ → List ℕ → ℕ
largest n [] = n
largest n (v ∷ rest) = largest (if ltb n v then v else n) rest

pub smallest : ℕ → List ℕ → ℕ
smallest n [] = n
smallest n (v ∷ rest) = smallest (if ltb v n then v else n) rest

-- The current and the supported version.
unfoldable pub version_range : List ℕ → Result (ℕ × ℕ)
unfolding largest smallest
version_range versions = do
  known ← remove 0 versions
  elim known [
    | [] ↦ raised (python_error "ValueError" "max() arg is an empty sequence")
    | v ∷ rest ↦ ok (largest v rest, smallest v rest)
  ]

pub has_item : String → Items → Bool
has_item name item_end = false
has_item name (item (text t) rest) = if name == t then true else has_item name rest
has_item name (item _ rest) = has_item name rest

no_index : {A : Type 0} → Result A
no_index = raised (python_error "TypeError" "indices must be integers")

-- `proxies_model[name] if name in proxies_model else None`
unfoldable pub persisted_model : String → Json → Result (Option Json)
unfolding has_item no_index
persisted_model name (object members) = ok (lookup name (members_of members))
persisted_model name (array items) = if has_item name items then no_index else ok none
persisted_model name (text t) = if has_part (codes name) (codes t) then no_index else ok none
persisted_model name _ = raised (python_error "TypeError" "argument is not iterable")

-- `persisted_model[key]`
unfoldable pub model_value : String → Json → Result Json
unfolding no_index
model_value key (object members) = elim (lookup key (members_of members)) [
  | none ↦ raised (python_error "KeyError" key)
  | some value ↦ ok value
]
model_value key _ = no_index

-- A text and a number as fields of a message; `None` leaves the field's default.
unfoldable pub text_field : Json → Result String
text_field (text t) = ok t
text_field null = ok ""
text_field _ = raised (python_error "TypeError" "bad argument type for built-in operation")

-- `fits` tells which numbers the field can hold.
unfoldable pub number_field : (ℤ → Bool) → Json → Result ℤ
number_field fits (number n) =
    if fits n then ok n else raised (python_error "ValueError" "Value out of range")
number_field fits (boolean b) = ok (if b then pos 1 else pos 0)
number_field fits null = ok (pos 0)
number_field fits _ = raised (python_error "TypeError" "bad argument type for built-in operation")

-- The version, the port and the host of the info.
unfoldable pub proxy_fields :
    (ℤ → Bool) → RpcServiceDescriptor → Option Json → Result (String × ℤ × String)
unfolding model_value text_field number_field
proxy_fields fits d none = ok (d.title <> (":" <> d.version), pos 0, "")
proxy_fields fits d (some model) = do
  version ← model_value "version" model
  port ← model_value "port" model
  host ← model_value "host" model
  version_text ← text_field version
  port_number ← number_field fits port
  host_text ← text_field host
  ok (version_text, port_number, host_text)

-- The info of one service.
unfoldable pub build_info : (ℤ → Bool) → Json → RpcServiceDescriptor → Result ServiceInfo
unfolding persisted_model version_range proxy_fields
build_info fits proxies d = do
  model ← persisted_model d.name proxies
  (current, supported) ← version_range d.api_version
  (version, port, host) ← proxy_fields fits d model
  ok (record {
    name = d.name;
    version = version;
    current_api_version = current;
    supported_api_version = supported;
    is_proxy = d.is_proxy;
    proxy_port = port;
    proxy_host = host;
  })

-- The loop over the descriptors.
unfoldable pub build_infos :
    (ℤ → Bool) → Json → List RpcServiceDescriptor → Services → Result Services
unfolding build_info
build_infos fits proxies [] infos = ok infos
build_infos fits proxies (d ∷ rest) infos = do
  info ← build_info fits proxies d
  build_infos fits proxies rest (insert info.name info infos)

-- The services of a server that starts in a workspace.
unfoldable pub start_infos :
    (ℤ → Bool) → Option String → Disk → List RpcServiceDescriptor → Result Services
unfolding build_infos
start_infos fits workspace disk descriptors = do
  proxies ← load_config (some proxy_file) none workspace disk
  build_infos fits proxies descriptors []
