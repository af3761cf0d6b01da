-- ===== src/Calls/Client/Construct.antt =====
-- src/grpc_helper/client.py: `RpcClient` and `RetryStub`, and `get_current_ip` of
-- src/grpc_helper/utils.py.
pub mod Reached
use Prim.Native.Char.{code}
use grpc_helper.Base.{
  ℕ, String, ◌<>◌, Bool, true, false, Option, none, some, List, [], ◌∷◌, if◌then◌else◌, ◌=ℕ◌,
}
use grpc_helper.Base.{string_eq}
use grpc_helper.Base.Dict.{Dict, insert}
use grpc_helper.Base.Number.{ℤ, str, str_ℤ}
use grpc_helper.Calls.Metadata.{RpcMetadata}
use grpc_helper.Errors.{Result, ok, raised}
use grpc_helper.Server.Servicer.{Stub, is_streaming}

-- What a client asks the system for: whether it is Windows, the login, the user's number and the
-- lookup of its name, the host's name, and the local address of a socket.
pub record Machine : Type 0 where
  pub windows : Bool
  pub login : String
  pub uid : ℕ
  pub pw_name : Result String
  pub hostname : String
  pub socket_name : Result String

-- `get_user`
unfoldable pub get_user : Machine → String
get_user machine =
    if machine.windows
    then machine.login
    else elim machine.pw_name [ raised e ↦ str machine.uid | ok user ↦ user ]

-- `get_current_ip`
unfoldable pub get_current_ip : Machine → String → String
get_current_ip machine default = elim machine.socket_name [ raised e ↦ default | ok out ↦ out ]

-- A generated class of stubs: its name, and the methods of its instances.
pub record StubClass : Type 0 where
  pub class_name : String
  pub methods : Stub

-- A `RetryStreamingMethod` or a `RetrySimpleMethod`, as it is made.
pub record StubMethod : Type 0 where
  pub m_name : String
  pub s_name : String
  pub timeout : Option ℕ
  pub metadata : RpcMetadata
  pub exception : Bool
  pub streaming : Bool

-- `x.startswith("__")`
unfoldable pub starts_dunder : String → Bool
starts_dunder (String.◌∷◌ c (String.◌∷◌ d s)) = if code c =ℕ b'_' then code d =ℕ b'_' else false
starts_dunder _ = false

module _ (channel : String) (timeout : Option ℕ) (metadata : RpcMetadata) (exception : Bool) where
  unfoldable pub make_method : StubClass → String → StubMethod
  unfolding is_streaming
  make_method stub n = record {
    m_name = n;
    s_name = stub.class_name <> ("(" <> (channel <> ")"));
    timeout = timeout;
    metadata = metadata;
    exception = exception;
    streaming = is_streaming stub.methods n;
  }

  -- `RetryStub.__init__`, of the methods in the order of `dir`.
  unfoldable pub make_stub : StubClass → Stub → Dict String StubMethod → Dict String StubMethod
  unfolding starts_dunder make_method
  make_stub stub [] made = made
  make_stub stub ((n, kind) ∷ rest) made =
      let skipped = make_stub stub rest made in
      let added = make_stub stub rest (insert n (make_method stub n) made) in
      if starts_dunder n then skipped else added

-- The argument `name` of a client: a name, or the metadata of the client whose calls it passes on.
pub data ClientName : Type 0 where
  named : String → ClientName
  proxying : RpcMetadata → ClientName

unfoldable pub shared_metadata : Machine → ClientName → RpcMetadata
unfolding get_user get_current_ip
shared_metadata machine (named name) = record {
  client = name;
  user = get_user machine;
  host = machine.hostname;
  ip = get_current_ip machine "127.0.0.1";
  api_version = "";
}
shared_metadata machine (proxying metadata) = metadata

-- The copy of the metadata for one stub.
unfoldable pub versioned : Option ℤ → RpcMetadata → RpcMetadata
versioned none metadata = metadata
versioned (some ver) metadata = record metadata { api_version = str_ℤ ver }

abbrev pub StubsMap : Type 0
StubsMap = Dict String (StubClass × Option ℤ)

-- The stubs of an `RpcClient`, by the names of its attributes.
abbrev pub RpcClient : Type 0
RpcClient = Dict String (Dict String StubMethod)

-- The loop of `RpcClient.__init__`.
unfoldable pub add_stubs : String → Option ℕ → RpcMetadata → Bool → StubsMap → RpcClient → RpcClient
unfolding make_stub versioned
add_stubs target_host timeout metadata exception [] client = client
add_stubs target_host timeout metadata exception ((name, (typ, ver)) ∷ rest) client =
    add_stubs target_host timeout metadata exception rest (
      insert name
        (make_stub target_host timeout (versioned ver metadata) exception typ typ.methods [])
        client)

-- `RpcClient.__init__`
unfoldable pub make_client :
    Machine → String → ℤ → StubsMap → Option ℕ → ClientName → Bool → RpcClient
unfolding add_stubs shared_metadata
make_client machine host port stubs_map timeout name exception =
    add_stubs (host <> (":" <> str_ℤ port)) timeout (shared_metadata machine name) exception
      stubs_map []
