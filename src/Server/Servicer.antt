-- ===== src/Server/Servicer.antt =====
-- src/grpc_helper/server.py: `RpcServicer`, which gives each method of a manager its RPC method, and
-- `is_streaming` of src/grpc_helper/utils.py.
pub mod Methods
use Prim.Native.Char.{code}
use grpc_helper.Base.{
  ℕ, String, ◌<>◌, Bool, true, false, not, ◌&&◌, Option, none, some, [], ◌∷◌, if◌then◌else◌, ◌=ℕ◌,
}
use grpc_helper.Base.{string_eq}
use grpc_helper.Base.Dict.{Dict, lookup, insert, has}
use grpc_helper.Errors.{Result, ok, raised, rpc_exception, error_param_invalid}
use grpc_helper.Server.Services.{ServiceInfo}

-- The classes of a stub's methods in the gRPC library.
pub data MultiCallable : Type 0 where
  unary_unary unary_stream stream_unary stream_stream : MultiCallable

abbrev pub Stub : Type 0
Stub = Dict String MultiCallable

-- `is_streaming`, for a method that the stub has
unfoldable pub is_streaming : Stub → String → Bool
is_streaming stub n = elim (lookup n stub) [
  | some unary_stream ↦ true
  | some stream_stream ↦ true
  | _ ↦ false
]

-- What a method declares to return: nothing, the class `Result`, or another type.
pub data Annotation : Type 0 where
  no_annotation : Annotation
  returns_result : Annotation
  returns : String → Annotation

-- An attribute of a manager: whether it is callable, and then its signature.
pub record Attribute : Type 0 where
  pub callable : Bool
  pub parameters : ℕ
  pub return_annotation : Annotation

-- An `RpcStreamingMethod` or an `RpcSimpleMethod`: whether it has a manager and whether it has a
-- stub, and the type of its responses, without which it answers an error with a `ResultStatus`.
pub record RpcServerMethod : Type 0 where
  pub name : String
  pub manager : Bool
  pub return_type : Option String
  pub stub : Bool
  pub streaming : Bool

-- What an attribute of the servicer is: an RPC method, or the method of the manager itself.
pub data Handler : Type 0 where
  rpc_method : RpcServerMethod → Handler
  stub_method : Handler

-- `x.startswith("_")`
starts_private : String → Bool
starts_private String.[] = false
starts_private (String.◌∷◌ c s) = code c =ℕ b'_'

-- The filter of the loop.
unfoldable pub is_method : Stub → String → Attribute → Bool
unfolding starts_private
is_method stub n attribute = not (starts_private n) && (attribute.callable && has n stub)

-- `return_type != inspect._empty and len(sig.parameters) == 1`
is_declared : Attribute → Bool
is_declared attribute = elim attribute.return_annotation [
  | no_annotation ↦ false
  | _ ↦ attribute.parameters =ℕ 1
]

served : Stub → String → Annotation → Result Handler
served stub n (returns return_type) = ok (
    rpc_method (record {
      name = n;
      manager = true;
      return_type = some return_type;
      stub = false;
      streaming = is_streaming stub n;
    }))
served stub n _ = raised (
    rpc_exception
      ("Can't declare "
        <> (n <> " rpc with Result as a return type; please use Return Status instead"))
      error_param_invalid)

-- The body of the loop.
unfoldable pub make_handler : Stub → ServiceInfo → String → Attribute → Result Handler
unfolding is_declared served is_streaming
make_handler stub info n attribute =
    if is_declared attribute && not info.is_proxy
    then served stub n attribute.return_annotation
    else if info.is_proxy
    then ok (
        rpc_method (record {
          name = n;
          manager = false;
          return_type = none;
          stub = true;
          streaming = is_streaming stub n;
        }))
    else ok stub_method

-- `RpcServicer.__init__`: the attributes of the manager in the order of `dir`, onto those that the
-- servicer has already.
unfoldable pub make_servicer :
    Stub → ServiceInfo → Dict String Attribute → Dict String Handler → Result (Dict String Handler)
unfolding is_method make_handler
make_servicer stub info [] servicer = ok servicer
make_servicer stub info ((n, attribute) ∷ rest) servicer =
    let skipped = make_servicer stub info rest servicer in
    if is_method stub n attribute
    then elim (make_handler stub info n attribute) [
      | raised e ↦ raised e
      | ok handler ↦ make_servicer stub info rest (insert n handler servicer)
    ]
    else skipped
