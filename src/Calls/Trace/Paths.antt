-- ===== src/Calls/Trace/Paths.antt =====
-- src/grpc_helper/utils.py: the traces of a call at the client and at the server.
use Prim.Native.String.append
use grpc_helper.Base.{
  String, ◌<>◌, Bool, false, List, [], ◌∷◌, ◌++◌, ◌==◌, arith, ◌≡◌, refl, ap, ◌∙◌, All, contains,
}
use grpc_helper.Base.{string_eq}
use grpc_helper.Base.Dict.{keys}
use grpc_helper.Base.Text.{has_char}
use grpc_helper.Calls.Metadata.{RpcMetadata, as_tuple, metadata_text}
use grpc_helper.Calls.Metadata.RoundTrip.{attribute_keys, from_context-as_tuple}
use grpc_helper.Calls.Trace.{
  add_first, split_slash, path_parts, last_names, of_client, of_call, peer, traced_method,
  trace_rpc,
}

-- A name that stands in a path as a part of its own.
abbrev pub IsPart : String → Type 0
IsPart part = (has_char b'/' part ≡ false) × ((part == "") ≡ false) × ((part == ".") ≡ false)

split_slash-plain : (part : String) → has_char b'/' part ≡ false → split_slash part ≡ part ∷ []
unfolding split_slash has_char add_first
split_slash-plain String.[] plain = refl
split_slash-plain (String.◌∷◌ c s) plain = ground (arith, plain, split_slash-plain s)

split_slash-slash : (rest : String) → split_slash ("/" <> rest) ≡ "" ∷ split_slash rest
unfolding split_slash
split_slash-slash rest =
    ap split_slash (append.cons "/" "" rest ∙ ap (String.◌∷◌ "/") (append.nil rest))

split_slash-append :
    (part rest : String)
    → has_char b'/' part ≡ false
    → split_slash (part <> ("/" <> rest)) ≡ part ∷ split_slash rest
unfolding split_slash has_char add_first
split_slash-append String.[] rest plain = rw (append.nil ("/" <> rest)) (split_slash-slash rest)
split_slash-append (String.◌∷◌ c s) rest plain =
    rw (append.cons c s ("/" <> rest)) (ground (arith, plain, split_slash-append s rest))

-- The path of a method has its service and its name.
path_parts-method :
    (service name : String)
    → IsPart service
    → IsPart name
    → path_parts ("/" <> (service <> ("/" <> name))) ≡ service ∷ name ∷ []
unfolding path_parts
path_parts-method service name (plain, some, dotless) (plain', some', dotless') = ground (
  arith,
  split_slash-slash (service <> ("/" <> name)),
  split_slash-append service name plain,
  split_slash-plain name plain',
  some,
  dotless,
  some',
  dotless',
)

peer-as_tuple :
    (metadata : RpcMetadata) (extra : List (String × String)) (path method : String)
    → All (λ key. contains (keys extra) key ≡ false) attribute_keys
    → peer (of_call (as_tuple metadata ++ extra) path) ≡ peer (of_client metadata method)
unfolding peer
peer-as_tuple metadata extra path method others =
    ap metadata_text (from_context-as_tuple metadata extra others)

pub trace_rpc-call :
    (input_rpc : Bool) (buffer_name buffer service name : String) (metadata : RpcMetadata)
    (extra : List (String × String))
    → IsPart service
    → IsPart name
    → All (λ key. contains (keys extra) key ≡ false) attribute_keys
    → trace_rpc input_rpc buffer_name buffer
        (of_call (as_tuple metadata ++ extra) ("/" <> (service <> ("/" <> name))))
      ≡ trace_rpc input_rpc buffer_name buffer (of_client metadata (service <> ("." <> name)))
unfolding trace_rpc traced_method last_names
trace_rpc-call input_rpc buffer_name buffer service name metadata extra part part' others =
    let path = "/" <> (service <> ("/" <> name)) in
    let method = service <> ("." <> name) in
    rw (path_parts-method service name part part', peer-as_tuple metadata extra path method others)
      refl
