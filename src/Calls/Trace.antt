-- ===== src/Calls/Trace.antt =====
-- src/grpc_helper/utils.py: the texts of the traces of calls.
pub mod Bounds
pub mod Paths
use Prim.Native.Char.{Char, code}
use grpc_helper.Base.{
  ℕ, zero, suc, String, ◌<>◌, Bool, not, ◌||◌, List, [], ◌∷◌, ltb, keep, if◌then◌else◌, ◌=ℕ◌, ◌==◌,
}
use grpc_helper.Base.{string_eq}
use grpc_helper.Calls.Metadata.{RpcMetadata, metadata_text, from_context}

abbrev pub max_trace_buffer_len : ℕ
max_trace_buffer_len = 1024

-- `len(text)`
unfoldable pub text_length : String → ℕ
text_length String.[] = 0
text_length (String.◌∷◌ c s) = suc (text_length s)

-- `text[0:n]`
unfoldable pub text_take : ℕ → String → String
text_take zero s = String.[]
text_take (suc n) String.[] = String.[]
text_take (suc n) (String.◌∷◌ c s) = String.◌∷◌ c (text_take n s)

-- `text.replace("\n", " ")`
unfoldable pub without_newlines : String → String
without_newlines String.[] = String.[]
without_newlines (String.◌∷◌ c s) =
    String.◌∷◌ (if code c =ℕ 10 then " " else c) (without_newlines s)

-- The text of the buffer in a trace, of at most `limit` characters and the dots.
unfoldable pub stripped : ℕ → String → String
unfolding text_length text_take
stripped limit buffer_str =
    if ltb (text_length buffer_str) limit then buffer_str else text_take limit buffer_str <> "..."

-- `trace_buffer`, of the name of the message's type and the message's text.
unfoldable pub trace_buffer : String → String → String
unfolding stripped without_newlines
trace_buffer buffer_name buffer =
    buffer_name <> ("{" <> (stripped max_trace_buffer_len (without_newlines buffer) <> "}"))

-- The first part of a text that a slash splits gets one more character.
add_first : Char → List String → List String
add_first c [] = []
add_first c (part ∷ parts) = String.◌∷◌ c part ∷ parts

pub split_slash : String → List String
unfolding add_first
split_slash String.[] = "" ∷ []
split_slash (String.◌∷◌ c s) =
    let parts = split_slash s in if code c =ℕ b'/' then "" ∷ parts else add_first c parts

-- `Path(text)` has the parts that are neither empty nor a dot.
pub path_parts : String → List String
unfolding split_slash
path_parts text = keep (λ part. not (part == "" || part == ".")) (split_slash text)

-- `p.parent.name` and `p.name`
pub last_names : List String → String × String
last_names [] = ("", "")
last_names (name ∷ []) = ("", name)
last_names (parent ∷ name ∷ []) = (parent, name)
last_names (first ∷ parent ∷ name ∷ rest) = last_names (parent ∷ name ∷ rest)

-- What a call is traced with: the metadata and the method of a client, or the metadata pairs and the
-- path of the method that the gRPC library gives to the server.
pub data Context : Type 0 where
  of_client : RpcMetadata → String → Context
  of_call : List (String × String) → String → Context

unfoldable pub peer : Context → String
peer (of_client metadata method) = metadata_text metadata
peer (of_call pairs path) = metadata_text (from_context pairs)

unfoldable pub traced_method : Context → String
unfolding path_parts last_names
traced_method (of_client metadata method) = method
traced_method (of_call pairs path) =
    let (parent, name) = last_names (path_parts path) in parent <> ("." <> name)

-- `trace_rpc`, of the name and the text of the buffer.
unfoldable pub trace_rpc : Bool → String → String → Context → String
unfolding peer traced_method
trace_rpc input_rpc buffer_name buffer context =
    let trace = trace_buffer buffer_name buffer in
    if input_rpc
    then "[RPC] "
      <> (peer context <> (" >>> " <> (traced_method context <> (" (" <> (trace <> ")")))))
    else "[RPC] " <> (peer context <> (" <<< " <> (traced_method context <> (": " <> trace))))
