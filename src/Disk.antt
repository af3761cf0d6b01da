-- ===== src/Disk.antt =====
-- The folders and the files that the managers keep there: src/grpc_helper/folders.py, and
-- `_load_config` and `_save_config` of src/grpc_helper/manager.py.
pub mod Laws
use grpc_helper.Base.{String, ◌<>◌, Bool, Option, none, some, List, [], ◌∷◌}
use grpc_helper.Base.{string_eq}
use grpc_helper.Base.Dict.{Dict, lookup, insert}
use grpc_helper.Base.Number.{ℤ}
use grpc_helper.Errors.{error_model_invalid, rpc_exception, Result, ok, raised, ◌>>=◌, ◌>>◌}

-- A value that `json.load` returns.
mutual
  pub data Json : Type 0 where
    null : Json
    boolean : Bool → Json
    number : ℤ → Json
    fraction : String → Json
    text : String → Json
    array : Items → Json
    object : Members → Json

  pub data Items : Type 0 where
    item_end : Items
    item : Json → Items → Items

  pub data Members : Type 0 where
    member_end : Members
    member : String → Json → Members → Members

-- A file's content: what `json.load` makes of it, or the text of its decoding error.
pub data File : Type 0 where
  json_file : Json → File
  malformed : String → File

abbrev pub Disk : Type 0
Disk = Dict String File

pub record Folders : Type 0 where
  pub system : Option String
  pub user : Option String
  pub workspace : Option String

abbrev pub no_folders : Folders
no_folders = record { system = none; user = none; workspace = none }

-- `folder / name`
unfoldable pub file_path : String → String → String
file_path folder name = folder <> ("/" <> name)

abbrev pub checked : Option (Json → Result (Unit {0})) → Json → Result Json
checked none model = ok model
checked (some validator) model = do validator model; ok model

abbrev decode : String → Option (Json → Result (Unit {0})) → Option File → Result Json
decode file validator none = ok (object member_end)
decode file validator (some (malformed e)) = raised (
    rpc_exception ("Invalid config json file (bad json: " <> (e <> ("): " <> file)))
      error_model_invalid)
decode file validator (some (json_file model)) = checked validator model

-- `RpcManager._load_config`: with no folder, no name or no file, the model is empty.
unfoldable pub load_config :
    Option String → Option (Json → Result (Unit {0})) → Option String → Disk → Result Json
load_config (some name) validator (some folder) disk =
    decode (file_path folder name) validator (lookup (file_path folder name) disk)
load_config _ validator _ disk = ok (object member_end)

-- `RpcManager._save_config`: with no workspace nothing is written.
unfoldable pub save_config : String → Option String → Json → Disk → Disk
save_config name none model disk = disk
save_config name (some folder) model disk = insert (file_path folder name) (json_file model) disk

abbrev pub members_of : Members → List (String × Json)
members_of member_end = []
members_of (member k v rest) = (k, v) ∷ members_of rest

abbrev pub of_members : List (String × Json) → Members
of_members [] = member_end
of_members ((k, v) ∷ rest) = member k v (of_members rest)
