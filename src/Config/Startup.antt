-- ===== src/Config/Startup.antt =====
-- src/grpc_helper/config/cfg_manager.py: the constructor of `ConfigManager`, with the layers of
-- default values and the persisted values.
pub mod Layers
pub mod Loaded
pub mod Construct
pub mod Texts
use grpc_helper.Base.{
  String, ◌<>◌, Bool, true, false, not, Option, none, some, List, [], ◌∷◌, any, keep, is_empty,
  if◌then◌else◌,
}
use grpc_helper.Base.{string_eq}
use grpc_helper.Base.Dict
use grpc_helper.Base.Dict.{Dict, keys, values, lookup, insert, has}
use grpc_helper.Base.Text.{join}
use grpc_helper.Config.Env.{env_name}
use grpc_helper.Config.Item.{Config, Attribute, all_config_items, validate, update, with_default}
use grpc_helper.Disk.{Json, text, object, Disk, Folders, load_config, members_of}
use grpc_helper.Errors.{
  Result, ok, raised, rpc_exception, python_error, error_model_invalid, raise_if, ◌>>=◌, ◌>>◌,
}

abbrev pub config_file : String
config_file = "config.json"

abbrev pub ConfigItems : Type 0
ConfigItems = Dict String Config

-- An entry of a list of items: an item, or the attributes of a holder class.
pub data Candidate : Type 0 where
  single : Config → Candidate
  holder : List Attribute → Candidate

add_items : List Config → ConfigItems → ConfigItems
add_items [] out = out
add_items (c ∷ rest) out = add_items rest (insert c.name c out)

add_candidates : List Candidate → ConfigItems → ConfigItems
add_candidates [] out = out
add_candidates (single c ∷ rest) out = add_candidates rest (insert c.name c out)
add_candidates (holder attributes ∷ rest) out =
    add_candidates rest (add_items (all_config_items attributes) out)

-- `__serialize_items`
unfoldable pub serialize_items : Option (List Candidate) → ConfigItems
unfolding add_candidates add_items
serialize_items none = []
serialize_items (some candidates) = add_candidates candidates []

pub is_text : Json → Bool
is_text (text t) = true
is_text _ = false

-- `__validate_config_file`
unfoldable pub validate_config_file : Json → Result (Unit {0})
unfolding is_text
validate_config_file (object members) =
    if any (λ (name, v). not (is_text v)) (members_of members)
    then raised (
        rpc_exception "Invalid config json file (expecting a simple str:str object)"
          error_model_invalid)
    else ok tt
validate_config_file _ = raised (
    rpc_exception "Invalid config json file (expecting a simple str:str object)"
      error_model_invalid)

-- A validated model as a dict of texts.
text_entries : List (String × Json) → List (String × String)
text_entries [] = []
text_entries ((name, text t) ∷ rest) = (name, t) ∷ text_entries rest
text_entries ((name, _) ∷ rest) = text_entries rest

texts_of : Json → Dict String String
texts_of (object members) = Dict.from_pairs (text_entries (members_of members))
texts_of _ = []

-- `self._load_config(folder)` of the manager
unfoldable pub load_texts : Option String → Disk → Result (Dict String String)
unfolding texts_of text_entries
load_texts folder disk = do
  model ← load_config (some config_file) (some validate_config_file) folder disk
  ok (texts_of model)

-- What the constructor reads beside its lists of items.
pub record Surroundings : Type 0 where
  pub folders : Folders
  pub environ : Dict String String
  pub cli_config : Dict String String
  pub disk : Disk

-- The items that the environment names, in the order of the items.
pub env_pairs : List String → Dict String String → List (String × String)
env_pairs [] environ = []
env_pairs (name ∷ names) environ =
    let rest = env_pairs names environ in
    elim (lookup (env_name name) environ) [ none ↦ rest | some v ↦ (name, v) ∷ rest ]

-- `__load_env_config`
unfoldable pub load_env_config : List String → Dict String String → Dict String String
unfolding env_pairs
load_env_config names environ = Dict.from_pairs (env_pairs names environ)

pub hard_coded_pairs : List Config → List (String × String)
hard_coded_pairs [] = []
hard_coded_pairs (c ∷ rest) = (c.name, c.hard_coded_default_value) ∷ hard_coded_pairs rest

-- Layer 1 of the defaults.
unfoldable pub hard_coded : List Config → Dict String String
unfolding hard_coded_pairs
hard_coded items = Dict.from_pairs (hard_coded_pairs items)

-- `__load_defaults`
unfoldable pub load_defaults : Surroundings → ConfigItems → Result (Dict String String)
load_defaults s all_items = do
  let layer1 = hard_coded (values all_items)
  system ← load_texts s.folders.system s.disk
  let layer2 = Dict.update layer1 system
  user ← load_texts s.folders.user s.disk
  let layer3 = Dict.update layer2 user
  let layer4 = Dict.update layer3 (load_env_config (keys all_items) s.environ)
  ok (Dict.update layer4 s.cli_config)

-- A persisted value is taken if it is valid, and the default if it is not.
unfoldable pub load_current : Option String → String → Config → Result Config
load_current none default_val c = update c default_val
load_current (some current_val) default_val c = elim (update c current_val) [
  | ok updated ↦ ok updated
  | raised e ↦ update c default_val
]

-- One round of the loop at the end of the constructor.
unfoldable pub load_item : Dict String String → Dict String String → String → Config → Result Config
unfolding load_current
load_item defaults currents name c = elim (lookup name defaults) [
  | none ↦ raised (python_error "KeyError" name)
  | some default_val ↦ do
    validate c name default_val
    load_current (lookup name currents) default_val (with_default c default_val)
]

unfoldable pub load_items :
    Dict String String → Dict String String → ConfigItems → Result ConfigItems
load_items defaults currents [] = ok []
load_items defaults currents ((name, c) ∷ rest) = do
  loaded ← load_item defaults currents name c
  others ← load_items defaults currents rest
  ok ((name, loaded) ∷ others)

pub record ConfigManager : Type 0 where
  pub folders : Folders
  pub static_items : ConfigItems
  pub user_items : ConfigItems

-- `__all_items`
unfoldable pub all_items : ConfigItems → ConfigItems → ConfigItems
all_items static_items user_items = Dict.update static_items user_items

pub conflicting_items : ConfigItems → ConfigItems → List String
conflicting_items static_items user_items = keep (λ name. has name user_items) (keys static_items)

-- `ConfigManager.__init__`. The static items stand first in `__all_items`, and no name is in both
-- lists, so the loop over all items is one loop over each.
unfoldable pub make_manager :
    Surroundings → Option (List Candidate) → Option (List Candidate) → Result ConfigManager
unfolding conflicting_items
make_manager s static_list user_list = do
  let static_items = serialize_items static_list
  let user_items = serialize_items user_list
  let conflicts = conflicting_items static_items user_items
  raise_if (not (is_empty conflicts)) (
      rpc_exception
        ("Some config items defined as both static and user ones: " <> join ", " conflicts)
        error_model_invalid)
  defaults ← load_defaults s (all_items static_items user_items)
  currents ← load_texts s.folders.workspace s.disk
  loaded_static ← load_items defaults currents static_items
  loaded_user ← load_items defaults currents user_items
  ok (record { folders = s.folders; static_items = loaded_static; user_items = loaded_user })
