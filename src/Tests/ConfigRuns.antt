-- ===== src/Tests/ConfigRuns.antt =====
-- The config service at the data of src/tests/test_config.py.
use grpc_helper.Base.{
  first_some, if◌then◌else◌, map_option, String, false, Option, none, some, List, [], ◌∷◌, ◌≡◌,
  refl, string_eq,
}
use grpc_helper.Base.Dict.{has, Dict, lookup, insert, update}
use grpc_helper.Base.Number.{ℤ, int, not_positive}
use grpc_helper.Config.Env.{env_name}
use grpc_helper.Config.Item
use grpc_helper.Config.Item.{
  Floats, Config, ConfigItem, valid_int, make_config, validate, with_value,
}
use grpc_helper.Config.Item.Names.{name_match}
use grpc_helper.Config.Startup.{
  Surroundings, Candidate, single, serialize_items, ConfigManager, make_manager, load_defaults,
  load_texts, load_items, load_item, load_env_config, hard_coded, validate_config_file, all_items,
}
use grpc_helper.Config.Startup.Construct.{
  IsStarted, make_manager-IsStarted, IsConsistent, make_manager-IsConsistent, AllValid,
  serialize_items-IsIndexed,
}
use grpc_helper.Config.Requests.{
  ConfigUpdate, Remotes, Shared, set, merged_items, merge_item, merge_dump, merge_dumps,
  filter_items, check_items, requested, validate_all, update_all, update_item, persist,
}
use grpc_helper.Config.Startup.Layers.{lookup-load_defaults}
use grpc_helper.Config.Requests.Atomic.{SetOutcome, set-SetOutcome}
use grpc_helper.Config.Requests.ResetAtomic.{ResetOutcome, reset_request-ResetOutcome}
use grpc_helper.Config.Requests.Restart.{AllKept-AllValid}
use grpc_helper.Config.Requests.{persisted_model, Filter, reset_request, reset_all, reset_item}
use grpc_helper.Config.Requests.Lifecycle.{
  handle, set_items, reset_items, serve, serve-IsRunning, reset_request-restart, IsRunning,
  make_manager-IsRunning, set-restart,
}
use grpc_helper.Disk.{
  text, object, member, member_end, json_file, Folders, file_path, load_config, save_config,
}
use grpc_helper.Errors.{ok, ◌>>=◌}
use grpc_helper.Errors.Method.{pure}

-- Floats stand in as integers here.
abbrev whole_floats : Floats
whole_floats = record { Float = ℤ; float = int; at_most_zero = not_positive }

abbrev int_item : ConfigItem
int_item = record {
  name = "my-int-config";
  description = "";
  default_value = "12";
  value = "";
  validator = valid_int;
  can_be_empty = false;
}

abbrev int_config : Config
int_config = record {
  item = int_item;
  hard_coded_default_value = "12";
  run_validator = λ name value. Item.validate_int name value >>= λ _. ok tt;
}

int_config_made : make_config whole_floats none int_item ≡ ok int_config
unfolding make_config name_match Item.built_in
int_config_made = refl

abbrev folders : Folders
folders = record { system = some "sys"; user = none; workspace = some "wks" }

abbrev surroundings : Surroundings
surroundings = record {
  folders = folders;
  environ = [];
  cli_config = [];
  disk =
      ("sys/config.json", json_file (object (member "my-int-config" (text "-78") member_end))) ∷ [];
}

abbrev user_list : Option (List Candidate)
user_list = some (single int_config ∷ [])

abbrev started_item : Config
started_item = record int_config { item = record int_item { default_value = "-78"; value = "-78" } }

abbrev manager : ConfigManager
manager = record {
  folders = folders;
  static_items = [];
  user_items = ("my-int-config", started_item) ∷ [];
}

started : make_manager surroundings none user_list ≡ ok manager
unfolding make_manager serialize_items load_defaults load_texts load_env_config hard_coded all_items
    load_items load_item load_config file_path validate_config_file validate Item.update lookup
    insert update string_eq env_name Item.validate_int int
started = refl

-- A server with no proxied services.
abbrev alone : Remotes
alone = record {
  World = Unit {0};
  clients = pure [];
  get = λ client filter. pure [];
  reset = λ client filter. pure tt;
  set = λ client update. pure tt;
}

abbrev server : Shared alone
server = record { manager = manager; disk = surroundings.disk; world = tt }

abbrev to_999 : ConfigUpdate
to_999 = record {
  items = record { name = "my-int-config"; value = "999" } ∷ [];
  ignore_unknown = false;
}

is_started : IsStarted surroundings none user_list manager
is_started = make_manager-IsStarted surroundings none user_list started

make_manager-IsConsistent_example : IsConsistent manager
make_manager-IsConsistent_example = make_manager-IsConsistent surroundings none user_list started

is_running : IsRunning alone is_started.defaults (serialize_items user_list) server
is_running =
    make_manager-IsRunning alone surroundings none user_list manager server.disk tt is_started

set_returns :
    (set alone to_999 server).0 ≡ ok (record int_item { default_value = "-78"; value = "999" } ∷ [])
unfolding set requested merged_items filter_items merge_dumps merge_dump merge_item check_items
    validate_all validate update_all update_item Item.update persist lookup insert update string_eq
    Item.validate_int int
set_returns = refl

set-restart_example :
    (currents : Dict String String) × (load_texts (some "wks") (set alone to_999 server).1.disk
      ≡ ok currents)
    × (load_items is_started.defaults currents (serialize_items user_list)
        ≡ ok (set alone to_999 server).1.user_items)
set-restart_example =
    set-restart alone is_started.defaults (serialize_items user_list) to_999 server "wks" is_running
      refl set_returns

all_valid : AllValid server.user_items
all_valid =
    AllKept-AllValid is_started.defaults (serialize_items user_list) server.user_items
      is_running.kept

set-SetOutcome_example :
    SetOutcome alone to_999 server (set alone to_999 server).0 (set alone to_999 server).1
set-SetOutcome_example = set-SetOutcome alone to_999 server all_valid

abbrev the_item : Filter
the_item = record { names = "my-int-config" ∷ []; ignore_unknown = false }

reset_request-ResetOutcome_example :
    ResetOutcome alone the_item server
      (reset_request alone the_item server).0
      (reset_request alone the_item server).1
reset_request-ResetOutcome_example = reset_request-ResetOutcome alone the_item server all_valid

serve-IsRunning_example :
    IsRunning alone is_started.defaults
      (serialize_items user_list)
      (serve alone (set_items to_999 ∷ reset_items the_item ∷ []) server)
serve-IsRunning_example =
    serve-IsRunning alone is_started.defaults (serialize_items user_list)
      (set_items to_999 ∷ reset_items the_item ∷ []) server is_running

abbrev changed : Shared alone
changed = (set alone to_999 server).1

changed_item : lookup "my-int-config" changed.user_items ≡ some (with_value started_item "999")
unfolding set requested merged_items filter_items merge_dumps merge_dump merge_item check_items
    validate_all validate update_all update_item Item.update persist lookup insert update string_eq
    Item.validate_int int
changed_item = refl

abbrev item_name : String
item_name = "my-int-config"

abbrev no_texts : Dict String String
no_texts = []

abbrev stored : Dict String String
stored = ("my-int-config", "999") ∷ []

abbrev system_stored : Dict String String
system_stored = ("my-int-config", "-78") ∷ []

changed_file : load_texts changed.folders.workspace changed.disk ≡ ok stored
unfolding set requested merged_items filter_items merge_dumps merge_dump merge_item check_items
    validate_all validate update_all update_item Item.update persist lookup insert update string_eq
    Item.validate_int int load_texts load_config file_path validate_config_file save_config
    persisted_model
changed_file = refl

reset_returns :
    (reset_request alone the_item changed).0
    ≡ ok (record int_item { default_value = "-78"; value = "-78" } ∷ [])
unfolding set requested merged_items filter_items merge_dumps merge_dump merge_item check_items
    validate_all validate update_all update_item Item.update persist lookup insert update string_eq
    Item.validate_int int reset_request reset_all reset_item Item.reset
reset_returns = refl

valid_999 : validate (with_value started_item "999") "my-int-config" "999" ≡ ok tt
unfolding validate Item.validate_int int string_eq
valid_999 = refl

stored_999 : lookup item_name stored ≡ some "999"
unfolding lookup string_eq
stored_999 = refl

changed-IsRunning : IsRunning alone is_started.defaults (serialize_items user_list) changed
unfolding serve handle
changed-IsRunning =
    serve-IsRunning alone is_started.defaults (serialize_items user_list) (set_items to_999 ∷ [])
      server is_running

reset_request-restart_example :
    (lookup item_name (reset_request alone the_item changed).1.user_items
      ≡ some (with_value (with_value started_item "999") "-78"))
    × (load_texts changed.folders.workspace (reset_request alone the_item changed).1.disk
        ≡ ok stored)
    × ((c : Config) × (lookup item_name (serialize_items user_list) ≡ some c)
        × (load_item is_started.defaults stored "my-int-config" c
            ≡ ok (with_value (with_value started_item "999") "999")))
unfolding string_eq
reset_request-restart_example =
    reset_request-restart alone is_started.defaults (serialize_items user_list) the_item changed
      "my-int-config" "999" (with_value started_item "999") changed-IsRunning reset_returns
      changed_item refl changed_file stored_999 valid_999

system_texts : load_texts (some "sys") surroundings.disk ≡ ok system_stored
unfolding load_texts load_config file_path validate_config_file lookup insert update string_eq
system_texts = refl

user_texts : load_texts none surroundings.disk ≡ ok []
unfolding load_texts load_config validate_config_file update
user_texts = refl

defaults_loaded : load_defaults surroundings (serialize_items user_list) ≡ ok system_stored
unfolding serialize_items load_defaults load_texts load_env_config hard_coded load_config file_path
    validate_config_file lookup insert update string_eq env_name
defaults_loaded = refl

lookup-load_defaults_example :
    lookup item_name system_stored
    ≡ first_some (lookup item_name no_texts) (
        first_some
          (if has "my-int-config" (serialize_items user_list)
            then lookup (env_name item_name) no_texts
            else none)
          (first_some (lookup item_name no_texts) (
            first_some (lookup item_name system_stored) (
              map_option
                (λ (c : Config). c.hard_coded_default_value)
                (lookup item_name (serialize_items user_list))))))
lookup-load_defaults_example =
    let indexed = serialize_items-IsIndexed user_list in
    lookup-load_defaults surroundings (serialize_items user_list) "my-int-config" indexed.0
      indexed.1 tt system_texts user_texts defaults_loaded
