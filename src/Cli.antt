-- ===== src/Cli.antt =====
-- src/grpc_helper/cli.py: `ConfigDictAction`, the values of the option `--config NAME=VALUE`.
pub mod Accepted
pub mod Parser
use Prim.Native.Char.{code}
use grpc_helper.Base.{String, ◌<>◌, Bool, Option, none, some, List, [], ◌∷◌, ◌=ℕ◌, if◌then◌else◌}
use grpc_helper.Base.{string_eq}
use grpc_helper.Base.Dict.{Dict, insert}
use grpc_helper.Config.Item.Names.{is_lower, is_name_char}
use grpc_helper.Errors.{Result, ok, raised, python_error, ◌>>=◌}

-- `[a-z0-9-]*`: the longest prefix, and the rest. Since `=` is no such character, no shorter prefix
-- matches.
unfoldable pub name_part : String → String × String
name_part String.[] = ("", "")
name_part (String.◌∷◌ c s) =
    let (taken, rest) = name_part s in
    if is_name_char (code c) then (String.◌∷◌ c taken, rest) else ("", String.◌∷◌ c s)

-- `.*`: all but the end of a line
unfoldable pub value_part : String → String
value_part String.[] = ""
value_part (String.◌∷◌ c s) =
    let rest = value_part s in if code c =ℕ 10 then "" else String.◌∷◌ c rest

equals_part : String → String → Option (String × String)
equals_part name String.[] = none
equals_part name (String.◌∷◌ c s) = if code c =ℕ b'=' then some (name, value_part s) else none

-- `CONFIG_ITEM_DEF_PATTERN.match`: the two groups
unfoldable pub item_match : String → Option (String × String)
unfolding name_part value_part equals_part
item_match String.[] = none
item_match (String.◌∷◌ c s) =
    let (taken, rest) = name_part s in
    if is_lower (code c) then equals_part (String.◌∷◌ c taken) rest else none

-- `ConfigDictAction.__call__` on the map so far
unfoldable pub config_action : String → Dict String String → Result (Dict String String)
unfolding item_match
config_action values config_map = elim (item_match values) [
  | none ↦
      raised
        (python_error "ArgumentTypeError" ("Invalid syntax for config item definition: " <> values))
  | some (name, value) ↦ ok (insert name value config_map)
]

-- The options of a command line, one after another.
pub parse_config : List String → Dict String String → Result (Dict String String)
parse_config [] config_map = ok config_map
parse_config (values ∷ rest) config_map = do
  next ← config_action values config_map
  parse_config rest next
