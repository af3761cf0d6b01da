-- ===== src/Config/Item.antt =====
-- src/grpc_helper/config/cfg_item.py: validators, `Config` and `ConfigHolder`.
pub mod Names
pub mod Validation
use Names.{name_match}
use grpc_helper.Base.{
  ℕ, String, ◌<>◌, Bool, true, false, not, Option, none, some, List, [], ◌∷◌, if◌then◌else◌, ◌==◌,
}
use grpc_helper.Base.{string_eq}
use grpc_helper.Base.Number.{ℤ, int, not_positive}
use grpc_helper.Base.Text.{codes}
use grpc_helper.Errors.{
  Result, ok, raised, rpc_exception, python_error, error_param_invalid, error_param_missing, ◌>>=◌,
  ◌>>◌,
}

-- Python's floating-point numbers, as far as the validators use them: `float(text)`, where `none`
-- is the `ValueError`, and the test `number <= 0`.
pub record Floats : Type 1 where
  pub Float : Type 0
  pub float : String → Option Float
  pub at_most_zero : Float → Bool

-- The `validator` field of an item; an enumeration of protobuf may hold any other number.
pub data ConfigValidator : Type 0 where
  valid_string valid_int valid_pos_int valid_float valid_pos_float valid_custom : ConfigValidator
  valid_other : ℕ → ConfigValidator

-- The API's `ConfigItem` message.
pub record ConfigItem : Type 0 where
  pub name : String
  pub description : String
  pub default_value : String
  pub value : String
  pub validator : ConfigValidator
  pub can_be_empty : Bool

-- A validator takes an item's name and a value, and raises or returns.
abbrev pub Validator : Type 0
Validator = String → String → Result (Unit {0})

unfoldable pub validate_int : String → String → Result ℤ
validate_int name value = elim (int value) [
  | none ↦ raised (
      rpc_exception ("Invalid int value for config item " <> (name <> (": " <> value)))
        error_param_invalid)
  | some n ↦ ok n
]

unfoldable pub validate_pos :
    {A : Type 0} → String → String → (String → String → Result A) → (A → Bool) → Result (Unit {0})
validate_pos name value type_validator at_most_zero = do
  number ← type_validator name value
  if at_most_zero number
      then raised (
          rpc_exception
            ("Expected strictly positive value for config item "
              <> (name <> (" but got " <> value)))
            error_param_invalid)
      else ok tt

unfoldable pub validate_pos_int : Validator
unfolding validate_pos
validate_pos_int name value = validate_pos name value validate_int not_positive

module _ (F : Floats) where
  unfoldable pub validate_float : String → String → Result F.Float
  validate_float name value = elim (F.float value) [
    | none ↦ raised (
        rpc_exception ("Invalid float value for config item " <> (name <> (": " <> value)))
          error_param_invalid)
    | some x ↦ ok x
  ]

  unfoldable pub validate_pos_float : Validator
  unfolding validate_pos
  validate_pos_float name value = validate_pos name value validate_float F.at_most_zero

  -- `VALIDATORS[validator]`; what a validator returns is not used.
  unfoldable pub built_in : ConfigValidator → Result Validator
  built_in valid_string = ok (λ name value. ok tt)
  built_in valid_int = ok (λ name value. do validate_int name value; ok tt)
  built_in valid_pos_int = ok validate_pos_int
  built_in valid_float = ok (λ name value. do validate_float name value; ok tt)
  built_in valid_pos_float = ok validate_pos_float
  built_in valid_custom = raised (python_error "KeyError" "CONFIG_VALID_CUSTOM")
  built_in (valid_other n) = raised (python_error "KeyError" "unknown validator")

-- A `Config` object: its message, the default written in the code, and the resolved validator.
pub record Config : Type 0 where
  pub item : ConfigItem
  pub open item use *
  pub hard_coded_default_value : String
  pub run_validator : Validator

abbrev is_custom : ConfigValidator → Bool
is_custom valid_custom = true
is_custom _ = false

abbrev resolve : Floats → Option Validator → ConfigItem → Result Validator
resolve F none item =
    if is_custom item.validator
    then raised (
        rpc_exception ("Missing custom validator for config item: " <> item.name)
          error_param_missing)
    else built_in F item.validator
resolve F (some custom) item =
    if is_custom item.validator then ok custom else built_in F item.validator

-- `Config.__init__`
unfoldable pub make_config : Floats → Option Validator → ConfigItem → Result Config
make_config F custom_validator item = elim (name_match (codes item.name)) [
  | none ↦ raised (rpc_exception ("Invalid config item name: " <> item.name) error_param_invalid)
  | some _ ↦ do
    run ← resolve F custom_validator item
    ok (record { item = item; hard_coded_default_value = item.default_value; run_validator = run })
]

-- `Config.int_val`
unfoldable pub int_val : Config → Result ℤ
int_val c = elim (int c.value) [ none ↦ raised (python_error "ValueError" c.value) | some n ↦ ok n ]

-- `Config.validate`
unfoldable pub validate : Config → Validator
validate c name value =
    if value == ""
    then (if not c.can_be_empty
        then raised (
            rpc_exception ("Empty value provided for item " <> (name <> " (not supported)"))
              error_param_missing)
        else ok tt)
    else c.run_validator name value

abbrev pub with_value : Config → String → Config
with_value c v = record c { item = record c.item { value = v } }

abbrev pub with_default : Config → String → Config
with_default c v = record c { item = record c.item { default_value = v } }

-- `Config.update`: the object is changed only if the value is valid.
unfoldable pub update : Config → String → Result Config
update c value = do validate c c.name value; ok (with_value c value)

-- `Config.reset`
unfoldable pub reset : Config → Result Config
unfolding update
reset c = update c c.default_value

-- The attributes of a class: those that are `Config` objects, and the others.
pub data Attribute : Type 0 where
  config_attribute : Config → Attribute
  other_attribute : Attribute

-- `ConfigHolder.all_config_items`
unfoldable pub all_config_items : List Attribute → List Config
all_config_items [] = []
all_config_items (config_attribute c ∷ rest) = c ∷ all_config_items rest
all_config_items (other_attribute ∷ rest) = all_config_items rest
