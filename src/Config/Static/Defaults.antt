-- ===== src/Config/Static/Defaults.antt =====
-- src/grpc_helper/static_config.py: the items of every server are made, and their defaults are valid.
use grpc_helper.Base.{String, true, false, none, some, List, All, ◌≡◌, refl, arith, ◌==◌}
use grpc_helper.Base.{string_eq}
use grpc_helper.Base.Number.{int, not_positive}
use grpc_helper.Config.Item
use grpc_helper.Config.Item.{
  Floats, Config, ConfigItem, Validator, make_config, reset, int_val, update, validate, with_value,
}
use grpc_helper.Config.Item.Names.{name_match}
use grpc_helper.Config.Static.{
  static_items, shutdown_grace, shutdown_timeout, client_timeout, make_items,
  validate_interval_unit,
}
use grpc_helper.Errors.{Exception, python_error, ok, raised, is_ok}

-- Its default is valid: `reset` returns.
abbrev pub IsReset : Config → Type 0
IsReset c = is_ok (reset c) ≡ true

-- A static item whose number is a float.
abbrev float_config : Floats → ConfigItem → Config
float_config F item = record {
  item = item;
  hard_coded_default_value = item.default_value;
  run_validator = Item.validate_pos_float F;
}

float_default :
    (F : Floats) (c : Config) (x : F.Float)
    → c.run_validator ≡ Item.validate_pos_float F
    → (c.default_value == "") ≡ false
    → F.float c.default_value ≡ some x
    → F.at_most_zero x ≡ false
    → IsReset c
unfolding reset update validate Item.validate_pos_float Item.validate_float Item.validate_pos
float_default F c x validator filled reads positive =
    ground (arith, validator, filled, reads, positive)

-- If `float` reads 30 and 60 as numbers above zero, then all twelve static items are made, and the
-- default of each of them is valid.
pub static_items-IsReset :
    (F : Floats) (thirty sixty : F.Float)
    → F.float "30" ≡ some thirty
    → F.at_most_zero thirty ≡ false
    → F.float "60" ≡ some sixty
    → F.at_most_zero sixty ≡ false
    → (items : List Config) × (make_items F static_items ≡ ok items) × All IsReset items
unfolding make_items make_config name_match Item.built_in reset update validate string_eq int
    validate_interval_unit Item.validate_int Item.validate_pos_int not_positive
static_items-IsReset F thirty sixty reads30 positive30 reads60 positive60 = (
  _,
  refl,
  (
    refl,
    (
      float_default F (float_config F shutdown_grace) thirty refl refl reads30 positive30,
      (
        float_default F (float_config F shutdown_timeout) sixty refl refl reads60 positive60,
        (
          refl,
          (
            refl,
            (
              refl,
              (
                refl,
                (
                  refl,
                  (
                    refl,
                    (
                      float_default F (float_config F client_timeout) sixty refl refl reads60
                          positive60,
                      (refl, (refl, tt)),
                    ),
                  ),
                ),
              ),
            ),
          ),
        ),
      ),
    ),
  ),
)

-- A text that the validator of a positive float takes and that is not that of an integer becomes the
-- value of an item, and then the item's `int_val` raises.
pub update-int_val :
    (F : Floats) (c : Config) (value : String) (x : F.Float)
    → c.run_validator ≡ Item.validate_pos_float F
    → (value == "") ≡ false
    → F.float value ≡ some x
    → F.at_most_zero x ≡ false
    → int value ≡ none
    → (update c value ≡ ok (with_value c value))
      × ((e : Exception) × (int_val (with_value c value) ≡ raised e))
unfolding update validate int_val Item.validate_pos_float Item.validate_float Item.validate_pos
update-int_val F c value x validator filled reads positive no_int = (
  ground (arith, validator, filled, reads, positive),
  (python_error "ValueError" value, ground (arith, no_int)),
)
