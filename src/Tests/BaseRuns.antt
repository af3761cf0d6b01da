-- ===== src/Tests/BaseRuns.antt =====
-- Numbers, names, files and items at concrete data.
use grpc_helper.Base.{
  ℕ, String, false, true, none, some, List, [], ◌∷◌, ◌≡◌, refl, string_eq, nat_eq, ◌==◌,
  if◌then◌else◌,
}
use grpc_helper.Base.Number.{ℤ, pos, int, not_positive}
use grpc_helper.Config.Env.Injective.{IsNameText}
use grpc_helper.Config.Item.{
  Floats, Config, ConfigItem, valid_string, make_config, validate_pos_float, built_in,
}
use grpc_helper.Config.Item.Names.{is_lower}
use grpc_helper.Config.Item.Validation.{make_config-first}
use grpc_helper.Config.Static.{shutdown_timeout}
use grpc_helper.Errors.{ok, is_ok}
use grpc_helper.Logs.Handlers.{
  Handler, NoneAdjacent, clean_rotating_handler, clean_rotating_handler-keep,
}
use grpc_helper.Base.{any, keep, not}

-- Floats stand in as integers here, with one that is none.
abbrev some_floats : Floats
some_floats = record {
  Float = ℤ;
  float = λ value. if value == "0.5" then some (pos 5) else int value;
  at_most_zero = not_positive;
}

abbrev odd_item : ConfigItem
odd_item = record {
  name = "a b";
  description = "";
  default_value = "";
  value = "";
  validator = valid_string;
  can_be_empty = true;
}

make_config-first_example : is_ok (make_config some_floats none odd_item) ≡ is_lower 97
unfolding built_in
make_config-first_example =
    make_config-first some_floats none odd_item 97 (32 ∷ 98 ∷ []) (λ name value. ok tt) refl refl

reads_thirty : some_floats.float "30" ≡ some (pos 30)
unfolding string_eq int
reads_thirty = refl

reads_sixty : some_floats.float "60" ≡ some (pos 60)
unfolding string_eq int
reads_sixty = refl

reads_half : some_floats.float "0.5" ≡ some (pos 5)
unfolding string_eq
reads_half = refl

above_zero :
    (not_positive (pos 30) ≡ false)
    × (not_positive (pos 60) ≡ false)
    × (not_positive (pos 5) ≡ false)
unfolding not_positive
above_zero = (refl, refl, refl)

abbrev timeout_config : Config
timeout_config = record {
  item = shutdown_timeout;
  hard_coded_default_value = "60";
  run_validator = validate_pos_float some_floats;
}

abbrev half : String
half = "0.5"

half_filled : (half == "") ≡ false
unfolding string_eq
half_filled = refl

half_no_int : int "0.5" ≡ none
unfolding int
half_no_int = refl

abbrev port_name : String
port_name = "rpc-main-port"

name_text : IsNameText port_name
name_text = (
  refl,
  (
    refl,
    (refl, (refl, (refl, (refl, (refl, (refl, (refl, (refl, (refl, (refl, (refl, tt))))))))))),
  ),
)

abbrev rotating : ℕ → Handler
rotating id = record { id = id; rotating = true }

abbrev plain : ℕ → Handler
plain id = record { id = id; rotating = false }

abbrev handlers : List Handler
handlers = rotating 1 ∷ plain 2 ∷ rotating 3 ∷ []

clean_rotating_handler-keep_example :
    (keep (λ h. not h.rotating) (clean_rotating_handler handlers)
      ≡ keep (λ h. not h.rotating) handlers)
    × (NoneAdjacent handlers → any (λ h. h.rotating) (clean_rotating_handler handlers) ≡ false)
    × ((first second : Handler)
        → first.rotating ≡ true
        → clean_rotating_handler (first ∷ second ∷ handlers)
          ≡ second ∷ clean_rotating_handler handlers)
clean_rotating_handler-keep_example = clean_rotating_handler-keep handlers
