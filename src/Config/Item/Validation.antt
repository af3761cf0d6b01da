-- ===== src/Config/Item/Validation.antt =====
-- What the items accept.
use grpc_helper.Base.{ℕ, String, Option, none, some, ◌≡◌, ◌↔◌, arith, refl, ◌<◌}
use grpc_helper.Base.{string_eq}
use grpc_helper.Base.Number.{ℤ, pos, negsuc, int, not_positive}
use grpc_helper.Errors.{ok, is_ok}
use grpc_helper.Base.{List, ◌∷◌}
use grpc_helper.Base.Text.{codes}
use grpc_helper.Config.Item.Names.{name_match, is_lower}
use grpc_helper.Config.Item.{
  Floats, Config, ConfigItem, Validator, validate_int, validate_pos_int, validate, reset,
  make_config, resolve,
}

-- A positive-integer validator accepts a value exactly if it reads as an integer above zero.
pub validate_pos_int-ok :
    (name value : String)
    → (validate_pos_int name value ≡ ok tt) ↔ ((n : ℕ) × (0 < n) × (int value ≡ some (pos n)))
unfolding validate_pos_int validate_int not_positive
validate_pos_int-ok name value = go (int value) refl
  where
    go :
        (r : Option ℤ)
        → int value ≡ r
        → (validate_pos_int name value ≡ ok tt) ↔ ((n : ℕ) × (0 < n) × (int value ≡ some (pos n)))
    go none e = (λ h. ground arith, λ h. ground arith)
    go (some (pos n)) e = (λ h. (n, ground arith, e), λ h. ground arith)
    go (some (negsuc n)) e = (λ h. ground arith, λ h. ground arith)

-- A reset is refused only if the default is not valid, and a second reset changes nothing.
pub reset-reset : (c d : Config) → reset c ≡ ok d → reset d ≡ ok d
unfolding reset validate
reset-reset c d h = ground arith

pub make_config-first :
    (F : Floats) (custom : Option Validator) (item : ConfigItem) (c : ℕ) (rest : List ℕ)
    (run : Validator)
    → codes item.name ≡ c ∷ rest
    → resolve F custom item ≡ ok run
    → is_ok (make_config F custom item) ≡ is_lower c
unfolding make_config name_match
make_config-first F custom item c rest run named resolved = ground (arith, named, resolved)
