-- ===== src/Cli/Accepted.antt =====
-- src/grpc_helper/cli.py: which definitions of config items are accepted, and as what.
use Prim.Native.Char.{code}
use Prim.Native.String.append
use grpc_helper.Base.{String, ◌<>◌, true, false, some, ◌=ℕ◌, arith, ◌≡◌, refl, ap, ◌∙◌}
use grpc_helper.Base.{string_eq}
use grpc_helper.Base.Dict.{Dict, insert}
use grpc_helper.Config.Item.Names.{is_lower, is_name_char}
use grpc_helper.Cli.{name_part, value_part, equals_part, item_match, config_action}
use grpc_helper.Errors.{ok}

abbrev pub AllNameChars : String → Type 0
AllNameChars String.[] = Unit
AllNameChars (String.◌∷◌ c s) = (is_name_char (code c) ≡ true) × AllNameChars s

-- `[a-z][a-z0-9-]*`, of the whole text
abbrev pub IsItemName : String → Type 0
IsItemName String.[] = ⊥
IsItemName (String.◌∷◌ c s) = (is_lower (code c) ≡ true) × AllNameChars s

-- One line
abbrev pub IsLine : String → Type 0
IsLine String.[] = Unit
IsLine (String.◌∷◌ c s) = ((code c =ℕ 10) ≡ false) × IsLine s

value_part-IsLine : (s : String) → IsLine s → value_part s ≡ s
unfolding value_part
value_part-IsLine String.[] line = refl
value_part-IsLine (String.◌∷◌ c s) (here, line) = rw (here, value_part-IsLine s line) refl

-- A text that begins with `=`.
equals_first : (value : String) → "=" <> value ≡ String.◌∷◌ "=" value
equals_first value =
    append.cons "=" "" value ∙ ap (λ (s : String). String.◌∷◌ "=" s) (append.nil value)

name_part-equals : (value : String) → name_part ("=" <> value) ≡ ("", "=" <> value)
unfolding name_part
name_part-equals value = rw (equals_first value) refl

name_part-append :
    (name value : String)
    → AllNameChars name
    → name_part (name <> ("=" <> value)) ≡ (name, "=" <> value)
unfolding name_part
name_part-append String.[] value all = rw (append.nil ("=" <> value)) (name_part-equals value)
name_part-append (String.◌∷◌ c s) value (here, all) =
    rw (append.cons c s ("=" <> value), here, name_part-append s value all) refl

equals_part-equals :
    (name value : String) → IsLine value → equals_part name ("=" <> value) ≡ some (name, value)
unfolding equals_part
equals_part-equals name value line =
    rw (equals_first value) (ap (λ (v : String). some (name, v)) (value_part-IsLine value line))

item_match-equals :
    (name value : String)
    → IsItemName name
    → IsLine value
    → item_match (name <> ("=" <> value)) ≡ some (name, value)
unfolding item_match
item_match-equals String.[] value named line = absurd named
item_match-equals (String.◌∷◌ c s) value (lower, all) line =
    rw (append.cons c s ("=" <> value), name_part-append s value all, lower)
      (equals_part-equals (String.◌∷◌ c s) value line)

-- An option of the form NAME=VALUE, with an item's name and a value of one line, sets the value of
-- that name, also where the value itself holds `=`.
pub config_action-insert :
    (name value : String) (config_map : Dict String String)
    → IsItemName name
    → IsLine value
    → config_action (name <> ("=" <> value)) config_map ≡ ok (insert name value config_map)
unfolding config_action
config_action-insert name value config_map named line =
    ground (arith, item_match-equals name value named line)
