-- ===== src/Config/Startup/Layers.antt =====
-- The layers of the default values.
use grpc_helper.Base.{
  String, Option, none, some, List, [], ◌∷◌, map_option, first_some, contains, if◌then◌else◌, ◌≡◌,
  refl, arith,
}
use grpc_helper.Base.{string_eq}
use grpc_helper.Base.Dict.{
  Dict, keys, values, lookup, has, NodupKeys, lookup-update, lookup-from_pairs, from_pairs,
  from_pairs-NodupKeys, contains-keys,
}
use grpc_helper.Config.Env.{env_name}
use grpc_helper.Config.Item.{Config}
use grpc_helper.Errors.{ok, bind-eq-ok, ok_injective}
use grpc_helper.Disk.{Disk, Json, object, load_config}
use grpc_helper.Config.Startup.{
  ConfigItems, Surroundings, config_file, validate_config_file, load_texts, texts_of, env_pairs,
  load_env_config, hard_coded, hard_coded_pairs, load_defaults,
}

-- Every item stands under its own name, and a name is there once.
abbrev pub IsNamed : ConfigItems → Type 0
IsNamed [] = Unit
IsNamed ((name, c) ∷ rest) = (c.name ≡ name) × IsNamed rest

lookup-env_pairs :
    (name : String) (names : List String) (environ : Dict String String)
    → lookup name (env_pairs names environ)
      ≡ (if contains names name then lookup (env_name name) environ else none)
unfolding env_pairs lookup
lookup-env_pairs name [] environ = refl
lookup-env_pairs name (n ∷ names) environ = ground (arith, lookup-env_pairs name names environ)

env_pairs-NodupKeys :
    (items : ConfigItems) (environ : Dict String String)
    → NodupKeys items
    → NodupKeys (env_pairs (keys items) environ)
unfolding env_pairs
env_pairs-NodupKeys [] environ u = tt
env_pairs-NodupKeys ((name, c) ∷ rest) environ (fresh, u) = ground (
  arith,
  env_pairs-NodupKeys rest environ u,
  lookup-env_pairs name (keys rest) environ,
  contains-keys rest name,
)

lookup-hard_coded_pairs :
    (name : String) (items : ConfigItems)
    → IsNamed items
    → lookup name (hard_coded_pairs (values items))
      ≡ map_option (λ (c : Config). c.hard_coded_default_value) (lookup name items)
unfolding hard_coded_pairs lookup
lookup-hard_coded_pairs name [] h = refl
lookup-hard_coded_pairs name ((n, c) ∷ rest) (e, h) =
    ground (arith, lookup-hard_coded_pairs name rest h)

hard_coded_pairs-NodupKeys :
    (items : ConfigItems)
    → IsNamed items
    → NodupKeys items
    → NodupKeys (hard_coded_pairs (values items))
unfolding hard_coded_pairs
hard_coded_pairs-NodupKeys [] h u = tt
hard_coded_pairs-NodupKeys ((n, c) ∷ rest) (e, h) (fresh, u) =
    ground (arith, hard_coded_pairs-NodupKeys rest h u, lookup-hard_coded_pairs n rest h)

texts_of-NodupKeys : (model : Json) → NodupKeys (texts_of model)
unfolding texts_of
texts_of-NodupKeys (object members) = from_pairs-NodupKeys _
texts_of-NodupKeys _ = tt

load_texts-NodupKeys :
    (folder : Option String) (disk : Disk) {d : Dict String String}
    → load_texts folder disk ≡ ok d
    → NodupKeys d
unfolding load_texts
load_texts-NodupKeys folder disk {d} h =
    let (model, loaded, e) =
      bind-eq-ok (load_config (some config_file) (some validate_config_file) folder disk) _ h in
    rw (← ok_injective e) (texts_of-NodupKeys model)

-- A default is taken from the command line, else from the environment, else from the user's
-- folder, else from the system's folder, else from the code.
pub lookup-load_defaults :
    (s : Surroundings) (items : ConfigItems) (name : String)
    {defaults system user : Dict String String}
    → IsNamed items
    → NodupKeys items
    → NodupKeys s.cli_config
    → load_texts s.folders.system s.disk ≡ ok system
    → load_texts s.folders.user s.disk ≡ ok user
    → load_defaults s items ≡ ok defaults
    → lookup name defaults
      ≡ first_some (lookup name s.cli_config) (
          first_some (if has name items then lookup (env_name name) s.environ else none) (
            first_some (lookup name user) (
              first_some
                (lookup name system)
                (map_option (λ (c : Config). c.hard_coded_default_value) (lookup name items)))))
unfolding load_defaults load_env_config hard_coded
lookup-load_defaults s items name {defaults} {system} {user} named u ucli hs hu h =
    let layered = ok_injective (rw (hs, hu) at h) in
    let hard = hard_coded_pairs (values items) in
    rw
      (
        ← layered,
        lookup-update name _ s.cli_config ucli,
        lookup-update name _ (from_pairs (env_pairs (keys items) s.environ))
            (from_pairs-NodupKeys _),
        lookup-from_pairs name (env_pairs (keys items) s.environ) (env_pairs-NodupKeys items _ u),
        lookup-env_pairs,
        contains-keys,
        lookup-update name _ user (load_texts-NodupKeys _ _ hu),
        lookup-update name _ system (load_texts-NodupKeys _ _ hs),
        lookup-from_pairs name hard (hard_coded_pairs-NodupKeys items named u),
        lookup-hard_coded_pairs name items named,
      )
      refl
