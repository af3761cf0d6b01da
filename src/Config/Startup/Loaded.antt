-- ===== src/Config/Startup/Loaded.antt =====
-- What the constructor leaves in the items.
use grpc_helper.Base.{
  String, Option, none, some, [], ◌∷◌, if◌then◌else◌, ◌≡◌, refl, sym, subst, arith,
}
use grpc_helper.Base.{string_eq}
use grpc_helper.Base.Dict.{Dict, keys, lookup}
use grpc_helper.Config.Item.{Config, validate, update, with_default, with_value}
use grpc_helper.Errors.{ok, is_ok, bind-eq-ok, ok_injective}
use grpc_helper.Config.Startup.{ConfigItems, load_current, load_item, load_items}
use grpc_helper.Config.Startup.Layers.{IsNamed}

-- An item under its name whose value and default its own validator accepts.
pub record IsValidItem (name : String) (c : Config) : Type 0 where
  pub named : c.name ≡ name
  pub value_valid : validate c name c.value ≡ ok tt
  pub default_valid : validate c name c.default_value ≡ ok tt

-- The value that an item starts with: the persisted one if the validator takes it.
pub starting_value : Option String → String → Config → String
starting_value none default_val c = default_val
starting_value (some current_val) default_val c =
    if is_ok (validate c c.name current_val) then current_val else default_val

-- The loaded item `d` is `c` with the default of the layers and its starting value.
pub record IsLoaded (defaults currents : Dict String String) (name : String) (c d : Config)
    : Type 0 where
  pub valid : IsValidItem name d
  pub default_chosen : lookup name defaults ≡ some d.default_value
  pub value_chosen : d.value ≡ starting_value (lookup name currents) d.default_value c
  pub same_code : d ≡ with_value (with_default c d.default_value) d.value

-- `update` after the choice of the starting value.
load_current-value :
    (persisted : Option String) (default_val : String) (c : Config) {d : Config}
    → c.default_value ≡ default_val
    → load_current persisted default_val c ≡ ok d
    → (d ≡ with_value c (starting_value persisted default_val c))
      × (validate c c.name (starting_value persisted default_val c) ≡ ok tt)
unfolding load_current update starting_value
load_current-value persisted default_val c e h = ground arith

pub validate-with_default : (c : Config) (v : String) → validate (with_default c v) ≡ validate c
unfolding validate
validate-with_default c v = refl

pub validate-with_value : (c : Config) (v : String) → validate (with_value c v) ≡ validate c
unfolding validate
validate-with_value c v = refl

starting_value-with_default :
    (persisted : Option String) (v : String) (c : Config)
    → starting_value persisted v (with_default c v) ≡ starting_value persisted v c
unfolding starting_value
starting_value-with_default none v c = refl
starting_value-with_default (some x) v c = rw validate-with_default

-- The item that one round of the loop leaves.
loaded : Option String → String → Config → Config
loaded persisted v c = with_value (with_default c v) (starting_value persisted v c)

loaded-IsLoaded :
    (defaults currents : Dict String String) (name v : String) (c : Config)
    → c.name ≡ name
    → lookup name defaults ≡ some v
    → validate c name v ≡ ok tt
    → validate c c.name (starting_value (lookup name currents) v c) ≡ ok tt
    → IsLoaded defaults currents name c (loaded (lookup name currents) v c)
unfolding loaded
loaded-IsLoaded defaults currents name v c named found ok_default ok_value = record {
  valid = record {
    named = named;
    value_valid =
        rw (validate-with_value, validate-with_default)
          (subst (λ n. validate c n (starting_value (lookup name currents) v c) ≡ ok tt) named
            ok_value);
    default_valid = rw (validate-with_value, validate-with_default) ok_default;
  };
  default_chosen = found;
  value_chosen = refl;
  same_code = refl;
}

load_item-loaded :
    (defaults currents : Dict String String) (name : String) (c : Config) {d : Config}
    → load_item defaults currents name c ≡ ok d
    → (v : String) × (lookup name defaults ≡ some v)
      × (validate c name v ≡ ok tt)
      × (load_current (lookup name currents) v (with_default c v) ≡ ok d)
unfolding load_item
load_item-loaded defaults currents name c {d} h = go (lookup name defaults) refl
  where
    go :
        (o : Option String)
        → lookup name defaults ≡ o
        → (v : String) × (lookup name defaults ≡ some v)
          × (validate c name v ≡ ok tt)
          × (load_current (lookup name currents) v (with_default c v) ≡ ok d)
    go none e = ground arith
    go (some v) e = (v, e, ground arith, ground arith)

load_current-loaded :
    (persisted : Option String) (v : String) (c : Config) {d : Config}
    → load_current persisted v (with_default c v) ≡ ok d
    → (d ≡ loaded persisted v c) × (validate c c.name (starting_value persisted v c) ≡ ok tt)
unfolding loaded
load_current-loaded persisted v c h =
    let (chosen, ok_value) = load_current-value persisted v (with_default c v) refl h in
    (
      rw starting_value-with_default at chosen,
      rw (validate-with_default, starting_value-with_default) at ok_value,
    )

load_item-IsLoaded :
    (defaults currents : Dict String String) (name : String) (c : Config) {d : Config}
    → c.name ≡ name
    → load_item defaults currents name c ≡ ok d
    → IsLoaded defaults currents name c d
load_item-IsLoaded defaults currents name c {d} named h =
    let (v, found, ok_default, current) = load_item-loaded defaults currents name c h in
    let (chosen, ok_value) = load_current-loaded (lookup name currents) v c current in
    rw chosen (loaded-IsLoaded defaults currents name v c named found ok_default ok_value)

-- The loaded list has the items of the list, in order, as the loop leaves them.
abbrev pub AllLoaded : Dict String String → Dict String String → ConfigItems → ConfigItems → Type 0
AllLoaded defaults currents [] [] = Unit
AllLoaded defaults currents ((n, c) ∷ rest) ((m, d) ∷ others) =
    (n ≡ m) × IsLoaded defaults currents n c d × AllLoaded defaults currents rest others
AllLoaded defaults currents _ _ = ⊥

load_items-cons :
    (defaults currents : Dict String String) (n : String) (c : Config) (rest : ConfigItems)
    {out : ConfigItems}
    → load_items defaults currents ((n, c) ∷ rest) ≡ ok out
    → (d : Config) × (others : ConfigItems) × (load_item defaults currents n c ≡ ok d)
      × (load_items defaults currents rest ≡ ok others)
      × (out ≡ (n, d) ∷ others)
unfolding load_items
load_items-cons defaults currents n c rest h =
    let (d, first, h1) = bind-eq-ok (load_item defaults currents n c) _ h in
    let (others, second, h2) = bind-eq-ok (load_items defaults currents rest) _ h1 in
    (d, others, first, second, sym (ok_injective h2))

pub load_items-AllLoaded :
    (defaults currents : Dict String String) (items : ConfigItems) {out : ConfigItems}
    → IsNamed items
    → load_items defaults currents items ≡ ok out
    → AllLoaded defaults currents items out
load_items-AllLoaded defaults currents [] named h = unfold load_items in rw (← ok_injective h) tt
load_items-AllLoaded defaults currents ((n, c) ∷ rest) {out} (e, named) h =
    let (d, others, first, second, shape) = load_items-cons defaults currents n c rest h in
    rw shape (
      refl,
      load_item-IsLoaded defaults currents n c e first,
      load_items-AllLoaded defaults currents rest {out = others} named second,
    )

-- An item of the list is found in the loaded list as the loop leaves it.
pub lookup-AllLoaded :
    (defaults currents : Dict String String) (items out : ConfigItems) (name : String) (c : Config)
    → AllLoaded defaults currents items out
    → lookup name items ≡ some c
    → (d : Config) × (lookup name out ≡ some d) × IsLoaded defaults currents name c d
unfolding lookup
lookup-AllLoaded defaults currents [] [] name c all found = cc
lookup-AllLoaded defaults currents [] (x ∷ out) name c all found = absurd all
lookup-AllLoaded defaults currents (x ∷ items) [] name c all found = absurd all
lookup-AllLoaded defaults currents ((n, b) ∷ rest) ((m, d) ∷ others) name c (e, here, later) found =
    elim (string_eq.dec name n) [
      | yes p ↦
          let same : b ≡ c = ground arith in
          (
            d,
            ground arith,
            subst (λ k. IsLoaded defaults currents k c d) (sym p)
                (subst (λ x. IsLoaded defaults currents n x d) same here),
          )
      | no p ↦
          let (x, at_name, l) =
            lookup-AllLoaded defaults currents rest others name c later (ground arith) in
          (x, ground arith, l)
    ]

pub keys-AllLoaded :
    (defaults currents : Dict String String) (items out : ConfigItems)
    → AllLoaded defaults currents items out
    → keys out ≡ keys items
keys-AllLoaded defaults currents [] [] all = refl
keys-AllLoaded defaults currents [] (x ∷ out) all = absurd all
keys-AllLoaded defaults currents (x ∷ items) [] all = absurd all
keys-AllLoaded defaults currents ((n, b) ∷ rest) ((m, d) ∷ others) (e, here, later) =
    cc (e, keys-AllLoaded defaults currents rest others later)
