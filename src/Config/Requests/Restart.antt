-- ===== src/Config/Requests/Restart.antt =====
-- What a restart loads after a request.
use grpc_helper.Base.{
  String, not, Option, none, some, List, [], ◌∷◌, map_option, if◌then◌else◌, ◌≡◌, refl, sym, subst,
  ap, ◌∙◌, arith, ◌==◌, ==_of_eq, ==_of_ne,
}
use grpc_helper.Base.{string_eq}
use grpc_helper.Base.Dict.{Dict, values, lookup, NodupKeys}
use grpc_helper.Config.Item.{Config, update, validate, with_default, with_value}
use grpc_helper.Config.Startup.{
  load_current, load_item, load_items, ConfigItems, config_file, load_texts,
}
use grpc_helper.Config.Startup.Loaded.{IsValidItem}
use grpc_helper.Config.Startup.Construct.{AllValid}
use grpc_helper.Config.Startup.Texts.{AllText, is_text-text, text_of, load_texts-save_config}
use grpc_helper.Config.Startup.Loaded.{validate-with_default, validate-with_value}
use grpc_helper.Config.Requests.{persisted_pairs, persisted_model}
use grpc_helper.Disk.{Json, text, Disk, save_config}
use grpc_helper.Errors.{Result, ok}

-- The value that is persisted for an item.
persisted_value : Config → Option String
persisted_value c = if not (c.value == c.default_value) then some c.value else none

abbrev persisted_at : Option Config → Option Json
persisted_at none = none
persisted_at (some c) = map_option text (persisted_value c)

lookup-persisted_pairs :
    (k : String) (items : ConfigItems)
    → AllValid items
    → NodupKeys items
    → lookup k (persisted_pairs (values items)) ≡ persisted_at (lookup k items)
unfolding persisted_pairs persisted_value lookup
lookup-persisted_pairs k [] all u = refl
lookup-persisted_pairs k ((n, c) ∷ rest) (here, later) (fresh, u) =
    ground (arith, here.named, lookup-persisted_pairs k rest later u)

persisted_pairs-NodupKeys :
    (items : ConfigItems)
    → AllValid items
    → NodupKeys items
    → NodupKeys (persisted_pairs (values items))
unfolding persisted_pairs
persisted_pairs-NodupKeys [] all u = tt
persisted_pairs-NodupKeys ((n, c) ∷ rest) (here, later) (fresh, u) = ground (
  arith,
  here.named,
  persisted_pairs-NodupKeys rest later u,
  lookup-persisted_pairs n rest later u,
)

persisted_pairs-AllText : (cs : List Config) → AllText (persisted_pairs cs)
unfolding persisted_pairs
persisted_pairs-AllText [] = tt
persisted_pairs-AllText (c ∷ rest) =
    ground (arith, persisted_pairs-AllText rest, is_text-text c.value)

-- The item `d` of a running server is `c` of the code with the default of the layers and some
-- valid value.
pub record IsKept (defaults : Dict String String) (name : String) (c d : Config) : Type 0 where
  pub valid : IsValidItem name d
  pub default_chosen : lookup name defaults ≡ some d.default_value
  pub same_code : d ≡ with_value (with_default c d.default_value) d.value

validate-IsKept :
    (defaults : Dict String String) (name : String) (c d : Config) (v : String)
    → d ≡ with_value (with_default c d.default_value) d.value
    → validate d ≡ validate c
validate-IsKept defaults name c d v same =
    ap validate same
    ∙ validate-with_value (with_default c d.default_value) d.value
    ∙ validate-with_default c d.default_value

named-IsKept :
    (c d : Config) → d ≡ with_value (with_default c d.default_value) d.value → d.name ≡ c.name
named-IsKept c d same = ap (λ (x : Config). x.name) same

update_valid :
    (x : Config) (v : String) → validate x x.name v ≡ ok tt → update x v ≡ ok (with_value x v)
unfolding update
update_valid x v h = ground (arith, h)

module _ (defaults : Dict String String) (name : String) (c d : Config)
    (kept : IsKept defaults name c d) where
  pub validate-default-IsKept : validate c name d.default_value ≡ ok tt
  validate-default-IsKept =
      ap (λ (f : String → String → Result (Unit {0})). f name d.default_value)
        (sym (validate-IsKept defaults name c d d.value kept.same_code))
      ∙ kept.valid.default_valid

  -- The new server can give the item its old value.
  pub update-IsKept : update (with_default c d.default_value) d.value ≡ ok d
  update-IsKept =
      let same_validator : validate (with_default c d.default_value) ≡ validate d =
        validate-with_default c d.default_value
        ∙ sym (validate-IsKept defaults name c d d.value kept.same_code) in
      let same_name : c.name ≡ name = sym (named-IsKept c d kept.same_code) ∙ kept.valid.named in
      update_valid (with_default c d.default_value) d.value (
        ap (λ (f : String → String → Result (Unit {0})). f c.name d.value) same_validator
        ∙ ap (λ n. validate d n d.value) same_name
        ∙ kept.valid.value_valid)
      ∙ ap ok (sym kept.same_code)

  -- Whether its value was persisted or is the default, the item is loaded as it was.
  load_current-IsKept :
      load_current
        (map_option text_of (persisted_at (some d)))
        d.default_value
        (with_default c d.default_value)
      ≡ ok d
  unfolding load_current persisted_value
  load_current-IsKept = elim (string_eq.dec d.value d.default_value) [
    | yes p ↦
        rw (==_of_eq d.value d.default_value p, persisted_value)
          (ap (update (with_default c d.default_value)) (sym p) ∙ update-IsKept)
    | no p ↦
        rw (==_of_ne d.value d.default_value p, persisted_value) (ground (arith, update-IsKept))
  ]

  load_item-IsKept :
      (currents : Dict String String)
      → lookup name currents ≡ map_option text_of (persisted_at (some d))
      → load_item defaults currents name c ≡ ok d
  unfolding load_item
  load_item-IsKept currents found =
      rw (kept.default_chosen, load_item, found, validate-default-IsKept) load_current-IsKept

-- The items of a running server beside those of the code, in order.
abbrev pub AllKept : Dict String String → ConfigItems → ConfigItems → Type 0
AllKept defaults [] [] = Unit
AllKept defaults ((n, c) ∷ code) ((m, d) ∷ items) =
    (n ≡ m) × IsKept defaults n c d × AllKept defaults code items
AllKept defaults _ _ = ⊥

-- The values that a new server finds in the file for the items of the old one.
abbrev IsPersisted : Dict String String → ConfigItems → Type 0
IsPersisted currents items =
    (k : String) (d : Config)
    → lookup k items ≡ some d
    → lookup k currents ≡ map_option text_of (persisted_at (some d))

load_items-AllKept :
    (defaults currents : Dict String String) (code items : ConfigItems)
    → AllKept defaults code items
    → NodupKeys items
    → IsPersisted currents items
    → load_items defaults currents code ≡ ok items
unfolding load_items lookup
load_items-AllKept defaults currents [] [] all u found = refl
load_items-AllKept defaults currents [] (x ∷ items) all u found = absurd all
load_items-AllKept defaults currents (x ∷ code) [] all u found = absurd all
load_items-AllKept defaults currents ((n, c) ∷ code) ((m, d) ∷ items) (e, kept, all) (fresh, u)
      found =
    rw
      (
        load_item-IsKept defaults n c d kept currents (found n d (ground arith)),
        load_items-AllKept defaults currents code items all u
            (λ k x at_k. found k x (ground arith)),
        e,
      )
      refl

pub AllKept-AllValid :
    (defaults : Dict String String) (code items : ConfigItems)
    → AllKept defaults code items
    → AllValid items
AllKept-AllValid defaults [] [] all = tt
AllKept-AllValid defaults [] (x ∷ items) all = absurd all
AllKept-AllValid defaults (x ∷ code) [] all = absurd all
AllKept-AllValid defaults ((n, c) ∷ code) ((m, d) ∷ items) (e, kept, all) =
    (subst (λ k. IsValidItem k d) e kept.valid, AllKept-AllValid defaults code items all)

-- A server that starts again with the code, the defaults and the workspace of one that has just
-- persisted its items has the items of that one, with their values.
pub load_items-persisted :
    (defaults : Dict String String) (code items : ConfigItems) (folder : String) (disk : Disk)
    → AllKept defaults code items
    → NodupKeys items
    → (currents : Dict String String) × (load_texts
          (some folder)
          (save_config config_file (some folder) (persisted_model items) disk)
        ≡ ok currents)
      × (load_items defaults currents code ≡ ok items)
unfolding persisted_model
load_items-persisted defaults code items folder disk all u =
    let valid = AllKept-AllValid defaults code items all in
    let pairs = persisted_pairs (values items) in
    let (currents, loaded, found) =
      load_texts-save_config folder pairs disk (persisted_pairs-AllText (values items))
        (persisted_pairs-NodupKeys items valid u) in
    (
      currents,
      loaded,
      load_items-AllKept defaults currents code items all u (λ k d at_k.
          found k
          ∙ ap (map_option text_of)
              (lookup-persisted_pairs k items valid u ∙ ap persisted_at at_k)),
    )
