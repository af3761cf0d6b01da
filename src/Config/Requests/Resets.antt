-- ===== src/Config/Requests/Resets.antt =====
-- What a reset does to the local items.
use grpc_helper.Base.{
  String, Bool, true, false, Option, none, some, List, [], ◌∷◌, map_option, is_some, contains, ◌≡◌,
  refl, ap, ◌∙◌, arith, ◌==◌,
}
use grpc_helper.Base.{string_eq}
use grpc_helper.Base.Dict.{keys, lookup, insert, keys-insert, lookup-insert}
use grpc_helper.Config.Item.{Config, validate, reset, with_value}
use grpc_helper.Config.Startup.{ConfigItems}
use grpc_helper.Config.Startup.Construct.{AllValid}
use grpc_helper.Config.Requests.{reset_item, reset_all}
use grpc_helper.Config.Requests.Items.{lookup-AllValid, insert-AllValid}
use grpc_helper.Errors.{ok}

-- An item with its default value, or as it is.
unfoldable pub restored : Bool → Config → Config
restored true c = with_value c c.default_value
restored false c = c

unfoldable pub restored_at : String → ConfigItems → ConfigItems
restored_at name items = elim (lookup name items) [
  | none ↦ items
  | some c ↦ insert name (with_value c c.default_value) items
]

unfoldable pub restored_all : List String → ConfigItems → ConfigItems
unfolding restored_at
restored_all [] items = items
restored_all (name ∷ names) items = restored_all names (restored_at name items)

module _ (name : String) (items : ConfigItems) where
  reset_item-restored_at : AllValid items → reset_item name items ≡ ok (restored_at name items)
  unfolding reset_item reset restored_at
  reset_item-restored_at all = go (lookup name items) refl
    where
      go :
          (o : Option Config)
          → lookup name items ≡ o
          → reset_item name items ≡ ok (restored_at name items)
      go none e = ground arith
      go (some c) e =
          let v = lookup-AllValid items name c all e in ground (arith, v.named, v.default_valid)

  pub restored_at-AllValid : AllValid items → AllValid (restored_at name items)
  unfolding restored_at
  restored_at-AllValid all = go (lookup name items) refl
    where
      go : (o : Option Config) → lookup name items ≡ o → AllValid (restored_at name items)
      go none e = rw (e, restored_at) all
      go (some c) e =
          let old = lookup-AllValid items name c all e in
          rw (e, restored_at)
            (insert-AllValid items name (with_value c c.default_value) all (record {
              named = old.named;
              value_valid = unfold validate in old.default_valid;
              default_valid = unfold validate in old.default_valid;
            }))

  lookup-restored_at :
      (k : String)
      → lookup k (restored_at name items) ≡ map_option (restored (k == name)) (lookup k items)
  unfolding restored_at restored
  lookup-restored_at k = go (lookup name items) (lookup k items) refl refl
    where
      go :
          (o p : Option Config)
          → lookup name items ≡ o
          → lookup k items ≡ p
          → lookup k (restored_at name items) ≡ map_option (restored (k == name)) (lookup k items)
      go none none e f = ground arith
      go none (some d) e f = ground arith
      go (some c) none e f =
          ground (arith, lookup-insert k name (with_value c c.default_value) items)
      go (some c) (some d) e f =
          ground (arith, lookup-insert k name (with_value c c.default_value) items)

  keys-restored_at : keys (restored_at name items) ≡ keys items
  unfolding restored_at
  keys-restored_at = go (lookup name items) refl
    where
      go : (o : Option Config) → lookup name items ≡ o → keys (restored_at name items) ≡ keys items
      go none e = rw (e, restored_at)
      go (some c) e =
          rw (e, restored_at) (keys-insert name (with_value c c.default_value) items (ap is_some e))

-- Over valid items no reset is refused.
pub reset_all-restored_all :
    (names : List String) (items : ConfigItems)
    → AllValid items
    → (reset_all names items ≡ (ok tt, restored_all names items))
      × AllValid (restored_all names items)
unfolding reset_all restored_all
reset_all-restored_all [] items all = (refl, all)
reset_all-restored_all (name ∷ names) items all =
    let (done, kept) =
      reset_all-restored_all names (restored_at name items) (restored_at-AllValid name items all) in
    (rw (reset_item-restored_at name items all) done, kept)

pub lookup-restored_all :
    (names : List String) (items : ConfigItems) (k : String)
    → lookup k (restored_all names items)
      ≡ map_option (restored (contains names k)) (lookup k items)
unfolding restored_all restored
lookup-restored_all [] items k = ground arith
lookup-restored_all (name ∷ names) items k =
    ground
      (arith, lookup-restored_all names (restored_at name items) k, lookup-restored_at name items k)

pub keys-restored_all :
    (names : List String) (items : ConfigItems) → keys (restored_all names items) ≡ keys items
unfolding restored_all
keys-restored_all [] items = refl
keys-restored_all (name ∷ names) items =
    keys-restored_all names (restored_at name items) ∙ keys-restored_at name items
