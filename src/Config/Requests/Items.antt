-- ===== src/Config/Requests/Items.antt =====
-- What the loops over the local items do.
use grpc_helper.Base.{
  String, Option, none, some, [], ◌∷◌, map_option, is_some, if◌then◌else◌, ◌≡◌, refl, sym, subst,
  ap, ◌∙◌, arith, ◌==◌, ==_of_eq, ==_of_ne,
}
use grpc_helper.Base.{string_eq}
use grpc_helper.Base.Dict.{Dict, keys, lookup, insert, NodupKeys, lookup-insert, keys-insert}
use grpc_helper.Config.Item.{Config, validate, update, with_value}
use grpc_helper.Config.Startup.{ConfigItems}
use grpc_helper.Config.Startup.Loaded.{IsValidItem}
use grpc_helper.Config.Startup.Construct.{AllValid}
use grpc_helper.Config.Requests.{update_item, update_all, validate_all}
use grpc_helper.Errors.{ok}

pub lookup-AllValid :
    (items : ConfigItems) (name : String) (c : Config)
    → AllValid items
    → lookup name items ≡ some c
    → IsValidItem name c
unfolding lookup
lookup-AllValid [] name c all found = cc
lookup-AllValid ((n, b) ∷ rest) name c (here, later) found = elim (string_eq.dec name n) [
  | yes p ↦
      let same : b ≡ c = ground arith in
      subst (λ k. IsValidItem k c) (sym p) (subst (λ x. IsValidItem n x) same here)
  | no p ↦ lookup-AllValid rest name c later (ground arith)
]

pub insert-AllValid :
    (items : ConfigItems) (name : String) (c : Config)
    → AllValid items
    → IsValidItem name c
    → AllValid (insert name c items)
unfolding insert
insert-AllValid [] name c all v = (v, tt)
insert-AllValid ((n, b) ∷ rest) name c (here, later) v = elim (string_eq.dec name n) [
  | yes p ↦ rw (==_of_eq name n p) (subst (λ k. IsValidItem k c) p v, later)
  | no p ↦ rw (==_of_ne name n p) (here, insert-AllValid rest name c later v)
]

-- The item after a request: with the requested value, if there is one.
unfoldable pub updated : Option String → Config → Config
updated none c = c
updated (some v) c = with_value c v

validate-updated : (c : Config) (o : Option String) → validate (updated o c) ≡ validate c
unfolding validate updated
validate-updated c none = refl
validate-updated c (some v) = refl

-- The items with a new value for one of them.
unfoldable pub written : String → String → ConfigItems → ConfigItems
written name value items = elim (lookup name items) [
  | none ↦ items
  | some c ↦ insert name (with_value c value) items
]

module _ (name value : String) (items : ConfigItems) where
  -- The request can be made: the validator takes the value, if there is such an item.
  abbrev pub IsAccepted : Type 0
  IsAccepted = (c : Config) → lookup name items ≡ some c → validate c name value ≡ ok tt

  update_item-written :
      AllValid items → IsAccepted → update_item name value items ≡ ok (written name value items)
  unfolding update_item written update
  update_item-written all valid = go (lookup name items) refl
    where
      go :
          (o : Option Config)
          → lookup name items ≡ o
          → update_item name value items ≡ ok (written name value items)
      go none e = ground arith
      go (some c) e = ground (arith, (lookup-AllValid items name c all e).named, valid c e)

  written-AllValid : AllValid items → IsAccepted → AllValid (written name value items)
  unfolding written
  written-AllValid all valid = go (lookup name items) refl
    where
      go : (o : Option Config) → lookup name items ≡ o → AllValid (written name value items)
      go none e = rw (e, written) all
      go (some c) e =
          let old = lookup-AllValid items name c all e in
          rw (e, written)
            (insert-AllValid items name (with_value c value) all (record {
              named = old.named;
              value_valid = unfold validate in valid c e;
              default_valid = unfold validate in old.default_valid;
            }))

  lookup-written :
      (k : String)
      → lookup k (written name value items)
        ≡ map_option (updated (if k == name then some value else none)) (lookup k items)
  unfolding written updated
  lookup-written k = go (lookup name items) (lookup k items) refl refl
    where
      go :
          (o p : Option Config)
          → lookup name items ≡ o
          → lookup k items ≡ p
          → lookup k (written name value items)
            ≡ map_option (updated (if k == name then some value else none)) (lookup k items)
      go none none e f = ground arith
      go none (some d) e f = ground arith
      go (some c) none e f = ground (arith, lookup-insert k name (with_value c value) items)
      go (some c) (some d) e f = ground (arith, lookup-insert k name (with_value c value) items)

  pub keys-written : keys (written name value items) ≡ keys items
  unfolding written
  keys-written = go (lookup name items) refl
    where
      go :
          (o : Option Config) → lookup name items ≡ o → keys (written name value items) ≡ keys items
      go none e = rw (e, written)
      go (some c) e = rw (e, written) (keys-insert name (with_value c value) items (ap is_some e))

-- The items after all the updates of a request.
unfoldable pub written_all : Dict String String → ConfigItems → ConfigItems
written_all [] items = items
written_all ((name, value) ∷ rest) items = written_all rest (written name value items)

-- Validation reads the validators alone, which no update changes.
pub validate_all-written :
    (name value : String) (items : ConfigItems) (rest : Dict String String)
    → validate_all (written name value items) rest ≡ validate_all items rest
unfolding validate_all updated validate
validate_all-written name value items [] = refl
validate_all-written name value items ((n, v) ∷ rest) =
    ground (arith, validate_all-written name value items rest, lookup-written name value items n)

pub validate_all-head :
    (name value : String) (rest : Dict String String) (items : ConfigItems)
    → validate_all items ((name, value) ∷ rest) ≡ ok tt
    → IsAccepted name value items × (validate_all items rest ≡ ok tt)
unfolding validate_all
validate_all-head name value rest items h = (λ c found. ground arith, ground arith)

-- A validated request is carried out.
pub update_all-written_all :
    (reqs : Dict String String) (items : ConfigItems)
    → AllValid items
    → validate_all items reqs ≡ ok tt
    → (update_all reqs items ≡ (ok tt, written_all reqs items)) × AllValid (written_all reqs items)
unfolding update_all written_all
update_all-written_all [] items all valid = (refl, all)
update_all-written_all ((name, value) ∷ rest) items all valid =
    let (accepted, more) = validate_all-head name value rest items valid in
    let next = written name value items in
    let (done, kept) =
      update_all-written_all rest next (written-AllValid name value items all accepted)
        (validate_all-written name value items rest ∙ more) in
    (rw (update_item-written name value items all accepted) done, kept)

pub lookup-written_all :
    (reqs : Dict String String) (items : ConfigItems) (k : String)
    → NodupKeys reqs
    → lookup k (written_all reqs items) ≡ map_option (updated (lookup k reqs)) (lookup k items)
unfolding written_all updated lookup
lookup-written_all [] items k u = ground arith
lookup-written_all ((name, value) ∷ rest) items k (fresh, u) = ground (
  arith,
  lookup-written_all rest (written name value items) k u,
  lookup-written name value items k,
)

pub keys-written_all :
    (reqs : Dict String String) (items : ConfigItems) → keys (written_all reqs items) ≡ keys items
unfolding written_all
keys-written_all [] items = refl
keys-written_all ((name, value) ∷ rest) items =
    keys-written_all rest (written name value items) ∙ keys-written name value items
