-- ===== src/Config/Requests/Running.antt =====
-- Start, updates and resets keep the items of the code with their defaults and valid values.
use grpc_helper.Base.{
  String, Option, none, some, List, [], ◌∷◌, ◌≡◌, refl, sym, subst, ap, ◌∙◌, arith, ==_of_eq,
  ==_of_ne,
}
use grpc_helper.Base.{string_eq}
use grpc_helper.Base.Dict.{Dict, lookup, insert}
use grpc_helper.Config.Item.{Config, update, validate, with_default, with_value}
use grpc_helper.Config.Startup.{ConfigItems, load_item, load_current}
use grpc_helper.Config.Startup.Loaded.{AllLoaded}
use grpc_helper.Config.Requests.{validate_all}
use grpc_helper.Config.Requests.Items.{
  written, written_all, IsAccepted, validate_all-written, validate_all-head, lookup-AllValid,
}
use grpc_helper.Config.Requests.Resets.{restored_at, restored_all}
use grpc_helper.Config.Requests.Restart.{
  IsKept, AllKept, AllKept-AllValid, update-IsKept, validate-default-IsKept,
}
use grpc_helper.Errors.{ok}

-- The constructor leaves items of the code, with the defaults of the layers.
pub AllLoaded-AllKept :
    (defaults currents : Dict String String) (code items : ConfigItems)
    → AllLoaded defaults currents code items
    → AllKept defaults code items
AllLoaded-AllKept defaults currents [] [] all = tt
AllLoaded-AllKept defaults currents [] (x ∷ items) all = absurd all
AllLoaded-AllKept defaults currents (x ∷ code) [] all = absurd all
AllLoaded-AllKept defaults currents ((n, c) ∷ code) ((m, d) ∷ items) (e, here, later) = (
  e,
  record { valid = here.valid; default_chosen = here.default_chosen; same_code = here.same_code },
  AllLoaded-AllKept defaults currents code items later,
)

with_value-IsKept :
    (defaults : Dict String String) (name : String) (c d : Config) (v : String)
    → IsKept defaults name c d
    → validate d name v ≡ ok tt
    → IsKept defaults name c (with_value d v)
unfolding validate
with_value-IsKept defaults name c d v kept valid = record {
  valid = record {
    named = kept.valid.named;
    value_valid = valid;
    default_valid = kept.valid.default_valid;
  };
  default_chosen = kept.default_chosen;
  same_code = ap (λ (x : Config). with_value x v) kept.same_code;
}

insert-AllKept :
    (defaults : Dict String String) (code items : ConfigItems) (name v : String) (d : Config)
    → AllKept defaults code items
    → lookup name items ≡ some d
    → validate d name v ≡ ok tt
    → AllKept defaults code (insert name (with_value d v) items)
unfolding insert lookup
insert-AllKept defaults [] [] name v d all found valid = cc
insert-AllKept defaults [] (x ∷ items) name v d all found valid = absurd all
insert-AllKept defaults (x ∷ code) [] name v d all found valid = absurd all
insert-AllKept defaults ((n, c) ∷ code) ((m, b) ∷ items) name v d (e, here, later) found valid =
    elim (string_eq.dec name m) [
      | yes p ↦
          let same : b ≡ d = ground arith in
          rw (==_of_eq name m p) (
            e,
            with_value-IsKept defaults n c d v (subst (λ x. IsKept defaults n c x) same here)
                (subst (λ k. validate d k v ≡ ok tt) (p ∙ sym e) valid),
            later,
          )
      | no p ↦
          rw (==_of_ne name m p)
            (e, here, insert-AllKept defaults code items name v d later (ground arith) valid)
    ]

module _ (defaults : Dict String String) (code : ConfigItems) where
  written-AllKept :
      (name value : String) (items : ConfigItems)
      → AllKept defaults code items
      → IsAccepted name value items
      → AllKept defaults code (written name value items)
  unfolding written
  written-AllKept name value items all accepted = go (lookup name items) refl
    where
      go :
          (o : Option Config)
          → lookup name items ≡ o
          → AllKept defaults code (written name value items)
      go none e = rw (e, written) all
      go (some d) e =
          rw (e, written) (insert-AllKept defaults code items name value d all e (accepted d e))

  pub written_all-AllKept :
      (reqs : Dict String String) (items : ConfigItems)
      → AllKept defaults code items
      → validate_all items reqs ≡ ok tt
      → AllKept defaults code (written_all reqs items)
  unfolding written_all
  written_all-AllKept [] items all valid = all
  written_all-AllKept ((name, value) ∷ rest) items all valid =
      let (accepted, more) = validate_all-head name value rest items valid in
      written_all-AllKept rest (written name value items)
        (written-AllKept name value items all accepted)
        (validate_all-written name value items rest ∙ more)

  restored_at-AllKept :
      (name : String) (items : ConfigItems)
      → AllKept defaults code items
      → AllKept defaults code (restored_at name items)
  unfolding restored_at
  restored_at-AllKept name items all = go (lookup name items) refl
    where
      go :
          (o : Option Config)
          → lookup name items ≡ o
          → AllKept defaults code (restored_at name items)
      go none e = rw (e, restored_at) all
      go (some d) e =
          rw (e, restored_at)
            (insert-AllKept defaults code items name d.default_value d all e
              (lookup-AllValid items name d (AllKept-AllValid defaults code items all)
                e).default_valid)

  pub restored_all-AllKept :
      (names : List String) (items : ConfigItems)
      → AllKept defaults code items
      → AllKept defaults code (restored_all names items)
  unfolding restored_all
  restored_all-AllKept [] items all = all
  restored_all-AllKept (name ∷ names) items all =
      restored_all-AllKept names (restored_at name items) (restored_at-AllKept name items all)

-- The item of the code that a running item comes from.
pub lookup-AllKept :
    (defaults : Dict String String) (code items : ConfigItems) (name : String) (d : Config)
    → AllKept defaults code items
    → lookup name items ≡ some d
    → (c : Config) × (lookup name code ≡ some c) × IsKept defaults name c d
unfolding lookup
lookup-AllKept defaults [] [] name d all found = cc
lookup-AllKept defaults [] (x ∷ items) name d all found = absurd all
lookup-AllKept defaults (x ∷ code) [] name d all found = absurd all
lookup-AllKept defaults ((n, c) ∷ code) ((m, b) ∷ items) name d (e, here, later) found =
    elim (string_eq.dec name m) [
      | yes p ↦
          let same : b ≡ d = ground arith in
          (
            c,
            ground arith,
            subst (λ k. IsKept defaults k c d) (e ∙ sym p)
                (subst (λ x. IsKept defaults n c x) same here),
          )
      | no p ↦
          let (c', at_code, kept) =
            lookup-AllKept defaults code items name d later (ground arith) in
          (c', ground arith, kept)
    ]

load_current_valid :
    (v default_val : String) (c : Config) {d : Config}
    → update c v ≡ ok d
    → load_current (some v) default_val c ≡ ok d
unfolding load_current
load_current_valid v default_val c h = rw (h, load_current)

-- A valid persisted value is loaded.
pub load_item-persisted :
    (defaults : Dict String String) (name v : String) (c d : Config)
    → IsKept defaults name c d
    → (currents : Dict String String) → lookup name currents ≡ some v
    → validate d name v ≡ ok tt
    → load_item defaults currents name c ≡ ok (with_value d v)
unfolding load_item
load_item-persisted defaults name v c d kept currents found valid =
    let kept' = with_value-IsKept defaults name c d v kept valid in
    rw (kept.default_chosen, load_item, found, validate-default-IsKept defaults name c d kept)
      (load_current_valid v d.default_value (with_default c d.default_value)
        (update-IsKept defaults name c (with_value d v) kept'))
