-- ===== src/Config/Startup/Construct.antt =====
-- What `ConfigManager.__init__` builds.
use grpc_helper.Base.{
  String, Bool, true, false, not, Option, none, some, List, [], ◌∷◌, is_empty, keep, contains, ◌≡◌,
  refl, sym, subst, arith, ◌∙◌,
}
use grpc_helper.Base.{string_eq}
use grpc_helper.Base.Dict.{
  Dict, keys, insert, has, NodupKeys, insert-NodupKeys, contains-keys, NodupKeys-keys, has-keys,
}
use grpc_helper.Config.Item.{Config, all_config_items}
use grpc_helper.Errors.{Exception, ok, raise_if, bind-eq-ok, ok_injective}
use grpc_helper.Config.Startup.{
  ConfigItems, Candidate, single, holder, add_items, add_candidates, serialize_items, Surroundings,
  load_items, load_defaults, load_texts, ConfigManager, all_items, conflicting_items, make_manager,
}
use grpc_helper.Config.Startup.Layers.{IsNamed}
use grpc_helper.Config.Startup.Loaded.{IsValidItem, AllLoaded, load_items-AllLoaded, keys-AllLoaded}

insert-IsNamed :
    (c : Config) (items : ConfigItems) → IsNamed items → IsNamed (insert c.name c items)
unfolding insert
insert-IsNamed c [] h = (refl, tt)
insert-IsNamed c ((n, b) ∷ rest) h = ground (arith, insert-IsNamed c rest h.1)

abbrev IsIndexed : ConfigItems → Type 0
IsIndexed items = IsNamed items × NodupKeys items

insert-IsIndexed :
    (c : Config) (items : ConfigItems) → IsIndexed items → IsIndexed (insert c.name c items)
insert-IsIndexed c items (named, u) =
    (insert-IsNamed c items named, insert-NodupKeys c.name c items u)

add_items-IsIndexed :
    (cs : List Config) (out : ConfigItems) → IsIndexed out → IsIndexed (add_items cs out)
unfolding add_items
add_items-IsIndexed [] out h = h
add_items-IsIndexed (c ∷ cs) out h = add_items-IsIndexed cs _ (insert-IsIndexed c out h)

add_candidates-IsIndexed :
    (cs : List Candidate) (out : ConfigItems) → IsIndexed out → IsIndexed (add_candidates cs out)
unfolding add_candidates
add_candidates-IsIndexed [] out h = h
add_candidates-IsIndexed (single c ∷ cs) out h =
    add_candidates-IsIndexed cs _ (insert-IsIndexed c out h)
add_candidates-IsIndexed (holder attributes ∷ cs) out h =
    add_candidates-IsIndexed cs _ (add_items-IsIndexed (all_config_items attributes) out h)

-- Every item of a serialized list stands under its own name, once.
pub serialize_items-IsIndexed : (l : Option (List Candidate)) → IsIndexed (serialize_items l)
unfolding serialize_items
serialize_items-IsIndexed none = (tt, tt)
serialize_items-IsIndexed (some cs) = add_candidates-IsIndexed cs [] (tt, tt)

keep-empty :
    (p : String → Bool) (names : List String) (a : String)
    → is_empty (keep p names) ≡ true
    → contains names a ≡ true
    → p a ≡ false
keep-empty p [] a e h = cc
keep-empty p (x ∷ names) a e h = elim (string_eq.dec a x) [
  | yes q ↦ rw q (ground arith)
  | no q ↦ keep-empty p names a (ground arith) (ground arith)
]

abbrev pub AllValid : ConfigItems → Type 0
AllValid [] = Unit
AllValid ((name, c) ∷ rest) = IsValidItem name c × AllValid rest

AllLoaded-AllValid :
    (defaults currents : Dict String String) (items out : ConfigItems)
    → AllLoaded defaults currents items out
    → AllValid out
AllLoaded-AllValid defaults currents [] [] all = tt
AllLoaded-AllValid defaults currents [] (x ∷ out) all = absurd all
AllLoaded-AllValid defaults currents (x ∷ items) [] all = absurd all
AllLoaded-AllValid defaults currents ((n, b) ∷ rest) ((m, d) ∷ others) (e, here, later) = (
  subst (λ k. IsValidItem k d) e here.valid,
  AllLoaded-AllValid defaults currents rest others later,
)

-- What the constructor read, and the items that it made of it.
pub record IsStarted (s : Surroundings) (static_list user_list : Option (List Candidate))
    (m : ConfigManager) : Type 0 where
  pub defaults : Dict String String
  pub currents : Dict String String
  pub defaults_loaded :
      load_defaults s (all_items (serialize_items static_list) (serialize_items user_list))
      ≡ ok defaults
  pub currents_loaded : load_texts s.folders.workspace s.disk ≡ ok currents
  pub static_loaded : AllLoaded defaults currents (serialize_items static_list) m.static_items
  pub user_loaded : AllLoaded defaults currents (serialize_items user_list) m.user_items
  pub no_conflict :
      is_empty (conflicting_items (serialize_items static_list) (serialize_items user_list)) ≡ true
  pub same_folders : m.folders ≡ s.folders

not_raised : (b : Bool) (e : Exception) → raise_if (not b) e ≡ ok tt → b ≡ true
not_raised true e h = refl
not_raised false e h = cc

-- A constructor that returns has loaded every item of both lists.
pub make_manager-IsStarted :
    (s : Surroundings) (static_list user_list : Option (List Candidate)) {m : ConfigManager}
    → make_manager s static_list user_list ≡ ok m
    → IsStarted s static_list user_list m
unfolding make_manager
make_manager-IsStarted s static_list user_list {m} h =
    let statics = serialize_items static_list in
    let users = serialize_items user_list in
    let (_, free, h1) =
      bind-eq-ok (raise_if (not (is_empty (conflicting_items statics users))) _) _ h in
    let (defaults, layered, h2) = bind-eq-ok (load_defaults s (all_items statics users)) _ h1 in
    let (currents, persisted, h3) = bind-eq-ok (load_texts s.folders.workspace s.disk) _ h2 in
    let (loaded_static, first, h4) = bind-eq-ok (load_items defaults currents statics) _ h3 in
    let (loaded_user, second, h5) = bind-eq-ok (load_items defaults currents users) _ h4 in
    rw (← ok_injective h5) (record {
      defaults = defaults;
      currents = currents;
      defaults_loaded = layered;
      currents_loaded = persisted;
      static_loaded =
          load_items-AllLoaded defaults currents statics (serialize_items-IsIndexed static_list).0
            first;
      user_loaded =
          load_items-AllLoaded defaults currents users (serialize_items-IsIndexed user_list).0
            second;
      no_conflict = not_raised (is_empty (conflicting_items statics users)) _ free;
      same_folders = refl;
    })

-- The invariant of the manager: every item is valid and stands under its own name, once, in one
-- of the two lists.
pub record IsConsistent (m : ConfigManager) : Type 0 where
  pub static_valid : AllValid m.static_items
  pub user_valid : AllValid m.user_items
  pub static_once : NodupKeys m.static_items
  pub user_once : NodupKeys m.user_items
  pub apart : (name : String) → has name m.static_items ≡ true → has name m.user_items ≡ false

-- Whatever the folders, the environment and the command line hold, a constructor that returns has
-- built a consistent manager.
pub make_manager-IsConsistent :
    (s : Surroundings) (static_list user_list : Option (List Candidate)) {m : ConfigManager}
    → make_manager s static_list user_list ≡ ok m
    → IsConsistent m
make_manager-IsConsistent s static_list user_list {m} h =
    let started = make_manager-IsStarted s static_list user_list h in
    let statics = serialize_items static_list in
    let users = serialize_items user_list in
    let same_static = keys-AllLoaded _ _ statics m.static_items started.static_loaded in
    let same_user = keys-AllLoaded _ _ users m.user_items started.user_loaded in
    record {
      static_valid = AllLoaded-AllValid _ _ statics m.static_items started.static_loaded;
      user_valid = AllLoaded-AllValid _ _ users m.user_items started.user_loaded;
      static_once =
          NodupKeys-keys m.static_items statics same_static
            (serialize_items-IsIndexed static_list).1;
      user_once =
          NodupKeys-keys m.user_items users same_user (serialize_items-IsIndexed user_list).1;
      apart = λ name inside.
          has-keys name m.user_items users same_user
          ∙ keep-empty (λ k. has k users) (keys statics) name
              (unfold conflicting_items in started.no_conflict)
              (contains-keys statics name
                ∙ sym (has-keys name m.static_items statics same_static)
                ∙ inside);
    }
