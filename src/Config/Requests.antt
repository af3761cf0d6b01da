-- ===== src/Config/Requests.antt =====
-- src/grpc_helper/config/cfg_manager.py: the requests `get`, `reset` and `set` of `ConfigManager`.
-- The lock makes each request one step.
pub mod Items
pub mod Resets
pub mod Atomic
pub mod ResetAtomic
pub mod Restart
pub mod Running
pub mod Lifecycle
use grpc_helper.Base.{
  String, ◌<>◌, Bool, true, false, not, ◌&&◌, none, some, List, [], ◌∷◌, any, keep, is_empty,
  if◌then◌else◌, ◌==◌,
}
use grpc_helper.Base.{string_eq}
use grpc_helper.Base.Dict
use grpc_helper.Base.Dict.{Dict, keys, values, lookup, insert, has}
use grpc_helper.Base.Text.{join}
use grpc_helper.Config.Item.{Config, ConfigItem, validate, update, reset}
use grpc_helper.Config.Startup.{ConfigItems, ConfigManager, config_file}
use grpc_helper.Disk.{Json, text, object, Disk, save_config, of_members}
use grpc_helper.Errors.{
  Result, ok, raised, rpc_exception, error_param_missing, error_item_unknown, error_item_conflict,
}
use grpc_helper.Errors
use grpc_helper.Errors.Method.{Method, pure, lift, gets, continue, ◌>>=◌, ◌>>◌}

-- The API's messages.
pub record Filter : Type 0 where
  pub names : List String
  pub ignore_unknown : Bool

pub record ConfigItemUpdate : Type 0 where
  pub name : String
  pub value : String

pub record ConfigUpdate : Type 0 where
  pub items : List ConfigItemUpdate
  pub ignore_unknown : Bool

-- The config services of the proxied servers, each named by its host and port: other processes,
-- with a state of their own. A call of one may raise.
pub record Remotes : Type 1 where
  pub World : Type 0
  pub clients : Method World (List String)
  pub get : String → Filter → Method World (List ConfigItem)
  pub reset : String → Filter → Method World (Unit {0})
  pub set : String → ConfigUpdate → Method World (Unit {0})

-- `{r.name: r.value for r in request.items}`
update_pairs : List ConfigItemUpdate → List (String × String)
update_pairs [] = []
update_pairs (r ∷ rest) = (r.name, r.value) ∷ update_pairs rest

unfoldable pub requested : List ConfigItemUpdate → Dict String String
unfolding update_pairs
requested items = Dict.from_pairs (update_pairs items)

pub items_named : ConfigItems → List String → List ConfigItem
items_named user_items [] = []
items_named user_items (name ∷ names) =
    let rest = items_named user_items names in
    elim (lookup name user_items) [ none ↦ rest | some c ↦ c.item ∷ rest ]

-- `__filter_items`
unfoldable pub filter_items : ConfigItems → List String → List ConfigItem
unfolding items_named
filter_items user_items names =
    items_named user_items (if is_empty names then keys user_items else names)

abbrev pub Merged : Type 0
Merged = Dict String ConfigItem

-- The body of the inner loop of `__merged_items`.
unfoldable pub merge_item : Bool → ConfigItem → Merged → Result Merged
merge_item check_conflicts item merged = elim (lookup item.name merged) [
  | none ↦ ok (insert item.name item merged)
  | some old ↦
      if not (item.value == old.value) && check_conflicts
      then raised (
          rpc_exception
            ("Proxied values conflict for config item "
              <> (item.name <> (": " <> (item.value <> (" != " <> old.value)))))
            error_item_conflict)
      else ok merged
]

unfoldable pub merge_dump : Bool → List ConfigItem → Merged → Result Merged
merge_dump check_conflicts [] merged = ok merged
merge_dump check_conflicts (item ∷ rest) merged =
    Errors.◌>>=◌ (merge_item check_conflicts item merged) (merge_dump check_conflicts rest)

unfoldable pub merge_dumps : Bool → List (List ConfigItem) → Merged → Result Merged
merge_dumps check_conflicts [] merged = ok merged
merge_dumps check_conflicts (dump ∷ rest) merged =
    Errors.◌>>=◌ (merge_dump check_conflicts dump merged) (merge_dumps check_conflicts rest)

-- `__check_items`
unfoldable pub check_items : List String → Merged → Bool → Bool → Result (Unit {0})
check_items input_names items_to_check ignore_unknown empty_ok =
    if not empty_ok && is_empty input_names
    then raised (rpc_exception "Input request list is empty" error_param_missing)
    else if any (λ n. n == "") input_names
    then raised (rpc_exception "At least one empty name found in input request" error_param_missing)
    else (let unknown_items = keep (λ n. not (has n items_to_check)) input_names in
        if not ignore_unknown && not (is_empty unknown_items)
        then raised (
            rpc_exception
              ("Unknown config item names in filter request: " <> join ", " unknown_items)
              error_item_unknown)
        else ok tt)

pub persisted_pairs : List Config → List (String × Json)
persisted_pairs [] = []
persisted_pairs (c ∷ rest) =
    let others = persisted_pairs rest in
    if not (c.value == c.default_value) then (c.name, text c.value) ∷ others else others

-- The model that `__persist` saves: the user items whose value is not the default.
unfoldable pub persisted_model : ConfigItems → Json
unfolding persisted_pairs
persisted_model user_items =
    object (of_members (Dict.from_pairs (persisted_pairs (values user_items))))

-- `self.user_items[name].reset()`; other names are passed over.
unfoldable pub reset_item : String → ConfigItems → Result ConfigItems
reset_item name items = elim (lookup name items) [
  | none ↦ ok items
  | some c ↦ Errors.◌>>=◌ (reset c) (λ d. ok (insert name d items))
]

-- `self.user_items[name].update(value)`; other names are passed over.
unfoldable pub update_item : String → String → ConfigItems → Result ConfigItems
update_item name value items = elim (lookup name items) [
  | none ↦ ok items
  | some c ↦ Errors.◌>>=◌ (update c value) (λ d. ok (insert name d items))
]

-- `self.user_items[name].validate(name, value)` for the requested values
unfoldable pub validate_all : ConfigItems → Dict String String → Result (Unit {0})
validate_all items [] = ok tt
validate_all items ((name, value) ∷ rest) = elim (lookup name items) [
  | none ↦ validate_all items rest
  | some c ↦ Errors.◌>>=◌ (validate c name value) (λ _. validate_all items rest)
]

abbrev write_back : Result ConfigItems → Method ConfigItems (Unit {0})
write_back (ok items) old = (ok tt, items)
write_back (raised e) old = (raised e, old)

-- The loops over the local items: what was changed before an exception stays changed.
unfoldable pub reset_all : List String → Method ConfigItems (Unit {0})
reset_all [] items = (ok tt, items)
reset_all (name ∷ names) items =
    let (r, items') = write_back (reset_item name items) items in
    continue r (λ _. reset_all names) items'

unfoldable pub update_all : Dict String String → Method ConfigItems (Unit {0})
update_all [] items = (ok tt, items)
update_all ((name, value) ∷ rest) items =
    let (r, items') = write_back (update_item name value items) items in
    continue r (λ _. update_all rest) items'

pub record Shared (R : Remotes) : Type 0 where
  pub manager : ConfigManager
  pub open manager use *
  pub disk : Disk
  pub world : R.World

module _ (R : Remotes) where
  -- A call of other servers.
  pub remotely : {A : Type 0} → Method R.World A → Method (Shared R) A
  remotely m s = let (r, w) = m s.world in (r, record s { world = w })

  -- A change of the user items.
  pub locally : Method ConfigItems (Unit {0}) → Method (Shared R) (Unit {0})
  locally m s =
      let (r, items) = m s.user_items in
      (r, record s { manager = record s.manager { user_items = items } })

  pub remote_dumps : Filter → List String → Method R.World (List (List ConfigItem))
  remote_dumps filter [] = pure []
  remote_dumps filter (client ∷ rest) = do
    dump ← R.get client filter
    dumps ← remote_dumps filter rest
    pure (dump ∷ dumps)

  -- `__merged_items`
  unfoldable pub merged_items : List String → Bool → Method (Shared R) Merged
  unfolding remotely remote_dumps
  merged_items names check_conflicts = do
    local_dump ← gets (λ s. filter_items s.user_items names)
    clients ← remotely R.clients
    dumps ← remotely (remote_dumps (record { names = names; ignore_unknown = true }) clients)
    lift (merge_dumps check_conflicts (local_dump ∷ dumps) [])

  -- `ConfigManager.get`
  unfoldable pub get : Filter → Method (Shared R) (List ConfigItem)
  get request = do
    merged ← merged_items request.names true
    lift (check_items request.names merged request.ignore_unknown true)
    pure (values merged)

  pub reset_remotes : Filter → List String → Method R.World (Unit {0})
  reset_remotes filter [] = pure tt
  reset_remotes filter (client ∷ rest) = do R.reset client filter; reset_remotes filter rest

  -- `ConfigManager.reset`
  unfoldable pub reset_request : Filter → Method (Shared R) (List ConfigItem)
  unfolding remotely locally reset_remotes
  reset_request request = do
    merged ← merged_items request.names false
    lift (check_items request.names merged request.ignore_unknown false)
    clients ← remotely R.clients
    remotely (reset_remotes (record { names = request.names; ignore_unknown = true }) clients)
    locally (reset_all request.names)
    merged' ← merged_items request.names true
    pure (values merged')

  pub set_remotes : ConfigUpdate → List String → Method R.World (Unit {0})
  set_remotes request [] = pure tt
  set_remotes request (client ∷ rest) = do R.set client request; set_remotes request rest

  -- `__persist`
  unfoldable pub persist : Method (Shared R) (Unit {0})
  persist s = (
    ok tt,
    record s {
      disk = save_config config_file s.folders.workspace (persisted_model s.user_items) s.disk;
    },
  )

  -- `ConfigManager.set`
  unfoldable pub set : ConfigUpdate → Method (Shared R) (List ConfigItem)
  unfolding remotely locally set_remotes persist
  set request = do
    let req_map = requested request.items
    merged ← merged_items (keys req_map) false
    lift (check_items (keys req_map) merged request.ignore_unknown false)
    items ← gets (λ s. s.user_items)
    lift (validate_all items req_map)
    clients ← remotely R.clients
    remotely (set_remotes (record { items = request.items; ignore_unknown = true }) clients)
    locally (update_all req_map)
    persist
    merged' ← merged_items (keys req_map) true
    pure (values merged')
