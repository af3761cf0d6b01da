-- ===== src/Config/Requests/Lifecycle.antt =====
-- The user items of a server from its start on, through its requests, to its next start.
use grpc_helper.Base.{
  String, true, Option, some, List, [], ◌∷◌, inl, inr, contains, ◌≡◌, refl, sym, subst, ap, ◌∙◌,
}
use grpc_helper.Base.{string_eq}
use grpc_helper.Base.Dict.{Dict, lookup, NodupKeys, NodupKeys-keys}
use grpc_helper.Config.Item.{Config, ConfigItem, validate, with_value}
use grpc_helper.Config.Startup.{
  ConfigItems, ConfigManager, Surroundings, Candidate, serialize_items, load_texts, load_items,
  load_item,
}
use grpc_helper.Config.Startup.Construct.{IsStarted, serialize_items-IsIndexed}
use grpc_helper.Config.Startup.Loaded.{keys-AllLoaded}
use grpc_helper.Config.Requests.{
  Filter, ConfigUpdate, Remotes, Shared, requested, get, reset_request, set,
}
use grpc_helper.Config.Requests.Items.{written_all, keys-written_all}
use grpc_helper.Config.Requests.Resets.{
  restored, restored_all, keys-restored_all, lookup-restored_all,
}
use grpc_helper.Config.Requests.Atomic.{
  SameLocal, IsCarriedOut, SetOutcome, get-SameLocal, set-SetOutcome,
}
use grpc_helper.Config.Requests.ResetAtomic.{IsReset, ResetOutcome, reset_request-ResetOutcome}
use grpc_helper.Config.Requests.Restart.{AllKept, AllKept-AllValid, load_items-persisted}
use grpc_helper.Config.Requests.Running.{
  AllLoaded-AllKept, written_all-AllKept, restored_all-AllKept, lookup-AllKept, load_item-persisted,
}
use grpc_helper.Disk.{Disk}
use grpc_helper.Errors.{Result, ok, raised}

-- The invariant of a server: its user items are those of the code, each with the default of the
-- layers and a valid value.
pub record IsRunning (R : Remotes) (defaults : Dict String String) (code : ConfigItems)
    (s : Shared R) : Type 0 where
  pub kept : AllKept defaults code s.user_items
  pub once : NodupKeys s.user_items

pub data Request : Type 0 where
  get_items : Filter → Request
  reset_items : Filter → Request
  set_items : ConfigUpdate → Request

module _ (R : Remotes) where
  -- What a request leaves; an exception ends the request alone.
  unfoldable pub handle : Request → Shared R → Shared R
  handle (get_items filter) s = (get R filter s).1
  handle (reset_items filter) s = (reset_request R filter s).1
  handle (set_items update) s = (set R update s).1

  unfoldable pub serve : List Request → Shared R → Shared R
  unfolding handle
  serve [] s = s
  serve (request ∷ rest) s = serve rest (handle request s)

-- A server whose constructor returned starts with the invariant, in any workspace and world.
pub make_manager-IsRunning :
    (R : Remotes) (s : Surroundings) (static_list user_list : Option (List Candidate))
    (m : ConfigManager) (disk : Disk) (world : R.World)
    → (started : IsStarted s static_list user_list m)
    → IsRunning R started.defaults
        (serialize_items user_list)
        (record { manager = m; disk = disk; world = world })
make_manager-IsRunning R s static_list user_list m disk world started = record {
  kept =
      AllLoaded-AllKept started.defaults started.currents (serialize_items user_list) m.user_items
        started.user_loaded;
  once =
      NodupKeys-keys m.user_items (serialize_items user_list)
        (keys-AllLoaded started.defaults started.currents (serialize_items user_list) m.user_items
          started.user_loaded)
        (serialize_items-IsIndexed user_list).1;
}

module _ (R : Remotes) (defaults : Dict String String) (code : ConfigItems) where
  moved-IsRunning :
      (s t : Shared R) (items : ConfigItems)
      → t.manager ≡ record s.manager { user_items = items }
      → AllKept defaults code items
      → NodupKeys items
      → IsRunning R defaults code t
  moved-IsRunning s t items moved kept once =
      let same : t.user_items ≡ items = ap (λ (m : ConfigManager). m.user_items) moved in
      record {
        kept = subst (AllKept defaults code) (sym same) kept;
        once = subst (λ (l : ConfigItems). NodupKeys l) (sym same) once;
      }

  SameLocal-IsRunning :
      (s t : Shared R) → SameLocal R s t → IsRunning R defaults code s → IsRunning R defaults code t
  SameLocal-IsRunning s t same run = moved-IsRunning s t s.user_items same.manager run.kept run.once

  IsCarriedOut-IsRunning :
      (request : ConfigUpdate) (s t : Shared R)
      → IsCarriedOut R request s t
      → IsRunning R defaults code s
      → IsRunning R defaults code t
  IsCarriedOut-IsRunning request s t out run =
      let reqs = requested request.items in
      moved-IsRunning s t (written_all reqs s.user_items) out.items
        (written_all-AllKept defaults code reqs s.user_items run.kept out.valid)
        (NodupKeys-keys _ s.user_items (keys-written_all reqs s.user_items) run.once)

  IsReset-IsRunning :
      (request : Filter) (s t : Shared R)
      → IsReset R request s t
      → IsRunning R defaults code s
      → IsRunning R defaults code t
  IsReset-IsRunning request s t out run =
      moved-IsRunning s t (restored_all request.names s.user_items) out.items
        (restored_all-AllKept defaults code request.names s.user_items run.kept)
        (NodupKeys-keys _ s.user_items (keys-restored_all request.names s.user_items) run.once)

  SetOutcome-IsRunning :
      (request : ConfigUpdate) (s : Shared R) (r : Result (List ConfigItem)) (t : Shared R)
      → SetOutcome R request s r t
      → IsRunning R defaults code s
      → IsRunning R defaults code t
  SetOutcome-IsRunning request s (ok merged) t out run = IsCarriedOut-IsRunning request s t out run
  SetOutcome-IsRunning request s (raised e) t (inl same) run = SameLocal-IsRunning s t same run
  SetOutcome-IsRunning request s (raised e) t (inr out) run =
      IsCarriedOut-IsRunning request s t out run

  ResetOutcome-IsRunning :
      (request : Filter) (s : Shared R) (r : Result (List ConfigItem)) (t : Shared R)
      → ResetOutcome R request s r t
      → IsRunning R defaults code s
      → IsRunning R defaults code t
  ResetOutcome-IsRunning request s (ok merged) t out run = IsReset-IsRunning request s t out run
  ResetOutcome-IsRunning request s (raised e) t (inl same) run = SameLocal-IsRunning s t same run
  ResetOutcome-IsRunning request s (raised e) t (inr out) run =
      IsReset-IsRunning request s t out run

  handle-IsRunning :
      (request : Request) (s : Shared R)
      → IsRunning R defaults code s
      → IsRunning R defaults code (handle R request s)
  unfolding handle
  handle-IsRunning (get_items filter) s run = SameLocal-IsRunning s _ (get-SameLocal R filter s) run
  handle-IsRunning (reset_items filter) s run =
      ResetOutcome-IsRunning filter s _ _
        (reset_request-ResetOutcome R filter s
          (AllKept-AllValid defaults code s.user_items run.kept))
        run
  handle-IsRunning (set_items update) s run =
      SetOutcome-IsRunning update s _ _
        (set-SetOutcome R update s (AllKept-AllValid defaults code s.user_items run.kept)) run

  -- Whatever requests come, and whatever the other servers answer, every user item keeps the
  -- default of the layers and a value that its validator accepts.
  pub serve-IsRunning :
      (requests : List Request) (s : Shared R)
      → IsRunning R defaults code s
      → IsRunning R defaults code (serve R requests s)
  unfolding serve
  serve-IsRunning [] s run = run
  serve-IsRunning (request ∷ rest) s run =
      serve-IsRunning rest (handle R request s) (handle-IsRunning request s run)

  -- After a request to set values that returned, a new server with the same code, defaults and
  -- workspace starts with the same user items, values included.
  pub set-restart :
      (request : ConfigUpdate) (s : Shared R) (folder : String) {merged : List ConfigItem}
      → IsRunning R defaults code s
      → s.folders.workspace ≡ some folder
      → (set R request s).0 ≡ ok merged
      → (currents : Dict String String) × (load_texts (some folder) (set R request s).1.disk
          ≡ ok currents)
        × (load_items defaults currents code ≡ ok (set R request s).1.user_items)
  set-restart request s folder {merged} run at_folder returned =
      let out : IsCarriedOut R request s (set R request s).1 =
        subst (λ r. SetOutcome R request s r (set R request s).1) returned
          (set-SetOutcome R request s (AllKept-AllValid defaults code s.user_items run.kept)) in
      let reqs = requested request.items in
      let items = written_all reqs s.user_items in
      let (currents, loaded, again) =
        load_items-persisted defaults code items folder s.disk
          (written_all-AllKept defaults code reqs s.user_items run.kept out.valid)
          (NodupKeys-keys _ s.user_items (keys-written_all reqs s.user_items) run.once) in
      (
        currents,
        rw (out.disk, at_folder) loaded,
        again ∙ ap ok (sym (ap (λ (m : ConfigManager). m.user_items) out.items)),
      )

  -- A reset is not persisted: an item that is reset in memory gets its old persisted value back
  -- from the next server that starts in the workspace.
  pub reset_request-restart :
      (request : Filter) (s : Shared R) (name v : String) (d : Config) {merged : List ConfigItem}
      {currents : Dict String String}
      → IsRunning R defaults code s
      → (reset_request R request s).0 ≡ ok merged
      → lookup name s.user_items ≡ some d
      → contains request.names name ≡ true
      → load_texts s.folders.workspace s.disk ≡ ok currents
      → lookup name currents ≡ some v
      → validate d name v ≡ ok tt
      → (lookup name (reset_request R request s).1.user_items ≡ some (with_value d d.default_value))
        × (load_texts s.folders.workspace (reset_request R request s).1.disk ≡ ok currents)
        × ((c : Config) × (lookup name code ≡ some c)
            × (load_item defaults currents name c ≡ ok (with_value d v)))
  unfolding restored
  reset_request-restart request s name v d {currents} run returned found asked loaded persisted
        valid =
      let out : IsReset R request s (reset_request R request s).1 =
        subst (λ r. ResetOutcome R request s r (reset_request R request s).1) returned
          (reset_request-ResetOutcome R request s
            (AllKept-AllValid defaults code s.user_items run.kept)) in
      let (c, at_code, kept) = lookup-AllKept defaults code s.user_items name d run.kept found in
      (
        rw (ap (λ (m : ConfigManager). m.user_items) out.items, lookup-restored_all, found, asked)
            refl,
        rw out.disk loaded,
        (c, at_code, load_item-persisted defaults name v c d kept currents persisted valid),
      )
