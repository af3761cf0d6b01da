-- ===== src/Config/Requests/Atomic.antt =====
-- Each request changes the local state wholly or not at all, whatever the other servers do.
use grpc_helper.Base.{String, Bool, true, false, List, ◌⊎◌, inl, inr, ◌≡◌, refl, arith}
use grpc_helper.Base.Dict
use grpc_helper.Base.Dict.{Dict, keys}
use grpc_helper.Config.Item.{ConfigItem}
use grpc_helper.Config.Startup.{config_file}
use grpc_helper.Config.Startup.Construct.{AllValid}
use grpc_helper.Config.Requests.{
  Filter, ConfigUpdate, Remotes, Shared, Merged, requested, check_items, validate_all, update_all,
  persisted_model, remotely, locally, merged_items, get, set_remotes, persist, set,
}
use grpc_helper.Config.Requests.Items.{written_all, update_all-written_all}
use grpc_helper.Disk.{save_config}
use grpc_helper.Errors.{Result, ok, raised}
use grpc_helper.Errors.Method.{Method, pure, lift, gets, ◌>>=◌, ◌>>◌, bind_rule}

module _ (R : Remotes) where
  -- The manager and the disk are as they were; the other servers may have changed.
  pub record SameLocal (s t : Shared R) : Type 0 where
    pub manager : t.manager ≡ s.manager
    pub disk : t.disk ≡ s.disk

  pub merged_items-SameLocal :
      (names : List String) (check : Bool) (s : Shared R)
      → SameLocal s (merged_items R names check s).1
  unfolding merged_items
  merged_items-SameLocal names check s = ground arith

  -- `get` changes nothing here.
  pub get-SameLocal : (request : Filter) (s : Shared R) → SameLocal s (get R request s).1
  unfolding get
  get-SameLocal request s = ground (arith, merged_items-SameLocal request.names true s)

  -- All requested values are in the local items, and the disk has what is not a default.
  pub record IsCarriedOut (request : ConfigUpdate) (s t : Shared R) : Type 0 where
    pub valid : validate_all s.user_items (requested request.items) ≡ ok tt
    pub items :
        t.manager
        ≡ record s.manager { user_items = written_all (requested request.items) s.user_items }
    pub disk :
        t.disk
        ≡ save_config config_file s.folders.workspace
            (persisted_model (written_all (requested request.items) s.user_items))
            s.disk

  -- What `set` leaves here: with a result, the request carried out; with an exception, either
  -- that or nothing.
  abbrev pub SetOutcome : ConfigUpdate → Shared R → Result (List ConfigItem) → Shared R → Type 0
  SetOutcome request s (ok merged) t = IsCarriedOut request s t
  SetOutcome request s (raised e) t = SameLocal s t ⊎ IsCarriedOut request s t

  -- The last part of `set`: the local items, the file, and the values to return.
  finish : ConfigUpdate → Method (Shared R) (List ConfigItem)
  unfolding locally persist
  finish request = do
    locally R (update_all (requested request.items))
    persist R
    merged' ← merged_items R (keys (requested request.items)) true
    pure (Dict.values merged')

  carried_out : ConfigUpdate → Shared R → R.World → Shared R
  carried_out request s w =
      let items = written_all (requested request.items) s.user_items in
      record {
        manager = record s.manager { user_items = items };
        disk = save_config config_file s.folders.workspace (persisted_model items) s.disk;
        world = w;
      }

  IsCarriedOut-merged_items :
      (request : ConfigUpdate) (s : Shared R) (w : R.World) (names : List String)
      → validate_all s.user_items (requested request.items) ≡ ok tt
      → IsCarriedOut request s (merged_items R names true (carried_out request s w)).1
  unfolding carried_out
  IsCarriedOut-merged_items request s w names valid =
      let same = merged_items-SameLocal names true (carried_out request s w) in
      record { valid = valid; items = same.manager; disk = same.disk }

  finish-SetOutcome :
      (request : ConfigUpdate) (s : Shared R) (w : R.World)
      → AllValid s.user_items
      → validate_all s.user_items (requested request.items) ≡ ok tt
      → let t : Shared R = record s { world = w } in
        SetOutcome request s (finish request t).0 (finish request t).1
  unfolding finish carried_out
  finish-SetOutcome request s w all valid =
      rw (update_all-written_all (requested request.items) s.user_items all valid).0 (
        bind_rule (SetOutcome request s) (merged_items R (keys (requested request.items)) true) _
          (carried_out request s w) (λ e _. inr (IsCarriedOut-merged_items request s w _ valid))
          (λ merged _. IsCarriedOut-merged_items request s w _ valid))

  pub SameLocal-eq : (s t : Shared R) → SameLocal s t → t ≡ record s { world = t.world }
  SameLocal-eq s t same = ground arith

  -- The part of `set` after the first merge.
  checked : ConfigUpdate → Merged → Method (Shared R) (List ConfigItem)
  unfolding remotely finish
  checked request merged = do
    lift (check_items (keys (requested request.items)) merged request.ignore_unknown false)
    items ← gets (λ s. s.user_items)
    lift (validate_all items (requested request.items))
    clients ← remotely R R.clients
    remotely R (set_remotes R (record { items = request.items; ignore_unknown = true }) clients)
    finish request

  checked-SetOutcome :
      (request : ConfigUpdate) (s : Shared R) (w : R.World) (merged : Merged)
      → AllValid s.user_items
      → let t : Shared R = record s { world = w } in
        SetOutcome request s (checked request merged t).0 (checked request merged t).1
  unfolding checked
  checked-SetOutcome request s w merged all =
      let Q = SetOutcome request s in
      let unchanged : (u : R.World) → SameLocal s (record s { world = u }) =
        λ u. record { manager = refl; disk = refl } in
      bind_rule Q (lift (check_items _ merged request.ignore_unknown false)) _ _
        (λ e _. inl (unchanged w))
        (λ _ _.
          bind_rule Q (lift (validate_all s.user_items (requested request.items))) _ _
            (λ e _. inl (unchanged w))
            (λ _ valid.
              bind_rule Q (remotely R R.clients) _ _ (λ e _. inl (unchanged _))
                (λ clients _.
                  bind_rule Q (remotely R (set_remotes R _ clients)) _ _ (λ e _. inl (unchanged _))
                    (λ _ _. finish-SetOutcome request s _ all valid))))

  -- A request to set values changes the local items and their file together, for all requested
  -- names, or not at all; it does the former if it returns, and the values were then all valid.
  pub set-SetOutcome :
      (request : ConfigUpdate) (s : Shared R)
      → AllValid s.user_items
      → SetOutcome request s (set R request s).0 (set R request s).1
  unfolding set checked
  set-SetOutcome request s all =
      bind_rule (SetOutcome request s) (merged_items R (keys (requested request.items)) false) _ s
        (λ e _. inl (merged_items-SameLocal _ false s))
        (λ merged _.
          rw (SameLocal-eq s _ (merged_items-SameLocal (keys (requested request.items)) false s))
            (checked-SetOutcome request s _ merged all))
