-- ===== src/Config/Requests/ResetAtomic.antt =====
-- A reset changes the local items wholly or not at all, and never the persisted file.
use grpc_helper.Base.{true, false, List, ◌⊎◌, inl, inr, ◌≡◌, refl}
use grpc_helper.Base.Dict
use grpc_helper.Config.Item.{ConfigItem}
use grpc_helper.Config.Startup.Construct.{AllValid}
use grpc_helper.Config.Requests.{
  Filter, Remotes, Shared, Merged, check_items, reset_all, remotely, locally, merged_items,
  reset_remotes, reset_request,
}
use grpc_helper.Config.Requests.Atomic.{SameLocal, merged_items-SameLocal, SameLocal-eq}
use grpc_helper.Config.Requests.Resets.{restored_all, reset_all-restored_all}
use grpc_helper.Errors.{Result, ok, raised}
use grpc_helper.Errors.Method.{Method, pure, lift, ◌>>=◌, ◌>>◌, bind_rule}

module _ (R : Remotes) where
  pub record IsReset (request : Filter) (s t : Shared R) : Type 0 where
    pub items :
        t.manager ≡ record s.manager { user_items = restored_all request.names s.user_items }
    pub disk : t.disk ≡ s.disk

  abbrev pub ResetOutcome : Filter → Shared R → Result (List ConfigItem) → Shared R → Type 0
  ResetOutcome request s (ok merged) t = IsReset request s t
  ResetOutcome request s (raised e) t = SameLocal R s t ⊎ IsReset request s t

  -- The last part of `reset`.
  finish : Filter → Method (Shared R) (List ConfigItem)
  unfolding locally
  finish request = do
    locally R (reset_all request.names)
    merged' ← merged_items R request.names true
    pure (Dict.values merged')

  reset_state : Filter → Shared R → R.World → Shared R
  reset_state request s w = record s {
    manager = record s.manager { user_items = restored_all request.names s.user_items };
    world = w;
  }

  IsReset-merged_items :
      (request : Filter) (s : Shared R) (w : R.World)
      → IsReset request s (merged_items R request.names true (reset_state request s w)).1
  unfolding reset_state
  IsReset-merged_items request s w =
      let same = merged_items-SameLocal R request.names true (reset_state request s w) in
      record { items = same.manager; disk = same.disk }

  finish-ResetOutcome :
      (request : Filter) (s : Shared R) (w : R.World)
      → AllValid s.user_items
      → let t : Shared R = record s { world = w } in
        ResetOutcome request s (finish request t).0 (finish request t).1
  unfolding finish reset_state
  finish-ResetOutcome request s w all =
      rw (reset_all-restored_all request.names s.user_items all).0 (
        bind_rule (ResetOutcome request s) (merged_items R request.names true) _
          (reset_state request s w) (λ e _. inr (IsReset-merged_items request s w))
          (λ merged _. IsReset-merged_items request s w))

  -- The part of `reset` after the first merge.
  checked : Filter → Merged → Method (Shared R) (List ConfigItem)
  unfolding remotely finish
  checked request merged = do
    lift (check_items request.names merged request.ignore_unknown false)
    clients ← remotely R R.clients
    remotely R (reset_remotes R (record { names = request.names; ignore_unknown = true }) clients)
    finish request

  checked-ResetOutcome :
      (request : Filter) (s : Shared R) (w : R.World) (merged : Merged)
      → AllValid s.user_items
      → let t : Shared R = record s { world = w } in
        ResetOutcome request s (checked request merged t).0 (checked request merged t).1
  unfolding checked
  checked-ResetOutcome request s w merged all =
      let Q = ResetOutcome request s in
      let unchanged : (u : R.World) → SameLocal R s (record s { world = u }) =
        λ u. record { manager = refl; disk = refl } in
      bind_rule Q (lift (check_items _ merged request.ignore_unknown false)) _ _
        (λ e _. inl (unchanged w))
        (λ _ _.
          bind_rule Q (remotely R R.clients) _ _ (λ e _. inl (unchanged _))
            (λ clients _.
              bind_rule Q (remotely R (reset_remotes R _ clients)) _ _ (λ e _. inl (unchanged _))
                (λ _ _. finish-ResetOutcome request s _ all)))

  -- A reset puts all the requested local items at their defaults, or changes none of them; it does
  -- the former if it returns. The file of persisted values stays as it was.
  pub reset_request-ResetOutcome :
      (request : Filter) (s : Shared R)
      → AllValid s.user_items
      → ResetOutcome request s (reset_request R request s).0 (reset_request R request s).1
  unfolding reset_request checked
  reset_request-ResetOutcome request s all =
      bind_rule (ResetOutcome request s) (merged_items R request.names false) _ s
        (λ e _. inl (merged_items-SameLocal R _ false s))
        (λ merged _.
          rw (SameLocal-eq R s _ (merged_items-SameLocal R request.names false s))
            (checked-ResetOutcome request s _ merged all))
