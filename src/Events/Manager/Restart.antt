-- ===== src/Events/Manager/Restart.antt =====
-- src/grpc_helper/events/events_manager.py: the manager that starts where another one has run.
use grpc_helper.Base.{
  ℕ, String, true, some, List, map, ◌≡◌, refl, sym, ◌∙◌, Bool, [], contains, arith,
}
use grpc_helper.Base.{nat_eq}
use grpc_helper.Base.Dict.{has, lookup}
use grpc_helper.Base.Number.{pos}
use grpc_helper.Disk.{Disk}
use grpc_helper.Errors.{ok}
use grpc_helper.Events.Manager.{EventsManager, interrupted_at}
use grpc_helper.Events.Manager.Sending.{entries}
use grpc_helper.Events.Manager.Startup.{persisted_indexes, start_manager, reopen, new_manager}
use grpc_helper.Events.Manager.Startup.Records.{
  has-reopen, interrupted_at-reopen, entries-reopen, reopen-IsWellFormed, reopen-workspace,
  reopen-disk,
}
use grpc_helper.Events.Manager.Steps.{Run, IsServing, Run-IsServing}

-- A manager that has a queue for the given indexes alone, empty and interrupted at the given time.
pub record IsReopened (now : ℕ) (indexes : ℕ → Bool) (m : EventsManager) : Type 0 where
  pub known : (i : ℕ) → has i m.queues ≡ indexes i
  pub stopped : (i : ℕ) → indexes i ≡ true → interrupted_at i m ≡ some now
  pub empty : (ref : ℕ) → entries ref m.objects ≡ []

module _ (folder : String) (now : ℕ) (disk : Disk) (indexes : List ℕ) where
  first : EventsManager
  first = reopen now (map pos indexes) (new_manager (some folder) disk)

  start_manager-reopen :
      persisted_indexes (some folder) disk ≡ ok (map pos indexes)
      → start_manager now (some folder) disk ≡ ok first
  unfolding start_manager first
  start_manager-reopen read = rw read refl

  first-IsReopened : IsReopened now (contains indexes) first
  unfolding first new_manager interrupted_at lookup
  first-IsReopened = record {
    known = λ i. ground (arith, has-reopen now i indexes (new_manager (some folder) disk));
    stopped = λ i h.
        ground (arith, interrupted_at-reopen now i indexes (new_manager (some folder) disk), h);
    empty = λ ref. entries-reopen now ref (map pos indexes) (new_manager (some folder) disk) refl;
  }

  first-IsServing :
      persisted_indexes (some folder) disk ≡ ok (map pos indexes) → IsServing folder first
  unfolding first new_manager
  first-IsServing read =
      let fresh = new_manager (some folder) disk in
      record {
        well_formed =
            reopen-IsWellFormed now (map pos indexes) fresh
              (record { once = tt; own = tt; made = tt; times_once = tt });
        here = reopen-workspace now (map pos indexes) fresh;
        recorded = record {
          indexes = indexes;
          read = rw (reopen-disk now (map pos indexes) fresh) read;
          same = λ i. sym (first-IsReopened.known i);
        };
      }

  -- In a workspace whose queue file lists indexes, the manager starts, with an empty queue for each
  -- of them, interrupted at the start, and with the invariant.
  pub start_manager-IsServing :
      persisted_indexes (some folder) disk ≡ ok (map pos indexes)
      → (m : EventsManager) × (start_manager now (some folder) disk ≡ ok m)
        × IsReopened now (contains indexes) m
        × IsServing folder m
  start_manager-IsServing read =
      (first, start_manager-reopen read, first-IsReopened, first-IsServing read)

-- A manager with the invariant runs for some steps, and another starts in its workspace: the new
-- one starts, has the indexes of the old one and no others, and each has an empty queue that counts
-- as interrupted at the new start.
pub Run-restart :
    (folder : String) (m last : EventsManager) (later : ℕ)
    → IsServing folder m
    → Run m last
    → (again : EventsManager) × (start_manager later (some folder) last.disk ≡ ok again)
      × IsReopened later (λ i. has i last.queues) again
Run-restart folder m last later s run =
    let t = Run-IsServing folder m last run s in
    let (again, started, reopened, _) =
      start_manager-IsServing folder later last.disk t.recorded.indexes t.recorded.read in
    (
      again,
      started,
      record {
        known = λ i. reopened.known i ∙ t.recorded.same i;
        stopped = λ i h. reopened.stopped i (t.recorded.same i ∙ h);
        empty = reopened.empty;
      },
    )
