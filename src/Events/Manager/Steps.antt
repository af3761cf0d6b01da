-- ===== src/Events/Manager/Steps.antt =====
-- src/grpc_helper/events/events_manager.py: the manager from its start on, step by step. A step is
-- what one thread does while it holds the lock, or one read of a listener.
use grpc_helper.Base.{
  ℕ, ◌+◌, String, Bool, Option, none, some, List, [], ◌∷◌, map, arith, ◌≡◌, refl, ◌∙◌, contains,
  inl, inr, Bool-cases, is_empty, value_or,
}
use grpc_helper.Base.{nat_eq}
use grpc_helper.Base.Dict.{
  Dict, keys, lookup, insert, has, NodupKeys, insert-NodupKeys, contains-keys,
}
use grpc_helper.Base.Number.{pos}
use grpc_helper.Errors.{ok}
use grpc_helper.Events.Manager.{
  Event, Entry, EventFilter, EventStatus, EventsManager, Listener, send, internal_send, interrupt,
  listen, listen_step, shutdown, put, interrupt_mark, read_entry, erase_all, free_index, open_queue,
  get_queue, leave, persist_queues,
}
use grpc_helper.Events.Manager.Sending.{IsWellFormed, erase_all-NodupKeys, entries, delivered}
use grpc_helper.Events.Manager.Queues.{open-IsWellFormed, internal_send-IsWellFormed}
use grpc_helper.Events.Manager.Startup.{persisted_indexes}
use grpc_helper.Events.Manager.Startup.Records.{persisted_indexes-persist_queues}

abbrev pub keep_alive_event : Event
keep_alive_event = record { name = ""; properties = [] }

-- Every way in which the manager changes: a client's request, a round of the keep-alive thread, a
-- listener that takes an entry, the shutdown.
pub data Step : EventsManager → EventsManager → Type 0 where
  step_send :
      (now retain : ℕ) (event : Event) {m : EventsManager} → Step m (send now retain event m).1
  step_keep_alive :
      (now retain : ℕ) {m : EventsManager} → Step m (internal_send now retain keep_alive_event m)
  step_interrupt : (client_id : ℕ) {m : EventsManager} → Step m (interrupt client_id m).1
  step_listen : (request : EventFilter) {m : EventsManager} → Step m (listen request m).1
  step_read :
      (l : Listener) (names : List String) (now : ℕ) (statuses : List EventStatus) (goes_on : Bool)
      {m m' : EventsManager}
      → listen_step l names now m ≡ some (statuses, goes_on, m')
      → Step m m'
  step_shutdown : {m : EventsManager} → Step m (shutdown m)

pub data Run : EventsManager → EventsManager → Type 0 where
  run_end : {m : EventsManager} → Run m m
  run_step : {m between last : EventsManager} → Step m between → Run between last → Run m last

-- The file in the workspace lists the indexes of the queues.
pub record IsRecorded (folder : String) (m : EventsManager) : Type 0 where
  pub indexes : List ℕ
  pub read : persisted_indexes (some folder) m.disk ≡ ok (map pos indexes)
  pub same : (i : ℕ) → contains indexes i ≡ has i m.queues

-- The invariant of a manager with a workspace.
pub record IsServing (folder : String) (m : EventsManager) : Type 0 where
  pub well_formed : IsWellFormed m
  pub here : m.workspace ≡ some folder
  pub recorded : IsRecorded folder m

persist_queues-IsRecorded :
    (folder : String) (m : EventsManager)
    → m.workspace ≡ some folder
    → NodupKeys m.queues
    → IsRecorded folder (persist_queues m)
unfolding persist_queues
persist_queues-IsRecorded folder m here once = record {
  indexes = keys m.queues;
  read = persisted_indexes-persist_queues folder m here once;
  same = λ i. contains-keys m.queues i;
}

internal_send-workspace :
    (now retain : ℕ) (event : Event) (m : EventsManager)
    → (internal_send now retain event m).workspace ≡ m.workspace
unfolding internal_send persist_queues
internal_send-workspace now retain event m = ground arith

internal_send-IsRecorded :
    (folder : String) (now retain : ℕ) (event : Event) (m : EventsManager)
    → IsServing folder m
    → IsRecorded folder (internal_send now retain event m)
unfolding internal_send delivered
internal_send-IsRecorded folder now retain event m s =
    let gone = (delivered now retain event m).0 in
    elim (Bool-cases (is_empty gone)) [
      | inl nothing ↦
          rw nothing (record {
            indexes = s.recorded.indexes;
            read = s.recorded.read;
            same = s.recorded.same;
          })
      | inr some_gone ↦ rw some_gone (
          persist_queues-IsRecorded folder
            (record m {
              queues = erase_all gone m.queues;
              objects = (delivered now retain event m).1;
              interrupt_times = erase_all gone m.interrupt_times;
            })
            s.here (erase_all-NodupKeys gone m.queues s.well_formed.once))
    ]

module _ (folder : String) where
  -- A change of the queues' entries and of the interruption times alone.
  kept-IsServing :
      (m : EventsManager) (objects : Dict ℕ (List Entry)) (times : Dict ℕ (Option ℕ))
      → NodupKeys times
      → IsServing folder m
      → IsServing folder (record m { objects = objects; interrupt_times = times })
  kept-IsServing m objects times once s = record {
    well_formed = record {
      once = s.well_formed.once;
      own = s.well_formed.own;
      made = s.well_formed.made;
      times_once = once;
    };
    here = s.here;
    recorded = record {
      indexes = s.recorded.indexes;
      read = s.recorded.read;
      same = s.recorded.same;
    };
  }

  open_queue-IsServing :
      (index : ℕ) (m : EventsManager) → IsServing folder m → IsServing folder (open_queue index m)
  unfolding open_queue persist_queues
  open_queue-IsServing index m s = record {
    well_formed =
        open-IsWellFormed index m (open_queue index m) s.well_formed refl refl
          s.well_formed.times_once;
    here = s.here;
    recorded =
        persist_queues-IsRecorded folder
          (record m {
            queues = insert index m.next_object m.queues;
            objects = insert m.next_object [] m.objects;
            next_object = m.next_object + 1;
          })
          s.here (insert-NodupKeys index m.next_object m.queues s.well_formed.once);
  }

  listen-IsServing :
      (request : EventFilter) (m : EventsManager)
      → IsServing folder m
      → IsServing folder (listen request m).1
  unfolding listen get_queue
  listen-IsServing request m s = ground (
    arith,
    s,
    open_queue-IsServing (free_index m.queues) m s,
    kept-IsServing m m.objects (insert request.client_id none m.interrupt_times)
        (insert-NodupKeys request.client_id none m.interrupt_times s.well_formed.times_once) s,
  )

  internal_send-IsServing :
      (now retain : ℕ) (event : Event) (m : EventsManager)
      → IsServing folder m
      → IsServing folder (internal_send now retain event m)
  internal_send-IsServing now retain event m s = record {
    well_formed = internal_send-IsWellFormed now retain event m s.well_formed;
    here = internal_send-workspace now retain event m ∙ s.here;
    recorded = internal_send-IsRecorded folder now retain event m s;
  }

  interrupt-IsServing :
      (client_id : ℕ) (m : EventsManager)
      → IsServing folder m
      → IsServing folder (interrupt client_id m).1
  unfolding interrupt get_queue
  interrupt-IsServing client_id m s =
      let ref = value_or 0 (lookup client_id m.queues) in
      ground (
        arith,
        s,
        kept-IsServing m (put ref interrupt_mark m.objects) m.interrupt_times
            s.well_formed.times_once s,
      )

  leave-IsServing :
      (index now : ℕ) (m : EventsManager)
      → IsServing folder m
      → IsServing folder (leave index now m)
  unfolding leave
  leave-IsServing index now m s =
      kept-IsServing m m.objects (insert index (some now) m.interrupt_times)
        (insert-NodupKeys index (some now) m.interrupt_times s.well_formed.times_once) s

  shutdown-IsServing : (m : EventsManager) → IsServing folder m → IsServing folder (shutdown m)
  unfolding shutdown
  shutdown-IsServing m s = kept-IsServing m _ m.interrupt_times s.well_formed.times_once s

  read_entry-IsServing :
      (l : Listener) (names : List String) (now : ℕ) (statuses : List EventStatus) (goes_on : Bool)
      (m m' : EventsManager) (l_entries : List Entry)
      → read_entry l names now m l_entries ≡ some (statuses, goes_on, m')
      → IsServing folder m
      → IsServing folder m'
  unfolding read_entry
  read_entry-IsServing l names now statuses goes_on m m' [] read s = cc
  read_entry-IsServing l names now statuses goes_on m m' (entry ∷ rest) read s =
      let taken : EventsManager = record m { objects = insert l.queue rest m.objects } in
      let taken_serves =
        kept-IsServing m taken.objects m.interrupt_times s.well_formed.times_once s in
      ground (arith, taken_serves, leave-IsServing l.index now taken taken_serves)

  -- A step keeps the invariant.
  pub Step-IsServing : (m m' : EventsManager) → Step m m' → IsServing folder m → IsServing folder m'
  unfolding send listen_step
  Step-IsServing m _ (step_send now retain event) s =
      ground (arith, s, internal_send-IsServing now retain event m s)
  Step-IsServing m _ (step_keep_alive now retain) s =
      internal_send-IsServing now retain keep_alive_event m s
  Step-IsServing m _ (step_interrupt client_id) s = interrupt-IsServing client_id m s
  Step-IsServing m _ (step_listen request) s = listen-IsServing request m s
  Step-IsServing m m' (step_read l names now statuses goes_on read) s =
      read_entry-IsServing l names now statuses goes_on m m' (entries l.queue m.objects) read s
  Step-IsServing m _ step_shutdown s = shutdown-IsServing m s

  pub Run-IsServing : (m m' : EventsManager) → Run m m' → IsServing folder m → IsServing folder m'
  Run-IsServing m _ run_end s = s
  Run-IsServing m m' (run_step step rest) s = Run-IsServing _ m' rest (Step-IsServing m _ step s)
