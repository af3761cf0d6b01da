-- ===== src/Tests/EventRuns.antt =====
-- The events service at concrete queues and listeners.
use grpc_helper.Base.{
  ℕ, true, false, none, some, List, [], ◌∷◌, ◌≡◌, refl, string_eq, nat_eq, arith, map, ◌++◌,
}
use grpc_helper.Base.Dict.{Dict, lookup, has}
use grpc_helper.Errors.{ok, rpc_exception, error_stream_shutdown}
use grpc_helper.Events.Listener
use grpc_helper.Events.Listener.{
  EventsListener, Stream, AllSame, IsKnown, listen_rounds, interrupt_id, listen_rounds-some,
  listen_rounds-none,
}
use grpc_helper.Events.Manager.{
  Event, event_entry, interrupt_mark, EventsManager, EventFilter, free_index, internal_send, listen,
  interrupted_at, check_names,
}
use grpc_helper.Events.Manager.Sending.{IsWellFormed, IsSent, internal_send-IsSent, entries}
use grpc_helper.Events.Manager.Listening.{
  listen_loop, wanted, listen_loop-interrupted, missed_events, sent_events, send_all,
}
use grpc_helper.Events.Manager.Steps.{run_end, run_step, step_listen, IsServing}
use grpc_helper.Events.Manager.Startup.{start_manager, persisted_indexes, int_list}
use grpc_helper.Disk.{load_config}
use grpc_helper.Events.Manager.Restart.{IsReopened, start_manager-IsServing, Run-restart}
use grpc_helper.Events.Manager

abbrev two_queues : Dict ℕ ℕ
two_queues = (1, 0) ∷ (3, 1) ∷ []

abbrev ping : Event
ping = record { name = "ping"; properties = [] }

-- Index 3 was interrupted at time 10.
abbrev manager : EventsManager
manager = record {
  queues = two_queues;
  objects = [];
  next_object = 2;
  interrupt_times = (3, some 10) ∷ [];
  workspace = some "wks";
  disk = [];
}

manager-IsWellFormed : IsWellFormed manager
unfolding lookup nat_eq
manager-IsWellFormed = record {
  once = (refl, (refl, tt));
  own = (refl, (refl, tt));
  made = (omega arith, (omega arith, tt));
  times_once = (refl, tt);
}

internal_send-IsSent_example : IsSent 400 300 ping manager (internal_send 400 300 ping manager)
internal_send-IsSent_example = internal_send-IsSent 400 300 ping manager manager-IsWellFormed

no_names_checked : check_names [] ≡ ok tt
unfolding check_names
no_names_checked = refl

waits :
    (lookup 3 manager.queues ≡ some 1)
    × (lookup 3 manager.interrupt_times ≡ some (some 10))
    × (entries 1 manager.objects ≡ [])
unfolding lookup nat_eq
waits = (refl, refl, refl)

abbrev sends : List (ℕ × Event)
sends = (20, ping) ∷ (30, ping) ∷ []

missed_events_example :
    (l : Manager.Listener) × ((listen
        (record { client_id = 3; names = [] })
        (send_all 300 sends manager)).0
      ≡ ok l)
    × ((listen_loop 5 l [] 40
          (listen (record { client_id = 3; names = [] }) (send_all 300 sends manager)).1).0
        ≡ wanted 3 [] (sent_events sends))
missed_events_example =
    missed_events 3 1 10 300 40 5 [] sends manager (omega arith) no_names_checked
      (manager-IsWellFormed, waits.0, waits.1, waits.2) (refl, (refl, tt)) (omega arith)

abbrev listener : Manager.Listener
listener = record { index = 3; queue = 1 }

abbrev interrupted_manager : EventsManager
interrupted_manager = record manager { objects = (1, event_entry ping ∷ interrupt_mark ∷ []) ∷ [] }

queued :
    entries 1 interrupted_manager.objects ≡ map event_entry (ping ∷ []) ++ (interrupt_mark ∷ [])
unfolding lookup nat_eq
queued = refl

listen_loop-interrupted_example :
    ((listen_loop 3 listener [] 50 interrupted_manager).0 ≡ wanted 3 [] (ping ∷ []))
    × (interrupted_at 3 (listen_loop 3 listener [] 50 interrupted_manager).1 ≡ some 50)
    × (entries 1 (listen_loop 3 listener [] 50 interrupted_manager).1.objects ≡ [])
listen_loop-interrupted_example =
    listen_loop-interrupted listener [] 50 3 (ping ∷ []) [] interrupted_manager queued (omega arith)

abbrev anyone : EventFilter
anyone = record { client_id = 0; names = [] }

nothing_persisted : persisted_indexes (some "wks") [] ≡ ok []
unfolding persisted_indexes load_config lookup int_list
nothing_persisted = refl

first_start :
    (m : EventsManager) × (start_manager 5 (some "wks") [] ≡ ok m)
    × IsReopened 5 (λ i. false) m
    × IsServing "wks" m
first_start = start_manager-IsServing "wks" 5 [] [] nothing_persisted

Run-restart_example :
    (again : EventsManager) × (start_manager 90 (some "wks") (listen anyone first_start.0).1.disk
      ≡ ok again)
    × IsReopened 90 (λ i. has i (listen anyone first_start.0).1.queues) again
Run-restart_example =
    Run-restart "wks" first_start.0 (listen anyone first_start.0).1 90 first_start.3
      (run_step (step_listen anyone) run_end)

abbrev ready_listener : EventsListener
ready_listener = record { client_id = some 3; ready = true; retry_delay = 1 }

abbrev restarting : Stream
restarting = record {
  statuses = [];
  error = some (rpc_exception "Service is shutdown" error_stream_shutdown);
}

restarting-IsKnown : IsKnown (some 3) restarting
unfolding Listener.is_unknown
restarting-IsKnown = λ e failed. ground arith

listen_rounds-some_example :
    AllSame (some 3) (listen_rounds (restarting ∷ []) ready_listener).0
    × (interrupt_id (listen_rounds (restarting ∷ []) ready_listener).2 ≡ some 3)
listen_rounds-some_example =
    listen_rounds-some 3 (restarting ∷ []) ready_listener refl refl (restarting-IsKnown, tt)

abbrev lost_listener : EventsListener
lost_listener = record { client_id = none; ready = true; retry_delay = 1 }

abbrev answering : Stream
answering = record {
  statuses = record { client_id = 1; event = ping } ∷ [];
  error = some (rpc_exception "Service is shutdown" error_stream_shutdown);
}

listen_rounds-none_example :
    AllSame none (listen_rounds (answering ∷ []) lost_listener).0
    × (interrupt_id (listen_rounds (answering ∷ []) lost_listener).2 ≡ none)
listen_rounds-none_example = listen_rounds-none (answering ∷ []) lost_listener refl refl
