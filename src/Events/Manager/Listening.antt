-- ===== src/Events/Manager/Listening.antt =====
-- src/grpc_helper/events/events_manager.py: the loop of `listen`, and a listener that resumes.
use grpc_helper.Base.{
  ℕ, zero, suc, ◌-◌, ◌<◌, String, true, none, some, List, [], ◌∷◌, ◌++◌, map, keep, length, ltb,
  if◌then◌else◌, arith, ◌≡◌, refl, sym, ap, ◌∙◌,
}
use grpc_helper.Base.{nat_eq}
use grpc_helper.Base.Dict.{lookup, insert, lookup-insert, append_nil}
use grpc_helper.Errors.{ok}
use grpc_helper.Events.Manager.{
  Event, Entry, event_entry, interrupt_mark, EventStatus, received, EventsManager, Listener, listen,
  listen_step, read_entry, yields, leave, passes, internal_send, is_expired, interrupted_at,
  get_queue, check_names,
}
use grpc_helper.Events.Manager.Sending.{entries, IsWellFormed, internal_send-IsSent}
use grpc_helper.Events.Manager.Queues.{internal_send-IsWellFormed}

-- The loop of `listen`, at most as many rounds as the fuel says: what it yields, and the manager
-- where it waits for an entry or has ended.
unfoldable pub listen_loop :
    ℕ → Listener → List String → ℕ → EventsManager → List EventStatus × EventsManager
listen_loop zero l names now m = ([], m)
listen_loop (suc rounds) l names now m = elim (listen_step l names now m) [
  | none ↦ ([], m)
  | some (statuses, goes_on, m') ↦
      let (more, last) = listen_loop rounds l names now m' in
      if goes_on then (statuses ++ more, last) else (statuses, m')
]

-- What a listener is to yield of some events: those of its filter, in their order.
abbrev pub wanted : ℕ → List String → List Event → List EventStatus
wanted index names events = map (λ event. received index event) (keep (passes names) events)

-- A listener whose queue has events, and then an interruption, yields those of its filter, in their
-- order, and ends; the time of the interruption is known and what follows it stays in the queue.
pub listen_loop-interrupted :
    (l : Listener) (names : List String) (now rounds : ℕ) (events : List Event) (later : List Entry)
    (m : EventsManager)
    → entries l.queue m.objects ≡ map event_entry events ++ (interrupt_mark ∷ later)
    → length events < rounds
    → ((listen_loop rounds l names now m).0 ≡ wanted l.index names events)
      × (interrupted_at l.index (listen_loop rounds l names now m).1 ≡ some now)
      × (entries l.queue (listen_loop rounds l names now m).1.objects ≡ later)
unfolding listen_loop listen_step read_entry yields leave interrupted_at
listen_loop-interrupted l names now zero events later m queue enough = absurd (omega arith)
listen_loop-interrupted l names now (suc rounds) [] later m queue enough = ground (
  arith,
  queue,
  lookup-insert l.queue l.queue later m.objects,
  lookup-insert l.index l.index (some now) m.interrupt_times,
)
listen_loop-interrupted l names now (suc rounds) (event ∷ events) later m queue enough =
    let rest = map event_entry events ++ (interrupt_mark ∷ later) in
    let taken : EventsManager = record m { objects = insert l.queue rest m.objects } in
    let (yielded, time, left) =
      listen_loop-interrupted l names now rounds events later taken
        (ground (arith, lookup-insert l.queue l.queue rest m.objects)) (omega arith) in
    ground (arith, queue, yielded, time, left)

-- Events that are sent one after another, each at its time.
pub send_all : ℕ → List (ℕ × Event) → EventsManager → EventsManager
send_all retain [] m = m
send_all retain ((now, event) ∷ rest) m = send_all retain rest (internal_send now retain event m)

abbrev pub sent_events : List (ℕ × Event) → List Event
sent_events [] = []
sent_events ((now, event) ∷ rest) = event ∷ sent_events rest

-- All are sent before the interruption at the given time is as old as the retain timeout.
abbrev pub AllInTime : ℕ → ℕ → List (ℕ × Event) → Type 0
AllInTime retain time [] = Unit
AllInTime retain time ((now, event) ∷ rest) =
    (ltb (now - time) retain ≡ true) × AllInTime retain time rest

-- What a manager knows of an interrupted listener: its queue, its time, and what it has to read.
abbrev pub IsWaiting : ℕ → ℕ → ℕ → List Entry → EventsManager → Type 0
IsWaiting index ref time queued m =
    IsWellFormed m
    × (lookup index m.queues ≡ some ref)
    × (lookup index m.interrupt_times ≡ some (some time))
    × (entries ref m.objects ≡ queued)

append_assoc {ℓ} :
    {A : Type ℓ} (xs : List A) (x : A) (ys : List A) → (xs ++ (x ∷ [])) ++ ys ≡ xs ++ (x ∷ ys)
append_assoc [] x ys = refl
append_assoc (z ∷ xs) x ys = cc (append_assoc xs x ys)

send_all-IsWaiting :
    (index ref time retain : ℕ) (sends : List (ℕ × Event)) (queued : List Entry) (m : EventsManager)
    → AllInTime retain time sends
    → IsWaiting index ref time queued m
    → IsWaiting index ref time
        (queued ++ map event_entry (sent_events sends))
        (send_all retain sends m)
unfolding send_all is_expired interrupted_at
send_all-IsWaiting index ref time retain [] queued m in_time (w, known, stopped, queue) =
    (w, known, stopped, queue ∙ append_nil queued)
send_all-IsWaiting index ref time retain ((now, event) ∷ rest) queued m (early, in_time)
      (w, known, stopped, queue) =
    let sent = internal_send-IsSent now retain event m w in
    let (known', queue', stopped') = sent.stays index ref known (ground (arith, stopped)) in
    rw (sym (append_assoc queued (event_entry event) (map event_entry (sent_events rest)))) (
      send_all-IsWaiting index ref time retain rest (queued ++ (event_entry event ∷ []))
        (internal_send now retain event m) in_time
        (
          internal_send-IsWellFormed now retain event m w,
          known',
          stopped' ∙ stopped,
          queue' ∙ ap (λ (q : List Entry). q ++ (event_entry event ∷ [])) queue,
        ))

listen_resumes :
    (index ref time : ℕ) (names : List String) (queued : List Entry) (m : EventsManager)
    → 0 < index
    → check_names names ≡ ok tt
    → IsWaiting index ref time queued m
    → ((listen (record { client_id = index; names = names }) m).0
        ≡ ok (record { index = index; queue = ref }))
      × (entries ref (listen (record { client_id = index; names = names }) m).1.objects ≡ queued)
unfolding listen get_queue
listen_resumes index ref time names queued m positive valid (w, known, stopped, queue) =
    ground (arith, known, valid, queue, positive)

-- The loop of a listener in whose queue there are events and no more yields those of its filter, in
-- their order, and waits then at an empty queue.
pub listen_loop_waits :
    (l : Listener) (names : List String) (now rounds : ℕ) (events : List Event) (m : EventsManager)
    → entries l.queue m.objects ≡ map event_entry events
    → length events < rounds
    → ((listen_loop rounds l names now m).0 ≡ wanted l.index names events)
      × (entries l.queue (listen_loop rounds l names now m).1.objects ≡ [])
unfolding listen_loop listen_step read_entry yields
listen_loop_waits l names now zero events m queue enough = absurd (omega arith)
listen_loop_waits l names now (suc rounds) [] m queue enough = ground (arith, queue)
listen_loop_waits l names now (suc rounds) (event ∷ events) m queue enough =
    let rest = map event_entry events in
    let taken : EventsManager = record m { objects = insert l.queue rest m.objects } in
    let (yielded, left) =
      listen_loop_waits l names now rounds events taken
        (ground (arith, lookup-insert l.queue l.queue rest m.objects)) (omega arith) in
    ground (arith, queue, yielded, left)

-- A listener was interrupted with an empty queue, events are sent while the interruption is not yet
-- as old as the retain timeout, and the listener then resumes with valid names. It gets its queue
-- back, and its loop yields each event of its filter that was sent, in the order of sending, once;
-- one round for each event and one more are enough.
pub missed_events :
    (index ref time retain now rounds : ℕ) (names : List String) (sends : List (ℕ × Event))
    (m : EventsManager)
    → 0 < index
    → check_names names ≡ ok tt
    → IsWaiting index ref time [] m
    → AllInTime retain time sends
    → length (sent_events sends) < rounds
    → (l : Listener) × ((listen
          (record { client_id = index; names = names })
          (send_all retain sends m)).0
        ≡ ok l)
      × ((listen_loop rounds l names now
            (listen (record { client_id = index; names = names }) (send_all retain sends m)).1).0
          ≡ wanted index names (sent_events sends))
missed_events index ref time retain now rounds names sends m positive valid waiting in_time enough =
    let waits = send_all-IsWaiting index ref time retain sends [] m in_time waiting in
    let (resumed, queue) =
      listen_resumes index ref time names (map event_entry (sent_events sends))
        (send_all retain sends m) positive valid waits in
    (
      record { index = index; queue = ref },
      resumed,
      (listen_loop_waits (record { index = index; queue = ref }) names now rounds
          (sent_events sends)
          (listen (record { client_id = index; names = names }) (send_all retain sends m)).1 queue
          enough).0,
    )
