-- ===== src/Events/Manager.antt =====
-- src/grpc_helper/events/events_manager.py: `EventsManager`. The lock makes each method one step;
-- a listener waits outside the lock, and each entry that it takes is a step of its own.
pub mod Indexes
pub mod Sending
pub mod Queues
pub mod Startup
pub mod Steps
pub mod Restart
pub mod Listening
pub mod Closing
pub mod Mailboxes
use grpc_helper.Base.{
  ℕ, zero, suc, ◌+◌, ◌-◌, String, ◌<>◌, Bool, true, false, ◌||◌, Option, none, some, List, [], ◌∷◌,
  ◌++◌, ltb, leb, length, is_empty, value_or, if◌then◌else◌, ◌==◌, contains,
}
use grpc_helper.Base.{string_eq, nat_eq}
use grpc_helper.Base.Dict.{Dict, keys, lookup, insert, erase, has, from_pairs}
use grpc_helper.Base.Number.{str}
use grpc_helper.Base.Text.{has_char}
use grpc_helper.Disk.{Json, array, object, item_end, Disk, save_config, of_members}
use grpc_helper.Errors.{
  Result, ok, raised, rpc_exception, error_item_unknown, error_param_missing, error_param_invalid,
  error_state_unexpected,
}
use grpc_helper.Errors.Method.{Method, pure, raise, lift, gets, modify, ◌>>=◌, ◌>>◌}

pub record Event : Type 0 where
  pub name : String
  pub properties : List (String × String)

-- What stands in a queue: an event, `None`, or the status of a service that shuts down.
pub data Entry : Type 0 where
  event_entry : Event → Entry
  interrupt_mark : Entry
  shutdown_mark : Entry

-- What a listener yields.
pub data EventStatus : Type 0 where
  ready : ℕ → EventStatus
  received : ℕ → Event → EventStatus
  stream_shutdown : EventStatus

pub record EventFilter : Type 0 where
  pub client_id : ℕ
  pub names : List String

-- The queues are objects that the dict and the listeners share, so the dict holds references.
-- Times are numbers of a clock's ticks.
pub record EventsManager : Type 0 where
  pub queues : Dict ℕ ℕ
  pub objects : Dict ℕ (List Entry)
  pub next_object : ℕ
  pub interrupt_times : Dict ℕ (Option ℕ)
  pub workspace : Option String
  pub disk : Disk

abbrev pub queues_file : String
queues_file = "queues.json"

-- `q.put(entry)`
unfoldable pub put : ℕ → Entry → Dict ℕ (List Entry) → Dict ℕ (List Entry)
put ref entry objects = insert ref (value_or [] (lookup ref objects) ++ (entry ∷ [])) objects

pub queue_pairs : List ℕ → List (String × Json)
queue_pairs [] = []
queue_pairs (index ∷ rest) = (str index, array item_end) ∷ queue_pairs rest

-- `_persist_queues`: each index with an empty list
unfoldable pub persist_queues : EventsManager → EventsManager
unfolding queue_pairs
persist_queues m = record m {
  disk =
      save_config queues_file m.workspace
        (object (of_members (from_pairs (queue_pairs (keys m.queues))))) m.disk;
}

-- `__get_queue`
unfoldable pub get_queue : ℕ → Method EventsManager ℕ
get_queue index m = elim (lookup index m.queues) [
  | none ↦
      (raised (rpc_exception ("Unknown event listening ID: " <> str index) error_item_unknown), m)
  | some ref ↦ (ok ref, m)
]

-- `index in self.__interrupt_times and self.__interrupt_times[index] is not None`
unfoldable pub interrupted_at : ℕ → EventsManager → Option ℕ
interrupted_at index m = elim (lookup index m.interrupt_times) [ none ↦ none | some t ↦ t ]

-- `interrupt`
unfoldable pub interrupt : ℕ → Method EventsManager (Unit {0})
interrupt client_id = do
  ref ← get_queue client_id
  time ← gets (interrupted_at client_id)
  elim time [
    | some t ↦
        raise (rpc_exception ("Already interrupted ID: " <> str client_id) error_state_unexpected)
    | none ↦ modify (λ m. record m { objects = put ref interrupt_mark m.objects })
  ]

-- The validation of the names of `listen`.
unfoldable pub check_names : List String → Result (Unit {0})
check_names [] = ok tt
check_names (name ∷ rest) =
    let others = check_names rest in
    if name == ""
    then raised (rpc_exception "Empty name in filter request" error_param_missing)
    else if has_char 32 name
    then raised (rpc_exception ("Invalid name in filter request: " <> name) error_param_invalid)
    else others

-- `index = 1; while index in self.__queues: index += 1`, on fuel.
pub search_index : ℕ → ℕ → Dict ℕ ℕ → ℕ
search_index zero index queues = index
search_index (suc fuel) index queues =
    let next = search_index fuel (index + 1) queues in if has index queues then next else index

unfoldable pub free_index : Dict ℕ ℕ → ℕ
unfolding search_index
free_index queues = search_index (suc (length queues)) 1 queues

-- A listener in its loop: its index and its queue.
pub record Listener : Type 0 where
  pub index : ℕ
  pub queue : ℕ

pub open_queue : ℕ → EventsManager → EventsManager
open_queue index m = persist_queues (record m {
  queues = insert index m.next_object m.queues;
  objects = insert m.next_object [] m.objects;
  next_object = m.next_object + 1;
})

-- `listen` up to its first status, `ready index`.
unfoldable pub listen : EventFilter → Method EventsManager Listener
unfolding open_queue
listen request = do
  lift (check_names request.names)
  if ltb 0 request.client_id
      then (do
        ref ← get_queue request.client_id
        modify (λ m. record m { interrupt_times = insert request.client_id none m.interrupt_times })
        pure (record { index = request.client_id; queue = ref }))
      else (do
        index ← gets (λ m. free_index m.queues)
        ref ← gets (λ m. m.next_object)
        modify (open_queue index)
        pure (record { index = index; queue = ref }))

-- The filter of the loop: all names, one of the names, or a keep-alive event.
unfoldable pub passes : List String → Event → Bool
passes names event = is_empty names || (contains names event.name || event.name == "")

-- What one entry makes a listener yield, and whether its loop goes on.
unfoldable pub yields : ℕ → List String → Entry → List EventStatus × Bool
unfolding passes
yields index names interrupt_mark = ([], false)
yields index names shutdown_mark = (stream_shutdown ∷ [], false)
yields index names (event_entry event) =
    if passes names event then (received index event ∷ [], true) else ([], true)

-- After the loop: the time of the interruption is remembered.
unfoldable pub leave : ℕ → ℕ → EventsManager → EventsManager
leave index now m = record m { interrupt_times = insert index (some now) m.interrupt_times }

-- What a listener does with the first of the entries of its queue.
unfoldable pub read_entry :
    Listener
    → List String
    → ℕ
    → EventsManager
    → List Entry
    → Option (List EventStatus × Bool × EventsManager)
unfolding yields leave
read_entry l names now m [] = none
read_entry l names now m (entry ∷ rest) =
    let (statuses, goes_on) = yields l.index names entry in
    let taken : EventsManager = record m { objects = insert l.queue rest m.objects } in
    some (statuses, goes_on, (if goes_on then taken else leave l.index now taken))

-- One round of the loop of `listen`: `none` while the queue is empty, since the read waits.
unfoldable pub listen_step :
    Listener → List String → ℕ → EventsManager → Option (List EventStatus × Bool × EventsManager)
unfolding read_entry
listen_step l names now m = read_entry l names now m (value_or [] (lookup l.queue m.objects))

-- `interrupted_time is not None and interrupted_time >= retain_timeout`
unfoldable pub is_expired : ℕ → ℕ → EventsManager → ℕ → Bool
unfolding interrupted_at
is_expired now retain m index = elim (interrupted_at index m) [
  | none ↦ false
  | some t ↦ leb retain (now - t)
]

-- The loop of `__internal_send`: the indexes to delete, and the event put in the other queues.
unfoldable pub deliver :
    (ℕ → Bool) → Event → Dict ℕ ℕ → Dict ℕ (List Entry) → List ℕ × Dict ℕ (List Entry)
unfolding put
deliver expired event [] objects = ([], objects)
deliver expired event ((index, ref) ∷ rest) objects =
    let (others, objects') =
      deliver expired event rest
        (if expired index then objects else put ref (event_entry event) objects) in
    (if expired index then index ∷ others else others, objects')

unfoldable pub erase_all {ℓ} : {V : Type ℓ} → List ℕ → Dict ℕ V → Dict ℕ V
erase_all [] d = d
erase_all (index ∷ rest) d = erase_all rest (erase index d)

-- `__internal_send`
unfoldable pub internal_send : ℕ → ℕ → Event → EventsManager → EventsManager
unfolding deliver erase_all is_expired persist_queues
internal_send now retain event m =
    let (to_delete, objects') = deliver (is_expired now retain m) event m.queues m.objects in
    let sent : EventsManager = record m { objects = objects' } in
    if is_empty to_delete
    then sent
    else persist_queues (record sent {
      queues = erase_all to_delete m.queues;
      interrupt_times = erase_all to_delete m.interrupt_times;
    })

-- `send`
unfoldable pub send : ℕ → ℕ → Event → Method EventsManager (Unit {0})
send now retain event =
    if event.name == ""
    then raise (rpc_exception "Empty event name" error_param_missing)
    else if has_char 32 event.name
    then raise (rpc_exception ("Invalid event name: " <> event.name) error_param_invalid)
    else modify (internal_send now retain event)

-- `inspect`
unfoldable pub inspect : EventsManager → List ℕ
inspect m = keys m.queues

put_all : Entry → Dict ℕ ℕ → Dict ℕ (List Entry) → Dict ℕ (List Entry)
put_all entry [] objects = objects
put_all entry ((index, ref) ∷ rest) objects = put_all entry rest (put ref entry objects)

-- `_shutdown`, once the keep-alive thread has ended.
unfoldable pub shutdown : EventsManager → EventsManager
unfolding put_all
shutdown m = record m { objects = put_all shutdown_mark m.queues m.objects }
