-- ===== src/Events/Manager/Mailboxes.antt =====
-- What the events manager promises, without references, files and dicts: a mailbox for each index in
-- use, and the time at which the listening of an index was interrupted. The children show that
-- src/grpc_helper/events/events_manager.py implements it.
pub mod Views
pub mod Queues
pub mod Listeners
pub mod Requests
pub mod Listens
pub mod Refines
use grpc_helper.Base.{
  ℕ, ◌+◌, ◌-◌, ◌≤◌, ◌<◌, String, Bool, true, false, not, ◌&&◌, ◌||◌, ltb, Option, none, some, List,
  [], ◌∷◌, ◌++◌, leb, is_some, map_option, if◌then◌else◌, ◌==◌, ◌≡◌,
}
use grpc_helper.Base.{nat_eq, string_eq}
use grpc_helper.Base.Text.{has_char}
use grpc_helper.Events.Manager.{
  Event, EventFilter, Entry, event_entry, interrupt_mark, shutdown_mark, yields,
}

pub record Mailboxes : Type 0 where
  pub box : ℕ → Option (List Entry)
  pub stopped : ℕ → Option ℕ

-- An index was interrupted, and the retain timeout is over.
abbrev pub is_over : ℕ → ℕ → Option ℕ → Bool
is_over now retain none = false
is_over now retain (some t) = leb retain (now - t)

abbrev pub post : Entry → List Entry → List Entry
post entry entries = entries ++ (entry ∷ [])

-- An event goes to each index, but for those that are over, which are forgotten.
abbrev pub spec_send : ℕ → ℕ → Event → Mailboxes → Mailboxes
spec_send now retain event a = record {
  box = λ i.
      if is_over now retain (a.stopped i)
      then none
      else map_option (post (event_entry event)) (a.box i);
  stopped =
      λ i. if is_some (a.box i) && is_over now retain (a.stopped i) then none else a.stopped i;
}

-- An entry for a single index.
abbrev pub spec_post : ℕ → Entry → Mailboxes → Mailboxes
spec_post index entry a = record {
  box = λ i. if i == index then map_option (post entry) (a.box i) else a.box i;
  stopped = a.stopped;
}

abbrev pub spec_stop : ℕ → Option ℕ → Mailboxes → Mailboxes
spec_stop index time a = record {
  box = a.box;
  stopped = λ i. if i == index then time else a.stopped i;
}

abbrev pub spec_set : ℕ → List Entry → Mailboxes → Mailboxes
spec_set index entries a = record {
  box = λ i. if i == index then some entries else a.box i;
  stopped = a.stopped;
}

abbrev pub spec_shutdown : Mailboxes → Mailboxes
spec_shutdown a = record {
  box = λ i. map_option (post shutdown_mark) (a.box i);
  stopped = a.stopped;
}

-- A listener that goes on leaves the time of its index as it is, one that ends sets it.
abbrev pub spec_left : Bool → ℕ → ℕ → Mailboxes → Mailboxes
spec_left true index now a = a
spec_left false index now a = spec_stop index (some now) a

-- A name that events and filters may have.
abbrev pub is_name : String → Bool
is_name name = not (name == "" || has_char 32 name)

abbrev pub are_names : List String → Bool
are_names [] = true
are_names (name ∷ rest) = is_name name && are_names rest

-- What happens: a request, a round of the keep-alive thread, a read of a listener, the shutdown.
pub data Label : Type 0 where
  send_label : ℕ → ℕ → Event → Label
  alive_label : ℕ → ℕ → Label
  interrupt_label : ℕ → Label
  listen_label : EventFilter → Label
  read_label : ℕ → List String → ℕ → Label
  shutdown_label : Label

-- The steps of the specification.
pub data SpecStep : Label → Mailboxes → Mailboxes → Type 0 where
  spec_refuses_send :
      (now retain : ℕ) (event : Event) {a : Mailboxes}
      → is_name event.name ≡ false
      → SpecStep (send_label now retain event) a a
  spec_sends :
      (now retain : ℕ) (event : Event) {a : Mailboxes}
      → is_name event.name ≡ true
      → SpecStep (send_label now retain event) a (spec_send now retain event a)
  spec_keeps_alive :
      (now retain : ℕ) {a : Mailboxes}
      → SpecStep
          (alive_label now retain)
          a
          (spec_send now retain (record { name = ""; properties = [] }) a)
  -- The interruption of an index that is not in use, or that is interrupted already.
  spec_refuses_interrupt :
      (index : ℕ) {a : Mailboxes}
      → (is_some (a.box index) && not (is_some (a.stopped index))) ≡ false
      → SpecStep (interrupt_label index) a a
  spec_interrupts :
      (index : ℕ) {a : Mailboxes}
      → is_some (a.box index) ≡ true
      → a.stopped index ≡ none
      → SpecStep (interrupt_label index) a (spec_post index interrupt_mark a)
  -- A listener with a bad name, or of an index that is not in use.
  spec_refuses_listen :
      (request : EventFilter) {a : Mailboxes}
      → (are_names request.names
          && (is_some (a.box request.client_id) || not (ltb 0 request.client_id)))
        ≡ false
      → SpecStep (listen_label request) a a
  -- A listener comes back to an index in use.
  spec_resumes :
      (request : EventFilter) {a : Mailboxes}
      → are_names request.names ≡ true
      → is_some (a.box request.client_id) ≡ true
      → 0 < request.client_id
      → SpecStep (listen_label request) a (spec_stop request.client_id none a)
  -- A new listener gets the least index from 1 on that is not in use, with an empty mailbox.
  spec_opens :
      (request : EventFilter) (index : ℕ) {a : Mailboxes}
      → are_names request.names ≡ true
      → request.client_id ≡ 0
      → a.box index ≡ none
      → 1 ≤ index
      → ((j : ℕ) → 1 ≤ j → j < index → is_some (a.box j) ≡ true)
      → SpecStep (listen_label request) a (spec_set index [] a)
  -- A listener takes the first entry of the mailbox of its index.
  spec_reads :
      (index : ℕ) (names : List String) (now : ℕ) (entry : Entry) (rest : List Entry)
      {a : Mailboxes}
      → a.box index ≡ some (entry ∷ rest)
      → SpecStep
          (read_label index names now)
          a
          (spec_left (yields index names entry).1 index now (spec_set index rest a))
  -- A listener whose index was forgotten takes an entry that no index has any more.
  spec_strays :
      (index : ℕ) (names : List String) (now : ℕ) (goes_on : Bool) {a : Mailboxes}
      → SpecStep (read_label index names now) a (spec_left goes_on index now a)
  spec_shuts : {a : Mailboxes} → SpecStep shutdown_label a (spec_shutdown a)

pub data SpecRun : List Label → Mailboxes → Mailboxes → Type 0 where
  spec_end : {a : Mailboxes} → SpecRun [] a a
  spec_step :
      {label : Label} {labels : List Label} {a between last : Mailboxes}
      → SpecStep label a between
      → SpecRun labels between last
      → SpecRun (label ∷ labels) a last
