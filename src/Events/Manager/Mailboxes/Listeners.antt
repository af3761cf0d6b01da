-- ===== src/Events/Manager/Mailboxes/Listeners.antt =====
-- src/grpc_helper/events/events_manager.py: the manager with the listeners that `listen` has made, and
-- what of a listener's queue stays true.
use grpc_helper.Base.{
  ℕ, ◌+◌, ◌<◌, String, Bool, Option, none, some, List, [], ◌∷◌, All, contains, sym, subst, arith,
  ◌≡◌, ◌⊎◌, inl, inr, Bool-cases,
}
use grpc_helper.Base.{nat_eq}
use grpc_helper.Base.Dict.{Dict, lookup, insert, lookup-insert, NodupKeys}
use grpc_helper.Errors.{Exception, ok, raised}
use grpc_helper.Events.Manager.{
  Event, Entry, EventFilter, EventStatus, EventsManager, Listener, send, internal_send, interrupt,
  listen, listen_step, shutdown, erase_all,
}
use grpc_helper.Events.Manager.Mailboxes.{
  Label, send_label, alive_label, interrupt_label, listen_label, read_label, shutdown_label,
}
use grpc_helper.Events.Manager.Mailboxes.Views.{same_index}
use grpc_helper.Events.Manager.Queues.{internal_send-IsWellFormed}
use grpc_helper.Events.Manager.Sending.{
  IsWellFormed, DistinctRefs, lookup-erase_all, delivered, internal_send-queues,
  internal_send-next_object,
}
use grpc_helper.Events.Manager.Steps.{keep_alive_event}

pub record System : Type 0 where
  pub manager : EventsManager
  pub listeners : List Listener

abbrev pub Among : Listener → List Listener → Type 0
Among l [] = ⊥
Among l (first ∷ rest) = (l ≡ first) ⊎ Among l rest

-- What the threads of the server do: requests, rounds of the keep-alive thread, and the reads of the
-- listeners, each from the queue that its request got.
pub data SystemStep : Label → System → System → Type 0 where
  system_send :
      (now retain : ℕ) (event : Event) {s : System}
      → SystemStep
          (send_label now retain event)
          s
          (record s { manager = (send now retain event s.manager).1 })
  system_keep_alive :
      (now retain : ℕ) {s : System}
      → SystemStep
          (alive_label now retain)
          s
          (record s { manager = internal_send now retain keep_alive_event s.manager })
  system_interrupt :
      (client_id : ℕ) {s : System}
      → SystemStep
          (interrupt_label client_id)
          s
          (record s { manager = (interrupt client_id s.manager).1 })
  system_listen :
      (request : EventFilter) (l : Listener) {s : System}
      → (listen request s.manager).0 ≡ ok l
      → SystemStep
          (listen_label request)
          s
          (record { manager = (listen request s.manager).1; listeners = l ∷ s.listeners })
  system_refuse :
      (request : EventFilter) (e : Exception) {s : System}
      → (listen request s.manager).0 ≡ raised e
      → SystemStep (listen_label request) s (record s { manager = (listen request s.manager).1 })
  system_read :
      (l : Listener) (names : List String) (now : ℕ) (statuses : List EventStatus) (goes_on : Bool)
      (m : EventsManager) {s : System}
      → Among l s.listeners
      → listen_step l names now s.manager ≡ some (statuses, goes_on, m)
      → SystemStep (read_label l.index names now) s (record s { manager = m })
  system_shutdown :
      {s : System} → SystemStep shutdown_label s (record s { manager = shutdown s.manager })

pub data SystemRun : List Label → System → System → Type 0 where
  system_end : {s : System} → SystemRun [] s s
  system_step :
      {label : Label} {labels : List Label} {s between last : System}
      → SystemStep label s between
      → SystemRun labels between last
      → SystemRun (label ∷ labels) s last

-- A queue was made, and it is the queue of the index, or of no index any more.
abbrev pub Holds : ℕ → Dict ℕ ℕ → Listener → Type 0
Holds next queues l =
    (l.queue < next)
    × ((lookup l.index queues ≡ some l.queue) ⊎ ((i : ℕ) → ¬ (lookup i queues ≡ some l.queue)))

pub record IsOpen (s : System) : Type 0 where
  pub well_formed : IsWellFormed s.manager
  pub holds : All (Holds s.manager.next_object s.manager.queues) s.listeners

pub Among-Holds :
    (next : ℕ) (queues : Dict ℕ ℕ) (l : Listener) (listeners : List Listener)
    → Among l listeners
    → All (Holds next queues) listeners
    → Holds next queues l
Among-Holds next queues l [] among holds = absurd among
Among-Holds next queues l (first ∷ rest) (inl same) (here, holds) =
    subst (Holds next queues) (sym same) here
Among-Holds next queues l (first ∷ rest) (inr later) (here, holds) =
    Among-Holds next queues l rest later holds

Holds-erase_all :
    (next : ℕ) (queues : Dict ℕ ℕ) (gone : List ℕ) (l : Listener)
    → DistinctRefs queues
    → Holds next queues l
    → Holds next (erase_all gone queues) l
Holds-erase_all next queues gone l own (made, inr nobody) =
    (made, inr (λ i found. nobody i (ground (arith, found, lookup-erase_all i gone queues))))
Holds-erase_all next queues gone l own (made, inl known) =
    elim (Bool-cases (contains gone l.index)) [
      | inr kept ↦ (made, inl (ground (arith, known, kept, lookup-erase_all l.index gone queues)))
      | inl erased ↦ (
        made,
        inr (λ i found. ground (
          arith,
          erased,
          found,
          known,
          lookup-erase_all i gone queues,
          same_index i l.index l.queue queues own,
        )),
      )
    ]

Holds-insert :
    (next : ℕ) (queues : Dict ℕ ℕ) (index : ℕ) (l : Listener)
    → lookup index queues ≡ none
    → Holds next queues l
    → Holds (next + 1) (insert index next queues) l
Holds-insert next queues index l free (made, inl known) =
    (omega arith, inl (ground (arith, known, free, lookup-insert l.index index next queues)))
Holds-insert next queues index l free (made, inr nobody) = (
  omega arith,
  inr (λ i found. ground (arith, made, found, nobody i, lookup-insert i index next queues)),
)

pub All-Holds :
    (next next' : ℕ) (queues queues' : Dict ℕ ℕ)
    → ((l : Listener) → Holds next queues l → Holds next' queues' l)
    → (listeners : List Listener) → All (Holds next queues) listeners
    → All (Holds next' queues') listeners
All-Holds next next' queues queues' keeps [] holds = tt
All-Holds next next' queues queues' keeps (l ∷ rest) (here, holds) =
    (keeps l here, All-Holds next next' queues queues' keeps rest holds)

-- A change of the entries and of the times alone.
pub kept-IsOpen :
    (m : EventsManager) (objects : Dict ℕ (List Entry)) (times : Dict ℕ (Option ℕ))
    (listeners : List Listener)
    → NodupKeys times
    → IsOpen (record { manager = m; listeners = listeners })
    → IsOpen (record {
      manager = record m { objects = objects; interrupt_times = times };
      listeners = listeners;
    })
kept-IsOpen m objects times listeners once s = record {
  well_formed = record {
    once = s.well_formed.once;
    own = s.well_formed.own;
    made = s.well_formed.made;
    times_once = once;
  };
  holds = s.holds;
}

pub internal_send-IsOpen :
    (now retain : ℕ) (event : Event) (s : System)
    → IsOpen s
    → IsOpen (record s { manager = internal_send now retain event s.manager })
internal_send-IsOpen now retain event s o =
    let m = s.manager in
    let gone = (delivered now retain event m).0 in
    record {
      well_formed = internal_send-IsWellFormed now retain event m o.well_formed;
      holds =
          rw (internal_send-queues now retain event m, internal_send-next_object now retain event m)
            (All-Holds m.next_object m.next_object m.queues (erase_all gone m.queues)
              (λ l. Holds-erase_all m.next_object m.queues gone l o.well_formed.own) s.listeners
              o.holds);
    }

-- The listener of a new queue.
pub opened-Holds :
    (index : ℕ) (s : System)
    → lookup index s.manager.queues ≡ none
    → IsOpen s
    → All
        (Holds (s.manager.next_object + 1) (insert index s.manager.next_object s.manager.queues))
        (record { index = index; queue = s.manager.next_object } ∷ s.listeners)
opened-Holds index s free o =
    let m = s.manager in
    (
      (omega arith, inl (ground (arith, lookup-insert index index m.next_object m.queues))),
      All-Holds m.next_object (m.next_object + 1) m.queues (insert index m.next_object m.queues)
          (λ l. Holds-insert m.next_object m.queues index l free) s.listeners o.holds,
    )
