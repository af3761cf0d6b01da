-- ===== src/Events/Manager/Mailboxes/Refines.antt =====
-- src/grpc_helper/events/events_manager.py: the manager and its listeners implement the mailboxes.
use grpc_helper.Base.{
  ℕ, String, Bool, true, false, some, List, [], ◌∷◌, arith, ◌≡◌, inl, inr, refl, sym, ap, subst,
  ◌∙◌,
}
use grpc_helper.Base.{nat_eq, string_eq}
use grpc_helper.Base.Dict.{lookup, insert, insert-NodupKeys}
use grpc_helper.Events.Manager.{
  Entry, EventStatus, EventsManager, Listener, listen_step, read_entry, shutdown, yields,
}
use grpc_helper.Events.Manager.Mailboxes.{
  Label, read_label, shutdown_label, SpecStep, spec_reads, spec_strays, spec_shuts, SpecRun,
  spec_end, spec_step, spec_stop, spec_set, spec_left,
}
use grpc_helper.Events.Manager.Mailboxes.Listeners.{
  System, Among, SystemStep, system_send, system_keep_alive, system_interrupt, system_listen,
  system_refuse, system_read, system_shutdown, SystemRun, system_end, system_step, Holds, IsOpen,
  Among-Holds, kept-IsOpen,
}
use grpc_helper.Events.Manager.Mailboxes.Requests.{
  IsRefined, with_manager, send-IsRefined, keep_alive-IsRefined, interrupt-IsRefined,
}
use grpc_helper.Events.Manager.Mailboxes.Listens.{listen-IsRefined, refuse-IsRefined}
use grpc_helper.Events.Manager.Mailboxes.Queues.{view-set, view-stray, view-shutdown}
use grpc_helper.Events.Manager.Mailboxes.Views.{view, view-times}
use grpc_helper.Events.Manager.Sending.{IsWellFormed, entries}

-- A listener that has taken the first entry of its queue, and goes on or not.
abbrev after_read : Bool → Listener → ℕ → List Entry → EventsManager → EventsManager
after_read true l now rest m = record m { objects = insert l.queue rest m.objects }
after_read false l now rest m = record m {
  objects = insert l.queue rest m.objects;
  interrupt_times = insert l.index (some now) m.interrupt_times;
}

-- A read takes an entry of the listener's queue.
record IsRead (l : Listener) (names : List String) (now : ℕ) (m m' : EventsManager) : Type 0 where
  entry : Entry
  rest : List Entry
  queue : entries l.queue m.objects ≡ entry ∷ rest
  left : m' ≡ after_read (yields l.index names entry).1 l now rest m

read_entry-IsRead :
    (l : Listener) (names : List String) (now : ℕ) (statuses : List EventStatus) (goes_on : Bool)
    (m m' : EventsManager) (queued : List Entry)
    → entries l.queue m.objects ≡ queued
    → read_entry l names now m queued ≡ some (statuses, goes_on, m')
    → IsRead l names now m m'
unfolding read_entry
read_entry-IsRead l names now statuses goes_on m m' [] same read = cc
read_entry-IsRead l names now statuses goes_on m m' (entry ∷ rest) same read = record {
  entry = entry;
  rest = rest;
  queue = same;
  left = ground (arith, read);
}

listen_step-IsRead :
    (l : Listener) (names : List String) (now : ℕ) (statuses : List EventStatus) (goes_on : Bool)
    (m m' : EventsManager)
    → listen_step l names now m ≡ some (statuses, goes_on, m')
    → IsRead l names now m m'
unfolding listen_step
listen_step-IsRead l names now statuses goes_on m m' read =
    read_entry-IsRead l names now statuses goes_on m m' (entries l.queue m.objects) refl read

-- The mailboxes after a read from the queue of an index, or from one that no index has.
view-after_read :
    (goes_on : Bool) (l : Listener) (now : ℕ) (rest : List Entry) (m : EventsManager)
    → IsWellFormed m
    → lookup l.index m.queues ≡ some l.queue
    → view (after_read goes_on l now rest m)
      ≡ spec_left goes_on l.index now (spec_set l.index rest (view m))
view-after_read true l now rest m w known = view-set l.index l.queue rest m w known
view-after_read false l now rest m w known =
    view-times l.index (some now) (record m { objects = insert l.queue rest m.objects })
    ∙ ap (spec_stop l.index (some now)) (view-set l.index l.queue rest m w known)

view-stray_read :
    (goes_on : Bool) (l : Listener) (now : ℕ) (rest : List Entry) (m : EventsManager)
    → ((i : ℕ) → ¬ (lookup i m.queues ≡ some l.queue))
    → view (after_read goes_on l now rest m) ≡ spec_left goes_on l.index now (view m)
view-stray_read true l now rest m nobody = view-stray l.queue rest m nobody
view-stray_read false l now rest m nobody =
    view-times l.index (some now) (record m { objects = insert l.queue rest m.objects })
    ∙ ap (spec_stop l.index (some now)) (view-stray l.queue rest m nobody)

after_read-IsOpen :
    (goes_on : Bool) (l : Listener) (now : ℕ) (rest : List Entry) (s : System)
    → IsOpen s
    → IsOpen (with_manager s (after_read goes_on l now rest s.manager))
after_read-IsOpen true l now rest s o =
    kept-IsOpen s.manager (insert l.queue rest s.manager.objects) s.manager.interrupt_times
      s.listeners o.well_formed.times_once o
after_read-IsOpen false l now rest s o =
    kept-IsOpen s.manager (insert l.queue rest s.manager.objects)
      (insert l.index (some now) s.manager.interrupt_times) s.listeners
      (insert-NodupKeys l.index (some now) s.manager.interrupt_times o.well_formed.times_once) o

read-SpecStep :
    (l : Listener) (names : List String) (now : ℕ) (entry : Entry) (rest : List Entry)
    (m : EventsManager)
    → IsWellFormed m
    → entries l.queue m.objects ≡ entry ∷ rest
    → Holds m.next_object m.queues l
    → SpecStep
        (read_label l.index names now)
        (view m)
        (view (after_read (yields l.index names entry).1 l now rest m))
read-SpecStep l names now entry rest m w queue (made, inl known) =
    subst (SpecStep (read_label l.index names now) (view m))
      (sym (view-after_read (yields l.index names entry).1 l now rest m w known))
      (spec_reads l.index names now entry rest (ground (arith, known, queue)))
read-SpecStep l names now entry rest m w queue (made, inr nobody) =
    subst (SpecStep (read_label l.index names now) (view m))
      (sym (view-stray_read (yields l.index names entry).1 l now rest m nobody))
      (spec_strays l.index names now (yields l.index names entry).1)

read-IsRefined :
    (l : Listener) (names : List String) (now : ℕ) (m : EventsManager) (s : System)
    → Among l s.listeners
    → IsRead l names now s.manager m
    → IsOpen s
    → IsRefined (read_label l.index names now) s (with_manager s m)
read-IsRefined l names now m s among r o =
    subst (λ (m' : EventsManager). IsRefined (read_label l.index names now) s (with_manager s m'))
      (sym r.left)
      (
        read-SpecStep l names now r.entry r.rest s.manager o.well_formed r.queue
            (Among-Holds s.manager.next_object s.manager.queues l s.listeners among o.holds),
        after_read-IsOpen (yields l.index names r.entry).1 l now r.rest s o,
      )

shutdown-IsOpen : (s : System) → IsOpen s → IsOpen (with_manager s (shutdown s.manager))
unfolding shutdown
shutdown-IsOpen s o =
    kept-IsOpen s.manager _ s.manager.interrupt_times s.listeners o.well_formed.times_once o

SystemStep-IsRefined :
    (label : Label) (s t : System) → SystemStep label s t → IsOpen s → IsRefined label s t
SystemStep-IsRefined _ s _ (system_send now retain event) o = send-IsRefined now retain event s o
SystemStep-IsRefined _ s _ (system_keep_alive now retain) o = keep_alive-IsRefined now retain s o
SystemStep-IsRefined _ s _ (system_interrupt client_id) o = interrupt-IsRefined client_id s o
SystemStep-IsRefined _ s _ (system_listen request l made) o = listen-IsRefined request l s made o
SystemStep-IsRefined _ s _ (system_refuse request e failed) o =
    refuse-IsRefined request e s failed o
SystemStep-IsRefined _ s _ (system_read l names now statuses goes_on m among read) o =
    read-IsRefined l names now m s among
      (listen_step-IsRead l names now statuses goes_on s.manager m read) o
SystemStep-IsRefined _ s _ system_shutdown o = (
  subst (SpecStep shutdown_label (view s.manager)) (sym (view-shutdown s.manager o.well_formed))
      spec_shuts,
  shutdown-IsOpen s o,
)

pub SystemRun-SpecRun :
    (labels : List Label) (s t : System)
    → SystemRun labels s t
    → IsOpen s
    → SpecRun labels (view s.manager) (view t.manager) × IsOpen t
SystemRun-SpecRun _ s _ system_end o = (spec_end, o)
SystemRun-SpecRun _ s t (system_step step rest) o =
    let (first, between) = SystemStep-IsRefined _ s _ step o in
    let (run, last) = SystemRun-SpecRun _ _ t rest between in (spec_step first run, last)
