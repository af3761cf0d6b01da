-- ===== src/Tests/MailboxRuns.antt =====
-- The events manager with a listener, as mailboxes.
use grpc_helper.Base.{true, some, List, [], ◌∷◌, ◌≡◌, refl, inl, string_eq, nat_eq, arith}
use grpc_helper.Base.Dict.{lookup, insert}
use grpc_helper.Base.Text.{has_char}
use grpc_helper.Events.Manager.{
  Event, EventsManager, Listener, received, send, listen_step, internal_send,
}
use grpc_helper.Events.Manager.Mailboxes.{Label, send_label, read_label, SpecRun}
use grpc_helper.Events.Manager.Mailboxes.Listeners.{
  System, SystemRun, system_send, system_read, system_end, system_step, IsOpen,
}
use grpc_helper.Events.Manager.Mailboxes.Refines.{SystemRun-SpecRun}
use grpc_helper.Events.Manager.Mailboxes.Views.{view}
use grpc_helper.Events.Manager.Sending.{IsWellFormed}

abbrev ping : Event
ping = record { name = "ping"; properties = [] }

-- Index 3 was interrupted at time 10.
abbrev manager : EventsManager
manager = record {
  queues = (1, 0) ∷ (3, 1) ∷ [];
  objects = [];
  next_object = 2;
  interrupt_times = (3, some 10) ∷ [];
  workspace = some "wks";
  disk = [];
}

abbrev first_listener : Listener
first_listener = record { index = 1; queue = 0 }

abbrev system : System
system = record { manager = manager; listeners = first_listener ∷ [] }

manager-IsWellFormed : IsWellFormed manager
unfolding lookup nat_eq
manager-IsWellFormed = record {
  once = (refl, (refl, tt));
  own = (refl, (refl, tt));
  made = (omega arith, (omega arith, tt));
  times_once = (refl, tt);
}

system-IsOpen : IsOpen system
unfolding lookup nat_eq
system-IsOpen = record { well_formed = manager-IsWellFormed; holds = ((omega arith, inl refl), tt) }

-- After the event that makes index 3 expire.
abbrev sent : EventsManager
sent = (send 400 300 ping manager).1

abbrev taken : EventsManager
taken = record sent { objects = insert 0 [] sent.objects }

takes_ping : listen_step first_listener [] 401 sent ≡ some (received 1 ping ∷ [], true, taken)
unfolding listen_step lookup send string_eq has_char internal_send nat_eq insert
takes_ping = refl

abbrev labels : List Label
labels = send_label 400 300 ping ∷ read_label 1 [] 401 ∷ []

abbrev last_system : System
last_system = record system { manager = taken }

both_steps : SystemRun labels system last_system
both_steps = system_step (system_send 400 300 ping) (
    system_step
      (system_read first_listener [] 401 (received 1 ping ∷ []) true taken (inl refl) takes_ping)
      system_end)

SystemRun-SpecRun_example : SpecRun labels (view manager) (view taken) × IsOpen last_system
SystemRun-SpecRun_example = SystemRun-SpecRun labels system last_system both_steps system-IsOpen
