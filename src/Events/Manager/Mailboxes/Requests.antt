-- ===== src/Events/Manager/Mailboxes/Requests.antt =====
-- src/grpc_helper/events/events_manager.py: each request of the manager is a step of the mailboxes.
use grpc_helper.Base.{
  ℕ, String, true, false, not, ◌&&◌, none, some, List, [], ◌∷◌, is_some, arith, ◌≡◌, ◌⊎◌, inl, inr,
  refl, sym, subst, Option-cases,
}
use grpc_helper.Base.{nat_eq, string_eq}
use grpc_helper.Base.Dict.{lookup}
use grpc_helper.Errors.{is_ok}
use grpc_helper.Events.Manager.{
  Event, EventsManager, interrupt_mark, send, internal_send, interrupt, interrupted_at, put,
  get_queue, check_names,
}
use grpc_helper.Events.Manager.Mailboxes.{
  is_name, are_names, Label, send_label, alive_label, interrupt_label, SpecStep, spec_refuses_send,
  spec_sends, spec_keeps_alive, spec_refuses_interrupt, spec_interrupts,
}
use grpc_helper.Events.Manager.Mailboxes.Listeners.{
  System, IsOpen, kept-IsOpen, internal_send-IsOpen,
}
use grpc_helper.Events.Manager.Mailboxes.Views.{view, view-internal_send, view-put}
use grpc_helper.Events.Manager.Steps.{keep_alive_event}

-- A step that is one of the specification, and keeps what is known of the queues.
abbrev pub IsRefined : Label → System → System → Type 0
IsRefined label s t = SpecStep label (view s.manager) (view t.manager) × IsOpen t

abbrev pub with_manager : System → EventsManager → System
with_manager s m = record s { manager = m }

send-cases :
    (now retain : ℕ) (event : Event) (m : EventsManager)
    → ((is_name event.name ≡ false) × ((send now retain event m).1 ≡ m))
      ⊎ ((is_name event.name ≡ true)
          × ((send now retain event m).1 ≡ internal_send now retain event m))
unfolding send
send-cases now retain event m = ground arith

pub send-IsRefined :
    (now retain : ℕ) (event : Event) (s : System)
    → IsOpen s
    → IsRefined (send_label now retain event) s (with_manager s (send now retain event s.manager).1)
send-IsRefined now retain event s o =
    let label = send_label now retain event in
    elim (send-cases now retain event s.manager) [
      | inl (bad, same) ↦
          subst (λ (m : EventsManager). IsRefined label s (with_manager s m)) (sym same)
            (spec_refuses_send now retain event bad, o)
      | inr (good, sent) ↦
          subst (λ (m : EventsManager). IsRefined label s (with_manager s m)) (sym sent)
            (
              subst (SpecStep label (view s.manager))
                  (sym (view-internal_send now retain event s.manager o.well_formed))
                  (spec_sends now retain event good),
              internal_send-IsOpen now retain event s o,
            )
    ]

pub keep_alive-IsRefined :
    (now retain : ℕ) (s : System)
    → IsOpen s
    → IsRefined
        (alive_label now retain)
        s
        (with_manager s (internal_send now retain keep_alive_event s.manager))
keep_alive-IsRefined now retain s o = (
  subst (SpecStep (alive_label now retain) (view s.manager))
      (sym (view-internal_send now retain keep_alive_event s.manager o.well_formed))
      (spec_keeps_alive now retain),
  internal_send-IsOpen now retain keep_alive_event s o,
)

-- An interruption either changed nothing, of an index that is not in use or interrupted already, or it
-- put the mark into the queue of the index.
interrupt-cases :
    (id : ℕ) (m : EventsManager)
    → (((is_some (lookup id m.queues) && not (is_some (interrupted_at id m))) ≡ false)
        × ((interrupt id m).1 ≡ m))
      ⊎ ((ref : ℕ) × (lookup id m.queues ≡ some ref)
          × (interrupted_at id m ≡ none)
          × ((interrupt id m).1 ≡ record m { objects = put ref interrupt_mark m.objects }))
unfolding interrupt get_queue
interrupt-cases id m = elim (Option-cases (lookup id m.queues)) [
  | inl unknown ↦ inl (ground (arith, unknown), ground (arith, unknown))
  | inr (ref, known) ↦ elim (Option-cases (interrupted_at id m)) [
    | inr (t, stopped) ↦ inl (ground (arith, known, stopped), ground (arith, known, stopped))
    | inl runs ↦ inr (ref, known, runs, ground (arith, known, runs))
  ]
]

pub interrupt-IsRefined :
    (id : ℕ) (s : System)
    → IsOpen s
    → IsRefined (interrupt_label id) s (with_manager s (interrupt id s.manager).1)
interrupt-IsRefined id s o =
    let label = interrupt_label id in
    elim (interrupt-cases id s.manager) [
      | inl (bad, same) ↦
          subst (λ (m : EventsManager). IsRefined label s (with_manager s m)) (sym same)
            (spec_refuses_interrupt id (ground (arith, bad)), o)
      | inr (ref, known, runs, changed) ↦
          subst (λ (m : EventsManager). IsRefined label s (with_manager s m)) (sym changed)
            (
              subst (SpecStep label (view s.manager))
                  (sym (view-put id ref interrupt_mark s.manager o.well_formed known))
                  (spec_interrupts id (ground (arith, known)) runs),
              kept-IsOpen s.manager (put ref interrupt_mark s.manager.objects)
                  s.manager.interrupt_times s.listeners o.well_formed.times_once o,
            )
    ]

pub check_names-are_names : (names : List String) → is_ok (check_names names) ≡ are_names names
unfolding check_names
check_names-are_names [] = refl
check_names-are_names (name ∷ rest) = ground (arith, check_names-are_names rest)
