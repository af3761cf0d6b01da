-- ===== src/Events/Manager/Mailboxes/Listens.antt =====
-- src/grpc_helper/events/events_manager.py: a request to listen is a step of the mailboxes.
use grpc_helper.Base.{
  ℕ, ◌<◌, true, false, not, ◌&&◌, ◌||◌, ltb, none, some, ◌∷◌, is_some, arith, ◌≡◌, ◌⊎◌, inl, inr,
  refl, sym, subst, absent,
}
use grpc_helper.Base.{nat_eq, string_eq}
use grpc_helper.Base.Dict.{lookup, insert, insert-NodupKeys}
use grpc_helper.Errors.{Exception, ok, raised}
use grpc_helper.Events.Manager.{
  EventFilter, EventsManager, Listener, listen, get_queue, free_index, open_queue, persist_queues,
}
use grpc_helper.Events.Manager.Indexes.{free_index-IsFirstFree}
use grpc_helper.Events.Manager.Mailboxes.{
  are_names, listen_label, SpecStep, spec_refuses_listen, spec_resumes, spec_opens,
}
use grpc_helper.Events.Manager.Mailboxes.Listeners.{System, IsOpen, kept-IsOpen, opened-Holds}
use grpc_helper.Events.Manager.Mailboxes.Queues.{view-open, made_lt}
use grpc_helper.Events.Manager.Mailboxes.Views.{view, view-times}
use grpc_helper.Events.Manager.Queues.{open-IsWellFormed}
use grpc_helper.Events.Manager.Mailboxes.Requests.{IsRefined, with_manager, check_names-are_names}

-- A listener that was made has its old queue back, or a new one.
listen-cases :
    (request : EventFilter) (l : Listener) (m : EventsManager)
    → (listen request m).0 ≡ ok l
    → (are_names request.names ≡ true)
      × (((0 < request.client_id)
            × (l ≡ record { index = request.client_id; queue = l.queue })
            × (lookup request.client_id m.queues ≡ some l.queue)
            × ((listen request m).1
                ≡ record m { interrupt_times = insert request.client_id none m.interrupt_times }))
          ⊎ ((request.client_id ≡ 0)
              × (l ≡ record { index = free_index m.queues; queue = m.next_object })
              × ((listen request m).1 ≡ open_queue (free_index m.queues) m)))
unfolding listen get_queue
listen-cases request l m made = ground (arith, made, check_names-are_names request.names)

listen-refused :
    (request : EventFilter) (e : Exception) (m : EventsManager)
    → (listen request m).0 ≡ raised e
    → ((listen request m).1 ≡ m)
      × ((are_names request.names
            && (is_some (lookup request.client_id m.queues) || not (ltb 0 request.client_id)))
          ≡ false)
unfolding listen get_queue
listen-refused request e m failed = ground (arith, failed, check_names-are_names request.names)

pub refuse-IsRefined :
    (request : EventFilter) (e : Exception) (s : System)
    → (listen request s.manager).0 ≡ raised e
    → IsOpen s
    → IsRefined (listen_label request) s (with_manager s (listen request s.manager).1)
refuse-IsRefined request e s failed o =
    let (same, bad) = listen-refused request e s.manager failed in
    subst (λ (m : EventsManager). IsRefined (listen_label request) s (with_manager s m)) (sym same)
      (spec_refuses_listen request (ground (arith, bad)), o)

resume-IsRefined :
    (request : EventFilter) (ref : ℕ) (s : System)
    → are_names request.names ≡ true
    → 0 < request.client_id
    → lookup request.client_id s.manager.queues ≡ some ref
    → IsOpen s
    → IsRefined (listen_label request) s (record {
      manager = record s.manager {
        interrupt_times = insert request.client_id none s.manager.interrupt_times;
      };
      listeners = record { index = request.client_id; queue = ref } ∷ s.listeners;
    })
resume-IsRefined request ref s named positive known o =
    let m = s.manager in
    let times = insert request.client_id none m.interrupt_times in
    let kept =
      kept-IsOpen m m.objects times s.listeners
        (insert-NodupKeys request.client_id none m.interrupt_times o.well_formed.times_once) o in
    let made = made_lt request.client_id ref m.next_object m.queues o.well_formed.made known in
    (
      subst (SpecStep (listen_label request) (view m)) (sym (view-times request.client_id none m))
          (spec_resumes request named (ground (arith, known)) positive),
      record { well_formed = kept.well_formed; holds = ((made, inl known), kept.holds) },
    )

open-IsRefined :
    (request : EventFilter) (s : System)
    → are_names request.names ≡ true
    → request.client_id ≡ 0
    → IsOpen s
    → IsRefined (listen_label request) s (record {
      manager = open_queue (free_index s.manager.queues) s.manager;
      listeners =
          record { index = free_index s.manager.queues; queue = s.manager.next_object }
          ∷ s.listeners;
    })
unfolding open_queue persist_queues
open-IsRefined request s named anew o =
    let m = s.manager in
    let index = free_index m.queues in
    let (free, least, below) = free_index-IsFirstFree m.queues in
    let unused : lookup index m.queues ≡ none = absent (lookup index m.queues) free in
    (
      subst (SpecStep (listen_label request) (view m))
          (sym (view-open index m (open_queue index m) o.well_formed refl refl refl))
          (spec_opens request index named anew (ground (arith, unused)) least
            (λ j from before. ground (arith, below j from before))),
      record {
        well_formed =
            open-IsWellFormed index m (open_queue index m) o.well_formed refl refl
              o.well_formed.times_once;
        holds = opened-Holds index s unused o;
      },
    )

pub listen-IsRefined :
    (request : EventFilter) (l : Listener) (s : System)
    → (listen request s.manager).0 ≡ ok l
    → IsOpen s
    → IsRefined
        (listen_label request)
        s
        (record { manager = (listen request s.manager).1; listeners = l ∷ s.listeners })
listen-IsRefined request l s made o =
    let label = listen_label request in
    let (named, cases) = listen-cases request l s.manager made in
    elim cases [
      | inl (positive, same, known, changed) ↦
          subst
            (λ (m : EventsManager).
              IsRefined label s (record { manager = m; listeners = l ∷ s.listeners }))
            (sym changed)
            (subst
              (λ (made : Listener). IsRefined label s (record {
                manager = record s.manager {
                  interrupt_times = insert request.client_id none s.manager.interrupt_times;
                };
                listeners = made ∷ s.listeners;
              }))
              (sym same) (resume-IsRefined request l.queue s named positive known o))
      | inr (anew, same, changed) ↦
          subst
            (λ (m : EventsManager).
              IsRefined label s (record { manager = m; listeners = l ∷ s.listeners }))
            (sym changed)
            (subst
              (λ (made : Listener). IsRefined label s (record {
                manager = open_queue (free_index s.manager.queues) s.manager;
                listeners = made ∷ s.listeners;
              }))
              (sym same) (open-IsRefined request s named anew o))
    ]
