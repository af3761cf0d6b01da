-- ===== src/Events/Manager/Mailboxes/Views.antt =====
-- src/grpc_helper/events/events_manager.py: the mailboxes that the state of the manager stands for, and
-- what sending and entries do to them.
use grpc_helper.Base.{
  ℕ, Option, some, [], ◌∷◌, map_option, arith, ◌≡◌, refl, inl, inr, Bool-cases, Option-cases,
}
use grpc_helper.Base.{nat_eq}
use grpc_helper.Base.Dict.{Dict, lookup, insert, lookup-insert}
use grpc_helper.Events.Manager.{
  Event, Entry, EventsManager, put, interrupted_at, is_expired, internal_send,
}
use grpc_helper.Events.Manager.Mailboxes.{Mailboxes, is_over, spec_send, spec_post, spec_stop}
use grpc_helper.Events.Manager.Sending.{
  entries, DistinctRefs, IsWellFormed, lookup-contains, entries-put, lookup-erase_all,
  contains-deliver, delivered, internal_send-interrupt_times, internal_send-IsSent,
}

-- The mailbox of an index holds the entries of its queue.
abbrev pub view : EventsManager → Mailboxes
view m = record {
  box = λ i. map_option (λ ref. entries ref m.objects) (lookup i m.queues);
  stopped = λ i. interrupted_at i m;
}

-- Mailboxes that agree at each index are the same.
pub mailboxes_ext :
    (a b : Mailboxes)
    → ((i : ℕ) → a.box i ≡ b.box i)
    → ((i : ℕ) → a.stopped i ≡ b.stopped i)
    → a ≡ b
mailboxes_ext a b box stopped = λ k. record { box = λ i. box i k; stopped = λ i. stopped i k }

-- Two indexes with the same queue are the same index.
pub same_index :
    (i j ref : ℕ) (queues : Dict ℕ ℕ)
    → DistinctRefs queues
    → lookup i queues ≡ some ref
    → lookup j queues ≡ some ref
    → i ≡ j
unfolding lookup
same_index i j ref [] own hi hj = cc
same_index i j ref ((k, r) ∷ queues) (alone, own) hi hj = ground (
  arith,
  same_index i j ref queues own,
  lookup-contains i ref queues,
  lookup-contains j ref queues,
  alone,
  hi,
  hj,
)

is_expired-is_over :
    (now retain i : ℕ) (m : EventsManager)
    → is_expired now retain m i ≡ is_over now retain (interrupted_at i m)
unfolding is_expired
is_expired-is_over now retain i m = ground arith

module _ (now retain : ℕ) (event : Event) (m : EventsManager) where
  sent_box :
      IsWellFormed m
      → (i : ℕ)
      → (view (internal_send now retain event m)).box i
        ≡ (spec_send now retain event (view m)).box i
  sent_box w i =
      let sent = internal_send-IsSent now retain event m w in
      let over = is_expired-is_over now retain i m in
      elim (Option-cases (lookup i m.queues)) [
        | inl unknown ↦ ground (arith, unknown, sent.none_new i unknown)
        | inr (ref, known) ↦ elim (Bool-cases (is_expired now retain m i)) [
          | inl gone ↦
              let (queue, _, _) = sent.goes i ref known gone in
              ground (arith, known, gone, over, queue)
          | inr live ↦
              let (queue, content, _) = sent.stays i ref known live in
              ground (arith, known, live, over, queue, content)
        ]
      ]

  sent_stopped :
      (i : ℕ)
      → (view (internal_send now retain event m)).stopped i
        ≡ (spec_send now retain event (view m)).stopped i
  unfolding interrupted_at delivered
  sent_stopped i = ground (
    arith,
    is_expired-is_over now retain i m,
    internal_send-interrupt_times now retain event m,
    lookup-erase_all i (delivered now retain event m).0 m.interrupt_times,
    contains-deliver (is_expired now retain m) event i m.queues m.objects,
  )

  pub view-internal_send :
      IsWellFormed m → view (internal_send now retain event m) ≡ spec_send now retain event (view m)
  view-internal_send w =
      mailboxes_ext (view (internal_send now retain event m)) (spec_send now retain event (view m))
        (sent_box w) sent_stopped

-- An entry is put into the queue of an index: the other indexes have other queues.
put_box :
    (index ref : ℕ) (entry : Entry) (m : EventsManager)
    → IsWellFormed m
    → lookup index m.queues ≡ some ref
    → (i : ℕ)
    → (view (record m { objects = put ref entry m.objects })).box i
      ≡ (spec_post index entry (view m)).box i
put_box index ref entry m w known i = elim (Option-cases (lookup i m.queues)) [
  | inl unknown ↦ ground (arith, unknown, known)
  | inr (r, found) ↦ ground (
    arith,
    found,
    known,
    entries-put r ref entry m.objects,
    same_index i index ref m.queues w.own,
  )
]

pub view-put :
    (index ref : ℕ) (entry : Entry) (m : EventsManager)
    → IsWellFormed m
    → lookup index m.queues ≡ some ref
    → view (record m { objects = put ref entry m.objects }) ≡ spec_post index entry (view m)
unfolding interrupted_at
view-put index ref entry m w known =
    mailboxes_ext (view (record m { objects = put ref entry m.objects }))
      (spec_post index entry (view m)) (put_box index ref entry m w known) (λ i. refl)

pub view-times :
    (index : ℕ) (time : Option ℕ) (m : EventsManager)
    → view (record m { interrupt_times = insert index time m.interrupt_times })
      ≡ spec_stop index time (view m)
unfolding interrupted_at
view-times index time m =
    mailboxes_ext (view (record m { interrupt_times = insert index time m.interrupt_times }))
      (spec_stop index time (view m)) (λ i. refl)
      (λ i. ground (arith, lookup-insert i index time m.interrupt_times))
