-- ===== src/Events/Manager/Mailboxes/Queues.antt =====
-- src/grpc_helper/events/events_manager.py: what listeners, new queues and the shutdown do to the
-- mailboxes.
use grpc_helper.Base.{
  ℕ, ◌<◌, false, some, List, [], ◌∷◌, All, contains, arith, ◌≡◌, refl, inl, inr, Option-cases,
}
use grpc_helper.Base.{nat_eq}
use grpc_helper.Base.Dict.{Dict, lookup, insert, values, lookup-insert}
use grpc_helper.Events.Manager.{
  Entry, shutdown_mark, EventsManager, put, put_all, shutdown, interrupted_at,
}
use grpc_helper.Events.Manager.Mailboxes.{post, spec_set, spec_shutdown}
use grpc_helper.Events.Manager.Sending.{
  entries, DistinctRefs, IsWellFormed, lookup-contains, entries-put,
}
use grpc_helper.Events.Manager.Mailboxes.Views.{view, mailboxes_ext, same_index}

-- A listener takes entries from the queue of its index.
set_box :
    (index ref : ℕ) (rest : List Entry) (m : EventsManager)
    → IsWellFormed m
    → lookup index m.queues ≡ some ref
    → (i : ℕ)
    → (view (record m { objects = insert ref rest m.objects })).box i
      ≡ (spec_set index rest (view m)).box i
set_box index ref rest m w known i = elim (Option-cases (lookup i m.queues)) [
  | inl unknown ↦ ground (arith, unknown, known)
  | inr (r, found) ↦ ground (
    arith,
    found,
    known,
    lookup-insert r ref rest m.objects,
    same_index i index ref m.queues w.own,
  )
]

pub view-set :
    (index ref : ℕ) (rest : List Entry) (m : EventsManager)
    → IsWellFormed m
    → lookup index m.queues ≡ some ref
    → view (record m { objects = insert ref rest m.objects }) ≡ spec_set index rest (view m)
unfolding interrupted_at
view-set index ref rest m w known =
    mailboxes_ext (view (record m { objects = insert ref rest m.objects }))
      (spec_set index rest (view m)) (set_box index ref rest m w known) (λ i. refl)

stray_box :
    (ref : ℕ) (rest : List Entry) (m : EventsManager)
    → ((i : ℕ) → ¬ (lookup i m.queues ≡ some ref))
    → (i : ℕ) → (view (record m { objects = insert ref rest m.objects })).box i ≡ (view m).box i
stray_box ref rest m nobody i = elim (Option-cases (lookup i m.queues)) [
  | inl unknown ↦ ground (arith, unknown)
  | inr (r, found) ↦ ground (arith, found, nobody i, lookup-insert r ref rest m.objects)
]

-- A queue that no index has is in no mailbox.
pub view-stray :
    (ref : ℕ) (rest : List Entry) (m : EventsManager)
    → ((i : ℕ) → ¬ (lookup i m.queues ≡ some ref))
    → view (record m { objects = insert ref rest m.objects }) ≡ view m
unfolding interrupted_at
view-stray ref rest m nobody =
    mailboxes_ext (view (record m { objects = insert ref rest m.objects })) (view m)
      (λ i. stray_box ref rest m nobody i) (λ i. refl)

pub made_lt :
    (i r next : ℕ) (queues : Dict ℕ ℕ)
    → All (λ ref. ref < next) (values queues)
    → lookup i queues ≡ some r
    → r < next
unfolding lookup
made_lt i r next [] made found = cc
made_lt i r next ((k, s) ∷ queues) (head, made) found =
    ground (arith, head, made_lt i r next queues made)

-- A new queue for an index.
pub view-open :
    (index : ℕ) (m opened : EventsManager)
    → IsWellFormed m
    → opened.queues ≡ insert index m.next_object m.queues
    → opened.objects ≡ insert m.next_object [] m.objects
    → opened.interrupt_times ≡ m.interrupt_times
    → view opened ≡ spec_set index [] (view m)
unfolding interrupted_at
view-open index m opened w queues objects times =
    mailboxes_ext (view opened) (spec_set index [] (view m))
      (λ i. elim (Option-cases (lookup i m.queues)) [
        | inl unknown ↦ ground (
          arith,
          unknown,
          queues,
          objects,
          lookup-insert i index m.next_object m.queues,
          lookup-insert m.next_object m.next_object [] m.objects,
        )
        | inr (r, found) ↦ ground (
          arith,
          found,
          queues,
          objects,
          lookup-insert i index m.next_object m.queues,
          lookup-insert m.next_object m.next_object [] m.objects,
          lookup-insert r m.next_object [] m.objects,
          made_lt i r m.next_object m.queues w.made found,
        )
      ])
      (λ i. ground (arith, times))

put_all-other :
    (entry : Entry) (ref : ℕ) (queues : Dict ℕ ℕ) (objects : Dict ℕ (List Entry))
    → contains (values queues) ref ≡ false
    → entries ref (put_all entry queues objects) ≡ entries ref objects
unfolding put_all
put_all-other entry ref [] objects alone = refl
put_all-other entry ref ((k, r) ∷ queues) objects alone = ground (
  arith,
  alone,
  put_all-other entry ref queues (put r entry objects),
  entries-put ref r entry objects,
)

entries-put_all :
    (entry : Entry) (i ref : ℕ) (queues : Dict ℕ ℕ) (objects : Dict ℕ (List Entry))
    → DistinctRefs queues
    → lookup i queues ≡ some ref
    → entries ref (put_all entry queues objects) ≡ post entry (entries ref objects)
unfolding put_all lookup
entries-put_all entry i ref [] objects own known = cc
entries-put_all entry i ref ((k, r) ∷ queues) objects (alone, own) known = ground (
  arith,
  known,
  alone,
  entries-put_all entry i ref queues (put r entry objects) own,
  put_all-other entry ref queues (put r entry objects),
  entries-put ref r entry objects,
  lookup-contains i ref queues,
)

-- An entry for the queue of each index.
pub view-shutdown :
    (m : EventsManager) → IsWellFormed m → view (shutdown m) ≡ spec_shutdown (view m)
unfolding interrupted_at shutdown
view-shutdown m w =
    mailboxes_ext (view (shutdown m)) (spec_shutdown (view m))
      (λ i. elim (Option-cases (lookup i m.queues)) [
        | inl unknown ↦ ground (arith, unknown)
        | inr (ref, found) ↦
            ground
              (arith, found, entries-put_all shutdown_mark i ref m.queues m.objects w.own found)
      ])
      (λ i. refl)
