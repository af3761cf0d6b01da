-- ===== src/Events/Manager/Sending.antt =====
-- src/grpc_helper/events/events_manager.py: what `__internal_send` does to each queue.
use grpc_helper.Base.{
  ℕ, ◌<◌, Bool, true, false, ◌&&◌, none, some, List, [], ◌∷◌, ◌++◌, value_or, if◌then◌else◌, All,
  arith, ◌≡◌, refl, ◌==◌, contains,
}
use grpc_helper.Base.{nat_eq}
use grpc_helper.Base.Dict.{
  Dict, lookup, erase, has, values, NodupKeys, lookup-insert, lookup-erase, erase-NodupKeys,
}
use grpc_helper.Events.Manager.{
  Event, Entry, event_entry, EventsManager, put, deliver, erase_all, is_expired, internal_send,
  persist_queues,
}

-- The entries of a queue, the first that is read at the head.
abbrev pub entries : ℕ → Dict ℕ (List Entry) → List Entry
entries ref objects = value_or [] (lookup ref objects)

-- Two indexes never share a queue.
abbrev pub DistinctRefs : Dict ℕ ℕ → Type 0
DistinctRefs [] = Unit
DistinctRefs ((index, ref) ∷ queues) = (contains (values queues) ref ≡ false) × DistinctRefs queues

-- Each index has a queue of its own, and all were made.
pub record IsWellFormed (m : EventsManager) : Type 0 where
  pub once : NodupKeys m.queues
  pub own : DistinctRefs m.queues
  pub made : All (λ ref. ref < m.next_object) (values m.queues)
  pub times_once : NodupKeys m.interrupt_times

pub entries-put :
    (r ref : ℕ) (entry : Entry) (objects : Dict ℕ (List Entry))
    → entries r (put ref entry objects)
      ≡ (if r == ref then entries r objects ++ (entry ∷ []) else entries r objects)
unfolding put
entries-put r ref entry objects =
    ground (arith, lookup-insert r ref (entries ref objects ++ (entry ∷ [])) objects)

pub lookup-contains :
    (index ref : ℕ) (queues : Dict ℕ ℕ)
    → lookup index queues ≡ some ref
    → contains (values queues) ref ≡ true
unfolding lookup
lookup-contains index ref [] h = cc
lookup-contains index ref ((k, r) ∷ queues) h = ground (arith, lookup-contains index ref queues)

module _ (expired : ℕ → Bool) (event : Event) where
  -- A queue that none of the indexes has is left as it is.
  deliver_other :
      (ref : ℕ) (queues : Dict ℕ ℕ) (objects : Dict ℕ (List Entry))
      → contains (values queues) ref ≡ false
      → entries ref (deliver expired event queues objects).1 ≡ entries ref objects
  unfolding deliver
  deliver_other ref [] objects h = refl
  deliver_other ref ((k, r) ∷ queues) objects h = ground (
    arith,
    deliver_other ref queues objects,
    deliver_other ref queues (put r (event_entry event) objects),
    entries-put ref r (event_entry event) objects,
  )

  -- The queue of an index gets the event last, unless it is expired.
  pub entries-deliver :
      (index ref : ℕ) (queues : Dict ℕ ℕ) (objects : Dict ℕ (List Entry))
      → DistinctRefs queues
      → lookup index queues ≡ some ref
      → entries ref (deliver expired event queues objects).1 ≡ (
          if expired index
          then entries ref objects
          else entries ref objects ++ (event_entry event ∷ []))
  unfolding deliver lookup
  entries-deliver index ref [] objects own h = cc
  entries-deliver index ref ((k, r) ∷ queues) objects (alone, own) h = ground (
    arith,
    entries-deliver index ref queues objects own,
    entries-deliver index ref queues (put r (event_entry event) objects) own,
    deliver_other ref queues objects,
    deliver_other ref queues (put r (event_entry event) objects),
    entries-put ref r (event_entry event) objects,
    lookup-contains index ref queues,
  )

  -- The indexes to delete are the expired ones.
  pub contains-deliver :
      (index : ℕ) (queues : Dict ℕ ℕ) (objects : Dict ℕ (List Entry))
      → contains (deliver expired event queues objects).0 index
        ≡ (has index queues && expired index)
  unfolding deliver lookup
  contains-deliver index [] objects = refl
  contains-deliver index ((k, r) ∷ queues) objects = ground (
    arith,
    contains-deliver index queues objects,
    contains-deliver index queues (put r (event_entry event) objects),
  )

pub lookup-erase_all {ℓ} :
    {V : Type ℓ} (index : ℕ) (indexes : List ℕ) (d : Dict ℕ V)
    → lookup index (erase_all indexes d) ≡ (if contains indexes index then none else lookup index d)
unfolding erase_all
lookup-erase_all index [] d = refl
lookup-erase_all index (k ∷ indexes) d =
    ground (arith, lookup-erase_all index indexes (erase k d), lookup-erase index k d)

pub erase_all-NodupKeys {ℓ} :
    {V : Type ℓ} (indexes : List ℕ) (d : Dict ℕ V) → NodupKeys d → NodupKeys (erase_all indexes d)
unfolding erase_all
erase_all-NodupKeys [] d u = u
erase_all-NodupKeys (k ∷ indexes) d u =
    erase_all-NodupKeys indexes (erase k d) (erase-NodupKeys k d u)

module _ (now retain : ℕ) (event : Event) (m : EventsManager) where
  unfoldable pub delivered : List ℕ × Dict ℕ (List Entry)
  delivered = deliver (is_expired now retain m) event m.queues m.objects

  pub internal_send-queues :
      (internal_send now retain event m).queues ≡ erase_all delivered.0 m.queues
  unfolding internal_send delivered persist_queues erase_all
  internal_send-queues = ground arith

  pub internal_send-interrupt_times :
      (internal_send now retain event m).interrupt_times ≡ erase_all delivered.0 m.interrupt_times
  unfolding internal_send delivered persist_queues erase_all
  internal_send-interrupt_times = ground arith

  pub internal_send-objects : (internal_send now retain event m).objects ≡ delivered.1
  unfolding internal_send delivered persist_queues erase_all
  internal_send-objects = ground arith

  pub internal_send-next_object : (internal_send now retain event m).next_object ≡ m.next_object
  unfolding internal_send persist_queues
  internal_send-next_object = ground arith

-- What sending an event does to the queue of each index. An expired index is gone, with the time of
-- its interruption; every other one keeps its queue, in which the event now stands last; and no
-- index is new.
pub record IsSent (now retain : ℕ) (event : Event) (m sent : EventsManager) : Type 0 where
  pub stays :
      (index ref : ℕ)
      → lookup index m.queues ≡ some ref
      → is_expired now retain m index ≡ false
      → (lookup index sent.queues ≡ some ref)
        × (entries ref sent.objects ≡ entries ref m.objects ++ (event_entry event ∷ []))
        × (lookup index sent.interrupt_times ≡ lookup index m.interrupt_times)
  pub goes :
      (index ref : ℕ)
      → lookup index m.queues ≡ some ref
      → is_expired now retain m index ≡ true
      → (lookup index sent.queues ≡ none)
        × (lookup index sent.interrupt_times ≡ none)
        × (entries ref sent.objects ≡ entries ref m.objects)
  pub none_new : (index : ℕ) → lookup index m.queues ≡ none → lookup index sent.queues ≡ none

-- In a manager with the invariant, sending an event appends it to each queue whose index is not
-- expired, deletes the expired indexes, and adds none.
pub internal_send-IsSent :
    (now retain : ℕ) (event : Event) (m : EventsManager)
    → IsWellFormed m
    → IsSent now retain event m (internal_send now retain event m)
unfolding delivered
internal_send-IsSent now retain event m w =
    let expired = is_expired now retain m in
    let queue_after =
      λ (index : ℕ). lookup-erase_all index (delivered now retain event m).0 m.queues in
    let time_after =
      λ (index : ℕ). lookup-erase_all index (delivered now retain event m).0 m.interrupt_times in
    let deleted = λ (index : ℕ). contains-deliver expired event index m.queues m.objects in
    rw
      (
        internal_send-queues now retain event m,
        internal_send-interrupt_times now retain event m,
        internal_send-objects now retain event m,
      )
      (record {
        stays = λ index ref known live. ground (
          arith,
          queue_after index,
          time_after index,
          deleted index,
          entries-deliver expired event index ref m.queues m.objects w.own known,
        );
        goes = λ index ref known over. ground (
          arith,
          queue_after index,
          time_after index,
          deleted index,
          entries-deliver expired event index ref m.queues m.objects w.own known,
        );
        none_new = λ index unknown. ground (arith, queue_after index, deleted index);
      })
