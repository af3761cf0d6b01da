-- ===== src/Events/Manager/Queues.antt =====
-- src/grpc_helper/events/events_manager.py: the invariant of the queues.
use grpc_helper.Base.{
  ℕ, ◌+◌, ◌<◌, false, List, [], ◌∷◌, All, arith, ◌≡◌, refl, contains, sym, subst, ◌==◌,
}
use grpc_helper.Base.{nat_eq}
use grpc_helper.Base.Dict.{Dict, insert, erase, values, NodupKeys, insert-NodupKeys}
use grpc_helper.Events.Manager.{Event, EventsManager, erase_all, internal_send}
use grpc_helper.Events.Manager.Sending.{
  DistinctRefs, IsWellFormed, erase_all-NodupKeys, delivered, internal_send-queues,
  internal_send-interrupt_times, internal_send-next_object,
}

contains-values-insert :
    (index ref r : ℕ) (queues : Dict ℕ ℕ)
    → contains (values queues) r ≡ false
    → (r == ref) ≡ false
    → contains (values (insert index ref queues)) r ≡ false
unfolding insert
contains-values-insert index ref r [] h other = ground arith
contains-values-insert index ref r ((k, s) ∷ queues) h other =
    ground (arith, contains-values-insert index ref r queues)

contains-values-erase :
    (index r : ℕ) (queues : Dict ℕ ℕ)
    → contains (values queues) r ≡ false
    → contains (values (erase index queues)) r ≡ false
unfolding erase
contains-values-erase index r [] h = refl
contains-values-erase index r ((k, s) ∷ queues) h =
    ground (arith, contains-values-erase index r queues)

insert-DistinctRefs :
    (index ref : ℕ) (queues : Dict ℕ ℕ)
    → contains (values queues) ref ≡ false
    → DistinctRefs queues
    → DistinctRefs (insert index ref queues)
unfolding insert
insert-DistinctRefs index ref [] alone own = (refl, tt)
insert-DistinctRefs index ref ((k, s) ∷ queues) alone (head, own) =
    ground (arith, insert-DistinctRefs index ref queues, contains-values-insert index ref s queues)

erase-DistinctRefs :
    (index : ℕ) (queues : Dict ℕ ℕ) → DistinctRefs queues → DistinctRefs (erase index queues)
unfolding erase
erase-DistinctRefs index [] own = tt
erase-DistinctRefs index ((k, s) ∷ queues) (head, own) =
    ground (arith, erase-DistinctRefs index queues own, contains-values-erase index s queues head)

abbrev pub AllMade : ℕ → Dict ℕ ℕ → Type 0
AllMade next queues = All (λ ref. ref < next) (values queues)

AllMade-later : (next : ℕ) (queues : Dict ℕ ℕ) → AllMade next queues → AllMade (next + 1) queues
AllMade-later next [] made = tt
AllMade-later next ((k, s) ∷ queues) (head, made) = (omega arith, AllMade-later next queues made)

insert-AllMade :
    (index next : ℕ) (queues : Dict ℕ ℕ)
    → AllMade next queues
    → AllMade (next + 1) (insert index next queues)
unfolding insert
insert-AllMade index next [] made = (omega arith, tt)
insert-AllMade index next ((k, s) ∷ queues) (head, made) =
    ground (arith, insert-AllMade index next queues made, AllMade-later next queues made)

erase-AllMade :
    (index next : ℕ) (queues : Dict ℕ ℕ) → AllMade next queues → AllMade next (erase index queues)
unfolding erase
erase-AllMade index next [] made = tt
erase-AllMade index next ((k, s) ∷ queues) (head, made) =
    ground (arith, erase-AllMade index next queues made)

erase_all-DistinctRefs :
    (indexes : List ℕ) (queues : Dict ℕ ℕ)
    → DistinctRefs queues
    → DistinctRefs (erase_all indexes queues)
unfolding erase_all
erase_all-DistinctRefs [] queues own = own
erase_all-DistinctRefs (k ∷ indexes) queues own =
    erase_all-DistinctRefs indexes (erase k queues) (erase-DistinctRefs k queues own)

erase_all-AllMade :
    (next : ℕ) (indexes : List ℕ) (queues : Dict ℕ ℕ)
    → AllMade next queues
    → AllMade next (erase_all indexes queues)
unfolding erase_all
erase_all-AllMade next [] queues made = made
erase_all-AllMade next (k ∷ indexes) queues made =
    erase_all-AllMade next indexes (erase k queues) (erase-AllMade k next queues made)

-- A reference that is still to be made belongs to no index.
made_alone :
    (next : ℕ) (queues : Dict ℕ ℕ) → AllMade next queues → contains (values queues) next ≡ false
made_alone next [] made = refl
made_alone next ((k, s) ∷ queues) (head, made) = ground (arith, made_alone next queues made)

-- A manager with the invariant keeps it when an index gets a new queue.
pub open-IsWellFormed :
    (index : ℕ) (m opened : EventsManager)
    → IsWellFormed m
    → opened.queues ≡ insert index m.next_object m.queues
    → opened.next_object ≡ m.next_object + 1
    → NodupKeys opened.interrupt_times
    → IsWellFormed opened
open-IsWellFormed index m opened w queues next times = record {
  once =
      subst (λ (d : Dict ℕ ℕ). NodupKeys d) (sym queues)
        (insert-NodupKeys index m.next_object m.queues w.once);
  own =
      subst (λ (d : Dict ℕ ℕ). DistinctRefs d) (sym queues)
        (insert-DistinctRefs index m.next_object m.queues (made_alone m.next_object m.queues w.made)
          w.own);
  made = rw (queues, next) (insert-AllMade index m.next_object m.queues w.made);
  times_once = times;
}

pub internal_send-IsWellFormed :
    (now retain : ℕ) (event : Event) (m : EventsManager)
    → IsWellFormed m
    → IsWellFormed (internal_send now retain event m)
internal_send-IsWellFormed now retain event m w =
    let gone = (delivered now retain event m).0 in
    record {
      once =
          rw (internal_send-queues now retain event m) (erase_all-NodupKeys gone m.queues w.once);
      own =
          rw (internal_send-queues now retain event m) (erase_all-DistinctRefs gone m.queues w.own);
      made =
          rw (internal_send-queues now retain event m, internal_send-next_object now retain event m)
            (erase_all-AllMade m.next_object gone m.queues w.made);
      times_once =
          rw (internal_send-interrupt_times now retain event m)
            (erase_all-NodupKeys gone m.interrupt_times w.times_once);
    }
