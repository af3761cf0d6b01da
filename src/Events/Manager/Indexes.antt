-- ===== src/Events/Manager/Indexes.antt =====
-- src/grpc_helper/events/events_manager.py: the index that `listen` gives a new queue.
use grpc_helper.Base.{
  ℕ, zero, suc, ◌+◌, ◌≤◌, ◌<◌, true, false, [], ◌∷◌, leb, length, if◌then◌else◌, arith, ◌≡◌,
  Bool-cases, inl, inr,
}
use grpc_helper.Base.{nat_eq}
use grpc_helper.Base.Dict.{Dict, has, lookup}
use grpc_helper.Events.Manager.{search_index, free_index}

-- How many indexes are at least `i`.
unfoldable count_from : ℕ → Dict ℕ ℕ → ℕ
count_from i [] = 0
count_from i ((k, ref) ∷ queues) =
    let rest = count_from i queues in if leb i k then suc rest else rest

count_from-length : (i : ℕ) (queues : Dict ℕ ℕ) → count_from i queues ≤ length queues
unfolding count_from
count_from-length i [] = ground arith
count_from-length i ((k, ref) ∷ queues) = ground (arith, count_from-length i queues)

count_from_next : (i : ℕ) (queues : Dict ℕ ℕ) → count_from (i + 1) queues ≤ count_from i queues
unfolding count_from
count_from_next i [] = ground arith
count_from_next i ((k, ref) ∷ queues) = ground (arith, count_from_next i queues)

count_from-has :
    (i : ℕ) (queues : Dict ℕ ℕ)
    → has i queues ≡ true
    → count_from (i + 1) queues < count_from i queues
unfolding count_from lookup
count_from-has i [] h = cc
count_from-has i ((k, ref) ∷ queues) h =
    ground (arith, count_from-has i queues, count_from_next i queues)

-- What is asked of an index: it is free, and all from `i` up to it are taken.
abbrev pub IsFirstFree : ℕ → Dict ℕ ℕ → ℕ → Type 0
IsFirstFree i queues index =
    (has index queues ≡ false) × (i ≤ index) × ((j : ℕ) → i ≤ j → j < index → has j queues ≡ true)

search_index-IsFirstFree :
    (fuel i : ℕ) (queues : Dict ℕ ℕ)
    → count_from i queues < fuel
    → IsFirstFree i queues (search_index fuel i queues)
unfolding search_index
search_index-IsFirstFree zero i queues enough = ground arith
search_index-IsFirstFree (suc fuel) i queues enough = elim (Bool-cases (has i queues)) [
  | inl taken ↦
      let (free, above, below) =
        search_index-IsFirstFree fuel (i + 1) queues (ground (arith, count_from-has i queues)) in
      ground (arith, free, above, below, taken)
  | inr free ↦ ground (arith, free)
]

-- For all queues, the search for the index of a new queue ends at an index that no queue has, that
-- is at least 1, and that is the least such index: all from 1 up to it are taken.
pub free_index-IsFirstFree : (queues : Dict ℕ ℕ) → IsFirstFree 1 queues (free_index queues)
unfolding free_index
free_index-IsFirstFree queues =
    search_index-IsFirstFree (suc (length queues)) 1 queues
      (ground (arith, count_from-length 1 queues))
