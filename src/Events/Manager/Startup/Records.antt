-- ===== src/Events/Manager/Startup/Records.antt =====
-- src/grpc_helper/events/events_manager.py: the file of the queues' indexes is read back as it was
-- written, and the queues are made again from it.
use grpc_helper.Base.{
  ℕ, String, false, none, some, List, [], ◌∷◌, map, if◌then◌else◌, arith, ◌≡◌, refl, contains, ◌==◌,
  ◌||◌,
}
use grpc_helper.Base.{string_eq, nat_eq}
use grpc_helper.Base.Dict.{
  Dict, keys, lookup, has, NodupKeys, insert-NodupKeys, from_pairs_distinct, lookup-insert,
  contains-keys,
}
use grpc_helper.Base.Number.{ℤ, pos, negsuc, int, str}
use grpc_helper.Base.Number.RoundTrip.{int-str}
use grpc_helper.Disk.Laws.{load_config-save_config, members_of-of_members}
use grpc_helper.Errors.{ok}
use grpc_helper.Events.Manager.{EventsManager, queue_pairs, persist_queues, interrupted_at}
use grpc_helper.Events.Manager.Sending.{entries, IsWellFormed}
use grpc_helper.Events.Manager.Queues.{open-IsWellFormed}
use grpc_helper.Events.Manager.Startup.{
  persisted_indexes, int_value, int_list, reopen, reopen_index,
}

str_injective : (i j : ℕ) → str i ≡ str j → i ≡ j
str_injective i j same = cc (int-str i, int-str j)

abbrev Distinct : List ℕ → Type 0
Distinct [] = Unit
Distinct (i ∷ rest) = (contains rest i ≡ false) × Distinct rest

lookup-queue_pairs :
    (i : ℕ) (indexes : List ℕ)
    → contains indexes i ≡ false
    → lookup (str i) (queue_pairs indexes) ≡ none
unfolding lookup queue_pairs
lookup-queue_pairs i [] h = refl
lookup-queue_pairs i (j ∷ rest) h = ground (arith, lookup-queue_pairs i rest, str_injective i j)

queue_pairs-NodupKeys : (indexes : List ℕ) → Distinct indexes → NodupKeys (queue_pairs indexes)
unfolding queue_pairs
queue_pairs-NodupKeys [] u = tt
queue_pairs-NodupKeys (i ∷ rest) (alone, u) =
    (lookup-queue_pairs i rest alone, queue_pairs-NodupKeys rest u)

int_list_empty : int_list [] ≡ ok []
unfolding int_list
int_list_empty = refl

int_list-cons :
    (text : String) (rest : List String) (n : ℤ) (others : List ℤ)
    → int text ≡ some n
    → int_list rest ≡ ok others
    → int_list (text ∷ rest) ≡ ok (n ∷ others)
unfolding int_list int_value
int_list-cons text rest n others h e = rw (h, e) refl

int_list-queue_pairs :
    (indexes : List ℕ) → int_list (keys (queue_pairs indexes)) ≡ ok (map pos indexes)
unfolding queue_pairs
int_list-queue_pairs [] = int_list_empty
int_list-queue_pairs (i ∷ rest) =
    int_list-cons (str i) (keys (queue_pairs rest)) (pos i) (map pos rest) (int-str i)
      (int_list-queue_pairs rest)

keys-Distinct : (d : Dict ℕ ℕ) → NodupKeys d → Distinct (keys d)
keys-Distinct [] u = tt
keys-Distinct ((k, v) ∷ d) (fresh, u) =
    (ground (arith, contains-keys d k, fresh), keys-Distinct d u)

-- The file that `_persist_queues` writes is read back as the indexes of the queues, in their order.
pub persisted_indexes-persist_queues :
    (folder : String) (m : EventsManager)
    → m.workspace ≡ some folder
    → NodupKeys m.queues
    → persisted_indexes (some folder) (persist_queues m).disk ≡ ok (map pos (keys m.queues))
unfolding persisted_indexes persist_queues
persisted_indexes-persist_queues folder m here u =
    rw
      (
        here,
        load_config-save_config,
        members_of-of_members,
        from_pairs_distinct (queue_pairs (keys m.queues))
            (queue_pairs-NodupKeys (keys m.queues) (keys-Distinct m.queues u)),
        int_list-queue_pairs,
      )
      refl

module _ (now : ℕ) where
  entries-reopen_index :
      (r i : ℕ) (m : EventsManager)
      → entries r m.objects ≡ []
      → entries r (reopen_index now i m).objects ≡ []
  unfolding reopen_index
  entries-reopen_index r i m h = ground (arith, lookup-insert r m.next_object [] m.objects, h)

  pub entries-reopen :
      (r : ℕ) (l : List ℤ) (m : EventsManager)
      → entries r m.objects ≡ []
      → entries r (reopen now l m).objects ≡ []
  unfolding reopen
  entries-reopen r [] m h = h
  entries-reopen r (pos i ∷ rest) m h =
      entries-reopen r rest (reopen_index now i m) (entries-reopen_index r i m h)
  entries-reopen r (negsuc i ∷ rest) m h = entries-reopen r rest m h

  pub reopen-IsWellFormed :
      (l : List ℤ) (m : EventsManager) → IsWellFormed m → IsWellFormed (reopen now l m)
  unfolding reopen reopen_index
  reopen-IsWellFormed [] m w = w
  reopen-IsWellFormed (pos i ∷ rest) m w = reopen-IsWellFormed rest (reopen_index now i m) (
      open-IsWellFormed i m (reopen_index now i m) w refl refl
        (insert-NodupKeys i (some now) m.interrupt_times w.times_once))
  reopen-IsWellFormed (negsuc i ∷ rest) m w = reopen-IsWellFormed rest m w

  has-reopen_index :
      (i j : ℕ) (m : EventsManager)
      → has i (reopen_index now j m).queues ≡ (i == j || has i m.queues)
  unfolding reopen_index
  has-reopen_index i j m = ground (arith, lookup-insert i j m.next_object m.queues)

  -- The indexes of a manager that made queues again: those of the file, and those that it had.
  pub has-reopen :
      (i : ℕ) (indexes : List ℕ) (m : EventsManager)
      → has i (reopen now (map pos indexes) m).queues ≡ (contains indexes i || has i m.queues)
  unfolding reopen
  has-reopen i [] m = refl
  has-reopen i (j ∷ rest) m =
      ground (arith, has-reopen i rest (reopen_index now j m), has-reopen_index i j m)

  interrupted_at-reopen_index :
      (i j : ℕ) (m : EventsManager)
      → interrupted_at i (reopen_index now j m) ≡ (if i == j then some now else interrupted_at i m)
  unfolding reopen_index interrupted_at
  interrupted_at-reopen_index i j m = ground (arith, lookup-insert i j (some now) m.interrupt_times)

  pub interrupted_at-reopen :
      (i : ℕ) (indexes : List ℕ) (m : EventsManager)
      → interrupted_at i (reopen now (map pos indexes) m)
        ≡ (if contains indexes i then some now else interrupted_at i m)
  unfolding reopen
  interrupted_at-reopen i [] m = refl
  interrupted_at-reopen i (j ∷ rest) m = ground (
    arith,
    interrupted_at-reopen i rest (reopen_index now j m),
    interrupted_at-reopen_index i j m,
  )

  pub reopen-workspace : (l : List ℤ) (m : EventsManager) → (reopen now l m).workspace ≡ m.workspace
  unfolding reopen reopen_index
  reopen-workspace [] m = refl
  reopen-workspace (pos i ∷ l) m = reopen-workspace l (reopen_index now i m)
  reopen-workspace (negsuc i ∷ l) m = reopen-workspace l m

  pub reopen-disk : (l : List ℤ) (m : EventsManager) → (reopen now l m).disk ≡ m.disk
  unfolding reopen reopen_index
  reopen-disk [] m = refl
  reopen-disk (pos i ∷ l) m = reopen-disk l (reopen_index now i m)
  reopen-disk (negsuc i ∷ l) m = reopen-disk l m
