-- ===== src/Events/Manager/Startup.antt =====
-- src/grpc_helper/events/events_manager.py: `_init_folders_n_logger`, which makes the persisted
-- queues again, and the file of the queues' indexes.
pub mod Records
use grpc_helper.Base.{ℕ, ◌+◌, String, ◌<>◌, Option, none, some, List, [], ◌∷◌}
use grpc_helper.Base.{string_eq, nat_eq}
use grpc_helper.Base.Dict.{Dict, keys, insert}
use grpc_helper.Base.Number.{ℤ, pos, negsuc, int}
use grpc_helper.Disk.{Json, object, Disk, load_config, members_of}
use grpc_helper.Errors.{Result, ok, raised, python_error, ◌>>=◌}
use grpc_helper.Events.Manager.{EventsManager, Entry, queues_file}

-- `model.keys()`, which only a dict has
abbrev pub key_list : Json → Result (List String)
key_list (object members) = ok (keys (members_of members))
key_list _ = raised (python_error "AttributeError" "object has no attribute 'keys'")

pub int_value : String → Option ℤ → Result ℤ
int_value t none =
    raised (python_error "ValueError" ("invalid literal for int() with base 10: '" <> (t <> "'")))
int_value t (some n) = ok n

-- `list(map(int, texts))`
unfoldable pub int_list : List String → Result (List ℤ)
unfolding int_value
int_list [] = ok []
int_list (t ∷ rest) = do n ← int_value t (int t); others ← int_list rest; ok (n ∷ others)

unfoldable pub persisted_indexes : Option String → Disk → Result (List ℤ)
unfolding int_list
persisted_indexes workspace disk = do
  model ← load_config (some queues_file) none workspace disk
  texts ← key_list model
  int_list texts

-- A queue for an index, as one that was interrupted now.
pub reopen_index : ℕ → ℕ → EventsManager → EventsManager
reopen_index now index m = record m {
  queues = insert index m.next_object m.queues;
  objects = insert m.next_object [] m.objects;
  next_object = m.next_object + 1;
  interrupt_times = insert index (some now) m.interrupt_times;
}

-- The loop over the persisted indexes. An index is at least 0: a negative one, which no manager
-- writes, is passed over.
pub reopen : ℕ → List ℤ → EventsManager → EventsManager
unfolding reopen_index
reopen now [] m = m
reopen now (pos index ∷ rest) m = reopen now rest (reopen_index now index m)
reopen now (negsuc n ∷ rest) m = reopen now rest m

-- `__init__`
unfoldable pub new_manager : Option String → Disk → EventsManager
new_manager workspace disk = record {
  queues = [];
  objects = [];
  next_object = 0;
  interrupt_times = [];
  workspace = workspace;
  disk = disk;
}

-- A manager once `_init_folders_n_logger` has returned.
unfoldable pub start_manager : ℕ → Option String → Disk → Result EventsManager
unfolding reopen new_manager
start_manager now workspace disk = do
  indexes ← persisted_indexes workspace disk
  ok (reopen now indexes (new_manager workspace disk))
