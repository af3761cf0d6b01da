-- ===== src/Logs/Handlers.antt =====
-- src/grpc_helper/logs/logs_utils.py: the handlers of a logger.
pub mod Restored
use grpc_helper.Base.{
  ℕ, String, ◌<>◌, ◌++◌, Bool, true, false, not, ◌&&◌, List, [], ◌∷◌, any, keep, if◌then◌else◌,
  arith, ◌≡◌, refl,
}
use grpc_helper.Base.Number.{ℤ}
use grpc_helper.Config.Item.{Config, int_val}
use grpc_helper.Disk.{file_path}
use grpc_helper.Errors.{Result, ok, ◌>>=◌}

-- A handler of a logger, as an object of its own, and whether it is a `TimedRotatingFileHandler`.
pub record Handler : Type 0 where
  pub id : ℕ
  pub rotating : Bool

-- `log_folder / logger.name / f"{logger.name}.log"`
unfoldable pub log_file : String → String → String
log_file log_folder name = file_path (file_path log_folder name) (name <> ".log")

-- The file of a rotating handler, and the values of the config items that it is made with.
pub record RotatingFile : Type 0 where
  pub path : String
  pub when : String
  pub interval : ℤ
  pub backup_count : ℤ

-- The items `LOGS_ROLLOVER_INTERVAL_UNIT`, `LOGS_ROLLOVER_INTERVAL` and `LOGS_BACKUP` of the static
-- configuration.
pub record LogsItems : Type 0 where
  pub interval_unit : Config
  pub interval : Config
  pub backup : Config

unfoldable pub rotating_file : LogsItems → String → String → Result RotatingFile
unfolding log_file
rotating_file items log_folder name = do
  interval ← int_val items.interval
  backup_count ← int_val items.backup
  ok (record {
    path = log_file log_folder name;
    when = items.interval_unit.item.value;
    interval = interval;
    backup_count = backup_count;
  })

-- `add_rotating_handler`: the handlers of the logger with the new one, which gets the given number as
-- an object, and its file.
unfoldable pub add_rotating_handler :
    LogsItems → String → String → ℕ → List Handler → Result (List Handler × RotatingFile)
add_rotating_handler items log_folder name id handlers = do
  file ← rotating_file items log_folder name
  ok (handlers ++ (record { id = id; rotating = true } ∷ []), file)

-- The loop removes from the list that it goes through: after a removal the next handler has the
-- place of the removed one, and the iterator, which is past that place, does not see it.
unfoldable pub clean_from : Bool → List Handler → List Handler
clean_from unseen [] = []
clean_from true (h ∷ rest) = h ∷ clean_from false rest
clean_from false (h ∷ rest) =
    let removed = clean_from true rest in
    let kept = clean_from false rest in if h.rotating then removed else h ∷ kept

unfoldable pub clean_rotating_handler : List Handler → List Handler
unfolding clean_from
clean_rotating_handler handlers = clean_from false handlers

-- No two rotating handlers stand next to each other.
abbrev pub NoneAdjacent : List Handler → Type 0
NoneAdjacent [] = Unit
NoneAdjacent (h ∷ []) = Unit
NoneAdjacent (h ∷ next ∷ rest) =
    ((h.rotating && next.rotating) ≡ false) × NoneAdjacent (next ∷ rest)

clean_from_others :
    (unseen : Bool) (handlers : List Handler)
    → keep (λ h. not h.rotating) (clean_from unseen handlers) ≡ keep (λ h. not h.rotating) handlers
unfolding clean_from
clean_from_others unseen [] = refl
clean_from_others true (h ∷ rest) = ground (arith, clean_from_others false rest)
clean_from_others false (h ∷ rest) =
    ground (arith, clean_from_others false rest, clean_from_others true rest)

clean_from_alone :
    (handlers : List Handler)
    → NoneAdjacent handlers
    → any (λ h. h.rotating) (clean_from false handlers) ≡ false
unfolding clean_from
clean_from_alone [] alone = refl
clean_from_alone (h ∷ []) alone = ground arith
clean_from_alone (h ∷ next ∷ rest) (apart, alone) =
    ground (arith, apart, clean_from_alone (next ∷ rest) alone)

-- The other handlers of a logger stay. If no two rotating handlers are adjacent, no rotating handler
-- is left; but one that comes right after a rotating handler that is removed always stays.
pub clean_rotating_handler-keep :
    (handlers : List Handler)
    → (keep (λ h. not h.rotating) (clean_rotating_handler handlers)
        ≡ keep (λ h. not h.rotating) handlers)
      × (NoneAdjacent handlers → any (λ h. h.rotating) (clean_rotating_handler handlers) ≡ false)
      × ((first second : Handler)
          → first.rotating ≡ true
          → clean_rotating_handler (first ∷ second ∷ handlers)
            ≡ second ∷ clean_rotating_handler handlers)
unfolding clean_rotating_handler clean_from
clean_rotating_handler-keep handlers = (
  clean_from_others false handlers,
  clean_from_alone handlers,
  λ first second h. ground (arith, h),
)
