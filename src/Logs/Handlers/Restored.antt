-- ===== src/Logs/Handlers/Restored.antt =====
-- src/grpc_helper/logs/logs_utils.py: the handlers that a server adds to a logger, and removes.
use grpc_helper.Base.{ℕ, String, true, false, List, [], ◌∷◌, ◌++◌, any, arith, ◌≡◌, refl}
use grpc_helper.Errors.{ok}
use grpc_helper.Logs.Handlers.{
  Handler, clean_from, clean_rotating_handler, RotatingFile, LogsItems, add_rotating_handler,
}

abbrev pub rotating_handler : ℕ → Handler
rotating_handler id = record { id = id; rotating = true }

-- Without rotating handlers before them, the first of the added ones is removed.
clean_from-added :
    (id : ℕ) (handlers added : List Handler)
    → any (λ h. h.rotating) handlers ≡ false
    → clean_from false (handlers ++ (rotating_handler id ∷ added))
      ≡ handlers ++ clean_from true added
unfolding clean_from
clean_from-added id [] added none_before = refl
clean_from-added id (h ∷ handlers) added none_before =
    ground (arith, none_before, clean_from-added id handlers added)

append_nil_handlers : (handlers : List Handler) → handlers ++ [] ≡ handlers
append_nil_handlers [] = refl
append_nil_handlers (h ∷ handlers) = cc (append_nil_handlers handlers)

pub add_rotating_handler-ok :
    (items : LogsItems) (log_folder name : String) (id : ℕ) (handlers after : List Handler)
    (file : RotatingFile)
    → add_rotating_handler items log_folder name id handlers ≡ ok (after, file)
    → after ≡ handlers ++ (rotating_handler id ∷ [])
unfolding add_rotating_handler
add_rotating_handler-ok items log_folder name id handlers after file added = ground (arith, added)

-- Cleaning removes the one rotating handler, at the end.
pub clean_rotating_handler-added :
    (id : ℕ) (handlers : List Handler)
    → any (λ h. h.rotating) handlers ≡ false
    → clean_rotating_handler (handlers ++ (rotating_handler id ∷ [])) ≡ handlers
unfolding clean_rotating_handler clean_from
clean_rotating_handler-added id handlers none_before =
    ground (arith, clean_from-added id handlers [] none_before, append_nil_handlers handlers)

append_assoc :
    (handlers : List Handler) (h : Handler) (more : List Handler)
    → (handlers ++ (h ∷ [])) ++ more ≡ handlers ++ (h ∷ more)
append_assoc [] h more = refl
append_assoc (first ∷ handlers) h more = cc (append_assoc handlers h more)

-- A logger without rotating handlers, to which a server adds one and, in the same process, another
-- server a second one. With the first handler alone, cleaning gives the logger back as it was. With
-- both, cleaning removes the first one, whichever server ends, and cleaning again the second.
pub clean_rotating_handler-restored :
    (items : LogsItems) (log_folder other_folder name : String) (i j : ℕ)
    (handlers one two : List Handler) (file file' : RotatingFile)
    → any (λ h. h.rotating) handlers ≡ false
    → add_rotating_handler items log_folder name i handlers ≡ ok (one, file)
    → add_rotating_handler items other_folder name j one ≡ ok (two, file')
    → (clean_rotating_handler one ≡ handlers)
      × (clean_rotating_handler two ≡ handlers ++ (record { id = j; rotating = true } ∷ []))
      × (clean_rotating_handler (clean_rotating_handler two) ≡ handlers)
unfolding clean_rotating_handler clean_from
clean_rotating_handler-restored items log_folder other_folder name i j handlers one two file file'
      none_before first second =
    let once = add_rotating_handler-ok items log_folder name i handlers one file first in
    let twice = add_rotating_handler-ok items other_folder name j one two file' second in
    let both = append_assoc handlers (rotating_handler i) (rotating_handler j ∷ []) in
    let whole = append_nil_handlers handlers in
    let one_cleaned = clean_from-added i handlers [] none_before in
    let two_cleaned = clean_from-added i handlers (rotating_handler j ∷ []) none_before in
    let again = clean_from-added j handlers [] none_before in
    (
      ground (arith, once, one_cleaned, whole),
      ground (arith, once, twice, both, two_cleaned),
      ground (arith, once, twice, both, two_cleaned, again, whole),
    )
