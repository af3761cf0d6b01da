-- ===== src/Server/Loggers/Closed.antt =====
-- src/grpc_helper/server.py: the loggers after a server has started and ended.
use grpc_helper.Base.{
  ℕ, ◌+◌, ◌<◌, String, Bool, true, false, Option, some, List, [], ◌∷◌, ◌++◌, any, contains,
  value_or, map_option, if◌then◌else◌, ◌==◌, arith, ◌≡◌, Bool-cases, Option-cases, inl, inr,
}
use grpc_helper.Base.{string_eq}
use grpc_helper.Base.Dict.{Dict, lookup, insert, lookup-insert}
use grpc_helper.Base.Number.{ℤ}
use grpc_helper.Errors.{Result, ok, bind-eq-ok}
use grpc_helper.Logs.Handlers.{
  Handler, LogsItems, RotatingFile, add_rotating_handler, clean_rotating_handler,
}
use grpc_helper.Logs.Handlers.Restored.{
  rotating_handler, add_rotating_handler-ok, clean_rotating_handler-added,
}
use grpc_helper.Server.Loggers.{init_logger, init_loggers, init_server_loggers}
use grpc_helper.Server.Termination.{Ending, root_logger, finalize_shutdown}
use grpc_helper.Server.Termination.Ended.{DistinctNames, fails, finalize_shutdown-IsEnded}

module _ (items : LogsItems) (log_folder : String) where
  -- The logger has a new rotating handler after those that it had.
  abbrev IsOpened : List Handler → Option (List Handler) → Type 0
  IsOpened before after = (id : ℕ) × (after ≡ some (before ++ (rotating_handler id ∷ [])))

  lookup-init_logger :
      (key name : String) (id : ℕ) (loggers after : Dict String (List Handler))
      → init_logger items log_folder id name loggers ≡ ok after
      → lookup key after ≡ (
          if key == name
          then some (value_or [] (lookup name loggers) ++ (rotating_handler id ∷ []))
          else lookup key loggers)
  unfolding init_logger
  lookup-init_logger key name id loggers after opened =
      let before = value_or [] (lookup name loggers) in
      let ((handlers, file), added, inserted) =
        bind-eq-ok (add_rotating_handler items log_folder name id before)
          (λ (p : List Handler × RotatingFile). ok (insert name p.0 loggers)) opened in
      let same = add_rotating_handler-ok items log_folder name id before handlers file added in
      ground (arith, inserted, same, lookup-insert key name handlers loggers)

  lookup-init_loggers :
      (key : String) (names : List String) (id : ℕ) (loggers after : Dict String (List Handler))
      → init_loggers items log_folder id names loggers ≡ ok after
      → DistinctNames names
      → (contains names key ≡ true → IsOpened (value_or [] (lookup key loggers)) (lookup key after))
        × (contains names key ≡ false → lookup key after ≡ lookup key loggers)
  unfolding init_loggers
  lookup-init_loggers key [] id loggers after opened distinct =
      (λ there. cc, λ other. ground (arith, opened))
  lookup-init_loggers key (name ∷ rest) id loggers after opened (alone, distinct) =
      let (between, first, later) =
        bind-eq-ok (init_logger items log_folder id name loggers)
          (λ (d : Dict String (List Handler)). init_loggers items log_folder (id + 1) rest d)
          opened in
      let one = lookup-init_logger key name id loggers between first in
      let all = lookup-init_loggers key rest (id + 1) between after later distinct in
      (
        λ there. elim (Bool-cases (key == name)) [
          | inl same ↦ (id, ground (arith, same, one, alone, all.1))
          | inr other ↦
              let (i, found) = all.0 (ground (arith, there, other)) in
              (i, ground (arith, found, one, other))
        ],
        λ other. ground (arith, other, one, all.1),
      )

  -- A logger without rotating handlers, which may have none at all.
  abbrev pub NoneRotate : Dict String (List Handler) → Type 0
  NoneRotate loggers =
      (name : String) (handlers : List Handler)
      → lookup name loggers ≡ some handlers
      → any (λ h. h.rotating) handlers ≡ false

  none_rotating :
      (name : String) (loggers : Dict String (List Handler))
      → NoneRotate loggers
      → any (λ h. h.rotating) (value_or [] (lookup name loggers)) ≡ false
  none_rotating name loggers none_before = elim (Option-cases (lookup name loggers)) [
    | inl missing ↦ ground (arith, missing)
    | inr (handlers, found) ↦ ground (arith, found, none_before name handlers found)
  ]

  closed_logger :
      (name : String) (names managers : List String) (id : ℕ)
      (loggers opened closed : Dict String (List Handler))
      → NoneRotate loggers
      → contains names name ≡ contains managers name
      → DistinctNames names
      → init_loggers items log_folder id names loggers ≡ ok opened
      → lookup name closed ≡ (
          if contains managers name
          then map_option clean_rotating_handler (lookup name opened)
          else lookup name opened)
      → value_or [] (lookup name closed) ≡ value_or [] (lookup name loggers)
  closed_logger name names managers id loggers opened closed none_before same distinct started
        ended =
      let all = lookup-init_loggers name names id loggers opened started distinct in
      elim (Bool-cases (contains names name)) [
        | inl there ↦
            let (i, found) = all.0 there in
            let cleaned =
              clean_rotating_handler-added i (value_or [] (lookup name loggers))
                (none_rotating name loggers none_before) in
            ground (arith, ended, same, there, found, cleaned)
        | inr other ↦ ground (arith, ended, same, other, all.1 other)
      ]

  -- No logger has a rotating handler. A server starts, with different loggers for its managers, and
  -- gives one to each of them and to the root logger. When it ends, with a timeout that can be read
  -- where it is asked for and a last call that fails, every logger has the handlers again that it had
  -- before, the others too.
  pub finalize_shutdown-closed :
      (fuel last id : ℕ) (request : Option ℤ) (configured : Result ℤ) (answered : ℕ → Bool)
      (server : String) (others : List String) (s : Ending) (opened : Dict String (List Handler))
      → DistinctNames (root_logger ∷ server ∷ others)
      → NoneRotate s.loggers
      → init_server_loggers items log_folder id server others s.loggers ≡ ok opened
      → last < fuel
      → answered last ≡ false
      → ((j : ℕ) → j < last → answered j ≡ true)
      → fails request configured ≡ false
      → (t : Ending) × (finalize_shutdown fuel request configured answered
            (server ∷ others)
            (record s { loggers = opened })
          ≡ some (ok tt, t))
        × ((name : String)
            → value_or [] (lookup name t.loggers) ≡ value_or [] (lookup name s.loggers))
  unfolding init_server_loggers
  finalize_shutdown-closed fuel last id request configured answered server others s opened
        (root_alone, (alone, distinct)) none_before started enough closed earlier readable =
      let (t, done, ended) =
        (finalize_shutdown-IsEnded fuel last request configured answered (server ∷ others)
            (record s { loggers = opened }) (root_alone, (alone, distinct)) enough closed earlier).0
          readable in
      let apart : DistinctNames (server ∷ root_logger ∷ others) =
        (ground (arith, root_alone, alone), (ground (arith, root_alone), distinct)) in
      (
        t,
        done,
        λ name.
            closed_logger name (server ∷ root_logger ∷ others) (root_logger ∷ server ∷ others) id
              s.loggers opened t.loggers none_before (ground arith) apart started
              (ended.cleaned name),
      )
