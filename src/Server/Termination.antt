-- ===== src/Server/Termination.antt =====
-- src/grpc_helper/server.py: the end of a server, `__finalize_shutdown` of `RpcServer`, and its
-- `is_running` and `wait_shutdown`.
pub mod Ended
use grpc_helper.Base.{
  ℕ, zero, suc, ◌+◌, String, Bool, true, false, not, Option, none, some, List, [], ◌∷◌,
  if◌then◌else◌,
}
use grpc_helper.Base.{string_eq}
use grpc_helper.Base.Dict.{Dict, lookup, insert}
use grpc_helper.Base.Number.{ℤ, pos, negsuc, is_zero}
use grpc_helper.Errors.{Result, ok, raised}
use grpc_helper.Logs.Handlers.{Handler, clean_rotating_handler}

-- The handlers of each logger by its name, whether the shutdown event is set, whether the client's
-- `info` method has a timeout, and the seconds that were slept before the last calls.
pub record Ending : Type 0 where
  pub loggers : Dict String (List Handler)
  pub shutdown_event : Bool
  pub client_timeout : Option ℕ
  pub slept : Option ℤ

-- `is_running`
unfoldable pub is_running : Ending → Bool
is_running s = not s.shutdown_event

-- `wait_shutdown`, when it returns
unfoldable pub wait_shutdown : Ending → Option (Unit {0})
wait_shutdown s = if s.shutdown_event then some tt else none

-- The time that a request asks for: none without a request or with a negative timeout, and for zero
-- that of the configuration, `SHUTDOWN_TIMEOUT.int_val`, which may raise.
unfoldable pub shutdown_delay : Option ℤ → Result ℤ → Result (Option ℤ)
shutdown_delay none configured = ok none
shutdown_delay (some (negsuc n)) configured = ok none
shutdown_delay (some (pos zero)) (raised e) = raised e
shutdown_delay (some (pos zero)) (ok timeout) = ok (some timeout)
shutdown_delay (some (pos (suc n))) configured = ok (some (pos (suc n)))

-- The loop of the last client calls, on fuel, where `answered` tells which calls are answered: the
-- number of the call that failed. `none` tells that the fuel is used up.
unfoldable pub last_calls : ℕ → ℕ → (ℕ → Bool) → Option ℕ
last_calls zero k answered = none
last_calls (suc fuel) k answered =
    let next = last_calls fuel (k + 1) answered in if answered k then next else some k

-- `clean_rotating_handler(logging.getLogger(name))`
unfoldable pub clean_logger : String → Dict String (List Handler) → Dict String (List Handler)
clean_logger name loggers = elim (lookup name loggers) [
  | none ↦ loggers
  | some handlers ↦ insert name (clean_rotating_handler handlers) loggers
]

unfoldable pub clean_loggers : List String → Dict String (List Handler) → Dict String (List Handler)
clean_loggers [] loggers = loggers
clean_loggers (name ∷ rest) loggers = clean_loggers rest (clean_logger name loggers)

abbrev pub root_logger : String
root_logger = "root"

-- `__finalize_shutdown` after the gRPC server has ended, with the timeout of the request, if there is
-- one, and the names of the loggers of the managers.
unfoldable pub finalize_shutdown :
    ℕ
    → Option ℤ
    → Result ℤ
    → (ℕ → Bool)
    → List String
    → Ending
    → Option (Result (Unit {0}) × Ending)
finalize_shutdown fuel request configured answered managers s =
    elim (shutdown_delay request configured) [
      | raised e ↦ some (raised e, s)
      | ok delay ↦ elim (last_calls fuel 0 answered) [
        | none ↦ none
        | some k ↦ some (
          ok tt,
          record {
            loggers = clean_logger root_logger (clean_loggers managers s.loggers);
            shutdown_event = true;
            client_timeout = none;
            slept = delay;
          },
        )
      ]
    ]
