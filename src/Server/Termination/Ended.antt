-- ===== src/Server/Termination/Ended.antt =====
-- src/grpc_helper/server.py: how a server ends.
use grpc_helper.Base.{
  ℕ, zero, suc, ◌+◌, ◌≤◌, ◌<◌, String, Bool, true, false, Option, none, some, List, [], ◌∷◌,
  contains, map_option, if◌then◌else◌, ◌==◌, arith, ◌≡◌, refl, Bool-cases, Option-cases, inl, inr,
}
use grpc_helper.Base.{string_eq}
use grpc_helper.Base.Dict.{Dict, lookup, lookup-insert}
use grpc_helper.Base.Number.{ℤ, pos, negsuc}
use grpc_helper.Errors.{Exception, Result, ok, raised}
use grpc_helper.Logs.Handlers.{Handler, clean_rotating_handler}
use grpc_helper.Server.Termination.{
  Ending, is_running, wait_shutdown, shutdown_delay, last_calls, clean_logger, clean_loggers,
  root_logger, finalize_shutdown,
}

last_calls-first :
    (fuel k last : ℕ) (answered : ℕ → Bool)
    → k ≤ last
    → last < k + fuel
    → answered last ≡ false
    → ((j : ℕ) → k ≤ j → j < last → answered j ≡ true)
    → last_calls fuel k answered ≡ some last
unfolding last_calls
last_calls-first zero k last answered from enough fails earlier = absurd (omega arith)
last_calls-first (suc fuel) k last answered from enough fails earlier =
    elim (Bool-cases (answered k)) [
      | inl more ↦ rw more (
          last_calls-first fuel (k + 1) last answered (ground (arith, more, fails, from))
            (omega arith) fails (λ j after before. earlier j (omega arith) before))
      | inr over ↦ rw over (ground (arith, earlier k, over, from))
    ]

lookup-clean_logger :
    (j name : String) (loggers : Dict String (List Handler))
    → lookup j (clean_logger name loggers) ≡ (
        if j == name
        then map_option clean_rotating_handler (lookup j loggers)
        else lookup j loggers)
unfolding clean_logger
lookup-clean_logger j name loggers = elim (Option-cases (lookup name loggers)) [
  | inl missing ↦ ground (arith, missing)
  | inr (handlers, found) ↦
      ground (arith, found, lookup-insert j name (clean_rotating_handler handlers) loggers)
]

-- No name is twice in the list.
abbrev pub DistinctNames : List String → Type 0
DistinctNames [] = Unit
DistinctNames (name ∷ rest) = (contains rest name ≡ false) × DistinctNames rest

lookup-clean_loggers :
    (j : String) (names : List String) (loggers : Dict String (List Handler))
    → DistinctNames names
    → lookup j (clean_loggers names loggers) ≡ (
        if contains names j
        then map_option clean_rotating_handler (lookup j loggers)
        else lookup j loggers)
unfolding clean_loggers
lookup-clean_loggers j [] loggers distinct = refl
lookup-clean_loggers j (name ∷ rest) loggers (fresh, distinct) = ground (
  arith,
  lookup-clean_loggers j rest (clean_logger name loggers) distinct,
  lookup-clean_logger j name loggers,
  fresh,
)

-- The wait that a request asks for is as it says: a positive number of seconds, or none.
abbrev pub IsAsked : Option ℤ → Result ℤ → Option ℤ → Type 0
IsAsked none configured delay = delay ≡ none
IsAsked (some (negsuc n)) configured delay = delay ≡ none
IsAsked (some (pos zero)) configured delay = elim configured [
  | raised e ↦ ⊥
  | ok timeout ↦ delay ≡ some timeout
]
IsAsked (some (pos (suc n))) configured delay = delay ≡ some (pos (suc n))

-- A server that has ended: it does not run, the waiting thread goes on, the client has no timeout,
-- and the loggers of the managers and the root logger were cleaned once, and no other.
pub record IsEnded (request : Option ℤ) (configured : Result ℤ) (managers : List String)
    (s t : Ending) : Type 0 where
  pub ended : is_running t ≡ false
  pub waited : wait_shutdown t ≡ some tt
  pub no_timeout : t.client_timeout ≡ none
  pub slept : IsAsked request configured t.slept
  pub cleaned :
      (name : String)
      → lookup name t.loggers ≡ (
          if contains (root_logger ∷ managers) name
          then map_option clean_rotating_handler (lookup name s.loggers)
          else lookup name s.loggers)

-- A request asks for a configured timeout that cannot be read.
abbrev pub fails : Option ℤ → Result ℤ → Bool
fails (some (pos zero)) (raised e) = true
fails _ _ = false

delay-IsAsked :
    (request : Option ℤ) (configured : Result ℤ)
    → fails request configured ≡ false
    → (delay : Option ℤ) × (shutdown_delay request configured ≡ ok delay)
      × IsAsked request configured delay
unfolding shutdown_delay
delay-IsAsked none configured h = (none, refl, refl)
delay-IsAsked (some (negsuc n)) configured h = (none, refl, refl)
delay-IsAsked (some (pos zero)) (raised e) h = cc
delay-IsAsked (some (pos zero)) (ok timeout) h = (some timeout, refl, refl)
delay-IsAsked (some (pos (suc n))) configured h = (some (pos (suc n)), refl, refl)

delay-fails :
    (request : Option ℤ) (configured : Result ℤ)
    → fails request configured ≡ true
    → (e : Exception) × (shutdown_delay request configured ≡ raised e)
unfolding shutdown_delay
delay-fails (some (pos zero)) (raised e) h = (e, refl)
delay-fails (some (pos zero)) (ok timeout) h = cc
delay-fails (some (pos (suc n))) configured h = cc
delay-fails (some (negsuc n)) configured h = cc
delay-fails none configured h = cc

pub finalize_shutdown-IsEnded :
    (fuel last : ℕ) (request : Option ℤ) (configured : Result ℤ) (answered : ℕ → Bool)
    (managers : List String) (s : Ending)
    → DistinctNames (root_logger ∷ managers)
    → last < fuel
    → answered last ≡ false
    → ((j : ℕ) → j < last → answered j ≡ true)
    → (fails request configured ≡ false
        → (t : Ending) × (finalize_shutdown fuel request configured answered managers s
            ≡ some (ok tt, t))
          × IsEnded request configured managers s t)
      × (fails request configured ≡ true
          → (e : Exception) × (finalize_shutdown fuel request configured answered managers s
              ≡ some (raised e, s)))
unfolding finalize_shutdown is_running wait_shutdown
finalize_shutdown-IsEnded fuel last request configured answered managers s (alone, distinct) enough
      closed earlier =
    (
      λ readable.
          let (delay, read, asked) = delay-IsAsked request configured readable in
          let called =
            last_calls-first fuel 0 last answered (omega arith) (omega arith) closed
              (λ j from before. earlier j before) in
          (
            record {
              loggers = clean_logger root_logger (clean_loggers managers s.loggers);
              shutdown_event = true;
              client_timeout = none;
              slept = delay;
            },
            ground (arith, read, called),
            record {
              ended = refl;
              waited = refl;
              no_timeout = refl;
              slept = asked;
              cleaned = λ name. ground (
                arith,
                lookup-clean_logger name root_logger (clean_loggers managers s.loggers),
                lookup-clean_loggers name managers s.loggers distinct,
                alone,
              );
            },
          ),
      λ unreadable.
          let (e, failed) = delay-fails request configured unreadable in
          (e, ground (arith, failed)),
    )
