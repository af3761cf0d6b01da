-- ===== src/Calls/Method/Schedule.antt =====
-- src/grpc_helper/methods.py: calls in several threads that enter the list of the pending calls and
-- leave it, in any order.
use grpc_helper.Base.{
  ℕ, suc, String, false, Option, none, some, List, [], ◌∷◌, if◌then◌else◌, ◌==◌, arith, ◌≡◌, refl,
}
use grpc_helper.Base.{string_eq, nat_eq}
use grpc_helper.Base.Dict.{
  Dict, lookup, insert, erase, has, values, NodupKeys, insert-NodupKeys, erase-NodupKeys,
}
use grpc_helper.Errors.{Result, ok, raised}
use grpc_helper.Calls.Method.Pending.{prelude, epilog, count, count-prelude, epilog-count}

-- What a thread does with the list while it holds the lock: its call enters, or leaves.
pub data Action : Type 0 where
  enter : ℕ → String → Action
  leave : ℕ → String → Action

-- The list after the actions.
unfoldable pub run_pending : List Action → List String → Result (List String)
unfolding prelude epilog
run_pending [] calls = ok calls
run_pending (enter thread logged_call ∷ rest) calls = run_pending rest (prelude logged_call calls)
run_pending (leave thread logged_call ∷ rest) calls = elim (epilog logged_call calls) [
  | raised e ↦ raised e
  | ok left ↦ run_pending rest left
]

-- The threads that are in a call, each with the trace of its call: `none` where a thread enters a
-- second call, or leaves another one than its own.
unfoldable pub run_active : List Action → Dict ℕ String → Option (Dict ℕ String)
run_active [] active = some active
run_active (enter thread logged_call ∷ rest) active =
    let next = run_active rest (insert thread logged_call active) in
    if has thread active then none else next
run_active (leave thread logged_call ∷ rest) active =
    let next = run_active rest (erase thread active) in
    elim (lookup thread active) [
      | none ↦ none
      | some own ↦ if own == logged_call then next else none
    ]

-- The list shows the calls of the threads, each as often as threads are in it.
abbrev pub Shows : List String → Dict ℕ String → Type 0
Shows calls active = (call : String) → count call calls ≡ count call (values active)

count-insert :
    (call : String) (thread : ℕ) (logged_call : String) (active : Dict ℕ String)
    → has thread active ≡ false
    → count call (values (insert thread logged_call active)) ≡ (
        if call == logged_call
        then suc (count call (values active))
        else count call (values active))
unfolding insert lookup
count-insert call thread logged_call [] free = ground arith
count-insert call thread logged_call (_ ∷ active) free =
    ground (arith, count-insert call thread logged_call active)

count-erase-absent :
    (call : String) (thread : ℕ) (active : Dict ℕ String)
    → lookup thread active ≡ none
    → count call (values (erase thread active)) ≡ count call (values active)
unfolding erase lookup
count-erase-absent call thread [] absent = refl
count-erase-absent call thread (_ ∷ active) absent =
    ground (arith, count-erase-absent call thread active)

count-erase :
    (call : String) (thread : ℕ) (logged_call : String) (active : Dict ℕ String)
    → NodupKeys active
    → lookup thread active ≡ some logged_call
    → count call (values active) ≡ (
        if call == logged_call
        then suc (count call (values (erase thread active)))
        else count call (values (erase thread active)))
unfolding erase lookup
count-erase call thread logged_call [] once own = cc
count-erase call thread logged_call (_ ∷ active) (fresh, once) own =
    ground (
      arith,
      count-erase call thread logged_call active once,
      count-erase-absent call thread active,
    )

run_pending-leave :
    (thread : ℕ) (logged_call : String) (rest : List Action) (calls left : List String)
    (r : Result (List String))
    → epilog logged_call calls ≡ ok left
    → run_pending rest left ≡ r
    → run_pending (leave thread logged_call ∷ rest) calls ≡ r
unfolding run_pending
run_pending-leave thread logged_call rest calls left r removed returned =
    ground (arith, removed, returned)

-- Whatever threads enter and leave calls in whatever order, each leaving the call that it is in and
-- no thread being in two: no leaving raises, and the list holds in the end the calls of the threads
-- that are still in one, each as often.
pub run_pending-Shows :
    (actions : List Action) (calls : List String) (active last : Dict ℕ String)
    → NodupKeys active
    → Shows calls active
    → run_active actions active ≡ some last
    → (left : List String) × (run_pending actions calls ≡ ok left) × Shows left last
unfolding run_pending run_active
run_pending-Shows [] calls active last once shows ran = (calls, refl, ground (arith, shows, ran))
run_pending-Shows (enter thread logged_call ∷ rest) calls active last once shows ran =
    run_pending-Shows rest (prelude logged_call calls) (insert thread logged_call active) last
      (insert-NodupKeys thread logged_call active once)
      (λ call. ground (
        arith,
        ran,
        shows call,
        count-prelude call logged_call calls,
        count-insert call thread logged_call active,
      ))
      (ground (arith, ran))
run_pending-Shows (leave thread logged_call ∷ rest) calls active last once shows ran =
    let own : lookup thread active ≡ some logged_call = ground (arith, ran) in
    let counted = λ (call : String). count-erase call thread logged_call active once own in
    let (left, removed, counts) =
      epilog-count logged_call calls (ground (arith, shows logged_call, counted logged_call)) in
    let (final, returned, same) =
      run_pending-Shows rest left (erase thread active) last (erase-NodupKeys thread active once)
        (λ call. ground (arith, shows call, counted call, counts call)) (ground (arith, ran)) in
    (final, run_pending-leave thread logged_call rest calls left (ok final) removed returned, same)
