-- ===== src/Calls/Method/Pending.antt =====
-- src/grpc_helper/methods.py: the list of the pending calls, which each call enters and leaves.
use grpc_helper.Base.{
  ℕ, zero, suc, ◌<◌, ◌≤◌, String, List, [], ◌∷◌, ◌++◌, length, if◌then◌else◌, ◌==◌, arith, ◌≡◌,
  refl, ap, ◌∙◌, inl, inr, Bool-cases,
}
use grpc_helper.Base.{string_eq}
use grpc_helper.Errors.{python_error, Result, ok, raised, ◌>>=◌}

-- `prelude`: `self.server.calls.append(logged_call)`
unfoldable pub prelude : String → List String → List String
prelude logged_call calls = calls ++ (logged_call ∷ [])

-- `epilog`: `self.server.calls.remove(logged_call)`
unfoldable pub epilog : String → List String → Result (List String)
epilog logged_call [] = raised (python_error "ValueError" "list.remove(x): x not in list")
epilog logged_call (call ∷ calls) =
    let others = epilog logged_call calls in
    if logged_call == call then ok calls else (do left ← others; ok (call ∷ left))

-- The results of a generator, of which the caller takes some with `next` and drops the rest. Only a
-- `next` past the last result runs the epilog.
unfoldable pub take_results {ℓ} :
    {A : Type ℓ} → String → List A → ℕ → List String → List A × Result (List String)
take_results logged_call results zero calls = ([], ok calls)
take_results logged_call [] (suc nexts) calls = ([], epilog logged_call calls)
take_results logged_call (r ∷ rest) (suc nexts) calls =
    let (taken, left) = take_results logged_call rest nexts calls in (r ∷ taken, left)

-- `RpcStreamingMethod.__call__`, a generator with the given results, that of an exception included.
-- Before the first `next` nothing is run.
unfoldable pub stream_call {ℓ} :
    {A : Type ℓ} → String → List A → ℕ → List String → List A × Result (List String)
unfolding take_results
stream_call logged_call results zero calls = ([], ok calls)
stream_call logged_call results (suc nexts) calls =
    take_results logged_call results (suc nexts) (prelude logged_call calls)

-- How often a call stands in the list.
abbrev pub count : String → List String → ℕ
count call [] = 0
count call (c ∷ calls) = let rest = count call calls in if call == c then suc rest else rest

pub count-prelude :
    (call logged_call : String) (calls : List String)
    → count call (prelude logged_call calls)
      ≡ (if call == logged_call then suc (count call calls) else count call calls)
unfolding prelude
count-prelude call logged_call [] = ground arith
count-prelude call logged_call (c ∷ calls) = ground (arith, count-prelude call logged_call calls)

-- A call that is in the list leaves it once.
pub epilog-count :
    (logged_call : String) (calls : List String)
    → 0 < count logged_call calls
    → (left : List String) × (epilog logged_call calls ≡ ok left)
      × ((call : String)
          → count call calls
            ≡ (if call == logged_call then suc (count call left) else count call left))
unfolding epilog
epilog-count logged_call [] pending = absurd (omega arith)
epilog-count logged_call (c ∷ calls) pending = elim (Bool-cases (logged_call == c)) [
  | inl here ↦ (calls, rw here refl, λ call. ground (arith, here))
  | inr later ↦
      let (left, removed, counts) = epilog-count logged_call calls (ground (arith, later)) in
      (c ∷ left, rw (later, removed) refl, λ call. ground (arith, counts call))
]

-- A call that enters the list and leaves it.
pub epilog-prelude :
    (logged_call : String) (calls : List String)
    → (left : List String) × (epilog logged_call (prelude logged_call calls) ≡ ok left)
      × ((call : String) → count call left ≡ count call calls)
epilog-prelude logged_call calls =
    let counted = λ (call : String). count-prelude call logged_call calls in
    let (left, removed, counts) =
      epilog-count logged_call (prelude logged_call calls) (ground (arith, counted logged_call)) in
    (left, removed, λ call. ground (arith, counts call, counted call))

take_results-all {ℓ} :
    {A : Type ℓ} (logged_call : String) (results : List A) (nexts : ℕ) (calls : List String)
    → length results < nexts
    → take_results logged_call results nexts calls ≡ (results, epilog logged_call calls)
unfolding take_results
take_results-all logged_call results zero calls enough = absurd (omega arith)
take_results-all logged_call [] (suc nexts) calls enough = refl
take_results-all logged_call (r ∷ rest) (suc nexts) calls enough =
    rw (take_results-all logged_call rest nexts calls (ground arith)) refl

take_results-some {ℓ} :
    {A : Type ℓ} (logged_call : String) (results : List A) (nexts : ℕ) (calls : List String)
    → nexts ≤ length results
    → (take_results logged_call results nexts calls).1 ≡ ok calls
unfolding take_results
take_results-some logged_call results zero calls few = refl
take_results-some logged_call [] (suc nexts) calls few = absurd (ground arith)
take_results-some logged_call (r ∷ rest) (suc nexts) calls few =
    take_results-some logged_call rest nexts calls (ground arith)

-- A streaming call of which the caller takes all results yields them, and leaves in the list of the
-- pending calls what was there, each as often. A call that the caller drops after some results, and
-- not past the last one, stays in the list.
pub stream_call-count {ℓ} :
    {A : Type ℓ} (logged_call : String) (results : List A) (nexts : ℕ) (calls : List String)
    → (length results < nexts
        → (left : List String) × (stream_call logged_call results nexts calls ≡ (results, ok left))
          × ((call : String) → count call left ≡ count call calls))
      × (0 < nexts
          → nexts ≤ length results
          → (stream_call logged_call results nexts calls).1 ≡ ok (prelude logged_call calls))
unfolding stream_call
stream_call-count logged_call results zero calls =
    (λ enough. absurd (omega arith), λ some few. absurd (omega arith))
stream_call-count logged_call results (suc nexts) calls = (
  λ enough.
      let (left, removed, counts) = epilog-prelude logged_call calls in
      (
        left,
        take_results-all logged_call results (suc nexts) (prelude logged_call calls) enough
            ∙ ap (λ (e : Result (List String)). (results, e)) removed,
        counts,
      ),
  λ some few. take_results-some logged_call results (suc nexts) (prelude logged_call calls) few,
)
