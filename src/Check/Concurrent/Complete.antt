-- ===== src/Check/Concurrent/Complete.antt =====
-- What concurrent calls of CheckAll of opskit.go come to.
use clientkit.Prelude.{
  ℕ, zero, suc, ◌*◌, ◌<◌, ◌≤◌, ◌≡◌, ◌⊎◌, refl, ap, Bool, true, Option, some, List, [], ◌∷◌, ◌++◌,
  map, length, min, total, total-append, All, All-append, All-imp, arith, pos_part, ℤ, pos, negsuc,
}
use clientkit.Text.{Text}
use clientkit.Health.{Health}
use clientkit.Registry.{Registry, normalized_max_concurrent_checks}
use clientkit.Registry.Consistent.{IsConsistent}
use clientkit.Check.Concurrent.{
  Job, Stage, idle, Worker, Shared, System, publish, is_none, Move, take_job, take_slot, leave_slot,
  take_permit, leave_permit, release_permit, publish_result, move, drop_job, Run, begin, go_on,
  end_call, check_capacity, replicate, jobs_of, workers_of, begin_checks,
}
use clientkit.Check.Concurrent.Safe.{
  total-idle, at_work, at_result, Run-IsSafe, begin_checks-IsSafe,
}
use clientkit.Check.Concurrent.Progress.{of_call, rank, Staffed, Run-Staffed, Run-remaining}
use clientkit.Check.Concurrent.Ends.{IsOver, CanGoOn, goes_on, is_idle}

check_capacity-positive : (r : Registry) → 0 < check_capacity r
unfolding check_capacity normalized_max_concurrent_checks
check_capacity-positive r = positive r.max_concurrent_checks
  where
    positive :
        (bound : ℤ)
        → 0
          < pos_part
              (normalized_max_concurrent_checks (some (record r { max_concurrent_checks = bound })))
    positive (pos n) = ground arith
    positive (negsuc n) = ground arith

crew-of_call : (call n : ℕ) → total (of_call call) (replicate n (call, idle)) ≡ n
unfolding replicate
crew-of_call call zero = refl
crew-of_call call (suc n) = ground (arith, crew-of_call call n)

jobs_of-Staffed :
    (cap : ℕ)
    → 0 < cap
    → (first : ℕ) (calls : List (List Text))
    → Staffed (workers_of cap first calls) (jobs_of first calls)
unfolding jobs_of workers_of
jobs_of-Staffed cap room first [] = tt
jobs_of-Staffed cap room first (names ∷ calls) =
    All-append _ (map (λ name. (first, name)) names) (jobs_of (suc first) calls)
      (own names (omega arith))
      (All-imp (jobs_of (suc first) calls)
        (λ job staffed. omega (
          arith,
          staffed,
          total-append (of_call job.0) (replicate (min cap (length names)) (first, idle))
              (workers_of cap (suc first) calls),
        ))
        (jobs_of-Staffed cap room (suc first) calls))
  where
    own :
        (some_names : List Text)
        → length some_names ≤ length names
        → All
            (λ (job : Job).
              1
              ≤ total (of_call job.0) (
                  replicate (min cap (length names)) (first, idle)
                  ++ workers_of cap (suc first) calls))
            (map (λ name. (first, name)) some_names)
    own [] h = tt
    own (name ∷ others) h = (
      omega (
        arith,
        total-append (of_call first) (replicate (min cap (length names)) (first, idle))
            (workers_of cap (suc first) calls),
        crew-of_call first (min cap (length names)),
      ),
      own others (omega arith),
    )

-- A job without a result is one of a call whose context has ended.
abbrev pub NoneLost : (ℕ → Bool) → List (Job × Option Health) → Type 0
NoneLost ended = All (λ (r : Job × Option Health). is_none r.1 ≡ true → ended r.0.0 ≡ true)

module _ {cap : ℕ} where
  Move-NoneLost :
      (ended : ℕ → Bool) {over : Bool} {call : ℕ} {s t : Shared} {from to : Stage}
      → Move cap over call s from t to
      → NoneLost ended s.results
      → NoneLost ended t.results
  unfolding publish
  Move-NoneLost ended (take_job name ahead behind lasts e none_ahead) h = h
  Move-NoneLost ended (take_slot name free) h = h
  Move-NoneLost ended (leave_slot name m over error) h = ((λ none_is. cc), h)
  Move-NoneLost ended (take_permit name room) h = h
  Move-NoneLost ended (leave_permit name over) h = h
  Move-NoneLost ended (release_permit name) h = h
  Move-NoneLost ended (publish_result name permitted m slot permit lasts) h = ((λ none_is. cc), h)

  Run-NoneLost :
      {first s : System} {n : ℕ}
      → NoneLost first.ended first.shared.results
      → Run cap first n s
      → NoneLost s.ended s.shared.results
  Run-NoneLost h begin = h
  Run-NoneLost h (go_on {s} run (move before after call from e m)) =
      Move-NoneLost s.ended m (Run-NoneLost h run)
  Run-NoneLost h (go_on run (drop_job call name ahead behind over e)) =
      ((λ none_is. over), Run-NoneLost h run)
  Run-NoneLost h (end_call {s} call run) =
      All-imp s.shared.results (λ r kept none_is. ground (arith, kept none_is)) (Run-NoneLost h run)

total-at_work :
    (weight : Job → ℕ) (workers : List Worker)
    → All (λ w. is_idle w ≡ true) workers
    → total (at_work weight) workers ≡ 0
total-at_work weight [] h = refl
total-at_work weight ((call, idle) ∷ workers) h = omega (arith, total-at_work weight workers h.1)
total-at_work weight ((call, _) ∷ workers) h = cc

-- Calls of CheckAll on one consistent registry, however they interleave and whenever their contexts
-- end, have made at most five steps for each of their jobs, and either some goroutine can go on or all
-- is over. At any time only a job of a call whose context has ended has a result with no health. Once
-- all is over the results are the jobs, each of them as often as the calls had it: they weigh the same
-- however a job is weighed.
pub CheckAll-complete :
    (r : Registry) (calls : List (List Text)) {n : ℕ} {s : System}
    → IsConsistent r
    → Run (check_capacity r) (begin_checks r calls) n s
    → (n ≤ 5 * length (jobs_of 0 calls))
      × (IsOver s ⊎ CanGoOn (check_capacity r) s)
      × NoneLost s.ended s.shared.results
      × (IsOver s
          → (weight : Job → ℕ)
          → total (at_result weight) s.shared.results ≡ total weight (jobs_of 0 calls))
unfolding begin_checks
CheckAll-complete r calls {n} {s} c run =
    let i = Run-IsSafe (begin_checks-IsSafe r calls c) run in
    let cap = check_capacity r in
    (
      omega (arith, Run-remaining run, total-idle rank (λ call. refl) cap 0 calls),
      goes_on cap s (check_capacity-positive r) i
          (Run-Staffed (jobs_of-Staffed cap (check_capacity-positive r) 0 calls) run),
      Run-NoneLost tt run,
      λ over weight. omega (
        arith,
        i.jobs_kept weight,
        ap (total weight) over.none_pending,
        total-at_work weight s.workers over.all_idle,
      ),
    )
